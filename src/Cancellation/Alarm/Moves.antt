-- ===== src/Cancellation/Alarm/Moves.antt =====
-- What the accesses of the task and the handles that change something do to the alarm.
use spawns.Prelude.{ℕ, ◌≡◌, ◌≢◌, refl, subst, ◌∷◌, Option, none, some, arith}
use spawns.Joint.{Waker}
use spawns.Cancellation.{null, cancelled, ptr, set_at, free}
use spawns.Cancellation.Protocol.{Memory, current, CancelPc, TaskPc}
use spawns.Cancellation.Ownership.{Owner, held}
use spawns.Cancellation.Invariant.{Inv}
use spawns.Cancellation.Once.{Once}
use spawns.Cancellation.Alarm.{Alarm, Move, Shows, unset, set, ringing, over, Moves, box-Shows}

module _ {t : TaskPc} {pcs : ℕ → CancelPc} {m : Memory} {own : ℕ → Owner} (inv : Inv t pcs m own)
    (once : Once pcs m) where
  abbrev pub tripped : Memory
  tripped = record m { slots = cancelled ∷ m.slots }

  -- A handle puts `CANCELLED` in place of null.
  pub mute-Moves :
      {a : Alarm} (k : ℕ)
      → current m.slots ≡ null
      → Shows (current m.slots) pcs m.boxes a
      → Moves (set_at pcs k CancelPc.idle) tripped a m.woken
  unfolding Moves
  mute-Moves k e (unset p) =
      (Alarm.over, over refl (λ i. ground (arith, (once i i).quiet)), Move.mutes)
  mute-Moves k e (set b p q) = absurd (cc)
  mute-Moves k e (ringing i b p q r) = absurd (cc)
  mute-Moves k e (over p q) = absurd (cc)

  -- A handle puts `CANCELLED` in place of a box.
  pub set_off-Moves :
      {a : Alarm} (k c : ℕ)
      → current m.slots ≡ ptr c
      → Shows (current m.slots) pcs m.boxes a
      → Moves (set_at pcs k (CancelPc.waking c)) tripped a m.woken
  unfolding Moves
  set_off-Moves k c e (unset p) = absurd (cc)
  set_off-Moves k c e (set b p q) =
      (_, ringing k c refl (ground arith) (ground arith), Move.goes_off)
  set_off-Moves k c e (ringing i b p q r) = absurd (cc)
  set_off-Moves k c e (over p q) = absurd (cc)

  -- A handle wakes the waker of the box that it took out.
  pub ring-Moves :
      {a : Alarm} (k c : ℕ) (w : Waker)
      → pcs k ≡ CancelPc.waking c
      → m.boxes c ≡ some w
      → Shows (current m.slots) pcs m.boxes a
      → Moves
          (set_at pcs k CancelPc.idle)
          (record m { boxes = free c m.boxes; woken = w ∷ m.woken })
          a
          m.woken
  unfolding Moves
  ring-Moves k c w e f (unset p) = absurd (ground (arith, (once k k).quiet))
  ring-Moves k c w e f (set b p q) = absurd (ground (arith, (once k k).quiet))
  ring-Moves k c w e f (ringing {w = v} i b p q r) = (
    Alarm.over,
    over p (λ j. ground (arith, (once j k).only)),
    subst (λ u. Move (Alarm.ringing v) m.woken Alarm.over (u ∷ m.woken))
        (ground (arith, (once i k).only)) Move.wakes,
  )
  ring-Moves k c w e f (over p q) = absurd (ground (arith, q k))

  -- The task puts its box in place of null or of another box.
  pub store-Moves :
      {a : Alarm} (w : Waker) (b : ℕ)
      → m.boxes b ≡ some w
      → current m.slots ≢ cancelled
      → Shows (current m.slots) pcs m.boxes a
      → Moves pcs (record m { slots = ptr b ∷ m.slots }) a m.woken
  unfolding Moves
  store-Moves w b e f (unset p) = (_, set b refl e, Move.sets w)
  store-Moves w b e f (set c p q) = (_, set b refl e, Move.resets w)
  store-Moves w b e f (ringing i c p q r) = absurd (f p)
  store-Moves w b e f (over p q) = absurd (f p)

  -- The box in the task's hand changes.
  pub held-Moves :
      {a : Alarm} (c : ℕ) (o : Option Waker)
      → held t ≡ some c
      → Shows (current m.slots) pcs m.boxes a
      → Moves pcs (record m { boxes = set_at m.boxes c o }) a m.woken
  unfolding Moves
  held-Moves c o e h = (
    _,
    box-Shows c o (λ p. ground (arith, inv.owns 0 c)) (λ i p. ground (arith, inv.owns i c)) h,
    Move.stays,
  )

  -- A new box is filled.
  pub new-Moves :
      {a : Alarm} (c : ℕ) (o : Option Waker)
      → m.boxes c ≡ none
      → Shows (current m.slots) pcs m.boxes a
      → Moves pcs (record m { boxes = set_at m.boxes c o }) a m.woken
  unfolding Moves
  new-Moves c o e h = (
    _,
    box-Shows c o (λ p. ground (arith, inv.owns 0 c)) (λ i p. ground (arith, inv.owns i c)) h,
    Move.stays,
  )
