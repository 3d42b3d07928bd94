-- ===== src/Cancellation/Alarm.antt =====
-- The cancellation as an alarm: what `Cancellation` of spawns-core/src/task.rs is to the task and to
-- its cancellers, with no pointer, box or atomic in sight.
pub mod Moves
pub mod Steps
use spawns.Prelude.{
  ℕ, ◌≡◌, ◌≢◌, refl, subst, List, ◌∷◌, Option, none, some, arith, inl, inr, Option-cases,
}
use spawns.Joint.{Waker}
use spawns.Cancellation.{Slot, null, cancelled, ptr, Boxes, set_at, free}
use spawns.Cancellation.Protocol.{
  exchanged, Memory, current, CancelPc, TaskPc, System, Step, Reach, clone, release, cancel,
  cancel_on, poll_first, poll, ends, pends_new, pends_spare, task_on, drop_fresh, drop_parked,
  drop_finished, cancel_step, task_step, wake_found, free_spare,
}
use spawns.Cancellation.Ownership.{Owner, held, took}
use spawns.Cancellation.Invariant.{Inv, exchanged_won}
use spawns.Cancellation.Safety.{Reach-Inv}
use spawns.Cancellation.Once.{Once, Reach-Once}

-- It is set with the waker of the last pending poll; set off, it rings once; and it is over.
pub data Alarm : Type 0 where
  unset over : Alarm
  set ringing : Waker → Alarm

-- The moves of an alarm, with the wakers that it has woken.
pub data Move : Alarm → List Waker → Alarm → List Waker → Type 0 where
  stays : {a : Alarm} {ws : List Waker} → Move a ws a ws
  sets : {ws : List Waker} (w : Waker) → Move Alarm.unset ws (Alarm.set w) ws
  resets : {v : Waker} {ws : List Waker} (w : Waker) → Move (Alarm.set v) ws (Alarm.set w) ws
  mutes : {ws : List Waker} → Move Alarm.unset ws Alarm.over ws
  goes_off : {w : Waker} {ws : List Waker} → Move (Alarm.set w) ws (Alarm.ringing w) ws
  wakes : {w : Waker} {ws : List Waker} → Move (Alarm.ringing w) ws Alarm.over (w ∷ ws)

-- The alarm that a pointer, the handles and the boxes stand for.
pub data Shows (cur : Slot) (pcs : ℕ → CancelPc) (boxes : Boxes) : Alarm → Type 0 where
  unset : cur ≡ null → Shows cur pcs boxes Alarm.unset
  set : {w : Waker} (b : ℕ) → cur ≡ ptr b → boxes b ≡ some w → Shows cur pcs boxes (Alarm.set w)
  ringing :
      {w : Waker} (i b : ℕ)
      → cur ≡ cancelled
      → pcs i ≡ CancelPc.waking b
      → boxes b ≡ some w
      → Shows cur pcs boxes (Alarm.ringing w)
  over : cur ≡ cancelled → ((i : ℕ) → took (pcs i) ≡ none) → Shows cur pcs boxes Alarm.over

-- A step that starts at this alarm makes one of its moves.
unfoldable pub Moves : (ℕ → CancelPc) → Memory → Alarm → List Waker → Type 0
Moves pcs m a ws = (b : Alarm) × Shows (current m.slots) pcs m.boxes b × Move a ws b m.woken

-- A handle that holds no box moves.
pub move-Shows :
    {cur : Slot} {pcs : ℕ → CancelPc} {boxes : Boxes} {a : Alarm} (k : ℕ) (pc : CancelPc)
    → took (pcs k) ≡ none
    → took pc ≡ none
    → Shows cur pcs boxes a
    → Shows cur (set_at pcs k pc) boxes a
move-Shows k pc e f (unset p) = unset p
move-Shows k pc e f (set b p q) = set b p q
move-Shows k pc e f (ringing i b p q r) = ringing i b p (ground arith) r
move-Shows k pc e f (over p q) = over p (λ i. ground (arith, q i))

-- A box that neither the pointer nor a handle has changes.
pub box-Shows :
    {cur : Slot} {pcs : ℕ → CancelPc} {boxes : Boxes} {a : Alarm} (c : ℕ) (o : Option Waker)
    → cur ≢ ptr c
    → ((i : ℕ) → took (pcs i) ≢ some c)
    → Shows cur pcs boxes a
    → Shows cur pcs (set_at boxes c o) a
box-Shows c o e f (unset p) = unset p
box-Shows c o e f (set b p q) = set b p (ground arith)
box-Shows c o e f (ringing i b p q r) = ringing i b p q (ground (arith, f i))
box-Shows c o e f (over p q) = over p q

pub calm :
    {pcs : ℕ → CancelPc} {a : Alarm} (m : Memory) (k : ℕ) (pc : CancelPc)
    → took (pcs k) ≡ none
    → took pc ≡ none
    → Shows (current m.slots) pcs m.boxes a
    → Moves (set_at pcs k pc) m a m.woken
unfolding Moves
calm m k pc e f h = (_, move-Shows k pc e f h, Move.stays)
