-- ===== src/Cancellation/Ownership.antt =====
-- Who owns each box: the pointer, the task, or the handle that took it out to wake its waker.
use spawns.Prelude.{ℕ, ◌≡◌, Option, none, some, arith}
use spawns.Joint.{Waker}
use spawns.Cancellation.{Slot, null, cancelled, ptr, Boxes, set_at, free}
use spawns.Cancellation.Protocol.{CancelPc, TaskPc}

pub data Owner : Type 0 where
  nobody slot task : Owner
  handle : ℕ → Owner

-- The box that the task holds: its spare one, or the one it is about to store.
abbrev pub held : TaskPc → Option ℕ
held TaskPc.fresh = none
held (TaskPc.parked w spare) = spare
held (TaskPc.checking spare) = spare
held (TaskPc.polling spare) = spare
held (TaskPc.loading w b) = some b
held (TaskPc.trying w b cur) = some b
held (TaskPc.finished spare) = spare
held TaskPc.dropped = none

-- The box that a handle took out of the pointer.
abbrev pub took : CancelPc → Option ℕ
took (CancelPc.waking b) = some b
took _ = none

abbrev pub IsLive : Option Waker → Type 0
IsLive none = ⊥
IsLive (some w) = Unit

module _ (cur : Slot) (h : Option ℕ) (pcs : ℕ → CancelPc) (boxes : Boxes) where
  abbrev pub Owned : Owner → ℕ → Type 0
  Owned nobody b = boxes b ≡ none
  Owned slot b = (cur ≡ ptr b) × IsLive (boxes b)
  Owned task b = (h ≡ some b) × IsLive (boxes b)
  Owned (handle i) b = (took (pcs i) ≡ some b) × IsLive (boxes b)

  -- Box `b` is live exactly if it has an owner, and handle `i`, the task and the pointer each hold
  -- what they own.
  pub record OwnsAt (own : ℕ → Owner) (i b : ℕ) : Type 0 where
    pub owned : Owned (own b) b
    pub of_slot : cur ≡ ptr b → own b ≡ slot
    pub of_task : h ≡ some b → own b ≡ task
    pub of_handle : took (pcs i) ≡ some b → own b ≡ handle i

  abbrev pub Owns : (ℕ → Owner) → Type 0
  Owns own = (i b : ℕ) → OwnsAt own i b

module _ {cur : Slot} {h : Option ℕ} {pcs : ℕ → CancelPc} {boxes : Boxes} {own : ℕ → Owner}
    (inv : Owns cur h pcs boxes own) where
  -- A handle moves, and holds what it held.
  pub move-Owns :
      (k : ℕ) (pc : CancelPc) → took pc ≡ took (pcs k) → Owns cur h (set_at pcs k pc) boxes own
  move-Owns k pc e i b = ground (arith, inv i b)

  -- A handle puts `CANCELLED` in place of null.
  pub cancel_null-Owns :
      (k : ℕ) (pc : CancelPc)
      → cur ≡ null
      → took pc ≡ none
      → took (pcs k) ≡ none
      → Owns cancelled h (set_at pcs k pc) boxes own
  cancel_null-Owns k pc e f g i b = ground (arith, inv i b)

  -- A handle puts `CANCELLED` in place of a box.
  pub take-Owns :
      (k c : ℕ)
      → cur ≡ ptr c
      → took (pcs k) ≡ none
      → Owns cancelled h (set_at pcs k (CancelPc.waking c)) boxes (set_at own c (handle k))
  take-Owns k c e f i b = ground (arith, inv i b, inv i c)

  -- A handle wakes the waker of its box, and the box is freed.
  pub wake-Owns :
      (k c : ℕ)
      → took (pcs k) ≡ some c
      → Owns cur h (set_at pcs k CancelPc.idle) (free c boxes) (set_at own c nobody)
  wake-Owns k c e i b = ground (arith, inv i b, inv k c, inv k b)

  pub alloc-Owns :
      (w : Waker) (c : ℕ)
      → h ≡ none
      → boxes c ≡ none
      → Owns cur (some c) pcs (set_at boxes c (some w)) (set_at own c task)
  alloc-Owns w c e f i b = ground (arith, inv i b, inv i c)

  pub refill-Owns : (w : Waker) (c : ℕ) → h ≡ some c → Owns cur h pcs (set_at boxes c (some w)) own
  refill-Owns w c e i b = ground (arith, inv i b, inv i c)

  pub free-Owns : (c : ℕ) → h ≡ some c → Owns cur none pcs (free c boxes) (set_at own c nobody)
  free-Owns c e i b = ground (arith, inv i b, inv i c)

  pub publish-Owns :
      (c : ℕ) → h ≡ some c → cur ≡ null → Owns (ptr c) none pcs boxes (set_at own c slot)
  publish-Owns c e f i b = ground (arith, inv i b, inv i c)

  pub swap-Owns :
      (c d : ℕ)
      → h ≡ some c
      → cur ≡ ptr d
      → Owns (ptr c) (some d) pcs boxes (set_at (set_at own d task) c slot)
  swap-Owns c d e f i b = ground (arith, inv i b, inv i c, inv i d)
