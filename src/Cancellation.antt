-- ===== src/Cancellation.antt =====
-- spawns-core/src/task.rs: `Cancellation`, one pointer that the task and its cancel handles share.
-- Each function here is one call that no other thread interleaves with; `Cancellation.Protocol` has
-- the same code a shared access at a time.
-- A `Box<Waker>` is an address; `boxes` says which addresses hold a live box, and its waker.
pub mod Protocol
pub mod Ownership
pub mod Invariant
pub mod Once
pub mod Seen
pub mod Bounds
pub mod Late
pub mod Latest
pub mod Alarm
pub mod Termination
pub mod Words
pub mod Safety
pub mod Atomic
mod Samples
use spawns.Prelude.{
  ℕ, ◌≡◌, Bool, true, false, List, [], ◌∷◌, Option, none, some, Result, ok, err, Outcome, returns,
  panics, ◌==◌, if◌then◌else◌,
}
use spawns.Joint.{Waker}

-- What the `AtomicPtr<Waker>` holds: null, the constant `CANCELLED`, or a box.
pub data Slot : Type 0 where
  null cancelled : Slot
  ptr : ℕ → Slot

-- `ptr::eq`
abbrev pub slot_eq : Slot → Slot → Bool
slot_eq null null = true
slot_eq cancelled cancelled = true
slot_eq (ptr a) (ptr b) = a == b
slot_eq _ _ = false

abbrev pub Boxes : Type 0
Boxes = ℕ → Option Waker

abbrev pub set_at {ℓ} : {A : Type ℓ} → (ℕ → A) → ℕ → A → ℕ → A
set_at f i a j = if i == j then a else f j

-- The box at this address is freed.
abbrev pub free : ℕ → Boxes → Boxes
free b boxes = set_at boxes b none

-- `Default for Cancellation`
unfoldable pub default : Slot
default = null

unfoldable pub is_cancelled : Slot → Bool
is_cancelled current = slot_eq current cancelled

-- A box that is not live is taken back from its address.
pub data Fault : Type 0 where
  dangling : Fault

-- `Box::from_raw(current)`, then `waker.wake()`, which consumes the box.
unfoldable pub wake_box : ℕ → Boxes → Outcome Fault (List Waker × Boxes)
wake_box b boxes = elim (boxes b) [
  | none ↦ panics dangling
  | some waker ↦ returns (waker ∷ [], free b boxes)
]

-- `Cancellation::cancel`: the pointer, the wakers woken and the boxes.
unfoldable pub cancel : Slot → Boxes → Slot × Outcome Fault (List Waker × Boxes)
unfolding wake_box
cancel cancelled boxes = (cancelled, returns ([], boxes))
cancel null boxes = (cancelled, returns ([], boxes))
cancel (ptr b) boxes = (cancelled, wake_box b boxes)

-- `Cancellation::update` with the box at this address: the pointer, and the box that comes back.
-- The box is freed if the task is cancelled.
unfoldable pub update : ℕ → Slot → Boxes → Slot × Result (Option ℕ) (Unit {0}) × Boxes
update b cancelled boxes = (cancelled, err tt, free b boxes)
update b null boxes = (ptr b, ok none, boxes)
update b (ptr old) boxes = (ptr b, ok (some old), boxes)

-- `Drop for Cancellation`
unfoldable pub drop : Slot → Boxes → Boxes
drop null boxes = boxes
drop cancelled boxes = boxes
drop (ptr b) boxes = free b boxes
