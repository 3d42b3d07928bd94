-- ===== src/Cancellation/Invariant.antt =====
-- What holds between any two accesses of the task and of the cancel handles.
pub mod CancelSteps
pub mod TaskSteps
use spawns.Prelude.{
  inr, inl, Bool-cases, ℕ, ◌≡◌, ◌≢◌, refl, List, [], ◌∷◌, Option, none, some, Bool, true, Among,
  arith, ◌==◌,
}
use spawns.Joint.{Waker}
use spawns.Cancellation.{Slot, null, cancelled, ptr, slot_eq, Boxes}
use spawns.Cancellation.Protocol.{exchanged, Memory, current, CancelPc, TaskPc, System}
use spawns.Cancellation.Ownership.{Owner, held, Owns}

pub slot_eq_sound : (a b : Slot) → slot_eq a b ≡ true → a ≡ b
slot_eq_sound null b e = ground arith
slot_eq_sound cancelled b e = ground arith
slot_eq_sound (ptr a) b e = ground arith

-- A compare-exchange that succeeds found the value that it expects.
pub exchanged_won :
    (seen cur : Slot) (slots : List Slot) → exchanged seen cur slots ≡ none → current slots ≡ cur
unfolding exchanged
exchanged_won seen cur slots e = elim (Bool-cases (slot_eq (current slots) cur)) [
  | inl same ↦ slot_eq_sound (current slots) cur same
  | inr other ↦ absurd (ground (arith, e))
]

-- The waker of a parked task is stored, has been woken, or is about to be.
pub data Scheduled (w : Waker) (pcs : ℕ → CancelPc) (m : Memory) : Type 0 where
  stored : (b : ℕ) → current m.slots ≡ ptr b → m.boxes b ≡ some w → Scheduled w pcs m
  woken : current m.slots ≡ cancelled → Among w m.woken → Scheduled w pcs m
  waking :
      (i b : ℕ)
      → current m.slots ≡ cancelled
      → pcs i ≡ CancelPc.waking b
      → m.boxes b ≡ some w
      → Scheduled w pcs m

abbrev pub Due : TaskPc → (ℕ → CancelPc) → Memory → Type 0
Due (TaskPc.parked w _) pcs m = Scheduled w pcs m
Due _ pcs m = Unit

-- The box in the task's hand holds the waker of this poll.
abbrev pub Armed : TaskPc → Boxes → Type 0
Armed (TaskPc.loading w b) boxes = boxes b ≡ some w
Armed (TaskPc.trying w b _) boxes = boxes b ≡ some w
Armed _ boxes = Unit

pub record Inv (t : TaskPc) (pcs : ℕ → CancelPc) (m : Memory) (own : ℕ → Owner) : Type 0 where
  pub final : Among cancelled m.slots → current m.slots ≡ cancelled
  pub owns : Owns (current m.slots) (held t) pcs m.boxes own
  pub safe : (i : ℕ) → pcs i ≢ CancelPc.dangling
  pub armed : Armed t m.boxes
  pub due : Due t pcs m
