-- ===== src/Cancellation/Termination.antt =====
-- When the loops of `Cancellation::cancel` and `Cancellation::update` (spawns-core/src/task.rs) end.
use spawns.Prelude.{
  ℕ, ◌+◌, ◌≤◌, ◌<◌, ◌≡◌, Bool, true, false, List, [], ◌∷◌, length, arith, if◌then◌else◌, Bool-cases,
  ◌⊎◌, inl, inr, subst,
}
use spawns.Joint.{Waker}
use spawns.Cancellation.{Slot, slot_eq}
use spawns.Cancellation.Protocol.{
  exchanged, Memory, current, CancelPc, TaskPc, cancel_step, task_step, wake_found,
}

-- The accesses of one thread, each at the memory that it finds, whose last value it sees.
pub cancel_through : List Memory → CancelPc → CancelPc
cancel_through [] pc = pc
cancel_through (m ∷ ms) pc = cancel_through ms (cancel_step (current m.slots) pc m).0

pub task_through : List Memory → TaskPc → TaskPc
task_through [] pc = pc
task_through (m ∷ ms) pc = task_through ms (task_step (current m.slots) pc m).0

-- How often the pointer differs from what it was at the access before.
abbrev pub changes : Slot → List Memory → ℕ
changes cur [] = 0
changes cur (m ∷ ms) =
    (if slot_eq (current m.slots) cur then 0 else 1) + changes (current m.slots) ms

abbrev pub is_trying : CancelPc → Bool
is_trying (CancelPc.trying _) = true
is_trying _ = false

abbrev pub is_updating : TaskPc → Bool
is_updating (TaskPc.trying _ _ _) = true
is_updating _ = false

-- The call has left its loop, or is not made.
abbrev is_past : CancelPc → Bool
is_past CancelPc.loading = false
is_past (CancelPc.trying _) = false
is_past _ = true

abbrev is_updated : TaskPc → Bool
is_updated (TaskPc.loading _ _) = false
is_updated (TaskPc.trying _ _ _) = false
is_updated _ = true

cancel_step-past :
    (seen : Slot) (pc : CancelPc) (m : Memory)
    → is_past pc ≡ true
    → is_past (cancel_step seen pc m).0 ≡ true
unfolding cancel_step wake_found
cancel_step-past seen pc m e = ground arith

cancel_through-past :
    (ms : List Memory) (pc : CancelPc)
    → is_past pc ≡ true
    → is_trying (cancel_through ms pc) ≡ false
unfolding cancel_through
cancel_through-past [] pc e = ground arith
cancel_through-past (m ∷ ms) pc e =
    cancel_through-past ms _ (cancel_step-past (current m.slots) pc m e)

task_step-updated :
    (seen : Slot) (pc : TaskPc) (m : Memory)
    → is_updated pc ≡ true
    → is_updated (task_step seen pc m).0 ≡ true
unfolding task_step
task_step-updated seen pc m e = ground arith

task_through-updated :
    (ms : List Memory) (pc : TaskPc)
    → is_updated pc ≡ true
    → is_updating (task_through ms pc) ≡ false
unfolding task_through
task_through-updated [] pc e = ground arith
task_through-updated (m ∷ ms) pc e =
    task_through-updated ms _ (task_step-updated (current m.slots) pc m e)

-- A compare-exchange leaves the loop, or finds that the value is another one.
cancel_step-retry :
    (cur : Slot) (m : Memory)
    → (is_past (cancel_step (current m.slots) (CancelPc.trying cur) m).0 ≡ true)
      ⊎ (((cancel_step (current m.slots) (CancelPc.trying cur) m).0
            ≡ CancelPc.trying (current m.slots))
          × (slot_eq (current m.slots) cur ≡ false))
unfolding cancel_step exchanged
cancel_step-retry cur m = ground arith

task_step-retry :
    (w : Waker) (b : ℕ) (cur : Slot) (m : Memory)
    → (is_updated (task_step (current m.slots) (TaskPc.trying w b cur) m).0 ≡ true)
      ⊎ (((task_step (current m.slots) (TaskPc.trying w b cur) m).0
            ≡ TaskPc.trying w b (current m.slots))
          × (slot_eq (current m.slots) cur ≡ false))
unfolding task_step exchanged
task_step-retry w b cur m = ground arith

cancel_retries :
    (ms : List Memory) (cur : Slot)
    → is_trying (cancel_through ms (CancelPc.trying cur)) ≡ true
    → length ms ≤ changes cur ms
unfolding cancel_through
cancel_retries [] cur e = omega arith
cancel_retries (m ∷ ms) cur e = elim (cancel_step-retry cur m) [
  | inl past ↦ absurd (ground (arith, e, cancel_through-past ms _ past))
  | inr (same, other) ↦ ground (
    arith,
    other,
    cancel_retries ms (current m.slots)
        (subst (λ pc. is_trying (cancel_through ms pc) ≡ true) same e),
  )
]

update_retries :
    (ms : List Memory) (w : Waker) (b : ℕ) (cur : Slot)
    → is_updating (task_through ms (TaskPc.trying w b cur)) ≡ true
    → length ms ≤ changes cur ms
unfolding task_through
update_retries [] w b cur e = omega arith
update_retries (m ∷ ms) w b cur e = elim (task_step-retry w b cur m) [
  | inl past ↦ absurd (ground (arith, e, task_through-updated ms _ past))
  | inr (same, other) ↦ ground (
    arith,
    other,
    update_retries ms w b (current m.slots)
        (subst (λ pc. is_updating (task_through ms pc) ≡ true) same e),
  )
]

-- A call of `cancel`, or of `update`, that is in its loop with the value `cur`, has left it after its
-- next accesses, each at any memory, whose last value it sees, if the pointer changed, from what
-- the call last saw, at fewer than all of these accesses: each time round the loop needs a change
-- by another thread, and with no change one access ends the loop.
pub loops_end :
    (ms : List Memory) (cur : Slot) (w : Waker) (b : ℕ)
    → changes cur ms < length ms
    → (is_trying (cancel_through ms (CancelPc.trying cur)) ≡ false)
      × (is_updating (task_through ms (TaskPc.trying w b cur)) ≡ false)
loops_end ms cur w b e = (
  elim (Bool-cases (is_trying (cancel_through ms (CancelPc.trying cur)))) [
    | inl still ↦ absurd (omega (arith, e, cancel_retries ms cur still))
    | inr left ↦ left
  ],
  elim (Bool-cases (is_updating (task_through ms (TaskPc.trying w b cur)))) [
    | inl still ↦ absurd (omega (arith, e, update_retries ms w b cur still))
    | inr left ↦ left
  ],
)
