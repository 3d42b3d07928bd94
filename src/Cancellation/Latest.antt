-- ===== src/Cancellation/Latest.antt =====
-- What the task of spawns-core/src/task.rs does with `Cancellation` when each access sees the last
-- value of the pointer.
use spawns.Prelude.{◌≡◌, ◌≢◌, refl, ◌⊎◌, inl, true, false, Option, none, some, Among, arith, ℕ}
use spawns.Joint.{Waker}
use spawns.Cancellation.{Slot, null, cancelled, ptr}
use spawns.Cancellation.Protocol as C
use spawns.Cancellation.Protocol.{
  Memory, CancelPc, TaskPc, current, cancel_step, task_step, exchanged, free_spare, wake_found,
}
use spawns.Cancellation.Safety.{is_parked}
use spawns.Cancellation.Seen.{is_over}

-- A load may always see the last value.
cancel_step-slots :
    (seen : Slot) (pc : CancelPc) (m : Memory)
    → Among (current m.slots) m.slots
    → let n = (cancel_step seen pc m).1 in Among (current n.slots) n.slots
unfolding cancel_step exchanged wake_found
cancel_step-slots seen pc m e = ground arith

task_step-slots :
    (seen : Slot) (t : TaskPc) (m : Memory)
    → Among (current m.slots) m.slots
    → let n = (task_step seen t m).1 in Among (current n.slots) n.slots
unfolding task_step exchanged
task_step-slots seen t m e = ground arith

spare-slots :
    (spare : Option ℕ) (m : Memory)
    → Among (current m.slots) m.slots
    → let n = free_spare spare m in Among (current n.slots) n.slots
spare-slots none m e = e
spare-slots (some b) m e = e

pub has_current : {s : C.System} → C.Reach s → Among (current s.slots) s.slots
has_current C.start = inl refl
has_current (C.later r (C.clone i e)) = has_current r
has_current (C.later r (C.release i e)) = has_current r
has_current (C.later r (C.cancel i e)) = has_current r
has_current (C.later {s} r (C.cancel_on i seen a)) =
    cancel_step-slots seen (s.cancels i) s.memory (has_current r)
has_current (C.later r (C.poll_first e)) = has_current r
has_current (C.later r (C.poll w p e)) = has_current r
has_current (C.later r (C.ends p e)) = has_current r
has_current (C.later r (C.pends_new w b e f)) = has_current r
has_current (C.later r (C.pends_spare w b e)) = has_current r
has_current (C.later {s} r (C.task_on seen a)) =
    task_step-slots seen s.task s.memory (has_current r)
has_current (C.later r (C.drop_fresh e)) = has_current r
has_current (C.later {s} r (C.drop_parked w p e)) = spare-slots p s.memory (has_current r)
has_current (C.later {s} r (C.drop_finished p e)) = spare-slots p s.memory (has_current r)

pub looked :
    (m : Memory) (t : TaskPc) (p : Option ℕ)
    → t ≡ TaskPc.checking p
    → is_over (task_step (current m.slots) t m).0 ≡ false
    → (task_step (current m.slots) t m).0 ≡ TaskPc.polling p
unfolding task_step
looked m t p e f = ground arith

-- An exchange either ends the poll, or is tried once more with what the pointer holds.
pub tried :
    (m : Memory) (t : TaskPc) (w : Waker) (b : ℕ) (cur : Slot)
    → t ≡ TaskPc.trying w b cur
    → let r = task_step (current m.slots) t m in
      is_over r.0 ≡ false
      → (is_parked r.0 ≡ true)
        ⊎ ((r.0 ≡ TaskPc.trying w b (current r.1.slots)) × (cur ≢ current m.slots))
unfolding task_step exchanged
tried m t w b null e f = ground (arith, m.slots)
tried m t w b cancelled e f = ground arith
tried m t w b (ptr c) e f = ground arith

pub parked-cases :
    (t : TaskPc) → is_parked t ≡ true → (w : Waker) × (p : Option ℕ) × (t ≡ TaskPc.parked w p)
parked-cases (TaskPc.parked w p) e = (w, p, refl)
parked-cases _ e = absurd (cc)
