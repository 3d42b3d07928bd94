-- ===== src/Cancellation/Late.antt =====
-- What a task may still do after its cancellation (`TaskFuture`'s poll, spawns-core/src/task.rs).
use spawns.Prelude.{ℕ, ◌+◌, ◌≤◌, ◌≡◌, arith}
use spawns.Cancellation.{Slot, null, cancelled, ptr}
use spawns.Cancellation.Protocol.{
  exchanged, Memory, current, TaskPc, System, Step, clone, release, cancel, cancel_on, poll_first,
  poll, ends, pends_new, pends_spare, task_on, drop_fresh, drop_parked, drop_finished, task_step,
}
use spawns.Cancellation.Safety.{cancelled_for_good}

-- A step from `checking` to `polling` is a poll of the user's future.
abbrev pub future_polls : TaskPc → TaskPc → ℕ
future_polls (TaskPc.checking _) (TaskPc.polling _) = 1
future_polls _ _ = 0

-- Any steps, with the number of polls of the user's future in them.
pub data Run (s : System) : System → ℕ → Type 0 where
  stop : Run s s 0
  then : {t u : System} {n : ℕ} → Run s t n → Step t u → Run s u (n + future_polls t.task u.task)

-- A poll that has not looked at the pointer yet may still get to the future.
abbrev polls_left : TaskPc → ℕ
polls_left TaskPc.fresh = 1
polls_left (TaskPc.parked _ _) = 1
polls_left (TaskPc.checking _) = 1
polls_left _ = 0

task_step_left :
    (seen : Slot) (t : TaskPc) (m : Memory)
    → current m.slots ≡ cancelled
    → future_polls t (task_step seen t m).0 + polls_left (task_step seen t m).0 ≤ polls_left t
unfolding task_step exchanged
task_step_left seen (TaskPc.trying w b null) m e = ground arith
task_step_left seen (TaskPc.trying w b cancelled) m e = ground arith
task_step_left seen (TaskPc.trying w b (ptr c)) m e = ground arith
task_step_left seen (TaskPc.checking p) m e = ground arith
task_step_left seen _ m e = ground arith

Step-polls_left :
    {s t : System}
    → Step s t
    → current s.slots ≡ cancelled
    → future_polls s.task t.task + polls_left t.task ≤ polls_left s.task
Step-polls_left {s} (task_on seen a) e = task_step_left seen s.task s.memory e
Step-polls_left (clone i f) e = ground arith
Step-polls_left (release i f) e = ground arith
Step-polls_left (cancel i f) e = ground arith
Step-polls_left (cancel_on i seen a) e = ground arith
Step-polls_left (poll_first f) e = ground arith
Step-polls_left (poll w p f) e = ground arith
Step-polls_left (ends p f) e = ground arith
Step-polls_left (pends_new w b f g) e = ground arith
Step-polls_left (pends_spare w b f) e = ground arith
Step-polls_left (drop_fresh f) e = ground arith
Step-polls_left (drop_parked w p f) e = ground arith
Step-polls_left (drop_finished p f) e = ground arith

Run-polls_left :
    {s t : System} {n : ℕ}
    → Run s t n
    → current s.slots ≡ cancelled
    → (current t.slots ≡ cancelled) × (n + polls_left t.task ≤ polls_left s.task)
Run-polls_left stop e = (e, omega arith)
Run-polls_left (then r st) e =
    let (f, bound) = Run-polls_left r e in
    ((cancelled_for_good st f).0, omega (arith, bound, Step-polls_left st f))

-- Once the pointer is `CANCELLED`, the user's future is polled at most once more, however often the
-- task is polled, whatever its loads still see, and whatever the handles do.
pub polled_once_more : {s t : System} {n : ℕ} → Run s t n → current s.slots ≡ cancelled → n ≤ 1
polled_once_more {s} r e = ground (arith, (Run-polls_left r e).1)
