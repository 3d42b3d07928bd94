-- ===== src/Cancellation/Seen.antt =====
-- What the task has seen of the pointer (`TaskFuture`'s poll, spawns-core/src/task.rs), and what the
-- pointer is.
use spawns.Prelude.{◌≡◌, refl, Bool, true, false, Among, arith}
use spawns.Cancellation.{Slot, cancelled}
use spawns.Cancellation.Protocol.{
  exchanged, Memory, current, TaskPc, System, Step, Reach, start, later, clone, release, cancel,
  cancel_on, poll_first, poll, ends, pends_new, pends_spare, task_on, drop_fresh, drop_parked,
  drop_finished, task_step,
}
use spawns.Cancellation.Invariant.{slot_eq_sound}
use spawns.Cancellation.Safety.{Reach-Inv, cancel_step-current}

-- The task has read `CANCELLED`.
abbrev Doomed : TaskPc → Slot → Type 0
Doomed (TaskPc.trying w b cancelled) cur = cur ≡ cancelled
Doomed _ cur = Unit

keep-Doomed :
    (t : TaskPc) (cur next : Slot)
    → (cur ≡ cancelled → next ≡ cancelled)
    → Doomed t cur
    → Doomed t next
keep-Doomed t cur next f d = ground (arith, f)

module _ (m : Memory) (final : Among cancelled m.slots → current m.slots ≡ cancelled) (seen : Slot)
    (a : Among seen m.slots) where
  saw : seen ≡ cancelled → current m.slots ≡ cancelled
  saw e = final (rw e at a)

  task_step-Doomed :
      (t : TaskPc)
      → Doomed t (current m.slots)
      → Doomed (task_step seen t m).0 (current (task_step seen t m).1.slots)
  unfolding task_step exchanged
  task_step-Doomed t d = ground (arith, saw)

Step-Doomed :
    {s t : System}
    → Reach s
    → Step s t
    → Doomed s.task (current s.slots)
    → Doomed t.task (current t.slots)
Step-Doomed r (clone i f) d = d
Step-Doomed r (release i f) d = d
Step-Doomed r (cancel i f) d = d
Step-Doomed {s} r (cancel_on i seen a) d =
    keep-Doomed s.task _ _ (cancel_step-current seen (s.cancels i) s.memory) d
Step-Doomed r (poll_first f) d = tt
Step-Doomed r (poll w p f) d = tt
Step-Doomed r (ends p f) d = tt
Step-Doomed r (pends_new w b f g) d = tt
Step-Doomed r (pends_spare w b f) d = tt
Step-Doomed {s} r (task_on seen a) d =
    task_step-Doomed s.memory ((Reach-Inv r).1.final) seen a s.task d
Step-Doomed r (drop_fresh f) d = tt
Step-Doomed r (drop_parked w p f) d = tt
Step-Doomed r (drop_finished p f) d = tt

Reach-Doomed : {s : System} → Reach s → Doomed s.task (current s.slots)
Reach-Doomed start = tt
Reach-Doomed (later r st) = Step-Doomed r st (Reach-Doomed r)

-- The future of the task is gone.
abbrev pub is_over : TaskPc → Bool
is_over (TaskPc.finished _) = true
is_over TaskPc.dropped = true
is_over _ = false

-- The task is looking at the pointer.
abbrev pub is_looking : TaskPc → Bool
is_looking (TaskPc.checking _) = true
is_looking (TaskPc.trying _ _ _) = true
is_looking _ = false

task_step_over :
    (m : Memory) (seen : Slot) (t : TaskPc)
    → (seen ≡ cancelled → current m.slots ≡ cancelled)
    → Doomed t (current m.slots)
    → is_looking t ≡ true
    → is_over (task_step seen t m).0 ≡ true
    → current (task_step seen t m).1.slots ≡ cancelled
unfolding task_step exchanged
task_step_over m seen t f d e g = ground (arith, slot_eq_sound seen cancelled, f)

-- A poll that ends the task for being cancelled leaves the pointer `CANCELLED`.
pub over_when_looking :
    {s t : System}
    → Reach s
    → Step s t
    → is_looking s.task ≡ true
    → is_over t.task ≡ true
    → current t.slots ≡ cancelled
over_when_looking r (clone i f) e g = absurd (ground arith)
over_when_looking r (release i f) e g = absurd (ground arith)
over_when_looking r (cancel i f) e g = absurd (ground arith)
over_when_looking r (cancel_on i seen a) e g = absurd (ground arith)
over_when_looking r (poll_first f) e g = absurd (ground arith)
over_when_looking r (poll w p f) e g = absurd (ground arith)
over_when_looking r (ends p f) e g = absurd (ground arith)
over_when_looking r (pends_new w b f h) e g = absurd (ground arith)
over_when_looking r (pends_spare w b f) e g = absurd (ground arith)
over_when_looking {s} r (task_on seen a) e g =
    task_step_over s.memory seen s.task (saw s.memory ((Reach-Inv r).1.final) seen a)
      (Reach-Doomed r) e g
over_when_looking r (drop_fresh f) e g = absurd (ground arith)
over_when_looking r (drop_parked w p f) e g = absurd (ground arith)
over_when_looking r (drop_finished p f) e g = absurd (ground arith)

-- The task is inside a poll, where it may find out that it is over.
abbrev pub is_running : TaskPc → Bool
is_running (TaskPc.polling _) = true
is_running t = is_looking t

-- A task that ends outside a poll is dropped.
task_step_calm :
    (m : Memory) (seen : Slot) (t : TaskPc)
    → is_running t ≡ false
    → is_over (task_step seen t m).0 ≡ is_over t
unfolding task_step
task_step_calm m seen t e = ground arith

pub over_when_dropped :
    {s t : System}
    → Step s t
    → is_running s.task ≡ false
    → is_over s.task ≡ false
    → is_over t.task ≡ true
    → t.task ≡ TaskPc.dropped
over_when_dropped (clone i f) e g k = absurd (ground arith)
over_when_dropped (release i f) e g k = absurd (ground arith)
over_when_dropped (cancel i f) e g k = absurd (ground arith)
over_when_dropped (cancel_on i seen a) e g k = absurd (ground arith)
over_when_dropped (poll_first f) e g k = absurd (ground arith)
over_when_dropped (poll w p f) e g k = absurd (ground arith)
over_when_dropped (ends p f) e g k = absurd (ground arith)
over_when_dropped (pends_new w b f h) e g k = absurd (ground arith)
over_when_dropped (pends_spare w b f) e g k = absurd (ground arith)
over_when_dropped {s} (task_on seen a) e g k =
    absurd (ground (arith, task_step_calm s.memory seen s.task))
over_when_dropped (drop_fresh f) e g k = refl
over_when_dropped (drop_parked w p f) e g k = refl
over_when_dropped (drop_finished p f) e g k = refl

pub dropped_stays : {s t : System} → Step s t → s.task ≡ TaskPc.dropped → t.task ≡ TaskPc.dropped
unfolding task_step
dropped_stays (clone i f) e = e
dropped_stays (release i f) e = e
dropped_stays (cancel i f) e = e
dropped_stays (cancel_on i seen a) e = e
dropped_stays (poll_first f) e = absurd (cc)
dropped_stays (poll w p f) e = absurd (cc)
dropped_stays (ends p f) e = absurd (cc)
dropped_stays (pends_new w b f h) e = absurd (cc)
dropped_stays (pends_spare w b f) e = absurd (cc)
dropped_stays (task_on seen a) e = ground arith
dropped_stays (drop_fresh f) e = refl
dropped_stays (drop_parked w p f) e = refl
dropped_stays (drop_finished p f) e = refl
