-- ===== src/Lifecycle/Coupling.antt =====
-- How the two protocols fit together: each runs as if alone, and the task calls `wake` once.
use spawns.Prelude.{◌≡◌, ◌≢◌, refl, true, false, Option, none, some, Result, arith}
use spawns.Joint.{Stage, Payload, TaskResult}
use spawns.Joint.Protocol as J
use spawns.Joint.Protocol.{WakePc, wake_step}
use spawns.Joint.Safety as JS
use spawns.Cancellation.{cancelled}
use spawns.Cancellation.Protocol as C
use spawns.Cancellation.Protocol.{TaskPc, current}
use spawns.Cancellation.Safety as CS
use spawns.Cancellation.Seen.{
  is_over, is_looking, over_when_looking, is_running, over_when_dropped, dropped_stays,
}
use spawns.Lifecycle.{
  Cause, System, Step, Reach, start, later, goes, ends, joins, cause_at, value_of,
}

module _ {A : Type 0} where
  wake_step_busy :
      (seen : Stage) (t : WakePc A) (m : J.Shared A)
      → t ≢ WakePc.idle
      → (wake_step seen t m).0 ≢ WakePc.idle
  unfolding wake_step
  wake_step_busy seen t m e = ground arith

  -- Apart from `finish`, no step of the joint begins or undoes a `wake`.
  joint_idle :
      {s t : J.System A}
      → J.Reach s
      → J.Step s t
      → t.produced ≡ s.produced
      → s.task ≡ WakePc.idle
      → t.task ≡ WakePc.idle
  unfolding wake_step
  joint_idle r (J.finish v e) f g = absurd (ground (arith, (JS.Reach-Inv r).body))
  joint_idle r (J.wake seen i) f g = ground arith
  joint_idle r (J.poll w c) f g = g
  joint_idle r (J.drop c) f g = g
  joint_idle r (J.join seen i) f g = g

  joint_busy : {s t : J.System A} → J.Step s t → s.task ≢ WakePc.idle → t.task ≢ WakePc.idle
  joint_busy (J.finish v e) g = absurd (g e)
  joint_busy {s} (J.wake seen i) g = wake_step_busy seen s.task s.shared g
  joint_busy (J.poll w c) g = g
  joint_busy (J.drop c) g = g
  joint_busy (J.join seen i) g = g

  abbrev pub value_at : Option (Cause A) → Option (TaskResult A)
  value_at none = none
  value_at (some cause) = some (value_of cause)

  pub record Good (s : System A) : Type 0 where
    pub cancellation : C.Reach s.cancellation
    pub joint : J.Reach s.joint
    pub unfinished :
        is_over s.cancellation.task ≡ false → (s.joint.task ≡ WakePc.idle) × (s.cause ≡ none)
    pub over : is_over s.cancellation.task ≡ true → s.joint.task ≢ WakePc.idle
    pub produced : s.joint.produced ≡ value_at s.cause
    pub blamed : s.cause ≡ some Cause.by_cancel → current s.cancellation.slots ≡ cancelled
    pub dropped : s.cause ≡ some Cause.by_drop → s.cancellation.task ≡ TaskPc.dropped

  by_cancel_looks :
      (t : TaskPc) (given : Result A Payload)
      → some (cause_at t given) ≡ some Cause.by_cancel
      → is_looking t ≡ true
  by_cancel_looks t given e = ground arith

  by_drop_drops :
      (t : TaskPc) (given : Result A Payload)
      → some (cause_at t given) ≡ some Cause.by_drop
      → is_running t ≡ false
  by_drop_drops t given e = ground arith

  Step-Good : {s t : System A} → Step s t → Good s → Good t
  Step-Good {s} (goes {c} st e) g = record {
    cancellation = C.later g.cancellation st;
    joint = g.joint;
    unfinished = λ f. g.unfinished (rw e at f);
    over = λ f. g.over (rw e at f);
    produced = g.produced;
    blamed = λ f. (CS.cancelled_for_good st (g.blamed f)).0;
    dropped = λ f. dropped_stays st (g.dropped f);
  }
  Step-Good {s} (ends {c} given st e f) g = record {
    cancellation = C.later g.cancellation st;
    joint =
        J.later g.joint
          (J.finish (value_of (cause_at s.cancellation.task given)) (g.unfinished e).0);
    unfinished = λ h. absurd (cc);
    over = λ h x. absurd (cc);
    produced = refl;
    blamed =
        λ h. over_when_looking g.cancellation st (by_cancel_looks s.cancellation.task given h) f;
    dropped = λ h. over_when_dropped st (by_drop_drops s.cancellation.task given h) e f;
  }
  Step-Good {s} (joins {j} st e) g = record {
    cancellation = g.cancellation;
    joint = J.later g.joint st;
    unfinished = λ f. (joint_idle g.joint st e (g.unfinished f).0, (g.unfinished f).1);
    over = λ f. joint_busy st (g.over f);
    produced = rw e g.produced;
    blamed = g.blamed;
    dropped = g.dropped;
  }

  pub Reach-Good : {s : System A} → Reach s → Good s
  Reach-Good start = record {
    cancellation = C.start;
    joint = J.start;
    unfinished = λ e. (refl, refl);
    over = λ e. absurd (cc);
    produced = refl;
    blamed = λ e. absurd (cc);
    dropped = λ e. absurd (cc);
  }
  Reach-Good (later r st) = Step-Good st (Reach-Good r)
