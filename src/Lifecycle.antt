-- ===== src/Lifecycle.antt =====
-- spawns-core/src/task.rs: a task with all that it shares, an access at a time. `TaskFuture` polls
-- its user's future, parks in its `Cancellation` and ends through its `Joint`; cancel handles and
-- the owner of the join handle run beside it. The two protocols step on their own memories, and meet
-- where `finish` is called.
pub mod Coupling
pub mod Ends
pub mod Progress
mod Samples
use spawns.Prelude.{ℕ, ◌≡◌, Bool, true, false, Option, none, some, Result, ok, err}
use spawns.Joint.{Waker, Payload, InnerJoinError, cancelled, panic, TaskResult}
use spawns.Joint.Protocol as J
use spawns.Cancellation.Protocol as C
use spawns.Cancellation.Protocol.{TaskPc}
use spawns.Cancellation.Seen.{is_over}

module _ (A : Type 0) where
  -- Why a task ended: its future completed or panicked, a poll found it cancelled, or it was dropped
  -- before.
  pub data Cause : Type 0 where
    by_future : Result A Payload → Cause
    by_cancel by_drop : Cause

  -- `cause` is observed only.
  pub record System : Type 0 where
    pub cancellation : C.System
    pub joint : J.System A
    pub cause : Option Cause

module _ {A : Type 0} where
  -- Where the task stands when it calls `finish` says why; `given` is what the future's poll gave.
  abbrev pub cause_at : TaskPc → Result A Payload → Cause A
  cause_at (TaskPc.polling _) given = Cause.by_future given
  cause_at (TaskPc.checking _) given = Cause.by_cancel
  cause_at (TaskPc.trying _ _ _) given = Cause.by_cancel
  cause_at _ given = Cause.by_drop

  -- The argument of `finish`.
  abbrev pub value_of : Cause A → TaskResult A
  value_of (Cause.by_future (ok a)) = ok a
  value_of (Cause.by_future (err p)) = err (panic p)
  value_of Cause.by_cancel = err cancelled
  value_of Cause.by_drop = err cancelled

  abbrev pub init : System A
  init = record { cancellation = C.init; joint = J.init; cause = none }

  -- `finish`, up to its call of `Joint::wake`.
  abbrev pub finishes : C.System → Cause A → System A → System A
  finishes c cause s = record {
    cancellation = c;
    joint = J.ends (value_of cause) s.joint;
    cause = some cause;
  }

  -- One step of a thread. A task that is dropped has its spare box freed before it wakes the joiner
  -- here; nobody else can see that box.
  pub data Step (s : System A) : System A → Type 0 where
    -- of the task or of a cancel handle, with the future kept, or gone before
    goes :
        {c : C.System}
        → C.Step s.cancellation c
        → is_over c.task ≡ is_over s.cancellation.task
        → Step s (record s { cancellation = c })
    -- of the task, which calls `finish`
    ends :
        {c : C.System} (given : Result A Payload)
        → C.Step s.cancellation c
        → is_over s.cancellation.task ≡ false
        → is_over c.task ≡ true
        → Step s (finishes c (cause_at s.cancellation.task given) s)
    -- of the task inside `Joint::wake`, or of the owner of the handle
    joins :
        {j : J.System A}
        → J.Step s.joint j
        → j.produced ≡ s.joint.produced
        → Step s (record s { joint = j })

  pub data Reach : System A → Type 0 where
    start : Reach init
    later : {s t : System A} → Reach s → Step s t → Reach t
