-- ===== src/Scenarios/Tasks.antt =====
-- The tests of spawns-core/src/task.rs on tasks that end, panic or are cancelled.
use spawns.Prelude.{
  ℕ, ◌≡◌, refl, Option, none, some, Result, ok, err, Outcome, returns, Poll, ready, pending,
}
use spawns.Joint.{Waker, InnerJoinError, JoinError}
use spawns.Joint
use spawns.Cancellation
use spawns.Id
use spawns.JoinError.{Unwind, resumed, resume_panic}
use spawns.Task.{
  Failure, spawned, poll_task, poll_handle, cancel, drop_task, drop_handle, attach, detach,
  cancel_detach,
}
use spawns.Scenarios.{
  noop_waker, new_box, first_id, ready_future, pending_future, panic_future, id_future, new_task,
  run_task, join,
}

-- `handle.await.unwrap_err()`, as far as the tests look at it.
abbrev cancelled_error : {A : Type 0} → Outcome Failure (Poll (Result A JoinError))
cancelled_error = returns (ready (err (record { id = first_id; inner = InnerJoinError.cancelled })))

abbrev task_id : Outcome Failure (Poll (Result (Outcome Id.Panic ℕ) JoinError))
task_id = join (run_task (id_future first_id Id.id) new_task)

task_id_passes : task_id ≡ returns (ready (ok (returns first_id)))
unfolding spawned poll_task poll_handle cancel drop_task drop_handle attach detach cancel_detach
    Id.enter Id.id Id.try_id Id.next Cancellation.is_cancelled Cancellation.update
    Cancellation.cancel Joint.wake Joint.poll Joint.drop
task_id_passes = refl

abbrev task_try_id : Outcome Failure (Poll (Result (Option ℕ) JoinError))
task_try_id = join (run_task (id_future first_id Id.try_id) new_task)

task_try_id_passes : task_try_id ≡ returns (ready (ok (some first_id)))
unfolding spawned poll_task poll_handle cancel drop_task drop_handle attach detach cancel_detach
    Id.enter Id.id Id.try_id Id.next Cancellation.is_cancelled Cancellation.update
    Cancellation.cancel Joint.wake Joint.poll Joint.drop
task_try_id_passes = refl

abbrev task_cancel : Outcome Failure (Poll (Result (Unit {0}) JoinError))
task_cancel = join (run_task pending_future (cancel new_task).0)

task_cancel_passes : task_cancel ≡ cancelled_error
unfolding spawned poll_task poll_handle cancel drop_task drop_handle attach detach cancel_detach
    Id.enter Id.id Id.try_id Id.next Cancellation.is_cancelled Cancellation.update
    Cancellation.cancel Joint.wake Joint.poll Joint.drop
task_cancel_passes = refl

abbrev task_cancel_handle : Outcome Failure (Poll (Result (Unit {0}) JoinError))
task_cancel_handle = let (s, _) = cancel new_task in join (run_task pending_future s)

task_cancel_handle_passes : task_cancel_handle ≡ cancelled_error
unfolding spawned poll_task poll_handle cancel drop_task drop_handle attach detach cancel_detach
    Id.enter Id.id Id.try_id Id.next Cancellation.is_cancelled Cancellation.update
    Cancellation.cancel Joint.wake Joint.poll Joint.drop
task_cancel_handle_passes = refl

abbrev task_cancel_passively : Outcome Failure (Poll (Result (Unit {0}) JoinError))
task_cancel_passively = join (drop_task new_task)

task_cancel_passively_passes : task_cancel_passively ≡ cancelled_error
unfolding spawned poll_task poll_handle cancel drop_task drop_handle attach detach cancel_detach
    Id.enter Id.id Id.try_id Id.next Cancellation.is_cancelled Cancellation.update
    Cancellation.cancel Joint.wake Joint.poll Joint.drop
task_cancel_passively_passes = refl

abbrev task_cancel_after_completed : Outcome Failure (Poll (Result (Unit {0}) JoinError))
task_cancel_after_completed = join (cancel (run_task (ready_future tt) new_task)).0

task_cancel_after_completed_passes : task_cancel_after_completed ≡ returns (ready (ok tt))
unfolding spawned poll_task poll_handle cancel drop_task drop_handle attach detach cancel_detach
    Id.enter Id.id Id.try_id Id.next Cancellation.is_cancelled Cancellation.update
    Cancellation.cancel Joint.wake Joint.poll Joint.drop
task_cancel_after_completed_passes = refl

abbrev join_handle_join_running : Outcome Failure (Poll (Result (Unit {0}) JoinError))
join_handle_join_running = join (run_task (ready_future tt) (poll_handle first_id new_task 5).0)

join_handle_join_running_passes : join_handle_join_running ≡ returns (ready (ok tt))
unfolding spawned poll_task poll_handle cancel drop_task drop_handle attach detach cancel_detach
    Id.enter Id.id Id.try_id Id.next Cancellation.is_cancelled Cancellation.update
    Cancellation.cancel Joint.wake Joint.poll Joint.drop
join_handle_join_running_passes = refl

abbrev join_handle_join_finished : Outcome Failure (Poll (Result (Unit {0}) JoinError))
join_handle_join_finished = join (run_task (ready_future tt) new_task)

join_handle_join_finished_passes : join_handle_join_finished ≡ returns (ready (ok tt))
unfolding spawned poll_task poll_handle cancel drop_task drop_handle attach detach cancel_detach
    Id.enter Id.id Id.try_id Id.next Cancellation.is_cancelled Cancellation.update
    Cancellation.cancel Joint.wake Joint.poll Joint.drop
join_handle_join_finished_passes = refl

abbrev task_cancel_after_polling :
    Outcome Failure (Poll (Unit {0}))
    × Outcome Failure (Poll (Unit {0}))
    × Outcome Failure (Poll (Result (Unit {0}) JoinError))
task_cancel_after_polling =
    let (s, first) = poll_task pending_future new_task noop_waker new_box in
    let (t, second) = poll_task pending_future (cancel s).0 noop_waker new_box in
    (first, second, join t)

task_cancel_after_polling_passes :
    task_cancel_after_polling ≡ (returns pending, returns (ready tt), cancelled_error)
unfolding spawned poll_task poll_handle cancel drop_task drop_handle attach detach cancel_detach
    Id.enter Id.id Id.try_id Id.next Cancellation.is_cancelled Cancellation.update
    Cancellation.cancel Joint.wake Joint.poll Joint.drop
task_cancel_after_polling_passes = refl

-- `block_on(handle).unwrap_err().resume_panic()`
abbrev resumed_by : {A : Type 0} → Outcome Failure (Poll (Result A JoinError)) → Option Unwind
resumed_by (returns (ready (err e))) = some (resume_panic e)
resumed_by _ = none

-- The message "panic in task" is the payload 7.
abbrev join_handle_join_paniced : Option Unwind
join_handle_join_paniced = resumed_by (join (run_task (panic_future {A = Unit {0}} 7) new_task))

join_handle_join_paniced_passes : join_handle_join_paniced ≡ some (resumed 7)
unfolding spawned poll_task poll_handle cancel drop_task drop_handle attach detach cancel_detach
    Id.enter Id.id Id.try_id Id.next Cancellation.is_cancelled Cancellation.update
    Cancellation.cancel Joint.wake Joint.poll Joint.drop resume_panic
join_handle_join_paniced_passes = refl

abbrev task_cancel_after_paniced : Option Unwind
task_cancel_after_paniced =
    resumed_by (join (cancel (run_task (panic_future {A = Unit {0}} 7) new_task)).0)

task_cancel_after_paniced_passes : task_cancel_after_paniced ≡ some (resumed 7)
unfolding spawned poll_task poll_handle cancel drop_task drop_handle attach detach cancel_detach
    Id.enter Id.id Id.try_id Id.next Cancellation.is_cancelled Cancellation.update
    Cancellation.cancel Joint.wake Joint.poll Joint.drop resume_panic
task_cancel_after_paniced_passes = refl
