-- ===== src/Scenarios/Handles.antt =====
-- The tests of spawns-core/src/task.rs on handles that are joined, dropped, attached or detached.
use spawns.Prelude.{
  ℕ, zero, suc, ◌≡◌, refl, Bool, true, false, Option, none, Result, ok, err, Outcome, returns,
  panics, Poll, ready, pending,
}
use spawns.Joint.{
  Waker, Stage, JoinResult, InnerJoinError, JoinError, Joint, Panic, already_joined,
  already_detached,
}
use spawns.Joint
use spawns.Cancellation.{is_cancelled}
use spawns.Cancellation
use spawns.Id
use spawns.Task.{
  Attempt, still_pending, completed, World, Failure, panicked, spawned, poll_task, poll_handle,
  cancel, attach, detach, cancel_detach, drop_handle,
}
use spawns.Scenarios.{
  noop_waker, new_box, first_id, ready_future, pending_future, id_future, new_task, run_task, join,
}

abbrev join_handle_join_joined :
    Outcome Failure (Poll (Result (Unit {0}) JoinError))
    × Outcome Failure (Poll (Result (Unit {0}) JoinError))
join_handle_join_joined =
    let (s, first) = poll_handle first_id (run_task (ready_future tt) new_task) noop_waker in
    (first, join s)

join_handle_join_joined_passes :
    join_handle_join_joined ≡ (returns (ready (ok tt)), panics (panicked (already_joined first_id)))
unfolding spawned poll_task poll_handle cancel drop_handle attach detach cancel_detach Id.enter
    Id.id Id.try_id Id.next Cancellation.is_cancelled Cancellation.update Cancellation.cancel
    Joint.wake Joint.poll Joint.drop
join_handle_join_joined_passes = refl

-- The load of the stage comes too early to see the end.
abbrev join_handle_join_finished_concurrently : Outcome Failure (Poll (Result (Unit {0}) JoinError))
join_handle_join_finished_concurrently =
    let s = run_task (ready_future tt) new_task in
    join (record s { joint = record s.joint { stage = Stage.running } })

join_handle_join_finished_concurrently_passes :
    join_handle_join_finished_concurrently ≡ returns (ready (ok tt))
unfolding spawned poll_task poll_handle cancel drop_handle attach detach cancel_detach Id.enter
    Id.id Id.try_id Id.next Cancellation.is_cancelled Cancellation.update Cancellation.cancel
    Joint.wake Joint.poll Joint.drop
join_handle_join_finished_concurrently_passes = refl

-- The handle is dropped and then joined, which only the test's unsafe `clone` can do.
abbrev join_handle_join_detached : Outcome Failure (Poll (Result (Unit {0}) JoinError))
join_handle_join_detached = join (drop_handle new_task)

join_handle_join_detached_passes :
    join_handle_join_detached ≡ panics (panicked (already_detached first_id))
unfolding spawned poll_task poll_handle cancel drop_handle attach detach cancel_detach Id.enter
    Id.id Id.try_id Id.next Cancellation.is_cancelled Cancellation.update Cancellation.cancel
    Joint.wake Joint.poll Joint.drop
join_handle_join_detached_passes = refl

-- What a test that ends in `block_on(task.future)` rests on: the poll returns `Ready`.
abbrev run_result :
    (Unit {0} → Waker → Unit {0} × Attempt (Unit {0}))
    → World (Unit {0}) (Unit {0})
    → Outcome Failure (Poll (Unit {0}))
run_result future s = (poll_task future s noop_waker new_box).1

abbrev join_handle_detached : Outcome Failure (Poll (Unit {0}))
join_handle_detached = run_result (ready_future tt) (drop_handle new_task)

join_handle_detached_passes : join_handle_detached ≡ returns (ready tt)
unfolding spawned poll_task poll_handle cancel drop_handle attach detach cancel_detach Id.enter
    Id.id Id.try_id Id.next Cancellation.is_cancelled Cancellation.update Cancellation.cancel
    Joint.wake Joint.poll Joint.drop
join_handle_detached_passes = refl

-- The drop of the handle has its result in place, and the load of the stage comes too early.
abbrev join_handle_detached_concurrently : Outcome Failure (Poll (Unit {0}))
join_handle_detached_concurrently =
    let s : World (Unit {0}) (Unit {0}) = new_task in
    run_result (ready_future tt)
      (record s { joint = record s.joint { result = JoinResult.detached } })

join_handle_detached_concurrently_passes : join_handle_detached_concurrently ≡ returns (ready tt)
unfolding spawned poll_task poll_handle cancel drop_handle attach detach cancel_detach Id.enter
    Id.id Id.try_id Id.next Cancellation.is_cancelled Cancellation.update Cancellation.cancel
    Joint.wake Joint.poll Joint.drop
join_handle_detached_concurrently_passes = refl

abbrev task_handle_join : Outcome Failure (Poll (Result (Outcome Id.Panic ℕ) JoinError))
task_handle_join = join (run_task (id_future first_id Id.id) (attach new_task))

task_handle_join_passes : task_handle_join ≡ returns (ready (ok (returns first_id)))
unfolding spawned poll_task poll_handle cancel drop_handle attach detach cancel_detach Id.enter
    Id.id Id.try_id Id.next Cancellation.is_cancelled Cancellation.update Cancellation.cancel
    Joint.wake Joint.poll Joint.drop
task_handle_join_passes = refl

abbrev task_handle_cancel : Outcome Failure (Poll (Result (Unit {0}) JoinError))
task_handle_cancel =
    let s = run_task pending_future new_task in
    join (run_task pending_future (cancel_detach (attach s)))

task_handle_cancel_passes :
    task_handle_cancel
    ≡ returns (ready (err (record { id = first_id; inner = InnerJoinError.cancelled })))
unfolding spawned poll_task poll_handle cancel drop_handle attach detach cancel_detach Id.enter
    Id.id Id.try_id Id.next Cancellation.is_cancelled Cancellation.update Cancellation.cancel
    Joint.wake Joint.poll Joint.drop
task_handle_cancel_passes = refl

abbrev task_handle_cancel_on_drop : Outcome Failure (Poll (Unit {0}))
task_handle_cancel_on_drop = run_result pending_future (drop_handle (attach new_task))

task_handle_cancel_on_drop_passes : task_handle_cancel_on_drop ≡ returns (ready tt)
unfolding spawned poll_task poll_handle cancel drop_handle attach detach cancel_detach Id.enter
    Id.id Id.try_id Id.next Cancellation.is_cancelled Cancellation.update Cancellation.cancel
    Joint.wake Joint.poll Joint.drop
task_handle_cancel_on_drop_passes = refl

-- The future of `task_handle_detach`: it sleeps through one poll, then stores into `cancelled`, which
-- is its state's second part.
abbrev sleep_then_store : ℕ × Bool → Waker → (ℕ × Bool) × Attempt (Unit {0})
sleep_then_store (zero, cancelled) w = ((zero, false), completed tt)
sleep_then_store (suc n, cancelled) w = ((n, cancelled), still_pending)

-- How the two polls of the task end, whether the second finds it cancelled, and what is left of the
-- future: if it is polled again, it stores.
abbrev task_handle_detach :
    Outcome Failure (Poll (Unit {0})) × Outcome Failure (Poll (Unit {0})) × Bool × Option (ℕ × Bool)
task_handle_detach =
    let s : World (Unit {0}) (ℕ × Bool) = drop_handle (detach (attach (spawned (1, true)))) in
    let (t, first) = poll_task sleep_then_store s noop_waker new_box in
    let (u, second) = poll_task sleep_then_store t noop_waker new_box in
    (first, second, is_cancelled t.slot, u.task.future)

task_handle_detach_passes : task_handle_detach ≡ (returns pending, returns (ready tt), false, none)
unfolding spawned poll_task poll_handle cancel drop_handle attach detach cancel_detach Id.enter
    Id.id Id.try_id Id.next Cancellation.is_cancelled Cancellation.update Cancellation.cancel
    Joint.wake Joint.poll Joint.drop
task_handle_detach_passes = refl

-- The future is gone when the poll that ends it returns, with the task not yet dropped.
abbrev future_dropped_before_ready : Outcome Failure (Poll (Unit {0})) × Option (Unit {0})
future_dropped_before_ready =
    let (s, poll) = poll_task (ready_future {A = Unit {0}} tt) new_task noop_waker new_box in
    (poll, s.task.future)

future_dropped_before_ready_passes : future_dropped_before_ready ≡ (returns (ready tt), none)
unfolding spawned poll_task poll_handle cancel drop_handle attach detach cancel_detach Id.enter
    Id.id Id.try_id Id.next Cancellation.is_cancelled Cancellation.update Cancellation.cancel
    Joint.wake Joint.poll Joint.drop
future_dropped_before_ready_passes = refl

-- And when the handle is joined.
abbrev future_dropped_before_joined :
    Outcome Failure (Poll (Result (Unit {0}) JoinError)) × Option (Unit {0})
future_dropped_before_joined =
    let (s, result) = poll_handle first_id (run_task (ready_future tt) new_task) noop_waker in
    (result, s.task.future)

future_dropped_before_joined_passes : future_dropped_before_joined ≡ (returns (ready (ok tt)), none)
unfolding spawned poll_task poll_handle cancel drop_handle attach detach cancel_detach Id.enter
    Id.id Id.try_id Id.next Cancellation.is_cancelled Cancellation.update Cancellation.cancel
    Joint.wake Joint.poll Joint.drop
future_dropped_before_joined_passes = refl
