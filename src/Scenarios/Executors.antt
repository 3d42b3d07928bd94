-- ===== src/Scenarios/Executors.antt =====
-- Tests of spawns-executor/src/lib.rs: what is left of a task when the executor that has it returns.
-- That an executor drops the tasks that it still has is theirs, and so a step of these tests.
use spawns.Prelude.{
  ℕ, ◌≡◌, refl, Bool, true, false, none, Result, ok, err, Outcome, returns, panics, Poll, ready,
}
use spawns.Joint.{InnerJoinError, JoinError}
use spawns.Joint
use spawns.Id
use spawns.Spawn.{Panic, State, enter, leave, hand, spawn_with_name, spawn}
use spawns.Spawn.Handing.{drop_it}
use spawns.Executor.{in_scope, spawned_with, block_on}
use spawns.Executor.Blocking.{
  block_on as block_on_threads, ShutdownManager, parallelism, start_all, upward, on_count,
}
use spawns.Task.{Failure, spawned, poll_handle, drop_task}
use spawns.Scenarios.{first_id, noop_waker, new_task}
use spawns.Scenarios.Spawners.{start}

abbrev pool_address : ℕ
pool_address = 3

-- The future of the tests: it spawns a task that sleeps, and gives its handle, by its id.
abbrev spawn_sleeper : State → State × Outcome Panic ℕ
spawn_sleeper s = spawn drop_it (returns none) s

-- The pool polls the main task once; it is ready.
abbrev run_main : ℕ → State → State × Outcome Panic (Result ℕ JoinError)
run_main id s =
    let (t, o) = spawn_sleeper s in (t, elim o [ returns h ↦ returns (ok h) | panics p ↦ panics p ])

-- What joining a task gives that its executor dropped.
abbrev join_dropped : ℕ → Outcome Failure (Poll (Result (Unit {0}) JoinError))
join_dropped id = (poll_handle id (drop_task new_task) noop_waker).1

abbrev join_after :
    Outcome Panic ℕ → Outcome Panic (Outcome Failure (Poll (Result (Unit {0}) JoinError)))
join_after (returns id) = returns (join_dropped id)
join_after (panics p) = panics p

abbrev task_cancelled_after_main_return_current_thread :
    Outcome Panic (Outcome Failure (Poll (Result (Unit {0}) JoinError)))
task_cancelled_after_main_return_current_thread =
    join_after (block_on drop_it (returns none) pool_address run_main start).1

task_cancelled_after_main_return_current_thread_passes :
    task_cancelled_after_main_return_current_thread
    ≡ returns (returns (ready (err (record { id = 2; inner = InnerJoinError.cancelled }))))
unfolding block_on in_scope spawned_with enter leave spawn spawn_with_name hand Id.next drop_task
    poll_handle Joint.wake Joint.poll spawned
task_cancelled_after_main_return_current_thread_passes = refl

abbrev manager : ShutdownManager Bool
manager = record {
  made = false;
  trigger_shutdown_token = λ w. w;
  drop_token = λ w. true;
  is_triggered = λ w. w;
  made_law = refl;
  token_law = λ w. refl;
  drop_law = λ w. refl;
}

-- Every worker starts; the main future is no task here.
abbrev task_cancelled_after_main_return_multi_thread :
    Outcome Panic (Outcome Failure (Poll (Result (Unit {0}) JoinError)))
task_cancelled_after_main_return_multi_thread =
    join_after
      (block_on_threads manager drop_it (returns none) none (λ i. true) pool_address run_main
        (λ js. spawn_sleeper) (record { parallelism = 4 }) start).outcome

task_cancelled_after_main_return_multi_thread_passes :
    task_cancelled_after_main_return_multi_thread
    ≡ returns (returns (ready (err (record { id = first_id; inner = InnerJoinError.cancelled }))))
unfolding block_on_threads on_count parallelism start_all upward in_scope enter leave spawn
    spawn_with_name hand Id.next drop_task poll_handle Joint.wake Joint.poll spawned
task_cancelled_after_main_return_multi_thread_passes = refl
