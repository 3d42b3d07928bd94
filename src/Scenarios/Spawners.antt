-- ===== src/Scenarios/Spawners.antt =====
-- The tests of spawns-core/src/spawn.rs, on `enter`, `spawn` and
-- `Builder`, with the tests' two spawners.
use Prim.Native.String.{String}
use spawns.Prelude.{
  ℕ, ◌≡◌, refl, [], ◌∷◌, Option, none, Result, ok, err, Outcome, returns, panics, Poll, ready,
}
use spawns.Joint.{Waker, InnerJoinError, JoinError}
use spawns.Joint
use spawns.Cancellation
use spawns.Id
use spawns.Name.{Name, Builder, named, as_str, try_as_str, with_name}
use spawns.Name
use spawns.Spawn.{
  Panic, no_spawner, Task, Target, State, enter, hand, spawn_with_name, spawn, build,
}
use spawns.Spawn.Handing.{drop_it}
use spawns.Task.{Failure, spawned, poll_task, poll_handle, cancel, drop_task}
use spawns.Scenarios.{first_id, noop_waker, ready_future, pending_future, new_task, run_task, join}

-- A `DropSpawner` and a `ThreadSpawner`, by their addresses.
abbrev drop_address : ℕ
drop_address = 3

abbrev thread_address : ℕ
thread_address = 4

-- `ThreadSpawner::spawn` leaves the thread that spawns as it is.
abbrev thread_it : Target → Task → State → State × Outcome Panic (Unit {0})
thread_it g t s = (s, returns tt)

-- The thread that it starts: its name, and its own `SPAWNER`, inside its scope.
abbrev thread_of : Task → State → String × State
thread_of t s = (
  as_str t.name,
  (enter thread_address
      (record { spawner = none; borrows = 0; counter = s.counter; handed = [] })).0,
)

-- The thread of the task that was handed out last.
abbrev last_thread : State → String × State
last_thread s = elim s.handed [ [] ↦ ("", s) | (_, t) ∷ _ ↦ thread_of t s ]

abbrev pub start : State
start = record { spawner = none; borrows = 0; counter = Id.first; handed = [] }

abbrev nothing_found : Outcome Panic (Option ℕ)
nothing_found = returns none

-- no_spawner, without the feature `compat`
abbrev nobody_spawns : Outcome Panic ℕ
nobody_spawns = (spawn drop_it nothing_found start).1

nobody_spawns_passes : nobody_spawns ≡ panics no_spawner
unfolding spawn spawn_with_name
nobody_spawns_passes = refl

-- The id of the handle, and what joining it gives after the spawner dropped the task.
abbrev drop_spawner : Outcome Panic ℕ × Outcome Failure (Poll (Result (Unit {0}) JoinError))
drop_spawner =
    ((spawn drop_it nothing_found (enter drop_address start).0).1, join (drop_task new_task))

drop_spawner_passes : drop_spawner ≡ (
  returns first_id,
  returns (ready (err (record { id = first_id; inner = InnerJoinError.cancelled }))),
)
unfolding enter spawn spawn_with_name hand Id.next spawned poll_task poll_handle cancel drop_task
    Cancellation.is_cancelled Cancellation.cancel Joint.wake Joint.poll
drop_spawner_passes = refl

-- The future gives the name of the thread that polls it.
abbrev thread_spawner_named : Outcome Failure (Poll (Result String JoinError))
thread_spawner_named =
    let s =
      (build thread_it nothing_found (named Name.new "task1") (enter thread_address start).0).0 in
    join (run_task (ready_future (last_thread s).0) new_task)

thread_spawner_named_passes : thread_spawner_named ≡ returns (ready (ok "task1"))
unfolding enter spawn spawn_with_name hand Id.next build Name.new named with_name as_str try_as_str
    spawned poll_task poll_handle cancel drop_task Cancellation.is_cancelled Cancellation.cancel
    Joint.wake Joint.poll
thread_spawner_named_passes = refl

abbrev thread_spawner_unnamed : Outcome Failure (Poll (Result String JoinError))
thread_spawner_unnamed =
    let s = (spawn thread_it nothing_found (enter thread_address start).0).0 in
    join (run_task (ready_future (last_thread s).0) new_task)

thread_spawner_unnamed_passes : thread_spawner_unnamed ≡ returns (ready (ok "unnamed"))
unfolding enter spawn spawn_with_name hand Id.next as_str try_as_str spawned poll_task poll_handle
    cancel drop_task Cancellation.is_cancelled Cancellation.cancel Joint.wake Joint.poll
thread_spawner_unnamed_passes = refl

-- The thread of the first task, in which its future spawns the second.
abbrev inner_thread : State
inner_thread = (last_thread (spawn thread_it nothing_found (enter thread_address start).0).0).1

-- The id of the inner handle, and what the inner future's `id()` gives on its thread.
abbrev thread_spawner_cascading_ready : Outcome Panic ℕ × Outcome Id.Panic ℕ
thread_spawner_cascading_ready =
    let (s, handle) = spawn thread_it nothing_found inner_thread in
    (handle, elim s.handed [ [] ↦ Id.id 0 | (_, t) ∷ _ ↦ Id.id (Id.enter t.id 0).1 ])

thread_spawner_cascading_ready_passes : thread_spawner_cascading_ready ≡ (returns 2, returns 2)
unfolding enter spawn spawn_with_name hand Id.next as_str try_as_str Id.id Id.try_id Id.enter
thread_spawner_cascading_ready_passes = refl

-- The inner task gets a spawner too, and is cancelled while it is pending.
abbrev thread_spawner_cascading_cancel :
    Outcome Panic ℕ × Outcome Failure (Poll (Result (Unit {0}) JoinError))
thread_spawner_cascading_cancel = (
  (spawn thread_it nothing_found inner_thread).1,
  (poll_handle 2 (run_task pending_future (cancel (run_task pending_future new_task)).0)
      noop_waker).1,
)

thread_spawner_cascading_cancel_passes :
    thread_spawner_cascading_cancel
    ≡ (returns 2, returns (ready (err (record { id = 2; inner = InnerJoinError.cancelled }))))
unfolding enter spawn spawn_with_name hand Id.next as_str try_as_str spawned poll_task poll_handle
    cancel drop_task Cancellation.is_cancelled Cancellation.cancel Joint.wake Joint.poll
    Cancellation.update
thread_spawner_cascading_cancel_passes = refl
