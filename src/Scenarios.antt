-- ===== src/Scenarios.antt =====
-- The tests of spawns-core/src/task.rs and spawns-core/src/spawn.rs, two of
-- spawns-executor/src/lib.rs and six of spawns-compat/src, run on the definitions. A test is a
-- definition that does what its body does and gives what it asserts on, and a theorem that the
-- assertion holds. Where a test has two threads, they run one after the other here.
pub mod Tasks
pub mod Handles
pub mod Ids
pub mod Spawners
pub mod Registered
pub mod Executors
pub mod Adapters
use spawns.Prelude.{ℕ, Option, some, none, Result, Outcome, Poll, returns}
use spawns.Joint.{Waker, Payload, JoinError}
use spawns.Id
use spawns.Task.{
  Attempt, still_pending, completed, unwound, World, Failure, spawned, poll_task, poll_handle,
}

-- `noop_waker()`, or that of the test's `block_on`.
abbrev pub noop_waker : Waker
noop_waker = 0

-- Where the first box of a task goes.
abbrev pub new_box : ℕ
new_box = 100

-- The id of the first task of a process, `Task::new`'s.
abbrev pub first_id : ℕ
first_id = (Id.next Id.first).0

-- `std::future::ready(value)`
abbrev pub ready_future : {A : Type 0} → A → Unit {0} → Waker → Unit {0} × Attempt A
ready_future value s w = (s, completed value)

-- `std::future::pending()`
abbrev pub pending_future : {A : Type 0} → Unit {0} → Waker → Unit {0} × Attempt A
pending_future s w = (s, still_pending)

-- `async { panic!(…) }`
abbrev pub panic_future : {A : Type 0} → Payload → Unit {0} → Waker → Unit {0} × Attempt A
panic_future payload s w = (s, unwound payload)

-- The `IdFuture` of the task with this id around `async { f() }`, polled where no task runs.
abbrev pub id_future : {A : Type 0} → ℕ → (ℕ → A) → Unit {0} → Waker → Unit {0} × Attempt A
id_future id f s w = (s, completed (f (Id.enter id 0).1))

-- `Task::new`
abbrev pub new_task : {A : Type 0} → World A (Unit {0})
new_task = spawned tt

-- A poll of the task, as `block_on(Box::into_pin(task.future))` makes of a task that ends in it.
abbrev pub run_task :
    {A : Type 0}
    → (Unit {0} → Waker → Unit {0} × Attempt A)
    → World A (Unit {0})
    → World A (Unit {0})
run_task future s = (poll_task future s noop_waker new_box).0

-- `block_on(handle)` of a handle that is ready or panics.
abbrev pub join : {A : Type 0} → World A (Unit {0}) → Outcome Failure (Poll (Result A JoinError))
join s = (poll_handle first_id s noop_waker).1
