-- ===== src/Scenarios/Adapters.antt =====
-- Tests of spawns-compat/src/tokio.rs, smol.rs and async_global_executor.rs: who gets a task that is
-- spawned under each runtime, and which id it runs under. That a runtime polls what it gets is
-- theirs, and so a step of these tests.
use spawns.Prelude.{
  ℕ, ◌≡◌, refl, Bool, true, false, List, [], ◌∷◌, Option, none, some, Result, ok, Outcome, returns,
  panics, Poll, ready,
}
use spawns.Joint.{JoinError}
use spawns.Joint
use spawns.Cancellation
use spawns.Id
use spawns.Spawn.{Panic, Target, found, State, spawn, spawn_with_name, hand}
use spawns.Spawn.Handing.{drop_it}
use spawns.Compat.{find_spawn}
use spawns.Compat.Runtimes.{Features, tsa, compats, detect, tokio_spawn, smol_global, async_global}
use spawns.Task.{Failure, spawned, poll_task, poll_handle}
use spawns.Scenarios.{first_id, ready_future, id_future, new_task, run_task, join}
use spawns.Scenarios.Spawners.{start}
use spawns.Scenarios.Registered.{answer, targets}

-- What joining a task gives, and whatever the awaited body gave.
abbrev Joined : Type 0 → Type 0
Joined A = Outcome Failure (Poll (Result A JoinError))

abbrev only_tokio : Features
only_tokio = record { tokio = true; smol = false; async_global_executor = false }

abbrev only_smol : Features
only_smol = record { tokio = false; smol = true; async_global_executor = false }

abbrev only_async_global : Features
only_async_global = record { tokio = false; smol = false; async_global_executor = true }

-- `spawn` outside every scope, in a build with these features, on a thread of the runtime.
abbrev spawn_under : Features → Bool → State → State × Outcome Panic ℕ
spawn_under f current =
    spawn drop_it (answer (find_spawn false none (detect current) (compats tsa f) none).0)

-- `spawn(async { 5 })`, joined, and who got the task.
abbrev tokio_spawn_one : List Target × Joined ℕ
tokio_spawn_one = (
  targets (spawn_under only_tokio true start).0.handed,
  join (run_task (ready_future 5) new_task),
)

tokio_spawn_one_passes : tokio_spawn_one ≡ (found tokio_spawn ∷ [], returns (ready (ok 5)))
unfolding spawn spawn_with_name hand Id.next find_spawn compats spawned poll_task poll_handle
    Cancellation.is_cancelled Joint.wake Joint.poll
tokio_spawn_one_passes = refl

-- The id in the handle, and what `id()` gives in the joined body of the task.
abbrev id_seen : Outcome Panic ℕ → Outcome Panic (ℕ × Joined (Outcome Id.Panic ℕ))
id_seen (returns h) = returns (h, join (run_task (id_future h Id.id) new_task))
id_seen (panics p) = panics p

-- `spawn(async { id() })`, and who got the task.
abbrev spawn_one : Features → List Target × Outcome Panic (ℕ × Joined (Outcome Id.Panic ℕ))
spawn_one f = let (s, o) = spawn_under f false start in (targets s.handed, id_seen o)

abbrev smol_spawn_one : List Target × Outcome Panic (ℕ × Joined (Outcome Id.Panic ℕ))
smol_spawn_one = spawn_one only_smol

smol_spawn_one_passes :
    smol_spawn_one
    ≡ (found smol_global ∷ [], returns (first_id, returns (ready (ok (returns first_id)))))
unfolding spawn spawn_with_name hand Id.next find_spawn compats spawned poll_task poll_handle
    Cancellation.is_cancelled Joint.wake Joint.poll Id.id Id.try_id Id.enter
smol_spawn_one_passes = refl

abbrev async_global_spawn_one : List Target × Outcome Panic (ℕ × Joined (Outcome Id.Panic ℕ))
async_global_spawn_one = spawn_one only_async_global

async_global_spawn_one_passes :
    async_global_spawn_one
    ≡ (found async_global ∷ [], returns (first_id, returns (ready (ok (returns first_id)))))
unfolding spawn spawn_with_name hand Id.next find_spawn compats spawned poll_task poll_handle
    Cancellation.is_cancelled Joint.wake Joint.poll Id.id Id.try_id Id.enter
async_global_spawn_one_passes = refl

-- The second `await`: of the handle that the first one gave.
abbrev await_handle : Joined ℕ → Option (ℕ × Joined (Outcome Id.Panic ℕ))
await_handle (returns (ready (ok h))) = some (h, join (run_task (id_future h Id.id) new_task))
await_handle _ = none

-- The first `await`: the future of the first task has spawned the second, and is ready with its
-- handle.
abbrev await_spawn : Outcome Panic ℕ → Option (ℕ × Joined (Outcome Id.Panic ℕ))
await_spawn (returns h) = await_handle (join (run_task (ready_future h) new_task))
await_spawn (panics p) = none

-- `spawn(async { spawn(async { id() }) })`: the future runs on a thread of the runtime, in no scope.
abbrev spawn_cascading : Features → Bool → Option (ℕ × Joined (Outcome Id.Panic ℕ))
spawn_cascading f current = await_spawn (spawn_under f current (spawn_under f current start).0).1

abbrev tokio_spawn_cascading : Option (ℕ × Joined (Outcome Id.Panic ℕ))
tokio_spawn_cascading = spawn_cascading only_tokio true

tokio_spawn_cascading_passes : tokio_spawn_cascading ≡ some (2, returns (ready (ok (returns 2))))
unfolding spawn spawn_with_name hand Id.next find_spawn compats spawned poll_task poll_handle
    Cancellation.is_cancelled Joint.wake Joint.poll Id.id Id.try_id Id.enter
tokio_spawn_cascading_passes = refl

abbrev smol_spawn_cascading : Option (ℕ × Joined (Outcome Id.Panic ℕ))
smol_spawn_cascading = spawn_cascading only_smol false

smol_spawn_cascading_passes : smol_spawn_cascading ≡ some (2, returns (ready (ok (returns 2))))
unfolding spawn spawn_with_name hand Id.next find_spawn compats spawned poll_task poll_handle
    Cancellation.is_cancelled Joint.wake Joint.poll Id.id Id.try_id Id.enter
smol_spawn_cascading_passes = refl

abbrev async_global_spawn_cascading : Option (ℕ × Joined (Outcome Id.Panic ℕ))
async_global_spawn_cascading = spawn_cascading only_async_global false

async_global_spawn_cascading_passes :
    async_global_spawn_cascading ≡ some (2, returns (ready (ok (returns 2))))
unfolding spawn spawn_with_name hand Id.next find_spawn compats spawned poll_task poll_handle
    Cancellation.is_cancelled Joint.wake Joint.poll Id.id Id.try_id Id.enter
async_global_spawn_cascading_passes = refl
