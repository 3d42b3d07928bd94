-- ===== src/Executor/Samples.antt =====
-- Calls of the executors, and the theorems at them.
use spawns.Prelude.{
  ℕ, ◌+◌, length, List, ◌≡◌, refl, Bool, true, false, [], none, some, Result, ok, Outcome, returns,
  panics, arith, ◌==◌, if◌then◌else◌, bytes, digits,
}
use spawns.Joint.{JoinError}
use spawns.Spawn.{Panic, Task, Target, State}
use spawns.Executor.{block_on, spawn_obj, thread_failed}
use spawns.Executor.Scopes.{pool_end, pooled, main_task, block_on_lem}
use spawns.Executor.Blocking.{
  block_on as block_on_threads, Blocking, ShutdownManager, parallelism, upward, workers,
  worker_name,
}
use spawns.Executor.Threads.{worker_of, worker_of-worker_name, blocking_ends, blocking_fails}

abbrev idle : State
idle = record { spawner = some 9; borrows = 0; counter = 4; handed = [] }

abbrev accepts : Task → Result (Unit {0}) (Unit {0})
accepts t = ok tt

abbrev pool_take : Target → Task → State → State × Outcome Panic (Unit {0})
pool_take g t u = spawn_obj (λ t u. (u, accepts t)) t u

-- The pool runs the task to its value 5.
abbrev run_pool : ℕ → State → State × Outcome Panic (Result ℕ JoinError)
run_pool id t = (t, returns (ok 5))

block_on_lem_example :
    let run = run_pool 4 (pooled 3 idle) in
    let u = pool_end (accepts (main_task idle)) run (pooled 3 idle) in
    block_on pool_take (returns none) 3 run_pool idle ≡ (record u.0 { spawner = some 9 }, u.1)
block_on_lem_example = block_on_lem accepts (returns none) 3 run_pool idle refl (refl, refl)

worker_name_result : worker_name 2 12 ≡ bytes "spawns-executor-2/12"
unfolding digits
worker_name_result = refl

worker_number : worker_of (worker_name 11 12) ≡ 11
worker_number = worker_of-worker_name 11 12 (omega arith)

abbrev all_cores : Blocking
all_cores = record { parallelism = 0 }

abbrev four : Blocking
four = record { parallelism = 4 }

abbrev manager : ShutdownManager Bool
manager = record {
  made = false;
  trigger_shutdown_token = λ w. w;
  drop_token = λ w. true;
  is_triggered = λ w. w;
  made_law = refl;
  token_law = λ w. refl;
  drop_law = λ w. refl;
}

-- The future ends with 3 more than the number of workers beside it.
abbrev block : List ℕ → State → State × Outcome Panic ℕ
block js t = (t, returns (3 + length js))

blocking_ends_example :
    let r =
      block_on_threads manager pool_take
        (returns none)
        none
        (λ i. true)
        3
        run_pool
        block
        four
        idle in
    (r.started ≡ workers (parallelism four none))
    × (r.shut_down ≡ true)
    × (r.outcome ≡ returns 6)
    × (r.state ≡ idle)
unfolding parallelism upward
blocking_ends_example =
    blocking_ends manager pool_take (returns none) none (λ i. true) 3 run_pool block four idle
      (λ e. cc) (λ j a. refl) refl (refl, refl)

abbrev starts : ℕ → Bool
starts i = if i == 3 then false else true

blocking_fails_example :
    let r =
      block_on_threads manager pool_take (returns none) none starts 3 run_pool block four idle in
    (r.started ≡ upward 1 2)
    × (r.shut_down ≡ false)
    × (r.outcome ≡ panics thread_failed)
    × (r.state ≡ idle)
unfolding parallelism
blocking_fails_example =
    blocking_fails manager pool_take (returns none) none starts 3 run_pool block four idle 3
      (omega arith) (omega arith) (λ j h. ground arith) refl
