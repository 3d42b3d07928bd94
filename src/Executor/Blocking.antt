-- ===== src/Executor/Blocking.antt =====
-- spawns-executor/src/lib.rs: `Blocking`, which blocks on a future with several threads. What the
-- platform says and does is a parameter: `thread::available_parallelism`, and which threads start;
-- so is the `ShutdownManager` of the crate async-shutdown.
use spawns.Prelude.{
  ℕ, zero, suc, ◌+◌, ◌-◌, Bool, true, false, List, [], ◌∷◌, ◌++◌, Option, none, some, Result,
  Outcome, panics, ◌≡◌, ◌==◌, if◌then◌else◌, bytes, decimal,
}
use spawns.Joint.{JoinError}
use spawns.Spawn.{Panic, Task, Target, State}
use spawns.Executor.{in_scope, thread_failed}
use spawns.Executor

pub record Blocking : Type 0 where
  pub parallelism : ℕ

-- `Blocking::new`
unfoldable pub new : ℕ → Blocking
new n = record { parallelism = n }

-- `Blocking::parallelism`; `none` is an error of `available_parallelism`.
unfoldable pub parallelism : Blocking → Option ℕ → ℕ
parallelism b available =
    if b.parallelism == 0 then elim available [ none ↦ 2 | some n ↦ n ] else b.parallelism

unfoldable pub upward : ℕ → ℕ → List ℕ
upward zero i = []
upward (suc n) i = i ∷ upward n (i + 1)

-- `2..=threads`
abbrev pub workers : ℕ → List ℕ
workers threads = upward (threads - 1) 2

-- `format!("spawns-executor-{i}/{threads}")`
abbrev pub worker_name : ℕ → ℕ → List ℕ
worker_name i threads = bytes "spawns-executor-" ++ (decimal i ++ b'/' ∷ decimal threads)

-- The `for_each` that starts the workers: those that run, and whether the loop came to its end. The
-- first that does not start ends it by its `unwrap`.
unfoldable pub start_all : (ℕ → Bool) → List ℕ → List ℕ × Bool
start_all starts [] = ([], true)
start_all starts (i ∷ is) =
    let (js, fine) = start_all starts is in if starts i then (i ∷ js, fine) else ([], false)

-- What the crate async-shutdown documents of a manager, in its states `W`: a new one is not
-- triggered, to make a token by `trigger_shutdown_token` triggers nothing, and to drop it does.
pub record ShutdownManager (W : Type 0) : Type 0 where
  pub made : W
  pub trigger_shutdown_token : W → W
  pub drop_token : W → W
  pub is_triggered : W → Bool
  pub made_law : is_triggered made ≡ false
  pub token_law : (w : W) → is_triggered (trigger_shutdown_token w) ≡ is_triggered w
  pub drop_law : (w : W) → is_triggered (drop_token w) ≡ true

-- The workers that go on to run the executor: each runs it until the shutdown is triggered.
abbrev pub left_running : Bool → List ℕ → List ℕ
left_running triggered started = if triggered then [] else started

-- `Blocking::run_until` on a thread; `block` is what blocking on the executor does there.
abbrev pub run_until :
    {A : Type 0} → ℕ → (State → State × Outcome Panic A) → State → State × Outcome Panic A
run_until spawner block s = in_scope spawner block s

-- The calling thread after `block_on`, the workers that run, and whether the shutdown was triggered.
pub record Ran (A : Type 0) : Type 0 where
  pub state : State
  pub outcome : Outcome Panic A
  pub started : List ℕ
  pub shut_down : Bool

module _ {A : Type 0} {W : Type 0} (manager : ShutdownManager W) where
  -- Behind the loop. `block` is told which workers run the executor beside it. The token is dropped
  -- behind `run_until`, also when that unwinds.
  abbrev on_threads : ℕ → (List ℕ → State → State × Outcome Panic A) → State → List ℕ × Bool → Ran A
  on_threads spawner block s (started, true) =
      let w = manager.trigger_shutdown_token manager.made in
      let (t, o) = run_until spawner (block (left_running (manager.is_triggered w) started)) s in
      record {
        state = t;
        outcome = o;
        started = started;
        shut_down = manager.is_triggered (manager.drop_token w);
      }
  on_threads spawner block s (started, false) = record {
    state = s;
    outcome = panics thread_failed;
    started = started;
    shut_down = manager.is_triggered manager.made;
  }

  -- `Blocking::block_on` on this number of threads; `local` is what `block_on` of a pool does.
  unfoldable pub on_count :
      (ℕ → Bool)
      → ℕ
      → (State → State × Outcome Panic A)
      → (List ℕ → State → State × Outcome Panic A)
      → ℕ
      → State
      → Ran A
  unfolding start_all
  on_count starts spawner local block threads s =
      if threads == 1
      then record { state = (local s).0; outcome = (local s).1; started = []; shut_down = false }
      else on_threads spawner block s (start_all starts (workers threads))

  -- `Blocking::block_on`. `run_pool` is what a `LocalPool` does with the join handle, and `block` what
  -- blocking on the executor with the future does, beside the workers that run it.
  unfoldable pub block_on :
      (Target → Task → State → State × Outcome Panic (Unit {0}))
      → Outcome Panic (Option ℕ)
      → Option ℕ
      → (ℕ → Bool)
      → ℕ
      → (ℕ → State → State × Outcome Panic (Result A JoinError))
      → (List ℕ → State → State × Outcome Panic A)
      → Blocking
      → State
      → Ran A
  block_on take find available starts spawner run_pool block b s =
      on_count starts spawner (Executor.block_on take find spawner run_pool) block
        (parallelism b available) s
