-- ===== src/Executor.antt =====
-- spawns-executor/src/lib.rs: `block_on` on a `LocalPool`, and the scope that an executor's thread
-- enters. An executor, and what it does while a thread blocks on it, are parameters: functions on the
-- state of the thread. A panic of an `unwrap` is a panic of the user's, with a number.
pub mod Blocking
pub mod Scopes
pub mod Threads
mod Samples
use spawns.Prelude.{ℕ, Option, Result, ok, err, Outcome, returns, panics}
use spawns.Joint.{JoinError}
use spawns.Spawn.{Panic, user, Task, Target, State, SpawnScope, enter, leave, spawn}

-- `LocalSpawner::spawn_obj(…).unwrap()`, `pool.run_until(…).unwrap()`, and `unwrap` of a new thread.
abbrev pub spawn_failed : Panic
spawn_failed = user 0

abbrev pub join_failed : Panic
join_failed = user 1

abbrev pub thread_failed : Panic
thread_failed = user 2

-- `Spawner::spawn`: the pool takes the future, or the `unwrap` panics.
unfoldable pub spawn_obj :
    (Task → State → State × Result (Unit {0}) (Unit {0}))
    → Task
    → State
    → State × Outcome Panic (Unit {0})
spawn_obj pool task s =
    let (t, r) = pool task s in (t, elim r [ ok _ ↦ returns tt | err _ ↦ panics spawn_failed ])

-- `ExecutorSpawner::spawn`: the executor takes the future, and its task is detached.
unfoldable pub spawn_detached :
    (Task → State → State) → Task → State → State × Outcome Panic (Unit {0})
spawn_detached executor task s = (executor task s, returns tt)

module _ {A : Type 0} where
  -- The scope is dropped behind its block, also when the block unwinds.
  left : SpawnScope → State × Outcome Panic A → State × Outcome Panic A
  left scope (s, o) =
      let (t, l) = leave scope s in (t, elim l [ panics p ↦ panics p | returns _ ↦ o ])

  -- `let _scope = enter(&spawner);` and the rest of the block.
  unfoldable pub in_scope : ℕ → (State → State × Outcome Panic A) → State → State × Outcome Panic A
  unfolding left
  in_scope spawner block s =
      let (t, e) = enter spawner s in
      elim e [ panics p ↦ (t, panics p) | returns scope ↦ left scope (block t) ]

  joined_with : State × Outcome Panic (Result A JoinError) → State × Outcome Panic A
  joined_with (s, returns (ok a)) = (s, returns a)
  joined_with (s, returns (err _)) = (s, panics join_failed)
  joined_with (s, panics p) = (s, panics p)

  unfoldable pub spawned_with :
      (ℕ → State → State × Outcome Panic (Result A JoinError))
      → State × Outcome Panic ℕ
      → State × Outcome Panic A
  unfolding joined_with
  spawned_with run_until (s, returns id) = joined_with (run_until id s)
  spawned_with run_until (s, panics p) = (s, panics p)

  -- `block_on` with a pool whose spawner has this address; `run_until` is what the pool does on the
  -- join handle with this id.
  unfoldable pub block_on :
      (Target → Task → State → State × Outcome Panic (Unit {0}))
      → Outcome Panic (Option ℕ)
      → ℕ
      → (ℕ → State → State × Outcome Panic (Result A JoinError))
      → State
      → State × Outcome Panic A
  unfolding in_scope spawned_with
  block_on take find spawner run_until s =
      in_scope spawner (λ t. spawned_with run_until (spawn take find t)) s
