-- ===== src/Executor/Scopes.antt =====
-- What a thread that blocks on a future has of its `SPAWNER`, before, meanwhile and after.
use spawns.Prelude.{
  ℕ, ◌≡◌, refl, ap, ◌∙◌, ◌∷◌, Option, some, Result, ok, err, Outcome, returns, panics, arith,
}
use spawns.Joint.{JoinError}
use spawns.Id
use spawns.Name
use spawns.Spawn.{Panic, Task, Target, entered, State, enter, leave, spawn, spawn_with_name, hand}
use spawns.Executor.{
  in_scope, spawned_with, spawn_obj, spawn_detached, block_on, spawn_failed, join_failed,
}

-- It leaves `SPAWNER` as it found it, and no borrow of it open.
abbrev pub KeepsAt : {B : Type 0} → (State → State × Outcome Panic B) → State → Type 0
KeepsAt f s = ((f s).0.spawner ≡ s.spawner) × ((f s).0.borrows ≡ s.borrows)

abbrev pub unwrapped : {A : Type 0} → Outcome Panic (Result A JoinError) → Outcome Panic A
unwrapped (returns (ok a)) = returns a
unwrapped (returns (err _)) = panics join_failed
unwrapped (panics p) = panics p

-- The task of the future that `block_on` blocks on.
abbrev pub main_task : State → Task
main_task s = record { id = s.counter; name = Name.default }

-- The thread when the pool has the task.
abbrev pub pooled : ℕ → State → State
pooled spawner s = record s {
  spawner = some spawner;
  counter = (Id.next s.counter).1;
  handed = (entered spawner, main_task s) ∷ s.handed;
}

module _ {A : Type 0} where
  -- A block in a scope sees the scope's spawner, and ends as it would alone; the spawner that was
  -- there before is put back.
  pub in_scope_lem :
      (spawner : ℕ) (block : State → State × Outcome Panic A) (s : State)
      → s.borrows ≡ 0
      → KeepsAt block (record s { spawner = some spawner })
      → let r = block (record s { spawner = some spawner }) in
        in_scope spawner block s ≡ (record r.0 { spawner = s.spawner }, r.1)
  unfolding in_scope enter leave
  in_scope_lem spawner block s e f = ground arith

  -- What the block of `block_on` comes to, by whether the pool accepts the task.
  abbrev pub pool_end :
      Result (Unit {0}) (Unit {0})
      → State × Outcome Panic (Result A JoinError)
      → State
      → State × Outcome Panic A
  pool_end (ok _) run t = (run.0, unwrapped run.1)
  pool_end (err _) run t = (t, panics spawn_failed)

  spawn_lem :
      (accepts : Task → Result (Unit {0}) (Unit {0})) (find : Outcome Panic (Option ℕ))
      (spawner : ℕ) (run_until : ℕ → State → State × Outcome Panic (Result A JoinError)) (s : State)
      → s.borrows ≡ 0
      → spawned_with run_until (
          spawn
            (λ g t u. spawn_obj (λ t u. (u, accepts t)) t u)
            find
            (record s { spawner = some spawner }))
        ≡ pool_end
            (accepts (main_task s))
            (run_until s.counter (pooled spawner s))
            (pooled spawner s)
  unfolding spawned_with spawn spawn_with_name hand spawn_obj Id.next
  spawn_lem accepts find spawner run_until s e = ground arith

  pool_keeps :
      (o : Result (Unit {0}) (Unit {0})) (run : State × Outcome Panic (Result A JoinError))
      (u : State × Outcome Panic A) (t : State)
      → (run.0.spawner ≡ t.spawner) × (run.0.borrows ≡ t.borrows)
      → u ≡ pool_end o run t
      → (u.0.spawner ≡ t.spawner) × (u.0.borrows ≡ t.borrows)
  pool_keeps (ok _) run u t f e = rw e f
  pool_keeps (err _) run u t f e = rw e (refl, refl)

  -- `block_on` gives its future to its own pool, as a task with the next id and no name, whatever
  -- spawner there is around the call; runs the pool on that task's handle; ends with the task's
  -- value, or unwinds if the pool refuses the task, unwinds, or finds the task cancelled or
  -- panicked; and puts the spawner back either way. The pool is to leave `SPAWNER` as it found it,
  -- and `SPAWNER` not to be borrowed at the start.
  pub block_on_lem :
      (accepts : Task → Result (Unit {0}) (Unit {0})) (find : Outcome Panic (Option ℕ))
      (spawner : ℕ) (run_until : ℕ → State → State × Outcome Panic (Result A JoinError)) (s : State)
      → s.borrows ≡ 0
      → KeepsAt (run_until s.counter) (pooled spawner s)
      → let take : Target → Task → State → State × Outcome Panic (Unit {0}) =
          λ g t u. spawn_obj (λ t u. (u, accepts t)) t u in
        let r = block_on take find spawner run_until s in
        let run = run_until s.counter (pooled spawner s) in
        let u = pool_end (accepts (main_task s)) run (pooled spawner s) in
        r ≡ (record u.0 { spawner = s.spawner }, u.1)
  unfolding block_on in_scope
  block_on_lem accepts find spawner run_until s e f =
      let take : Target → Task → State → State × Outcome Panic (Unit {0}) =
        λ g t u. spawn_obj (λ t u. (u, accepts t)) t u in
      let block : State → State × Outcome Panic A =
        λ t. spawned_with run_until (spawn take find t) in
      let whole = spawn_lem accepts find spawner run_until s e in
      in_scope_lem spawner block s e (
        pool_keeps (accepts (main_task s)) (run_until s.counter (pooled spawner s)) _
          (pooled spawner s) f whole)
      ∙ ap (λ (u : State × Outcome Panic A). (record u.0 { spawner = s.spawner }, u.1)) whole

-- A spawn inside the scope of an executor's thread gives the executor one task, with the next id and
-- no name, and always returns, whatever spawner there is around the scope.
spawn_on_executor :
    (find : Outcome Panic (Option ℕ)) (spawner : ℕ) (s : State)
    → s.borrows ≡ 0
    → in_scope spawner (spawn (λ g task t. spawn_detached (λ task t. t) task t) find) s
      ≡ (record (pooled spawner s) { spawner = s.spawner }, returns s.counter)
unfolding in_scope enter leave spawn spawn_with_name hand spawn_detached Id.next
spawn_on_executor find spawner s e = ground arith
