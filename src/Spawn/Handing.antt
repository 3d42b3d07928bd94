-- ===== src/Spawn/Handing.antt =====
-- Who gets a spawned task, and what goes wrong when scopes are misused.
use spawns.Prelude.{
  ℕ, ◌≡◌, ◌≢◌, refl, List, ◌∷◌, Option, none, some, Outcome, returns, panics, arith,
}
use spawns.Id
use spawns.Name.{Name}
use spawns.Spawn.{
  Panic, no_spawner, already_borrowed, wrong_scope, user, Task, Target, entered, found, State,
  SpawnScope, enter, leave, spawn_with_name,
}
use spawns.Spawn.Scopes.{
  Script, done, unwind, start, within, exec, Keeps, exec_restores, enter_lem, leave_lem,
}

-- `DropSpawner` of the source's tests: the task is dropped, and nothing else happens here.
abbrev pub drop_it : Target → Task → State → State × Outcome Panic (Unit {0})
drop_it g t s = (s, returns tt)

pub drop_it-Keeps : Keeps drop_it
drop_it-Keeps = record { spawner = λ g t s. refl; borrows = λ g t s. refl; fine = λ g t s. tt }

-- Who gets a task where this spawner stands around it.
abbrev who : Outcome Panic (Option ℕ) → Option ℕ → Outcome Panic Target
who find (some spawner) = returns (entered spawner)
who (returns (some f)) none = returns (found f)
who (returns none) none = panics no_spawner
who (panics p) none = panics p

pub record Plan : Type 0 where
  pub handed : List (Target × Task)
  pub counter : ℕ
  pub outcome : Outcome Panic (Unit {0})

-- The tasks of a script by its text alone: each goes to the spawner that is innermost around it,
-- under the next id and its own name. No state of the thread is involved.
pub plan : Outcome Panic (Option ℕ) → Script → Option ℕ → ℕ → List (Target × Task) → Plan
plan find done cur c h = record { handed = h; counter = c; outcome = returns tt }
plan find (unwind p) cur c h = record { handed = h; counter = c; outcome = panics (user p) }
plan find (start name rest) cur c h = elim (who find cur) [
  | panics p ↦ record { handed = h; counter = c; outcome = panics p }
  | returns g ↦
      plan find rest cur (Id.next c).1 ((g, record { id = (Id.next c).0; name = name }) ∷ h)
]
plan find (within spawner body rest) cur c h =
    let b = plan find body (some spawner) c h in
    elim b.outcome [ panics p ↦ b | returns _ ↦ plan find rest cur b.counter b.handed ]

module _ (find : Outcome Panic (Option ℕ)) where
  -- Scopes are lexical: with spawners that only take their tasks, and where `SPAWNER` is not borrowed
  -- at the start, a script hands out the tasks of its plan, in that order, and ends as the plan says.
  pub exec-plan :
      (script : Script) (s : State)
      → s.borrows ≡ 0
      → let r = exec drop_it find script s in
        let p = plan find script s.spawner s.counter s.handed in
        (r.0.handed ≡ p.handed) × (r.0.counter ≡ p.counter) × (r.1 ≡ p.outcome)
  unfolding exec plan spawn_with_name
  exec-plan done s e = (refl, refl, refl)
  exec-plan (unwind p) s e = (refl, refl, refl)
  exec-plan (start name rest) s e =
      ground (arith, exec-plan rest (spawn_with_name drop_it find name s).0 (ground arith))
  exec-plan (within spawner body rest) s e =
      let s' : State = record s { spawner = some spawner } in
      let t : State = (exec drop_it find body s').0 in
      let kept = exec_restores find drop_it-Keeps body s' e in
      ground (
        arith,
        enter_lem spawner s e,
        exec-plan body s' e,
        leave_lem spawner s t kept.0 kept.1,
        exec-plan rest (record t { spawner = s.spawner }) kept.1,
      )

-- A scope that is dropped right after one with another spawner was entered inside it panics, where
-- `SPAWNER` is not borrowed.
leave_out_of_order :
    (a b : ℕ) (s t : State) (outer inner : SpawnScope)
    → s.borrows ≡ 0
    → a ≢ b
    → enter a s ≡ (t, returns outer)
    → (enter b t).1 ≡ returns inner
    → (leave outer (enter b t).0).1 ≡ panics wrong_scope
unfolding enter leave
leave_out_of_order a b s t outer inner e f g h = ground arith

-- An entered spawner that enters a scope while it takes a task panics, and so does the spawn:
-- `SPAWNER` is still borrowed. What `SPAWNER` holds, and its borrows, are as before the spawn.
enter_while_spawning :
    (find : Outcome Panic (Option ℕ)) (name : Name) (spawner inner : ℕ) (s : State)
    → s.spawner ≡ some spawner
    → let take : Target → Task → State → State × Outcome Panic (Unit {0}) = λ g t u.
      let r = enter inner u in (r.0, elim r.1 [ returns _ ↦ returns tt | panics p ↦ panics p ]) in
      let r = spawn_with_name take find name s in
      (r.1 ≡ panics already_borrowed) × (r.0.spawner ≡ s.spawner) × (r.0.borrows ≡ s.borrows)
unfolding spawn_with_name enter
enter_while_spawning find name spawner inner s e = ground arith
