-- ===== src/Spawn/Scopes.antt =====
-- Scopes of spawners, entered and left in nested order, as `SpawnScope` values in Rust blocks are.
use spawns.Prelude.{ℕ, ◌≡◌, refl, ◌⊎◌, inr, Option, none, some, Outcome, returns, panics, arith}
use spawns.Id
use spawns.Name.{Name}
use spawns.Spawn.{
  Panic, no_spawner, already_borrowed, wrong_scope, user, Task, Target, entered, found, State,
  SpawnScope, lent, enter, leave, hand, spawn_with_name,
}

-- What runs on a thread: spawn a task, enter a scope for the length of a block, go on, or unwind.
pub data Script : Type 0 where
  done : Script
  unwind : ℕ → Script
  start : Name → Script → Script
  within : ℕ → Script → Script → Script

abbrev after_spawn :
    State × Outcome Panic ℕ
    → (State → State × Outcome Panic (Unit {0}))
    → State × Outcome Panic (Unit {0})
after_spawn r k = elim r.1 [ returns _ ↦ k r.0 | panics p ↦ (r.0, panics p) ]

-- The scope is dropped behind its block, also when the block unwinds.
abbrev close :
    SpawnScope
    → State × Outcome Panic (Unit {0})
    → (State → State × Outcome Panic (Unit {0}))
    → State × Outcome Panic (Unit {0})
close scope r k =
    let l = leave scope r.0 in
    elim l.1 [
      | panics p ↦ (l.0, panics p)
      | returns _ ↦ elim r.1 [ panics p ↦ (l.0, panics p) | returns _ ↦ k l.0 ]
    ]

abbrev panic_of : Outcome Panic (Option ℕ) → Panic
panic_of (returns _) = no_spawner
panic_of (panics p) = p

abbrev pub scope_of : ℕ → State → SpawnScope
scope_of spawner s = record { spawner = spawner; previous = s.spawner }

pub enter_lem :
    (spawner : ℕ) (s : State)
    → s.borrows ≡ 0
    → enter spawner s ≡ (record s { spawner = some spawner }, returns (scope_of spawner s))
unfolding enter
enter_lem spawner s e = ground arith

pub leave_lem :
    (spawner : ℕ) (s t : State)
    → t.spawner ≡ some spawner
    → t.borrows ≡ 0
    → leave (scope_of spawner s) t ≡ (record t { spawner = s.spawner }, returns tt)
unfolding leave
leave_lem spawner s t e f = ground arith

abbrev value_or_zero : Option ℕ → ℕ
value_or_zero none = 0
value_or_zero (some x) = x

abbrev answer_or_zero : Outcome Panic (Option ℕ) → ℕ
answer_or_zero (returns o) = value_or_zero o
answer_or_zero (panics _) = 0

module _ (take : Target → Task → State → State × Outcome Panic (Unit {0}))
    (find : Outcome Panic (Option ℕ)) where
  unfoldable pub exec : Script → State → State × Outcome Panic (Unit {0})
  exec done s = (s, returns tt)
  exec (unwind p) s = (s, panics (user p))
  exec (start name rest) s = after_spawn (spawn_with_name take find name s) (exec rest)
  exec (within spawner body rest) s =
      let e = enter spawner s in
      elim e.1 [
        | panics p ↦ (e.0, panics p)
        | returns scope ↦ close scope (exec body e.0) (exec rest)
      ]

-- A script ends in no panic but the user's own and those that `find_spawn` calls for.
abbrev pub Fine : Outcome Panic (Option ℕ) → Outcome Panic (Unit {0}) → Type 0
Fine find (returns _) = Unit
Fine find (panics (user _)) = Unit
Fine find (panics no_spawner) = (find ≡ returns none) ⊎ (find ≡ panics no_spawner)
Fine find (panics already_borrowed) = find ≡ panics already_borrowed
Fine find (panics wrong_scope) = find ≡ panics wrong_scope
Fine find (panics Panic.multiple_global_spawners) = find ≡ panics Panic.multiple_global_spawners

Fine-panics : (find : Outcome Panic (Option ℕ)) (p : Panic) → find ≡ panics p → Fine find (panics p)
Fine-panics find no_spawner e = inr e
Fine-panics find already_borrowed e = e
Fine-panics find wrong_scope e = e
Fine-panics find Panic.multiple_global_spawners e = e
Fine-panics find (user p) e = tt

-- A spawner that leaves `SPAWNER` and its borrows as it found them, and panics with its own
-- messages only.
pub record Keeps (take : Target → Task → State → State × Outcome Panic (Unit {0})) : Type 0 where
  pub spawner : (g : Target) (t : Task) (s : State) → (take g t s).0.spawner ≡ s.spawner
  pub borrows : (g : Target) (t : Task) (s : State) → (take g t s).0.borrows ≡ s.borrows
  pub fine : (g : Target) (t : Task) (s : State) → Fine (returns (some 0)) (take g t s).1

module _ {take : Target → Task → State → State × Outcome Panic (Unit {0})}
    (find : Outcome Panic (Option ℕ)) (keeps : Keeps take) where
  -- The task that `hand` makes.
  abbrev made : Name → State → Task
  made name s = record { id = (Id.next s.counter).0; name = name }

  abbrev given : Target → Name → State → State
  given g name s = lent g (made name s) (Id.next s.counter).1 s

  hand_keeps :
      (g : Target) (name : Name) (s : State)
      → ((hand take find g name s).0.spawner ≡ s.spawner)
        × ((hand take find g name s).0.borrows ≡ s.borrows)
        × Fine find (after_spawn (hand take find g name s) (λ t. (t, returns tt))).1
  unfolding hand
  hand_keeps g name s = ground (
    arith,
    keeps.spawner g (made name s) (given g name s),
    keeps.borrows g (made name s) (given g name s),
    keeps.fine g (made name s) (given g name s),
  )

  spawn_keeps :
      (name : Name) (s : State)
      → ((spawn_with_name take find name s).0.spawner ≡ s.spawner)
        × ((spawn_with_name take find name s).0.borrows ≡ s.borrows)
        × Fine find (after_spawn (spawn_with_name take find name s) (λ t. (t, returns tt))).1
  unfolding spawn_with_name
  spawn_keeps name s = ground (
    arith,
    hand_keeps (entered (value_or_zero s.spawner)) name s,
    hand_keeps (found (answer_or_zero find)) name s,
    Fine-panics find (panic_of find),
  )

  -- Scopes restore: a script of nested scopes that starts with `SPAWNER` not borrowed leaves it as it
  -- found it, also when it unwinds half way, if each spawner does so with a task. No scope's drop
  -- panics: not for a missing spawner, not for a wrong one, and not for a borrow. A panic is the
  -- script's own, a spawner's own, or one that `find_spawn` calls for.
  pub exec_restores :
      (script : Script) (s : State)
      → s.borrows ≡ 0
      → ((exec take find script s).0.spawner ≡ s.spawner)
        × ((exec take find script s).0.borrows ≡ 0)
        × Fine find (exec take find script s).1
  unfolding exec
  exec_restores done s e = (refl, e, tt)
  exec_restores (unwind p) s e = (refl, e, tt)
  exec_restores (start name rest) s e =
      ground (arith, spawn_keeps name s, exec_restores rest (spawn_with_name take find name s).0)
  exec_restores (within spawner body rest) s e =
      let s' : State = record s { spawner = some spawner } in
      let t : State = (exec take find body s').0 in
      let inner = exec_restores body s' e in
      ground (
        arith,
        enter_lem spawner s e,
        inner,
        leave_lem spawner s t inner.0 inner.1,
        exec_restores rest (record t { spawner = s.spawner }) inner.1,
      )
