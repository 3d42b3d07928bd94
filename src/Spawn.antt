-- ===== src/Spawn.antt =====
-- spawns-core/src/spawn.rs: the thread local `SPAWNER`, `enter`, `SpawnScope` and
-- `spawn_with_name`, with `Task::new` of task.rs and `RawId::next`.
-- A spawner is known by its address. What its method `spawn`, or a spawn function that
-- `find_spawn` gives, does with the task is a parameter, and so is what `find_spawn` answers:
-- `returns none` too where the feature `compat` is off.
pub mod Scopes
pub mod Handing
pub mod Building
mod Samples
use Prim.Native.String.{String}
use spawns.Prelude.{
  ℕ, ◌+◌, ◌-◌, ◌≡◌, Bool, true, false, List, [], ◌∷◌, ◌++◌, Option, none, some, Outcome, returns,
  panics, ◌==◌, if◌then◌else◌,
}
use spawns.Id
use spawns.Name.{Name, Builder, as_str, try_as_str}
use spawns.Name

pub data Panic : Type 0 where
  no_spawner already_borrowed wrong_scope multiple_global_spawners : Panic
  user : ℕ → Panic

-- What a spawner sees of a `Task`.
pub record Task : Type 0 where
  pub id : ℕ
  pub name : Name

-- `Task::name`
abbrev pub task_name : Task → String
task_name t = as_str t.name

-- `Task::try_name`
abbrev pub try_name : Task → Option String
try_name t = try_as_str t.name

-- Who takes a task: an entered spawner, or a function that `find_spawn` gave.
pub data Target : Type 0 where
  entered found : ℕ → Target

-- The `RefCell` `SPAWNER` with the number of its shared borrows, the counter of ids, and, observed
-- only, the tasks handed out so far, the last one first.
pub record State : Type 0 where
  pub spawner : Option ℕ
  pub borrows : ℕ
  pub counter : ℕ
  pub handed : List (Target × Task)

-- `with_borrow_mut` panics while the cell is borrowed.
unfoldable pub exchange : Option ℕ → State → State × Outcome Panic (Option ℕ)
exchange spawner s =
    if s.borrows == 0
    then (record s { spawner = spawner }, returns s.spawner)
    else (s, panics already_borrowed)

pub record SpawnScope : Type 0 where
  pub spawner : ℕ
  pub previous : Option ℕ

entered_scope : ℕ → State × Outcome Panic (Option ℕ) → State × Outcome Panic SpawnScope
entered_scope spawner (s, returns previous) =
    (s, returns (record { spawner = spawner; previous = previous }))
entered_scope spawner (s, panics p) = (s, panics p)

unfoldable pub enter : ℕ → State → State × Outcome Panic SpawnScope
unfolding exchange entered_scope
enter spawner s = entered_scope spawner (exchange (some spawner) s)

check_current : ℕ → State × Outcome Panic (Option ℕ) → State × Outcome Panic (Unit {0})
check_current spawner (s, returns none) = (s, panics no_spawner)
check_current spawner (s, returns (some current)) =
    (s, if spawner == current then returns tt else panics wrong_scope)
check_current spawner (s, panics p) = (s, panics p)

-- `Drop for SpawnScope`
unfoldable pub leave : SpawnScope → State → State × Outcome Panic (Unit {0})
unfolding exchange check_current
leave scope s = check_current scope.spawner (exchange scope.previous s)

-- The state in which a target takes a task.
abbrev pub lent : Target → Task → ℕ → State → State
lent target task counter s = record s {
  borrows = s.borrows + 1;
  counter = counter;
  handed = (target, task) ∷ s.handed;
}

module _ (take : Target → Task → State → State × Outcome Panic (Unit {0}))
    (find : Outcome Panic (Option ℕ)) where
  release : ℕ → State × Outcome Panic (Unit {0}) → State × Outcome Panic ℕ
  release i (s, returns _) = (record s { borrows = s.borrows - 1 }, returns i)
  release i (s, panics p) = (record s { borrows = s.borrows - 1 }, panics p)

  -- `Task::new`, and the task goes to the target. The borrow of `SPAWNER` is still held, and ends
  -- when the call returns or unwinds.
  unfoldable pub hand : Target → Name → State → State × Outcome Panic ℕ
  unfolding release Id.next
  hand target name s =
      let (id, counter) = Id.next s.counter in
      let task : Task = record { id = id; name = name } in
      release id (take target task (lent target task counter s))

  -- `spawn_with_name`: the result is the id in the join handle.
  unfoldable pub spawn_with_name : Name → State → State × Outcome Panic ℕ
  unfolding hand
  spawn_with_name name s = elim s.spawner [
    | some spawner ↦ hand (entered spawner) name s
    | none ↦ elim find [
      | returns (some f) ↦ hand (found f) name s
      | returns none ↦ (s, panics no_spawner)
      | panics p ↦ (s, panics p)
    ]
  ]

  -- `spawn`
  unfoldable pub spawn : State → State × Outcome Panic ℕ
  unfolding spawn_with_name
  spawn s = spawn_with_name Name.default s

  -- `Builder::spawn`
  unfoldable pub build : Builder → State → State × Outcome Panic ℕ
  unfolding spawn_with_name
  build b s = spawn_with_name b.name s
