-- ===== src/Compat/Runtimes/Rule.antt =====
-- Which runtime gets a task that no scope is around.
use Prim.Native.String.{String}
use text.Mathlib.TextEquality.{eq_iff}
use spawns.Prelude.{
  ◌≡◌, refl, Bool, true, false, Option, none, some, Outcome, returns, panics, if◌then◌else◌, arith,
  ◌&&◌, ◌||◌, Result, ok, err,
}
use spawns.Compat.{
  SpawnFn, Panic, Failure, not_found, multiple_globals, multiple_global_spawners, chosen, scan,
  pick_global, find_global, find_local, find_any, find_spawn,
}
use spawns.Compat.Choice.{is_choice, chosen-is_choice}
use spawns.Compat.Runtimes.{
  Features, Order, tsa, tas, sta, sat, ats, ast, compats, detect, tokio_spawn, smol_global,
  async_global,
}

-- The global that stands last.
pub last_global : Order → SpawnFn
last_global tsa = async_global
last_global tas = smol_global
last_global sta = async_global
last_global sat = async_global
last_global ats = smol_global
last_global ast = smol_global

-- With both globals, the variable chooses; failing that, it is an error under the feature, and the
-- linker's choice without.
unfoldable pub between_globals : Bool → Option String → Order → Outcome Panic (Option SpawnFn)
between_globals strict choose o =
    if is_choice choose "smol"
    then returns (some smol_global)
    else if is_choice choose "async-global-executor"
    then returns (some async_global)
    else if strict
    then panics multiple_global_spawners
    else returns (some (last_global o))

-- Which global gets a task; one that is alone needs no choosing.
unfoldable pub global_rule :
    Bool → Option String → Order → Features → Outcome Panic (Option SpawnFn)
global_rule strict choose o f =
    if f.smol
    then if f.async_global_executor
      then between_globals strict choose o
      else returns (some smol_global)
    else if f.async_global_executor
    then returns (some async_global)
    else returns none

-- Several compats are linked.
abbrev pub several : Features → Bool
several f = (f.tokio && (f.smol || f.async_global_executor)) || (f.smol && f.async_global_executor)

abbrev pub stuck_to : Result SpawnFn Failure → Outcome Panic (Option SpawnFn)
stuck_to (ok spawn) = returns (some spawn)
stuck_to (err not_found) = returns none
stuck_to (err multiple_globals) = panics multiple_global_spawners

-- tokio goes first where it is current. Among several compats a global that was settled on before
-- is kept, under whatever variable that was; a compat that is alone is asked again.
unfoldable pub runtime_rule :
    Bool
    → Option String
    → Bool
    → Order
    → Features
    → Option (Result SpawnFn Failure)
    → Outcome Panic (Option SpawnFn)
runtime_rule strict choose current o f before =
    if f.tokio && current then returns (some tokio_spawn) else elim before [
      | none ↦ global_rule strict choose o f
      | some result ↦ if several f then stuck_to result else global_rule strict choose o f
    ]

-- The variable holds one name.
one_chosen :
    (choose : Option String)
    → chosen choose "smol" ≡ true
    → chosen choose "async-global-executor" ≡ false
unfolding chosen
one_chosen none e = refl
one_chosen (some c) e = rw ((eq_iff c "smol").0 e) refl

-- What the variable says of the two names, and that it is not both.
names_lem :
    (choose : Option String)
    → (chosen choose "smol" ≡ is_choice choose "smol")
      × (chosen choose "async-global-executor" ≡ is_choice choose "async-global-executor")
      × (chosen choose "smol" ≡ true → chosen choose "async-global-executor" ≡ false)
names_lem choose = (
  chosen-is_choice choose "smol",
  chosen-is_choice choose "async-global-executor",
  one_chosen choose,
)

-- With the compats of any set of features, in any order, `find_spawn` finds the runtime of the rule:
-- tokio where it is current; else smol or async-global-executor, where just one of them is there;
-- where both are, the one that the variable names, and if it names neither, a panic under the
-- feature, or else the one that the linker put last; and none where neither is. But where tokio is not
-- current, several compats are linked, and `FOUND` holds what an earlier call settled on, that is kept,
-- a panic included.
pub find_spawn-runtime_rule :
    (strict : Bool) (choose : Option String) (current : Bool) (o : Order) (f : Features)
    (before : Option (Result SpawnFn Failure))
    → (find_spawn strict choose (detect current) (compats o f) before).0
      ≡ runtime_rule strict choose current o f before
unfolding runtime_rule global_rule between_globals last_global find_spawn find_local find_any
    find_global pick_global scan compats
find_spawn-runtime_rule strict choose current tsa f none = ground (arith, names_lem choose)
find_spawn-runtime_rule strict choose current tsa f (some r) = ground (arith, names_lem choose)
find_spawn-runtime_rule strict choose current tas f none = ground (arith, names_lem choose)
find_spawn-runtime_rule strict choose current tas f (some r) = ground (arith, names_lem choose)
find_spawn-runtime_rule strict choose current sta f none = ground (arith, names_lem choose)
find_spawn-runtime_rule strict choose current sta f (some r) = ground (arith, names_lem choose)
find_spawn-runtime_rule strict choose current sat f none = ground (arith, names_lem choose)
find_spawn-runtime_rule strict choose current sat f (some r) = ground (arith, names_lem choose)
find_spawn-runtime_rule strict choose current ats f none = ground (arith, names_lem choose)
find_spawn-runtime_rule strict choose current ats f (some r) = ground (arith, names_lem choose)
find_spawn-runtime_rule strict choose current ast f none = ground (arith, names_lem choose)
find_spawn-runtime_rule strict choose current ast f (some r) = ground (arith, names_lem choose)
