-- ===== src/Scenarios/Registered.antt =====
-- The tests of spawns-core/src/spawn.rs with registered `Compat`s, on `find_spawn` and `spawn`.
use Prim.Native.String.{String}
use spawns.Prelude.{
  ℕ, ◌≡◌, refl, Bool, true, false, List, [], ◌∷◌, Option, none, some, Outcome, returns, panics,
  if◌then◌else◌, ◌==◌,
}
use spawns.Id
use spawns.Spawn.{
  Panic, no_spawner, multiple_global_spawners, Task, Target, found, hand, spawn_with_name, spawn,
}
use spawns.Spawn.Handing.{drop_it}
use spawns.Compat.{
  Compat, named_global, global, local, SpawnFn, DetectFn, find_spawn, find_any, find_local,
  find_global, pick_global, scan, chosen,
}
use spawns.Compat
use spawns.Scenarios.Spawners.{start}

-- The answer of `find_spawn`, as `spawn_with_name` takes it.
abbrev pub answer : Outcome Compat.Panic (Option SpawnFn) → Outcome Panic (Option ℕ)
answer (returns o) = returns o
answer (panics Compat.multiple_global_spawners) = panics multiple_global_spawners

abbrev pub targets : List (Target × Task) → List Target
targets [] = []
targets ((g, _) ∷ handed) = g ∷ targets handed

-- What the features of the tests register: `DROP_LOCAL` and `THREAD_LOCAL` with their functions
-- `drop_local` and `thread_local`, `THREAD_GLOBAL`, and `DROP_GLOBAL`.
abbrev drop_local : DetectFn
drop_local = 0

abbrev thread_local : DetectFn
thread_local = 1

abbrev drop_spawn : SpawnFn
drop_spawn = 30

abbrev thread_spawn : SpawnFn
thread_spawn = 31

abbrev thread_global : SpawnFn
thread_global = 32

abbrev drop_global : SpawnFn
drop_global = 33

abbrev locals : List Compat
locals = local drop_local ∷ local thread_local ∷ []

abbrev with_global : List Compat
with_global = local drop_local ∷ local thread_local ∷ global thread_global ∷ []

abbrev with_globals : List Compat
with_globals =
    local drop_local
    ∷ local thread_local
    ∷ global thread_global
    ∷ named_global "drop" drop_global
    ∷ []

-- `DROP_SPAWNER` and `THREAD_SPAWNER` of this thread: whether they are set.
abbrev detects : Bool → Bool → DetectFn → Option SpawnFn
detects drops threads d =
    if d == drop_local
    then if drops then some drop_spawn else none
    else if threads
    then some thread_spawn
    else none

-- Who gets the task of a `spawn` outside every scope.
abbrev spawned_by :
    Bool → Option String → (DetectFn → Option SpawnFn) → List Compat → Outcome Panic (List Target)
spawned_by strict choose detect cs =
    let find = answer (find_spawn strict choose detect cs none).0 in
    let r = spawn drop_it find start in
    elim r.1 [ panics p ↦ panics p | returns _ ↦ returns (targets r.0.handed) ]

-- no_spawner, with the feature `compat`
abbrev no_spawner_compat : Outcome Panic (List Target)
no_spawner_compat = spawned_by false none (detects false false) locals

no_spawner_compat_passes : no_spawner_compat ≡ panics no_spawner
unfolding spawn spawn_with_name hand Id.next find_spawn find_any find_local find_global pick_global
    scan chosen Compat.found
no_spawner_compat_passes = refl

abbrev drop_spawner_local : Outcome Panic (List Target)
drop_spawner_local = spawned_by false none (detects true false) locals

drop_spawner_local_passes : drop_spawner_local ≡ returns (found drop_spawn ∷ [])
unfolding spawn spawn_with_name hand Id.next find_spawn find_any find_local find_global pick_global
    scan chosen Compat.found
drop_spawner_local_passes = refl

abbrev thread_spawner_local : Outcome Panic (List Target)
thread_spawner_local = spawned_by false none (detects false true) locals

thread_spawner_local_passes : thread_spawner_local ≡ returns (found thread_spawn ∷ [])
unfolding spawn spawn_with_name hand Id.next find_spawn find_any find_local find_global pick_global
    scan chosen Compat.found
thread_spawner_local_passes = refl

abbrev thread_spawner_global : Outcome Panic (List Target)
thread_spawner_global = spawned_by false none (detects false false) with_global

thread_spawner_global_passes : thread_spawner_global ≡ returns (found thread_global ∷ [])
unfolding spawn spawn_with_name hand Id.next find_spawn find_any find_local find_global pick_global
    scan chosen Compat.found
thread_spawner_global_passes = refl

-- multiple_globals, with the feature `panic-multiple-global-spawners`
abbrev multiple_globals : Outcome Panic (List Target)
multiple_globals = spawned_by true none (detects false false) with_globals

multiple_globals_passes : multiple_globals ≡ panics multiple_global_spawners
unfolding spawn spawn_with_name hand Id.next find_spawn find_any find_local find_global pick_global
    scan chosen Compat.found
multiple_globals_passes = refl

-- multiple_globals, without that feature
abbrev multiple_globals_lenient : Outcome Panic (List Target)
multiple_globals_lenient = spawned_by false none (detects false false) with_globals

multiple_globals_lenient_passes : multiple_globals_lenient ≡ returns (found drop_global ∷ [])
unfolding spawn spawn_with_name hand Id.next find_spawn find_any find_local find_global pick_global
    scan chosen Compat.found
multiple_globals_lenient_passes = refl

abbrev multiple_globals_choose_named : Outcome Panic (List Target)
multiple_globals_choose_named = spawned_by true (some "drop") (detects false false) with_globals

multiple_globals_choose_named_passes :
    multiple_globals_choose_named ≡ returns (found drop_global ∷ [])
unfolding spawn spawn_with_name hand Id.next find_spawn find_any find_local find_global pick_global
    scan chosen Compat.found
multiple_globals_choose_named_passes = refl
