-- ===== src/Compat.antt =====
-- spawns-core/src/compat.rs: how a spawn function is found among the registered `Compat`s.
-- A spawn function and a detecting function are known by numbers; what a detecting function returns
-- on this thread is a parameter. `COMPATS` is an argument, in its order, which the linker chooses.
-- The feature `panic-multiple-global-spawners` is a Boolean, and the variable
-- `SPAWNS_GLOBAL_SPAWNER` an optional text.
pub mod Choice
pub mod Found
pub mod Linked
pub mod Runtimes
mod Samples
use Prim.Native.String.{String}
use text.Mathlib.Text.{◌==◌ as str_eq}
use spawns.Prelude.{
  ℕ, suc, ◌+◌, ◌≡◌, Bool, true, false, ◌&&◌, List, [], ◌∷◌, Option, none, some, Result, ok, err,
  Outcome, returns, panics, ltb, if◌then◌else◌,
}

abbrev pub SpawnFn : Type 0
SpawnFn = ℕ

abbrev pub DetectFn : Type 0
DetectFn = ℕ

pub data Compat : Type 0 where
  named_global : (name : String) → SpawnFn → Compat
  global : SpawnFn → Compat
  local : DetectFn → Compat

pub data Failure : Type 0 where
  not_found multiple_globals : Failure

-- The variables that the closure of `pick_global` updates.
pub record Scan : Type 0 where
  pub globals : ℕ
  pub last_named : Option SpawnFn
  pub last_unnamed : Option SpawnFn

-- `choose == Some(name)`
unfoldable pub chosen : Option String → String → Bool
chosen none name = false
chosen (some c) name = str_eq c name

-- The `find_map` of `pick_global`.
unfoldable pub scan : Option String → List Compat → Scan → Option SpawnFn × Scan
scan choose [] s = (none, s)
scan choose (local _ ∷ cs) s = scan choose cs s
scan choose (global spawn ∷ cs) s =
    scan choose cs (record s { globals = s.globals + 1; last_unnamed = some spawn })
scan choose (named_global name spawn ∷ cs) s =
    let rest = scan choose cs (record s { globals = s.globals + 1; last_named = some spawn }) in
    if chosen choose name then (some spawn, s) else rest

-- `last_named.or(last_unnamed).ok_or(Failure::NotFound)`
unfoldable pub or_last : Option SpawnFn → Option SpawnFn → Result SpawnFn Failure
or_last (some spawn) _ = ok spawn
or_last none (some spawn) = ok spawn
or_last none none = err not_found

abbrev pub start : Scan
start = record { globals = 0; last_named = none; last_unnamed = none }

unfoldable pub pick_global : Bool → Option String → List Compat → Result SpawnFn Failure
unfolding or_last
pick_global strict choose cs =
    let (hit, s) = scan choose cs start in
    elim hit [
      | some spawn ↦ ok spawn
      | none ↦
          if strict && ltb 1 s.globals
          then err multiple_globals
          else or_last s.last_named s.last_unnamed
    ]

-- `find_global` with no other thread in between: the result, and the `OnceLock` `FOUND`.
unfoldable pub find_global :
    Bool
    → Option String
    → List Compat
    → Option (Result SpawnFn Failure)
    → Result SpawnFn Failure × Option (Result SpawnFn Failure)
find_global strict choose cs (some found) = (found, some found)
find_global strict choose cs none =
    let result = pick_global strict choose cs in (result, some result)

unfoldable pub find_local : (DetectFn → Option SpawnFn) → List Compat → Option SpawnFn
find_local detect [] = none
find_local detect (local d ∷ cs) = elim (detect d) [
  | some spawn ↦ some spawn
  | none ↦ find_local detect cs
]
find_local detect (global _ ∷ cs) = find_local detect cs
find_local detect (named_global _ _ ∷ cs) = find_local detect cs

pub data Panic : Type 0 where
  multiple_global_spawners : Panic

-- The `match` at the end of `find_spawn`.
unfoldable pub found : Result SpawnFn Failure → Outcome Panic (Option SpawnFn)
found (ok spawn) = returns (some spawn)
found (err not_found) = returns none
found (err multiple_globals) = panics multiple_global_spawners

-- The part of `find_spawn` behind its first `match`.
unfoldable pub find_any :
    Bool
    → Option String
    → (DetectFn → Option SpawnFn)
    → List Compat
    → Option (Result SpawnFn Failure)
    → Outcome Panic (Option SpawnFn) × Option (Result SpawnFn Failure)
unfolding found
find_any strict choose detect cs cell = elim (find_local detect cs) [
  | some spawn ↦ (returns (some spawn), cell)
  | none ↦ let (result, cell') = find_global strict choose cs cell in (found result, cell')
]

unfoldable pub find_spawn :
    Bool
    → Option String
    → (DetectFn → Option SpawnFn)
    → List Compat
    → Option (Result SpawnFn Failure)
    → Outcome Panic (Option SpawnFn) × Option (Result SpawnFn Failure)
unfolding find_any
find_spawn strict choose detect [] cell = (returns none, cell)
find_spawn strict choose detect (named_global _ spawn ∷ []) cell = (returns (some spawn), cell)
find_spawn strict choose detect (global spawn ∷ []) cell = (returns (some spawn), cell)
find_spawn strict choose detect (local d ∷ []) cell = (returns (detect d), cell)
find_spawn strict choose detect cs cell = find_any strict choose detect cs cell
