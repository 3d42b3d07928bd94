-- ===== src/Compat/Samples.antt =====
-- Registered compats as in the source's tests, and the theorems at them.
use mathlib.Core.List.{Permᴰ}
use mathlib.Core.List.Permᴰ.{cons, swap}
use spawns.Prelude.{
  arith, ℕ, ◌≡◌, refl, true, false, List, [], ◌∷◌, Option, none, some, Result, err, returns, panics,
  ◌==◌, if◌then◌else◌,
}
use spawns.Compat.{
  Compat, named_global, global, local, Failure, multiple_globals, chosen, scan, pick_global,
  find_local, find_any, find_global, find_spawn, multiple_global_spawners,
}
use spawns.Compat.Choice.{pick_rule, pick_global-pick_rule}
use spawns.Compat.Linked.{offers, find_spawn-Perm}
use spawns.Compat.Found.{
  Finders, idle, empty, read_var, returned, Reach, begin, later, look, read, init, at,
  find_global_agrees,
}

-- DROP_LOCAL, THREAD_LOCAL, THREAD_GLOBAL and DROP_GLOBAL of the source's tests.
abbrev compats : List Compat
compats = local 0 ∷ local 1 ∷ global 10 ∷ named_global "drop" 20 ∷ []

-- No spawner is set on this thread.
abbrev nowhere : ℕ → Option ℕ
nowhere d = none

-- multiple_globals, with the feature and without; multiple_globals_choose_named
multiple_panics : (find_spawn true none nowhere compats none).0 ≡ panics multiple_global_spawners
unfolding find_spawn find_any find_local find_global pick_global scan chosen
multiple_panics = refl

multiple_lenient : (find_spawn false none nowhere compats none).0 ≡ returns (some 20)
unfolding find_spawn find_any find_local find_global pick_global scan chosen
multiple_lenient = refl

choose_named : (find_spawn true (some "drop") nowhere compats none).0 ≡ returns (some 20)
unfolding find_spawn find_any find_local find_global pick_global scan chosen
choose_named = refl

pick_global-pick_rule_example :
    pick_global true (some "drop") compats ≡ pick_rule true (some "drop") compats
pick_global-pick_rule_example = pick_global-pick_rule true (some "drop") compats

-- The same, with the globals the other way round.
abbrev relinked : List Compat
relinked = local 0 ∷ local 1 ∷ named_global "drop" 20 ∷ global 10 ∷ []

relinked-Perm : Permᴰ compats relinked
relinked-Perm = cons refl (cons refl (swap refl refl))

find_spawn-Perm_example :
    (find_spawn true (some "drop") nowhere compats none).0
    ≡ (find_spawn true (some "drop") nowhere relinked none).0
unfolding offers chosen
find_spawn-Perm_example =
    find_spawn-Perm (some "drop") nowhere relinked-Perm (ground arith) (ground arith)

-- The second local detects its runtime.
abbrev second : ℕ → Option ℕ
second d = if d == 1 then some 31 else none

-- Threads 0 and 1 both find the cell empty; 0 stores its choice, 1 had another one in mind.
abbrev racing : Finders
racing = record {
  cell = none;
  pcs = at (at (at (at (λ _. idle) 0 empty) 1 empty) 0 (read_var none)) 1 (read_var (some "drop"));
}

racing-Reach : Reach true compats racing
racing-Reach =
    later (later (later (later begin (look 0 refl)) (look 1 refl)) (read 0 none refl))
      (read 1 (some "drop") refl)

abbrev raced : Finders
raced = record {
  cell = some (err multiple_globals);
  pcs = at (at racing.pcs 0 (returned (err multiple_globals))) 1 (returned (err multiple_globals));
}

raced-Reach : Reach true compats raced
unfolding pick_global scan chosen
raced-Reach =
    later (later racing-Reach (init 0 none (err multiple_globals) refl refl))
      (init 1 (some "drop") (err multiple_globals) refl refl)

find_global_agrees_example :
    ◌≡◌ {A = Result ℕ Failure} (err multiple_globals) (err multiple_globals)
find_global_agrees_example =
    find_global_agrees true compats 0 1 (err multiple_globals) (err multiple_globals) raced-Reach
      refl refl
