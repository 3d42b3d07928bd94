-- ===== src/Compat/Runtimes/Samples.antt =====
-- The runtimes at a build with all features.
use spawns.Prelude.{◌≡◌, refl, true, false, none, some, ok, returns, panics}
use spawns.Compat.{find_spawn, multiple_global_spawners}
use spawns.Compat.Choice.{is_choice}
use spawns.Compat.Runtimes.{Features, tsa, compats, detect, tokio_spawn, smol_global}
use spawns.Compat.Runtimes.Rule.{
  global_rule, between_globals, runtime_rule, find_spawn-runtime_rule,
}

abbrev all : Features
all = record { tokio = true; smol = true; async_global_executor = true }

in_tokio : runtime_rule true none true tsa all none ≡ returns (some tokio_spawn)
unfolding runtime_rule
in_tokio = refl

nowhere : runtime_rule true (some "tokio") false tsa all none ≡ panics multiple_global_spawners
unfolding runtime_rule global_rule between_globals is_choice
nowhere = refl

-- smol is kept from an earlier call, although the variable is another one now.
find_spawn-runtime_rule_example :
    (find_spawn true
      (some "async-global-executor")
      (detect false)
      (compats tsa all)
      (some (ok smol_global))).0
    ≡ runtime_rule true (some "async-global-executor") false tsa all (some (ok smol_global))
find_spawn-runtime_rule_example =
    find_spawn-runtime_rule true (some "async-global-executor") false tsa all
      (some (ok smol_global))
