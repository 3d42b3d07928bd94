-- ===== src/Spawn/Samples.antt =====
-- Scripts as in the source's tests, and the theorems at them.
use spawns.Prelude.{◌≡◌, refl, [], ◌∷◌, none, some, returns, panics}
use spawns.Name.{Name, default}
use spawns.Spawn.{no_spawner, entered, found, State, enter, leave, spawn_with_name}
use spawns.Spawn.Scopes.{Script, done, start, within, exec, Fine, exec_restores}
use spawns.Spawn.Handing.{drop_it, drop_it-Keeps, plan, exec-plan}

abbrev idle : State
idle = record { spawner = none; borrows = 0; counter = 1; handed = [] }

abbrev unnamed : Name
unnamed = default

-- A task under spawner 3, one under 4 inside it, one under 3 again, and one with no scope around.
abbrev nested : Script
nested =
    within 3 (start unnamed (within 4 (start unnamed done) (start unnamed done)))
      (start unnamed done)

-- no_spawner: the last task finds none, and the scopes are put back.
nested_result :
    ((exec drop_it (returns none) nested idle).1 ≡ panics no_spawner)
    × ((exec drop_it (returns none) nested idle).0.spawner ≡ none)
unfolding exec enter leave spawn_with_name
nested_result = (refl, refl)

-- The spawn function 9 of a compat takes the last task.
nested_search :
    (exec drop_it (returns (some 9)) nested idle).0.handed
    ≡ (found 9, record { id = 4; name = unnamed })
      ∷ (entered 3, record { id = 3; name = unnamed })
      ∷ (entered 4, record { id = 2; name = unnamed })
      ∷ (entered 3, record { id = 1; name = unnamed })
      ∷ []
unfolding exec enter leave spawn_with_name
nested_search = refl

exec_restores_example :
    ((exec drop_it (returns none) nested idle).0.spawner ≡ none)
    × ((exec drop_it (returns none) nested idle).0.borrows ≡ 0)
    × Fine (returns none) (exec drop_it (returns none) nested idle).1
exec_restores_example = exec_restores (returns none) drop_it-Keeps nested idle refl

exec-plan_example :
    let r = exec drop_it (returns none) nested idle in
    let p = plan (returns none) nested none 1 [] in
    (r.0.handed ≡ p.handed) × (r.0.counter ≡ p.counter) × (r.1 ≡ p.outcome)
exec-plan_example = exec-plan (returns none) nested idle refl
