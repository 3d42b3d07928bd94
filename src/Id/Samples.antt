-- ===== src/Id/Samples.antt =====
-- The source's tests on ids, and the theorems at concrete inputs.
use spawns.Prelude.{◌+◌, ◌≡◌, refl, [], ◌∷◌, some, arith}
use spawns.Id.{Body, done, unwind, look, poll_other, poll, exec, enter, try_id}
use spawns.Id.Running.{seen, poll_lem}
use spawns.Id.Display.{display, read, u32_max, read-display}

read-display_example : read (display (u32_max + 7)) ≡ some (u32_max + 7)
read-display_example = read-display (u32_max + 7) (omega arith)

-- Task 4 looks, polls task 5, which looks and unwinds.
abbrev nested : Body
nested = look (poll_other 5 (look unwind) (look done))

poll_lem_example :
    ((poll 4 nested 3).running ≡ 3)
    × ((poll 4 nested 3).looks ≡ (seen nested 4).0)
    × ((poll 4 nested 3).end ≡ (seen nested 4).1)
poll_lem_example = poll_lem 4 nested 3

nested_looks : (poll 4 nested 3).looks ≡ some 4 ∷ some 5 ∷ []
unfolding poll exec enter try_id
nested_looks = refl
