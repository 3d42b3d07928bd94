-- ===== src/Scenarios/Ids.antt =====
-- The tests of spawns-core/src/task.rs on ids and names.
use Prim.Native.String.{String}
use spawns.Prelude.{
  ℕ, ◌+◌, ◌≡◌, refl, List, [], ◌∷◌, Option, none, some, Outcome, returns, panics, bytes,
}
use spawns.Id
use spawns.Id.{no_task_running, look, done}
use spawns.Id.Display.{display, debug, hex, hex_digit, u32_max}
use spawns.Name.{Name, try_as_str, as_str, into, with_name}
use spawns.Name
use spawns.Spawn.{Task, task_name, try_name}
use spawns.Scenarios.{first_id}

abbrev id_no : Outcome Id.Panic ℕ
id_no = Id.id 0

id_no_passes : id_no ≡ panics no_task_running
unfolding Id.id Id.try_id
id_no_passes = refl

-- `id()` and `try_id()` inside the `IdFuture` of the first task.
abbrev id_ok : Outcome Id.Panic ℕ
id_ok = Id.id (Id.enter first_id 0).1

id_ok_passes : id_ok ≡ returns first_id
unfolding Id.id Id.try_id Id.enter Id.next
id_ok_passes = refl

abbrev try_id_no : Option ℕ
try_id_no = Id.try_id 0

try_id_no_passes : try_id_no ≡ none
unfolding Id.try_id
try_id_no_passes = refl

abbrev try_id_ok : List (Option ℕ)
try_id_ok = (Id.poll first_id (look done) 0).looks

try_id_ok_passes : try_id_ok ≡ some first_id ∷ []
unfolding Id.poll Id.exec Id.enter Id.try_id Id.next
try_id_ok_passes = refl

abbrev id_display : List (List ℕ)
id_display = display 2 ∷ display u32_max ∷ display (u32_max + 1) ∷ []

id_display_passes :
    id_display ≡ bytes "0x00000002" ∷ bytes "0xffffffff" ∷ bytes "0x0000000100000000" ∷ []
unfolding display hex hex_digit
id_display_passes = refl

abbrev id_debug : List (List ℕ)
id_debug = debug 2 ∷ debug u32_max ∷ debug (u32_max + 1) ∷ []

id_debug_passes :
    id_debug
    ≡ bytes "TaskId(0x00000002)"
      ∷ bytes "TaskId(0xffffffff)"
      ∷ bytes "TaskId(0x0000000100000000)"
      ∷ []
unfolding debug display hex hex_digit
id_debug_passes = refl

abbrev name_unnamed : Option String × String × Option String
name_unnamed = (try_as_str Name.default, as_str Name.default, into Name.default)

name_unnamed_passes : name_unnamed ≡ (none, "unnamed", none)
unfolding try_as_str as_str into
name_unnamed_passes = refl

abbrev name_named : Option String × String × Option String
name_named = let name = with_name Name.default "named" in (try_as_str name, as_str name, into name)

name_named_passes : name_named ≡ (some "named", "named", some "named")
unfolding try_as_str as_str with_name into
name_named_passes = refl

-- The task that `Task::new` makes first, as its spawner sees it.
abbrev task_with : Name → Task
task_with name = record { id = first_id; name = name }

abbrev task_unnamed : Option String × String
task_unnamed = let task = task_with Name.default in (try_name task, task_name task)

task_unnamed_passes : task_unnamed ≡ (none, "unnamed")
unfolding try_as_str as_str
task_unnamed_passes = refl

abbrev task_named : Option String × String
task_named =
    let task = task_with (with_name Name.default "named") in (try_name task, task_name task)

task_named_passes : task_named ≡ (some "named", "named")
unfolding try_as_str as_str with_name
task_named_passes = refl
