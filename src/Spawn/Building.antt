-- ===== src/Spawn/Building.antt =====
-- `Builder` and `Task`: the name that a spawned task carries.
use Prim.Native.String.{String}
use spawns.Prelude.{ℕ, ◌≡◌, refl, List, [], ◌∷◌, Option, none, some, Outcome, returns, arith}
use spawns.Name.{Builder, named, new, as_str, try_as_str}
use spawns.Spawn.{Panic, entered, State, build, spawn_with_name}
use spawns.Spawn.Handing.{drop_it}

-- `Builder::new().name(…).name(…)…`
pub builder : Builder → List String → Builder
builder b [] = b
builder b (n ∷ ns) = builder (named b n) ns

pub last_name : Option String → List String → Option String
last_name o [] = o
last_name o (n ∷ ns) = last_name (some n) ns

builder_name :
    (b : Builder) (ns : List String) → (builder b ns).name.name ≡ last_name b.name.name ns
unfolding builder last_name named
builder_name b [] = refl
builder_name b (n ∷ ns) = builder_name (named b n) ns

-- `Task::name`: "unnamed" for a task with no name.
abbrev pub shown : Option String → String
shown none = "unnamed"
shown (some n) = n

-- A builder that was given these names, one after the other, hands its spawner one task, under the
-- next id, which is the id in the join handle. The task has the last of the names, and shows as
-- "unnamed" if there was none.
build_names :
    (find : Outcome Panic (Option ℕ)) (ns : List String) (spawner : ℕ) (s : State)
    → s.spawner ≡ some spawner
    → let b = builder new ns in
      let r = build drop_it find b s in
      (r.0.handed ≡ (entered spawner, record { id = s.counter; name = b.name }) ∷ s.handed)
      × (r.1 ≡ returns s.counter)
      × (try_as_str b.name ≡ last_name none ns)
      × (as_str b.name ≡ shown (last_name none ns))
unfolding build spawn_with_name new try_as_str as_str
build_names find ns spawner s e = ground (arith, builder_name new ns)
