-- ===== src/Name.antt =====
-- spawns-core/src/task.rs: `Name`, and the part of `Builder` that names a task.
use Prim.Native.String.{String}
use spawns.Prelude.{Option, none, some}

pub record Name : Type 0 where
  pub name : Option String

-- `Name::default()`
abbrev pub default : Name
default = record { name = none }

-- `Name::try_as_str`
unfoldable pub try_as_str : Name → Option String
try_as_str n = n.name

-- `Name::as_str`
unfoldable pub as_str : Name → String
unfolding try_as_str
as_str n = elim (try_as_str n) [ none ↦ "unnamed" | some s ↦ s ]

-- `Name::into`
unfoldable pub into : Name → Option String
into n = n.name

-- `Name::name`
unfoldable pub with_name : Name → String → Name
with_name n s = record { name = some s }

pub record Builder : Type 0 where
  pub name : Name

-- `Builder::new`
unfoldable pub new : Builder
new = record { name = default }

-- `Builder::name`
unfoldable pub named : Builder → String → Builder
unfolding with_name
named b s = record { name = with_name b.name s }
