-- ===== src/Compat/Runtimes.antt =====
-- spawns-compat/src: the `Compat`s that the features `tokio`, `smol` and `async-global-executor`
-- register. The runtimes are third-party: all that is asked of them is whether a tokio runtime is
-- current on this thread. The linker chooses the order of the slice.
pub mod Rule
mod Samples
use Prim.Native.String.{String}
use spawns.Prelude.{
  ℕ, ◌≡◌, Bool, true, false, List, [], ◌∷◌, Option, none, some, Outcome, returns, panics,
  if◌then◌else◌, ◌&&◌, ◌==◌,
}
use spawns.Compat.{Compat, named_global, local, SpawnFn, DetectFn}

abbrev pub tokio_spawn : SpawnFn
tokio_spawn = 0

abbrev pub smol_global : SpawnFn
smol_global = 1

abbrev pub async_global : SpawnFn
async_global = 2

abbrev pub tokio_local : DetectFn
tokio_local = 0

-- `TOKIO`, `SMOL` and `ASYNC_GLOBAL_EXECUTOR`
abbrev pub tokio : Compat
tokio = local tokio_local

abbrev pub smol : Compat
smol = named_global "smol" smol_global

abbrev pub async_global_executor : Compat
async_global_executor = named_global "async-global-executor" async_global

-- What the function at this place detects: `tokio_local`, by whether `Handle::try_current` gives a
-- handle. There is no other.
abbrev pub detect : Bool → DetectFn → Option SpawnFn
detect current d = if current && (d == tokio_local) then some tokio_spawn else none

-- Which features the crate is built with.
pub record Features : Type 0 where
  pub tokio : Bool
  pub smol : Bool
  pub async_global_executor : Bool

pub data Order : Type 0 where
  tsa tas sta sat ats ast : Order

abbrev with : Bool → Compat → List Compat → List Compat
with enabled c cs = if enabled then c ∷ cs else cs

-- `COMPATS` with these features, in the order that the linker chose, by initials.
unfoldable pub compats : Order → Features → List Compat
compats tsa f =
    with f.tokio tokio (with f.smol smol (with f.async_global_executor async_global_executor []))
compats tas f =
    with f.tokio tokio (with f.async_global_executor async_global_executor (with f.smol smol []))
compats sta f =
    with f.smol smol (with f.tokio tokio (with f.async_global_executor async_global_executor []))
compats sat f =
    with f.smol smol (with f.async_global_executor async_global_executor (with f.tokio tokio []))
compats ats f =
    with f.async_global_executor async_global_executor (with f.tokio tokio (with f.smol smol []))
compats ast f =
    with f.async_global_executor async_global_executor (with f.smol smol (with f.tokio tokio []))
