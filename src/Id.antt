-- ===== src/Id.antt =====
-- spawns-core/src/task.rs: `RawId`, `Id`, the thread local `RUNNING_ID`, `IdScope`, `IdFuture`,
-- `id` and `try_id`. The state is the thread's `RUNNING_ID`, or the shared counter `ID`.
pub mod Running
pub mod Display
mod Samples
use spawns.Prelude.{
  ℕ, ◌+◌, ◌%◌, ◌^◌, ◌≡◌, List, [], ◌∷◌, ◌++◌, Option, none, some, Outcome, returns, panics, ◌==◌,
  if◌then◌else◌,
}

abbrev pub u64_mod : ℕ
u64_mod = 2 ^ 64

-- `RawId::next` on the counter `ID`: the id, and the counter. `fetch_add` wraps.
unfoldable pub next : ℕ → ℕ × ℕ
next counter = (counter, (counter + 1) % u64_mod)

-- `ID` starts at 1.
abbrev pub first : ℕ
first = 1

-- `RawId::run`: what `RUNNING_ID` was, and what it is.
unfoldable pub run : ℕ → ℕ → ℕ × ℕ
run id running = (running, id)

-- `IdScope`
pub record IdScope : Type 0 where
  pub previous : ℕ

-- `RawId::enter`
unfoldable pub enter : ℕ → ℕ → IdScope × ℕ
unfolding run
enter id running = let (previous, now) = run id running in (record { previous = previous }, now)

-- `Drop for IdScope`
unfoldable pub leave : IdScope → ℕ → ℕ
unfolding run
leave scope running = (run scope.previous running).1

unfoldable pub try_id : ℕ → Option ℕ
try_id running = if running == 0 then none else some running

pub data Panic : Type 0 where
  no_task_running : Panic

unfoldable pub id : ℕ → Outcome Panic ℕ
unfolding try_id
id running = elim (try_id running) [ none ↦ panics no_task_running | some i ↦ returns i ]

-- What a task's poll does with ids: it looks at `try_id`, polls another task in place, goes on, or
-- unwinds. The parameter of `IdFuture::poll`, as far as ids are concerned.
pub data Body : Type 0 where
  done unwind : Body
  look : Body → Body
  poll_other : ℕ → Body → Body → Body

pub data End : Type 0 where
  finished unwound : End

-- `RUNNING_ID` after the poll, how the poll ended, and what `try_id` gave at each look.
pub record Trace : Type 0 where
  pub running : ℕ
  pub end : End
  pub looks : List (Option ℕ)

abbrev then_do : Trace → (ℕ → Trace) → Trace
then_do t k = elim t.end [
  | unwound ↦ t
  | finished ↦
      let u = k t.running in record { running = u.running; end = u.end; looks = t.looks ++ u.looks }
]

-- The scope is dropped when the poll returns, and when it unwinds.
scoped : IdScope → Trace → Trace
unfolding leave
scoped scope t = record t { running = leave scope t.running }

-- The body of a poll, in which `poll_other i` is `IdFuture::poll` of the task with id `i`.
unfoldable pub exec : Body → ℕ → Trace
unfolding enter scoped
exec done running = record { running = running; end = finished; looks = [] }
exec unwind running = record { running = running; end = unwound; looks = [] }
exec (look rest) running =
    let t = exec rest running in record t { looks = try_id running ∷ t.looks }
exec (poll_other i body rest) running =
    let s = enter i running in then_do (scoped s.0 (exec body s.1)) (exec rest)

-- `IdFuture::poll` of the task with this id.
unfoldable pub poll : ℕ → Body → ℕ → Trace
unfolding exec
poll i body running = let s = enter i running in scoped s.0 (exec body s.1)
