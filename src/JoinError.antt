-- ===== src/JoinError.antt =====
-- spawns-core/src/task.rs: what the owner of a handle may do with a `JoinError`.
pub mod Reports
mod Samples
use spawns.Prelude.{
  ℕ, Bool, true, false, List, ◌++◌, Result, ok, err, Outcome, returns, panics, bytes,
}
use spawns.Joint.{Payload, InnerJoinError, cancelled, panic, JoinError}
use spawns.Id.Display.{display, debug}

-- What a caller unwinds with: the payload of the task's panic, or a message of its own.
pub data Unwind : Type 0 where
  resumed : Payload → Unwind
  message : List ℕ → Unwind

inner_panic : InnerJoinError → JoinError → Result Payload JoinError
inner_panic (panic p) e = ok p
inner_panic cancelled e = err e

-- `JoinError::try_into_panic`
unfoldable pub try_into_panic : JoinError → Result Payload JoinError
unfolding inner_panic
try_into_panic e = inner_panic e.inner e

-- "task {} does not panic, but cancelled"
abbrev pub no_panic_text : ℕ → List ℕ
no_panic_text id = bytes "task " ++ display id ++ bytes " does not panic, but cancelled"

-- `JoinError::into_panic`
unfoldable pub into_panic : JoinError → Outcome Unwind Payload
unfolding try_into_panic
into_panic e = elim (try_into_panic e) [
  | ok p ↦ returns p
  | err e' ↦ panics (message (no_panic_text e'.id))
]

-- `JoinError::resume_panic`, which never returns.
unfoldable pub resume_panic : JoinError → Unwind
unfolding into_panic
resume_panic e = elim (into_panic e) [ returns p ↦ resumed p | panics u ↦ u ]

unfoldable pub is_panic : JoinError → Bool
is_panic e = elim e.inner [ panic _ ↦ true | cancelled ↦ false ]

unfoldable pub is_cancelled : JoinError → Bool
is_cancelled e = elim e.inner [ cancelled ↦ true | panic _ ↦ false ]

-- `Debug for JoinError`
unfoldable pub debug_error : JoinError → List ℕ
debug_error e = elim e.inner [
  | cancelled ↦ bytes "JoinError::Cancelled(" ++ debug e.id ++ bytes ")"
  | panic _ ↦ bytes "JoinError::Panic(" ++ debug e.id ++ bytes ", ...)"
]

-- `Display for JoinError`
unfoldable pub display_error : JoinError → List ℕ
display_error e = elim e.inner [
  | cancelled ↦ bytes "task " ++ display e.id ++ bytes " was cancelled"
  | panic _ ↦ bytes "task " ++ display e.id ++ bytes " panicked"
]
