-- ===== src/JoinError/Reports.antt =====
-- How the end of a task of spawns-core/src/task.rs reaches the owner of its handle.
use spawns.Prelude.{
  ℕ, ◌≡◌, ◌≢◌, refl, true, false, Option, none, some, Result, ok, err, Outcome, returns, Poll,
  ready,
}
use spawns.Joint.{TaskResult, Waker, cancelled, panic, JoinError}
use spawns.Task.{Attempt, gone, World, Failure, poll_task, poll_handle}
use spawns.Task.Valid.{Valid}
use spawns.Task.Outcomes.{verdict, join_result, poll_ends}
use spawns.JoinError.{
  resumed, message, try_into_panic, no_panic_text, resume_panic, is_panic, is_cancelled,
}

-- The error that a poll of the handle gives, if any.
pub error_of : {A : Type 0} → Outcome Failure (Poll (Result A JoinError)) → Option JoinError
error_of (returns (ready (err e))) = some e
error_of _ = none

-- The owner of the handle of task `id` is told of this end. Of a value, as it is. Of a panic, by an
-- error that gives the payload back, and unwinds with it when it is resumed. Of a cancellation, by an
-- error that has no payload, and names the task in the message when it is resumed.
abbrev pub Reported :
    {A : Type 0} → ℕ → TaskResult A → Outcome Failure (Poll (Result A JoinError)) → Type 0
Reported id (ok a) o = o ≡ returns (ready (ok a))
Reported id (err (panic p)) o =
    (e : JoinError) × (error_of o ≡ some e)
    × (is_panic e ≡ true)
    × (is_cancelled e ≡ false)
    × (try_into_panic e ≡ ok p)
    × (resume_panic e ≡ resumed p)
Reported id (err cancelled) o =
    (e : JoinError) × (error_of o ≡ some e)
    × (is_panic e ≡ false)
    × (is_cancelled e ≡ true)
    × (try_into_panic e ≡ err e)
    × (resume_panic e ≡ message (no_panic_text id))

report :
    {A : Type 0} (id : ℕ) (r : TaskResult A) (o : Outcome Failure (Poll (Result A JoinError)))
    → o ≡ returns (ready (join_result id r))
    → Reported id r o
unfolding error_of is_panic is_cancelled try_into_panic resume_panic
report id (ok a) o e = e
report id (err (panic p)) o e =
    (record { id = id; inner = panic p }, rw e refl, refl, refl, refl, refl)
report id (err cancelled) o e =
    (record { id = id; inner = cancelled }, rw e refl, refl, refl, refl, refl)

module _ {A S : Type 0} (poll_future : S → Waker → S × Attempt A) {s : World A S}
    (v : Valid s) where
  -- If a poll of a well-formed task that has its future finds it cancelled, or its future completes
  -- or panics in that poll, the poll returns `Ready` and drops the future, and the next poll of the
  -- handle, where it is still held, tells its owner how the task ended: by the value, by an error with
  -- the panic's payload, or by an error that is a cancellation.
  pub end_reaches_joiner :
      (id : ℕ) (w u : Waker) (b : ℕ) (future : S) (r : TaskResult A)
      → s.task.future ≡ some future
      → verdict s.slot (poll_future future w).1 ≡ some r
      → s.handle ≢ gone
      → let t = poll_task poll_future s w b in
        (t.1 ≡ returns (ready tt))
        × (t.0.task.future ≡ none)
        × Reported id r (poll_handle id t.0 u).1
  end_reaches_joiner id w u b future r e f g =
      let (done, dropped, joins) = poll_ends poll_future v id w u b future r e f g in
      (done, dropped, report id r _ joins)
