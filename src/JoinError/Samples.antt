-- ===== src/JoinError/Samples.antt =====
-- The source's tests on join errors, and the theorems at concrete inputs.
use spawns.Prelude.{ℕ, ◌+◌, ◌≡◌, refl, none, err, returns, ready, bytes}
use spawns.Joint.{Waker, cancelled, panic, JoinError}
use spawns.Cancellation
use spawns.Id.Display.{display, debug, hex, hex_digit}
use spawns.Task.{Attempt, unwound, World, spawned, poll_task, poll_handle, cancel}
use spawns.Task.Valid.{spawned-Valid, cancel-Valid}
use spawns.JoinError.{display_error, debug_error}
use spawns.JoinError.Reports.{Reported, end_reaches_joiner}

abbrev aborted : JoinError
aborted = record { id = 2; inner = cancelled }

display_aborted : display_error aborted ≡ bytes "task 0x00000002 was cancelled"
unfolding display_error display hex hex_digit
display_aborted = refl

debug_aborted : debug_error aborted ≡ bytes "JoinError::Cancelled(TaskId(0x00000002))"
unfolding debug_error debug display hex hex_digit
debug_aborted = refl

abbrev explode : ℕ → Waker → ℕ × Attempt ℕ
explode n w = (n, unwound (n + 40))

abbrev started : World ℕ ℕ
started = spawned 2

abbrev stopped : World ℕ ℕ
stopped = (cancel started).0

end_reaches_joiner_example :
    let t = poll_task explode started 7 100 in
    (t.1 ≡ returns (ready tt))
    × (t.0.task.future ≡ none)
    × Reported 1 (err (panic 42)) (poll_handle 1 t.0 5).1
unfolding spawned
end_reaches_joiner_example =
    end_reaches_joiner explode (spawned-Valid 2) 1 7 5 100 2 (err (panic 42)) refl refl (λ e. cc)

-- The same task, cancelled before its poll.
stopped_result : Reported 1 (err cancelled) (poll_handle 1 (poll_task explode stopped 7 100).0 5).1
unfolding spawned cancel Cancellation.cancel
stopped_result =
    (end_reaches_joiner explode (cancel-Valid (spawned-Valid 2)) 1 7 5 100 2 (err cancelled) refl
      refl (λ e. cc)).2
