-- ===== src/Task/Samples.antt =====
-- A task whose future counts down, and the theorems at it.
use spawns.Prelude.{ℕ, zero, suc, ◌≡◌, refl, List, [], ◌∷◌, none, some, ok}
use spawns.Joint.{Waker, JoinResult, cancelled, panic, Joint}
use spawns.Joint
use spawns.Cancellation.{Slot, ptr}
use spawns.Cancellation
use spawns.Task
use spawns.Task.{
  Attempt, still_pending, completed, unwound, Handle, join_handle, task_handle, gone, World, Op,
  polls, joins, cancels, attaches, detaches, cancels_detaching, drops_handle, drops_task, step, run,
  poll_task, poll_handle, cancel, drop_task, drop_handle, attach, spawned, box_at,
}
use spawns.Task.Valid.{Valid, spawned-Valid, poll_task-Valid}
use spawns.Task.Outcomes.{PollOutcome, poll_task_returns}
use spawns.Task.Driven.{polling, alone, Stands, driven_as_alone}

-- Pending as often as the number says, then 42; a future at 100 panics with payload 9.
abbrev count_down : ℕ → Waker → ℕ × Attempt ℕ
count_down zero w = (0, completed 42)
count_down (suc n) w = (n, still_pending)

abbrev explode : ℕ → Waker → ℕ × Attempt ℕ
explode n w = (n, unwound 9)

abbrev two : World ℕ ℕ
two = spawned 2

two-Valid : Valid two
two-Valid = spawned-Valid 2

-- Polled once: pending, with waker 7 in the box at 100.
abbrev polled : World ℕ ℕ
polled = (poll_task count_down two 7 100).0

polled-Valid : Valid polled
unfolding spawned
polled-Valid = poll_task-Valid count_down 0 two 7 100 two-Valid refl refl

abbrev ops : List Op
ops =
    polls 7 100 ∷ joins 5 ∷ attaches ∷ polls 8 101 ∷ cancels_detaching ∷ polls 9 102 ∷ joins 6 ∷ []

-- The run ends with the error `Cancelled` in the joiner's hands, wakers 8 and 5 woken.
run_result :
    ((run count_down 1 ops two).task.future ≡ none)
    × ((run count_down 1 ops two).woken ≡ 5 ∷ 8 ∷ [])
    × ((run count_down 1 ops two).joint.result ≡ JoinResult.joined)
unfolding run step spawned poll_task cancel Joint.wake Cancellation.update Cancellation.is_cancelled
    Cancellation.cancel poll_handle Joint.poll attach Joint.new Cancellation.default
    Task.cancel_detach
run_result = (refl, refl, refl)

poll_task_returns_example :
    PollOutcome count_down two 7 100 two.task.future (poll_task count_down two 7 100)
unfolding spawned
poll_task_returns_example = poll_task_returns count_down two-Valid 7 100 refl refl

-- The third poll ends the task; the fourth does nothing.
abbrev rounds : List (Waker × ℕ)
rounds = (7, 100) ∷ (8, 101) ∷ (9, 102) ∷ (9, 102) ∷ []

driven_as_alone_example :
    Stands count_down 1 (run count_down 1 (polling rounds) two) 5 (alone count_down rounds 2)
unfolding run step spawned poll_task Cancellation.update Cancellation.is_cancelled
    Cancellation.default Joint.wake Joint.new
driven_as_alone_example =
    driven_as_alone count_down 1 5 rounds two 2 two-Valid refl (λ e. cc) (λ e. cc) refl
      (refl, (refl, (refl, (refl, tt))))

alone_result : alone count_down rounds 2 ≡ some (ok 42)
unfolding alone
alone_result = refl
