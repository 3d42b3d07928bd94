-- ===== src/Crowd/Samples.antt =====
-- Two tasks on one heap, and the theorems at them.
use spawns.Prelude.{ℕ, ◌+◌, ◌≡◌, refl, List, [], ◌∷◌, none, some}
use spawns.Joint.{Waker, TaskResult}
use spawns.Joint
use spawns.Cancellation.{Slot}
use spawns.Cancellation
use spawns.Task.{
  Attempt, still_pending, Op, polls, joins, cancels, drops_task, step, run, poll_task, poll_handle,
  cancel, spawned,
}
use spawns.Crowd.{Crowd, task_in, all_spawned, call, calls}
use spawns.Crowd.Apart.{AllValid, all_spawned-AllValid}
use spawns.Crowd.Same.{Same}
use spawns.Crowd.Alone.{AllFresh, calls_on, calls-AllValid, calls_alone}
use spawns.Crowd.Given.{Gave}
use spawns.Crowd.Answers.{Answered, Told, drop_answers}

abbrev futures : ℕ → Unit {0}
futures i = tt

abbrev pends : Unit {0} → Waker → Unit {0} × Attempt ℕ
pends s w = (s, still_pending)

abbrev id : ℕ → ℕ
id i = i + 1

-- Tasks 0 and 1 are polled in turn, each twice; 0 is cancelled, and 1 has a joiner.
abbrev mixed : List (ℕ × Op)
mixed =
    (0, polls 7 100)
    ∷ (1, polls 8 101)
    ∷ (0, polls 7 102)
    ∷ (1, joins 9)
    ∷ (1, polls 8 103)
    ∷ (0, cancels)
    ∷ []

mixed-AllFresh : AllFresh {A = ℕ} pends id mixed (all_spawned futures)
unfolding call step poll_task spawned cancel poll_handle Joint.poll Joint.new Cancellation.default
    Cancellation.is_cancelled Cancellation.update Cancellation.cancel
mixed-AllFresh = (refl, (refl, (refl, (tt, (refl, (tt, tt))))))

abbrev mixed_up : Crowd ℕ (Unit {0})
mixed_up = calls pends id mixed (all_spawned futures)

calls-AllValid_example : AllValid mixed_up
calls-AllValid_example =
    calls-AllValid pends id mixed (all_spawned futures) mixed-AllFresh
      (all_spawned-AllValid futures)

calls_alone_example :
    Same (task_in mixed_up 0) (run pends 1 (polls 7 100 ∷ polls 7 102 ∷ cancels ∷ []) (spawned tt))
unfolding calls_on
calls_alone_example = calls_alone pends id mixed futures 0 mixed-AllFresh

drop_answers_example :
    let w = task_in (call pends id (1, drops_task) mixed_up) 1 in
    let before = (mixed_up.tasks 1).joint.result in
    Answered (Gave pends id 1 mixed (all_spawned futures)) 2 before w 9 × Told before w.woken
unfolding calls call step poll_task spawned cancel poll_handle Joint.poll Joint.new
    Cancellation.default Cancellation.is_cancelled Cancellation.update Cancellation.cancel
drop_answers_example = drop_answers pends id mixed futures 1 9 mixed-AllFresh (λ e. cc)

-- Task 0 is woken by its cancellation, and each task has the boxes of its own polls.
mixed_result :
    ((mixed_up.tasks 0).woken ≡ 7 ∷ [])
    × (mixed_up.heap 100 ≡ some 7)
    × (mixed_up.heap 102 ≡ none)
    × ((mixed_up.tasks 1).slot ≡ Slot.ptr 103)
    × (mixed_up.heap 101 ≡ some 8)
unfolding calls call step poll_task spawned cancel poll_handle Joint.poll Joint.new
    Cancellation.default Cancellation.is_cancelled Cancellation.update Cancellation.cancel
mixed_result = (refl, refl, refl, refl, refl)
