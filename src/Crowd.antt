-- ===== src/Crowd.antt =====
-- spawns-core/src/task.rs, many tasks at once: each with its own joint, cancellation and handle, and
-- all with their boxes on one heap. Calls on different tasks come in any order. A call that the future
-- of one task makes on another while it is polled is a call of its own, before that poll.
pub mod Local
pub mod Apart
pub mod Same
pub mod Alone
pub mod Given
pub mod Answers
mod Samples
use spawns.Prelude.{ℕ, ◌≡◌, List, [], ◌∷◌, none}
use spawns.Joint.{Waker}
use spawns.Cancellation.{Boxes, set_at}
use spawns.Task.{Attempt, World, Op, spawned, step}

-- What a task has of its boxes is what the heap has at their addresses.
pub record Crowd (A S : Type 0) : Type 0 where
  pub heap : Boxes
  pub tasks : ℕ → World A S

module _ {A S : Type 0} where
  -- Task `i`, as a call on it finds it.
  abbrev pub task_in : Crowd A S → ℕ → World A S
  task_in s i = record (s.tasks i) { boxes = s.heap }

  -- A task that nobody has called yet is as `Task::new` makes it.
  abbrev pub all_spawned : (ℕ → S) → Crowd A S
  all_spawned futures = record { heap = λ _. none; tasks = λ i. spawned (futures i) }

  module _ (poll_future : S → Waker → S × Attempt A) (id : ℕ → ℕ) where
    -- A call on task `i`, whose id is `id i`.
    unfoldable pub call : ℕ × Op → Crowd A S → Crowd A S
    call (i, op) s =
        let w = step poll_future (id i) op (task_in s i) in
        record { heap = w.boxes; tasks = set_at s.tasks i w }

    unfoldable pub calls : List (ℕ × Op) → Crowd A S → Crowd A S
    calls [] s = s
    calls (c ∷ cs) s = calls cs (call c s)
