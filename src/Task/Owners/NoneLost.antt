-- ===== src/Task/Owners/NoneLost.antt =====
-- Where the boxes of a task are after a call on it (spawns-core/src/task.rs).
use spawns.Prelude.{ℕ, ◌≡◌, ◌≢◌, ◌⊎◌, none, some, arith, if_ind}
use spawns.Joint.{Waker, TaskResult}
use spawns.Joint
use spawns.Cancellation.{Slot, null, ptr, Boxes}
use spawns.Cancellation
use spawns.Task.{
  Attempt, World, Op, polls, joins, cancels, attaches, detaches, cancels_detaching, drops_handle,
  drops_task, step, poll_task, poll_handle, finish, park, cancel, drop_task, drop_handle, attach,
  detach, cancel_detach,
}
use spawns.Task.Valid.{Valid}

module _ {A S : Type 0} where
  -- Every live box is the one in the pointer or the spare one.
  abbrev pub NoneLost : World A S → ℕ → Type 0
  NoneLost w c = w.boxes c ≢ none → (w.slot ≡ ptr c) ⊎ (w.task.waker ≡ some c)

  module _ {w : World A S} (v : Valid w) (c : ℕ) (n : NoneLost w c) where
    cancel-NoneLost : NoneLost (cancel w).0 c
    unfolding cancel Cancellation.cancel
    cancel-NoneLost = ground (arith, v.boxes)

    poll_handle-NoneLost : (id : ℕ) (u : Waker) → NoneLost (poll_handle id w u).0 c
    unfolding poll_handle
    poll_handle-NoneLost id u = ground arith

    drop_task-NoneLost : NoneLost (drop_task w) c
    unfolding drop_task finish Joint.wake
    drop_task-NoneLost = ground (arith, v.boxes)

    drop_handle-NoneLost : NoneLost (drop_handle w) c
    unfolding drop_handle cancel Cancellation.cancel
    drop_handle-NoneLost = ground (arith, v.boxes)

    poll_task-NoneLost :
        (poll_future : S → Waker → S × Attempt A) (x : Waker) (b : ℕ)
        → NoneLost (poll_task poll_future w x b).0 c
    unfolding poll_task finish park Joint.wake Cancellation.update Cancellation.is_cancelled
    poll_task-NoneLost poll_future x b = ground (arith, v.boxes)

    pub step-NoneLost :
        (poll_future : S → Waker → S × Attempt A) (id : ℕ) (op : Op)
        → NoneLost (step poll_future id op w) c
    unfolding step attach detach cancel_detach
    step-NoneLost poll_future id (polls x b) =
        if_ind (λ u. NoneLost u c) w.alive (λ _. poll_task-NoneLost poll_future x b) (λ _. n)
    step-NoneLost poll_future id (joins x) = ground (arith, poll_handle-NoneLost id x, n)
    step-NoneLost poll_future id cancels = cancel-NoneLost
    step-NoneLost poll_future id attaches = ground (arith, n)
    step-NoneLost poll_future id detaches = ground (arith, n)
    step-NoneLost poll_future id cancels_detaching = ground (arith, cancel-NoneLost, n)
    step-NoneLost poll_future id drops_handle = drop_handle-NoneLost
    step-NoneLost poll_future id drops_task =
        if_ind (λ u. NoneLost u c) w.alive (λ _. drop_task-NoneLost) (λ _. n)
