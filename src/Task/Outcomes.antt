-- ===== src/Task/Outcomes.antt =====
-- What the owner of a handle sees of the task's life.
use spawns.Prelude.{
  ℕ, ◌≡◌, ◌≢◌, ◌⊎◌, true, ◌∷◌, Option, none, some, Result, ok, err, returns, panics, Outcome, Poll,
  ready, pending, arith, Among,
}
use spawns.Joint.{
  Waker, Stage, JoinResult, InnerJoinError, cancelled, panic, TaskResult, Joint, JoinError, Panic,
  already_joined, ready_with,
}
use spawns.Joint
use spawns.Cancellation.{Slot, null, ptr, Boxes}
use spawns.Cancellation
use spawns.Task.{
  Attempt, still_pending, completed, unwound, join_handle, task_handle, gone, World, Failure,
  panicked, poll_task, poll_handle, cancel, drop_task, drop_handle, box_at,
}
use spawns.Task.Valid.{Valid}

-- What the task ends with, if its future does not stay pending.
abbrev pub result_of : {A : Type 0} → Attempt A → Option (TaskResult A)
result_of still_pending = none
result_of (completed value) = some (ok value)
result_of (unwound payload) = some (err (panic payload))

-- What a poll of the task ends it with, if anything, by what it finds in the pointer and what its
-- future does.
abbrev pub verdict : {A : Type 0} → Slot → Attempt A → Option (TaskResult A)
verdict Slot.cancelled attempt = some (err cancelled)
verdict null attempt = result_of attempt
verdict (ptr _) attempt = result_of attempt

-- The error that carries the task's id.
abbrev pub join_result : {A : Type 0} → ℕ → TaskResult A → Result A JoinError
join_result id (ok a) = ok a
join_result id (err e) = err (record { id = id; inner = e })

-- A poll of the handle gives this result of the task.
abbrev pub Joins : {A S : Type 0} → ℕ → World A S → Waker → TaskResult A → Type 0
Joins id s w r = (poll_handle id s w).1 ≡ returns (ready (join_result id r))

-- What a poll of the handle does, by what the joint holds.
abbrev pub HandleOutcome : {A S : Type 0} → ℕ → World A S → Waker → JoinResult A → Type 0
HandleOutcome id s u JoinResult.empty =
    ((poll_handle id s u).1 ≡ returns pending)
    × ((poll_handle id s u).0.joint.result ≡ JoinResult.joining u)
    × (s.task.future ≢ none)
HandleOutcome id s u (JoinResult.joining _) =
    ((poll_handle id s u).1 ≡ returns pending)
    × ((poll_handle id s u).0.joint.result ≡ JoinResult.joining u)
    × (s.task.future ≢ none)
HandleOutcome id s u (JoinResult.finished r) =
    Joins id s u r
    × ((poll_handle id s u).0.joint.result ≡ JoinResult.joined)
    × (s.task.future ≡ none)
HandleOutcome id s u JoinResult.joined =
    ((poll_handle id s u).1 ≡ panics (panicked (already_joined id)))
    × ((poll_handle id s u).0.joint.result ≡ JoinResult.joined)
    × (s.task.future ≡ none)
HandleOutcome id s u JoinResult.detached = ⊥

module _ {A S : Type 0} where
  -- What a poll does with a task whose future it leaves in the state `next`, by what ends the task in
  -- it, if anything.
  abbrev pub Ends :
      World A S
      → Waker
      → ℕ
      → S
      → Option (TaskResult A)
      → World A S × Outcome Failure (Poll (Unit {0}))
      → Type 0
  Ends s w b next (some r) t =
      (t.1 ≡ returns (ready tt))
      × (t.0.task.future ≡ none)
      × ((s.handle ≡ gone) ⊎ (t.0.joint.result ≡ JoinResult.finished r))
  Ends s w b next none t =
      (t.1 ≡ returns pending)
      × (t.0.task.future ≡ some next)
      × (t.0.slot ≡ ptr (box_at s.task.waker b))
      × (t.0.boxes (box_at s.task.waker b) ≡ some w)

  abbrev pub PollOutcome :
      (S → Waker → S × Attempt A)
      → World A S
      → Waker
      → ℕ
      → Option S
      → World A S × Outcome Failure (Poll (Unit {0}))
      → Type 0
  PollOutcome poll_future s w b none t = t ≡ (s, returns (ready tt))
  PollOutcome poll_future s w b (some future) t =
      let (next, attempt) = poll_future future w in Ends s w b next (verdict s.slot attempt) t

module _ {A S : Type 0} (poll_future : S → Waker → S × Attempt A) {s : World A S}
    (v : Valid s) where
  -- A poll of a well-formed task that is not dropped, if a new box would go to a free address and
  -- the drop of the future does not panic, returns. If the task is over, it is `Ready` and changes
  -- nothing. If the task is cancelled, or its future completes or panics in this poll, it is `Ready`,
  -- the future is gone, and the result, for a handle that is held, is in the joint. Else it is
  -- `Pending`, the future is kept as its own poll left it, and the waker of this poll is in the box
  -- that the next cancel takes out.
  pub poll_task_returns :
      (w : Waker) (b : ℕ)
      → s.alive ≡ true
      → s.boxes b ≡ none
      → PollOutcome poll_future s w b s.task.future (poll_task poll_future s w b)
  unfolding poll_task Joint.wake Cancellation.update Cancellation.is_cancelled
  poll_task_returns w b e f = ground arith

  -- A poll that finds the task cancelled, or in which its future completes or panics, is ready and
  -- drops the future, and the owner of a handle that is still held gets the result.
  pub poll_ends :
      (id : ℕ) (w u : Waker) (b : ℕ) (future : S) (r : TaskResult A)
      → s.task.future ≡ some future
      → verdict s.slot (poll_future future w).1 ≡ some r
      → s.handle ≢ gone
      → let t = poll_task poll_future s w b in
        (t.1 ≡ returns (ready tt)) × (t.0.task.future ≡ none) × Joins id t.0 u r
  unfolding poll_task Joint.wake Cancellation.is_cancelled poll_handle Joint.poll
  poll_ends id w u b future r e f g = ground arith

  -- A poll of the held handle of a well-formed task with a future is pending, and its waker is woken
  -- by the poll of the task that comes next, if that ends the task.
  joiner_is_woken :
      (id : ℕ) (w u : Waker) (b : ℕ)
      → s.task.future ≢ none
      → s.handle ≢ gone
      → (poll_task poll_future (poll_handle id s u).0 w b).0.task.future ≡ none
      → ((poll_handle id s u).1 ≡ returns pending)
        × Among u (poll_task poll_future (poll_handle id s u).0 w b).0.woken
  unfolding poll_task Joint.wake Cancellation.is_cancelled Cancellation.update poll_handle
      Joint.poll
  joiner_is_woken id w u b e f g = ground arith

  -- After a pending poll of a well-formed task that is not dropped, a cancel wakes the waker of that
  -- poll, whether its box is the spare one or a new one at a free address; and the next poll ends
  -- the task.
  cancel_wakes_pending :
      (w u : Waker) (b c : ℕ)
      → s.alive ≡ true
      → s.boxes b ≡ none
      → (poll_task poll_future s w b).1 ≡ returns pending
      → let t = (poll_task poll_future s w b).0 in
        ((cancel t).1 ≡ returns tt)
        × ((cancel t).0.woken ≡ w ∷ t.woken)
        × ((cancel t).0.slot ≡ Slot.cancelled)
        × ((poll_task poll_future (cancel t).0 u c).1 ≡ returns (ready tt))
  unfolding poll_task Joint.wake Cancellation.update Cancellation.is_cancelled cancel
      Cancellation.cancel
  cancel_wakes_pending w u b c e f g = ground arith

module _ {A S : Type 0} {s : World A S} (v : Valid s) where
  -- Dropping a well-formed task that has not ended tells the owner of a handle that is still held
  -- that it was cancelled, with the task's id.
  pub drop_task_cancels :
      (id : ℕ) (u : Waker)
      → s.task.future ≢ none
      → s.handle ≢ gone
      → Joins id (drop_task s) u (err cancelled)
  unfolding drop_task Joint.wake poll_handle Joint.poll
  drop_task_cancels id u e f = ground arith

  -- A poll of the held handle of a well-formed task is pending, with its waker registered, exactly while the task
  -- has its future. Once the task ended, the first poll returns the result and leaves the joint
  -- joined, and a later one panics with "already joined". It never finds the joint detached.
  pub poll_handle_lem : (id : ℕ) (u : Waker) → s.handle ≢ gone → HandleOutcome id s u s.joint.result
  unfolding poll_handle Joint.poll
  poll_handle_lem id u e = ground arith

  -- Dropping the attached handle of a well-formed task cancels the task: its pointer is `CANCELLED`.
  -- Dropping a handle that is not attached leaves the pointer, the boxes and the task as they are,
  -- and wakes nobody. Either way the joint is detached and the handle gone.
  drop_handle_cancels :
      s.handle ≢ gone
      → (((drop_handle s).joint.result ≡ JoinResult.detached) × ((drop_handle s).handle ≡ gone))
        × (((s.handle ≡ task_handle) × ((drop_handle s).slot ≡ Slot.cancelled))
            ⊎ (s.handle ≡ join_handle)
              × ((drop_handle s).slot ≡ s.slot)
              × ((drop_handle s).boxes ≡ s.boxes)
              × ((drop_handle s).task ≡ s.task)
              × ((drop_handle s).woken ≡ s.woken))
  unfolding drop_handle cancel Cancellation.cancel Joint.drop
  drop_handle_cancels e = ground arith
