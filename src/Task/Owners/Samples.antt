-- ===== src/Task/Owners/Samples.antt =====
-- A task whose owners go one by one, and the theorem at it.
use spawns.Prelude.{ℕ, ◌+◌, ◌<◌, ◌≡◌, refl, ◌⊎◌, List, [], ◌∷◌, none, some}
use spawns.Joint.{Waker}
use spawns.Joint
use spawns.Cancellation
use spawns.Task.{
  Attempt, still_pending, polls, drops_handle, drops_task, step, poll_task, spawned, drop_task,
  drop_handle,
}
use spawns.Task.Owners.{
  OwnedTask, Act, calls, makes_cancel_handle, drops_cancel_handle, new_task, act, acts,
}
use spawns.Task.Owners.Count.{of_task, of_handle}
use spawns.Task.Owners.Kept.{AreFreshActs, owners_counted}

abbrev pends : Unit {0} → Waker → Unit {0} × Attempt ℕ
pends s w = (s, still_pending)

-- Polled with waker 7 in a box at 100; then the join handle, the task and the cancel handle go.
abbrev done : List Act
done =
    makes_cancel_handle
    ∷ calls (polls 7 100)
    ∷ calls drops_handle
    ∷ calls drops_task
    ∷ drops_cancel_handle
    ∷ []

abbrev before_last : OwnedTask ℕ (Unit {0})
before_last =
    acts pends 1
      (makes_cancel_handle ∷ calls (polls 7 100) ∷ calls drops_handle ∷ calls drops_task ∷ [])
      (new_task tt)

abbrev all_gone : OwnedTask ℕ (Unit {0})
all_gone = acts pends 1 done (new_task tt)

done-AreFreshActs : AreFreshActs {A = ℕ} pends 1 done (new_task tt)
unfolding act spawned
done-AreFreshActs = (tt, (refl, (tt, (tt, (tt, tt)))))

-- The box in the pointer outlives the task, and goes with the last cancel handle.
gone_result :
    (before_last.cancellation_refs ≡ 1)
    × (before_last.world.boxes 100 ≡ some 7)
    × (all_gone.cancellation_refs ≡ 0)
    × (all_gone.world.boxes 100 ≡ none)
unfolding acts act step spawned poll_task Cancellation.is_cancelled Cancellation.update drop_handle
    drop_task Joint.wake Joint.drop Cancellation.drop
gone_result = (refl, refl, refl, refl)

owners_counted_example :
    let s = all_gone in
    (s.joint_refs ≡ of_task s.world.alive + of_handle s.world.handle)
    × (s.cancellation_refs ≡ of_task s.world.alive + of_handle s.world.handle + s.cancel_handles)
    × ((0 < s.cancellation_refs) ⊎ (s.world.boxes 100 ≡ none))
owners_counted_example = owners_counted pends 1 done tt 100 done-AreFreshActs
