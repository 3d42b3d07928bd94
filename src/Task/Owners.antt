-- ===== src/Task/Owners.antt =====
-- spawns-core/src/task.rs: who owns a task's `Joint` and `Cancellation`. Both are behind an `Arc`, whose
-- count of owners is modelled here: the one that drops the last owner drops the object.
pub mod NoneLost
pub mod Count
pub mod Kept
mod Samples
use spawns.Prelude.{ℕ, ◌+◌, ◌-◌, Bool, true, false, List, [], ◌∷◌, ◌==◌, if◌then◌else◌}
use spawns.Joint.{Waker}
use spawns.Cancellation
use spawns.Task.{
  Attempt, Handle, gone, World, Op, polls, joins, cancels, attaches, detaches, cancels_detaching,
  drops_handle, drops_task, step, cancel, spawned,
}

-- `joint_refs` and `cancellation_refs` are the counts of the two `Arc`s; `cancel_handles` is the number
-- of `CancelHandle`s.
pub record OwnedTask (A S : Type 0) : Type 0 where
  pub world : World A S
  pub joint_refs : ℕ
  pub cancellation_refs : ℕ
  pub cancel_handles : ℕ

-- What is done to the task: a call by the task or by the owner of the join or task handle, or
-- something with a `CancelHandle`.
pub data Act : Type 0 where
  calls : Op → Act
  makes_cancel_handle clones_cancel_handle cancels_by_handle drops_cancel_handle : Act

abbrev pub is_gone : Handle → Bool
is_gone gone = true
is_gone _ = false

module _ {A S : Type 0} where
  -- `Task::new`: the future and the join handle each have a clone of both.
  abbrev pub new_task : S → OwnedTask A S
  new_task future = record {
    world = spawned future;
    joint_refs = 2;
    cancellation_refs = 2;
    cancel_handles = 0;
  }

  -- A clone of the `Arc` of the cancellation is dropped, and `Drop for Cancellation` runs with the
  -- last.
  unfoldable pub release_cancellation : OwnedTask A S → OwnedTask A S
  release_cancellation s =
      let left = s.cancellation_refs - 1 in
      let w = s.world in
      record s {
        cancellation_refs = left;
        world = if left == 0 then record w { boxes = Cancellation.drop w.slot w.boxes } else w;
      }

  -- The fields of a `TaskFuture` or a `JoinHandle` are dropped.
  unfoldable pub release_both : OwnedTask A S → OwnedTask A S
  unfolding release_cancellation
  release_both s = release_cancellation (record s { joint_refs = s.joint_refs - 1 })

  module _ (poll_future : S → Waker → S × Attempt A) (id : ℕ) where
    abbrev stepped : Op → OwnedTask A S → OwnedTask A S
    stepped op s = record s { world = step poll_future id op s.world }

    -- An act needs its owner: it does nothing where that is gone.
    unfoldable pub act : Act → OwnedTask A S → OwnedTask A S
    unfolding release_cancellation release_both
    act (calls drops_task) s = if s.world.alive then release_both (stepped drops_task s) else s
    act (calls drops_handle) s =
        if is_gone s.world.handle then s else release_both (stepped drops_handle s)
    act (calls cancels) s = if is_gone s.world.handle then s else stepped cancels s
    act (calls op) s = stepped op s
    act makes_cancel_handle s = if is_gone s.world.handle then s else record s {
      cancellation_refs = s.cancellation_refs + 1;
      cancel_handles = s.cancel_handles + 1;
    }
    act clones_cancel_handle s = if s.cancel_handles == 0 then s else record s {
      cancellation_refs = s.cancellation_refs + 1;
      cancel_handles = s.cancel_handles + 1;
    }
    act cancels_by_handle s =
        if s.cancel_handles == 0 then s else record s { world = (cancel s.world).0 }
    act drops_cancel_handle s =
        if s.cancel_handles == 0
        then s
        else release_cancellation (record s { cancel_handles = s.cancel_handles - 1 })

    unfoldable pub acts : List Act → OwnedTask A S → OwnedTask A S
    acts [] s = s
    acts (a ∷ rest) s = acts rest (act a s)
