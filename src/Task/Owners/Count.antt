-- ===== src/Task/Owners/Count.antt =====
-- The counts of the two `Arc`s (spawns-core/src/task.rs) and the numbers of the owners.
use spawns.Prelude.{ℕ, ◌+◌, ◌-◌, ◌<◌, ◌≡◌, Bool, true, false, none, arith, ◌==◌, if_ind}
use spawns.Joint.{Waker}
use spawns.Cancellation.{Slot, null, ptr, Boxes}
use spawns.Cancellation
use spawns.Task.{
  Attempt, Handle, gone, World, Op, polls, joins, cancels, attaches, detaches, cancels_detaching,
  drops_handle, drops_task, step, poll_task, poll_handle, finish, park, cancel, drop_task,
  drop_handle, attach, detach, cancel_detach,
}
use spawns.Task.Valid.{Valid}
use spawns.Task.Owners.{OwnedTask, is_gone, release_cancellation}
use spawns.Task.Owners.NoneLost.{NoneLost}

-- How many owners a task is, and a handle.
abbrev pub of_task : Bool → ℕ
of_task true = 1
of_task false = 0

abbrev pub of_handle : Handle → ℕ
of_handle gone = 0
of_handle _ = 1

-- A call by which an owner goes.
abbrev pub drops : Op → Bool
drops drops_task = true
drops drops_handle = true
drops _ = false

module _ {A S : Type 0} where
  abbrev pub owners : World A S → ℕ
  owners w = of_task w.alive + of_handle w.handle

  -- The counts are the numbers of owners; while there is one, all is well and no box is lost, and
  -- then no box is left.
  pub record Kept (s : OwnedTask A S) (c : ℕ) : Type 0 where
    pub joint : s.joint_refs ≡ owners s.world
    pub cancellation : s.cancellation_refs ≡ owners s.world + s.cancel_handles
    pub valid : 0 < s.cancellation_refs → Valid s.world
    pub lost : 0 < s.cancellation_refs → NoneLost s.world c
    pub freed : s.cancellation_refs ≡ 0 → s.world.boxes c ≡ none

  dropped_holds :
      {w : World A S} (c : ℕ)
      → Valid w
      → NoneLost w c
      → owners w ≡ 0
      → Cancellation.drop w.slot w.boxes c ≡ none
  unfolding Cancellation.drop
  dropped_holds c v n e = ground (arith, v.task)

  pub release_cancellation-Kept :
      (s : OwnedTask A S) (c : ℕ)
      → s.joint_refs ≡ owners s.world
      → s.cancellation_refs ≡ 1 + (owners s.world + s.cancel_handles)
      → Valid s.world
      → NoneLost s.world c
      → Kept (release_cancellation s) c
  unfolding release_cancellation
  release_cancellation-Kept s c e f v n =
      let left = s.cancellation_refs - 1 in
      if_ind (λ w. Kept (record s { cancellation_refs = left; world = w }) c) (left == 0)
        (λ h. record {
          joint = e;
          cancellation = omega (arith, f);
          valid = λ x. absurd (ground (arith, h));
          lost = λ x. absurd (ground (arith, h));
          freed = λ x. dropped_holds c v n (ground (arith, f, h));
        })
        (λ h. record {
          joint = e;
          cancellation = omega (arith, f);
          valid = λ x. v;
          lost = λ x. n;
          freed = λ x. absurd (ground (arith, h));
        })

  cancel_keeps : (w : World A S) → ((cancel w).0.alive ≡ w.alive) × ((cancel w).0.handle ≡ w.handle)
  unfolding cancel
  cancel_keeps w = ground arith

  poll_handle_keeps :
      (id : ℕ) (w : World A S) (u : Waker)
      → ((poll_handle id w u).0.alive ≡ w.alive) × ((poll_handle id w u).0.handle ≡ w.handle)
  unfolding poll_handle
  poll_handle_keeps id w u = ground arith

  module _ (poll_future : S → Waker → S × Attempt A) where
    poll_task_keeps :
        (w : World A S) (x : Waker) (b : ℕ)
        → ((poll_task poll_future w x b).0.alive ≡ w.alive)
          × ((poll_task poll_future w x b).0.handle ≡ w.handle)
    unfolding poll_task park finish
    poll_task_keeps w x b = ground arith

    pub owners-step :
        (id : ℕ) (op : Op) (w : World A S)
        → drops op ≡ false
        → owners (step poll_future id op w) ≡ owners w
    unfolding step attach detach cancel_detach
    owners-step id (polls x b) w e = ground (arith, poll_task_keeps w x b)
    owners-step id (joins u) w e = ground (arith, poll_handle_keeps id w u)
    owners-step id cancels w e = ground (arith, cancel_keeps w)
    owners-step id attaches w e = ground arith
    owners-step id detaches w e = ground arith
    owners-step id cancels_detaching w e = ground (arith, cancel_keeps w)
    owners-step id drops_task w e = absurd (cc)
    owners-step id drops_handle w e = absurd (cc)

    pub owners-drops_task :
        (id : ℕ) (w : World A S)
        → w.alive ≡ true
        → 1 + owners (step poll_future id drops_task w) ≡ owners w
    unfolding step drop_task finish
    owners-drops_task id w e = ground (arith, e)

    pub owners-drops_handle :
        (id : ℕ) (w : World A S)
        → is_gone w.handle ≡ false
        → 1 + owners (step poll_future id drops_handle w) ≡ owners w
    unfolding step drop_handle cancel
    owners-drops_handle id w e = ground (arith, e)
