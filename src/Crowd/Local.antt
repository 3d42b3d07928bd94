-- ===== src/Crowd/Local.antt =====
-- What a call on one task (spawns-core/src/task.rs) does to the boxes on the heap.
use spawns.Prelude.{ℕ, ◌≡◌, ◌≢◌, refl, ◌⊎◌, inl, inr, Option, none, some, arith, Bool-cases}
use spawns.Joint.{Waker, TaskResult}
use spawns.Joint
use spawns.Cancellation.{Slot, null, ptr, Boxes, set_at}
use spawns.Cancellation
use spawns.Task.{
  Attempt, World, Op, polls, joins, cancels, attaches, detaches, cancels_detaching, drops_handle,
  drops_task, step, poll_task, poll_handle, finish, park, cancel, drop_task, drop_handle, attach,
  detach, cancel_detach,
}
use spawns.Task.Valid.{Valid, GoodBoxes, IsFresh}

module _ {A S : Type 0} where
  -- The box at this address is the task's: the one in the pointer, or the spare one.
  abbrev pub Has : World A S → ℕ → Type 0
  Has w c = (w.slot ≡ ptr c) ⊎ (w.task.waker ≡ some c)

  pub Has-live : {w : World A S} → Valid w → (c : ℕ) → Has w c → w.boxes c ≢ none
  Has-live v c h = ground (arith, v.boxes)

  -- What a call does to the boxes: those of others stay, and a box of the task is one that it had,
  -- or that was free.
  pub record Local (w u : World A S) (c : ℕ) : Type 0 where
    pub stays : w.boxes c ≢ none → (Has w c → ⊥) → u.boxes c ≡ w.boxes c
    pub had : Has u c → Has w c ⊎ (w.boxes c ≡ none)

  cancel-Local : (w : World A S) (c : ℕ) → Local w (cancel w).0 c
  unfolding cancel Cancellation.cancel
  cancel-Local w c = ground arith

  poll_handle-Local :
      (id : ℕ) (w : World A S) (u : Waker) (c : ℕ) → Local w (poll_handle id w u).0 c
  unfolding poll_handle
  poll_handle-Local id w u c = ground arith

  drop_task-Local : (w : World A S) (c : ℕ) → Local w (drop_task w) c
  unfolding drop_task finish Joint.wake
  drop_task-Local w c = ground arith

  drop_handle-Local : (w : World A S) (c : ℕ) → Local w (drop_handle w) c
  unfolding drop_handle cancel Cancellation.cancel
  drop_handle-Local w c = ground arith

  poll_task-Local :
      (poll_future : S → Waker → S × Attempt A) (w : World A S) (x : Waker) (b c : ℕ)
      → w.boxes b ≡ none
      → Local w (poll_task poll_future w x b).0 c
  unfolding poll_task finish park Joint.wake Cancellation.update Cancellation.is_cancelled
  poll_task-Local poll_future w x b c e = ground arith

  -- A call that leaves the boxes and what the task has of them alone.
  same-Local : (w u : World A S) (c : ℕ) → u.boxes ≡ w.boxes → (Has u c → Has w c) → Local w u c
  same-Local w u c e f = ground (arith, f)

  pub step-Local :
      (poll_future : S → Waker → S × Attempt A) (id : ℕ) (op : Op) (w : World A S) (c : ℕ)
      → IsFresh poll_future id op w
      → Local w (step poll_future id op w) c
  unfolding step attach detach cancel_detach
  step-Local poll_future id (polls x b) w c f = elim (Bool-cases w.alive) [
    | inl e ↦ simp e (poll_task-Local poll_future w x b c f)
    | inr e ↦ simp e (same-Local w w c refl (λ h. h))
  ]
  step-Local poll_future id (joins x) w c f = ground (arith, poll_handle-Local id w x c)
  step-Local poll_future id cancels w c f = cancel-Local w c
  step-Local poll_future id attaches w c f = ground arith
  step-Local poll_future id detaches w c f = ground arith
  step-Local poll_future id cancels_detaching w c f = ground (arith, cancel-Local w c)
  step-Local poll_future id drops_handle w c f = drop_handle-Local w c
  step-Local poll_future id drops_task w c f = elim (Bool-cases w.alive) [
    | inl e ↦ simp e (drop_task-Local w c)
    | inr e ↦ simp e (same-Local w w c refl (λ h. h))
  ]

  -- Only the task's own boxes count for it.
  pub other-Valid :
      {w : World A S} (boxes : Boxes)
      → Valid w
      → ((c : ℕ) → Has w c → boxes c ≡ w.boxes c)
      → Valid (record w { boxes = boxes })
  other-Valid {w} boxes v f = record {
    joint = v.joint;
    boxes = kept w.slot w.task.waker v.boxes f;
    task = v.task;
  }
    where
      kept :
          (slot : Slot) (spare : Option ℕ)
          → GoodBoxes slot spare w.boxes
          → ((c : ℕ) → (slot ≡ ptr c) ⊎ (spare ≡ some c) → boxes c ≡ w.boxes c)
          → GoodBoxes slot spare boxes
      kept null none g e = tt
      kept null (some d) g e = ground (arith, e d (inr refl))
      kept Slot.cancelled none g e = tt
      kept Slot.cancelled (some d) g e = ground (arith, e d (inr refl))
      kept (ptr b) none g e = ground (arith, e b (inl refl))
      kept (ptr b) (some d) g e = ground (arith, e b (inl refl), e d (inr refl))
