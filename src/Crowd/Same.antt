-- ===== src/Crowd/Same.antt =====
-- A call on the same task with its boxes on two heaps (spawns-core/src/task.rs).
use spawns.Prelude.{
  ℕ, ◌≡◌, refl, ◌⊎◌, inl, inr, Bool, true, false, Option, none, some, arith, if◌then◌else◌, sym,
  subst,
}
use spawns.Joint.{Waker, TaskResult}
use spawns.Joint
use spawns.Cancellation.{Slot, null, ptr, Boxes, set_at}
use spawns.Cancellation
use spawns.Task.{
  Attempt, World, Op, polls, joins, cancels, attaches, detaches, cancels_detaching, drops_handle,
  drops_task, step, poll_task, poll_handle, finish, park, cancel, drop_task, drop_handle, attach,
  detach, cancel_detach,
}
use spawns.Task.Valid.{Valid, IsFresh}
use spawns.Crowd.Local.{Has}

-- Two heaps have the same in the boxes of a task.
abbrev pub Agree : Slot → Option ℕ → Boxes → Boxes → Type 0
Agree (ptr b) (some c) bs boxes = (bs b ≡ boxes b) × (bs c ≡ boxes c)
Agree (ptr b) none bs boxes = bs b ≡ boxes b
Agree _ (some c) bs boxes = bs c ≡ boxes c
Agree _ none bs boxes = Unit

module _ {A S : Type 0} where
  -- The same task with its boxes on two heaps.
  pub record Same (w u : World A S) : Type 0 where
    pub task : u.task ≡ w.task
    pub alive : u.alive ≡ w.alive
    pub slot : u.slot ≡ w.slot
    pub joint : u.joint ≡ w.joint
    pub handle : u.handle ≡ w.handle
    pub woken : u.woken ≡ w.woken
    pub boxes : Agree w.slot w.task.waker u.boxes w.boxes

  abbrev pub On : World A S → Boxes → World A S
  On w boxes = record w { boxes = boxes }

  module _ (w : World A S) (v : Valid w) (bs : Boxes)
      (e : Agree w.slot w.task.waker bs w.boxes) where
    cancel-Same : Same (cancel w).0 (cancel (On w bs)).0
    unfolding cancel Cancellation.cancel
    cancel-Same = ground (arith, v.boxes)

    poll_handle-Same :
        (id : ℕ) (x : Waker) → Same (poll_handle id w x).0 (poll_handle id (On w bs) x).0
    unfolding poll_handle
    poll_handle-Same id x = ground arith

    drop_task-Same : Same (drop_task w) (drop_task (On w bs))
    unfolding drop_task finish Joint.wake
    drop_task-Same = ground (arith, v.boxes)

    drop_handle-Same : Same (drop_handle w) (drop_handle (On w bs))
    unfolding drop_handle cancel Cancellation.cancel
    drop_handle-Same = ground (arith, v.boxes)

    poll_task-Same :
        (poll_future : S → Waker → S × Attempt A) (x : Waker) (b : ℕ)
        → w.boxes b ≡ none
        → Same (poll_task poll_future w x b).0 (poll_task poll_future (On w bs) x b).0
    unfolding poll_task finish park Joint.wake Cancellation.update Cancellation.is_cancelled
    poll_task-Same poll_future x b f = ground (arith, v.boxes)

  if-Same :
      {w u x y : World A S} (b : Bool)
      → Same w u
      → Same x y
      → Same (if b then w else x) (if b then u else y)
  if-Same true e f = e
  if-Same false e f = f

  Same-On : {w u : World A S} → Same w u → u ≡ On w u.boxes
  Same-On {u} e = λ k. record {
    task = e.task k;
    alive = e.alive k;
    slot = e.slot k;
    boxes = u.boxes;
    joint = e.joint k;
    handle = e.handle k;
    woken = e.woken k;
  }

  module _ (poll_future : S → Waker → S × Attempt A) (id : ℕ) where
    On-Same :
        (op : Op) (w : World A S)
        → Valid w
        → IsFresh poll_future id op w
        → (bs : Boxes) → Agree w.slot w.task.waker bs w.boxes
        → Same (step poll_future id op w) (step poll_future id op (On w bs))
    unfolding step attach detach cancel_detach
    On-Same (polls x b) w v f bs e =
        if-Same w.alive (poll_task-Same w v bs e poll_future x b f) (ground (arith, e))
    On-Same (joins x) w v f bs e = ground (arith, e, poll_handle-Same w v bs e id x)
    On-Same cancels w v f bs e = cancel-Same w v bs e
    On-Same attaches w v f bs e = ground (arith, e)
    On-Same detaches w v f bs e = ground (arith, e)
    On-Same cancels_detaching w v f bs e = ground (arith, e, cancel-Same w v bs e)
    On-Same drops_handle w v f bs e = drop_handle-Same w v bs e
    On-Same drops_task w v f bs e = if-Same w.alive (drop_task-Same w v bs e) (ground (arith, e))

    -- A call does the same to the same task on another heap.
    pub step-Same :
        (op : Op) {w u : World A S}
        → Valid w
        → IsFresh poll_future id op w
        → Same w u
        → Same (step poll_future id op w) (step poll_future id op u)
    step-Same op {w} {u} v f e =
        subst (λ x. Same (step poll_future id op w) (step poll_future id op x)) (sym (Same-On e))
          (On-Same op w v f u.boxes e.boxes)

  pub other-Same :
      {w u : World A S} (boxes : Boxes)
      → ((c : ℕ) → Has w c → boxes c ≡ w.boxes c)
      → Same w u
      → Same (On w boxes) u
  other-Same {w} {u} boxes f e = record {
    task = e.task;
    alive = e.alive;
    slot = e.slot;
    joint = e.joint;
    handle = e.handle;
    woken = e.woken;
    boxes = kept w.slot w.task.waker f e.boxes;
  }
    where
      kept :
          (slot : Slot) (spare : Option ℕ)
          → ((c : ℕ) → (slot ≡ ptr c) ⊎ (spare ≡ some c) → boxes c ≡ w.boxes c)
          → Agree slot spare u.boxes w.boxes
          → Agree slot spare u.boxes boxes
      kept (ptr b) (some c) g h = ground (arith, g b (inl refl), g c (inr refl), h)
      kept (ptr b) none g h = ground (arith, g b (inl refl), h)
      kept null (some c) g h = ground (arith, g c (inr refl), h)
      kept null none g h = tt
      kept Slot.cancelled (some c) g h = ground (arith, g c (inr refl), h)
      kept Slot.cancelled none g h = tt
