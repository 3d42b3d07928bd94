-- ===== src/Task/Valid.antt =====
-- The invariant of a task and what it shares, kept by every call.
use spawns.Prelude.{
  ℕ, ◌≡◌, ◌≢◌, inl, inr, Bool, true, false, List, [], ◌∷◌, Option, none, some, arith, Bool-cases,
}
use spawns.Joint.{Waker, Stage, JoinResult, InnerJoinError, TaskResult, Joint}
use spawns.Joint
use spawns.Cancellation.{Slot, null, ptr, Boxes}
use spawns.Cancellation
use spawns.Task.{
  Attempt, Handle, join_handle, task_handle, gone, TaskFuture, World, Op, polls, joins, cancels,
  attaches, detaches, cancels_detaching, drops_handle, drops_task, step, run, poll_task,
  poll_handle, finish, park, cancel, drop_task, drop_handle, attach, detach, cancel_detach, spawned,
}

module _ {A : Type 0} where
  abbrev pub IsOpen : JoinResult A → Type 0
  IsOpen JoinResult.empty = Unit
  IsOpen (JoinResult.joining _) = Unit
  IsOpen _ = ⊥

  abbrev pub IsClosed : JoinResult A → Type 0
  IsClosed (JoinResult.finished _) = Unit
  IsClosed JoinResult.joined = Unit
  IsClosed _ = ⊥

module _ {A S : Type 0} where
  -- The joint while the handle is held, by whether the task still has its future.
  abbrev pub HeldJoint : Option S → Joint A → Type 0
  HeldJoint (some _) j = (j.stage ≡ Stage.running) × IsOpen j.result
  HeldJoint none j = (j.stage ≡ Stage.finished) × IsClosed j.result

  abbrev pub GoodJoint : Handle → Option S → Joint A → Type 0
  GoodJoint gone f j = (j.stage ≡ Stage.detached) × (j.result ≡ JoinResult.detached)
  GoodJoint join_handle f j = HeldJoint f j
  GoodJoint task_handle f j = HeldJoint f j

abbrev pub IsLive : Option Waker → Type 0
IsLive none = ⊥
IsLive (some _) = Unit

-- The box in the pointer and the spare one are live, and are two boxes.
abbrev pub GoodBoxes : Slot → Option ℕ → Boxes → Type 0
GoodBoxes (ptr b) (some c) boxes = IsLive (boxes b) × IsLive (boxes c) × (b ≢ c)
GoodBoxes (ptr b) none boxes = IsLive (boxes b)
GoodBoxes null (some c) boxes = IsLive (boxes c)
GoodBoxes null none boxes = Unit
GoodBoxes Slot.cancelled (some c) boxes = IsLive (boxes c)
GoodBoxes Slot.cancelled none boxes = Unit

-- A dropped task holds nothing.
abbrev pub GoodTask : {S : Type 0} → Bool → TaskFuture S → Type 0
GoodTask true t = Unit
GoodTask false t = (t.future ≡ none) × (t.waker ≡ none)

module _ {A S : Type 0} where
  pub record Valid (s : World A S) : Type 0 where
    pub joint : GoodJoint s.handle s.task.future s.joint
    pub boxes : GoodBoxes s.slot s.task.waker s.boxes
    pub task : GoodTask s.alive s.task

  pub spawned-Valid : (future : S) → Valid (spawned {A = A} future)
  unfolding spawned Joint.new Cancellation.default
  spawned-Valid future = ground arith

  module _ {s : World A S} (v : Valid s) where
    pub finish-Valid : (value : TaskResult A) → s.task.future ≢ none → Valid (finish s value).0
    unfolding finish Joint.wake
    finish-Valid value e = ground arith

    pub cancel-Valid : Valid (cancel s).0
    unfolding cancel Cancellation.cancel
    cancel-Valid = ground arith

    pub park-Valid :
        (w : Waker) (b : ℕ)
        → s.task.future ≢ none
        → s.alive ≡ true
        → s.boxes b ≡ none
        → Valid (park s w b).0
    unfolding park finish Joint.wake Cancellation.update
    park-Valid w b e f g = ground arith

    pub poll_handle-Valid : (id : ℕ) (w : Waker) → s.handle ≢ gone → Valid (poll_handle id s w).0
    unfolding poll_handle Joint.poll
    poll_handle-Valid id w h = ground arith

    pub drop_task-Valid : Valid (drop_task s)
    unfolding drop_task finish Joint.wake
    drop_task-Valid = ground arith

    pub drop_handle-Valid : Valid (drop_handle s)
    unfolding drop_handle cancel Cancellation.cancel Joint.drop
    drop_handle-Valid = ground arith

module _ {A S : Type 0} (poll_future : S → Waker → S × Attempt A) (id : ℕ) where
  pub poll_task-Valid :
      (s : World A S) (w : Waker) (b : ℕ)
      → Valid s
      → s.alive ≡ true
      → s.boxes b ≡ none
      → Valid (poll_task poll_future s w b).0
  unfolding poll_task finish park Joint.wake Cancellation.update Cancellation.is_cancelled
  poll_task-Valid s w b v e f = ground arith

  -- An allocation gives an address with no live box.
  abbrev pub IsFresh : Op → World A S → Type 0
  IsFresh (polls w b) s = s.boxes b ≡ none
  IsFresh _ s = Unit

  -- Every call keeps the task, its joint, its cancellation and its boxes in order.
  pub step-Valid :
      (op : Op) (s : World A S) → IsFresh op s → Valid s → Valid (step poll_future id op s)
  unfolding step attach detach cancel_detach
  step-Valid (polls w b) s f v = elim (Bool-cases s.alive) [
    | inl e ↦ simp e (poll_task-Valid s w b v e f)
    | inr e ↦ simp e v
  ]
  step-Valid (joins w) s f v = ground (arith, poll_handle-Valid v id w)
  step-Valid cancels s f v = cancel-Valid v
  step-Valid attaches s f v = ground arith
  step-Valid detaches s f v = ground arith
  step-Valid cancels_detaching s f v = ground (arith, cancel-Valid v)
  step-Valid drops_handle s f v = drop_handle-Valid v
  step-Valid drops_task s f v = elim (Bool-cases s.alive) [
    | inl e ↦ simp e (drop_task-Valid v)
    | inr e ↦ simp e v
  ]

  -- Each poll of the run allocates at an address with no live box.
  abbrev pub AreFresh : List Op → World A S → Type 0
  AreFresh [] s = Unit
  AreFresh (op ∷ ops) s = IsFresh op s × AreFresh ops (step poll_future id op s)

  -- Any sequence of calls by the threads that share a task keeps it well-formed, with its joint, its
  -- cancellation and its boxes, if each new box goes to a free address.
  run-Valid :
      (ops : List Op) (s : World A S) → AreFresh ops s → Valid s → Valid (run poll_future id ops s)
  unfolding run
  run-Valid [] s f v = v
  run-Valid (op ∷ ops) s f v = run-Valid ops (step poll_future id op s) f.1 (step-Valid op s f.0 v)
