-- ===== src/Task.antt =====
-- spawns-core/src/task.rs: `TaskFuture`, the owners of a task's handle, and how they share one
-- `Joint` and one `Cancellation`. Each call runs here with no other thread in between; `Joint` and
-- `Cancellation` have the interleavings.
-- The user's future is a parameter: its states, and a function that polls one.
pub mod Valid
pub mod Outcomes
pub mod Driven
pub mod Owners
mod Samples
use spawns.Prelude.{
  ℕ, ◌≡◌, Bool, true, false, List, [], ◌∷◌, ◌++◌, Option, none, some, Result, ok, err, Outcome,
  returns, panics, Poll, ready, pending, if◌then◌else◌,
}
use spawns.Joint.{
  Waker, Payload, InnerJoinError, cancelled, panic, TaskResult, Joint, Panic, JoinError,
}
use spawns.Joint
use spawns.Cancellation.{Slot, Boxes, Fault, set_at, free, is_cancelled}
use spawns.Cancellation

-- What `panic::catch_unwind` around the poll of the user's future gives.
pub data Attempt (A : Type 0) : Type 0 where
  still_pending : Attempt A
  completed : A → Attempt A
  unwound : Payload → Attempt A

-- `waker` is the address of its box.
pub record TaskFuture (S : Type 0) : Type 0 where
  pub waker : Option ℕ
  pub future : Option S

-- Which handle the owner holds. `gone` is after the handle was dropped.
pub data Handle : Type 0 where
  join_handle task_handle gone : Handle

-- A task with all that it shares. `alive` until the task itself is dropped; `woken` is observed only.
pub record World (A S : Type 0) : Type 0 where
  pub task : TaskFuture S
  pub alive : Bool
  pub slot : Slot
  pub boxes : Boxes
  pub joint : Joint A
  pub handle : Handle
  pub woken : List Waker

pub data Failure : Type 0 where
  panicked : Panic → Failure
  dangling : Failure

-- The box for the waker of this poll: the spare one, or a new one at the address `b`.
abbrev pub box_at : Option ℕ → ℕ → ℕ
box_at none b = b
box_at (some c) b = c

abbrev pub free_waker : Option ℕ → Boxes → Boxes
free_waker none boxes = boxes
free_waker (some c) boxes = free c boxes

-- `TaskFuture::new` and `JoinHandle::new` in `Task::new`.
unfoldable pub spawned : {A S : Type 0} → S → World A S
unfolding Joint.new Cancellation.default
spawned future = record {
  task = record { waker = none; future = some future };
  alive = true;
  slot = Cancellation.default;
  boxes = λ _. none;
  joint = Joint.new;
  handle = join_handle;
  woken = [];
}

module _ {A S : Type 0} where
  woke :
      World A S
      → Joint A × Outcome Panic (List Waker)
      → World A S × Outcome Failure (Poll (Unit {0}))
  woke s (j, returns ws) = (record s { joint = j; woken = ws ++ s.woken }, returns (ready tt))
  woke s (j, panics p) = (record s { joint = j }, panics (panicked p))

  -- `TaskFuture::finish`
  unfoldable pub finish : World A S → TaskResult A → World A S × Outcome Failure (Poll (Unit {0}))
  unfolding woke
  finish s value =
      woke (record s { task = record s.task { future = none } }) (Joint.wake s.joint value)

  updated :
      World A S
      → Slot × Result (Option ℕ) (Unit {0}) × Boxes
      → World A S × Outcome Failure (Poll (Unit {0}))
  unfolding finish
  updated s (slot, err _, boxes) =
      finish (record s { task = record s.task { waker = none }; slot = slot; boxes = boxes })
        (err cancelled)
  updated s (slot, ok spare, boxes) = (
    record s { task = record s.task { waker = spare }; slot = slot; boxes = boxes },
    returns pending,
  )

  -- The branch of `TaskFuture::poll` for a pending future.
  unfoldable pub park : World A S → Waker → ℕ → World A S × Outcome Failure (Poll (Unit {0}))
  unfolding updated
  park s w b =
      let c = box_at s.task.waker b in
      updated s (Cancellation.update c s.slot (set_at s.boxes c (some w)))

  attempted : World A S → Waker → ℕ → S × Attempt A → World A S × Outcome Failure (Poll (Unit {0}))
  unfolding park finish
  attempted s w b (future, still_pending) =
      park (record s { task = record s.task { future = some future } }) w b
  attempted s w b (future, completed value) = finish s (ok value)
  attempted s w b (future, unwound payload) = finish s (err (panic payload))

  -- `TaskFuture::poll` with the waker `w` of its context; `b` is where a new box would go.
  unfoldable pub poll_task :
      (S → Waker → S × Attempt A)
      → World A S
      → Waker
      → ℕ
      → World A S × Outcome Failure (Poll (Unit {0}))
  unfolding attempted finish
  poll_task poll_future s w b = elim s.task.future [
    | none ↦ (s, returns (ready tt))
    | some future ↦
        if is_cancelled s.slot
        then finish s (err cancelled)
        else attempted s w b (poll_future future w)
  ]

  -- `Drop for TaskFuture`, and then the drop of its fields.
  unfoldable pub drop_task : World A S → World A S
  unfolding finish
  drop_task s =
      let s' : World A S = elim s.task.future [
        | none ↦ s
        | some _ ↦ (finish s (err cancelled)).0
      ] in
      record s' {
        task = record s'.task { waker = none };
        alive = false;
        boxes = free_waker s'.task.waker s'.boxes;
      }

  after_cancel :
      World A S → Slot × Outcome Fault (List Waker × Boxes) → World A S × Outcome Failure (Unit {0})
  after_cancel s (slot, returns (ws, boxes)) =
      (record s { slot = slot; boxes = boxes; woken = ws ++ s.woken }, returns tt)
  after_cancel s (slot, panics _) = (record s { slot = slot }, panics dangling)

  -- `CancelHandle::cancel` and `JoinHandle::cancel`
  unfoldable pub cancel : World A S → World A S × Outcome Failure (Unit {0})
  unfolding after_cancel
  cancel s = after_cancel s (Cancellation.cancel s.slot s.boxes)

  joined_with :
      World A S
      → Joint A × Outcome Panic (Poll (Result A JoinError))
      → World A S × Outcome Failure (Poll (Result A JoinError))
  joined_with s (j, returns p) = (record s { joint = j }, returns p)
  joined_with s (j, panics p) = (record s { joint = j }, panics (panicked p))

  -- `JoinHandle::poll`, and `TaskHandle::poll`, which calls it.
  unfoldable pub poll_handle :
      ℕ → World A S → Waker → World A S × Outcome Failure (Poll (Result A JoinError))
  unfolding joined_with
  poll_handle id s w = joined_with s (Joint.poll id w s.joint)

  -- `JoinHandle::attach`
  unfoldable pub attach : World A S → World A S
  attach s = record s { handle = task_handle }

  -- `TaskHandle::detach`: no `Drop` of the task handle runs.
  unfoldable pub detach : World A S → World A S
  detach s = record s { handle = join_handle }

  -- `TaskHandle::cancel`
  unfoldable pub cancel_detach : World A S → World A S
  unfolding cancel detach
  cancel_detach s = detach (cancel s).0

  -- The owner drops the handle that it holds: `Drop for TaskHandle` runs before that of its field.
  unfoldable pub drop_handle : World A S → World A S
  unfolding cancel
  drop_handle s = elim s.handle [
    | join_handle ↦ record s { joint = Joint.drop s.joint; handle = gone }
    | task_handle ↦
        let s' = (cancel s).0 in record s' { joint = Joint.drop s'.joint; handle = gone }
    | gone ↦ s
  ]

-- What the threads that share the task may call.
pub data Op : Type 0 where
  polls : Waker → ℕ → Op
  joins : Waker → Op
  cancels attaches detaches cancels_detaching drops_handle drops_task : Op

module _ {A S : Type 0} (poll_future : S → Waker → S × Attempt A) (id : ℕ) where
  -- One call. Rust's ownership rules out a call on a task or a handle that is gone, or of the other
  -- kind: it does nothing here.
  unfoldable pub step : Op → World A S → World A S
  step (polls w b) s = if s.alive then (poll_task poll_future s w b).0 else s
  step (joins w) s = elim s.handle [ gone ↦ s | _ ↦ (poll_handle id s w).0 ]
  step cancels s = (cancel s).0
  step attaches s = elim s.handle [ join_handle ↦ attach s | _ ↦ s ]
  step detaches s = elim s.handle [ task_handle ↦ detach s | _ ↦ s ]
  step cancels_detaching s = elim s.handle [ task_handle ↦ cancel_detach s | _ ↦ s ]
  step drops_handle s = drop_handle s
  step drops_task s = if s.alive then drop_task s else s

  unfoldable pub run : List Op → World A S → World A S
  run [] s = s
  run (op ∷ ops) s = run ops (step op s)
