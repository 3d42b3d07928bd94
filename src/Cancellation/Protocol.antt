-- ===== src/Cancellation/Protocol.antt =====
-- spawns-core/src/task.rs: `Cancellation::cancel`, `Cancellation::update` and the part of
-- `TaskFuture`'s poll and drop around them, a shared access at a time: one task, and any number of
-- cancel handles, each used by one thread at a time. All atomics are `Relaxed`: a load may see any
-- value stored so far, and so may a compare-exchange that fails. One that succeeds reads the last.
use spawns.Prelude.{ℕ, ◌≡◌, List, [], ◌∷◌, Option, none, some, Among, if◌then◌else◌}
use spawns.Joint.{Waker}
use spawns.Cancellation.{Slot, null, cancelled, ptr, slot_eq, Boxes, set_at, free}

pub record Memory : Type 0 where
  pub slots : List Slot
  pub boxes : Boxes
  pub woken : List Waker

abbrev pub current : List Slot → Slot
current [] = null
current (x ∷ xs) = x

-- Where the owner of one cancel handle stands.
pub data CancelPc : Type 0 where
  gone idle loading : CancelPc
  trying : Slot → CancelPc
  waking : ℕ → CancelPc
  dangling : CancelPc

-- Where the task stands. `spare` is the box in its field `waker`. `parked` is after a poll that
-- returned `Pending`, with the waker that it was given; `finished` is after `finish`.
pub data TaskPc : Type 0 where
  fresh : TaskPc
  parked : Waker → Option ℕ → TaskPc
  checking : Option ℕ → TaskPc
  polling : Option ℕ → TaskPc
  loading : Waker → ℕ → TaskPc
  trying : Waker → ℕ → Slot → TaskPc
  finished : Option ℕ → TaskPc
  dropped : TaskPc

store : Slot → Memory → Memory
store s m = record m { slots = s ∷ m.slots }

-- After the compare-exchange of `cancel` took this value out.
abbrev taken : Slot → CancelPc
taken null = CancelPc.idle
taken cancelled = CancelPc.idle
taken (ptr b) = CancelPc.waking b

unfoldable pub wake_found : ℕ → Option Waker → Memory → CancelPc × Memory
wake_found b none m = (CancelPc.dangling, m)
wake_found b (some w) m = (CancelPc.idle, record m { boxes = free b m.boxes; woken = w ∷ m.woken })

-- A compare-exchange with the expected value `cur`: `none` if it succeeds, else the value that its
-- failure returns, which is never `cur`.
unfoldable pub exchanged : Slot → Slot → List Slot → Option Slot
exchanged seen cur slots =
    if slot_eq seen cur
    then if slot_eq (current slots) cur then none else some (current slots)
    else some seen

-- The next access of `cancel`; `seen` is what the access sees in the pointer.
unfoldable pub cancel_step : Slot → CancelPc → Memory → CancelPc × Memory
unfolding store wake_found exchanged
cancel_step seen CancelPc.loading m = (CancelPc.trying seen, m)
cancel_step seen (CancelPc.trying cur) m =
    if slot_eq cur cancelled then (CancelPc.idle, m) else elim (exchanged seen cur m.slots) [
      | none ↦ (taken cur, store cancelled m)
      | some newer ↦ (CancelPc.trying newer, m)
    ]
cancel_step seen (CancelPc.waking b) m = wake_found b (m.boxes b) m
cancel_step seen pc m = (pc, m)

-- The box that comes back from `update`.
abbrev returned : Slot → Option ℕ
returned (ptr b) = some b
returned _ = none

-- The next access of the task.
unfoldable pub task_step : Slot → TaskPc → Memory → TaskPc × Memory
unfolding store exchanged
task_step seen (TaskPc.checking spare) m =
    (if slot_eq seen cancelled then TaskPc.finished spare else TaskPc.polling spare, m)
task_step seen (TaskPc.loading w b) m = (TaskPc.trying w b seen, m)
task_step seen (TaskPc.trying w b cur) m =
    if slot_eq cur cancelled
    then (TaskPc.finished none, record m { boxes = free b m.boxes })
    else elim (exchanged seen cur m.slots) [
      | none ↦ (TaskPc.parked w (returned cur), store (ptr b) m)
      | some newer ↦ (TaskPc.trying w b newer, m)
    ]
task_step seen pc m = (pc, m)

abbrev pub free_spare : Option ℕ → Memory → Memory
free_spare none m = m
free_spare (some b) m = record m { boxes = free b m.boxes }

pub record System : Type 0 where
  pub task : TaskPc
  pub cancels : ℕ → CancelPc
  pub memory : Memory
  pub open memory use *

-- The box at this address now holds this waker.
abbrev pub fill : ℕ → Waker → Memory → Memory
fill b w m = record m { boxes = set_at m.boxes b (some w) }

abbrev pub tasks : Slot → System → System
tasks seen s = record s {
  task = (task_step seen s.task s.memory).0;
  memory = (task_step seen s.task s.memory).1;
}

abbrev pub cancelling : ℕ → Slot → System → System
cancelling i seen s = record s {
  cancels = set_at s.cancels i (cancel_step seen (s.cancels i) s.memory).0;
  memory = (cancel_step seen (s.cancels i) s.memory).1;
}

abbrev pub moves : ℕ → CancelPc → System → System
moves i pc s = record s { cancels = set_at s.cancels i pc }

abbrev pub init : System
init = record {
  task = TaskPc.fresh;
  cancels = λ _. CancelPc.gone;
  memory = record { slots = null ∷ []; boxes = λ _. none; woken = [] };
}

pub data Step (s : System) : System → Type 0 where
  -- a handle is made, dropped, or asked to cancel
  clone : (i : ℕ) → s.cancels i ≡ CancelPc.gone → Step s (moves i CancelPc.idle s)
  release : (i : ℕ) → s.cancels i ≡ CancelPc.idle → Step s (moves i CancelPc.gone s)
  cancel : (i : ℕ) → s.cancels i ≡ CancelPc.idle → Step s (moves i CancelPc.loading s)
  cancel_on : (i : ℕ) (seen : Slot) → Among seen s.slots → Step s (cancelling i seen s)
  -- the task is polled
  poll_first : s.task ≡ TaskPc.fresh → Step s (record s { task = TaskPc.checking none })
  poll :
      (w : Waker) (spare : Option ℕ)
      → s.task ≡ TaskPc.parked w spare
      → Step s (record s { task = TaskPc.checking spare })
  -- its future is ready or panics
  ends :
      (spare : Option ℕ)
      → s.task ≡ TaskPc.polling spare
      → Step s (record s { task = TaskPc.finished spare })
  -- its future is pending: the waker goes to a new box, or to the spare one
  pends_new :
      (w : Waker) (b : ℕ)
      → s.task ≡ TaskPc.polling none
      → s.boxes b ≡ none
      → Step s (record s { task = TaskPc.loading w b; memory = fill b w s.memory })
  pends_spare :
      (w : Waker) (b : ℕ)
      → s.task ≡ TaskPc.polling (some b)
      → Step s (record s { task = TaskPc.loading w b; memory = fill b w s.memory })
  task_on : (seen : Slot) → Among seen s.slots → Step s (tasks seen s)
  -- the task is dropped
  drop_fresh : s.task ≡ TaskPc.fresh → Step s (record s { task = TaskPc.dropped })
  drop_parked :
      (w : Waker) (spare : Option ℕ)
      → s.task ≡ TaskPc.parked w spare
      → Step s (record s { task = TaskPc.dropped; memory = free_spare spare s.memory })
  drop_finished :
      (spare : Option ℕ)
      → s.task ≡ TaskPc.finished spare
      → Step s (record s { task = TaskPc.dropped; memory = free_spare spare s.memory })

pub data Reach : System → Type 0 where
  start : Reach init
  later : {s t : System} → Reach s → Step s t → Reach t
