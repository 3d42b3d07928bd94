-- ===== src/Cancellation/Atomic.antt =====
-- The calls of `Cancellation` refine their steps: a thread that runs `cancel` or `update` of
-- `Cancellation.Protocol` from its first access to its last, with no other thread in between, does
-- what the function of `Cancellation` says.
use spawns.Prelude.{
  ℕ, zero, suc, ◌≡◌, List, ◌++◌, Option, none, Outcome, returns, panics, Result, ok, err, arith,
}
use spawns.Joint.{Waker}
use spawns.Cancellation.{Slot, null, cancelled, ptr, Boxes, Fault, dangling, free}
use spawns.Cancellation
use spawns.Cancellation.Protocol.{
  exchanged, Memory, current, CancelPc, TaskPc, cancel_step, task_step,
}

-- `n` accesses of a handle in a row.
pub cancel_run : ℕ → CancelPc → Memory → CancelPc × Memory
cancel_run zero pc m = (pc, m)
cancel_run (suc n) pc m =
    let next = cancel_step (current m.slots) pc m in cancel_run n next.0 next.1

pub task_run : ℕ → TaskPc → Memory → TaskPc × Memory
task_run zero pc m = (pc, m)
task_run (suc n) pc m = let next = task_step (current m.slots) pc m in task_run n next.0 next.1

-- How `cancel` ended, from the memory `m`.
abbrev pub CancelEnds : Memory → CancelPc → Memory → Outcome Fault (List Waker × Boxes) → Type 0
CancelEnds m pc m' (returns (ws, boxes)) =
    (pc ≡ CancelPc.idle) × (m'.boxes ≡ boxes) × (m'.woken ≡ ws ++ m.woken)
CancelEnds m pc m' (panics dangling) =
    (pc ≡ CancelPc.dangling) × (m'.boxes ≡ m.boxes) × (m'.woken ≡ m.woken)

-- How `update` ended.
abbrev pub update_end : Waker → Result (Option ℕ) (Unit {0}) → TaskPc
update_end w (ok spare) = TaskPc.parked w spare
update_end w (err _) = TaskPc.finished none

-- A thread that nothing interleaves with does what the calls say. Three accesses of `cancel` are the
-- call: the same pointer, boxes and wakers. Two accesses of `update` are the call: the same pointer,
-- boxes and outcome.
pub cancellation_runs-calls :
    (m : Memory) (w : Waker) (b : ℕ)
    → (let r = cancel_run 3 CancelPc.loading m in
        let call = Cancellation.cancel (current m.slots) m.boxes in
        (current r.1.slots ≡ call.0) × CancelEnds m r.0 r.1 call.1)
      × (let r = task_run 2 (TaskPc.loading w b) m in
          let call = Cancellation.update b (current m.slots) m.boxes in
          (current r.1.slots ≡ call.0)
          × (r.0 ≡ update_end w call.1)
          × (r.1.boxes ≡ call.2)
          × (r.1.woken ≡ m.woken))
unfolding cancel_run task_run cancel_step task_step exchanged Cancellation.cancel
    Cancellation.update
cancellation_runs-calls m w b = (ground arith, ground arith)
