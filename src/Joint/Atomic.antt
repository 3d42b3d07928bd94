-- ===== src/Joint/Atomic.antt =====
-- The calls of `Joint` refine their steps: a thread that runs a call of `Joint.Protocol` from its
-- first access to its last, with no other thread in between, does what the function of `Joint` says.
use spawns.Prelude.{
  ℕ, zero, suc, ◌≡◌, refl, List, [], ◌∷◌, ◌++◌, Option, none, some, Outcome, returns, panics, Poll,
  pending, Result, arith,
}
use spawns.Joint.{
  Waker, Stage, TaskResult, JoinError, JoinResult, empty, joining, joined, Joint, Panic,
  already_joined, already_detached, completed_already, no_result, ready_with,
}
use spawns.Joint
use spawns.Joint.Protocol.{Shared, WakePc, JoinPc, wake_step, join_step}

abbrev pub latest : List Stage → Stage
latest [] = Stage.running
latest (x ∷ xs) = x

abbrev pub wakers : Outcome Panic (List Waker) → List Waker
wakers (returns ws) = ws
wakers (panics _) = []

module _ {A : Type 0} where
  -- The joint that a thread finds with no other thread at work.
  abbrev pub view : Shared A → Joint A
  view m = record { stage = latest m.stages; result = m.result }

  -- `n` accesses of the task in a row.
  pub wake_run : ℕ → WakePc A → Shared A → WakePc A × Shared A
  wake_run zero pc m = (pc, m)
  wake_run (suc n) pc m = let next = wake_step (latest m.stages) pc m in wake_run n next.0 next.1

  pub join_run : ℕ → JoinPc A → Shared A → JoinPc A × Shared A
  join_run zero pc m = (pc, m)
  join_run (suc n) pc m = let next = join_step (latest m.stages) pc m in join_run n next.0 next.1

  -- How `wake` ended.
  abbrev pub WakeEnds : WakePc A → Outcome Panic (List Waker) → Type 0
  WakeEnds WakePc.done o = o ≡ returns (wakers o)
  WakeEnds WakePc.skipped o = o ≡ returns []
  WakeEnds WakePc.unreachable o = o ≡ panics completed_already
  WakeEnds _ o = ⊥

  -- What a poll that stands at its end returns.
  abbrev pub poll_end :
      ℕ → JoinPc A → List (TaskResult A) → Option (Outcome Panic (Poll (Result A JoinError)))
  poll_end id JoinPc.got (r ∷ _) = some (ready_with id r)
  poll_end id (JoinPc.waiting _) ds = some (returns pending)
  poll_end id JoinPc.panicked_joined ds = some (panics (already_joined id))
  poll_end id JoinPc.panicked_detached ds = some (panics (already_detached id))
  poll_end id JoinPc.unreachable ds = some (panics no_result)
  poll_end id _ ds = none

  -- A thread that nothing interleaves with does what the calls say. Four accesses of `wake` are the
  -- call: the same joint, the same wakers, the same end. Three accesses of a poll are the call: the
  -- same joint and the same outcome. Two accesses of a drop are the call: the same joint.
  pub joint_runs-calls :
      (m : Shared A) (v : TaskResult A) (id : ℕ) (w : Waker)
      → (let r = wake_run 4 (WakePc.load_stage v) m in
          let call = Joint.wake (view m) v in
          (view r.1 ≡ call.0) × (r.1.woken ≡ wakers call.1 ++ m.woken) × WakeEnds r.0 call.1)
        × (let r = join_run 3 (JoinPc.load_stage w) m in
            let call = Joint.poll id w (view m) in
            (view r.1 ≡ call.0) × (poll_end id r.0 r.1.delivered ≡ some call.1))
        × (let r = join_run 2 JoinPc.store_detached m in
            (view r.1 ≡ Joint.drop (view m)) × (r.0 ≡ JoinPc.dropped))
  unfolding wake_run join_run wake_step join_step Joint.wake Joint.poll Joint.drop
  joint_runs-calls m v id w = (ground arith, ground arith, (refl, refl))
