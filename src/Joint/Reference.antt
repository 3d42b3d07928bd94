-- ===== src/Joint/Reference.antt =====
-- What the atomic `stage` of `Joint` is for (spawns-core/src/task.rs): it spares `wake` and
-- `JoinHandle::poll` work, and decides nothing. Here are the same calls without it.
use spawns.Prelude.{
  ℕ, ◌≡◌, ◌⊎◌, Among, List, [], ◌∷◌, Result, Poll, Outcome, returns, panics, pending, arith,
}
use spawns.Joint.{
  Waker, Stage, TaskResult, JoinError, JoinResult, empty, joining, joined, Joint, Panic,
  completed_already, already_joined, already_detached, ready_with,
}
use spawns.Joint
use spawns.Joint.Protocol.{Shared, WakePc, JoinPc, System, Reach}
use spawns.Joint.Invariant.{Inv}
use spawns.Joint.Safety.{Reach-Inv}

module _ {A : Type 0} where
  -- A task's end: the result is left for the joiner, who is woken, unless there is none any more.
  pub plain_wake : JoinResult A → TaskResult A → JoinResult A × Outcome Panic (List Waker)
  plain_wake empty value = (JoinResult.finished value, returns [])
  plain_wake (joining waker) value = (JoinResult.finished value, returns (waker ∷ []))
  plain_wake JoinResult.detached value = (JoinResult.detached, returns [])
  plain_wake old value = (JoinResult.finished value, panics completed_already)

  -- A poll: a result is taken, and else the waker is left.
  pub plain_poll :
      ℕ → Waker → JoinResult A → JoinResult A × Outcome Panic (Poll (Result A JoinError))
  plain_poll id waker (JoinResult.finished result) = (joined, ready_with id result)
  plain_poll id waker empty = (joining waker, returns pending)
  plain_poll id waker (joining _) = (joining waker, returns pending)
  plain_poll id waker joined = (joined, panics (already_joined id))
  plain_poll id waker JoinResult.detached = (JoinResult.detached, panics (already_detached id))

  -- What a load of the stage may see, by what the joint holds: `Running` at any time, `Finished` only
  -- once the task left its result there, and `Detached` only once the handle left its mark.
  abbrev MaySee : Stage → JoinResult A → Type 0
  MaySee Stage.running result = Unit
  MaySee Stage.finished (JoinResult.finished _) = Unit
  MaySee Stage.finished joined = Unit
  MaySee Stage.finished JoinResult.detached = Unit
  MaySee Stage.detached JoinResult.detached = Unit
  MaySee _ _ = ⊥

  -- The owner of the handle is in no poll or drop, and no poll of a handle that it still holds has
  -- panicked.
  abbrev pub IsResting : JoinPc A → List (TaskResult A) → Type 0
  IsResting JoinPc.free ds = Unit
  IsResting (JoinPc.waiting _) [] = Unit
  IsResting JoinPc.got ds = Unit
  IsResting JoinPc.dropped ds = Unit
  IsResting _ _ = ⊥

  -- The task is inside no `wake` either.
  abbrev pub AreResting : WakePc A → JoinPc A → List (TaskResult A) → Type 0
  AreResting WakePc.idle h ds = IsResting h ds
  AreResting WakePc.done h ds = IsResting h ds
  AreResting WakePc.skipped h ds = IsResting h ds
  AreResting _ h ds = ⊥

  may_see :
      (seen : Stage) (t : WakePc A) (h : JoinPc A) (m : Shared A)
      → Inv t h m
      → Among seen m.stages
      → AreResting t h m.delivered
      → MaySee seen m.result
  may_see Stage.running t h m inv i e = tt
  may_see Stage.finished t h m inv i e = ground (arith, inv.body, inv.saw_finished i)
  may_see Stage.detached t h m inv i e = ground (arith, inv.body, inv.saw_detached i)

  wake_agrees :
      (j : Joint A) (value : TaskResult A)
      → MaySee j.stage j.result
      → let woke = Joint.wake j value in
        (j.stage ≡ Stage.finished) ⊎ ((woke.0.result, woke.1) ≡ plain_wake j.result value)
  unfolding Joint.wake plain_wake
  wake_agrees j value e = ground arith

  poll_agrees :
      (j : Joint A) (id : ℕ) (waker : Waker)
      → MaySee j.stage j.result
      → let polled = Joint.poll id waker j in
        let reference = plain_poll id waker j.result in
        (polled.1 ≡ reference.1)
        × ((j.result ≡ joined) ⊎ (j.result ≡ JoinResult.detached) ⊎ (polled.0.result ≡ reference.0))
  unfolding Joint.poll plain_poll
  poll_agrees j id waker e = (ground arith, ground arith)

  -- In every reachable state in which no call runs and no poll of a handle that is still held has
  -- panicked, and whatever value the load of the stage sees: `wake` leaves the same result in the joint, wakes the same wakers and ends in the same way as it
  -- does without the stage, unless it sees that the task ended before; and a poll returns or panics
  -- as it does without the stage, and leaves the same behind, unless it panics.
  pub stage_decides_nothing :
      {s : System A} (seen : Stage) (value : TaskResult A) (id : ℕ) (waker : Waker)
      → Reach s
      → Among seen s.stages
      → AreResting s.task s.handle s.delivered
      → let j : Joint A = record { stage = seen; result = s.result } in
        let woke = Joint.wake j value in
        let polled = Joint.poll id waker j in
        let reference = plain_poll id waker s.result in
        ((seen ≡ Stage.finished) ⊎ ((woke.0.result, woke.1) ≡ plain_wake s.result value))
        × (polled.1 ≡ reference.1)
        × ((s.result ≡ joined) ⊎ (s.result ≡ JoinResult.detached) ⊎ (polled.0.result ≡ reference.0))
  stage_decides_nothing {s} seen value id waker r i e =
      let j : Joint A = record { stage = seen; result = s.result } in
      let saw = may_see seen s.task s.handle s.shared (Reach-Inv r) i e in
      let (same, left) = poll_agrees j id waker saw in (wake_agrees j value saw, same, left)
