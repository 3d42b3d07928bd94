-- ===== src/Joint/Promise.antt =====
-- The joint as a promise: what the task and the owner of the handle share, with no thread, lock or
-- atomic in sight.
use spawns.Prelude.{◌≡◌, refl, Bool, true, false, List, [], ◌∷◌, Option, none, some, arith}
use spawns.Joint.{Stage, TaskResult}
use spawns.Joint.Protocol.{
  Shared, WakePc, JoinPc, System, Step, Reach, finish, wake, poll, drop, join, wake_step, join_step,
}
use spawns.Joint.Invariant.{Body}
use spawns.Joint.Safety.{Reach-Inv}

module _ (A : Type 0) where
  pub data Promise : Type 0 where
    unresolved abandoned : Promise
    resolved joined : TaskResult A → Promise

module _ {A : Type 0} where
  -- What may become of a promise in a step: it stays as it is, resolves, is joined with the value
  -- that it resolved to, or is abandoned, for good.
  abbrev pub Move : Promise A → Promise A → Type 0
  Move p Promise.abandoned = Unit
  Move Promise.unresolved Promise.unresolved = Unit
  Move Promise.unresolved (Promise.resolved v) = Unit
  Move (Promise.resolved v) (Promise.resolved w) = v ≡ w
  Move (Promise.resolved v) (Promise.joined w) = v ≡ w
  Move (Promise.joined v) (Promise.joined w) = v ≡ w
  Move p q = ⊥

  Move-refl : (p : Promise A) → Move p p
  Move-refl Promise.unresolved = tt
  Move-refl Promise.abandoned = tt
  Move-refl (Promise.resolved v) = refl
  Move-refl (Promise.joined v) = refl

  -- The owner of the handle has begun to give up the joint.
  abbrev is_leaving : JoinPc A → Bool
  is_leaving JoinPc.clear = true
  is_leaving JoinPc.dropped = true
  is_leaving _ = false

  abbrev kept : Option (TaskResult A) → List (TaskResult A) → Promise A
  kept none ds = Promise.unresolved
  kept (some v) [] = Promise.resolved v
  kept (some v) (d ∷ ds) = Promise.joined d

  abbrev promise_of : JoinPc A → Option (TaskResult A) → List (TaskResult A) → Promise A
  promise_of h p ds = elim (is_leaving h) [ true ↦ Promise.abandoned | false ↦ kept p ds ]

  -- The promise that a state of the two threads stands for.
  abbrev pub promise : System A → Promise A
  promise s = promise_of s.handle s.produced s.delivered

  wake_step-promise :
      (seen : Stage) (t : WakePc A) (h : JoinPc A) (m : Shared A)
      → let n = (wake_step seen t m).1 in
        promise_of h m.produced m.delivered ≡ promise_of h n.produced n.delivered
  unfolding wake_step
  wake_step-promise seen t h m = ground arith

  finish-promise :
      (v : TaskResult A) (h : JoinPc A) (m : Shared A)
      → m.produced ≡ none
      → m.delivered ≡ []
      → Move (promise_of h m.produced m.delivered) (promise_of h (some v) m.delivered)
  finish-promise v h m e f = ground arith

  join_step-promise :
      (seen : Stage) (t : WakePc A) (h : JoinPc A) (m : Shared A)
      → Body t h m
      → let r = join_step seen h m in
        Move (promise_of h m.produced m.delivered) (promise_of r.0 r.1.produced r.1.delivered)
  unfolding join_step
  join_step-promise seen t h m b = ground arith

  -- The start of a poll or of a drop.
  begin-promise :
      (h : JoinPc A) (p : Option (TaskResult A)) (ds : List (TaskResult A))
      → is_leaving h ≡ false
      → Move (promise_of h p ds) (kept p ds)
  begin-promise h p ds e = rw (e, promise_of) (Move-refl (kept p ds))

  -- In every reachable state each step of the two threads, whatever its load of the stage sees, moves
  -- the promise: it stays as it is, resolves if it was unresolved, is joined with the value that it
  -- resolved to, or is abandoned; once joined it keeps its value, and once abandoned it stays so.
  pub step-promise : {s t : System A} → Reach s → Step s t → Move (promise s) (promise t)
  step-promise {s} r (finish v e) =
      finish-promise v s.handle s.shared (ground (arith, (Reach-Inv r).body))
        (ground (arith, (Reach-Inv r).body))
  step-promise {s} r (wake seen i) =
      rw (wake_step-promise seen s.task s.handle s.shared) (Move-refl _)
  step-promise {s} r (poll w c) = begin-promise s.handle s.produced s.delivered (ground (arith, c))
  step-promise {s} r (drop c) = begin-promise s.handle s.produced s.delivered (ground (arith, c))
  step-promise {s} r (join seen i) =
      join_step-promise seen s.task s.handle s.shared (Reach-Inv r).body
