-- ===== src/Joint/Safety.antt =====
-- What the joint promises in every reachable state of the task and of the handle's owner.
use spawns.Prelude.{◌≡◌, ◌≢◌, refl, ◌⊎◌, inl, inr, List, [], ◌∷◌, Option, some, none, Among, arith}
use spawns.Joint.{Waker, Stage, TaskResult, JoinResult}
use spawns.Joint.Protocol.{
  Shared, WakePc, JoinPc, System, Step, Reach, start, later, finish, wake, poll, drop, join, init,
  join_step, joins,
}
use spawns.Joint.Invariant.{SystemInv, Once, Held, Body}
use spawns.Joint.Invariant.WakeSteps.{ends-Inv, wake_step-Inv}
use spawns.Joint.Invariant.JoinSteps.{poll-Inv, drop-Inv, join_step-Inv}

module _ {A : Type 0} where
  init-Inv : SystemInv (init {A = A})
  init-Inv = record {
    saw_finished = λ i. ground arith;
    saw_detached = λ i. ground arith;
    body = (refl, refl, refl);
  }

  Step-Inv : {s t : System A} → Step s t → SystemInv s → SystemInv t
  Step-Inv {s} (finish v e) inv = ends-Inv v s.handle s.shared (rw e at inv)
  Step-Inv {s} (wake seen i) inv = wake_step-Inv seen s.task s.handle s.shared i inv
  Step-Inv {s} (poll w c) inv = poll-Inv w s.task s.handle s.shared c inv
  Step-Inv {s} (drop c) inv = drop-Inv s.task s.handle s.shared c inv
  Step-Inv {s} (join seen i) inv = join_step-Inv seen s.task s.handle s.shared i inv

  pub Reach-Inv : {s : System A} → Reach s → SystemInv s
  Reach-Inv start = init-Inv
  Reach-Inv (later r st) = Step-Inv st (Reach-Inv r)

  Once-some :
      (p : Option (TaskResult A)) (ds : List (TaskResult A))
      → Once p ds
      → (v : TaskResult A) × (p ≡ some v) × (ds ≡ v ∷ [])
  Once-some (some v) ds e = (v, refl, e)
  Once-some none ds e = absurd e

  Held-some :
      (p : Option (TaskResult A)) (r : JoinResult A)
      → Held p r
      → (v : TaskResult A) × (p ≡ some v) × (r ≡ JoinResult.finished v)
  Held-some (some v) r e = (v, refl, e)
  Held-some none r e = absurd e

  Body-Once :
      (t : WakePc A) (h : JoinPc A) (m : Shared A)
      → Body t h m
      → (m.delivered ≡ []) ⊎ Once m.produced m.delivered
  Body-Once t h m b = ground arith

  Body-Held :
      (w : Waker) (m : Shared A)
      → Body WakePc.done (JoinPc.load_stage w) m
      → m.delivered ≡ []
      → Held m.produced m.result
  Body-Held w m b e = ground arith

  module _ {s : System A} (r : Reach s) where
    -- All polls together return at most one result as ready, and it is the one that the task
    -- ended with.
    pub delivered_at_most_once :
        (s.delivered ≡ []) ⊎ ((v : TaskResult A) × (s.produced ≡ some v) × (s.delivered ≡ v ∷ []))
    delivered_at_most_once = elim (Body-Once s.task s.handle s.shared (Reach-Inv r).body) [
      | inl e ↦ inl e
      | inr e ↦ inr (Once-some s.produced s.delivered e)
    ]

    -- No reachable state runs into an `unreachable!` of `wake`, and the one handle never finds its own
    -- joint detached. An `unreachable!` of `poll` is reached only after a poll that returned the
    -- result, by polls that come after it.
    pub never_unreachable :
        (s.task ≢ WakePc.unreachable)
        × (s.handle ≢ JoinPc.panicked_detached)
        × ((s.handle ≢ JoinPc.unreachable) ⊎ ((v : TaskResult A) × (s.delivered ≡ v ∷ [])))
    never_unreachable =
        let b = (Reach-Inv r).body in
        (
          ground (arith, b),
          ground (arith, b),
          elim delivered_at_most_once [
            | inl fresh ↦ inl (λ h. ground (arith, b))
            | inr (v, p, e) ↦ inr (v, e)
          ],
        )

    -- A handle whose last poll returned `Pending` is not forgotten, if no poll before returned the
    -- result: once `wake` has returned, by its last branch or early, the waker of that poll has been
    -- woken.
    pub no_lost_wakeup :
        (w : Waker)
        → s.handle ≡ JoinPc.waiting w
        → s.delivered ≡ []
        → (s.task ≡ WakePc.done) ⊎ (s.task ≡ WakePc.skipped)
        → Among w s.woken
    no_lost_wakeup w e d f = ground (arith, (Reach-Inv r).body)

    -- `wake` returns early only if the handle is being dropped or gone.
    skipped_only_if_dropped :
        s.task ≡ WakePc.skipped → (s.handle ≡ JoinPc.clear) ⊎ (s.handle ≡ JoinPc.dropped)
    skipped_only_if_dropped e = ground (arith, (Reach-Inv r).body)

    -- Once the handle is dropped and `wake` has returned, the joint holds neither a result nor a
    -- waker.
    dropped_joint_is_empty :
        s.handle ≡ JoinPc.dropped
        → (s.task ≡ WakePc.done) ⊎ (s.task ≡ WakePc.skipped)
        → s.result ≡ JoinResult.detached
    dropped_joint_is_empty e f = ground (arith, (Reach-Inv r).body)

    -- Once `wake` has returned from its last branch, a poll that is about to load the stage returns
    -- the task's result, if none was returned before, whichever values its load sees: three accesses
    -- of the owner are enough.
    pub poll_after_wake :
        (w : Waker) (a b c : Stage)
        → s.task ≡ WakePc.done
        → s.handle ≡ JoinPc.load_stage w
        → s.delivered ≡ []
        → (v : TaskResult A) × (s.produced ≡ some v)
          × ((joins c (joins b (joins a s))).delivered ≡ v ∷ [])
          × ((joins c (joins b (joins a s))).handle ≡ JoinPc.got)
    unfolding join_step
    poll_after_wake w a b c d e f =
        let (v, p, q) =
          Held-some s.produced s.result
            (Body-Held w s.shared (ground (arith, (Reach-Inv r).body)) f) in
        (v, p, ground arith, ground arith)
