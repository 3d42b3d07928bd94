-- ===== src/Crowd/Answers.antt =====
-- What the owners of handles get when the executor is done with its tasks
-- (`block_on` of spawns-executor/src/lib.rs drops its pool, and the pool its tasks).
use spawns.Prelude.{
  ℕ, ◌≡◌, ◌≢◌, refl, sym, subst, ◌∙◌, if_ind, inl, inr, false, List, none, some, err, ap,
  Option-cases, Among, arith, panics,
}
use spawns.Joint.{Waker, JoinResult, cancelled, TaskResult, already_joined}
use spawns.Joint
use spawns.Task.{
  Attempt, World, spawned, gone, Op, drops_task, step, poll_handle, panicked, drop_task, finish,
}
use spawns.Task.Valid.{IsOpen, Valid, drop_task-Valid}
use spawns.Task.Outcomes.{Joins, HandleOutcome, poll_handle_lem, drop_task_cancels}
use spawns.Crowd.{Crowd, task_in, all_spawned, call, calls}
use spawns.Crowd.Apart.{all_spawned-AllValid, call_own}
use spawns.Crowd.Given.{Gave, calls-joined}
use spawns.Crowd.Alone.{AllFresh, calls-AllValid}

module _ {A : Type 0} where
  -- A joiner that waited, by what the joint held, has been woken.
  abbrev pub Told : JoinResult A → List Waker → Type 0
  Told (JoinResult.joining u) ws = Among u ws
  Told _ ws = Unit

module _ {A S : Type 0} where
  -- What a poll of the handle gives once the task is dropped, by what the joint held before: the
  -- result that was there; an error that the task was cancelled, if there was none yet; or, if a
  -- result was taken before, which is `G`, the panic that says so.
  abbrev pub Answered : Type 0 → ℕ → JoinResult A → World A S → Waker → Type 0
  Answered G id JoinResult.empty w u = Joins id w u (err cancelled)
  Answered G id (JoinResult.joining _) w u = Joins id w u (err cancelled)
  Answered G id (JoinResult.finished r) w u = Joins id w u r
  Answered G id JoinResult.joined w u =
      ((poll_handle id w u).1 ≡ panics (panicked (already_joined id))) × G
  Answered G id JoinResult.detached w u = ⊥

  over-Answered :
      {G : Type 0} (id : ℕ) (w : World A S) (u : Waker)
      → Valid w
      → w.task.future ≡ none
      → w.handle ≢ gone
      → (w.joint.result ≡ JoinResult.joined → G)
      → Answered G id w.joint.result w u
  over-Answered {G} id w u v e f g = answer w.joint.result refl (poll_handle_lem v id u f)
    where
      answer :
          (r : JoinResult A) → w.joint.result ≡ r → HandleOutcome id w u r → Answered G id r w u
      answer JoinResult.empty q h = absurd (h.2 e)
      answer (JoinResult.joining _) q h = absurd (h.2 e)
      answer (JoinResult.finished r) q h = h.0
      answer JoinResult.joined q h = (h.0, g q)
      answer JoinResult.detached q h = absurd h

  drop_task-Told : (w : World A S) → Valid w → Told w.joint.result (drop_task w).woken
  unfolding drop_task finish Joint.wake
  drop_task-Told w v = ground (arith, v.joint)

  over-Told : (w : World A S) → Valid w → w.alive ≡ false → Told w.joint.result w.woken
  over-Told w v e = ground (arith, v.joint, v.task)

  IsOpen-result :
      (w : World A S) (future : S)
      → Valid w
      → w.handle ≢ gone
      → w.task.future ≡ some future
      → IsOpen w.joint.result
  IsOpen-result w future v f e = ground (arith, v.joint)

  open-Answered :
      (G : Type 0) (id : ℕ) (w : World A S) (u : Waker) (r : JoinResult A)
      → IsOpen r
      → Joins id w u (err cancelled)
      → Answered G id r w u
  open-Answered G id w u JoinResult.empty o j = j
  open-Answered G id w u (JoinResult.joining _) o j = j
  open-Answered G id w u (JoinResult.finished _) o j = absurd o
  open-Answered G id w u JoinResult.joined o j = absurd o
  open-Answered G id w u JoinResult.detached o j = absurd o

  -- A task that is over when it is dropped has the same joint after, and the same handle.
  drop_over :
      (w : World A S)
      → w.task.future ≡ none
      → ((drop_task w).joint ≡ w.joint)
        × ((drop_task w).handle ≡ w.handle)
        × ((drop_task w).task.future ≡ none)
  unfolding drop_task
  drop_over w e = ground arith

  drop_task-Answered :
      {G : Type 0} (id : ℕ) (w : World A S) (u : Waker)
      → Valid w
      → w.handle ≢ gone
      → (w.joint.result ≡ JoinResult.joined → G)
      → Answered G id w.joint.result (drop_task w) u
  drop_task-Answered {G} id w u v e g = elim (Option-cases w.task.future) [
    | inl over ↦
        let (joint, handle, still) = drop_over w over in
        subst (λ j. Answered G id j.result (drop_task w) u) joint
          (over-Answered id (drop_task w) u (drop_task-Valid v) still (λ h. e (sym handle ∙ h))
            (λ h. g (ap (λ j. j.result) (sym joint) ∙ h)))
    | inr (future, has) ↦
        open-Answered G id (drop_task w) u w.joint.result (IsOpen-result w future v e has)
          (drop_task_cancels v id u (λ h. absurd (cc)) e)
  ]

  -- The drop of a task, whether or not it was dropped before.
  drops-Answered :
      {G : Type 0} (poll_future : S → Waker → S × Attempt A) (id : ℕ) (w : World A S) (u : Waker)
      → Valid w
      → w.handle ≢ gone
      → (w.joint.result ≡ JoinResult.joined → G)
      → Answered G id w.joint.result (step poll_future id drops_task w) u
        × Told w.joint.result (step poll_future id drops_task w).woken
  unfolding step
  drops-Answered {G} poll_future id w u v e g =
      if_ind (λ x. Answered G id w.joint.result x u × Told w.joint.result x.woken) w.alive
        (λ h. (drop_task-Answered id w u v e g, drop_task-Told w v))
        (λ h. (over-Answered id w u v (ground (arith, v.task)) e g, over-Told w v h))

module _ {A S : Type 0} (poll_future : S → Waker → S × Attempt A) (id : ℕ → ℕ) where
  -- Nobody waits for a task that its executor gave up. After any mixed calls on any number of tasks,
  -- with each new box at a free address, task `i` is dropped, be it in the middle of its work, and its
  -- handle is still held. Then a poll of the handle gives the result that the task left, or, if it
  -- had left none, the error that it was cancelled, with the task's id; it panics with "already
  -- joined" only if one of the calls was a poll of the handle that gave the result. A joiner that
  -- waited has been woken.
  pub drop_answers :
      (cs : List (ℕ × Op)) (futures : ℕ → S) (i : ℕ) (u : Waker)
      → AllFresh poll_future id cs (all_spawned futures)
      → let s : Crowd A S = calls poll_future id cs (all_spawned futures) in
        (s.tasks i).handle ≢ gone
        → let s : Crowd A S = calls poll_future id cs (all_spawned futures) in
          let w = task_in (call poll_future id (i, drops_task) s) i in
          let before = (s.tasks i).joint.result in
          Answered (Gave poll_future id i cs (all_spawned futures)) (id i) before w u
          × Told before w.woken
  unfolding spawned Joint.new
  drop_answers cs futures i u f e =
      let s : Crowd A S = calls poll_future id cs (all_spawned futures) in
      let fresh = all_spawned-AllValid futures in
      let v = calls-AllValid poll_future id cs (all_spawned futures) f fresh in
      let before = (s.tasks i).joint.result in
      let given : before ≡ JoinResult.joined → Gave poll_future id i cs (all_spawned futures) = λ h.
        elim (calls-joined poll_future id cs (all_spawned futures) i f fresh h) [
          | inl never ↦ absurd (cc)
          | inr gave ↦ gave
        ] in
      subst
        (λ w.
          Answered (Gave poll_future id i cs (all_spawned futures)) (id i) before w u
          × Told before w.woken)
        (sym (call_own poll_future id v i drops_task tt))
        (drops-Answered poll_future (id i) (task_in s i) u (v.valid i) e given)
