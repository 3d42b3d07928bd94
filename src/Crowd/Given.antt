-- ===== src/Crowd/Given.antt =====
-- Which calls on tasks gave a result to the owner of a handle: `JoinHandle`'s poll of
-- spawns-core/src/task.rs leaves the joint joined, and nothing else does.
use spawns.Prelude.{
  Bool-cases, ◌==◌, ==_iff, ℕ, ◌≡◌, ◌≢◌, refl, sym, subst, ◌∙◌, ◌⊎◌, inl, inr, List, [], ◌∷◌, ap,
  arith,
}
use spawns.Joint.{Waker, JoinResult, cancelled, TaskResult, already_joined}
use spawns.Joint
use spawns.Cancellation
use spawns.Task.{
  Attempt, Handle, World, gone, Op, polls, joins, cancels, attaches, detaches, cancels_detaching,
  drops_handle, drops_task, step, poll_handle, poll_task, cancel, attach, detach, cancel_detach,
  drop_handle, drop_task, finish,
}
use spawns.Task.Valid.{Valid}
use spawns.Task.Outcomes.{Joins, HandleOutcome, poll_handle_lem}
use spawns.Crowd.{Crowd, task_in, call, calls}
use spawns.Crowd.Apart.{AllValid}
use spawns.Crowd.Alone.{AllFresh, calls-AllValid}

module _ {A S : Type 0} (poll_future : S → Waker → S × Attempt A) (id : ℕ → ℕ) where
  -- This call is a poll of the handle of task `i` that returns its result.
  abbrev pub GaveIn : ℕ → ℕ × Op → Crowd A S → Type 0
  GaveIn i (j, joins w) s =
      (j ≡ i)
      × ((task_in s i).handle ≢ gone)
      × ((r : TaskResult A) × Joins (id i) (task_in s i) w r)
  GaveIn i (j, op) s = ⊥

  -- One of these calls is.
  abbrev pub Gave : ℕ → List (ℕ × Op) → Crowd A S → Type 0
  Gave i [] s = ⊥
  Gave i (c ∷ cs) s = GaveIn i c s ⊎ Gave i cs (call poll_future id c s)

  gone-cases : (h : Handle) → (h ≡ gone) ⊎ (h ≢ gone)
  gone-cases h = ground arith

  abbrev IsOther : Op → Type 0
  IsOther (polls _ _) = ⊥
  IsOther (joins _) = ⊥
  IsOther _ = Unit

  polls-joined :
      (n : ℕ) (x : Waker) (b : ℕ) (w : World A S)
      → Valid w
      → (step poll_future n (polls x b) w).joint.result ≡ JoinResult.joined
      → w.joint.result ≡ JoinResult.joined
  unfolding step poll_task Joint.wake Cancellation.update Cancellation.is_cancelled
  polls-joined n x b w v e = ground (arith, v.joint)

  joins_gone :
      (n : ℕ) (u : Waker) (w : World A S)
      → w.handle ≡ gone
      → (step poll_future n (joins u) w).joint ≡ w.joint
  unfolding step
  joins_gone n u w e = ground arith

  joins_held :
      (n : ℕ) (u : Waker) (w : World A S)
      → w.handle ≢ gone
      → (step poll_future n (joins u) w).joint ≡ (poll_handle n w u).0.joint
  unfolding step
  joins_held n u w e = ground arith

  joins-joined :
      (n : ℕ) (u : Waker) (w : World A S)
      → Valid w
      → (step poll_future n (joins u) w).joint.result ≡ JoinResult.joined
      → (w.joint.result ≡ JoinResult.joined)
        ⊎ ((w.handle ≢ gone) × ((r : TaskResult A) × Joins n w u r))
  joins-joined n u w v e = elim (gone-cases w.handle) [
    | inl over ↦ inl (ap (λ j. j.result) (sym (joins_gone n u w over)) ∙ e)
    | inr held ↦
        took held (ap (λ j. j.result) (sym (joins_held n u w held)) ∙ e) w.joint.result refl
          (poll_handle_lem v n u held)
  ]
    where
      took :
          w.handle ≢ gone
          → (poll_handle n w u).0.joint.result ≡ JoinResult.joined
          → (r : JoinResult A) → w.joint.result ≡ r
          → HandleOutcome n w u r
          → (w.joint.result ≡ JoinResult.joined)
            ⊎ ((w.handle ≢ gone) × ((r : TaskResult A) × Joins n w u r))
      took held f JoinResult.empty q h = absurd (cc)
      took held f (JoinResult.joining _) q h = absurd (cc)
      took held f (JoinResult.finished r) q h = inr (held, (r, h.0))
      took held f JoinResult.joined q h = inl q
      took held f JoinResult.detached q h = absurd h

  other_joined :
      (n : ℕ) (op : Op) (w : World A S)
      → Valid w
      → IsOther op
      → (step poll_future n op w).joint.result ≡ JoinResult.joined
      → w.joint.result ≡ JoinResult.joined
  unfolding step cancel drop_task finish Joint.wake drop_handle Joint.drop attach detach
      cancel_detach
  other_joined n op w v o e = ground (arith, v.joint)

  own_joined :
      (op : Op) (s : Crowd A S) (j : ℕ)
      → AllValid s
      → (step poll_future (id j) op (task_in s j)).joint.result ≡ JoinResult.joined
      → ((s.tasks j).joint.result ≡ JoinResult.joined) ⊎ GaveIn j (j, op) s
  own_joined (polls x b) s j v e = inl (polls-joined (id j) x b (task_in s j) (v.valid j) e)
  own_joined (joins u) s j v e = elim (joins-joined (id j) u (task_in s j) (v.valid j) e) [
    | inl before ↦ inl before
    | inr (held, gave) ↦ inr (refl, held, gave)
  ]
  own_joined cancels s j v e = inl (other_joined (id j) cancels (task_in s j) (v.valid j) tt e)
  own_joined attaches s j v e = inl (other_joined (id j) attaches (task_in s j) (v.valid j) tt e)
  own_joined detaches s j v e = inl (other_joined (id j) detaches (task_in s j) (v.valid j) tt e)
  own_joined cancels_detaching s j v e =
      inl (other_joined (id j) cancels_detaching (task_in s j) (v.valid j) tt e)
  own_joined drops_handle s j v e =
      inl (other_joined (id j) drops_handle (task_in s j) (v.valid j) tt e)
  own_joined drops_task s j v e =
      inl (other_joined (id j) drops_task (task_in s j) (v.valid j) tt e)

  -- A call leaves the joint of task `i` joined only if it was, or if the call gave the result.
  call-joined :
      (c : ℕ × Op) (s : Crowd A S) (i : ℕ)
      → AllValid s
      → ((call poll_future id c s).tasks i).joint.result ≡ JoinResult.joined
      → ((s.tasks i).joint.result ≡ JoinResult.joined) ⊎ GaveIn i c s
  unfolding call
  call-joined (j, op) s i v e = elim (Bool-cases (j == i)) [
    | inl same ↦
        let here : j ≡ i = (==_iff j i).0 same in
        subst (λ k. ((s.tasks k).joint.result ≡ JoinResult.joined) ⊎ GaveIn k (j, op) s) here
          (own_joined op s j v (rw same at e))
    | inr other ↦ inl (rw other at e)
  ]

  pub calls-joined :
      (cs : List (ℕ × Op)) (s : Crowd A S) (i : ℕ)
      → AllFresh poll_future id cs s
      → AllValid s
      → ((calls poll_future id cs s).tasks i).joint.result ≡ JoinResult.joined
      → ((s.tasks i).joint.result ≡ JoinResult.joined) ⊎ Gave i cs s
  unfolding calls
  calls-joined [] s i f v e = inl e
  calls-joined (c ∷ cs) s i f v e =
      elim (calls-joined cs (call poll_future id c s) i f.1
        (calls-AllValid poll_future id (c ∷ []) s (f.0, tt) v) e) [
          | inl before ↦ elim (call-joined c s i v before) [
            | inl earlier ↦ inl earlier
            | inr here ↦ inr (inl here)
          ]
          | inr later ↦ inr (inr later)
        ]
