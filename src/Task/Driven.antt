-- ===== src/Task/Driven.antt =====
-- spawns-core/src/task.rs: a task that an executor polls until it is over, beside the user's future
-- with nothing around it.
use spawns.Prelude.{
  subst, sym, ◌∙◌, ◌⊎◌, ℕ, ◌≡◌, ◌≢◌, refl, true, List, [], ◌∷◌, Option, none, some, ok, err,
  returns, pending, Option-cases, inl, inr, arith,
}
use spawns.Joint.{Waker, TaskResult, panic}
use spawns.Joint
use spawns.Cancellation.{Slot}
use spawns.Cancellation
use spawns.Task.{
  Attempt, still_pending, completed, unwound, gone, World, Op, polls, run, step, poll_task,
  poll_handle,
}
use spawns.Task.Valid.{Valid, step-Valid, AreFresh}
use spawns.Task.Outcomes.{result_of, verdict, Joins, poll_ends}

-- The polls of an executor: the waker of each, and where its new box would go.
abbrev pub polling : List (Waker × ℕ) → List Op
polling [] = []
polling ((w, b) ∷ ps) = polls w b ∷ polling ps

module _ {A S : Type 0} (poll_future : S → Waker → S × Attempt A) where
  -- What the future alone ends with, polled with these wakers until it does.
  unfoldable pub alone : List (Waker × ℕ) → S → Option (TaskResult A)
  alone [] future = none
  alone ((w, b) ∷ ps) future =
      let later = alone ps (poll_future future w).0 in
      elim (poll_future future w).1 [
        | still_pending ↦ later
        | completed value ↦ some (ok value)
        | unwound payload ↦ some (err (panic payload))
      ]

  -- Where a task stands whose future alone has come to this.
  abbrev pub Stands : ℕ → World A S → Waker → Option (TaskResult A) → Type 0
  Stands id s u (some r) = (s.task.future ≡ none) × Joins id s u r
  Stands id s u none = (s.task.future ≢ none) × ((poll_handle id s u).1 ≡ returns pending)

  alone_pending :
      (w : Waker) (b : ℕ) (ps : List (Waker × ℕ)) (future : S)
      → (poll_future future w).1 ≡ still_pending
      → alone ((w, b) ∷ ps) future ≡ alone ps (poll_future future w).0
  unfolding alone
  alone_pending w b ps future e = ground arith

  alone_ends :
      (w : Waker) (b : ℕ) (ps : List (Waker × ℕ)) (future : S) (r : TaskResult A)
      → result_of (poll_future future w).1 ≡ some r
      → alone ((w, b) ∷ ps) future ≡ some r
  unfolding alone
  alone_ends w b ps future r e = ground arith

  pending_lem : (attempt : Attempt A) → result_of attempt ≡ none → attempt ≡ still_pending
  pending_lem attempt e = ground arith

  -- With its first poll the future is pending, or it ends there.
  alone-cases :
      (w : Waker) (b : ℕ) (ps : List (Waker × ℕ)) (future : S)
      → ((poll_future future w).1 ≡ still_pending)
        ⊎ ((r : TaskResult A) × (result_of (poll_future future w).1 ≡ some r)
            × (alone ((w, b) ∷ ps) future ≡ some r))
  alone-cases w b ps future = elim (Option-cases (result_of (poll_future future w).1)) [
    | inl e ↦ inl (pending_lem _ e)
    | inr (r, e) ↦ inr (r, e, alone_ends w b ps future r e)
  ]

  module _ (id : ℕ) (u : Waker) where
    step_over :
        (w : Waker) (b : ℕ) (s : World A S)
        → s.task.future ≡ none
        → step poll_future id (polls w b) s ≡ s
    unfolding step poll_task
    step_over w b s e = ground arith

    step_alive :
        (w : Waker) (b : ℕ) (s : World A S)
        → s.alive ≡ true
        → step poll_future id (polls w b) s ≡ (poll_task poll_future s w b).0
    unfolding step
    step_alive w b s e = ground arith

    -- A task that is over stays as it is.
    run_over :
        (ps : List (Waker × ℕ)) (s : World A S)
        → s.task.future ≡ none
        → run poll_future id (polling ps) s ≡ s
    unfolding run
    run_over [] s e = refl
    run_over ((w, b) ∷ ps) s e =
        subst (λ t. run poll_future id (polling ps) t ≡ s) (sym (step_over w b s e))
          (run_over ps s e)

    -- A poll that is pending.
    pends :
        (s : World A S) (w : Waker) (b : ℕ) (future : S)
        → Valid s
        → s.alive ≡ true
        → s.slot ≢ Slot.cancelled
        → s.task.future ≡ some future
        → (poll_future future w).1 ≡ still_pending
        → let t = step poll_future id (polls w b) s in
          (t.alive ≡ true)
          × (t.slot ≢ Slot.cancelled)
          × (t.handle ≡ s.handle)
          × (t.task.future ≡ some (poll_future future w).0)
    unfolding step poll_task Cancellation.is_cancelled Cancellation.update
    pends s w b future v a c e f = ground arith

    verdict_lem :
        (slot : Slot) (attempt : Attempt A) (r : TaskResult A)
        → slot ≢ Slot.cancelled
        → result_of attempt ≡ some r
        → verdict slot attempt ≡ some r
    verdict_lem slot attempt r c e = ground arith

    handle_waits :
        (s : World A S)
        → Valid s
        → s.task.future ≢ none
        → s.handle ≢ gone
        → (poll_handle id s u).1 ≡ returns pending
    unfolding poll_handle Joint.poll
    handle_waits s v e f = ground arith

    -- The task around a future adds nothing but the end. A well-formed task that is not cancelled, whose
    -- handle is held, and that an executor polls with any wakers, each new box at a free address, is
    -- over once its future, polled alone with the same wakers, would be, and the next poll of the
    -- handle gives what the future came to, a value or a panic; until then the task has its future
    -- and a poll of the handle is pending. Polls after the end change nothing.
    pub driven_as_alone :
        (ps : List (Waker × ℕ)) (s : World A S) (future : S)
        → Valid s
        → s.alive ≡ true
        → s.slot ≢ Slot.cancelled
        → s.handle ≢ gone
        → s.task.future ≡ some future
        → AreFresh poll_future id (polling ps) s
        → Stands id (run poll_future id (polling ps) s) u (alone ps future)
    unfolding run alone
    driven_as_alone [] s future v a c h e f = ((λ x. cc), handle_waits s v (λ x. cc) h)
    driven_as_alone ((w, b) ∷ ps) s future v a c h e f = elim (alone-cases w b ps future) [
      | inl waits ↦
          let (alive, kept, same, rest) = pends s w b future v a c e waits in
          subst (Stands id (run poll_future id (polling ((w, b) ∷ ps)) s) u)
            (sym (alone_pending w b ps future waits))
            (driven_as_alone ps _ _ (step-Valid poll_future id (polls w b) s f.0 v) alive kept
              (λ x. h (sym same ∙ x)) rest f.1)
      | inr (r, ends, is) ↦
          let (_, over, joins) =
            poll_ends poll_future v id w u b future r e (verdict_lem s.slot _ r c ends) h in
          subst (Stands id (run poll_future id (polling ((w, b) ∷ ps)) s) u) (sym is) (
            subst (λ t. Stands id (run poll_future id (polling ps) t) u (some r))
              (sym (step_alive w b s a))
              (subst (λ t. Stands id t u (some r)) (sym (run_over ps _ over)) (over, joins)))
    ]
