-- ===== src/Lifecycle/Progress.antt =====
-- Nobody is stuck: what a task of spawns-core/src/task.rs and the owner of its handle can still do, from
-- any state that all threads reach together.
use spawns.Prelude.{
  subst, ap, ◌≡◌, refl, sym, ◌∙◌, inl, inr, Bool-cases, true, false, [], ◌∷◌, Option, some, Result,
  ℕ,
}
use spawns.Joint.{Waker, Payload}
use spawns.Joint.Protocol as J
use spawns.Joint.Progress.{Runs, stop, then, IsExpecting, delivers}
use spawns.Cancellation.{Slot}
use spawns.Cancellation.Protocol as C
use spawns.Cancellation.Protocol.{
  Memory, CancelPc, TaskPc, current, cancel_step, task_step, exchanged, free_spare, wake_found,
  tasks,
}
use spawns.Cancellation.Latest.{has_current, looked, tried, parked-cases}
use spawns.Cancellation.Safety.{is_parked}
use spawns.Cancellation.Seen.{is_over}
use spawns.Lifecycle.{
  Cause, value_of, System, Step, Reach, later, goes, ends, joins, cause_at, finishes,
}
use spawns.Lifecycle.Ends.{caused}
use spawns.Lifecycle.Coupling.{Reach-Good}

module _ {A : Type 0} where
  pub data Leads (s : System A) : System A → Type 0 where
    still : Leads s s
    onward : {t u : System A} → Leads s t → Step t u → Leads s u

  before : {s t u : System A} → Step s t → Leads t u → Leads s u
  before st still = onward still st
  before st (onward l last) = onward (before st l) last

  Leads-Reach : {s t : System A} → Reach s → Leads s t → Reach t
  Leads-Reach r still = r
  Leads-Reach r (onward l st) = later (Leads-Reach r l) st

  -- Steps of the task lead to its end.
  abbrev Ends : System A → Type 0
  Ends s =
      (t : System A) × Leads s t
      × (is_over t.cancellation.task ≡ true)
      × (t.joint.handle ≡ s.joint.handle)
      × (t.joint.delivered ≡ s.joint.delivered)

  -- A step of the task ends it, or leads to a state from which others do.
  by_step :
      (s : System A) {c : C.System} (given : Result A Payload)
      → C.Step s.cancellation c
      → is_over s.cancellation.task ≡ false
      → (is_over c.task ≡ false → Ends (record s { cancellation = c }))
      → Ends s
  by_step s {c} given st e more = elim (Bool-cases (is_over c.task)) [
    | inl over ↦ (
      finishes c (cause_at s.cancellation.task given) s,
      onward still (ends given st e over),
      over,
      refl,
      refl,
    )
    | inr on ↦ let (t, l, o, h, d) = more on in (t, before (goes st (on ∙ sym e)) l, o, h, d)
  ]

  module _ (given : Result A Payload) where
    drop_parked :
        (s : System A) (w : Waker) (p : Option ℕ) → s.cancellation.task ≡ TaskPc.parked w p → Ends s
    drop_parked s w p e = by_step s given (C.drop_parked w p e) (rw e refl) (λ x. absurd (cc))

    -- The future's poll gives what is given.
    end_poll : (s : System A) (p : Option ℕ) → s.cancellation.task ≡ TaskPc.polling p → Ends s
    end_poll s p e = by_step s given (C.ends p e) (rw e refl) (λ x. absurd (cc))

    abbrev on_current : C.System → C.System
    on_current c = tasks (current c.slots) c

    end_parked : (s : System A) → is_parked s.cancellation.task ≡ true → Ends s
    end_parked s e = let (w, p, f) = parked-cases s.cancellation.task e in drop_parked s w p f

    module _ (s : System A) (r : C.Reach s.cancellation) where
      access : C.Step s.cancellation (on_current s.cancellation)
      access = C.task_on (current s.cancellation.slots) (has_current r)

      -- The exchange expects what the pointer holds, and succeeds.
      end_matching :
          (w : Waker) (b : ℕ)
          → s.cancellation.task ≡ TaskPc.trying w b (current s.cancellation.slots)
          → Ends s
      end_matching w b e = by_step s given access (rw e refl) (λ on.
          elim (tried s.cancellation.memory s.cancellation.task w b _ e on) [
            | inl parked ↦ end_parked _ parked
            | inr (again, other) ↦ absurd (other refl)
          ])

      end_checking : (p : Option ℕ) → s.cancellation.task ≡ TaskPc.checking p → Ends s
      end_checking p e =
          by_step s given access (rw e refl)
            (λ on. end_poll _ p (looked s.cancellation.memory s.cancellation.task p e on))

    end_trying :
        (s : System A)
        → C.Reach s.cancellation
        → (w : Waker) (b : ℕ) (cur : Slot) → s.cancellation.task ≡ TaskPc.trying w b cur
        → Ends s
    end_trying s r w b cur e = by_step s given (access s r) (rw e refl) (λ on.
        elim (tried s.cancellation.memory s.cancellation.task w b cur e on) [
          | inl parked ↦ end_parked _ parked
          | inr (again, other) ↦ end_matching _ (C.later r (access s r)) w b again
        ])

    end_loading :
        (s : System A)
        → C.Reach s.cancellation
        → (w : Waker) (b : ℕ) → s.cancellation.task ≡ TaskPc.loading w b
        → Ends s
    unfolding task_step
    end_loading s r w b e =
        by_step s given (access s r) (rw e refl) (λ on.
          end_trying _ (C.later r (access s r)) w b (current s.cancellation.slots) (rw e refl))

    end_task :
        (s : System A) (t : TaskPc) → C.Reach s.cancellation → s.cancellation.task ≡ t → Ends s
    end_task s TaskPc.fresh r e = by_step s given (C.drop_fresh e) (rw e refl) (λ x. absurd (cc))
    end_task s (TaskPc.parked w p) r e = drop_parked s w p e
    end_task s (TaskPc.checking p) r e = end_checking s r p e
    end_task s (TaskPc.polling p) r e = end_poll s p e
    end_task s (TaskPc.loading w b) r e = end_loading s r w b e
    end_task s (TaskPc.trying w b cur) r e = end_trying s r w b cur e
    end_task s (TaskPc.finished p) r e = (s, still, rw e refl, refl, refl)
    end_task s TaskPc.dropped r e = (s, still, rw e refl, refl, refl)

  after :
      {s t : System A} {j : J.System A}
      → Leads s t
      → Runs t.joint j
      → Leads s (record t { joint = j })
  after l stop = l
  after l (then run st e) = onward (after l run) (joins st e)

  -- Nobody is stuck. From every state that the task, any number of cancel handles and the owner of the
  -- join handle reach together, in which no poll of the handle has returned a result or panicked and
  -- the handle is not being dropped, steps lead to one in which a poll has returned just the value
  -- of the task's end. A task at rest is dropped on the way, and a future that is being polled gives
  -- what is given.
  pub can_deliver :
      (given : Result A Payload) {s : System A}
      → Reach s
      → s.joint.delivered ≡ []
      → IsExpecting s.joint.handle
      → (t : System A) × Leads s t
        × ((cause : Cause A) × (t.cause ≡ some cause) × (t.joint.delivered ≡ value_of cause ∷ []))
  can_deliver given {s} r e f =
      let (t, l, over, h, d) =
        end_task given s s.cancellation.task (Reach-Good r).cancellation refl in
      let good = Reach-Good (Leads-Reach r l) in
      let (j, (_, run), (v, p, q)) =
        delivers good.joint (good.over over) (d ∙ e) (subst IsExpecting (sym h) f) in
      let (cause, x, y) = caused t.cause v (sym good.produced ∙ p) in
      (record t { joint = j }, after l run, (cause, x, q ∙ ap (λ u. u ∷ []) y))
