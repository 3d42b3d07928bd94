-- ===== src/Crowd/Apart.antt =====
-- What each of many tasks (spawns-core/src/task.rs) has of the heap that they share.
use spawns.Prelude.{
  ℕ, ◌≡◌, ◌≢◌, refl, sym, subst, ap, ◌∙◌, ◌⊎◌, inl, inr, none, arith, Bool-cases, ◌==◌,
}
use spawns.Joint.{Waker}
use spawns.Cancellation.{Slot, null, ptr, Boxes, set_at}
use spawns.Cancellation
use spawns.Task.{Attempt, World, Op, step, spawned}
use spawns.Task.Valid.{Valid, IsFresh, step-Valid, spawned-Valid}
use spawns.Crowd.{Crowd, task_in, all_spawned, call}
use spawns.Crowd.Local.{Has, Has-live, Local, step-Local, other-Valid}

module _ {A S : Type 0} where
  -- Each task is well-formed on the heap, and no box is two tasks'.
  pub record AllValid (s : Crowd A S) : Type 0 where
    pub valid : (i : ℕ) → Valid (task_in s i)
    pub apart : (i j c : ℕ) → Has (s.tasks i) c → Has (s.tasks j) c → i ≡ j

  pub all_spawned-AllValid : (futures : ℕ → S) → AllValid (all_spawned futures)
  unfolding spawned Cancellation.default
  all_spawned-AllValid futures = record {
    valid = λ i. spawned-Valid (futures i);
    apart = λ i j c h k. absurd (ground arith);
  }

module _ {A S : Type 0} (poll_future : S → Waker → S × Attempt A) (id : ℕ → ℕ) where
  -- The box of a call that needs one goes to an address that is free on the whole heap.
  abbrev pub FreshIn : ℕ × Op → Crowd A S → Type 0
  FreshIn (i, op) s = IsFresh poll_future (id i) op (task_in s i)

  module _ {s : Crowd A S} (v : AllValid s) (i : ℕ) (op : Op) (f : FreshIn (i, op) s) where
    local : (c : ℕ) → Local (task_in s i) (step poll_future (id i) op (task_in s i)) c
    local c = step-Local poll_future (id i) op (task_in s i) c f

    -- The boxes of every other task are as they were.
    unharmed :
        (j c : ℕ)
        → i ≢ j
        → Has (s.tasks j) c
        → (step poll_future (id i) op (task_in s i)).boxes c ≡ s.heap c
    unharmed j c e h = (local c).stays (Has-live (v.valid j) c h) (λ k. e (v.apart i j c k h))

    moved : World A S
    moved = step poll_future (id i) op (task_in s i)

    at_same : {j : ℕ} → i ≡ j → set_at s.tasks i moved j ≡ moved
    at_same e = ground (arith, e)

    at_other : {j : ℕ} → i ≢ j → set_at s.tasks i moved j ≡ s.tasks j
    at_other e = ground (arith, e)

    call-Valid : (j : ℕ) → Valid (record (set_at s.tasks i moved j) { boxes = moved.boxes })
    unfolding moved
    call-Valid j = elim (Bool-cases (i == j)) [
      | inl e ↦
          subst (λ w. Valid (record w { boxes = moved.boxes })) (sym (at_same (ground (arith, e))))
            (step-Valid poll_future (id i) op (task_in s i) f (v.valid i))
      | inr e ↦
          subst (λ w. Valid (record w { boxes = moved.boxes })) (sym (at_other (ground (arith, e))))
            (other-Valid moved.boxes (v.valid j) (λ c h. unharmed j c (ground (arith, e)) h))
    ]

    -- A box of a task after the call is one that it had, or a new one of the task that is called.
    whose :
        (j c : ℕ)
        → Has (set_at s.tasks i moved j) c
        → Has (s.tasks j) c ⊎ ((i ≡ j) × (s.heap c ≡ none))
    unfolding moved
    whose j c h = elim (Bool-cases (i == j)) [
      | inl e ↦ ground (arith, e, (local c).had, h)
      | inr e ↦ inl (subst (λ w. Has w c) (at_other (ground (arith, e))) h)
    ]

    call-apart :
        (j k c : ℕ) → Has (set_at s.tasks i moved j) c → Has (set_at s.tasks i moved k) c → j ≡ k
    call-apart j k c g h = elim (whose j c g) [
      | inl a ↦ elim (whose k c h) [
        | inl b ↦ v.apart j k c a b
        | inr (e, dead) ↦ absurd (Has-live (v.valid j) c a dead)
      ]
      | inr (d, dead) ↦ elim (whose k c h) [
        | inl b ↦ absurd (Has-live (v.valid k) c b dead)
        | inr (e, _) ↦ sym d ∙ e
      ]
    ]

    pub call-AllValid : AllValid (call poll_future id (i, op) s)
    unfolding call moved
    call-AllValid = record { valid = call-Valid; apart = call-apart }

    -- A call on one task leaves every other task as it was, with the contents of its boxes.
    pub call_other :
        (j c : ℕ)
        → i ≢ j
        → ((call poll_future id (i, op) s).tasks j ≡ s.tasks j)
          × (Has (s.tasks j) c → (call poll_future id (i, op) s).heap c ≡ s.heap c)
    unfolding call moved
    call_other j c e = (at_other e, unharmed j c e)

    -- A call on a task does to it what it does on the heap alone.
    pub call_own :
        task_in (call poll_future id (i, op) s) i ≡ step poll_future (id i) op (task_in s i)
    unfolding call moved
    call_own = ap (λ (w : World A S). record w { boxes = moved.boxes }) (at_same refl)
