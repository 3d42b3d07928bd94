-- ===== src/Cancellation/Invariant/TaskSteps.antt =====
-- The accesses of the task keep the invariant.
use spawns.Prelude.{
  Option-cases, ℕ, ◌≡◌, refl, inl, inr, ◌∷◌, Option, none, some, arith, Bool-cases,
}
use spawns.Joint.{Waker}
use spawns.Cancellation.{Slot, null, cancelled, ptr, slot_eq, Boxes, set_at, free}
use spawns.Cancellation.Protocol.{exchanged, Memory, current, CancelPc, TaskPc, task_step, fill}
use spawns.Cancellation.Ownership.{
  Owner, nobody, slot, task, held, alloc-Owns, refill-Owns, free-Owns, publish-Owns, swap-Owns,
}
use spawns.Cancellation.Invariant.{exchanged_won, stored, Due, Armed, Inv}
use spawns.Cancellation.Invariant.CancelSteps.{SomeInv}

module _ {t : TaskPc} {pcs : ℕ → CancelPc} {m : Memory} {own : ℕ → Owner}
    (inv : Inv t pcs m own) where
  -- The task moves, holds what it held, and neither parks nor has a box in hand.
  pub stay-Inv : (u : TaskPc) → held u ≡ held t → Armed u m.boxes → Due u pcs m → Inv u pcs m own
  stay-Inv u e a d = record {
    final = inv.final;
    owns = λ i b. ground (arith, inv.owns i b);
    safe = inv.safe;
    armed = a;
    due = d;
  }

  pub new-Inv :
      (w : Waker) (c : ℕ)
      → held t ≡ none
      → m.boxes c ≡ none
      → Inv (TaskPc.loading w c) pcs (fill c w m) (set_at own c task)
  new-Inv w c e f = record {
    final = inv.final;
    owns = alloc-Owns inv.owns w c e f;
    safe = inv.safe;
    armed = ground arith;
    due = tt;
  }

  pub spare-Inv :
      (w : Waker) (c : ℕ) → held t ≡ some c → Inv (TaskPc.loading w c) pcs (fill c w m) own
  spare-Inv w c e = record {
    final = inv.final;
    owns = λ i b. ground (arith, refill-Owns inv.owns w c e i b);
    safe = inv.safe;
    armed = ground arith;
    due = tt;
  }

  pub free-Inv :
      (c : ℕ) (u : TaskPc)
      → held t ≡ some c
      → held u ≡ none
      → ((boxes : Boxes) → Armed u boxes)
      → ((m' : Memory) → Due u pcs m')
      → Inv u pcs (record m { boxes = free c m.boxes }) (set_at own c nobody)
  free-Inv c u e f a d = record {
    final = inv.final;
    owns = λ i b. ground (arith, free-Owns inv.owns c e i b);
    safe = inv.safe;
    armed = a _;
    due = d _;
  }

  -- The compare-exchange of `update` on null, and on the box of an earlier poll.
  pub publish-Inv :
      (w : Waker) (c : ℕ)
      → held t ≡ some c
      → m.boxes c ≡ some w
      → current m.slots ≡ null
      → Inv (TaskPc.parked w none) pcs (record m { slots = ptr c ∷ m.slots }) (set_at own c slot)
  publish-Inv w c e f g = record {
    final = λ i. elim i [ inl x ↦ absurd (cc) | inr j ↦ absurd (cc (inv.final j)) ];
    owns = publish-Owns inv.owns c e g;
    safe = inv.safe;
    armed = tt;
    due = stored c refl f;
  }

  pub swap-Inv :
      (w : Waker) (c d : ℕ)
      → held t ≡ some c
      → m.boxes c ≡ some w
      → current m.slots ≡ ptr d
      → Inv
          (TaskPc.parked w (some d))
          pcs
          (record m { slots = ptr c ∷ m.slots })
          (set_at (set_at own d task) c slot)
  swap-Inv w c d e f g = record {
    final = λ i. elim i [ inl x ↦ absurd (cc) | inr j ↦ absurd (cc (inv.final j)) ];
    owns = swap-Owns inv.owns c d e g;
    safe = inv.safe;
    armed = tt;
    due = stored c refl f;
  }

abbrev After : Slot → (ℕ → CancelPc) → Memory → TaskPc → Type 0
After seen pcs m t = SomeInv (task_step seen t m).0 pcs (task_step seen t m).1

module _ (seen : Slot) {pcs : ℕ → CancelPc} {m : Memory} {own : ℕ → Owner} where
  checking-Inv :
      (spare : Option ℕ)
      → Inv (TaskPc.checking spare) pcs m own
      → After seen pcs m (TaskPc.checking spare)
  unfolding task_step
  checking-Inv spare inv = elim (Bool-cases (slot_eq seen cancelled)) [
    | inl hit ↦ rw hit (own, stay-Inv inv (TaskPc.finished spare) refl tt tt)
    | inr miss ↦ rw miss (own, stay-Inv inv (TaskPc.polling spare) refl tt tt)
  ]

  -- The compare-exchange of `update`.
  trying-Inv :
      (w : Waker) (c : ℕ) (cur : Slot)
      → Inv (TaskPc.trying w c cur) pcs m own
      → After seen pcs m (TaskPc.trying w c cur)
  unfolding task_step
  trying-Inv w c cancelled inv =
      (set_at own c nobody, free-Inv inv c (TaskPc.finished none) refl refl (λ _. tt) (λ _. tt))
  trying-Inv w c null inv = elim (Option-cases (exchanged seen null m.slots)) [
    | inl won ↦ rw won (
      set_at own c slot,
      publish-Inv inv w c refl inv.armed (exchanged_won seen null m.slots won),
    )
    | inr (newer, lost) ↦ rw lost (own, stay-Inv inv (TaskPc.trying w c _) refl inv.armed tt)
  ]
  trying-Inv w c (ptr d) inv = elim (Option-cases (exchanged seen (ptr d) m.slots)) [
    | inl won ↦ rw won (
      set_at (set_at own d task) c slot,
      swap-Inv inv w c d refl inv.armed (exchanged_won seen (ptr d) m.slots won),
    )
    | inr (newer, lost) ↦ rw lost (own, stay-Inv inv (TaskPc.trying w c _) refl inv.armed tt)
  ]

  -- Whatever the task does next, and whatever its load of the pointer sees.
  pub task_step-Inv : (t : TaskPc) → Inv t pcs m own → After seen pcs m t
  unfolding task_step
  task_step-Inv (TaskPc.checking spare) inv = checking-Inv spare inv
  task_step-Inv (TaskPc.loading w c) inv =
      (own, stay-Inv inv (TaskPc.trying w c seen) refl inv.armed tt)
  task_step-Inv (TaskPc.trying w c cur) inv = trying-Inv w c cur inv
  task_step-Inv TaskPc.fresh inv = (own, inv)
  task_step-Inv (TaskPc.parked w spare) inv = (own, inv)
  task_step-Inv (TaskPc.polling spare) inv = (own, inv)
  task_step-Inv (TaskPc.finished spare) inv = (own, inv)
  task_step-Inv TaskPc.dropped inv = (own, inv)
