-- ===== src/Cancellation/Invariant/CancelSteps.antt =====
-- The accesses of the cancel handles keep the invariant.
use spawns.Prelude.{
  ℕ, ◌≡◌, ◌≢◌, refl, inl, inr, ◌∷◌, none, some, arith, ◌==◌, Bool-cases, Option-cases,
}
use spawns.Joint.{Waker}
use spawns.Cancellation.{Slot, null, cancelled, ptr, set_at, free}
use spawns.Cancellation.Protocol.{
  exchanged, Memory, current, CancelPc, TaskPc, cancel_step, wake_found,
}
use spawns.Cancellation.Ownership.{
  Owner, nobody, handle, held, took, move-Owns, cancel_null-Owns, take-Owns, wake-Owns,
}
use spawns.Cancellation.Invariant.{exchanged_won, Scheduled, stored, woken, waking, Due, Armed, Inv}

-- A handle that wakes nobody moves.
Scheduled-move :
    (w : Waker) (pcs : ℕ → CancelPc) (m : Memory) (k : ℕ) (pc : CancelPc)
    → took (pcs k) ≡ none
    → Scheduled w pcs m
    → Scheduled w (set_at pcs k pc) m
Scheduled-move w pcs m k pc e (stored b p q) = stored b p q
Scheduled-move w pcs m k pc e (woken p q) = woken p q
Scheduled-move w pcs m k pc e (waking i b p q r) = waking i b p (ground arith) r

Due-move :
    (t : TaskPc) (pcs : ℕ → CancelPc) (m : Memory) (k : ℕ) (pc : CancelPc)
    → took (pcs k) ≡ none
    → Due t pcs m
    → Due t (set_at pcs k pc) m
Due-move (TaskPc.parked w _) pcs m k pc e d = Scheduled-move w pcs m k pc e d
Due-move _ pcs m k pc e d = tt

module _ {t : TaskPc} {pcs : ℕ → CancelPc} {m : Memory} {own : ℕ → Owner} (inv : Inv t pcs m own)
    (k : ℕ) where
  pub move-Inv :
      (pc : CancelPc)
      → took (pcs k) ≡ none
      → took pc ≡ none
      → pc ≢ CancelPc.dangling
      → Inv t (set_at pcs k pc) m own
  move-Inv pc e f g = record {
    final = inv.final;
    owns = move-Owns inv.owns k pc (ground arith);
    safe = λ i. ground (arith, inv.safe i);
    armed = inv.armed;
    due = Due-move t pcs m k pc e inv.due;
  }

  -- `CANCELLED` in place of null.
  null-Inv :
      current m.slots ≡ null
      → took (pcs k) ≡ none
      → Inv t (set_at pcs k CancelPc.idle) (record m { slots = cancelled ∷ m.slots }) own
  null-Inv e f = record {
    final = λ _. refl;
    owns = cancel_null-Owns inv.owns k CancelPc.idle e refl f;
    safe = λ i. ground (arith, inv.safe i);
    armed = inv.armed;
    due = due-null t inv.due;
  }
    where
      scheduled-null :
          (w : Waker)
          → Scheduled w pcs m
          → Scheduled w (set_at pcs k CancelPc.idle) (record m { slots = cancelled ∷ m.slots })
      scheduled-null w (stored b p q) = absurd (cc)
      scheduled-null w (woken p q) = absurd (cc)
      scheduled-null w (waking i b p q r) = absurd (cc)

      due-null :
          (u : TaskPc)
          → Due u pcs m
          → Due u (set_at pcs k CancelPc.idle) (record m { slots = cancelled ∷ m.slots })
      due-null (TaskPc.parked w _) d = scheduled-null w d
      due-null _ d = tt

  -- `CANCELLED` in place of a box.
  take-Inv :
      (c : ℕ)
      → current m.slots ≡ ptr c
      → took (pcs k) ≡ none
      → Inv t
          (set_at pcs k (CancelPc.waking c))
          (record m { slots = cancelled ∷ m.slots })
          (set_at own c (handle k))
  take-Inv c e f = record {
    final = λ _. refl;
    owns = take-Owns inv.owns k c e f;
    safe = λ i. ground (arith, inv.safe i);
    armed = inv.armed;
    due = due-take t inv.due;
  }
    where
      scheduled-take :
          (w : Waker)
          → Scheduled w pcs m
          → Scheduled w
              (set_at pcs k (CancelPc.waking c))
              (record m { slots = cancelled ∷ m.slots })
      scheduled-take w (stored b p q) = waking k c refl (ground arith) (ground arith)
      scheduled-take w (woken p q) = absurd (cc)
      scheduled-take w (waking i b p q r) = absurd (cc)

      due-take :
          (u : TaskPc)
          → Due u pcs m
          → Due u (set_at pcs k (CancelPc.waking c)) (record m { slots = cancelled ∷ m.slots })
      due-take (TaskPc.parked w _) d = scheduled-take w d
      due-take _ d = tt

  -- The waker of box `c` is woken, and the box is freed.
  wake-Inv :
      (c : ℕ) (v : Waker)
      → pcs k ≡ CancelPc.waking c
      → m.boxes c ≡ some v
      → Inv t
          (set_at pcs k CancelPc.idle)
          (record m { boxes = free c m.boxes; woken = v ∷ m.woken })
          (set_at own c nobody)
  wake-Inv c v e f = record {
    final = inv.final;
    owns = wake-Owns inv.owns k c (ground arith);
    safe = λ i. ground (arith, inv.safe i);
    armed = armed-wake t inv.armed (λ b. λ h. (inv.owns k b).of_task h);
    due = due-wake t inv.due;
  }
    where
      mine : own c ≡ handle k
      mine = (inv.owns k c).of_handle (ground arith)

      armed-wake :
          (u : TaskPc)
          → Armed u m.boxes
          → ((b : ℕ) → held u ≡ some b → own b ≡ Owner.task)
          → Armed u (free c m.boxes)
      armed-wake (TaskPc.loading w b) a h = ground (arith, h b refl, mine)
      armed-wake (TaskPc.trying w b cur) a h = ground (arith, h b refl, mine)
      armed-wake _ a h = tt

      scheduled-wake :
          (w : Waker)
          → Scheduled w pcs m
          → Scheduled w
              (set_at pcs k CancelPc.idle)
              (record m { boxes = free c m.boxes; woken = v ∷ m.woken })
      scheduled-wake w (stored b p q) = stored b p (ground (arith, (inv.owns k b).of_slot p, mine))
      scheduled-wake w (woken p q) = woken p (inr q)
      scheduled-wake w (waking i b p q r) = elim (Bool-cases (c == b)) [
        | inl same ↦ woken p (inl (ground arith))
        | inr other ↦ waking i b p (ground arith) (ground arith)
      ]

      due-wake :
          (u : TaskPc)
          → Due u pcs m
          → Due u
              (set_at pcs k CancelPc.idle)
              (record m { boxes = free c m.boxes; woken = v ∷ m.woken })
      due-wake (TaskPc.parked w _) d = scheduled-wake w d
      due-wake _ d = tt

-- The invariant for some owners of the boxes.
abbrev pub SomeInv : TaskPc → (ℕ → CancelPc) → Memory → Type 0
SomeInv t pcs m = (own : ℕ → Owner) × Inv t pcs m own

module _ {t : TaskPc} {pcs : ℕ → CancelPc} {m : Memory} {own : ℕ → Owner} (inv : Inv t pcs m own)
    (k : ℕ) (seen : Slot) where
  abbrev After : CancelPc → Type 0
  After pc = SomeInv t (set_at pcs k (cancel_step seen pc m).0) (cancel_step seen pc m).1

  -- The compare-exchange of `cancel`.
  trying-Inv : (cur : Slot) → pcs k ≡ CancelPc.trying cur → After (CancelPc.trying cur)
  unfolding cancel_step
  trying-Inv cancelled e = (own, move-Inv inv k CancelPc.idle (ground arith) refl (λ x. cc))
  trying-Inv null e = elim (Option-cases (exchanged seen null m.slots)) [
    | inl won ↦ rw won (own, null-Inv inv k (exchanged_won seen null m.slots won) (ground arith))
    | inr (newer, lost) ↦ rw lost (own, move-Inv inv k _ (ground arith) refl (λ x. cc))
  ]
  trying-Inv (ptr c) e = elim (Option-cases (exchanged seen (ptr c) m.slots)) [
    | inl won ↦ rw won (
      set_at own c (handle k),
      take-Inv inv k c (exchanged_won seen (ptr c) m.slots won) (ground arith),
    )
    | inr (newer, lost) ↦ rw lost (own, move-Inv inv k _ (ground arith) refl (λ x. cc))
  ]

  waking-Inv : (c : ℕ) → pcs k ≡ CancelPc.waking c → After (CancelPc.waking c)
  unfolding cancel_step
  waking-Inv c e = elim (Option-cases (m.boxes c)) [
    | inl dead ↦ absurd (ground (arith, inv.owns k c))
    | inr (w, live) ↦ rw (live, wake_found) (set_at own c nobody, wake-Inv inv k c w e live)
  ]

  -- Whatever a handle does next inside `cancel`, and whatever its load of the pointer sees.
  pub cancel_step-Inv : (pc : CancelPc) → pcs k ≡ pc → After pc
  unfolding cancel_step
  cancel_step-Inv CancelPc.gone e = (own, move-Inv inv k _ (ground arith) refl (λ x. cc))
  cancel_step-Inv CancelPc.idle e = (own, move-Inv inv k _ (ground arith) refl (λ x. cc))
  cancel_step-Inv CancelPc.loading e = (own, move-Inv inv k _ (ground arith) refl (λ x. cc))
  cancel_step-Inv (CancelPc.trying cur) e = trying-Inv cur e
  cancel_step-Inv (CancelPc.waking c) e = waking-Inv c e
  cancel_step-Inv CancelPc.dangling e = absurd (inv.safe k e)
