-- ===== src/Cancellation/Safety.antt =====
-- What the cancellation promises in every reachable state.
use spawns.Prelude.{
  ℕ, ◌≡◌, ◌≢◌, refl, ◌⊎◌, inl, inr, Option, none, some, Among, arith, Bool, true, false, Bool-cases,
  ◌==◌,
}
use spawns.Joint.{Waker}
use spawns.Cancellation.{Slot, null, cancelled, ptr, slot_eq, Boxes, set_at, free}
use spawns.Cancellation
use spawns.Cancellation.Protocol.{
  exchanged, Memory, current, CancelPc, TaskPc, System, Step, Reach, start, later, clone, release,
  cancel, cancel_on, poll_first, poll, ends, pends_new, pends_spare, task_on, drop_fresh,
  drop_parked, drop_finished, cancel_step, task_step, wake_found, free_spare, init, tasks,
}
use spawns.Cancellation.Ownership.{Owner, nobody, slot, task, handle, held, took, Owned}
use spawns.Cancellation.Invariant.{Scheduled, stored, woken, waking, Inv}
use spawns.Cancellation.Invariant.CancelSteps.{SomeInv, move-Inv, cancel_step-Inv}
use spawns.Cancellation.Invariant.TaskSteps.{stay-Inv, new-Inv, spare-Inv, free-Inv, task_step-Inv}

abbrev pub SystemInv : System → Type 0
SystemInv s = SomeInv s.task s.cancels s.memory

init-Inv : SystemInv init
init-Inv = (
  λ _. nobody,
  record {
    final = λ i. ground arith;
    owns = λ i b. ground arith;
    safe = λ i. ground arith;
    armed = tt;
    due = tt;
  },
)

drop_spare-Inv :
    {t : TaskPc} {pcs : ℕ → CancelPc} {m : Memory} {own : ℕ → Owner} (inv : Inv t pcs m own)
    (spare : Option ℕ)
    → held t ≡ spare
    → SomeInv TaskPc.dropped pcs (free_spare spare m)
drop_spare-Inv {own} inv none e = (own, stay-Inv inv TaskPc.dropped (ground arith) tt tt)
drop_spare-Inv inv (some b) e = (_, free-Inv inv b TaskPc.dropped e refl (λ _. tt) (λ _. tt))

Step-Inv : {s t : System} → Step s t → SystemInv s → SystemInv t
Step-Inv (clone i e) (own, inv) = (own, move-Inv inv i _ (ground arith) refl (λ x. cc))
Step-Inv (release i e) (own, inv) = (own, move-Inv inv i _ (ground arith) refl (λ x. cc))
Step-Inv (cancel i e) (own, inv) = (own, move-Inv inv i _ (ground arith) refl (λ x. cc))
Step-Inv {s} (cancel_on i seen a) (own, inv) = cancel_step-Inv inv i seen (s.cancels i) refl
Step-Inv (poll_first e) (own, inv) = (own, stay-Inv inv _ (ground arith) tt tt)
Step-Inv (poll w spare e) (own, inv) = (own, stay-Inv inv _ (ground arith) tt tt)
Step-Inv (ends spare e) (own, inv) = (own, stay-Inv inv _ (ground arith) tt tt)
Step-Inv (pends_new w b e f) (own, inv) = (_, new-Inv inv w b (ground arith) f)
Step-Inv (pends_spare w b e) (own, inv) = (_, spare-Inv inv w b (ground arith))
Step-Inv {s} (task_on seen a) (own, inv) = task_step-Inv seen s.task inv
Step-Inv (drop_fresh e) (own, inv) = (own, stay-Inv inv _ (ground arith) tt tt)
Step-Inv (drop_parked w spare e) (own, inv) = drop_spare-Inv inv spare (ground arith)
Step-Inv (drop_finished spare e) (own, inv) = drop_spare-Inv inv spare (ground arith)

pub Reach-Inv : {s : System} → Reach s → SystemInv s
Reach-Inv start = init-Inv
Reach-Inv (later r st) = Step-Inv st (Reach-Inv r)

dropped-frees :
    (cur : Slot) (h : Option ℕ) (pcs : ℕ → CancelPc) (boxes : Boxes) (b : ℕ) (o : Owner)
    → h ≡ none
    → ((i : ℕ) → pcs i ≡ CancelPc.gone)
    → Owned cur h pcs boxes o b
    → Cancellation.drop cur boxes b ≡ none
unfolding Cancellation.drop
dropped-frees cur h pcs boxes b nobody e f w = ground arith
dropped-frees cur h pcs boxes b slot e f w = ground arith
dropped-frees cur h pcs boxes b task e f w = absurd (cc)
dropped-frees cur h pcs boxes b (handle i) e f w = absurd (ground (arith, f i))

module _ {s : System} (r : Reach s) where
  -- A box that a handle took out has one owner: it is live when the handle turns the pointer back
  -- into it, it is not stored any more, the task does not hold it, and no other handle took it.
  pub taken_box_is_owned :
      (i j b : ℕ)
      → s.cancels i ≡ CancelPc.waking b
      → (s.boxes b ≢ none)
        × (current s.slots ≢ ptr b)
        × (held s.task ≢ some b)
        × ((j ≡ i) ⊎ (s.cancels j ≢ CancelPc.waking b))
  taken_box_is_owned i j b e =
      let (own, inv) = Reach-Inv r in
      (
        ground (arith, inv.owns i b),
        ground (arith, inv.owns i b),
        ground (arith, inv.owns i b),
        other (own b) ((inv.owns i b).of_handle (ground arith)) ((inv.owns j b).of_handle),
      )
    where
      other :
          (o : Owner)
          → o ≡ handle i
          → (took (s.cancels j) ≡ some b → o ≡ handle j)
          → (j ≡ i) ⊎ (s.cancels j ≢ CancelPc.waking b)
      other o f g = elim (Bool-cases (j == i)) [
        | inl same ↦ inl (ground arith)
        | inr differ ↦ inr (λ h. ground (arith, g))
      ]

  parked_schedule :
      (w : Waker) (spare : Option ℕ)
      → s.task ≡ TaskPc.parked w spare
      → Scheduled w s.cancels s.memory
  parked_schedule w spare e = rw e at ((Reach-Inv r).1.due)

  -- While the task is not cancelled, the waker of its last poll is the one that a cancel will find.
  parked_waker_is_stored :
      (w : Waker) (spare : Option ℕ)
      → s.task ≡ TaskPc.parked w spare
      → current s.slots ≢ cancelled
      → (b : ℕ) × (current s.slots ≡ ptr b) × (s.boxes b ≡ some w)
  parked_waker_is_stored w spare e f = elim (parked_schedule w spare e) [
    | stored b p q ↦ (b, p, q)
    | woken p q ↦ absurd (f p)
    | waking i b p q x ↦ absurd (f p)
  ]

  -- A parked task that has been cancelled has been woken, with the waker of its last poll, as soon
  -- as no handle is on its way to wake.
  pub no_lost_cancel :
      (w : Waker) (spare : Option ℕ)
      → s.task ≡ TaskPc.parked w spare
      → current s.slots ≡ cancelled
      → ((i b : ℕ) → s.cancels i ≢ CancelPc.waking b)
      → Among w s.woken
  no_lost_cancel w spare e f g = elim (parked_schedule w spare e) [
    | stored b p q ↦ absurd (cc)
    | woken p q ↦ q
    | waking i b p q x ↦ absurd (g i b q)
  ]

  -- When the task is dropped and every handle is gone, the drop of the cancellation frees the last
  -- box: none is leaked.
  pub no_leak :
      s.task ≡ TaskPc.dropped
      → ((i : ℕ) → s.cancels i ≡ CancelPc.gone)
      → (b : ℕ) → Cancellation.drop (current s.slots) s.boxes b ≡ none
  unfolding Cancellation.drop
  no_leak e f b =
      let (own, inv) = Reach-Inv r in
      dropped-frees (current s.slots) (held s.task) s.cancels s.boxes b (own b) (ground arith) f
        ((inv.owns 0 b).owned)

abbrev pub is_parked : TaskPc → Bool
is_parked (TaskPc.parked _ _) = true
is_parked _ = false

-- When the task is cancelled, the compare-exchange of its poll fails whatever it sees, and once it
-- sees the last value, the next access ends the poll with the task finished.
update_after_cancel :
    (s : System) (w : Waker) (b : ℕ) (cur x y : Slot)
    → s.task ≡ TaskPc.trying w b cur
    → current s.slots ≡ cancelled
    → (is_parked (tasks x s).task ≡ false)
      × ((tasks y (tasks cancelled s)).task ≡ TaskPc.finished none)
unfolding task_step exchanged
update_after_cancel s w b null x y e f = ground arith
update_after_cancel s w b cancelled x y e f = ground arith
update_after_cancel s w b (ptr c) x y e f = ground arith

pub cancel_step-current :
    (seen : Slot) (pc : CancelPc) (m : Memory)
    → current m.slots ≡ cancelled
    → current (cancel_step seen pc m).1.slots ≡ cancelled
unfolding cancel_step exchanged
cancel_step-current seen (CancelPc.trying cur) m e = ground arith
cancel_step-current seen (CancelPc.waking b) m e = ground (arith, wake_found)
cancel_step-current seen _ m e = e

task_step-current :
    (seen : Slot) (t : TaskPc) (m : Memory)
    → current m.slots ≡ cancelled
    → (current (task_step seen t m).1.slots ≡ cancelled)
      × ((is_parked (task_step seen t m).0 ≡ false) ⊎ ((task_step seen t m).0 ≡ t))
unfolding task_step exchanged
task_step-current seen (TaskPc.trying v b cur) m e = (ground arith, inl (ground arith))
task_step-current seen (TaskPc.checking p) m e = (e, inl (ground arith))
task_step-current seen (TaskPc.loading v b) m e = (e, inl (ground arith))
task_step-current seen _ m e = (e, inr refl)

pub spare-current :
    (spare : Option ℕ) (m : Memory)
    → current m.slots ≡ cancelled
    → current (free_spare spare m).slots ≡ cancelled
spare-current none m e = e
spare-current (some b) m e = e

-- A cancellation is for good: no step takes it back, and a step that leaves the task parked found it
-- parked so.
pub cancelled_for_good :
    {s t : System}
    → Step s t
    → current s.slots ≡ cancelled
    → (current t.slots ≡ cancelled) × ((is_parked t.task ≡ false) ⊎ (t.task ≡ s.task))
cancelled_for_good (clone i f) e = (e, inr refl)
cancelled_for_good (release i f) e = (e, inr refl)
cancelled_for_good (cancel i f) e = (e, inr refl)
cancelled_for_good {s} (cancel_on i seen a) e =
    (cancel_step-current seen (s.cancels i) s.memory e, inr refl)
cancelled_for_good (poll_first f) e = (e, inl refl)
cancelled_for_good (poll v p f) e = (e, inl refl)
cancelled_for_good (ends p f) e = (e, inl refl)
cancelled_for_good (pends_new v b f h) e = (e, inl refl)
cancelled_for_good (pends_spare v b f) e = (e, inl refl)
cancelled_for_good {s} (task_on seen a) e = task_step-current seen s.task s.memory e
cancelled_for_good (drop_fresh f) e = (e, inl refl)
cancelled_for_good {s} (drop_parked v p f) e = (spare-current p s.memory e, inl refl)
cancelled_for_good {s} (drop_finished p f) e = (spare-current p s.memory e, inl refl)
