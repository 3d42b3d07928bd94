-- ===== src/Cancellation/Once.antt =====
-- All cancel handles together wake at most one waker.
use spawns.Prelude.{
  ℕ, ◌≤◌, ◌≡◌, ◌≢◌, refl, ◌⊎◌, inl, inr, List, [], ◌∷◌, Option, none, some, arith, length,
  Option-cases,
}
use spawns.Joint.{Waker}
use spawns.Cancellation.{Slot, null, cancelled, ptr, Boxes, set_at, free}
use spawns.Cancellation.Protocol.{
  exchanged, Memory, current, CancelPc, TaskPc, System, Step, Reach, start, later, clone, release,
  cancel, cancel_on, poll_first, poll, ends, pends_new, pends_spare, task_on, drop_fresh,
  drop_parked, drop_finished, cancel_step, task_step, wake_found, free_spare,
}
use spawns.Cancellation.Ownership.{took}
use spawns.Cancellation.Invariant.{exchanged_won}

-- Before the cancellation nobody has been woken and nobody is about to be.
abbrev pub Quiet : Slot → Option ℕ → List Waker → Type 0
Quiet cancelled o ws = Unit
Quiet null o ws = (ws ≡ []) × (o ≡ none)
Quiet (ptr b) o ws = (ws ≡ []) × (o ≡ none)

pub record OnceAt (pcs : ℕ → CancelPc) (m : Memory) (i j : ℕ) : Type 0 where
  pub quiet : Quiet (current m.slots) (took (pcs i)) m.woken
  pub one : length m.woken ≤ 1
  pub busy : took (pcs i) ≢ none → m.woken ≡ []
  pub only : took (pcs i) ≢ none → took (pcs j) ≢ none → i ≡ j

abbrev pub Once : (ℕ → CancelPc) → Memory → Type 0
Once pcs m = (i j : ℕ) → OnceAt pcs m i j

-- A handle that holds no box moves.
move-Once :
    (pcs : ℕ → CancelPc) (m : Memory) (k : ℕ) (pc : CancelPc)
    → Once pcs m
    → took pc ≡ none
    → Once (set_at pcs k pc) m
move-Once pcs m k pc inv e i j = ground (arith, inv i j)

swap-Once :
    (pcs : ℕ → CancelPc) (m : Memory) (k : ℕ) (pc : CancelPc)
    → Once pcs m
    → current m.slots ≢ cancelled
    → Once (set_at pcs k pc) (record m { slots = cancelled ∷ m.slots })
swap-Once pcs m k pc inv e i j = ground (arith, inv i j, inv i i, inv j j)

wake-Once :
    (pcs : ℕ → CancelPc) (m : Memory) (k c : ℕ) (w : Waker)
    → Once pcs m
    → pcs k ≡ CancelPc.waking c
    → Once (set_at pcs k CancelPc.idle) (record m { boxes = free c m.boxes; woken = w ∷ m.woken })
wake-Once pcs m k c w inv e i j = ground (arith, inv i j, inv k i, inv k j, inv k k)

-- The task stores a box, or nothing, in place of what is not `CANCELLED`.
store-Once :
    (pcs : ℕ → CancelPc) (m : Memory) (b : ℕ)
    → Once pcs m
    → current m.slots ≢ cancelled
    → Once pcs (record m { slots = ptr b ∷ m.slots })
store-Once pcs m b inv e i j = ground (arith, inv i j)

cancel_step-Once :
    (pcs : ℕ → CancelPc) (m : Memory) (k : ℕ) (seen : Slot) (pc : CancelPc)
    → pcs k ≡ pc
    → Once pcs m
    → Once (set_at pcs k (cancel_step seen pc m).0) (cancel_step seen pc m).1
unfolding cancel_step
cancel_step-Once pcs m k seen CancelPc.loading e inv = move-Once pcs m k _ inv refl
cancel_step-Once pcs m k seen (CancelPc.trying cancelled) e inv = move-Once pcs m k _ inv refl
cancel_step-Once pcs m k seen (CancelPc.trying null) e inv =
    elim (Option-cases (exchanged seen null m.slots)) [
      | inl won ↦ rw won (swap-Once pcs m k _ inv (λ x. cc (exchanged_won seen null m.slots won)))
      | inr (newer, lost) ↦ rw lost (move-Once pcs m k _ inv refl)
    ]
cancel_step-Once pcs m k seen (CancelPc.trying (ptr c)) e inv =
    elim (Option-cases (exchanged seen (ptr c) m.slots)) [
      | inl won ↦
          rw won (swap-Once pcs m k _ inv (λ x. cc (exchanged_won seen (ptr c) m.slots won)))
      | inr (newer, lost) ↦ rw lost (move-Once pcs m k _ inv refl)
    ]
cancel_step-Once pcs m k seen (CancelPc.waking c) e inv = elim (Option-cases (m.boxes c)) [
  | inl dead ↦ rw (dead, wake_found) (move-Once pcs m k _ inv refl)
  | inr (w, live) ↦ rw (live, wake_found) (wake-Once pcs m k c w inv e)
]
cancel_step-Once pcs m k seen CancelPc.gone e inv = move-Once pcs m k _ inv refl
cancel_step-Once pcs m k seen CancelPc.idle e inv = move-Once pcs m k _ inv refl
cancel_step-Once pcs m k seen CancelPc.dangling e inv = move-Once pcs m k _ inv refl

task_step-Once :
    (pcs : ℕ → CancelPc) (m : Memory) (seen : Slot) (t : TaskPc)
    → Once pcs m
    → Once pcs (task_step seen t m).1
unfolding task_step
task_step-Once pcs m seen (TaskPc.trying w b cancelled) inv = λ i j. ground (arith, inv i j)
task_step-Once pcs m seen (TaskPc.trying w b null) inv =
    elim (Option-cases (exchanged seen null m.slots)) [
      | inl won ↦ rw won (store-Once pcs m b inv (λ x. cc (exchanged_won seen null m.slots won)))
      | inr (newer, lost) ↦ rw lost inv
    ]
task_step-Once pcs m seen (TaskPc.trying w b (ptr c)) inv =
    elim (Option-cases (exchanged seen (ptr c) m.slots)) [
      | inl won ↦ rw won (store-Once pcs m b inv (λ x. cc (exchanged_won seen (ptr c) m.slots won)))
      | inr (newer, lost) ↦ rw lost inv
    ]
task_step-Once pcs m seen _ inv = inv

-- The boxes change and nothing else.
boxes-Once :
    (pcs : ℕ → CancelPc) (m : Memory) (boxes : Boxes)
    → Once pcs m
    → Once pcs (record m { boxes = boxes })
boxes-Once pcs m boxes inv i j = ground (arith, inv i j)

spare-Once :
    (pcs : ℕ → CancelPc) (m : Memory) (spare : Option ℕ)
    → Once pcs m
    → Once pcs (free_spare spare m)
spare-Once pcs m none inv = inv
spare-Once pcs m (some b) inv = boxes-Once pcs m _ inv

Step-Once : {s t : System} → Step s t → Once s.cancels s.memory → Once t.cancels t.memory
Step-Once {s} (clone i e) inv = move-Once _ s.memory i _ inv refl
Step-Once {s} (release i e) inv = move-Once _ s.memory i _ inv refl
Step-Once {s} (cancel i e) inv = move-Once _ s.memory i _ inv refl
Step-Once {s} (cancel_on i seen a) inv = cancel_step-Once s.cancels s.memory i seen _ refl inv
Step-Once (poll_first e) inv = inv
Step-Once (poll w spare e) inv = inv
Step-Once (ends spare e) inv = inv
Step-Once {s} (pends_new w b e f) inv = boxes-Once _ s.memory _ inv
Step-Once {s} (pends_spare w b e) inv = boxes-Once _ s.memory _ inv
Step-Once {s} (task_on seen a) inv = task_step-Once s.cancels s.memory seen s.task inv
Step-Once (drop_fresh e) inv = inv
Step-Once {s} (drop_parked w spare e) inv = spare-Once _ s.memory spare inv
Step-Once {s} (drop_finished spare e) inv = spare-Once _ s.memory spare inv

pub Reach-Once : {s : System} → Reach s → Once s.cancels s.memory
Reach-Once start = λ i j. ground arith
Reach-Once (later r st) = Step-Once st (Reach-Once r)

-- However many handles cancel, and however often, at most one waker is woken in all, none before
-- the pointer is `CANCELLED`.
pub cancel_wakes_once :
    {s : System} → Reach s → (length s.woken ≤ 1) × ((current s.slots ≡ cancelled) ⊎ (s.woken ≡ []))
cancel_wakes_once r = let o = Reach-Once r 0 0 in (o.one, ground (arith, o))
