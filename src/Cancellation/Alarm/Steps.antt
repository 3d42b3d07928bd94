-- ===== src/Cancellation/Alarm/Steps.antt =====
-- The steps of the task and the handles (spawns-core/src/task.rs), as moves of the alarm.
use spawns.Prelude.{List, [], ℕ, ◌≡◌, refl, Option, none, some, arith, inl, inr, Option-cases}
use spawns.Joint.{Waker}
use spawns.Cancellation.{Slot, null, cancelled, ptr, set_at}
use spawns.Cancellation.Protocol.{
  exchanged, Memory, current, CancelPc, TaskPc, System, Step, Reach, start, later, clone, release,
  cancel, cancel_on, poll_first, poll, ends, pends_new, pends_spare, task_on, drop_fresh,
  drop_parked, drop_finished, cancel_step, task_step, wake_found, free_spare,
}
use spawns.Cancellation.Ownership.{Owner, held}
use spawns.Cancellation.Invariant.{Inv, exchanged_won}
use spawns.Cancellation.Safety.{Reach-Inv}
use spawns.Cancellation.Once.{Once, Reach-Once}
use spawns.Cancellation.Alarm.{unset, Alarm, Move, Shows, Moves, calm}
use spawns.Cancellation.Alarm.Moves.{
  mute-Moves, set_off-Moves, ring-Moves, store-Moves, held-Moves, new-Moves,
}

module _ {t : TaskPc} {pcs : ℕ → CancelPc} {m : Memory} {own : ℕ → Owner} (inv : Inv t pcs m own)
    (once : Once pcs m) where
  -- A handle makes an access.
  cancel_step-Moves :
      {a : Alarm} (k : ℕ) (seen : Slot) (pc : CancelPc)
      → pcs k ≡ pc
      → Shows (current m.slots) pcs m.boxes a
      → Moves (set_at pcs k (cancel_step seen pc m).0) (cancel_step seen pc m).1 a m.woken
  unfolding Moves cancel_step
  cancel_step-Moves k seen CancelPc.loading e h = calm m k _ (ground arith) refl h
  cancel_step-Moves k seen (CancelPc.trying cancelled) e h = calm m k _ (ground arith) refl h
  cancel_step-Moves k seen (CancelPc.trying null) e h =
      elim (Option-cases (exchanged seen null m.slots)) [
        | inl won ↦ rw won (mute-Moves inv once k (exchanged_won seen null m.slots won) h)
        | inr (newer, lost) ↦ rw lost (calm m k _ (ground arith) refl h)
      ]
  cancel_step-Moves k seen (CancelPc.trying (ptr c)) e h =
      elim (Option-cases (exchanged seen (ptr c) m.slots)) [
        | inl won ↦ rw won (set_off-Moves inv once k c (exchanged_won seen (ptr c) m.slots won) h)
        | inr (newer, lost) ↦ rw lost (calm m k _ (ground arith) refl h)
      ]
  cancel_step-Moves k seen (CancelPc.waking c) e h = elim (Option-cases (m.boxes c)) [
    | inl dead ↦ absurd (ground (arith, inv.owns k c))
    | inr (w, live) ↦ rw (live, wake_found) (ring-Moves inv once k c w e live h)
  ]
  cancel_step-Moves k seen CancelPc.gone e h = calm m k _ (ground arith) refl h
  cancel_step-Moves k seen CancelPc.idle e h = calm m k _ (ground arith) refl h
  cancel_step-Moves k seen CancelPc.dangling e h = calm m k _ (ground arith) refl h

  -- The task makes an access.
  task_step-Moves :
      {a : Alarm} (seen : Slot) (u : TaskPc)
      → t ≡ u
      → Shows (current m.slots) pcs m.boxes a
      → Moves pcs (task_step seen u m).1 a m.woken
  unfolding Moves task_step
  task_step-Moves seen (TaskPc.trying w b cancelled) e h =
      held-Moves inv once b none (ground arith) h
  task_step-Moves seen (TaskPc.trying w b null) e h =
      elim (Option-cases (exchanged seen null m.slots)) [
        | inl won ↦ rw won (
            store-Moves inv once w b (ground (arith, inv.armed))
              (λ x. cc (exchanged_won seen null m.slots won)) h)
        | inr (newer, lost) ↦ rw lost (_, h, Move.stays)
      ]
  task_step-Moves seen (TaskPc.trying w b (ptr c)) e h =
      elim (Option-cases (exchanged seen (ptr c) m.slots)) [
        | inl won ↦ rw won (
            store-Moves inv once w b (ground (arith, inv.armed))
              (λ x. cc (exchanged_won seen (ptr c) m.slots won)) h)
        | inr (newer, lost) ↦ rw lost (_, h, Move.stays)
      ]
  task_step-Moves seen _ e h = (_, h, Move.stays)

  spare-Moves :
      {a : Alarm} (spare : Option ℕ)
      → held t ≡ spare
      → Shows (current m.slots) pcs m.boxes a
      → Moves pcs (free_spare spare m) a m.woken
  unfolding Moves
  spare-Moves none e h = (_, h, Move.stays)
  spare-Moves (some b) e h = held-Moves inv once b none e h

-- In every reachable state that stands for an alarm each step of the task or of a handle, whatever
-- its access sees, makes one of the alarm's moves, to an alarm that the next state stands for: the
-- alarm stays as it is, is set or set anew, is muted if it was never set, goes off, or rings. It
-- wakes the waker that it was last set with, once, and in no other move.
pub step-alarm :
    {s t : System} {a : Alarm}
    → Reach s
    → Step s t
    → Shows (current s.slots) s.cancels s.boxes a
    → (b : Alarm) × Shows (current t.slots) t.cancels t.boxes b × Move a s.woken b t.woken
unfolding Moves
step-alarm {s} r (clone i e) h = calm s.memory i _ (ground arith) refl h
step-alarm {s} r (release i e) h = calm s.memory i _ (ground arith) refl h
step-alarm {s} r (cancel i e) h = calm s.memory i _ (ground arith) refl h
step-alarm {s} r (cancel_on i seen x) h =
    cancel_step-Moves (Reach-Inv r).1 (Reach-Once r) i seen (s.cancels i) refl h
step-alarm r (poll_first e) h = (_, h, Move.stays)
step-alarm r (poll w p e) h = (_, h, Move.stays)
step-alarm r (ends p e) h = (_, h, Move.stays)
step-alarm r (pends_new w b e f) h = new-Moves (Reach-Inv r).1 (Reach-Once r) b (some w) f h
step-alarm r (pends_spare w b e) h =
    held-Moves (Reach-Inv r).1 (Reach-Once r) b (some w) (ground arith) h
step-alarm {s} r (task_on seen x) h =
    task_step-Moves (Reach-Inv r).1 (Reach-Once r) seen s.task refl h
step-alarm r (drop_fresh e) h = (_, h, Move.stays)
step-alarm r (drop_parked w p e) h = spare-Moves (Reach-Inv r).1 (Reach-Once r) p (ground arith) h
step-alarm r (drop_finished p e) h = spare-Moves (Reach-Inv r).1 (Reach-Once r) p (ground arith) h

-- The alarms that moves lead to from `unset`, with the wakers woken on the way.
data Run : Alarm → List Waker → Type 0 where
  fresh : Run Alarm.unset []
  moved : {a b : Alarm} {ws vs : List Waker} → Run a ws → Move a ws b vs → Run b vs

-- Every reachable state stands for an alarm that moves lead to, and what the handles woke is what the
-- alarm woke.
Reach-Run :
    {s : System}
    → Reach s
    → (a : Alarm) × Shows (current s.slots) s.cancels s.boxes a × Run a s.woken
Reach-Run start = (Alarm.unset, unset refl, fresh)
Reach-Run (later r st) =
    let (a, h, run) = Reach-Run r in let (b, k, move) = step-alarm r st h in (b, k, moved run move)
