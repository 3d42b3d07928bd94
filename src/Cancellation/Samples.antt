-- ===== src/Cancellation/Samples.antt =====
-- Runs of the cancellation, and its theorems at them.
use spawns.Prelude.{
  false, ℕ, ◌≤◌, ◌≡◌, ◌≢◌, refl, inl, inr, ◌⊎◌, [], ◌∷◌, none, some, Among, length, arith,
}
use spawns.Cancellation.{slot_eq, Slot, null, cancelled, ptr, set_at}
use spawns.Cancellation
use spawns.Cancellation.Protocol.{
  Memory, current, CancelPc, TaskPc, System, Reach, start, later, clone, release, cancel, cancel_on,
  poll, poll_first, pends_new, task_on, drop_parked, cancel_step, task_step, init, tasks,
  cancelling, moves, fill,
}
use spawns.Cancellation.Ownership.{held}
use spawns.Cancellation.Safety.{taken_box_is_owned, no_lost_cancel, no_leak}
use spawns.Cancellation.Alarm.{Alarm, Move, Shows, ringing}
use spawns.Cancellation.Alarm.Steps.{step-alarm}
use spawns.Cancellation.Late.{Run, stop, then, polled_once_more}
use spawns.Cancellation.Termination.{
  cancel_through, task_through, is_trying, is_updating, loops_end,
}
use spawns.Cancellation.Once.{cancel_wakes_once}
use spawns.Cancellation.Words.{
  word_of, slot_of, is_cancelled_word, cancel_word, update_word, drop_word, words-slots,
}
use spawns.Cancellation.Atomic.{
  cancel_run, task_run, CancelEnds, update_end, cancellation_runs-calls,
}

-- One handle is made; the task is polled with waker 7, put in the box at 100, and parks.
abbrev armed : System
armed = record (tasks null (record (moves 0 CancelPc.idle init) { task = TaskPc.checking none })) {
  task = TaskPc.loading 7 100;
  memory = fill 100 7 init.memory;
}

armed-Reach : Reach armed
unfolding task_step
armed-Reach =
    later (later (later (later start (clone 0 refl)) (poll_first refl)) (task_on null (inl refl)))
      (pends_new 7 100 refl refl)

abbrev parked : System
parked = tasks null (tasks null armed)

parked-Reach : Reach parked
unfolding task_step
parked-Reach = later (later armed-Reach (task_on null (inl refl))) (task_on null (inl refl))

-- The handle cancels, and has taken the box out.
abbrev taken_out : System
taken_out = cancelling 0 (ptr 100) (cancelling 0 (ptr 100) (moves 0 CancelPc.loading parked))

taken_out-Reach : Reach taken_out
unfolding task_step cancel_step
taken_out-Reach =
    later (later (later parked-Reach (cancel 0 refl)) (cancel_on 0 (ptr 100) (inl refl)))
      (cancel_on 0 (ptr 100) (inl refl))

abbrev woken : System
woken = cancelling 0 null taken_out

woken-Reach : Reach woken
unfolding task_step cancel_step
woken-Reach = later taken_out-Reach (cancel_on 0 null (inr (inr (inl refl))))

woken_result : (woken.woken ≡ 7 ∷ []) × (woken.boxes 100 ≡ none) × (woken.cancels 0 ≡ CancelPc.idle)
unfolding task_step cancel_step
woken_result = (refl, refl, refl)

nobody_wakes : (i b : ℕ) → woken.cancels i ≢ CancelPc.waking b
unfolding task_step cancel_step
nobody_wakes i b = ground arith

taken_box_is_owned_example :
    (taken_out.boxes 100 ≢ none)
    × (current taken_out.slots ≢ ptr 100)
    × (held taken_out.task ≢ some 100)
    × (◌≡◌ {A = ℕ} 1 0 ⊎ (taken_out.cancels 1 ≢ CancelPc.waking 100))
unfolding task_step cancel_step
taken_box_is_owned_example = taken_box_is_owned taken_out-Reach 0 1 100 refl

no_lost_cancel_example : Among 7 woken.woken
unfolding task_step cancel_step
no_lost_cancel_example = no_lost_cancel woken-Reach 7 none refl refl nobody_wakes

-- The task is dropped while parked, and the handle with it, with no cancel.
abbrev over : System
over = moves 0 CancelPc.gone (record parked { task = TaskPc.dropped; memory = parked.memory })

over-Reach : Reach over
unfolding task_step
over-Reach = later (later parked-Reach (drop_parked 7 none refl)) (release 0 refl)

all_gone : (i : ℕ) → over.cancels i ≡ CancelPc.gone
all_gone i = ground arith

no_leak_example : Cancellation.drop (current over.slots) over.boxes 100 ≡ none
no_leak_example = no_leak over-Reach refl all_gone 100

cancel_wakes_once_example :
    (length woken.woken ≤ 1) × ((current woken.slots ≡ cancelled) ⊎ (woken.woken ≡ []))
cancel_wakes_once_example = cancel_wakes_once woken-Reach

-- The code of `cancel` is at 1; a cancel finds the box at 100, and an update stores the one at 101.
words-slots_example :
    (word_of 1 (slot_of 1 100) ≡ 100)
    × (false ≡ slot_eq (slot_of 1 100) (slot_of 1 1))
    × (is_cancelled_word 1 100 ≡ Cancellation.is_cancelled (slot_of 1 100))
    × (let r = cancel_word 1 100 parked.boxes in
        (slot_of 1 r.0, r.1) ≡ Cancellation.cancel (slot_of 1 100) parked.boxes)
    × (let r = update_word 1 101 100 parked.boxes in
        (slot_of 1 r.0, r.1, r.2) ≡ Cancellation.update 101 (slot_of 1 100) parked.boxes)
    × (drop_word 1 100 parked.boxes ≡ Cancellation.drop (slot_of 1 100) parked.boxes)
words-slots_example = words-slots 1 (λ e. cc) 100 1 101 parked.boxes (λ e. cc) (λ e. cc)

cancellation_runs-calls_example :
    let m : Memory = fill 101 8 parked.memory in
    (let r = cancel_run 3 CancelPc.loading m in
      let call = Cancellation.cancel (current m.slots) m.boxes in
      (current r.1.slots ≡ call.0) × CancelEnds m r.0 r.1 call.1)
    × (let r = task_run 2 (TaskPc.loading 8 101) m in
        let call = Cancellation.update 101 (current m.slots) m.boxes in
        (current r.1.slots ≡ call.0)
        × (r.0 ≡ update_end 8 call.1)
        × (r.1.boxes ≡ call.2)
        × (r.1.woken ≡ m.woken))
cancellation_runs-calls_example = cancellation_runs-calls (fill 101 8 parked.memory) 8 101

-- Both calls saw an empty pointer, and find the box at 100 there.
loops_end_example :
    let finds = parked.memory ∷ parked.memory ∷ [] in
    (is_trying (cancel_through finds (CancelPc.trying null)) ≡ false)
    × (is_updating (task_through finds (TaskPc.trying 8 101 null)) ≡ false)
unfolding task_step
loops_end_example = loops_end (parked.memory ∷ parked.memory ∷ []) null 8 101 (omega arith)

-- The handle of `taken_out` is about to wake waker 7.
step-alarm_example :
    (b : Alarm) × Shows (current woken.slots) woken.cancels woken.boxes b
    × Move (Alarm.ringing 7) taken_out.woken b woken.woken
unfolding task_step cancel_step
step-alarm_example =
    step-alarm taken_out-Reach (cancel_on 0 null (inr (inr (inl refl))))
      (ringing 0 100 refl refl refl)

-- A poll of the cancelled task that still sees the pointer null polls the future, and then finds out.
abbrev fooled : System
fooled = tasks null (record woken { task = TaskPc.checking none })

abbrev rearming : System
rearming = record fooled { task = TaskPc.loading 8 101; memory = fill 101 8 fooled.memory }

last_poll : Run woken (tasks cancelled (tasks null rearming)) 1
unfolding task_step cancel_step
last_poll =
    then
      (then
        (then (then (then stop (poll 7 none refl)) (task_on null (inr (inr (inl refl)))))
          (pends_new 8 101 refl refl))
        (task_on null (inr (inr (inl refl)))))
      (task_on cancelled (inl refl))

polled_once_more_example : ◌≤◌ 1 1
unfolding task_step cancel_step
polled_once_more_example = polled_once_more last_poll refl
