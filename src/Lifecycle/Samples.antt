-- ===== src/Lifecycle/Samples.antt =====
-- A task that is polled, cancelled and joined, and the theorems at it.
use spawns.Prelude.{
  ℕ, ◌≡◌, ◌≢◌, refl, arith, ◌⊎◌, inl, inr, [], ◌∷◌, Option, true, none, some, ok, err, Among,
}
use spawns.Joint.{Waker, Stage, InnerJoinError}
use spawns.Joint.Protocol as J
use spawns.Joint.Protocol.{JoinPc, WakePc, wake_step, join_step, wakes, joins}
use spawns.Cancellation.{null, cancelled, ptr}
use spawns.Cancellation.Protocol as C
use spawns.Cancellation.Protocol.{
  CancelPc, TaskPc, current, cancel_step, task_step, moves, tasks, cancelling, fill, exchanged,
  wake_found,
}
use spawns.Lifecycle.{
  Cause, value_of, System, Reach, start, later, goes, ends, joins as joint_step, init, finishes,
}
use spawns.Joint.Invariant.{Woken}
use spawns.Cancellation.Seen.{is_over}
use spawns.Lifecycle.Progress.{Leads, can_deliver}
use spawns.Lifecycle.Ends.{Explained, delivered-Explained, cancelled_is_noticed}

abbrev to_cancellation : (C.System → C.System) → System ℕ → System ℕ
to_cancellation f s = record s { cancellation = f s.cancellation }

abbrev to_joint : (J.System ℕ → J.System ℕ) → System ℕ → System ℕ
to_joint f s = record s { joint = f s.joint }

-- The owner polls the handle with waker 9 and waits.
abbrev waiting : System ℕ
waiting =
    to_joint
      (λ j. joins Stage.running (joins Stage.running (record j { handle = JoinPc.load_stage 9 })))
      init

waiting-Reach : Reach waiting
unfolding join_step
waiting-Reach =
    later
      (later (later start (joint_step (J.poll 9 tt) refl))
        (joint_step (J.join Stage.running (inl refl)) refl))
      (joint_step (J.join Stage.running (inl refl)) refl)

-- The task is polled with waker 7, whose box goes to 100, and parks.
abbrev pending : System ℕ
pending =
    to_cancellation (λ c. tasks null (record c { task = TaskPc.checking none }))
      (to_cancellation (moves 0 CancelPc.idle) waiting)

abbrev parked : System ℕ
parked =
    to_cancellation
      (λ c.
        tasks null
          (tasks null (record c { task = TaskPc.loading 7 100; memory = fill 100 7 c.memory })))
      pending

parked-Reach : Reach parked
unfolding join_step task_step
parked-Reach =
    let pending-Reach : Reach pending =
      later
        (later (later waiting-Reach (goes (C.clone 0 refl) refl)) (goes (C.poll_first refl) refl))
        (goes (C.task_on null (inl refl)) refl) in
    later
      (later (later pending-Reach (goes (C.pends_new 7 100 refl refl) refl))
        (goes (C.task_on null (inl refl)) refl))
      (goes (C.task_on null (inl refl)) refl)

-- Handle 0 cancels, and wakes the waker.
abbrev woken : System ℕ
woken =
    to_cancellation
      (λ c.
        cancelling 0 null
          (cancelling 0 (ptr 100) (cancelling 0 (ptr 100) (moves 0 CancelPc.loading c))))
      parked

woken-Reach : Reach woken
unfolding join_step task_step cancel_step
woken-Reach =
    later
      (later
        (later (later parked-Reach (goes (C.cancel 0 refl) refl))
          (goes (C.cancel_on 0 (ptr 100) (inl refl)) refl))
        (goes (C.cancel_on 0 (ptr 100) (inl refl)) refl))
      (goes (C.cancel_on 0 null (inr (inr (inl refl)))) refl)

nobody_wakes : (i b : ℕ) → woken.cancellation.cancels i ≢ CancelPc.waking b
unfolding join_step task_step cancel_step
nobody_wakes i b = ground arith

cancelled_is_noticed_example :
    (woken.cancellation.task ≡ TaskPc.fresh)
    ⊎ ((w : Waker) × (spare : Option ℕ) × (woken.cancellation.task ≡ TaskPc.parked w spare)
        × Among w woken.cancellation.woken)
    ⊎ (is_over woken.cancellation.task ≡ true)
      × Woken woken.joint.handle woken.joint.delivered woken.joint.woken
unfolding join_step task_step cancel_step
cancelled_is_noticed_example = cancelled_is_noticed woken-Reach refl nobody_wakes tt

-- The next poll of the task sees it cancelled, and wakes the joiner.
abbrev checking : System ℕ
checking = to_cancellation (λ c. record c { task = TaskPc.checking none }) woken

abbrev ended : System ℕ
ended = finishes (tasks cancelled checking.cancellation) Cause.by_cancel checking

abbrev told : System ℕ
told =
    to_joint
      (λ j. wakes Stage.running (wakes Stage.running (wakes Stage.running (wakes Stage.running j))))
      ended

told-Reach : Reach told
unfolding join_step task_step cancel_step wake_step
told-Reach =
    let ended-Reach : Reach ended =
      later (later woken-Reach (goes (C.poll 7 none refl) refl))
        (ends (ok 0) (C.task_on cancelled (inl refl)) refl refl) in
    later
      (later
        (later (later ended-Reach (joint_step (J.wake Stage.running (inl refl)) refl))
          (joint_step (J.wake Stage.running (inl refl)) refl))
        (joint_step (J.wake Stage.running (inl refl)) refl))
      (joint_step (J.wake Stage.running (inr (inl refl))) refl)

-- The joiner polls again.
abbrev joined : System ℕ
joined =
    to_joint
      (λ j. joins Stage.finished (joins Stage.finished (record j { handle = JoinPc.load_stage 8 })))
      told

joined-Reach : Reach joined
unfolding join_step task_step cancel_step wake_step
joined-Reach =
    later
      (later (later told-Reach (joint_step (J.poll 8 tt) refl))
        (joint_step (J.join Stage.finished (inl refl)) refl))
      (joint_step (J.join Stage.finished (inl refl)) refl)

told_result : (told.joint.woken ≡ 9 ∷ []) × (told.cancellation.woken ≡ 7 ∷ [])
unfolding join_step task_step cancel_step wake_step
told_result = (refl, refl)

delivered-Explained_example :
    (cause : Cause ℕ) × (joined.cause ≡ some cause)
    × Explained cause
        (err InnerJoinError.cancelled)
        (current joined.cancellation.slots)
        joined.cancellation.task
unfolding join_step task_step cancel_step wake_step
delivered-Explained_example = delivered-Explained joined-Reach (err InnerJoinError.cancelled) refl

-- From the cancelled task, whose joiner waits, to a poll that returns.
can_deliver_example :
    (t : System ℕ) × Leads woken t
    × ((cause : Cause ℕ) × (t.cause ≡ some cause) × (t.joint.delivered ≡ value_of cause ∷ []))
unfolding join_step task_step cancel_step
can_deliver_example = can_deliver (ok 5) woken-Reach refl tt
