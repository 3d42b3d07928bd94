-- ===== src/Joint/Samples.antt =====
-- Runs of the joint, and its theorems at them.
use spawns.Prelude.{◌≡◌, ◌≢◌, refl, ◌⊎◌, inl, inr, ℕ, [], ◌∷◌, ◌++◌, some, Among, ok, err, panics}
use spawns.Joint.{
  Waker, Stage, as_usize, from, TaskResult, JoinResult, empty, joining, joined, InnerJoinError,
  panic, Joint, already_joined,
}
use spawns.Joint
use spawns.Joint.Protocol.{
  CanPoll, System, WakePc, JoinPc, Reach, start, later, finish, wake, poll, drop, join, init,
  wake_step, join_step, wakes, joins, ends,
}
use spawns.Joint.Safety.{never_unreachable, delivered_at_most_once, no_lost_wakeup, poll_after_wake}
use spawns.Joint.Promise.{Move, promise, step-promise}
use spawns.Joint.Reference.{plain_wake, plain_poll, stage_decides_nothing}
use spawns.Joint.Atomic.{view, wakers, WakeEnds, poll_end, wake_run, join_run, joint_runs-calls}

-- The handle is polled with waker 7 and waits.
abbrev waiting : System ℕ
waiting = joins Stage.running (joins Stage.running (record init { handle = JoinPc.load_stage 7 }))

waiting-Reach : Reach waiting
unfolding join_step
waiting-Reach =
    later (later (later start (poll 7 tt)) (join Stage.running (inl refl)))
      (join Stage.running (inl refl))

abbrev wake_all : System ℕ → System ℕ
wake_all s = wakes Stage.running (wakes Stage.running (wakes Stage.running (wakes Stage.running s)))

-- Then the task ends with 5.
abbrev woken : System ℕ
woken = wake_all (ends (ok 5) waiting)

woken-Reach : Reach woken
unfolding join_step wake_step
woken-Reach =
    later
      (later
        (later (later (later waiting-Reach (finish (ok 5) refl)) (wake Stage.running (inl refl)))
          (wake Stage.running (inl refl)))
        (wake Stage.running (inl refl)))
      (wake Stage.running (inr (inl refl)))

woken_result :
    (woken.task ≡ WakePc.done) × (woken.woken ≡ 7 ∷ []) × (woken.handle ≡ JoinPc.waiting 7)
unfolding join_step wake_step
woken_result = (refl, refl, refl)

abbrev polled : System ℕ
polled = record woken { handle = JoinPc.load_stage 8 }

polled-Reach : Reach polled
unfolding join_step wake_step
polled-Reach = later woken-Reach (poll 8 tt)

never_unreachable_example :
    (woken.task ≢ WakePc.unreachable)
    × (woken.handle ≢ JoinPc.panicked_detached)
    × ((woken.handle ≢ JoinPc.unreachable) ⊎ ((v : TaskResult ℕ) × (woken.delivered ≡ v ∷ [])))
never_unreachable_example = never_unreachable woken-Reach

no_lost_wakeup_example : Among 7 woken.woken
unfolding join_step wake_step
no_lost_wakeup_example = no_lost_wakeup woken-Reach 7 refl refl (inl refl)

poll_after_wake_example :
    (v : TaskResult ℕ) × (polled.produced ≡ some v)
    × ((joins Stage.running (joins Stage.running (joins Stage.running polled))).delivered ≡ v ∷ [])
    × ((joins Stage.running (joins Stage.running (joins Stage.running polled))).handle ≡ JoinPc.got)
unfolding join_step wake_step
poll_after_wake_example =
    poll_after_wake polled-Reach 8 Stage.running Stage.running Stage.running refl refl refl

-- The poll of `polled` has returned; the handle is polled once more.
abbrev again : System ℕ
again = record (joins Stage.finished (joins Stage.finished polled)) { handle = JoinPc.load_stage 9 }

again-Reach : Reach again
unfolding join_step wake_step
again-Reach =
    later
      (later (later polled-Reach (join Stage.finished (inl refl))) (join Stage.finished (inl refl)))
      (poll 9 tt)

delivered_at_most_once_example :
    (again.delivered ≡ [])
    ⊎ ((v : TaskResult ℕ) × (again.produced ≡ some v) × (again.delivered ≡ v ∷ []))
delivered_at_most_once_example = delivered_at_most_once again-Reach

-- The handle is dropped while it waits; the task ends later and sees that.
abbrev dropped : System ℕ
dropped =
    joins Stage.running (joins Stage.running (record waiting { handle = JoinPc.store_detached }))

dropped-Reach : Reach dropped
unfolding join_step
dropped-Reach =
    later (later (later waiting-Reach (drop tt)) (join Stage.running (inl refl)))
      (join Stage.running (inr (inl refl)))

abbrev skipped : System ℕ
skipped = wakes Stage.detached (ends (ok 5) dropped)

skipped-Reach : Reach skipped
unfolding join_step wake_step
skipped-Reach = later (later dropped-Reach (finish (ok 5) refl)) (wake Stage.detached (inl refl))

-- The same, but the task's load of the stage is stale: it still sees `Running`.
abbrev stale : System ℕ
stale = wake_all (ends (ok 5) dropped)

stale-Reach : Reach stale
unfolding join_step wake_step
stale-Reach =
    later
      (later
        (later
          (later (later dropped-Reach (finish (ok 5) refl)) (wake Stage.running (inr (inl refl))))
          (wake Stage.running (inr (inl refl))))
        (wake Stage.running (inr (inl refl))))
      (wake Stage.running (inr (inr (inl refl))))

-- A poll that sees `Running` to its end.
abbrev polls : Waker → System ℕ → System ℕ
polls w s = joins Stage.running (joins Stage.running (record s { handle = JoinPc.load_stage w }))

polls-Reach :
    {s : System ℕ} (w : Waker)
    → Reach s
    → CanPoll s.handle
    → Among Stage.running s.stages
    → Reach (polls w s)
unfolding join_step
polls-Reach w r c i =
    later (later (later r (poll w c)) (join Stage.running i)) (join Stage.running i)

-- The task has left its result but not told the stage. A poll returns the result; the next one panics
-- with "already joined", and leaves its waker behind; one more waits for good.
abbrev swapped : System ℕ
swapped = wakes Stage.running (wakes Stage.running (ends (ok 5) init))

abbrev forgotten : System ℕ
forgotten =
    wakes Stage.running
      (wakes Stage.running (polls 3 (polls 2 (joins Stage.running (polls 1 swapped)))))

forgotten-Reach : Reach forgotten
unfolding join_step wake_step
forgotten-Reach =
    let swapped-Reach : Reach swapped =
      later (later (later start (finish (ok 5) refl)) (wake Stage.running (inl refl)))
        (wake Stage.running (inl refl)) in
    let joined-Reach : Reach (joins Stage.running (polls 1 swapped)) =
      later (polls-Reach 1 swapped-Reach tt (inl refl)) (join Stage.running (inl refl)) in
    later
      (later (polls-Reach 3 (polls-Reach 2 joined-Reach tt (inl refl)) tt (inl refl))
        (wake Stage.running (inl refl)))
      (wake Stage.running (inr (inl refl)))

forgotten_result :
    (forgotten.handle ≡ JoinPc.waiting 3)
    × (forgotten.task ≡ WakePc.done)
    × (forgotten.woken ≡ [])
    × (forgotten.delivered ≡ ok 5 ∷ [])
unfolding join_step wake_step
forgotten_result = (refl, refl, refl, refl)

-- One more poll, which sees `Finished`, runs into the `unreachable!`.
again_polled :
    (joins Stage.finished
      (joins Stage.finished (record forgotten { handle = JoinPc.load_stage 4 }))).handle
    ≡ JoinPc.unreachable
unfolding join_step wake_step
again_polled = refl

-- The task has ended, and a load of the stage is stale.
stage_decides_nothing_example :
    let j : Joint ℕ = record { stage = Stage.running; result = woken.result } in
    let woke = Joint.wake j (err (panic 3)) in
    let polled = Joint.poll 1 8 j in
    let reference = plain_poll 1 8 woken.result in
    ((Stage.running ≡ Stage.finished)
      ⊎ ((woke.0.result, woke.1) ≡ plain_wake woken.result (err (panic 3))))
    × (polled.1 ≡ reference.1)
    × ((woken.result ≡ joined)
        ⊎ (woken.result ≡ JoinResult.detached)
        ⊎ (polled.0.result ≡ reference.0))
unfolding wake_step join_step
stage_decides_nothing_example =
    stage_decides_nothing Stage.running (err (panic 3)) 1 8 woken-Reach (inr (inl refl)) tt

joint_runs-calls_example :
    (let r = wake_run 4 (WakePc.load_stage (err (panic 3))) waiting.shared in
      let call = Joint.wake (view waiting.shared) (err (panic 3)) in
      (view r.1 ≡ call.0) × (r.1.woken ≡ wakers call.1 ++ waiting.woken) × WakeEnds r.0 call.1)
    × (let r = join_run 3 (JoinPc.load_stage 8) waiting.shared in
        let call = Joint.poll 1 8 (view waiting.shared) in
        (view r.1 ≡ call.0) × (poll_end 1 r.0 r.1.delivered ≡ some call.1))
    × (let r = join_run 2 JoinPc.store_detached waiting.shared in
        (view r.1 ≡ Joint.drop (view waiting.shared)) × (r.0 ≡ JoinPc.dropped))
joint_runs-calls_example = joint_runs-calls waiting.shared (err (panic 3)) 1 8

-- A handle whose joint was detached by another copy of it panics, as the source's test expects.
poll_detached :
    (Joint.poll 1 8 (Joint.drop (Joint.new {A = ℕ}))).1 ≡ panics (Joint.already_detached 1)
unfolding Joint.poll Joint.drop Joint.new
poll_detached = refl

step-promise_example : Move (promise waiting) (promise (ends (ok 5) waiting))
unfolding join_step
step-promise_example = step-promise waiting-Reach (finish (ok 5) refl)
