-- ===== src/Joint/Progress.antt =====
-- What the task and the owner of the handle can still do with `Joint` (spawns-core/src/task.rs), from
-- any state that they reach: the task can end its `wake`, and then a poll of the handle can return.
use spawns.Prelude.{
  sym, ◌∙◌, some, Bool, true, false, ◌≡◌, ◌≢◌, refl, ◌⊎◌, inl, inr, [], ◌∷◌, Among, arith,
}
use spawns.Joint.{Stage, TaskResult}
use spawns.Joint.Protocol.{
  Shared, WakePc, JoinPc, System, Step, Reach, start, later, finish, wake, poll, drop, join,
  CanPoll, wake_step, join_step, wakes, joins,
}
use spawns.Joint.Invariant.{Body}
use spawns.Joint.Safety.{Reach-Inv, delivered_at_most_once}

module _ {A : Type 0} where
  -- Steps of a task that has called `finish`, or not yet, and of the owner of the handle.
  pub data Runs (s : System A) : System A → Type 0 where
    stop : Runs s s
    then : {t u : System A} → Runs s t → Step t u → u.produced ≡ t.produced → Runs s u

  -- The handle may still give a result: it is not being dropped, and no poll returned one or panicked.
  abbrev pub IsExpecting : JoinPc A → Type 0
  IsExpecting JoinPc.free = Unit
  IsExpecting (JoinPc.waiting _) = Unit
  IsExpecting (JoinPc.load_stage _) = Unit
  IsExpecting JoinPc.take = Unit
  IsExpecting (JoinPc.register _) = Unit
  IsExpecting (JoinPc.claim _) = Unit
  IsExpecting _ = ⊥

  -- The owner of the handle is inside a poll that has not returned.
  abbrev handed : JoinPc A → Bool
  handed (JoinPc.load_stage _) = true
  handed JoinPc.take = true
  handed (JoinPc.register _) = true
  handed (JoinPc.claim _) = true
  handed _ = false

  wake_step_stores :
      (x seen : Stage) (t : WakePc A) (m : Shared A)
      → Among x m.stages
      → Among x (wake_step seen t m).1.stages
  unfolding wake_step
  wake_step_stores x seen t m e = ground arith

  join_step_stores :
      (x seen : Stage) (h : JoinPc A) (m : Shared A)
      → Among x m.stages
      → Among x (join_step seen h m).1.stages
  unfolding join_step
  join_step_stores x seen h m e = ground arith

  -- A load may always see the first value.
  has_running : {s : System A} → Reach s → Among Stage.running s.stages
  has_running start = inl refl
  has_running (later r (finish v e)) = has_running r
  has_running (later {s} r (wake seen i)) =
      wake_step_stores Stage.running seen s.task s.shared (has_running r)
  has_running (later r (poll w c)) = has_running r
  has_running (later r (drop c)) = has_running r
  has_running (later {s} r (join seen i)) =
      join_step_stores Stage.running seen s.handle s.shared (has_running r)

  wake_step-produced :
      (seen : Stage) (t : WakePc A) (m : Shared A) → (wake_step seen t m).1.produced ≡ m.produced
  unfolding wake_step
  wake_step-produced seen t m = ground arith

  join_step-produced :
      (seen : Stage) (h : JoinPc A) (m : Shared A) → (join_step seen h m).1.produced ≡ m.produced
  unfolding join_step
  join_step-produced seen h m = ground arith

  abbrev pub ByRun : System A → System A → Type 0
  ByRun s t = Reach t × Runs s t

  wake_on : {s t : System A} → ByRun s t → ByRun s (wakes Stage.running t)
  wake_on {t = t} (r, run) =
      let st : Step t (wakes Stage.running t) = wake Stage.running (has_running r) in
      (later r st, then run st (wake_step-produced Stage.running t.task t.shared))

  join_on : {s t : System A} → ByRun s t → ByRun s (joins Stage.running t)
  join_on {t = t} (r, run) =
      let st : Step t (joins Stage.running t) = join Stage.running (has_running r) in
      (later r st, then run st (join_step-produced Stage.running t.handle t.shared))

  abbrev told : System A → System A
  told s = wakes Stage.running (wakes Stage.running (wakes Stage.running (wakes Stage.running s)))

  told_lem :
      (t : WakePc A) (h : JoinPc A) (m : Shared A)
      → Body t h m
      → t ≢ WakePc.idle
      → IsExpecting h
      → let s = told (record { task = t; handle = h; shared = m }) in
        (s.task ≡ WakePc.done) × (s.delivered ≡ m.delivered)
  unfolding wake_step
  told_lem t h m b e f = ground arith

  abbrev claimed : System A → System A
  claimed s = joins Stage.running (joins Stage.running (joins Stage.running s))

  -- With the result in the joint, a poll returns it.
  claimed_lem :
      (t : WakePc A) (h : JoinPc A) (m : Shared A)
      → Body t h m
      → t ≡ WakePc.done
      → m.delivered ≡ []
      → handed h ≡ true
      → (claimed (record { task = t; handle = h; shared = m })).delivered ≢ []
  unfolding join_step
  claimed_lem t h m b d e f = ground arith

  Runs-produced : {s t : System A} → Runs s t → t.produced ≡ s.produced
  Runs-produced stop = refl
  Runs-produced (then run st e) = e ∙ Runs-produced run

  expecting-cases : (h : JoinPc A) → IsExpecting h → CanPoll h ⊎ (handed h ≡ true)
  expecting-cases h e = ground arith

  -- Steps lead to a state in which a poll has returned what the task ended with.
  abbrev pub Delivers : System A → Type 0
  Delivers s =
      (t : System A) × ByRun s t
      × ((v : TaskResult A) × (s.produced ≡ some v) × (t.delivered ≡ v ∷ []))

  -- The poll in which the owner of the handle is goes on.
  claim_on :
      {s t : System A}
      → ByRun s t
      → t.task ≡ WakePc.done
      → t.delivered ≡ []
      → handed t.handle ≡ true
      → Delivers s
  claim_on {s} {t} ran e f g =
      let out = join_on (join_on (join_on ran)) in
      (
        claimed t,
        out,
        elim (delivered_at_most_once out.0) [
          | inl none ↦
              absurd (claimed_lem t.task t.handle t.shared (Reach-Inv ran.0).body e f g none)
          | inr (v, p, d) ↦ (v, sym (Runs-produced out.1) ∙ p, d)
        ],
      )

  -- From any state in which the task is in its `wake`, or behind it, and the handle may still give a
  -- result.
  pub delivers :
      {s : System A}
      → Reach s
      → s.task ≢ WakePc.idle
      → s.delivered ≡ []
      → IsExpecting s.handle
      → Delivers s
  delivers {s} r e f g =
      let ran = wake_on (wake_on (wake_on (wake_on (r, stop)))) in
      let (done, same) = told_lem s.task s.handle s.shared (Reach-Inv r).body e g in
      elim (expecting-cases s.handle g) [
        | inl c ↦
            let st : Step (told s) (record (told s) { handle = JoinPc.load_stage 0 }) = poll 0 c in
            claim_on (later ran.0 st, then ran.1 st refl) done (same ∙ f) refl
        | inr h ↦ claim_on ran done (same ∙ f) h
      ]
