-- ===== src/Joint/Mutex/Turns.antt =====
-- The two threads of a joint and its mutex: who may hold it, that nobody waits for good, and that
-- the mutex makes a replacement one step.
use spawns.Prelude.{
  ℕ, ◌+◌, ◌-◌, ◌*◌, ◌<◌, ◌≤◌, ◌≡◌, ◌≢◌, refl, Bool, true, false, Option, none, some, arith, ◌⊎◌,
  inl, inr, subst,
}
use spawns.Joint.{Stage}
use spawns.Joint.Protocol.{Shared, WakePc, JoinPc, System, wake_step, join_step}
use spawns.Joint.Protocol
use spawns.Joint.Mutex.{
  Hold, outside, inside, leaving, Locked, locks_wake, locks_join, task_turn, owner_turn, Turn,
  ReachLocked, start, later, finish, wake, poll, drop, join,
}

-- The steps that are left: three for an access, as it may lock and unlock.
abbrev steps_left : Hold → ℕ → ℕ
steps_left outside n = 3 * n
steps_left inside n = 3 * n - 1
steps_left leaving n = 3 * n + 1

-- The mutex is locked while one of the two threads has the guard, and never have both.
abbrev pub Exclusive : Hold → Hold → Bool → Type 0
Exclusive outside outside locked = locked ≡ false
Exclusive outside _ locked = locked ≡ true
Exclusive _ outside locked = locked ≡ true
Exclusive _ _ locked = ⊥

-- Who has locked the mutex to replace the result is about to.
abbrev Fits : Hold → Bool → Type 0
Fits inside locks = locks ≡ true
Fits _ locks = Unit

zero_or_not : (n : ℕ) → (n ≡ 0) ⊎ (n ≢ 0)
zero_or_not n = ground arith

module _ {A : Type 0} where
  -- The accesses that are left of a call of `wake`, and of a poll or drop, at most.
  abbrev wake_left : WakePc A → ℕ
  wake_left (WakePc.load_stage _) = 4
  wake_left (WakePc.swap _) = 3
  wake_left (WakePc.publish _) = 2
  wake_left (WakePc.matching _) = 1
  wake_left _ = 0

  abbrev join_left : JoinPc A → ℕ
  join_left (JoinPc.load_stage _) = 3
  join_left JoinPc.take = 1
  join_left (JoinPc.register _) = 2
  join_left (JoinPc.claim _) = 1
  join_left JoinPc.store_detached = 2
  join_left JoinPc.clear = 1
  join_left _ = 0

  abbrev pub task_left : Locked A → ℕ
  task_left s = steps_left s.task_hold (wake_left s.system.task)

  abbrev pub owner_left : Locked A → ℕ
  owner_left s = steps_left s.owner_hold (join_left s.system.handle)

  abbrev IsFit : Locked A → Type 0
  IsFit s =
      Exclusive s.task_hold s.owner_hold s.is_locked
      × Fits s.task_hold (locks_wake s.system.task)
      × Fits s.owner_hold (locks_join s.system.handle)

  -- What a turn leads to, if it is not blocked.
  abbrev pub Leads : (Locked A → Type 0) → Option (Locked A) → Type 0
  Leads P none = Unit
  Leads P (some t) = P t

  task_turn-IsFit : (seen : Stage) (s : Locked A) → IsFit s → Leads IsFit (task_turn seen s)
  unfolding task_turn
  task_turn-IsFit seen s f = ground (arith, f)

  owner_turn-IsFit : (seen : Stage) (s : Locked A) → IsFit s → Leads IsFit (owner_turn seen s)
  unfolding owner_turn
  owner_turn-IsFit seen s f = ground (arith, f)

  -- A turn that is not blocked, and leaves less to do than this.
  abbrev pub Lowers : ℕ → Option (Locked A) → Type 0
  Lowers n none = ⊥
  Lowers n (some t) = task_left t + owner_left t < n

  wake_step_left :
      (seen : Stage) (pc : WakePc A) (m : Shared A)
      → wake_left (wake_step seen pc m).0 ≤ wake_left pc - 1
  unfolding wake_step
  wake_step_left seen pc m = ground arith

  join_step_left :
      (seen : Stage) (pc : JoinPc A) (m : Shared A)
      → join_left (join_step seen pc m).0 ≤ join_left pc - 1
  unfolding join_step
  join_step_left seen pc m = ground arith

  task_turn-Lowers :
      (seen : Stage) (s : Locked A)
      → IsFit s
      → task_left s ≢ 0
      → Lowers (task_left s + owner_left s) (task_turn seen s)
        ⊎ ((task_turn seen s ≡ none) × (s.owner_hold ≢ outside))
  unfolding task_turn
  task_turn-Lowers seen s f e = ground (arith, f, wake_step_left seen s.system.task s.system.shared)

  owner_turn-Lowers :
      (seen : Stage) (s : Locked A)
      → IsFit s
      → owner_left s ≢ 0
      → Lowers (task_left s + owner_left s) (owner_turn seen s)
        ⊎ ((owner_turn seen s ≡ none) × (s.task_hold ≢ outside))
  unfolding owner_turn
  owner_turn-Lowers seen s f e =
      ground (arith, f, join_step_left seen s.system.handle s.system.shared)

  -- Who has the guard is not blocked.
  task_inside-Lowers :
      (seen : Stage) (s : Locked A)
      → IsFit s
      → s.task_hold ≢ outside
      → Lowers (task_left s + owner_left s) (task_turn seen s)
  unfolding task_turn
  task_inside-Lowers seen s f e =
      ground (arith, f, wake_step_left seen s.system.task s.system.shared)

  owner_inside-Lowers :
      (seen : Stage) (s : Locked A)
      → IsFit s
      → s.owner_hold ≢ outside
      → Lowers (task_left s + owner_left s) (owner_turn seen s)
  unfolding owner_turn
  owner_inside-Lowers seen s f e =
      ground (arith, f, join_step_left seen s.system.handle s.system.shared)

  Turn-IsFit : {s t : Locked A} → Turn s t → IsFit s → IsFit t
  Turn-IsFit {s} (finish v e) f = ground (arith, e, f)
  Turn-IsFit {s} (wake seen t i e) f = subst (Leads IsFit) e (task_turn-IsFit seen s f)
  Turn-IsFit {s} (poll w c e) f = ground (arith, e, f)
  Turn-IsFit {s} (drop c e) f = ground (arith, e, f)
  Turn-IsFit {s} (join seen t i e) f = subst (Leads IsFit) e (owner_turn-IsFit seen s f)

  ReachLocked-IsFit : {s : Locked A} → ReachLocked s → IsFit s
  ReachLocked-IsFit start = (refl, tt, tt)
  ReachLocked-IsFit (later r st) = Turn-IsFit st (ReachLocked-IsFit r)

  module _ {s : Locked A} (r : ReachLocked s) where
    -- No call on the joint waits for good, not even for itself. In every reachable state, whatever the
    -- loads of the stage see, a thread that is inside `wake`, or inside a poll or a drop of the
    -- handle, can take its next step, or the other thread has the mutex and can take its own; and that
    -- step leaves fewer steps for the calls that the two are in, which end so, unless the owner begins
    -- others.
    pub calls_end :
        (a b : Stage)
        → let left = task_left s + owner_left s in
          ((task_left s ≡ 0)
            ⊎ (Lowers left (task_turn a s)
                ⊎ ((task_turn a s ≡ none) × Lowers left (owner_turn b s))))
          × ((owner_left s ≡ 0)
              ⊎ (Lowers left (owner_turn b s)
                  ⊎ ((owner_turn b s ≡ none) × Lowers left (task_turn a s))))
    calls_end a b =
        let f = ReachLocked-IsFit r in
        (
          elim (zero_or_not (task_left s)) [
            | inl e ↦ inl e
            | inr e ↦ inr (elim (task_turn-Lowers a s f e) [
              | inl l ↦ inl l
              | inr (stuck, h) ↦ inr (stuck, owner_inside-Lowers b s f h)
            ])
          ],
          elim (zero_or_not (owner_left s)) [
            | inl e ↦ inl e
            | inr e ↦ inr (elim (owner_turn-Lowers b s f e) [
              | inl l ↦ inl l
              | inr (stuck, h) ↦ inr (stuck, task_inside-Lowers a s f h)
            ])
          ],
        )
