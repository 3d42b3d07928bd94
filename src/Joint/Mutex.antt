-- ===== src/Joint/Mutex.antt =====
-- spawns-core/src/task.rs: the accesses of Joint/Protocol.antt with the `Mutex` around `result`: a
-- thread locks it, replaces the result, and drops the guard, each in a step of its own.
pub mod Turns
mod Samples
use spawns.Prelude.{
  ℕ, ◌+◌, ◌-◌, ◌*◌, ◌≡◌, Bool, true, false, Option, none, some, Among, if◌then◌else◌,
}
use spawns.Joint.{Waker, Stage, TaskResult, JoinResult}
use spawns.Joint.Protocol.{WakePc, JoinPc, System, CanPoll, CanDrop, init, wakes, joins, ends}

-- Where a thread stands with the mutex: it has no guard; it has one, and the replacement is next; or
-- it has one that it drops next.
pub data Hold : Type 0 where
  outside inside leaving : Hold

module _ {A : Type 0} where
  -- The next access of `wake` is a replacement behind `self.result.lock()`.
  abbrev pub locks_wake : WakePc A → Bool
  locks_wake (WakePc.swap _) = true
  locks_wake (WakePc.matching JoinResult.detached) = true
  locks_wake _ = false

  -- The next access of `poll` or `drop` of the handle is one.
  abbrev pub locks_join : JoinPc A → Bool
  locks_join JoinPc.take = true
  locks_join (JoinPc.register _) = true
  locks_join (JoinPc.claim _) = true
  locks_join JoinPc.clear = true
  locks_join _ = false

module _ (A : Type 0) where
  pub record Locked : Type 0 where
    pub system : System A
    pub is_locked : Bool
    pub task_hold : Hold
    pub owner_hold : Hold

module _ {A : Type 0} where
  abbrev pub init_locked : Locked A
  init_locked = record {
    system = init;
    is_locked = false;
    task_hold = outside;
    owner_hold = outside;
  }

  -- The next step of the task: `none` while it waits for the mutex.
  unfoldable pub task_turn : Stage → Locked A → Option (Locked A)
  task_turn seen s = elim s.task_hold [
    | outside ↦
        if locks_wake s.system.task
        then (if s.is_locked
            then none
            else some (record s { is_locked = true; task_hold = inside }))
        else some (record s { system = wakes seen s.system })
    | inside ↦ some (record s { system = wakes seen s.system; task_hold = leaving })
    | leaving ↦ some (record s { is_locked = false; task_hold = outside })
  ]

  -- The next step of the owner of the handle.
  unfoldable pub owner_turn : Stage → Locked A → Option (Locked A)
  owner_turn seen s = elim s.owner_hold [
    | outside ↦
        if locks_join s.system.handle
        then (if s.is_locked
            then none
            else some (record s { is_locked = true; owner_hold = inside }))
        else some (record s { system = joins seen s.system })
    | inside ↦ some (record s { system = joins seen s.system; owner_hold = leaving })
    | leaving ↦ some (record s { is_locked = false; owner_hold = outside })
  ]

  -- One step of one of the two threads. A call begins when the last one has dropped its guard.
  pub data Turn (s : Locked A) : Locked A → Type 0 where
    finish :
        (value : TaskResult A)
        → s.system.task ≡ WakePc.idle
        → Turn s (record s { system = ends value s.system })
    wake :
        (seen : Stage) (t : Locked A)
        → Among seen s.system.stages
        → task_turn seen s ≡ some t
        → Turn s t
    poll :
        (waker : Waker)
        → CanPoll s.system.handle
        → s.owner_hold ≡ outside
        → Turn s (record s { system = record s.system { handle = JoinPc.load_stage waker } })
    drop :
        CanDrop s.system.handle
        → s.owner_hold ≡ outside
        → Turn s (record s { system = record s.system { handle = JoinPc.store_detached } })
    join :
        (seen : Stage) (t : Locked A)
        → Among seen s.system.stages
        → owner_turn seen s ≡ some t
        → Turn s t

  pub data ReachLocked : Locked A → Type 0 where
    start : ReachLocked init_locked
    later : {s t : Locked A} → ReachLocked s → Turn s t → ReachLocked t
