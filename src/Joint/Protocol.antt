-- ===== src/Joint/Protocol.antt =====
-- spawns-core/src/task.rs: `Joint::wake` and `JoinHandle`'s poll and drop, a shared access at a
-- time. The task and the owner of the handle are two threads. `stage` is a `Relaxed` atomic: a load
-- may see any value stored so far, so the memory keeps all of them, the last one first.
-- Each replacement of `result` under the mutex is one step here; `Joint.Mutex` takes it apart.
use spawns.Prelude.{◌≡◌, List, [], ◌∷◌, Option, none, some, Among}
use spawns.Joint.{Waker, Stage, TaskResult, JoinResult, empty, joining, joined}

module _ {ℓ} (A : Type ℓ) where
  pub record Shared : Type ℓ where
    pub stages : List Stage
    pub result : JoinResult A
    -- Observed only: the wakers woken, what the task ended with, what polls returned as ready.
    pub woken : List Waker
    pub produced : Option (TaskResult A)
    pub delivered : List (TaskResult A)

  -- Where the task stands in `wake`.
  pub data WakePc : Type ℓ where
    idle : WakePc
    load_stage : TaskResult A → WakePc
    swap : TaskResult A → WakePc
    publish : JoinResult A → WakePc
    matching : JoinResult A → WakePc
    skipped done unreachable : WakePc

  -- Where the owner of the handle stands. `waiting` is after a poll that returned `Pending`, `got`
  -- after one that returned `Ready`, `panicked` after one that panicked.
  pub data JoinPc : Type ℓ where
    free : JoinPc
    waiting : Waker → JoinPc
    load_stage : Waker → JoinPc
    take : JoinPc
    register : Waker → JoinPc
    claim : TaskResult A → JoinPc
    got panicked_joined panicked_detached unreachable : JoinPc
    store_detached clear dropped : JoinPc

module _ {ℓ} {A : Type ℓ} where
  -- The `match` of `wake` on what it replaced.
  match_old : JoinResult A → Shared A → WakePc A × Shared A
  match_old empty m = (WakePc.done, m)
  match_old (joining waker) m = (WakePc.done, record m { woken = waker ∷ m.woken })
  match_old joined m = (WakePc.unreachable, m)
  match_old (JoinResult.finished _) m = (WakePc.unreachable, m)
  match_old JoinResult.detached m = (WakePc.done, record m { result = JoinResult.detached })

  abbrev after_load : Stage → TaskResult A → WakePc A
  after_load Stage.running value = WakePc.swap value
  after_load Stage.finished value = WakePc.skipped
  after_load Stage.detached value = WakePc.skipped

  -- The next access of `wake`; `seen` is what a load of the stage returns.
  unfoldable pub wake_step : Stage → WakePc A → Shared A → WakePc A × Shared A
  unfolding match_old
  wake_step seen (WakePc.load_stage value) m = (after_load seen value, m)
  wake_step seen (WakePc.swap value) m =
      (WakePc.publish m.result, record m { result = JoinResult.finished value })
  wake_step seen (WakePc.publish old) m =
      (WakePc.matching old, record m { stages = Stage.finished ∷ m.stages })
  wake_step seen (WakePc.matching old) m = match_old old m
  wake_step seen pc m = (pc, m)

  -- The `match` of `poll` after it read `Finished`.
  match_taken : JoinResult A → Shared A → JoinPc A × Shared A
  match_taken (JoinResult.finished r) m = (JoinPc.got, record m { delivered = r ∷ m.delivered })
  match_taken joined m = (JoinPc.panicked_joined, m)
  match_taken JoinResult.detached m = (JoinPc.panicked_detached, m)
  match_taken empty m = (JoinPc.unreachable, m)
  match_taken (joining _) m = (JoinPc.unreachable, m)

  -- The `match` of `poll` after it put its waker in.
  abbrev match_registered : JoinResult A → Waker → JoinPc A
  match_registered (JoinResult.finished r) waker = JoinPc.claim r
  match_registered empty waker = JoinPc.waiting waker
  match_registered (joining _) waker = JoinPc.waiting waker
  match_registered joined waker = JoinPc.panicked_joined
  match_registered JoinResult.detached waker = JoinPc.panicked_detached

  abbrev after_stage : Stage → Waker → JoinPc A
  after_stage Stage.finished waker = JoinPc.take
  after_stage Stage.running waker = JoinPc.register waker
  after_stage Stage.detached waker = JoinPc.register waker

  -- The next access of the handle's owner inside `poll` or `drop`.
  unfoldable pub join_step : Stage → JoinPc A → Shared A → JoinPc A × Shared A
  unfolding match_taken
  join_step seen (JoinPc.load_stage waker) m = (after_stage seen waker, m)
  join_step seen JoinPc.take m = match_taken m.result (record m { result = joined })
  join_step seen (JoinPc.register waker) m =
      (match_registered m.result waker, record m { result = joining waker })
  join_step seen (JoinPc.claim r) m =
      (JoinPc.got, record m { result = joined; delivered = r ∷ m.delivered })
  join_step seen JoinPc.store_detached m =
      (JoinPc.clear, record m { stages = Stage.detached ∷ m.stages })
  join_step seen JoinPc.clear m = (JoinPc.dropped, record m { result = JoinResult.detached })
  join_step seen pc m = (pc, m)

  -- The owner may poll unless a call runs or the handle is gone, also after a poll that returned the
  -- result or panicked.
  abbrev pub CanPoll : JoinPc A → Type 0
  CanPoll JoinPc.free = Unit
  CanPoll (JoinPc.waiting _) = Unit
  CanPoll JoinPc.got = Unit
  CanPoll JoinPc.panicked_joined = Unit
  CanPoll JoinPc.panicked_detached = Unit
  CanPoll JoinPc.unreachable = Unit
  CanPoll _ = ⊥

  abbrev pub CanDrop : JoinPc A → Type 0
  CanDrop JoinPc.free = Unit
  CanDrop (JoinPc.waiting _) = Unit
  CanDrop JoinPc.got = Unit
  CanDrop JoinPc.panicked_joined = Unit
  CanDrop JoinPc.panicked_detached = Unit
  CanDrop JoinPc.unreachable = Unit
  CanDrop _ = ⊥

module _ {ℓ} (A : Type ℓ) where
  pub record System : Type ℓ where
    pub task : WakePc A
    pub handle : JoinPc A
    pub shared : Shared A
    pub open shared use *

module _ {ℓ} {A : Type ℓ} where
  -- `Joint::new`, with the task not yet at its end and the handle not yet polled.
  abbrev pub init : System A
  init = record {
    task = WakePc.idle;
    handle = JoinPc.free;
    shared = record {
      stages = Stage.running ∷ [];
      result = empty;
      woken = [];
      produced = none;
      delivered = [];
    };
  }

  abbrev pub wakes : Stage → System A → System A
  wakes seen s = record s {
    task = (wake_step seen s.task s.shared).0;
    shared = (wake_step seen s.task s.shared).1;
  }

  abbrev pub joins : Stage → System A → System A
  joins seen s = record s {
    handle = (join_step seen s.handle s.shared).0;
    shared = (join_step seen s.handle s.shared).1;
  }

  abbrev pub ends : TaskResult A → System A → System A
  ends value s = record s {
    task = WakePc.load_stage value;
    shared = record s.shared { produced = some value };
  }

  -- One step of one of the two threads. The task calls `wake` once: `TaskFuture` sees to that.
  pub data Step (s : System A) : System A → Type ℓ where
    finish : (value : TaskResult A) → s.task ≡ WakePc.idle → Step s (ends value s)
    wake : (seen : Stage) → Among seen s.stages → Step s (wakes seen s)
    poll :
        (waker : Waker) → CanPoll s.handle → Step s (record s { handle = JoinPc.load_stage waker })
    drop : CanDrop s.handle → Step s (record s { handle = JoinPc.store_detached })
    join : (seen : Stage) → Among seen s.stages → Step s (joins seen s)

  pub data Reach : System A → Type ℓ where
    start : Reach init
    later : {s t : System A} → Reach s → Step s t → Reach t
