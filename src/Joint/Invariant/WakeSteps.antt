-- ===== src/Joint/Invariant/WakeSteps.antt =====
-- The task's accesses keep the invariant.
use spawns.Prelude.{inl, inr, ◌∷◌, some, Among, arith}
use spawns.Joint.{Stage, TaskResult, JoinResult, empty, joining, joined}
use spawns.Joint.Protocol.{Shared, WakePc, JoinPc, wake_step}
use spawns.Joint.Invariant.{Inv}

module _ {A : Type 0} where
  pub ends-Inv :
      (v : TaskResult A) (h : JoinPc A) (m : Shared A)
      → Inv WakePc.idle h m
      → Inv (WakePc.load_stage v) h (record m { produced = some v })
  ends-Inv v h m inv = record {
    saw_finished = inv.saw_finished;
    saw_detached = inv.saw_detached;
    body = ground (arith, inv.body);
  }

  load_stage-Inv :
      (seen : Stage) (v : TaskResult A) (h : JoinPc A) (m : Shared A)
      → Among seen m.stages
      → Inv (WakePc.load_stage v) h m
      → Inv (wake_step seen (WakePc.load_stage v) m).0 h m
  unfolding wake_step
  load_stage-Inv Stage.running v h m s inv = record {
    saw_finished = inv.saw_finished;
    saw_detached = inv.saw_detached;
    body = inv.body;
  }
  load_stage-Inv Stage.finished v h m s inv = absurd (inv.saw_finished s)
  load_stage-Inv Stage.detached v h m s inv = record {
    saw_finished = inv.saw_finished;
    saw_detached = inv.saw_detached;
    body = ground (arith, inv.body, inv.saw_detached s);
  }

  swap-Inv :
      (v : TaskResult A) (h : JoinPc A) (m : Shared A)
      → Inv (WakePc.swap v) h m
      → Inv (WakePc.publish m.result) h (record m { result = JoinResult.finished v })
  swap-Inv v h m inv = record {
    saw_finished = inv.saw_finished;
    saw_detached = inv.saw_detached;
    body = ground (arith, inv.body);
  }

  publish-Inv :
      (old : JoinResult A) (h : JoinPc A) (m : Shared A)
      → Inv (WakePc.publish old) h m
      → Inv (WakePc.matching old) h (record m { stages = Stage.finished ∷ m.stages })
  publish-Inv old h m inv = record {
    saw_finished = λ _. tt;
    saw_detached = λ i. elim i [ inl e ↦ cc | inr t ↦ inv.saw_detached t ];
    body = ground (arith, inv.body);
  }

  matching-Inv :
      (seen : Stage) (old : JoinResult A) (h : JoinPc A) (m : Shared A)
      → Inv (WakePc.matching old) h m
      → Inv (wake_step seen (WakePc.matching old) m).0 h (wake_step seen (WakePc.matching old) m).1
  unfolding wake_step
  matching-Inv seen empty h m inv = record {
    saw_finished = λ _. tt;
    saw_detached = inv.saw_detached;
    body = ground (arith, inv.body);
  }
  matching-Inv seen (joining w) h m inv = record {
    saw_finished = λ _. tt;
    saw_detached = inv.saw_detached;
    body = ground (arith, inv.body);
  }
  matching-Inv seen JoinResult.detached h m inv = record {
    saw_finished = λ _. tt;
    saw_detached = inv.saw_detached;
    body = ground (arith, inv.body);
  }
  matching-Inv seen joined h m inv = absurd (inv.body.1)
  matching-Inv seen (JoinResult.finished v) h m inv = absurd (inv.body.1)

  -- Whatever the task does next, and whatever its load of the stage sees.
  pub wake_step-Inv :
      (seen : Stage) (pc : WakePc A) (h : JoinPc A) (m : Shared A)
      → Among seen m.stages
      → Inv pc h m
      → Inv (wake_step seen pc m).0 h (wake_step seen pc m).1
  unfolding wake_step
  wake_step-Inv seen (WakePc.load_stage v) h m s inv = load_stage-Inv seen v h m s inv
  wake_step-Inv seen (WakePc.swap v) h m s inv = swap-Inv v h m inv
  wake_step-Inv seen (WakePc.publish old) h m s inv = publish-Inv old h m inv
  wake_step-Inv seen (WakePc.matching old) h m s inv = matching-Inv seen old h m inv
  wake_step-Inv seen WakePc.idle h m s inv = inv
  wake_step-Inv seen WakePc.skipped h m s inv = inv
  wake_step-Inv seen WakePc.done h m s inv = inv
  wake_step-Inv seen WakePc.unreachable h m s inv = inv
