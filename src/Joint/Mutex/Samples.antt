-- ===== src/Joint/Mutex/Samples.antt =====
-- A run of the two threads with the mutex, and the theorems at it.
use spawns.Prelude.{ℕ, ◌+◌, ◌≡◌, refl, inl, ◌⊎◌, true, none, some, ok}
use spawns.Joint.{Stage}
use spawns.Joint.Protocol.{JoinPc, wake_step, join_step, wakes, joins, ends}
use spawns.Joint.Mutex.{
  inside, leaving, Locked, init_locked, task_turn, owner_turn, ReachLocked, start, later, finish,
  wake, poll, join,
}
use spawns.Joint.Mutex.Turns.{Lowers, task_left, owner_left, calls_end}

-- The handle is polled with waker 7 and has loaded the stage.
abbrev loaded : Locked ℕ
loaded = record init_locked {
  system = joins Stage.running (record init_locked.system { handle = JoinPc.load_stage 7 });
}

-- The task ends with 5, and has locked the mutex to put that in.
abbrev contended : Locked ℕ
contended = record loaded {
  system = wakes Stage.running (ends (ok 5) loaded.system);
  is_locked = true;
  task_hold = inside;
}

contended-Reach : ReachLocked contended
unfolding task_turn owner_turn wake_step join_step
contended-Reach =
    later
      (later
        (later (later (later start (poll 7 tt refl)) (join Stage.running loaded (inl refl) refl))
          (finish (ok 5) refl))
        (wake Stage.running
          (record loaded { system = wakes Stage.running (ends (ok 5) loaded.system) }) (inl refl)
          refl))
      (wake Stage.running contended (inl refl) refl)

-- The owner waits for the mutex; the task replaces the result, unlocks, and then the owner locks.
contended_result :
    (owner_turn Stage.running contended ≡ none)
    × (task_turn Stage.running contended
        ≡ some (record contended {
          system = wakes Stage.running contended.system;
          task_hold = leaving;
        }))
unfolding task_turn owner_turn wake_step join_step
contended_result = (refl, refl)

calls_end_example :
    let left = task_left contended + owner_left contended in
    ((task_left contended ≡ 0)
      ⊎ (Lowers left (task_turn Stage.running contended)
          ⊎ ((task_turn Stage.running contended ≡ none)
              × Lowers left (owner_turn Stage.running contended))))
    × ((owner_left contended ≡ 0)
        ⊎ (Lowers left (owner_turn Stage.running contended)
            ⊎ ((owner_turn Stage.running contended ≡ none)
                × Lowers left (task_turn Stage.running contended))))
calls_end_example = calls_end contended-Reach Stage.running Stage.running
