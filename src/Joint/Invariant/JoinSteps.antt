-- ===== src/Joint/Invariant/JoinSteps.antt =====
-- The accesses of the handle's owner keep the invariant.
use spawns.Prelude.{◌≡◌, refl, inl, inr, Among, arith}
use spawns.Joint.{Waker, Stage, TaskResult}
use spawns.Joint.Protocol.{Shared, WakePc, JoinPc, join_step, CanPoll, CanDrop}
use spawns.Joint.Invariant.{Inv, Body, IsPublished, IsDetaching}

module _ {A : Type 0} (t : WakePc A) (m : Shared A) where
  poll-Body : (w : Waker) (h : JoinPc A) → CanPoll h → Body t h m → Body t (JoinPc.load_stage w) m
  poll-Body w h c b = ground arith

  drop-Body : (h : JoinPc A) → CanDrop h → Body t h m → Body t JoinPc.store_detached m
  drop-Body h c b = ground arith

  stage-Body :
      (seen : Stage) (w : Waker)
      → (seen ≡ Stage.finished → IsPublished t)
      → Body t (JoinPc.load_stage w) m
      → Body t (join_step seen (JoinPc.load_stage w) m).0 m
  unfolding join_step
  stage-Body seen w p b = ground arith

  register-Body :
      (w : Waker) (seen : Stage)
      → Body t (JoinPc.register w) m
      → Body t (join_step seen (JoinPc.register w) m).0 (join_step seen (JoinPc.register w) m).1
  unfolding join_step
  register-Body w seen b = ground arith

  take-Body :
      (seen : Stage)
      → Body t JoinPc.take m
      → Body t (join_step seen JoinPc.take m).0 (join_step seen JoinPc.take m).1
  unfolding join_step
  take-Body seen b = ground arith

  claim-Body :
      (r : TaskResult A) (seen : Stage)
      → Body t (JoinPc.claim r) m
      → Body t (join_step seen (JoinPc.claim r) m).0 (join_step seen (JoinPc.claim r) m).1
  unfolding join_step
  claim-Body r seen b = ground arith

  store-Body :
      (seen : Stage)
      → Body t JoinPc.store_detached m
      → Body t (join_step seen JoinPc.store_detached m).0 (join_step seen JoinPc.store_detached m).1
  unfolding join_step
  store-Body seen b = ground arith

  clear-Body :
      (seen : Stage)
      → Body t JoinPc.clear m
      → Body t (join_step seen JoinPc.clear m).0 (join_step seen JoinPc.clear m).1
  unfolding join_step
  clear-Body seen b = ground arith

-- A step that stores nothing in the stage and does not start from a detaching handle.
module _ {A : Type 0} {t : WakePc A} {h : JoinPc A} {m : Shared A} (inv : Inv t h m) where
  keep :
      (h' : JoinPc A) (m' : Shared A)
      → m'.stages ≡ m.stages
      → (IsDetaching h → IsDetaching h')
      → Body t h' m'
      → Inv t h' m'
  keep h' m' e d b = record {
    saw_finished = λ i. inv.saw_finished (rw e at i);
    saw_detached = λ i. d (inv.saw_detached (rw e at i));
    body = b;
  }

module _ {A : Type 0} where
  not_detaching : (h : JoinPc A) → CanPoll h → IsDetaching h → ⊥
  not_detaching h c d = ground arith

  not_dropping : (h : JoinPc A) → CanDrop h → IsDetaching h → ⊥
  not_dropping h c d = ground arith

  pub poll-Inv :
      (w : Waker) (t : WakePc A) (h : JoinPc A) (m : Shared A)
      → CanPoll h
      → Inv t h m
      → Inv t (JoinPc.load_stage w) m
  poll-Inv w t h m c inv =
      keep inv _ m refl (λ d. absurd (not_detaching h c d)) (poll-Body t m w h c inv.body)

  pub drop-Inv :
      (t : WakePc A) (h : JoinPc A) (m : Shared A)
      → CanDrop h
      → Inv t h m
      → Inv t JoinPc.store_detached m
  drop-Inv t h m c inv =
      keep inv _ m refl (λ d. absurd (not_dropping h c d)) (drop-Body t m h c inv.body)

  store-Inv :
      (seen : Stage) (t : WakePc A) (m : Shared A)
      → Inv t JoinPc.store_detached m
      → Inv t (join_step seen JoinPc.store_detached m).0 (join_step seen JoinPc.store_detached m).1
  unfolding join_step
  store-Inv seen t m inv = record {
    saw_finished = λ i. elim i [ inl e ↦ cc | inr j ↦ inv.saw_finished j ];
    saw_detached = λ _. tt;
    body = store-Body t m seen inv.body;
  }

  taken_stages : (seen : Stage) (m : Shared A) → (join_step seen JoinPc.take m).1.stages ≡ m.stages
  unfolding join_step
  taken_stages seen m = ground arith

  -- Whatever the owner does next inside a poll or a drop, and whatever its load of the stage sees.
  pub join_step-Inv :
      (seen : Stage) (t : WakePc A) (h : JoinPc A) (m : Shared A)
      → Among seen m.stages
      → Inv t h m
      → Inv t (join_step seen h m).0 (join_step seen h m).1
  unfolding join_step
  join_step-Inv seen t (JoinPc.load_stage w) m s inv =
      keep inv _ m refl (λ d. absurd d)
        (stage-Body t m seen w (λ e. inv.saw_finished (rw e at s)) inv.body)
  join_step-Inv seen t JoinPc.take m s inv =
      keep inv _ _ (taken_stages seen m) (λ d. absurd d) (take-Body t m seen inv.body)
  join_step-Inv seen t (JoinPc.register w) m s inv =
      keep inv _ _ refl (λ d. absurd d) (register-Body t m w seen inv.body)
  join_step-Inv seen t (JoinPc.claim r) m s inv =
      keep inv _ _ refl (λ d. absurd d) (claim-Body t m r seen inv.body)
  join_step-Inv seen t JoinPc.store_detached m s inv = store-Inv seen t m inv
  join_step-Inv seen t JoinPc.clear m s inv =
      keep inv _ _ refl (λ _. tt) (clear-Body t m seen inv.body)
  join_step-Inv seen t JoinPc.free m s inv = inv
  join_step-Inv seen t (JoinPc.waiting _) m s inv = inv
  join_step-Inv seen t JoinPc.got m s inv = inv
  join_step-Inv seen t JoinPc.panicked_joined m s inv = inv
  join_step-Inv seen t JoinPc.panicked_detached m s inv = inv
  join_step-Inv seen t JoinPc.unreachable m s inv = inv
  join_step-Inv seen t JoinPc.dropped m s inv = inv
