-- ===== src/Joint/Invariant.antt =====
-- What holds between any two accesses of the task and of the handle's owner.
pub mod WakeSteps
pub mod JoinSteps
use spawns.Prelude.{◌≡◌, ◌⊎◌, List, [], ◌∷◌, Option, none, some, Among}
use spawns.Joint.{Waker, Stage, TaskResult, JoinResult, empty, joining, joined}
use spawns.Joint.Protocol.{Shared, WakePc, JoinPc, System}

module _ {A : Type 0} where
  abbrev IsOpen : JoinResult A → Type 0
  IsOpen empty = Unit
  IsOpen (joining _) = Unit
  IsOpen _ = ⊥

  -- Before the task swaps its result in.
  abbrev Before : JoinPc A → JoinResult A → Type 0
  Before JoinPc.free r = r ≡ empty
  Before (JoinPc.waiting w) r = r ≡ joining w
  Before (JoinPc.load_stage _) r = IsOpen r
  Before (JoinPc.register _) r = IsOpen r
  Before JoinPc.store_detached r = IsOpen r
  Before JoinPc.clear r = IsOpen r
  Before JoinPc.dropped r = r ≡ JoinResult.detached
  Before _ r = ⊥

  -- After `wake` returned early.
  abbrev Gone : JoinPc A → JoinResult A → Type 0
  Gone JoinPc.clear r = IsOpen r
  Gone JoinPc.dropped r = r ≡ JoinResult.detached
  Gone _ r = ⊥

  -- The task's result waits in the joint.
  abbrev pub Held : Option (TaskResult A) → JoinResult A → Type 0
  Held (some v) r = r ≡ JoinResult.finished v
  Held none r = ⊥

  -- One poll has returned the task's result.
  abbrev pub Once : Option (TaskResult A) → List (TaskResult A) → Type 0
  Once (some v) ds = ds ≡ v ∷ []
  Once none ds = ⊥

  abbrev Undelivered : Shared A → Type 0
  Undelivered m = Held m.produced m.result × (m.delivered ≡ [])

  abbrev Delivered : Shared A → Type 0
  Delivered m = (m.result ≡ joined) × Once m.produced m.delivered

  -- What a joint holds once its result was taken: a poll that panics may leave its waker there.
  abbrev IsTaken : JoinResult A → Type 0
  IsTaken joined = Unit
  IsTaken (joining _) = Unit
  IsTaken _ = ⊥

  abbrev Spent : Shared A → Type 0
  Spent m = IsTaken m.result × Once m.produced m.delivered

  -- After the task swapped its result in.
  abbrev After : JoinPc A → Shared A → Type 0
  After JoinPc.free m = Undelivered m
  After (JoinPc.waiting _) m = Undelivered m ⊎ Spent m
  After (JoinPc.load_stage _) m = Undelivered m ⊎ Spent m
  After JoinPc.take m = Undelivered m ⊎ Spent m
  After (JoinPc.register _) m = Undelivered m ⊎ Spent m
  After (JoinPc.claim r) m = (m.produced ≡ some r) × (m.delivered ≡ [])
  After JoinPc.got m = Delivered m
  After JoinPc.panicked_joined m = Spent m
  After JoinPc.panicked_detached m = ⊥
  After JoinPc.unreachable m = Spent m
  After _ m = (m.delivered ≡ []) ⊎ Once m.produced m.delivered

  -- A dropped handle left its mark.
  abbrev Marked : JoinPc A → JoinResult A → Type 0
  Marked JoinPc.dropped r = r ≡ JoinResult.detached
  Marked _ r = Unit

  abbrev IsDropped : JoinPc A → Type 0
  IsDropped JoinPc.dropped = Unit
  IsDropped _ = ⊥

  -- What the task found in the joint when it swapped its result in.
  abbrev Found : JoinResult A → JoinPc A → Shared A → Type 0
  Found empty h m = Marked h m.result
  Found (joining _) h m = Marked h m.result
  Found JoinResult.detached h m = IsDropped h × Held m.produced m.result
  Found _ h m = ⊥

  -- The waker of a handle that waits, with no result returned before, is due to be woken.
  abbrev Due : JoinResult A → JoinPc A → List (TaskResult A) → Type 0
  Due old (JoinPc.waiting w) [] = old ≡ joining w
  Due old _ _ = Unit

  abbrev pub Woken : JoinPc A → List (TaskResult A) → List Waker → Type 0
  Woken (JoinPc.waiting w) [] ws = Among w ws
  Woken _ _ ws = Unit

  abbrev pub Body : WakePc A → JoinPc A → Shared A → Type 0
  Body WakePc.idle h m = (m.produced ≡ none) × (m.delivered ≡ []) × Before h m.result
  Body (WakePc.load_stage v) h m = (m.produced ≡ some v) × (m.delivered ≡ []) × Before h m.result
  Body (WakePc.swap v) h m = (m.produced ≡ some v) × (m.delivered ≡ []) × Before h m.result
  Body WakePc.skipped h m = (m.delivered ≡ []) × Gone h m.result
  Body (WakePc.publish old) h m = After h m × Found old h m × Due old h m.delivered
  Body (WakePc.matching old) h m = After h m × Found old h m × Due old h m.delivered
  Body WakePc.done h m = After h m × Marked h m.result × Woken h m.delivered m.woken
  Body WakePc.unreachable h m = ⊥

  abbrev IsPublished : WakePc A → Type 0
  IsPublished (WakePc.matching _) = Unit
  IsPublished WakePc.done = Unit
  IsPublished _ = ⊥

  abbrev IsDetaching : JoinPc A → Type 0
  IsDetaching JoinPc.clear = Unit
  IsDetaching JoinPc.dropped = Unit
  IsDetaching _ = ⊥

  pub record Inv (task : WakePc A) (handle : JoinPc A) (m : Shared A) : Type 0 where
    pub saw_finished : Among Stage.finished m.stages → IsPublished task
    pub saw_detached : Among Stage.detached m.stages → IsDetaching handle
    pub body : Body task handle m

  abbrev pub SystemInv : System A → Type 0
  SystemInv s = Inv s.task s.handle s.shared
