-- ===== src/Joint.antt =====
-- spawns-core/src/task.rs: `Stage`, `JoinResult`, `Joint`, and what `JoinHandle` does to a joint.
-- Each function here is one call that no other thread interleaves with; `Joint.Protocol` has the
-- same code a shared access at a time. A waker and a panic payload are known by a number.
pub mod Protocol
pub mod Invariant
pub mod Safety
pub mod Atomic
pub mod Promise
pub mod Mutex
pub mod Progress
pub mod Reference
mod Samples
use spawns.Prelude.{
  ℕ, zero, suc, List, [], ◌∷◌, Option, none, some, Result, Poll, Outcome, ready, pending, returns,
  panics, map_err,
}

abbrev pub Waker : Type 0
Waker = ℕ

abbrev pub Payload : Type 0
Payload = ℕ

pub data Stage : Type 0 where
  running finished detached : Stage

-- `stage as usize`
unfoldable pub as_usize : Stage → ℕ
as_usize Stage.running = 0
as_usize Stage.finished = 1
as_usize Stage.detached = 2

-- `none` is the `unreachable!` of the source.
unfoldable pub from : ℕ → Option Stage
from zero = some Stage.running
from (suc zero) = some Stage.finished
from (suc (suc zero)) = some Stage.detached
from _ = none

pub data InnerJoinError : Type 0 where
  cancelled : InnerJoinError
  panic : Payload → InnerJoinError

pub record JoinError : Type 0 where
  pub id : ℕ
  pub inner : InnerJoinError

-- `Result<T, InnerJoinError>`
abbrev pub TaskResult {ℓ} : Type ℓ → Type ℓ
TaskResult A = Result A InnerJoinError

pub data JoinResult {ℓ} (A : Type ℓ) : Type ℓ where
  empty : JoinResult A
  joining : Waker → JoinResult A
  joined : JoinResult A
  finished : TaskResult A → JoinResult A
  detached : JoinResult A

pub record Joint {ℓ} (A : Type ℓ) : Type ℓ where
  pub stage : Stage
  pub result : JoinResult A

pub data Panic : Type 0 where
  completed_already : Panic
  already_joined : ℕ → Panic
  already_detached : ℕ → Panic
  no_result : Panic

module _ {ℓ} {A : Type ℓ} where
  unfoldable pub new : Joint A
  new = record { stage = Stage.running; result = empty }

  -- The `match` at the end of `Joint::wake`: the joint, and the wakers that are woken.
  unfoldable pub settle : JoinResult A → Joint A → Joint A × Outcome Panic (List Waker)
  settle empty j = (j, returns [])
  settle (joining waker) j = (j, returns (waker ∷ []))
  settle (JoinResult.finished _) j = (j, panics completed_already)
  settle joined j = (j, panics completed_already)
  settle JoinResult.detached j = (record j { result = JoinResult.detached }, returns [])

  unfoldable pub wake : Joint A → TaskResult A → Joint A × Outcome Panic (List Waker)
  unfolding settle
  wake j value = elim j.stage [
    | Stage.running ↦
        settle j.result (record { stage = Stage.finished; result = JoinResult.finished value })
    | _ ↦ (j, returns [])
  ]

  abbrev pub ready_with : ℕ → TaskResult A → Outcome Panic (Poll (Result A JoinError))
  ready_with id result =
      returns (ready (map_err (λ inner. record { id = id; inner = inner }) result))

  -- The branch of `JoinHandle::poll` after it read `Finished`.
  unfoldable pub join_finished :
      ℕ → JoinResult A → Joint A → Joint A × Outcome Panic (Poll (Result A JoinError))
  join_finished id (JoinResult.finished result) j = (j, ready_with id result)
  join_finished id joined j = (j, panics (already_joined id))
  join_finished id JoinResult.detached j = (j, panics (already_detached id))
  join_finished id _ j = (j, panics no_result)

  -- The other branch, after it put its waker in.
  unfoldable pub join_registered :
      ℕ → JoinResult A → Joint A → Joint A × Outcome Panic (Poll (Result A JoinError))
  join_registered id (JoinResult.finished result) j =
      (record j { result = joined }, ready_with id result)
  join_registered id empty j = (j, returns pending)
  join_registered id (joining _) j = (j, returns pending)
  join_registered id joined j = (j, panics (already_joined id))
  join_registered id JoinResult.detached j = (j, panics (already_detached id))

  -- `JoinHandle::poll` of the handle with this id.
  unfoldable pub poll : ℕ → Waker → Joint A → Joint A × Outcome Panic (Poll (Result A JoinError))
  unfolding join_finished join_registered
  poll id waker j = elim j.stage [
    | Stage.finished ↦ join_finished id j.result (record j { result = joined })
    | _ ↦ join_registered id j.result (record j { result = joining waker })
  ]

  -- `Drop for JoinHandle`
  unfoldable pub drop : Joint A → Joint A
  drop j = record { stage = Stage.detached; result = JoinResult.detached }
