-- ===== src/Lifecycle/Ends.antt =====
-- What a joiner and a canceller may rely on when all threads of a task run at once.
use spawns.Prelude.{
  ◌≡◌, ◌≢◌, refl, ◌⊎◌, inl, inr, [], ◌∷◌, true, Option, none, some, ok, err, Among, arith, ℕ,
}
use spawns.Joint.{Waker, Payload, panic, TaskResult}
use spawns.Joint
use spawns.Joint.Protocol.{WakePc}
use spawns.Joint.Invariant.{Woken}
use spawns.Joint.Safety as JS
use spawns.Cancellation.{Slot, cancelled}
use spawns.Cancellation.Protocol.{CancelPc, TaskPc, current}
use spawns.Cancellation.Safety as CS
use spawns.Cancellation.Seen.{is_over}
use spawns.Lifecycle.{Cause, System, Reach, value_of}
use spawns.Lifecycle.Coupling.{Good, value_at, Reach-Good}

module _ {A : Type 0} where
  -- A result that a joiner got, by the cause of the end: what the future gave; or `Cancelled`, with
  -- the pointer `CANCELLED` or the task dropped.
  abbrev pub Explained : Cause A → TaskResult A → Slot → TaskPc → Type 0
  Explained (Cause.by_future (ok a)) v cur t = v ≡ ok a
  Explained (Cause.by_future (err p)) v cur t = v ≡ err (panic p)
  Explained Cause.by_cancel v cur t = (v ≡ err Joint.cancelled) × (cur ≡ cancelled)
  Explained Cause.by_drop v cur t = (v ≡ err Joint.cancelled) × (t ≡ TaskPc.dropped)

  pub caused :
      (o : Option (Cause A)) (v : TaskResult A)
      → value_at o ≡ some v
      → (cause : Cause A) × (o ≡ some cause) × (v ≡ value_of cause)
  caused none v e = absurd (cc)
  caused (some cause) v e = (cause, refl, ground arith)

  explain :
      (cause : Cause A) (v : TaskResult A) (cur : Slot) (t : TaskPc)
      → v ≡ value_of cause
      → (cause ≡ Cause.by_cancel → cur ≡ cancelled)
      → (cause ≡ Cause.by_drop → t ≡ TaskPc.dropped)
      → Explained cause v cur t
  explain cause v cur t e f g = ground (arith, f, g)

  -- The task is between polls or over, and inside no call.
  abbrev pub AtRest : TaskPc → WakePc A → Type 0
  AtRest TaskPc.fresh w = Unit
  AtRest (TaskPc.parked _ _) w = Unit
  AtRest (TaskPc.finished _) w = (w ≡ WakePc.idle) ⊎ (w ≡ WakePc.done) ⊎ (w ≡ WakePc.skipped)
  AtRest TaskPc.dropped w = (w ≡ WakePc.idle) ⊎ (w ≡ WakePc.done) ⊎ (w ≡ WakePc.skipped)
  AtRest _ w = ⊥

  module _ {s : System A} (r : Reach s) where
    -- With all threads of a task interleaved, a joiner that gets a result gets the one that explains
    -- the task's end. It gets a value or a panic only if a poll of the future gave just that, and
    -- `Cancelled` only if the task was cancelled, for good, or dropped before its end.
    pub delivered-Explained :
        (v : TaskResult A)
        → s.joint.delivered ≡ v ∷ []
        → (cause : Cause A) × (s.cause ≡ some cause)
          × Explained cause v (current s.cancellation.slots) s.cancellation.task
    delivered-Explained v e =
        let g = Reach-Good r in
        let (cause, f, h) = caused s.cause v (produced g) in
        (
          cause,
          f,
          explain cause v _ _ h (λ x. g.blamed (ground arith)) (λ x. g.dropped (ground arith)),
        )
      where
        produced : Good s → value_at s.cause ≡ some v
        produced g = elim (JS.delivered_at_most_once g.joint) [
          | inl x ↦ absurd (cc)
          | inr (w, x, y) ↦ ground (arith, g.produced)
        ]

    abbrev Noticed : Type 0
    Noticed =
        (s.cancellation.task ≡ TaskPc.fresh)
        ⊎ ((w : Waker) × (spare : Option ℕ) × (s.cancellation.task ≡ TaskPc.parked w spare)
            × Among w s.cancellation.woken)
        ⊎ (is_over s.cancellation.task ≡ true)
          × Woken s.joint.handle s.joint.delivered s.joint.woken

    over_notices :
        is_over s.cancellation.task ≡ true
        → (s.joint.task ≡ WakePc.idle)
          ⊎ (s.joint.task ≡ WakePc.done)
          ⊎ (s.joint.task ≡ WakePc.skipped)
        → Woken s.joint.handle s.joint.delivered s.joint.woken
    over_notices e (inl a) = absurd ((Reach-Good r).over e a)
    over_notices e (inr a) = ground (arith, (JS.Reach-Inv (Reach-Good r).joint).body)

    notice :
        (t : TaskPc)
        → s.cancellation.task ≡ t
        → current s.cancellation.slots ≡ cancelled
        → ((i b : ℕ) → s.cancellation.cancels i ≢ CancelPc.waking b)
        → AtRest t s.joint.task
        → Noticed
    notice TaskPc.fresh q e f a = inl q
    notice (TaskPc.parked w p) q e f a =
        inr (inl (w, p, q, CS.no_lost_cancel (Reach-Good r).cancellation w p q e f))
    notice (TaskPc.finished p) q e f a = inr (inr (rw q refl, over_notices (rw q refl) a))
    notice TaskPc.dropped q e f a = inr (inr (rw q refl, over_notices (rw q refl) a))
    notice (TaskPc.checking p) q e f a = absurd a
    notice (TaskPc.polling p) q e f a = absurd a
    notice (TaskPc.loading w b) q e f a = absurd a
    notice (TaskPc.trying w b c) q e f a = absurd a

    -- A cancellation is noticed. Once the task is cancelled, no handle is on its way to wake, and
    -- the task is inside no call: the task was never polled; or it is parked, and the waker of its
    -- last poll has been woken; or it is over, and the owner of the join handle
    -- does not wait for it: if the last poll of the handle was pending, and none before returned the
    -- result, its waker has been woken.
    pub cancelled_is_noticed :
        current s.cancellation.slots ≡ cancelled
        → ((i b : ℕ) → s.cancellation.cancels i ≢ CancelPc.waking b)
        → AtRest s.cancellation.task s.joint.task
        → (s.cancellation.task ≡ TaskPc.fresh)
          ⊎ ((w : Waker) × (spare : Option ℕ) × (s.cancellation.task ≡ TaskPc.parked w spare)
              × Among w s.cancellation.woken)
          ⊎ (is_over s.cancellation.task ≡ true)
            × Woken s.joint.handle s.joint.delivered s.joint.woken
    cancelled_is_noticed e f a = notice s.cancellation.task refl e f a
