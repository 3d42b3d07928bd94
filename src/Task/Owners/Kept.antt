-- ===== src/Task/Owners/Kept.antt =====
-- What each act does to the counts of the owners (spawns-core/src/task.rs).
use spawns.Prelude.{
  ℕ, ◌+◌, ◌-◌, ◌<◌, ◌≡◌, ◌⊎◌, inl, inr, refl, sym, ap, subst, ◌∙◌, Bool, Bool-cases, true, false,
  List, [], ◌∷◌, none, arith, ◌==◌, if_ind,
}
use spawns.Joint.{Waker}
use spawns.Cancellation.{Slot, null, ptr, Boxes}
use spawns.Cancellation
use spawns.Task.{
  Attempt, World, Op, polls, joins, cancels, attaches, detaches, cancels_detaching, drops_handle,
  drops_task, step, spawned,
}
use spawns.Task.Valid.{IsFresh, step-Valid, spawned-Valid}
use spawns.Task.Owners.{
  OwnedTask, Act, calls, makes_cancel_handle, clones_cancel_handle, cancels_by_handle,
  drops_cancel_handle, is_gone, new_task, release_cancellation, release_both, act, acts,
}
use spawns.Task.Owners.NoneLost.{step-NoneLost}
use spawns.Task.Owners.Count.{
  Kept, owners, of_task, of_handle, release_cancellation-Kept, drops, owners-step,
  owners-drops_task, owners-drops_handle,
}

abbrev needs_owner : Op → Bool
needs_owner cancels = true
needs_owner op = drops op

module _ {A S : Type 0} (poll_future : S → Waker → S × Attempt A) where
  -- Nothing happens to a task that has no owner.
  over_step :
      (id : ℕ) (op : Op) (w : World A S)
      → needs_owner op ≡ false
      → owners w ≡ 0
      → step poll_future id op w ≡ w
  unfolding step
  over_step id (polls x b) w e f = ground (arith, f)
  over_step id (joins u) w e f = ground (arith, f)
  over_step id attaches w e f = ground (arith, f)
  over_step id detaches w e f = ground (arith, f)
  over_step id cancels_detaching w e f = ground (arith, f)
  over_step id cancels w e f = absurd (cc)
  over_step id drops_task w e f = absurd (cc)
  over_step id drops_handle w e f = absurd (cc)

  -- Each new box goes to a free address.
  abbrev pub FreshAct : ℕ → Act → OwnedTask A S → Type 0
  FreshAct id (calls op) s = IsFresh poll_future id op s.world
  FreshAct id _ s = Unit

  abbrev pub AreFreshActs : ℕ → List Act → OwnedTask A S → Type 0
  AreFreshActs id [] s = Unit
  AreFreshActs id (a ∷ rest) s = FreshAct id a s × AreFreshActs id rest (act poll_future id a s)

  new_task-Kept : (future : S) (c : ℕ) → Kept {A = A} (new_task future) c
  unfolding spawned Cancellation.default
  new_task-Kept future c = record {
    joint = refl;
    cancellation = refl;
    valid = λ _. spawned-Valid future;
    lost = λ _ x. absurd (x refl);
    freed = λ x. absurd (omega (arith, x));
  }

  module _ (id : ℕ) (s : OwnedTask A S) (c : ℕ) (k : Kept s c) where
    -- A call by an owner that stays one.
    stepped-Kept :
        (op : Op)
        → IsFresh poll_future id op s.world
        → drops op ≡ false
        → 0 < s.cancellation_refs
        → Kept (record s { world = step poll_future id op s.world }) c
    stepped-Kept op f e h = record {
      joint = k.joint ∙ sym (owners-step poll_future id op s.world e);
      cancellation =
          k.cancellation
          ∙ ap (λ n. n + s.cancel_handles) (sym (owners-step poll_future id op s.world e));
      valid = λ _. step-Valid poll_future id op s.world f (k.valid h);
      lost = λ _. step-NoneLost (k.valid h) c (k.lost h) poll_future id op;
      freed = λ x. absurd (omega (arith, x, h));
    }

    any_stepped-Kept :
        (op : Op)
        → IsFresh poll_future id op s.world
        → needs_owner op ≡ false
        → Kept (record s { world = step poll_future id op s.world }) c
    any_stepped-Kept op f e = elim (Bool-cases (s.cancellation_refs == 0)) [
      | inl h ↦
          subst (λ w. Kept (record s { world = w }) c)
            (sym (over_step id op s.world e (ground (arith, h, k.cancellation)))) k
      | inr h ↦ stepped-Kept op f (ground (arith, e)) (ground (arith, h))
    ]

    drops_task-Kept :
        s.world.alive ≡ true
        → Kept (release_both (record s { world = step poll_future id drops_task s.world })) c
    unfolding release_both
    drops_task-Kept e =
        let some_left : 0 < s.cancellation_refs = ground (arith, e, k.cancellation) in
        let fewer = owners-drops_task poll_future id s.world e in
        release_cancellation-Kept _ c (omega (arith, fewer, k.joint))
          (omega (arith, fewer, k.cancellation))
          (step-Valid poll_future id drops_task s.world tt (k.valid some_left))
          (step-NoneLost (k.valid some_left) c (k.lost some_left) poll_future id drops_task)

    drops_handle-Kept :
        is_gone s.world.handle ≡ false
        → Kept (release_both (record s { world = step poll_future id drops_handle s.world })) c
    unfolding release_both
    drops_handle-Kept e =
        let some_left : 0 < s.cancellation_refs = ground (arith, e, k.cancellation) in
        let fewer = owners-drops_handle poll_future id s.world e in
        release_cancellation-Kept _ c (omega (arith, fewer, k.joint))
          (omega (arith, fewer, k.cancellation))
          (step-Valid poll_future id drops_handle s.world tt (k.valid some_left))
          (step-NoneLost (k.valid some_left) c (k.lost some_left) poll_future id drops_handle)

    more-Kept :
        0 < s.cancellation_refs
        → Kept
            (record s {
              cancellation_refs = s.cancellation_refs + 1;
              cancel_handles = s.cancel_handles + 1;
            })
            c
    more-Kept h = record {
      joint = k.joint;
      cancellation = omega (arith, k.cancellation);
      valid = λ _. k.valid h;
      lost = λ _. k.lost h;
      freed = λ x. absurd (omega (arith, x));
    }

    fewer-Kept :
        0 < s.cancel_handles
        → Kept (release_cancellation (record s { cancel_handles = s.cancel_handles - 1 })) c
    fewer-Kept h =
        let some_left : 0 < s.cancellation_refs = omega (arith, h, k.cancellation) in
        release_cancellation-Kept _ c k.joint (omega (arith, h, k.cancellation)) (k.valid some_left)
          (k.lost some_left)

    act-Kept : (a : Act) → FreshAct id a s → Kept (act poll_future id a s) c
    unfolding act step
    act-Kept (calls drops_task) f =
        if_ind (λ (t : OwnedTask A S). Kept t c) s.world.alive (λ e. drops_task-Kept e) (λ e. k)
    act-Kept (calls drops_handle) f =
        if_ind (λ (t : OwnedTask A S). Kept t c) (is_gone s.world.handle) (λ e. k)
          (λ e. drops_handle-Kept e)
    act-Kept (calls cancels) f =
        if_ind (λ (t : OwnedTask A S). Kept t c) (is_gone s.world.handle) (λ e. k)
          (λ e. stepped-Kept cancels tt refl (ground (arith, e, k.cancellation)))
    act-Kept (calls (polls x b)) f = any_stepped-Kept (polls x b) f refl
    act-Kept (calls (joins u)) f = any_stepped-Kept (joins u) tt refl
    act-Kept (calls attaches) f = any_stepped-Kept attaches tt refl
    act-Kept (calls detaches) f = any_stepped-Kept detaches tt refl
    act-Kept (calls cancels_detaching) f = any_stepped-Kept cancels_detaching tt refl
    act-Kept makes_cancel_handle f =
        if_ind (λ (t : OwnedTask A S). Kept t c) (is_gone s.world.handle) (λ e. k)
          (λ e. more-Kept (ground (arith, e, k.cancellation)))
    act-Kept clones_cancel_handle f =
        if_ind (λ (t : OwnedTask A S). Kept t c) (s.cancel_handles == 0) (λ e. k)
          (λ e. more-Kept (ground (arith, e, k.cancellation)))
    act-Kept cancels_by_handle f =
        if_ind (λ (t : OwnedTask A S). Kept t c) (s.cancel_handles == 0) (λ e. k)
          (λ e. stepped-Kept cancels tt refl (ground (arith, e, k.cancellation)))
    act-Kept drops_cancel_handle f =
        if_ind (λ (t : OwnedTask A S). Kept t c) (s.cancel_handles == 0) (λ e. k)
          (λ e. fewer-Kept (ground (arith, e)))

  acts-Kept :
      (id : ℕ) (done : List Act) (s : OwnedTask A S) (c : ℕ)
      → AreFreshActs id done s
      → Kept s c
      → Kept (acts poll_future id done s) c
  unfolding acts
  acts-Kept id [] s c f k = k
  acts-Kept id (a ∷ rest) s c f k =
      acts-Kept id rest (act poll_future id a s) c f.1 (act-Kept id s c k a f.0)

  -- The counts are right: after whatever is done to a task and its handles, if each new box goes to a
  -- free address, the counts of the two `Arc`s are the numbers of those that own them, and as soon as
  -- nobody owns the cancellation, no box of the task is left, at any address.
  pub owners_counted :
      (id : ℕ) (done : List Act) (future : S) (c : ℕ)
      → AreFreshActs id done (new_task future)
      → let s : OwnedTask A S = acts poll_future id done (new_task future) in
        (s.joint_refs ≡ of_task s.world.alive + of_handle s.world.handle)
        × (s.cancellation_refs
            ≡ of_task s.world.alive + of_handle s.world.handle + s.cancel_handles)
        × ((0 < s.cancellation_refs) ⊎ (s.world.boxes c ≡ none))
  owners_counted id done future c f =
      let k : Kept (acts poll_future id done (new_task future)) c =
        acts-Kept id done (new_task future) c f (new_task-Kept future c) in
      (k.joint, k.cancellation, ground (arith, k.freed))
