-- ===== src/Crowd/Alone.antt =====
-- A task among many (spawns-core/src/task.rs), and the calls on it alone.
use spawns.Prelude.{
  ℕ, ◌≢◌, inl, inr, List, [], ◌∷◌, arith, Bool-cases, ◌==◌, if◌then◌else◌, sym, subst,
}
use spawns.Joint.{Waker}
use spawns.Cancellation.{Slot, null, ptr, Boxes, set_at}
use spawns.Cancellation
use spawns.Task.{Attempt, World, Op, step, run, spawned}
use spawns.Crowd.{Crowd, task_in, all_spawned, call, calls}
use spawns.Crowd.Apart.{
  AllValid, all_spawned-AllValid, FreshIn, call-AllValid, call_other, call_own,
}
use spawns.Crowd.Same.{Same, On, step-Same, other-Same}

-- The calls on task `i`.
unfoldable pub calls_on : ℕ → List (ℕ × Op) → List Op
calls_on i [] = []
calls_on i ((j, op) ∷ cs) = if j == i then op ∷ calls_on i cs else calls_on i cs

module _ {A S : Type 0} (poll_future : S → Waker → S × Attempt A) (id : ℕ → ℕ) where
  -- Each new box goes to an address that is free on the heap then.
  abbrev pub AllFresh : List (ℕ × Op) → Crowd A S → Type 0
  AllFresh [] s = Unit
  AllFresh (c ∷ cs) s = FreshIn poll_future id c s × AllFresh cs (call poll_future id c s)

  -- Any calls on any number of tasks, in any order, keep every task well-formed on the heap that they
  -- share, and no box becomes two tasks', if each new box goes to a free address.
  pub calls-AllValid :
      (cs : List (ℕ × Op)) (s : Crowd A S)
      → AllFresh cs s
      → AllValid s
      → AllValid (calls poll_future id cs s)
  unfolding calls
  calls-AllValid [] s f v = v
  calls-AllValid ((j, op) ∷ cs) s f v =
      calls-AllValid cs (call poll_future id (j, op) s) f.1
        (call-AllValid poll_future id v j op f.0)

  own-Same :
      {s : Crowd A S} {u : World A S} (v : AllValid s) (i : ℕ) (op : Op)
      → FreshIn poll_future id (i, op) s
      → Same (task_in s i) u
      → Same (task_in (call poll_future id (i, op) s) i) (step poll_future (id i) op u)
  own-Same {u} v i op f e =
      subst (λ w. Same w (step poll_future (id i) op u)) (sym (call_own poll_future id v i op f))
        (step-Same poll_future (id i) op (v.valid i) f e)

  call_other-Same :
      {s : Crowd A S} {u : World A S} (v : AllValid s) (j : ℕ) (op : Op) (i : ℕ)
      → FreshIn poll_future id (j, op) s
      → j ≢ i
      → Same (task_in s i) u
      → Same (task_in (call poll_future id (j, op) s) i) u
  call_other-Same {s} {u} v j op i f ne e =
      let heap = (call poll_future id (j, op) s).heap in
      subst (λ w. Same (On w heap) u) (sym (call_other poll_future id v j op f i 0 ne).0)
        (other-Same heap (λ c. (call_other poll_future id v j op f i c ne).1) e)

  pub calls-Same :
      (cs : List (ℕ × Op)) (s : Crowd A S) (u : World A S) (i : ℕ)
      → AllFresh cs s
      → AllValid s
      → Same (task_in s i) u
      → Same (task_in (calls poll_future id cs s) i) (run poll_future (id i) (calls_on i cs) u)
  unfolding calls calls_on run
  calls-Same [] s u i f v e = e
  calls-Same ((j, op) ∷ cs) s u i f v e =
      let s' = call poll_future id (j, op) s in
      let v' = call-AllValid poll_future id v j op f.0 in
      elim (Bool-cases (j == i)) [
        | inl h ↦
            rw (h, if◌then◌else◌)
              (calls-Same cs s' (step poll_future (id i) op u) i f.1 v' (
                subst
                  (λ k. Same (task_in s k) u → Same (task_in s' k) (step poll_future (id k) op u))
                  (ground (arith, h)) (own-Same v j op f.0) e))
        | inr h ↦
            rw (h, if◌then◌else◌)
              (calls-Same cs s' u i f.1 v' (call_other-Same v j op i f.0 (ground (arith, h)) e))
      ]

  -- However the calls on any number of tasks on one heap are mixed, if each new box goes to a free
  -- address, a task with all that it shares is in the end what the calls on it alone make of it, on
  -- a heap of its own: its future, its joint, its handle, its pointer, the wakers woken through it,
  -- and the contents of its boxes.
  pub calls_alone :
      (cs : List (ℕ × Op)) (futures : ℕ → S) (i : ℕ)
      → AllFresh cs (all_spawned futures)
      → Same
          (task_in (calls poll_future id cs (all_spawned futures)) i)
          (run poll_future (id i) (calls_on i cs) (spawned (futures i)))
  unfolding spawned Cancellation.default
  calls_alone cs futures i f =
      calls-Same cs (all_spawned futures) (spawned (futures i)) i f (all_spawned-AllValid futures)
        (ground arith)
