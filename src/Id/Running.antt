-- ===== src/Id/Running.antt =====
-- A task sees its own id while it is polled, and the thread's running id is put back.
use spawns.Prelude.{none, ℕ, zero, suc, ◌≡◌, refl, List, [], ◌∷◌, ◌++◌, Option, some, arith}
use spawns.Id.{
  Body, done, unwind, look, poll_other, End, finished, unwound, exec, poll, enter, try_id, next,
  first,
}

-- The id that a task may see: its own, and none where the counter wrapped to 0.
pub own : ℕ → Option ℕ
own zero = none
own (suc n) = some (suc n)

try_id-own : (i : ℕ) → try_id i ≡ own i
unfolding try_id own
try_id-own zero = refl
try_id-own (suc n) = ground arith

-- What the looks of a body give, by its place in the nesting alone, with how it ends.
pub seen : Body → ℕ → List (Option ℕ) × End
seen done i = ([], finished)
seen unwind i = ([], unwound)
seen (look rest) i = let t = seen rest i in (own i ∷ t.0, t.1)
seen (poll_other j body rest) i =
    let inner = seen body j in
    let after = seen rest i in
    elim inner.1 [ unwound ↦ inner | finished ↦ (inner.0 ++ after.0, after.1) ]

-- The body of a poll leaves the running id as it found it, and each look gives the id of the task
-- that stands innermost around it.
exec_lem :
    (body : Body) (i : ℕ)
    → ((exec body i).running ≡ i)
      × ((exec body i).looks ≡ (seen body i).0)
      × ((exec body i).end ≡ (seen body i).1)
unfolding exec enter seen
exec_lem done i = (refl, refl, refl)
exec_lem unwind i = (refl, refl, refl)
exec_lem (look rest) i = ground (arith, try_id-own i, exec_lem rest i)
exec_lem (poll_other j body rest) i = ground (arith, exec_lem body j, exec_lem rest i)

-- Polling a task gives its body the task's id at every look that no other task's poll encloses, or
-- none if the id is 0, and gives each enclosed look the id of the task around it in the same way. It
-- puts the thread's running id back, also when the poll unwinds.
pub poll_lem :
    (i : ℕ) (body : Body) (running : ℕ)
    → ((poll i body running).running ≡ running)
      × ((poll i body running).looks ≡ (seen body i).0)
      × ((poll i body running).end ≡ (seen body i).1)
unfolding poll enter
poll_lem i body running = ground (arith, exec_lem body i)

-- `ID` after `n` calls of `RawId::next`, and the id that the next call gives.
pub counter_after : ℕ → ℕ
counter_after zero = first
counter_after (suc n) = (next (counter_after n)).1

pub id_at : ℕ → ℕ
unfolding counter_after
id_at n = (next (counter_after n)).0
