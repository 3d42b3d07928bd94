-- ===== src/Executor/Threads.antt =====
-- `Blocking`: how many threads it runs on, what they are called, and what becomes of the calling one.
use spawns.Prelude.{
  ℕ, zero, suc, ◌+◌, ◌-◌, ◌≤◌, ◌<◌, ◌≡◌, ◌≢◌, refl, Bool, true, false, List, [], ◌∷◌, Option, none,
  some, Result, Outcome, panics, length, Among, arith, decimal, read_number, read_number-digits,
  read_number-slash, inl, inr, ◌⊎◌, ◌∙◌,
}
use spawns.Joint.{JoinError}
use spawns.Id.{u64_mod}
use spawns.Spawn.{Panic, Task, Target, State}
use spawns.Executor.{thread_failed}
use spawns.Executor.Scopes.{KeepsAt, in_scope_lem}
use spawns.Executor.Blocking.{
  Blocking, ShutdownManager, parallelism, upward, workers, worker_name, start_all, on_count,
  block_on,
}

length-upward : (n i : ℕ) → length (upward n i) ≡ n
unfolding upward
length-upward zero i = refl
length-upward (suc n) i = omega (arith, length-upward n (i + 1))

-- All these numbers lie between these two.
abbrev pub Between : ℕ → ℕ → List ℕ → Type 0
Between lo hi [] = Unit
Between lo hi (i ∷ is) = (lo ≤ i) × (i ≤ hi) × Between lo hi is

upward-Between : (n lo i hi : ℕ) → lo ≤ i → i + n ≤ hi + 1 → Between lo hi (upward n i)
unfolding upward
upward-Between zero lo i hi e f = tt
upward-Between (suc n) lo i hi e f =
    (e, omega arith, upward-Between n lo (i + 1) hi (omega arith) (omega arith))

-- The platform counts at least one core, if it counts.
abbrev pub Counts : Option ℕ → Type 0
Counts none = Unit
Counts (some n) = 1 ≤ n

parallelism_pos :
    (b : Blocking) (available : Option ℕ) → Counts available → 1 ≤ parallelism b available
unfolding parallelism
parallelism_pos b available c = ground arith

parallelism_asked :
    (b : Blocking) (available : Option ℕ)
    → (parallelism b available ≡ b.parallelism) ⊎ (b.parallelism ≡ 0)
unfolding parallelism
parallelism_asked b available = ground arith

-- The number of threads is the one asked for, or at least 1 where the platform is to choose; the
-- workers are all but one of them, and are numbered from 2 to that number.
parallelism_bounds :
    (b : Blocking) (available : Option ℕ)
    → Counts available
    → let threads = parallelism b available in
      (1 ≤ threads)
      × ((threads ≡ b.parallelism) ⊎ (b.parallelism ≡ 0))
      × (length (workers threads) + 1 ≡ threads)
      × Between 2 threads (workers threads)
parallelism_bounds b available c =
    let threads = parallelism b available in
    let some_thread = parallelism_pos b available c in
    (
      some_thread,
      parallelism_asked b available,
      omega (arith, length-upward (threads - 1) 2, some_thread),
      upward-Between (threads - 1) 2 2 threads (omega arith) (omega (arith, some_thread)),
    )

-- The number in a worker's name, between the prefix of 16 bytes and the slash.
pub worker_of : List ℕ → ℕ
worker_of (_ ∷ _ ∷ _ ∷ _ ∷ _ ∷ _ ∷ _ ∷ _ ∷ _ ∷ _ ∷ _ ∷ _ ∷ _ ∷ _ ∷ _ ∷ _ ∷ rest) =
    read_number 0 rest
worker_of _ = 0

-- A worker's name tells its number, which fits in 64 bits: two workers of one call never share one.
pub worker_of-worker_name : (i threads : ℕ) → i < u64_mod → worker_of (worker_name i threads) ≡ i
unfolding worker_of
worker_of-worker_name i threads h =
    read_number-digits 20 i (b'/' ∷ decimal threads) (omega (arith, h))
    ∙ read_number-slash i (decimal threads)

-- The first worker that does not start is the one `m` places on.
start_all_fails :
    (starts : ℕ → Bool) (m n i : ℕ)
    → m < n
    → ((j : ℕ) → j < i + m → starts j ≡ true)
    → starts (i + m) ≡ false
    → start_all starts (upward n i) ≡ (upward m i, false)
unfolding start_all upward
start_all_fails starts m zero i h f g = absurd (omega (arith, h))
start_all_fails starts zero (suc n) i h f g = ground (arith, g)
start_all_fails starts (suc m) (suc n) i h f g = ground (
  arith,
  f i (omega arith),
  start_all_fails starts m n (i + 1) (omega (arith, h)) (λ j k. f j (omega (arith, k)))
      (let e : i + 1 + m ≡ i + suc m = omega arith in rw e g),
)

-- All workers start.
start_all_lem :
    (starts : ℕ → Bool) (is : List ℕ)
    → ((j : ℕ) → Among j is → starts j ≡ true)
    → start_all starts is ≡ (is, true)
unfolding start_all
start_all_lem starts [] f = refl
start_all_lem starts (i ∷ is) f =
    ground (arith, f i (inl refl), start_all_lem starts is (λ j a. f j (inr a)))

module _ {A : Type 0} {W : Type 0} (manager : ShutdownManager W) (starts : ℕ → Bool) (spawner : ℕ)
    (local : State → State × Outcome Panic A) (block : List ℕ → State → State × Outcome Panic A)
    (threads : ℕ) (s : State) where
  on_count_ends :
      threads ≢ 1
      → ((j : ℕ) → Among j (workers threads) → starts j ≡ true)
      → s.borrows ≡ 0
      → KeepsAt (block (workers threads)) (record s { spawner = some spawner })
      → let r = on_count manager starts spawner local block threads s in
        let blocked = block (workers threads) (record s { spawner = some spawner }) in
        (r.started ≡ workers threads)
        × (r.shut_down ≡ true)
        × (r.outcome ≡ blocked.1)
        × (r.state ≡ record blocked.0 { spawner = s.spawner })
  unfolding on_count
  on_count_ends e f g h =
      let w = manager.trigger_shutdown_token manager.made in
      let quiet : manager.is_triggered w ≡ false =
        manager.token_law manager.made ∙ manager.made_law in
      ground (
        arith,
        quiet,
        manager.drop_law w,
        start_all_lem starts (workers threads) f,
        in_scope_lem spawner (block (workers threads)) s g h,
      )

  on_count_fails :
      (k : ℕ)
      → 2 ≤ k
      → k ≤ threads
      → ((j : ℕ) → j < k → starts j ≡ true)
      → starts k ≡ false
      → let r = on_count manager starts spawner local block threads s in
        (r.started ≡ upward (k - 2) 2)
        × (r.shut_down ≡ false)
        × (r.outcome ≡ panics thread_failed)
        × (r.state ≡ s)
  unfolding on_count
  on_count_fails k e f g h =
      let same : 2 + (k - 2) ≡ k = omega arith in
      let fails =
        start_all_fails starts (k - 2) (threads - 1) 2 (omega arith) (rw same g) (rw same h) in
      ground (arith, manager.made_law, fails)

module _ {A : Type 0} {W : Type 0} (manager : ShutdownManager W)
    (take : Target → Task → State → State × Outcome Panic (Unit {0}))
    (find : Outcome Panic (Option ℕ)) (available : Option ℕ) (starts : ℕ → Bool) (spawner : ℕ)
    (run_pool : ℕ → State → State × Outcome Panic (Result A JoinError))
    (block : List ℕ → State → State × Outcome Panic A) (b : Blocking) (s : State) where
  -- With more than one thread, and if they all start, the calling thread blocks on the future in the
  -- executor's scope with every worker still running the executor: the shutdown is not triggered
  -- before. It is triggered when that has ended, however it ends; the call ends as the future does
  -- beside all workers, and `SPAWNER`, which is not to be borrowed, is put back. To block is to leave
  -- the borrows and the spawner of the thread as they were.
  pub blocking_ends :
      parallelism b available ≢ 1
      → ((j : ℕ) → Among j (workers (parallelism b available)) → starts j ≡ true)
      → s.borrows ≡ 0
      → KeepsAt (block (workers (parallelism b available))) (record s { spawner = some spawner })
      → let r = block_on manager take find available starts spawner run_pool block b s in
        let blocked =
          block (workers (parallelism b available)) (record s { spawner = some spawner }) in
        (r.started ≡ workers (parallelism b available))
        × (r.shut_down ≡ true)
        × (r.outcome ≡ blocked.1)
        × (r.state ≡ record blocked.0 { spawner = s.spawner })
  unfolding block_on
  blocking_ends e f g h =
      on_count_ends manager starts spawner _ block (parallelism b available) s e f g h

  -- If worker `k` is the first that does not start, the call panics before it blocks on the future,
  -- with the thread as it was; the workers below `k` run, and the shutdown is not triggered.
  pub blocking_fails :
      (k : ℕ)
      → 2 ≤ k
      → k ≤ parallelism b available
      → ((j : ℕ) → j < k → starts j ≡ true)
      → starts k ≡ false
      → let r = block_on manager take find available starts spawner run_pool block b s in
        (r.started ≡ upward (k - 2) 2)
        × (r.shut_down ≡ false)
        × (r.outcome ≡ panics thread_failed)
        × (r.state ≡ s)
  unfolding block_on
  blocking_fails k e f g h =
      on_count_fails manager starts spawner _ block (parallelism b available) s k e f g h
