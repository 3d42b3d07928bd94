-- ===== src/Compat/Found.antt =====
-- `find_spawn`: its short cuts, its order of preference, and the `OnceLock` under several threads.
use Prim.Native.String.{String}
use spawns.Prelude.{
  ℕ, ◌≡◌, refl, Bool, List, [], ◌∷◌, Option, none, some, Result, returns, if◌then◌else◌, arith,
  ◌==◌,
}
use spawns.Compat.{
  Compat, named_global, global, local, SpawnFn, DetectFn, Failure, scan, pick_global, find_global,
  find_local, find_any, find_spawn, found,
}

-- The short cuts of `find_spawn` for no compat and for one only save time: with an empty `OnceLock`
-- the answer is that of the long way, for any list of compats.
pub find_spawn-find_any :
    (strict : Bool) (choose : Option String) (detect : DetectFn → Option SpawnFn) (cs : List Compat)
    → (find_spawn strict choose detect cs none).0 ≡ (find_any strict choose detect cs none).0
unfolding find_spawn find_local find_global pick_global scan
find_spawn-find_any strict choose detect [] = ground arith
find_spawn-find_any strict choose detect (named_global name spawn ∷ []) = ground arith
find_spawn-find_any strict choose detect (global spawn ∷ []) = ground arith
find_spawn-find_any strict choose detect (local d ∷ []) = ground arith
find_spawn-find_any strict choose detect (named_global _ _ ∷ c ∷ cs) = refl
find_spawn-find_any strict choose detect (global _ ∷ c ∷ cs) = refl
find_spawn-find_any strict choose detect (local _ ∷ c ∷ cs) = refl

-- A spawn function that is detected on this thread goes before every global, whatever the variable,
-- the feature and the `OnceLock` say, and the `OnceLock` is not touched.
find_spawn-find_local :
    (strict : Bool) (choose : Option String) (detect : DetectFn → Option SpawnFn) (cs : List Compat)
    (cell : Option (Result SpawnFn Failure)) (spawn : SpawnFn)
    → find_local detect cs ≡ some spawn
    → find_spawn strict choose detect cs cell ≡ (returns (some spawn), cell)
unfolding find_spawn find_local
find_spawn-find_local strict choose detect [] cell spawn e = ground arith
find_spawn-find_local strict choose detect (named_global name s ∷ []) cell spawn e = ground arith
find_spawn-find_local strict choose detect (global s ∷ []) cell spawn e = ground arith
find_spawn-find_local strict choose detect (local d ∷ []) cell spawn e = ground arith
find_spawn-find_local strict choose detect (named_global _ _ ∷ c ∷ cs) cell spawn e = ground arith
find_spawn-find_local strict choose detect (global _ ∷ c ∷ cs) cell spawn e = ground arith
find_spawn-find_local strict choose detect (local _ ∷ c ∷ cs) cell spawn e = ground arith

-- Where a thread stands in `find_global`. `read_var` is after it read the environment variable,
-- whose value may differ from thread to thread.
pub data FindPc : Type 0 where
  idle empty : FindPc
  read_var : Option String → FindPc
  returned : Result SpawnFn Failure → FindPc

pub record Finders : Type 0 where
  pub cell : Option (Result SpawnFn Failure)
  pub pcs : ℕ → FindPc

abbrev pub at : (ℕ → FindPc) → ℕ → FindPc → ℕ → FindPc
at pcs i pc j = if i == j then pc else pcs j

-- `FOUND.get()`
abbrev pub get : Option (Result SpawnFn Failure) → FindPc
get none = empty
get (some found) = returned found

-- `FOUND.get_or_init(|| result)`: the first value stays.
abbrev pub get_or_init :
    Option (Result SpawnFn Failure) → Result SpawnFn Failure → Result SpawnFn Failure
get_or_init none result = result
get_or_init (some found) result = found

module _ (strict : Bool) (cs : List Compat) where
  pub data Step (s : Finders) : Finders → Type 0 where
    look : (i : ℕ) → s.pcs i ≡ idle → Step s (record s { pcs = at s.pcs i (get s.cell) })
    read :
        (i : ℕ) (choose : Option String)
        → s.pcs i ≡ empty
        → Step s (record s { pcs = at s.pcs i (read_var choose) })
    init :
        (i : ℕ) (choose : Option String) (result : Result SpawnFn Failure)
        → s.pcs i ≡ read_var choose
        → result ≡ get_or_init s.cell (pick_global strict choose cs)
        → Step s (record { cell = some result; pcs = at s.pcs i (returned result) })
    again :
        (i : ℕ) (found : Result SpawnFn Failure)
        → s.pcs i ≡ returned found
        → Step s (record s { pcs = at s.pcs i idle })

  pub data Reach : Finders → Type 0 where
    begin : Reach (record { cell = none; pcs = λ _. idle })
    later : {s t : Finders} → Reach s → Step s t → Reach t

  Step-cell :
      {s t : Finders}
      → Step s t
      → ((i : ℕ) (r : Result SpawnFn Failure) → s.pcs i ≡ returned r → s.cell ≡ some r)
      → (i : ℕ) (r : Result SpawnFn Failure) → t.pcs i ≡ returned r
      → t.cell ≡ some r
  Step-cell (look k e) inv i r f = ground (arith, inv i r)
  Step-cell (read k choose e) inv i r f = ground (arith, inv i r)
  Step-cell (init k choose result e g) inv i r f = ground (arith, inv i r)
  Step-cell (again k found e) inv i r f = ground (arith, inv i r)

  Reach-cell :
      {s : Finders}
      → Reach s
      → (i : ℕ) (r : Result SpawnFn Failure) → s.pcs i ≡ returned r
      → s.cell ≡ some r
  Reach-cell begin = λ i r e. ground arith
  Reach-cell (later r st) = Step-cell st (Reach-cell r)

  -- All threads that ever return from `find_global` return one and the same choice, though they
  -- race, and though the environment variable may change between them.
  pub find_global_agrees :
      {s : Finders} (i j : ℕ) (p q : Result SpawnFn Failure)
      → Reach s
      → s.pcs i ≡ returned p
      → s.pcs j ≡ returned q
      → p ≡ q
  find_global_agrees i j p q r e f = cc (Reach-cell r i p e, Reach-cell r j q f)
