-- ===== src/Compat/Choice.antt =====
-- Which spawn function is chosen, by rules that do not follow the loop.
use Prim.Native.String.{String}
use text.Mathlib.Text.{◌==◌ as str_eq}
use spawns.Prelude.{
  ◌+◌, ◌≡◌, refl, ◌∙◌, true, false, inl, inr, Bool, ◌&&◌, List, [], ◌∷◌, Option, none, some, Result,
  ok, err, ltb, if◌then◌else◌, length, arith, Option-cases,
}
use spawns.Compat.{
  Compat, named_global, global, local, SpawnFn, Failure, not_found, multiple_globals, Scan, chosen,
  scan, or_last, start, pick_global,
}

-- The first global that has the chosen name.
unfoldable pub by_name : Option String → List Compat → Option SpawnFn
by_name choose [] = none
by_name choose (named_global name spawn ∷ cs) =
    if chosen choose name then some spawn else by_name choose cs
by_name choose (_ ∷ cs) = by_name choose cs

unfoldable pub named : List Compat → List SpawnFn
named [] = []
named (named_global name spawn ∷ cs) = spawn ∷ named cs
named (_ ∷ cs) = named cs

unfoldable pub unnamed : List Compat → List SpawnFn
unnamed [] = []
unnamed (global spawn ∷ cs) = spawn ∷ unnamed cs
unnamed (_ ∷ cs) = unnamed cs

-- The last of a list, or what there was before it.
unfoldable pub last_or : Option SpawnFn → List SpawnFn → Option SpawnFn
last_or o [] = o
last_or o (x ∷ xs) = last_or (some x) xs

scan_lem :
    (choose : Option String) (cs : List Compat) (s : Scan)
    → by_name choose cs ≡ none
    → scan choose cs s ≡ (
      none,
      record {
        globals = s.globals + (length (named cs) + length (unnamed cs));
        last_named = last_or s.last_named (named cs);
        last_unnamed = last_or s.last_unnamed (unnamed cs);
      },
    )
unfolding scan by_name named unnamed last_or
scan_lem choose [] s e = ground arith
scan_lem choose (local d ∷ cs) s e = scan_lem choose cs s e
scan_lem choose (global spawn ∷ cs) s e =
    ground
      (arith, scan_lem choose cs (record s { globals = s.globals + 1; last_unnamed = some spawn }))
scan_lem choose (named_global name spawn ∷ cs) s e =
    ground
      (arith, scan_lem choose cs (record s { globals = s.globals + 1; last_named = some spawn }))

scan_hit :
    (choose : Option String) (cs : List Compat) (s : Scan) (spawn : SpawnFn)
    → by_name choose cs ≡ some spawn
    → (scan choose cs s).0 ≡ some spawn
unfolding scan by_name
scan_hit choose [] s f e = cc
scan_hit choose (local d ∷ cs) s f e = scan_hit choose cs s f e
scan_hit choose (global spawn ∷ cs) s f e = scan_hit choose cs _ f e
scan_hit choose (named_global name spawn ∷ cs) s f e =
    ground
      (arith, scan_hit choose cs (record s { globals = s.globals + 1; last_named = some spawn }) f)

-- What the loop comes to, with the lists that it runs through.
unfoldable pub pick_by_lists : Bool → Option String → List Compat → Result SpawnFn Failure
pick_by_lists strict choose cs = elim (by_name choose cs) [
  | some spawn ↦ ok spawn
  | none ↦
      if strict && ltb 1 (length (named cs) + length (unnamed cs))
      then err multiple_globals
      else or_last (last_or none (named cs)) (last_or none (unnamed cs))
]

pub pick_global-pick_by_lists :
    (strict : Bool) (choose : Option String) (cs : List Compat)
    → pick_global strict choose cs ≡ pick_by_lists strict choose cs
unfolding pick_global pick_by_lists
pick_global-pick_by_lists strict choose cs = elim (Option-cases (by_name choose cs)) [
  | inl e ↦ ground (arith, scan_lem choose cs start e)
  | inr (f, e) ↦ ground (arith, scan_hit choose cs start f e)
]

-- The environment variable is set to this name.
unfoldable pub is_choice : Option String → String → Bool
is_choice none name = false
is_choice (some c) name = str_eq c name

pub chosen-is_choice :
    (choose : Option String) (name : String) → chosen choose name ≡ is_choice choose name
unfolding chosen is_choice
chosen-is_choice none name = refl
chosen-is_choice (some c) name = refl

-- The functions of the globals that have the name in the variable.
unfoldable pub of_choice : Option String → List Compat → List SpawnFn
of_choice choose [] = []
of_choice choose (named_global name spawn ∷ cs) =
    let rest = of_choice choose cs in if is_choice choose name then spawn ∷ rest else rest
of_choice choose (_ ∷ cs) = of_choice choose cs

-- What `pick_global` promises, once nothing has the chosen name: under the feature, an error if there
-- are several globals; else the last of the named ones, and where there are none the last of the
-- others.
unfoldable pub pick_unchosen : Bool → List SpawnFn → List SpawnFn → Result SpawnFn Failure
pick_unchosen true (_ ∷ _ ∷ _) us = err multiple_globals
pick_unchosen true (_ ∷ []) (_ ∷ _) = err multiple_globals
pick_unchosen true [] (_ ∷ _ ∷ _) = err multiple_globals
pick_unchosen strict ns us = elim (last_or (last_or none us) ns) [
  | some spawn ↦ ok spawn
  | none ↦ err not_found
]

-- What `pick_global` promises: the first global with the chosen name, and else as said above.
unfoldable pub pick_rule : Bool → Option String → List Compat → Result SpawnFn Failure
pick_rule strict choose cs = elim (of_choice choose cs) [
  | spawn ∷ _ ↦ ok spawn
  | [] ↦ pick_unchosen strict (named cs) (unnamed cs)
]

first_of_list : List SpawnFn → Option SpawnFn
first_of_list [] = none
first_of_list (x ∷ _) = some x

by_name-of_choice :
    (choose : Option String) (cs : List Compat)
    → by_name choose cs ≡ first_of_list (of_choice choose cs)
unfolding by_name of_choice first_of_list
by_name-of_choice choose [] = refl
by_name-of_choice choose (local d ∷ cs) = by_name-of_choice choose cs
by_name-of_choice choose (global spawn ∷ cs) = by_name-of_choice choose cs
by_name-of_choice choose (named_global name spawn ∷ cs) =
    ground (arith, chosen-is_choice choose name, by_name-of_choice choose cs)

last_or-some : (x : SpawnFn) (xs : List SpawnFn) → (y : SpawnFn) × (last_or (some x) xs ≡ some y)
unfolding last_or
last_or-some x [] = (x, refl)
last_or-some x (y ∷ ys) = last_or-some y ys

or_last_lem :
    (ns us : List SpawnFn) → or_last (last_or none ns) (last_or none us) ≡ pick_unchosen false ns us
unfolding pick_unchosen or_last last_or
or_last_lem [] us = ground arith
or_last_lem (n ∷ ns) us = let (y, e) = last_or-some n ns in ground (arith, e)

unchosen_lem :
    (strict : Bool) (ns us : List SpawnFn)
    → (if strict && ltb 1 (length ns + length us)
        then err multiple_globals
        else or_last (last_or none ns) (last_or none us))
      ≡ pick_unchosen strict ns us
unfolding pick_unchosen or_last last_or
unchosen_lem false ns us = or_last_lem ns us
unchosen_lem true [] [] = ground arith
unchosen_lem true [] (u ∷ []) = ground arith
unchosen_lem true [] (u ∷ v ∷ us) = ground arith
unchosen_lem true (n ∷ []) [] = ground arith
unchosen_lem true (n ∷ []) (u ∷ us) = ground arith
unchosen_lem true (n ∷ m ∷ ns) us = ground arith

-- The loop of `pick_global` decides as the rule says, for every list of compats: the first global
-- with the chosen name; else, under the feature, an error if there are several globals; else the
-- last named global, else the last unnamed one, else `NotFound`.
pub pick_global-pick_rule :
    (strict : Bool) (choose : Option String) (cs : List Compat)
    → pick_global strict choose cs ≡ pick_rule strict choose cs
unfolding pick_by_lists pick_rule first_of_list
pick_global-pick_rule strict choose cs =
    pick_global-pick_by_lists strict choose cs
    ∙ ground (arith, by_name-of_choice choose cs, unchosen_lem strict (named cs) (unnamed cs))
