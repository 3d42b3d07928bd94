-- ===== src/Compat/Linked.antt =====
-- `COMPATS` of spawns-core/src/compat.rs is filled by the linker, in an order of its own.
use Prim.Native.String.{String}
use mathlib.Core.List.{Permᴰ}
use mathlib.Core.List.Permᴰ
use mathlib.Core.List.Permᴰ.{nil, cons, swap, trans}
use spawns.Prelude.{
  ◌+◌, ◌≤◌, ◌<◌, ◌≡◌, suc, refl, sym, ap, subst, ◌∙◌, true, List, [], ◌∷◌, Option, none, some,
  Result, ok, err, ltb, length, arith, if◌then◌else◌, Bool-cases, inl, inr,
}
use spawns.Compat.{
  Compat, named_global, global, local, SpawnFn, DetectFn, Failure, not_found, multiple_globals,
  chosen, or_last, find_local, find_any, find_global, pick_global, find_spawn,
}
use spawns.Compat.Choice.{
  by_name, named, unnamed, last_or, pick_by_lists, pick_global-pick_by_lists,
}
use spawns.Compat.Found.{find_spawn-find_any}

-- What a compat offers, of one kind: as a global with the chosen name, as any global, and as the one
-- that is detected on this thread.
abbrev pub hit : Option String → Compat → Option SpawnFn
hit choose (named_global name spawn) = if chosen choose name then some spawn else none
hit choose _ = none

abbrev any : Compat → Option SpawnFn
any (named_global _ spawn) = some spawn
any (global spawn) = some spawn
any (local _) = none

abbrev pub detected : (DetectFn → Option SpawnFn) → Compat → Option SpawnFn
detected detect (local d) = detect d
detected detect _ = none

abbrev add : Option SpawnFn → List SpawnFn → List SpawnFn
add none xs = xs
add (some x) xs = x ∷ xs

-- All that the compats offer of one kind.
unfoldable pub offers : (Compat → Option SpawnFn) → List Compat → List SpawnFn
offers f [] = []
offers f (c ∷ cs) = add (f c) (offers f cs)

abbrev first_of : List SpawnFn → Option SpawnFn
first_of [] = none
first_of (x ∷ xs) = some x

add-Perm : (o : Option SpawnFn) {xs ys : List SpawnFn} → Permᴰ xs ys → Permᴰ (add o xs) (add o ys)
add-Perm none p = p
add-Perm (some x) p = cons refl p

add-swap : (o p : Option SpawnFn) (xs : List SpawnFn) → Permᴰ (add o (add p xs)) (add p (add o xs))
add-swap none p xs = Permᴰ.refl (add p xs)
add-swap (some x) none xs = Permᴰ.refl (x ∷ xs)
add-swap (some x) (some y) xs = swap refl refl

offers-Perm :
    (f : Compat → Option SpawnFn) {cs ds : List Compat}
    → Permᴰ cs ds
    → Permᴰ (offers f cs) (offers f ds)
unfolding offers
offers-Perm f nil = nil
offers-Perm f (cons {a} {b} {l₁} {l₂} e p) =
    subst (λ c. Permᴰ (add (f a) (offers f l₁)) (add (f c) (offers f l₂))) e
      (add-Perm (f a) (offers-Perm f p))
offers-Perm f (swap {a} {b} {a'} {b'} {l} e g) =
    subst (λ c. Permᴰ (add (f a) (add (f b) (offers f l))) (add (f c) (add (f b') (offers f l)))) g
      (subst (λ c. Permᴰ (add (f a) (add (f b) (offers f l))) (add (f b) (add (f c) (offers f l))))
        e (add-swap (f a) (f b) (offers f l)))
offers-Perm f (trans p q) = trans (offers-Perm f p) (offers-Perm f q)

length-Perm : {xs ys : List SpawnFn} → Permᴰ xs ys → length xs ≡ length ys
length-Perm nil = refl
length-Perm (cons e p) = ap suc (length-Perm p)
length-Perm (swap e f) = refl
length-Perm (trans p q) = length-Perm p ∙ length-Perm q

-- At most one element stands in one order only.
short-Perm : {xs ys : List SpawnFn} → Permᴰ xs ys → length xs ≤ 1 → xs ≡ ys
short-Perm nil e = refl
short-Perm (cons h p) e = let same = short-Perm p (omega (arith, e)) in cc
short-Perm (swap h k) e = absurd (omega (arith, e))
short-Perm (trans p q) e = short-Perm p e ∙ short-Perm q (omega (arith, e, length-Perm p))

by_name-first_of :
    (choose : Option String) (cs : List Compat)
    → by_name choose cs ≡ first_of (offers (hit choose) cs)
unfolding by_name offers
by_name-first_of choose [] = refl
by_name-first_of choose (local d ∷ cs) = by_name-first_of choose cs
by_name-first_of choose (global spawn ∷ cs) = by_name-first_of choose cs
by_name-first_of choose (named_global name spawn ∷ cs) = ground (arith, by_name-first_of choose cs)

find_local-first_of :
    (detect : DetectFn → Option SpawnFn) (cs : List Compat)
    → find_local detect cs ≡ first_of (offers (detected detect) cs)
unfolding find_local offers
find_local-first_of detect [] = refl
find_local-first_of detect (local d ∷ cs) = ground (arith, find_local-first_of detect cs)
find_local-first_of detect (global spawn ∷ cs) = find_local-first_of detect cs
find_local-first_of detect (named_global name spawn ∷ cs) = find_local-first_of detect cs

any_count : (cs : List Compat) → length (named cs) + length (unnamed cs) ≡ length (offers any cs)
unfolding named unnamed offers
any_count [] = refl
any_count (local d ∷ cs) = any_count cs
any_count (global spawn ∷ cs) = omega (arith, any_count cs)
any_count (named_global name spawn ∷ cs) = omega (arith, any_count cs)

length_zero : (xs : List SpawnFn) → length xs ≡ 0 → xs ≡ []
length_zero [] e = refl
length_zero (x ∷ xs) e = absurd (omega (arith, e))

-- The decision under the feature: by the first of the chosen name, and all the globals.
abbrev decide : Option SpawnFn → List SpawnFn → Result SpawnFn Failure
decide (some spawn) all = ok spawn
decide none [] = err not_found
decide none (spawn ∷ []) = ok spawn
decide none (_ ∷ _ ∷ _) = err multiple_globals

one_global :
    (cs : List Compat)
    → length (offers any cs) ≤ 1
    → or_last (last_or none (named cs)) (last_or none (unnamed cs)) ≡ decide none (offers any cs)
unfolding named unnamed offers last_or or_last
one_global [] e = refl
one_global (local d ∷ cs) e = one_global cs e
one_global (global spawn ∷ cs) e =
    let a = length_zero (named cs) (omega (arith, e, any_count cs)) in
    let b = length_zero (unnamed cs) (omega (arith, e, any_count cs)) in
    let c = length_zero (offers any cs) (omega (arith, e)) in ground (arith, a, b, c)
one_global (named_global name spawn ∷ cs) e =
    let a = length_zero (named cs) (omega (arith, e, any_count cs)) in
    let b = length_zero (unnamed cs) (omega (arith, e, any_count cs)) in
    let c = length_zero (offers any cs) (omega (arith, e)) in ground (arith, a, b, c)

many : (xs : List SpawnFn) → 1 < length xs → decide none xs ≡ err multiple_globals
many [] e = absurd (omega (arith, e))
many (x ∷ []) e = absurd (omega (arith, e))
many (x ∷ y ∷ xs) e = refl

pick_global-decide :
    (choose : Option String) (cs : List Compat)
    → pick_global true choose cs ≡ decide (by_name choose cs) (offers any cs)
unfolding pick_by_lists
pick_global-decide choose cs = ground (
  arith,
  pick_global-pick_by_lists true choose cs,
  any_count cs,
  many (offers any cs),
  one_global cs,
)

decide-Perm : {xs ys : List SpawnFn} → Permᴰ xs ys → decide none xs ≡ decide none ys
decide-Perm {xs} {ys} p = elim (Bool-cases (ltb 1 (length xs))) [
  | inl more ↦ many xs (ground (arith, more)) ∙ sym (many ys (ground (arith, more, length-Perm p)))
  | inr few ↦ ap (decide none) (short-Perm p (ground (arith, few)))
]

same_first :
    (f : Compat → Option SpawnFn) {cs ds : List Compat}
    → Permᴰ cs ds
    → length (offers f cs) ≤ 1
    → first_of (offers f cs) ≡ first_of (offers f ds)
same_first f p e = ap first_of (short-Perm (offers-Perm f p) e)

pick_global-Perm :
    (choose : Option String) {cs ds : List Compat}
    → Permᴰ cs ds
    → length (offers (hit choose) cs) ≤ 1
    → pick_global true choose cs ≡ pick_global true choose ds
pick_global-Perm choose {cs} {ds} p e =
    let a = same_first (hit choose) p e in
    let b = decide-Perm (offers-Perm any p) in
    ground (
      arith,
      pick_global-decide choose cs,
      pick_global-decide choose ds,
      by_name-first_of choose cs,
      by_name-first_of choose ds,
      a,
      b,
    )

-- With the feature `panic-multiple-global-spawners` the order that the linker puts the compats in
-- does not matter, for any compats at all: if at most one global has the chosen name, and at most
-- one compat detects its runtime on this thread, `find_spawn` with an empty `OnceLock` gives the
-- same for every permutation, its panic included.
pub find_spawn-Perm :
    (choose : Option String) (detect : DetectFn → Option SpawnFn) {cs ds : List Compat}
    → Permᴰ cs ds
    → length (offers (hit choose) cs) ≤ 1
    → length (offers (detected detect) cs) ≤ 1
    → (find_spawn true choose detect cs none).0 ≡ (find_spawn true choose detect ds none).0
unfolding find_any find_global
find_spawn-Perm choose detect {cs} {ds} p e f =
    let a = same_first (detected detect) p f in
    let b = pick_global-Perm choose p e in
    ground (
      arith,
      find_spawn-find_any true choose detect cs,
      find_spawn-find_any true choose detect ds,
      find_local-first_of detect cs,
      find_local-first_of detect ds,
      a,
      b,
    )
