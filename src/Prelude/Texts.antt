-- ===== src/Prelude/Texts.antt =====
-- Texts as lists of bytes, and numbers in them. All texts of the source are ASCII.
use Prim.Native.Nat.{ℕ, zero, suc, ◌+◌, ◌-◌, ◌*◌, ◌/◌, ◌%◌, ◌^◌, ◌≤◌, ◌<◌}
use Prim.Native.Char.{code}
use Prim.Native.String.{String}
use mathlib.Core.Path.{◌≡◌, refl, ap, ◌∙◌}
use mathlib.Core.Logic.{inl, inr}
use mathlib.Core.List.{List, [], ◌∷◌, ◌++◌, append_assoc}
use native.Mathlib.Nat.{pow-suc}
use native.Mathlib.Omega.{arith}
use spawns.Prelude.Tests.{ltb, ◌==◌, if◌then◌else◌, Bool-cases}

abbrev pub bytes : String → List ℕ
bytes String.[] = []
bytes (String.◌∷◌ c s) = code c ∷ bytes s

-- The decimal digits of a number, in `w` places at most.
unfoldable pub digits : ℕ → ℕ → List ℕ
digits zero n = []
digits (suc w) n =
    let rest = digits w (n / 10) ++ (b'0' + n % 10) ∷ [] in
    if ltb n 10 then (b'0' + n) ∷ [] else rest

-- `{}` of a `usize`: 20 digits are enough below 2^64.
abbrev pub decimal : ℕ → List ℕ
decimal n = digits 20 n

-- The number that the digits before a slash stand for, behind the digits read so far.
pub read_number : ℕ → List ℕ → ℕ
read_number acc [] = acc
read_number acc (c ∷ cs) =
    let rest = read_number (acc * 10 + (c - b'0')) cs in if c == b'/' then acc else rest

read_digit :
    (acc n c : ℕ) (rest : List ℕ)
    → 48 ≤ c
    → acc * 10 + (c - 48) ≡ n
    → read_number acc (c ∷ rest) ≡ read_number n rest
unfolding read_number
read_digit acc n c rest h e = ground arith

-- Reading the digits of a number gives the number, if they have room.
pub read_number-digits :
    (w n : ℕ) (rest : List ℕ) → n < 10 ^ w → read_number 0 (digits w n ++ rest) ≡ read_number n rest
unfolding digits read_number
read_number-digits zero n rest h = ap (λ (k : ℕ). read_number k rest) (omega arith)
read_number-digits (suc w) n rest h = elim (Bool-cases (ltb n 10)) [
  | inl small ↦ rw small (read_digit 0 n (48 + n) rest (ground arith) (ground arith))
  | inr large ↦
      rw (large, append_assoc (digits w (n / 10)) ((48 + n % 10) ∷ []) rest)
        (read_number-digits w (n / 10) ((48 + n % 10) ∷ rest) (omega (arith, pow-suc 10 w))
          ∙ read_digit (n / 10) n (48 + n % 10) rest (omega arith) (omega arith))
]

pub read_number-slash : (acc : ℕ) (rest : List ℕ) → read_number acc (b'/' ∷ rest) ≡ acc
unfolding read_number
read_number-slash acc rest = refl
