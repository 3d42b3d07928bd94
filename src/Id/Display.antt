-- ===== src/Id/Display.antt =====
-- spawns-core/src/task.rs: `Display` and `Debug` for `Id`. A text is the list of its bytes.
-- `{:#010x}` and `{:#018x}` write "0x" and at least 8, or 16, digits; no id needs more.
use spawns.Prelude.{
  ℕ, zero, suc, ◌+◌, ◌-◌, ◌*◌, ◌/◌, ◌%◌, ◌^◌, ◌<◌, ◌≡◌, refl, ap, ◌∙◌, inl, inr, List, [], ◌∷◌,
  ◌++◌, Option, none, some, arith, ltb, leb, ◌==◌, if◌then◌else◌, Bool-cases,
}
use native.Mathlib.Nat.{pow-suc}
use spawns.Id.{u64_mod}

abbrev pub u32_max : ℕ
u32_max = 0xffffffff

unfoldable pub hex_digit : ℕ → ℕ
hex_digit d = if ltb d 10 then b'0' + d else b'a' + (d - 10)

-- The last `w` hexadecimal digits.
unfoldable pub hex : ℕ → ℕ → List ℕ
hex zero n = []
hex (suc w) n = hex w (n / 16) ++ hex_digit (n % 16) ∷ []

abbrev pub with_prefix : List ℕ → List ℕ
with_prefix digits = b'0' ∷ b'x' ∷ digits

-- `Display for Id`
unfoldable pub display : ℕ → List ℕ
display id = if leb id u32_max then with_prefix (hex 8 (id % 2 ^ 32)) else with_prefix (hex 16 id)

-- `Debug for Id`
unfoldable pub debug : ℕ → List ℕ
unfolding display
debug id = b'T' ∷ b'a' ∷ b's' ∷ b'k' ∷ b'I' ∷ b'd' ∷ b'(' ∷ (display id ++ b')' ∷ [])

-- The number that a digit stands for, and that a row of digits stands for.
digit_value : ℕ → ℕ
digit_value c = if ltb c b'a' then c - b'0' else c - b'a' + 10

value : ℕ → List ℕ → ℕ
value acc [] = acc
value acc (c ∷ cs) = value (acc * 16 + digit_value c) cs

-- The number that a text "0x…" stands for.
pub read : List ℕ → Option ℕ
unfolding value
read (z ∷ x ∷ digits) =
    if z == b'0' then (if x == b'x' then some (value 0 digits) else none) else none
read _ = none

digit_value-hex_digit : (d : ℕ) → d < 16 → digit_value (hex_digit d) ≡ d
unfolding digit_value hex_digit
digit_value-hex_digit d h = ground arith

value-append :
    (acc : ℕ) (xs : List ℕ) (c : ℕ) → value acc (xs ++ c ∷ []) ≡ value acc xs * 16 + digit_value c
unfolding value
value-append acc [] c = refl
value-append acc (x ∷ xs) c = value-append (acc * 16 + digit_value x) xs c

value-hex : (w n : ℕ) → n < 16 ^ w → value 0 (hex w n) ≡ n
unfolding hex value
value-hex zero n h = omega arith
value-hex (suc w) n h =
    value-append 0 (hex w (n / 16)) (hex_digit (n % 16))
    ∙ omega (
      arith,
      value-hex w (n / 16) (omega (arith, pow-suc 16 w)),
      digit_value-hex_digit (n % 16) (omega arith),
    )

-- Reading the displayed text of a 64-bit id back gives the id, in both widths of the text.
pub read-display : (id : ℕ) → id < u64_mod → read (display id) ≡ some id
unfolding read display
read-display id h = elim (Bool-cases (leb id u32_max)) [
  | inl small ↦ rw small (ap some (value-hex 8 (id % 2 ^ 32) (omega arith) ∙ ground arith))
  | inr large ↦ rw large (ap some (value-hex 16 id (omega arith)))
]
