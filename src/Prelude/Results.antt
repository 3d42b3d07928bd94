-- ===== src/Prelude/Results.antt =====
-- Outcomes of Rust calls: `Result`, `Poll`, and a call that returns or panics.
pub data Result {ℓ κ} (A : Type ℓ) (E : Type κ) : Type (ℓ ⊔ κ) where
  ok : A → Result A E
  err : E → Result A E

pub data Poll {ℓ} (A : Type ℓ) : Type ℓ where
  ready : A → Poll A
  pending : Poll A

-- `M` is the type of panic messages.
pub data Outcome {ℓ κ} (M : Type κ) (A : Type ℓ) : Type (ℓ ⊔ κ) where
  returns : A → Outcome M A
  panics : M → Outcome M A

abbrev pub map_err {ℓ κ μ} :
    {A : Type ℓ} {E : Type κ} {F : Type μ} → (E → F) → Result A E → Result A F
map_err f (ok a) = ok a
map_err f (err e) = err (f e)
