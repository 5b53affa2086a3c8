-- ===== src/Base/Fallible.antt =====
-- Rust's `Result`, with `?` as the bind of a `do` block.
use mathlib.Core.Option.{Option, none, some}

pub data Result {ℓ κ} (E : Type ℓ) (A : Type κ) : Type (ℓ ⊔ κ) where
  ok : A → Result E A
  err : E → Result E A

module _ {ℓ κ} {E : Type ℓ} {A : Type κ} where
  -- `Option::ok_or_else`.
  abbrev pub ok_or : Option A → E → Result E A
  ok_or none problem = err problem
  ok_or (some value) problem = ok value

  -- `Result::map_err`.
  abbrev pub map_err {μ} : {F : Type μ} → (E → F) → Result E A → Result F A
  map_err convert (err problem) = err (convert problem)
  map_err convert (ok value) = ok value

  infixl 5 ◌>>=◌
  abbrev pub ◌>>=◌ {μ} : {B : Type μ} → Result E A → (A → Result E B) → Result E B
  err problem >>= rest = err problem
  ok value >>= rest = rest value

infixl 5 ◌>>◌
abbrev pub ◌>>◌ {ℓ κ} : {E : Type ℓ} {B : Type κ} → Result E (Unit {0}) → Result E B → Result E B
first >> second = first >>= λ _. second
