-- ===== src/Base/Outcome.antt =====
-- Fallible code: `std::expected<T, E>`, and what follows an answer that may be missing.
use mathlib.Core.Option.{Option, none, some}

pub data Expected {ℓ κ} (A : Type ℓ) (E : Type κ) : Type (ℓ ⊔ κ) where
  value : A → Expected A E
  unexpected : E → Expected A E

infixl 1 ◌>>=◌
abbrev pub ◌>>=◌ {ℓ κ} : {A : Type ℓ} {B : Type κ} → Option A → (A → Option B) → Option B
none >>= f = none
some a >>= f = f a
