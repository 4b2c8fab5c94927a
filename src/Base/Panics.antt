-- ===== src/Base/Panics.antt =====
-- The result of Go code that may panic.
use mathlib.Core.Path.{◌≡◌, refl}

-- A panic is for example a slice or an index out of range.
pub data Outcome {ℓ} (A : Type ℓ) : Type ℓ where
  returns : A → Outcome A
  panics : Outcome A

infixl 5 ◌>>=◌
abbrev pub ◌>>=◌ {ℓ κ} : {A : Type ℓ} {B : Type κ} → Outcome A → (A → Outcome B) → Outcome B
returns a >>= f = f a
panics >>= f = panics

pub bind-returns {ℓ} : {A : Type ℓ} (m : Outcome A) → (m >>= λ a. returns a) ≡ m
bind-returns (returns a) = refl
bind-returns panics = refl

pub returns_injective {ℓ} : {A : Type ℓ} {a b : A} → returns a ≡ returns b → a ≡ b
returns_injective e = cc
