-- ===== src/Prelude/Result.antt =====
-- Fallible functions. An error is its JavaScript class; the messages are not modelled.
use mathlib.Core.Path.{◌≡◌, refl}

pub data Error : Type 0 where
  buffer_underflow : Error
  range_error : Error
  type_error : Error
  plain_error : Error

pub data Result {ℓ} (A : Type ℓ) : Type ℓ where
  good : A → Result A
  bad : Error → Result A

infixl 5 ◌>>=◌
abbrev pub ◌>>=◌ {ℓ κ} : {A : Type ℓ} {B : Type κ} → Result A → (A → Result B) → Result B
good a >>= f = f a
bad e >>= f = bad e

-- A chain that gives a value, and its two steps
pub chain_good {ℓ κ} :
    {A : Type ℓ} {B : Type κ} (r : Result A) (f : A → Result B) {b : B}
    → (r >>= f) ≡ good b
    → (a : A) × (r ≡ good a) × (f a ≡ good b)
chain_good (good a) f e = (a, refl, e)
chain_good (bad x) f e = absurd (cc e)
