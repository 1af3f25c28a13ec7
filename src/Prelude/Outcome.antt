-- ===== src/Prelude/Outcome.antt =====
-- Fallible methods of an object. A method that throws leaves its object as it stands at the throw,
-- so the state comes back beside the error. (The messages of errors are not modelled.)

use chwire.Prelude.Result.{Error, buffer_underflow, Result, good, bad}
use mathlib.Core.Logic.{◌≢◌}

pub data Outcome {ℓ κ} (S : Type ℓ) (A : Type κ) : Type (ℓ ⊔ κ) where
  ok : A → S → Outcome S A
  err : Error → S → Outcome S A

abbrev pub Exec {ℓ κ} : Type ℓ → Type κ → Type (ℓ ⊔ κ)
Exec S A = S → Outcome S A

module _ {ℓ κ} {S : Type ℓ} {A : Type κ} where
  abbrev pub return : A → Exec S A
  return a s = ok a s

  abbrev pub throw : Error → Exec S A
  throw e s = err e s

  -- A call that does not touch the state
  abbrev pub lift : Result A → Exec S A
  lift (good a) s = ok a s
  lift (bad e) s = err e s

module _ {ℓ κ ι} {S : Type ℓ} {A : Type κ} {B : Type ι} where
  abbrev pub continue : Outcome S A → (A → Exec S B) → Outcome S B
  continue (ok a s) f = f a s
  continue (err e s) f = err e s

  infixl 5 ◌>>=◌ ◌>>◌
  abbrev pub ◌>>=◌ : Exec S A → (A → Exec S B) → Exec S B
  ◌>>=◌ m f s = continue (m s) f

  abbrev pub ◌>>◌ : Exec S A → Exec S B → Exec S B
  m >> n = m >>= λ _. n

-- An outcome that more bytes cannot change: all but an underflow
abbrev pub Final {ℓ κ} : {S : Type ℓ} {A : Type κ} → Outcome S A → Type 0
Final (ok v s) = Unit {0}
Final (err e s) = e ≢ buffer_underflow
