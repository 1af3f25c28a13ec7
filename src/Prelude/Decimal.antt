-- ===== src/Prelude/Decimal.antt =====
-- Decimal digits of natural numbers: `String(n)` and `BigInt(text)` of digits.
use Prim.Native.Nat.{ℕ, zero, suc, ◌+◌, ◌-◌, ◌*◌, ◌/◌, ◌%◌, ◌≤◌, ◌<◌}
use mathlib.Core.Path.{◌≡◌, refl}
use mathlib.Core.Bool.{Bool, true, false, ◌&&◌}
use mathlib.Core.List.{List, [], ◌∷◌, ◌++◌}
use native.Mathlib.Omega.{arith}
use chwire.Prelude.Tests.{ltb, leb, if◌then◌else◌}
use chwire.Prelude.Lists.{length, replicate, All}

-- The last digit goes in front of the rest; a number has one digit more than its tenth.
unfoldable pub digits_before : ℕ → ℕ → List ℕ → List ℕ
digits_before zero n rest = rest
digits_before (suc fuel) n rest =
    let more = digits_before fuel (n / 10) ((48 + n % 10) ∷ rest) in
    if ltb n 10 then (48 + n % 10) ∷ rest else more

-- `n.toString()`
unfoldable pub to_digits : ℕ → List ℕ
unfolding digits_before
to_digits n = digits_before (suc n) n []

-- The number that digits spell behind others
unfoldable pub value_behind : ℕ → List ℕ → ℕ
value_behind n [] = n
value_behind n (c ∷ text) = value_behind (n * 10 + (c - 48)) text

abbrev pub is_digit : ℕ → Bool
is_digit c = leb 48 c && leb c 57

abbrev pub AreDigits : List ℕ → Type 0
AreDigits = All (λ (c : ℕ). (48 ≤ c) × (c ≤ 57))

pub value_behind-digits_before :
    (fuel n : ℕ) (rest : List ℕ)
    → n < fuel
    → value_behind 0 (digits_before fuel n rest) ≡ value_behind n rest
unfolding digits_before value_behind
value_behind-digits_before zero n rest h = absurd (omega arith)
value_behind-digits_before (suc fuel) n rest h =
    ground (arith, value_behind-digits_before fuel (n / 10) ((48 + n % 10) ∷ rest))

pub value_behind-to_digits : (n : ℕ) → value_behind 0 (to_digits n) ≡ n
unfolding to_digits value_behind
value_behind-to_digits n = value_behind-digits_before (suc n) n [] (omega arith)

digits_before-AreDigits :
    (fuel n : ℕ) (rest : List ℕ) → AreDigits rest → AreDigits (digits_before fuel n rest)
unfolding digits_before
digits_before-AreDigits zero n rest h = h
digits_before-AreDigits (suc fuel) n rest h =
    let last : AreDigits ((48 + n % 10) ∷ rest) = ((omega arith, omega arith), h) in
    elim (ltb n 10)
      as (λ b.
        AreDigits (
          if b then (48 + n % 10) ∷ rest else digits_before fuel (n / 10) ((48 + n % 10) ∷ rest))) [
            | true ↦ last
            | false ↦ digits_before-AreDigits fuel (n / 10) ((48 + n % 10) ∷ rest) last
          ]

pub to_digits-AreDigits : (n : ℕ) → AreDigits (to_digits n)
unfolding to_digits
to_digits-AreDigits n = digits_before-AreDigits (suc n) n [] tt

digits_before_longer :
    (fuel n : ℕ) (rest : List ℕ) → 1 ≤ fuel → suc (length rest) ≤ length (digits_before fuel n rest)
unfolding digits_before
digits_before_longer zero n rest h = absurd (omega arith)
digits_before_longer (suc zero) n rest h = ground arith
digits_before_longer (suc (suc fuel)) n rest h =
    ground (arith, digits_before_longer (suc fuel) (n / 10) ((48 + n % 10) ∷ rest))

pub length-to_digits : (n : ℕ) → 1 ≤ length (to_digits n)
unfolding to_digits
length-to_digits n = digits_before_longer (suc n) n [] (omega arith)

-- Zeros in front change nothing.
pub value_behind-zeros :
    (k : ℕ) (text : List ℕ) → value_behind 0 (replicate k 48 ++ text) ≡ value_behind 0 text
unfolding value_behind
value_behind-zeros zero text = refl
value_behind-zeros (suc k) text = value_behind-zeros k text
