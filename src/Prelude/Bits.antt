-- ===== src/Prelude/Bits.antt =====
-- Laws of the bit operations at variables: masks as remainders, disjoint `or` as a sum.
use Prim.Native.Nat.{
  ℕ, zero, suc, ◌+◌, ◌*◌, ◌/◌, ◌%◌, ◌^◌, ◌≤◌, ◌<◌, min, max, bit_and, bit_or, digits,
  bit_and-bitwise, bit_or-bitwise,
}
use mathlib.Core.Path.{◌≡◌, refl, ap}
use native.Mathlib.Omega.{arith}
use native.Mathlib.Nat.{pow-suc}

-- An operation that works digit by digit, where `past b` is what is left of `b` behind the last digit
-- of the other operand.
module _ (past : ℕ → ℕ) (digit : ℕ → ℕ → ℕ) where
  enough :
      (a rounds more b : ℕ)
      → a ≤ min rounds more
      → digits past digit more a b ≡ digits past digit rounds a b
  enough zero zero zero b h = refl
  enough zero zero (suc more) b h = refl
  enough zero (suc rounds) zero b h = refl
  enough zero (suc rounds) (suc more) b h = refl
  enough (suc a) zero more b h = absurd (omega arith)
  enough (suc a) (suc rounds) zero b h = absurd (omega arith)
  enough (suc a) (suc rounds) (suc more) b h =
      omega (arith, enough (suc a / 2) rounds more (b / 2) (omega arith))

  -- The lowest digit on its own, and the operation on the other digits.
  lowest_digit :
      (f : ℕ → ℕ → ℕ)
      → ((a b : ℕ) → f a b ≡ digits past digit a a b)
      → ((b : ℕ) → past b ≡ digit 0 (b % 2) + 2 * past (b / 2))
      → (a b : ℕ) → f a b ≡ digit (a % 2) (b % 2) + 2 * f (a / 2) (b / 2)
  lowest_digit f by_digits tail zero b = omega (arith, by_digits 0 b, by_digits 0 (b / 2), tail b)
  lowest_digit f by_digits tail (suc a) b = omega (
    arith,
    by_digits (suc a) b,
    by_digits (suc a / 2) (b / 2),
    enough (suc a / 2) a (suc a / 2) (b / 2) (omega arith),
  )

pub bit_and-halves : (a b : ℕ) → bit_and a b ≡ min (a % 2) (b % 2) + 2 * bit_and (a / 2) (b / 2)
bit_and-halves = lowest_digit (λ b. zero) min bit_and bit_and-bitwise (λ b. omega arith)

pub bit_or-halves : (a b : ℕ) → bit_or a b ≡ max (a % 2) (b % 2) + 2 * bit_or (a / 2) (b / 2)
bit_or-halves = lowest_digit (λ b. b) max bit_or bit_or-bitwise (λ b. omega arith)

pub zero-bit_or : (b : ℕ) → bit_or 0 b ≡ b
zero-bit_or b = bit_or-bitwise 0 b

-- `a | (b << s)` where `a` has its bits below `s`.
pub bit_or_disjoint : (s a b : ℕ) → a < 2 ^ s → bit_or a (b * 2 ^ s) ≡ a + b * 2 ^ s
bit_or_disjoint zero a b h = let e : a ≡ 0 = omega arith in rw (e, zero-bit_or) (omega arith)
bit_or_disjoint (suc s) a b h = omega (
  arith,
  bit_or-halves a (b * 2 ^ suc s),
  halve,
  bit_or_disjoint s (a / 2) b (omega (arith, double)),
  double,
  scaled,
)
  where
    double : 2 ^ suc s ≡ 2 * 2 ^ s
    double = omega (arith, pow-suc 2 s)

    scaled : b * 2 ^ suc s ≡ 2 * (b * 2 ^ s)
    scaled = omega (arith, ap (λ (t : ℕ). b * t) double)

    halve : bit_or (a / 2) (b * 2 ^ suc s / 2) ≡ bit_or (a / 2) (b * 2 ^ s)
    halve = let e : b * 2 ^ suc s / 2 ≡ b * 2 ^ s = omega (arith, scaled) in rw e

pub bit_and-zero : (a : ℕ) → bit_and a 0 ≡ 0
bit_and-zero a = below a a (omega arith)
  where
    below : (limit x : ℕ) → x ≤ limit → bit_and x 0 ≡ 0
    below limit zero h = refl
    below zero (suc x) h = absurd (omega arith)
    below (suc limit) (suc x) h = omega (arith, below limit (suc x / 2), bit_and-halves (suc x) 0)

bit_and_7 : (a : ℕ) → bit_and a 7 ≡ a % 8
bit_and_7 a = omega (
  arith,
  bit_and-halves a 7,
  bit_and-halves (a / 2) 3,
  bit_and-halves (a / 2 / 2) 1,
  bit_and-zero (a / 2 / 2 / 2),
)

bit_and_127' : (a : ℕ) → bit_and a 127 ≡ bit_and (a / 16) 7 * 16 + a % 16
bit_and_127' a = omega (
  arith,
  bit_and-halves a 127,
  bit_and-halves (a / 2) 63,
  bit_and-halves (a / 2 / 2) 31,
  bit_and-halves (a / 2 / 2 / 2) 15,
  eight,
)
  where
    eight : bit_and (a / 2 / 2 / 2 / 2) 7 ≡ bit_and (a / 16) 7
    eight = let e : a / 2 / 2 / 2 / 2 ≡ a / 16 = omega arith in rw e

-- `a & 0x7f`, the data bits of a byte.
pub bit_and_127 : (a : ℕ) → bit_and a 0x7f ≡ a % 128
bit_and_127 a = omega (arith, bit_and_127' a, bit_and_7 (a / 16))

-- `g | 0x80` over seven data bits.
pub bit_or_128 : (g : ℕ) → g < 128 → bit_or g 0x80 ≡ g + 128
bit_or_128 g h = bit_or_disjoint 7 g 1 h

lowest_bit : (x : ℕ) → bit_and x 1 ≡ x % 2
lowest_bit x = omega (arith, bit_and-zero (x / 2), bit_and-halves x 1)

bit_and_8 : (a : ℕ) → bit_and a 8 ≡ a / 8 % 2 * 8
bit_and_8 a = omega (
  arith,
  bit_and-halves a 8,
  bit_and-halves (a / 2) 4,
  bit_and-halves (a / 2 / 2) 2,
  lowest_bit (a / 2 / 2 / 2),
)

-- `b & 0x80`, the continuation bit of a byte.
pub bit_and_128 : (b : ℕ) → bit_and b 0x80 ≡ b / 128 % 2 * 128
bit_and_128 b = omega (
  arith,
  bit_and-halves b 128,
  bit_and-halves (b / 2) 64,
  bit_and-halves (b / 2 / 2) 32,
  bit_and-halves (b / 2 / 2 / 2) 16,
  bit_and_8 (b / 2 / 2 / 2 / 2),
)

bit_and_15 : (a : ℕ) → bit_and a 15 ≡ a % 16
bit_and_15 a = omega (arith, bit_and-halves a 15, bit_and_7 (a / 2))

-- `b & 0xf0`, the upper half of a byte.
pub bit_and_240 : (b : ℕ) → bit_and b 0xf0 ≡ b / 16 % 16 * 16
bit_and_240 b = omega (
  arith,
  bit_and-halves b 240,
  bit_and-halves (b / 2) 120,
  bit_and-halves (b / 2 / 2) 60,
  bit_and-halves (b / 2 / 2 / 2) 30,
  bit_and_15 (b / 2 / 2 / 2 / 2),
)

pub bit_or-lt : (s a b : ℕ) → a < 2 ^ s → b < 2 ^ s → bit_or a b < 2 ^ s
bit_or-lt zero a b p q = let e : a ≡ 0 = omega arith in rw (e, zero-bit_or) q
bit_or-lt (suc s) a b p q = omega (
  arith,
  bit_or-halves a b,
  pow-suc 2 s,
  bit_or-lt s (a / 2) (b / 2) (omega (arith, pow-suc 2 s)) (omega (arith, pow-suc 2 s)),
)

-- `v & 0xff`, the lowest byte.
pub bit_and_255 : (a : ℕ) → bit_and a 0xff ≡ a % 256
bit_and_255 a = omega (
  arith,
  bit_and-halves a 255,
  bit_and-halves (a / 2) 127,
  bit_and-halves (a / 2 / 2) 63,
  bit_and-halves (a / 2 / 2 / 2) 31,
  bit_and_15 (a / 2 / 2 / 2 / 2),
)
