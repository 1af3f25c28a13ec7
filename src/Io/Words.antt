-- ===== src/Io/Words.antt =====
-- Fixed-width little-endian words, as the platform's DataView stores and reads them.
use chwire.Prelude.{
  ℕ, zero, suc, ◌+◌, ◌*◌, ◌/◌, ◌%◌, ◌^◌, ◌<◌, ◌≡◌, refl, List, [], ◌∷◌, length, All, arith, ap,
}
use native.Mathlib.Nat.{pow-suc}

-- The `n` lowest bytes of a word, lowest first, and the word of such bytes.
unfoldable pub le_bytes : ℕ → ℕ → List ℕ
le_bytes zero v = []
le_bytes (suc n) v = v % 256 ∷ le_bytes n (v / 256)

unfoldable pub le_value : List ℕ → ℕ
le_value [] = 0
le_value (b ∷ bs) = b + 256 * le_value bs

pub length-le_bytes : (n v : ℕ) → length (le_bytes n v) ≡ n
unfolding le_bytes
length-le_bytes zero v = refl
length-le_bytes (suc n) v = ap suc (length-le_bytes n (v / 256))

-- Storing a word of `n` bytes and reading it back keeps it, modulo 256 ^ n.
pub le_value-le_bytes : (n v : ℕ) → v < 256 ^ n → le_value (le_bytes n v) ≡ v
unfolding le_bytes le_value
le_value-le_bytes zero v h = omega arith
le_value-le_bytes (suc n) v h =
    omega (arith, le_value-le_bytes n (v / 256) (omega (arith, pow-suc 256 n)))

pub le_bytes-IsByte : (n v : ℕ) → All (λ b. b < 256) (le_bytes n v)
unfolding le_bytes
le_bytes-IsByte zero v = tt
le_bytes-IsByte (suc n) v = (omega arith, le_bytes-IsByte n (v / 256))

pub le_bytes-le_value :
    (n : ℕ) (bs : List ℕ) → length bs ≡ n → All (λ b. b < 256) bs → le_bytes n (le_value bs) ≡ bs
unfolding le_bytes le_value
le_bytes-le_value zero [] e h = refl
le_bytes-le_value zero (b ∷ bs) e h = absurd (omega arith)
le_bytes-le_value (suc n) [] e h = absurd (omega arith)
le_bytes-le_value (suc n) (b ∷ bs) e (hb, hbs) = ground (arith, le_bytes-le_value n bs, carry, low)
  where
    carry : (b + 256 * le_value bs) / 256 ≡ le_value bs
    carry = omega arith

    low : (b + 256 * le_value bs) % 256 ≡ b
    low = omega arith
