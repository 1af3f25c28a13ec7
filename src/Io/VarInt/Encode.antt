-- ===== src/Io/VarInt/Encode.antt =====
-- What `writeVarInt` writes: the groups of seven bits, lowest first.
use chwire.Prelude.{
  ℕ, zero, suc, ◌+◌, ◌/◌, ◌%◌, ◌^◌, ◌≤◌, ◌<◌, ◌≡◌, refl, ap, ltb, set, if◌then◌else◌, List, [], ◌∷◌,
  length, blit, blit-set, blit_one, arith, bit_and, bit_or, All,
}
use chwire.Prelude.Int.{pos}
use chwire.Prelude.Bits.{bit_and_127, bit_or_128}
use chwire.Prelude.Result.{good}
use native.Mathlib.Nat.{pow-suc}
use native.Mathlib.Numerals.{add-one}
use chwire.Io.VarInt.{write_loop, write_var_int, var_int_size_loop, var_int_size}

-- The reference encoding, with fuel for the recursion.
pub groups : ℕ → ℕ → List ℕ
groups zero v = v ∷ []
groups (suc k) v =
    let rest = groups k (v / 128) in if ltb v 128 then v ∷ [] else (v % 128 + 128) ∷ rest

pub leb128 : ℕ → List ℕ
leb128 v = groups v v

groups_fuel : (k m v : ℕ) → v ≤ k → v ≤ m → groups k v ≡ groups m v
unfolding groups
groups_fuel zero zero v p q = refl
groups_fuel zero (suc m) v p q = ground arith
groups_fuel (suc k) zero v p q = ground arith
groups_fuel (suc k) (suc m) v p q = ground (arith, groups_fuel k m (v / 128))

pub leb128_small : (v : ℕ) → v < 128 → leb128 v ≡ v ∷ []
unfolding leb128 groups
leb128_small zero h = refl
leb128_small (suc v) h = ground arith

pub leb128_large : (v : ℕ) → 128 ≤ v → leb128 v ≡ (v % 128 + 128) ∷ leb128 (v / 128)
unfolding leb128 groups
leb128_large zero h = absurd (omega arith)
leb128_large (suc v) h =
    ground (arith, groups_fuel v (suc v / 128) (suc v / 128) (omega arith) (omega arith))

groups-IsByte : (k v : ℕ) → v ≤ k → All (λ b. b < 256) (groups k v)
unfolding groups
groups-IsByte zero v h = omega arith
groups-IsByte (suc k) v h = ground (arith, groups-IsByte k (v / 128))

-- Every element of the encoding is a byte.
pub leb128-IsByte : (v : ℕ) → All (λ b. b < 256) (leb128 v)
unfolding leb128
leb128-IsByte v = groups-IsByte v v (omega arith)

byte_of_group : (v : ℕ) → bit_or (bit_and v 0x7f) 0x80 % 256 ≡ v % 128 + 128
byte_of_group v =
    omega (arith, bit_or_128 (v % 128) (omega arith), ap (λ (t : ℕ). bit_or t 0x80) (bit_and_127 v))

pub write_loop-leb128 :
    (fuel v : ℕ) (buffer : List ℕ) (p : ℕ)
    → v ≤ fuel
    → write_loop fuel buffer p v ≡ (blit buffer p (leb128 v), p + length (leb128 v))
unfolding write_loop
write_loop-leb128 zero v buffer p h =
    rw (leb128_small v (omega arith)) (ground (arith, blit_one buffer p v))
write_loop-leb128 (suc fuel) v buffer p h = ground (
  arith,
  leb128_small v,
  leb128_large v,
  blit_one buffer p v,
  byte_of_group v,
  blit-set buffer p (v % 128 + 128) (leb128 (v / 128)),
  write_loop-leb128 fuel (v / 128) (set buffer p (v % 128 + 128)) (p + 1),
  add-one p,
)

-- `writeVarInt` writes the encoding at the offset and nothing else, and returns its length.
pub write_var_int-leb128 :
    (buffer : List ℕ) (offset v : ℕ)
    → write_var_int buffer offset (pos v) ≡ good (blit buffer offset (leb128 v), length (leb128 v))
unfolding write_var_int
write_var_int-leb128 buffer offset v =
    ground (arith, write_loop-leb128 v v buffer offset (omega arith))

size_loop-leb128 :
    (fuel v size : ℕ) → v ≤ fuel → var_int_size_loop fuel v (size + 1) ≡ size + length (leb128 v)
unfolding var_int_size_loop
size_loop-leb128 zero v size h = rw (leb128_small v (omega arith))
size_loop-leb128 (suc fuel) v size h =
    ground (arith, leb128_small v, leb128_large v, size_loop-leb128 fuel (v / 128) (size + 1))

-- `varIntSize` is the length of the encoding.
pub var_int_size-leb128 : (v : ℕ) → var_int_size v ≡ length (leb128 v)
unfolding var_int_size
var_int_size-leb128 v = omega (arith, size_loop-leb128 v v 0 (omega arith))

groups-length : (k f v : ℕ) → v ≤ f → v < 128 ^ suc k → length (groups f v) ≤ suc k
unfolding groups
groups-length k zero v p h = omega arith
groups-length zero (suc f) v p h = ground arith
groups-length (suc k) (suc f) v p h =
    ground (arith, groups-length k f (v / 128), pow-suc 128 (suc k))

-- A value below 128 ^ (k + 1) takes at most k + 1 bytes.
pub length-leb128 : (k v : ℕ) → v < 128 ^ suc k → length (leb128 v) ≤ suc k
unfolding leb128
length-leb128 k v h = groups-length k v v (omega arith) h

pub length-leb128_pos : (v : ℕ) → 1 ≤ length (leb128 v)
length-leb128_pos v = ground (arith, leb128_small v, leb128_large v)
