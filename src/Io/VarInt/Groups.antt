-- ===== src/Io/VarInt/Groups.antt =====
-- The groups of seven bits in the bytes of a varint, and how `readVarInt` joins them.
use chwire.Prelude.{
  ℕ, zero, suc, ◌+◌, ◌*◌, ◌/◌, ◌%◌, ◌^◌, ◌≤◌, ◌<◌, ◌≡◌, List, [], ◌∷◌, drop, get_elem?, arith,
  bit_and, bit_or, some,
}
use native.Mathlib.Numerals.{towards_suc}
use chwire.Prelude.Bits.{bit_and_127, bit_or_disjoint}

-- The number whose groups of seven bits the bytes hold, the lowest first
abbrev pub groups : List ℕ → ℕ
groups [] = 0
groups (b ∷ bytes) = b % 128 + 128 * groups bytes

-- Every byte but the last has its continuation bit, and the last has not.
abbrev pub Ends : List ℕ → Type 0
Ends [] = 1 ≤ 0
Ends (b ∷ []) = b / 128 % 2 ≡ 0
Ends (b ∷ c ∷ bytes) = (b / 128 % 2 ≡ 1) × Ends (c ∷ bytes)

pub drop-get_elem? :
    (offset : ℕ) (buffer : List ℕ) (b : ℕ)
    → get_elem? buffer offset ≡ some b
    → drop offset buffer ≡ b ∷ drop (suc offset) buffer
drop-get_elem? offset [] b e = cc
drop-get_elem? zero (x ∷ buffer) b e = ground (arith, e)
drop-get_elem? (suc offset) (x ∷ buffer) b e = drop-get_elem? offset buffer b e

seven_more : (s : ℕ) → 2 ^ (s + 7) ≡ 128 * 2 ^ s
seven_more s = simp towards_suc (omega arith)

-- A group that fits above `shift`, in front of the others
pub regrouped :
    (acc b shift more : ℕ)
    → acc + b % 128 * 2 ^ shift + more * 2 ^ (shift + 7) ≡ acc + (b % 128 + 128 * more) * 2 ^ shift
regrouped acc b shift more = rw (seven_more shift) (grind arith)

-- The accumulator behind a byte whose group fits the word
pub joined :
    (acc b shift : ℕ)
    → acc < 2 ^ shift
    → shift < 32
    → b % 128 * 2 ^ shift < 2 ^ 32
    → bit_or acc (bit_and b 0x7f * 2 ^ (shift % 32) % 2 ^ 32) ≡ acc + b % 128 * 2 ^ shift
joined acc b shift h s fits =
    let e : shift % 32 ≡ shift = omega arith in
    let f : b % 128 * 2 ^ shift % 2 ^ 32 ≡ b % 128 * 2 ^ shift = omega arith in
    rw (e, bit_and_127 b, f) (bit_or_disjoint shift acc (b % 128) h)

-- With the group of the byte, the accumulator still fits the word.
pub group_fits :
    (k acc byte shift : ℕ)
    → 7 * k + shift ≡ 28
    → acc < 2 ^ shift
    → (shift ≡ 28 → byte / 16 % 16 ≡ 0)
    → acc + byte % 128 * 2 ^ shift < 2 ^ 32
group_fits zero acc byte shift hs ha top =
    let e : shift ≡ 28 = omega arith in
    let ha' : acc < 2 ^ 28 = rw e at ha in rw e (omega (arith, top e, ha'))
group_fits (suc zero) acc byte shift hs ha top =
    let e : shift ≡ 21 = omega arith in
    let ha' : acc < 2 ^ 21 = rw e at ha in rw e (omega (arith, ha'))
group_fits (suc (suc zero)) acc byte shift hs ha top =
    let e : shift ≡ 14 = omega arith in
    let ha' : acc < 2 ^ 14 = rw e at ha in rw e (omega (arith, ha'))
group_fits (suc (suc (suc zero))) acc byte shift hs ha top =
    let e : shift ≡ 7 = omega arith in
    let ha' : acc < 2 ^ 7 = rw e at ha in rw e (omega (arith, ha'))
group_fits (suc (suc (suc (suc zero)))) acc byte shift hs ha top =
    let e : shift ≡ 0 = omega arith in
    let ha' : acc < 2 ^ 0 = rw e at ha in rw e (omega (arith, ha'))
group_fits (suc (suc (suc (suc (suc k))))) acc byte shift hs ha top = absurd (omega arith)

pub next_bound : (acc b shift : ℕ) → acc < 2 ^ shift → acc + b % 128 * 2 ^ shift < 2 ^ (shift + 7)
next_bound acc b shift h =
    rw (seven_more shift) (let m : b % 128 ≤ 127 = omega arith in grind arith)
