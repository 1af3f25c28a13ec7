-- ===== src/Compression/Words.antt =====
-- `readUInt32LE` and `writeUInt32LE` against the little-endian bytes of a word.
use chwire.Prelude.{
  ℕ, suc, ◌+◌, ◌*◌, ◌/◌, ◌%◌, ◌^◌, ◌<◌, ◌≡◌, refl, ◌∙◌, List, [], ◌∷◌, ◌++◌, drop, set,
  get_elem?-drop, drop-suc, arith, blit, blit-set, blit_one,
}
use native.Mathlib.Numerals.{add-one}
use chwire.Prelude.Bits.{bit_and_255, bit_or_disjoint}
use chwire.Io.Words.{le_bytes, le_value, le_value-le_bytes}
use chwire.Compression.{read_uint32_le, write_uint32_le}

-- Four bytes that come next are read as their little-endian value.
pub read_uint32_le-le_value :
    (arr : List ℕ) (o a b c d : ℕ) (rest : List ℕ)
    → drop o arr ≡ a ∷ b ∷ c ∷ d ∷ rest
    → a < 256
    → b < 256
    → c < 256
    → d < 256
    → read_uint32_le arr o ≡ le_value (a ∷ b ∷ c ∷ d ∷ [])
unfolding read_uint32_le le_value
read_uint32_le-le_value arr o a b c d rest e ha hb hc hd =
    let e1 : drop (o + 1) arr ≡ b ∷ c ∷ d ∷ rest = rw add-one (drop-suc o arr e) in
    let two : o + 2 ≡ suc (o + 1) = omega arith in
    let three : o + 3 ≡ suc (o + 2) = omega arith in
    let e2 : drop (o + 2) arr ≡ c ∷ d ∷ rest = rw two (drop-suc (o + 1) arr e1) in
    let e3 : drop (o + 3) arr ≡ d ∷ rest = rw three (drop-suc (o + 2) arr e2) in
    ground (
      arith,
      get_elem?-drop o arr e,
      get_elem?-drop (o + 1) arr e1,
      get_elem?-drop (o + 2) arr e2,
      get_elem?-drop (o + 3) arr e3,
      bit_or_disjoint 8 a b,
      bit_or_disjoint 16 (a + b * 2 ^ 8) c,
      bit_or_disjoint 24 (a + b * 2 ^ 8 + c * 2 ^ 16) d,
    )

pub le_bytes_four :
    (v : ℕ)
    → le_bytes 4 v ≡ v % 256 ∷ v / 256 % 256 ∷ v / 256 / 256 % 256 ∷ v / 256 / 256 / 256 % 256 ∷ []
unfolding le_bytes
le_bytes_four v = refl

-- `readUInt32LE` reads back a word below 2 ^ 32.
pub read_uint32_le-le_bytes :
    (arr : List ℕ) (o v : ℕ) (rest : List ℕ)
    → drop o arr ≡ le_bytes 4 v ++ rest
    → v < 2 ^ 32
    → read_uint32_le arr o ≡ v
read_uint32_le-le_bytes arr o v rest e h =
    read_uint32_le-le_value arr o (v % 256) (v / 256 % 256) (v / 256 / 256 % 256)
      (v / 256 / 256 / 256 % 256) rest (rw le_bytes_four at e) (omega arith) (omega arith)
      (omega arith) (omega arith)
    ∙ rw (← le_bytes_four v) (le_value-le_bytes 4 v (omega arith))

-- `writeUInt32LE` stores the four bytes at the offset.
pub write_uint32_le-blit :
    (arr : List ℕ) (v o : ℕ) → write_uint32_le arr v o ≡ blit arr o (le_bytes 4 v)
unfolding write_uint32_le
write_uint32_le-blit arr v o =
    let two : o + 2 ≡ suc (o + 1) = omega arith in
    let three : o + 3 ≡ suc (o + 2) = omega arith in
    let b0 : ℕ = v % 256 in
    let b1 : ℕ = v / 256 % 256 in
    let b2 : ℕ = v / 256 / 256 % 256 in
    let b3 : ℕ = v / 256 / 256 / 256 % 256 in
    let f2 : v / 2 ^ 16 % 256 ≡ b2 = omega arith in
    let f3 : v / 2 ^ 24 % 256 ≡ b3 = omega arith in
    ground (
      arith,
      bit_and_255 v,
      bit_and_255 (v / 2 ^ 8),
      bit_and_255 (v / 2 ^ 16),
      bit_and_255 (v / 2 ^ 24),
      le_bytes_four v,
      two,
      three,
      add-one o,
      f2,
      f3,
      blit-set arr o b0 (b1 ∷ b2 ∷ b3 ∷ []),
      blit-set (set arr o b0) (o + 1) b1 (b2 ∷ b3 ∷ []),
      blit-set (set (set arr o b0) (o + 1) b1) (o + 2) b2 (b3 ∷ []),
      blit_one (set (set (set arr o b0) (o + 1) b1) (o + 2) b2) (o + 3) b3,
    )
