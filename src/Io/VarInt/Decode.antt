-- ===== src/Io/VarInt/Decode.antt =====
-- `readVarInt` and `readVarInt64` read back what `writeVarInt` wrote, and what they accept.
use chwire.Prelude.{
  ℕ, zero, suc, ◌+◌, ◌*◌, ◌/◌, ◌%◌, ◌^◌, ◌≤◌, ◌<◌, ◌≡◌, ap, List, ◌∷◌, ◌++◌, length, drop, drop-suc,
  get_elem?-drop, arith, bit_and, bit_or,
}
use native.Mathlib.Nat.{pow-suc, div-add-mod}
use native.Mathlib.Numerals.{towards_suc, add-one}
use chwire.Prelude.Bits.{bit_and_127, bit_and_128, bit_and_240, bit_or_disjoint}
use chwire.Prelude.Outcome.{ok}
use chwire.Io.VarInt.{read_loop, read_var_int, read_loop64, read_var_int64}
use chwire.Io.VarInt.Encode.{leb128, leb128_small, leb128_large}

join_group :
    (acc w s : ℕ) → acc < 2 ^ s → bit_or acc (bit_and w 0x7f * 2 ^ s) ≡ acc + w % 128 * 2 ^ s
join_group acc w s h = rw (bit_and_127 w) (bit_or_disjoint s acc (w % 128) h)

seven_more : (s : ℕ) → 2 ^ (s + 7) ≡ 128 * 2 ^ s
seven_more s = simp towards_suc (omega arith)

joined_bound : (acc g s : ℕ) → acc < 2 ^ s → g < 128 → acc + g * 2 ^ s < 2 ^ (s + 7)
joined_bound acc g s h hg = grind (arith, seven_more s)

regroup : (w s : ℕ) → w % 128 * 2 ^ s + w / 128 * 2 ^ (s + 7) ≡ w * 2 ^ s
regroup w s = omega (
  arith,
  ap (λ (t : ℕ). t * 2 ^ s) (div-add-mod w 128),
  ap (λ (t : ℕ). w / 128 * t) (seven_more s),
)

read_loop64-leb128 :
    (k w rounds acc shift offset : ℕ) (buffer rest : List ℕ)
    → w < 128 ^ suc k
    → acc < 2 ^ shift
    → 7 * k + shift ≤ 63
    → k < rounds
    → drop offset buffer ≡ leb128 w ++ rest
    → read_loop64 rounds buffer acc shift offset
      ≡ ok (acc + w * 2 ^ shift) (offset + length (leb128 w))
unfolding read_loop64
read_loop64-leb128 k w zero acc shift offset buffer rest hw ha hs hr e = absurd (omega arith)
read_loop64-leb128 zero w (suc rounds) acc shift offset buffer rest hw ha hs hr e = ground (
  arith,
  leb128_small w,
  get_elem?-drop offset buffer {x = w} {ys = rest},
  join_group acc w shift,
  bit_and_128 w,
)
read_loop64-leb128 (suc k) w (suc rounds) acc shift offset buffer rest hw ha hs hr e = ground (
  arith,
  leb128_small w,
  leb128_large w,
  get_elem?-drop offset buffer {x = w} {ys = rest},
  get_elem?-drop offset buffer {x = w % 128 + 128} {ys = leb128 (w / 128) ++ rest},
  drop-suc offset buffer {x = w % 128 + 128} {ys = leb128 (w / 128) ++ rest},
  join_group acc w shift,
  join_group acc (w % 128 + 128) shift,
  bit_and_128 w,
  bit_and_128 (w % 128 + 128),
  regroup w shift,
  pow-suc 128 (suc k),
  joined_bound acc (w % 128) shift,
  add-one offset,
  read_loop64-leb128 k (w / 128) rounds (acc + w % 128 * 2 ^ shift) (shift + 7) (offset + 1) buffer
      rest,
)

-- `readVarInt64` reads back a value below 2 ^ 70 and stops right behind it.
pub read_var_int64-leb128 :
    (v offset : ℕ) (buffer rest : List ℕ)
    → v < 2 ^ 70
    → drop offset buffer ≡ leb128 v ++ rest
    → read_var_int64 buffer offset ≡ ok v (offset + length (leb128 v))
unfolding read_var_int64
read_var_int64-leb128 v offset buffer rest h e =
    ground (arith, read_loop64-leb128 9 v 10 0 0 offset buffer rest)

word_shift : (shift : ℕ) → shift < 32 → 2 ^ (shift % 32) ≡ 2 ^ shift
word_shift shift h = let e : shift % 32 ≡ shift = omega arith in rw e

-- What fits above bit 28 of a 32-bit word.
top_group : (acc w shift : ℕ) → shift ≡ 28 → acc + w * 2 ^ shift < 2 ^ 32 → w < 16
top_group acc w shift e h = let h' : acc + w * 2 ^ 28 < 2 ^ 32 = rw e at h in omega arith

part_fits :
    (acc w shift : ℕ)
    → acc + w * 2 ^ shift < 2 ^ 32
    → w % 128 * 2 ^ shift % 2 ^ 32 ≡ w % 128 * 2 ^ shift
part_fits acc w shift h = omega (arith, regroup w shift)

-- One round on a byte that is the last, and on one that is not.
read_last :
    (w rounds acc shift offset : ℕ) (buffer rest : List ℕ)
    → w < 128
    → acc < 2 ^ shift
    → shift ≤ 28
    → acc + w * 2 ^ shift < 2 ^ 32
    → drop offset buffer ≡ w ∷ rest
    → read_loop (suc rounds) buffer acc shift offset ≡ ok (acc + w * 2 ^ shift) (offset + 1)
unfolding read_loop
read_last w rounds acc shift offset buffer rest hw ha hs hf e = ground (
  arith,
  get_elem?-drop offset buffer {x = w} {ys = rest},
  join_group acc w shift,
  word_shift shift,
  bit_and_127 w,
  part_fits acc w shift,
  bit_and_128 w,
  bit_and_240 w,
  top_group acc w shift,
)

read_inner :
    (w rounds acc shift offset : ℕ) (buffer rest : List ℕ)
    → acc < 2 ^ shift
    → shift < 28
    → acc + w * 2 ^ shift < 2 ^ 32
    → drop offset buffer ≡ (w % 128 + 128) ∷ rest
    → read_loop (suc rounds) buffer acc shift offset
      ≡ read_loop rounds buffer (acc + w % 128 * 2 ^ shift) (shift + 7) (offset + 1)
unfolding read_loop
read_inner w rounds acc shift offset buffer rest ha hs hf e = ground (
  arith,
  get_elem?-drop offset buffer {x = w % 128 + 128} {ys = rest},
  join_group acc (w % 128 + 128) shift,
  word_shift shift,
  bit_and_127 (w % 128 + 128),
  part_fits acc w shift,
  bit_and_128 (w % 128 + 128),
)

read_loop-leb128 :
    (k w rounds acc shift offset : ℕ) (buffer rest : List ℕ)
    → w < 128 ^ suc k
    → acc < 2 ^ shift
    → 7 * k + shift ≤ 28
    → acc + w * 2 ^ shift < 2 ^ 32
    → k < rounds
    → drop offset buffer ≡ leb128 w ++ rest
    → read_loop rounds buffer acc shift offset
      ≡ ok (acc + w * 2 ^ shift) (offset + length (leb128 w))
read_loop-leb128 k w zero acc shift offset buffer rest hw ha hs hf hr e = absurd (omega arith)
read_loop-leb128 zero w (suc rounds) acc shift offset buffer rest hw ha hs hf hr e =
    ground (arith, leb128_small w, read_last w rounds acc shift offset buffer rest)
read_loop-leb128 (suc k) w (suc rounds) acc shift offset buffer rest hw ha hs hf hr e = ground (
  arith,
  leb128_small w,
  leb128_large w,
  read_last w rounds acc shift offset buffer rest,
  read_inner w rounds acc shift offset buffer (leb128 (w / 128) ++ rest),
  drop-suc offset buffer {x = w % 128 + 128} {ys = leb128 (w / 128) ++ rest},
  regroup w shift,
  pow-suc 128 (suc k),
  joined_bound acc (w % 128) shift,
  add-one offset,
  read_loop-leb128 k (w / 128) rounds (acc + w % 128 * 2 ^ shift) (shift + 7) (offset + 1) buffer
      rest,
)

-- `readVarInt` reads back every 32-bit value and stops right behind it.
pub read_var_int-leb128 :
    (v offset : ℕ) (buffer rest : List ℕ)
    → v < 2 ^ 32
    → drop offset buffer ≡ leb128 v ++ rest
    → read_var_int buffer offset ≡ ok v (offset + length (leb128 v))
unfolding read_var_int
read_var_int-leb128 v offset buffer rest h e =
    ground (arith, read_loop-leb128 4 v 5 0 0 offset buffer rest)
