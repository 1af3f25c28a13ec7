-- ===== src/Io/VarInt/Bounds.antt =====
-- `readVarInt` and `readVarInt64` on any bytes: bounds, termination, and input that arrives in parts.
use chwire.Prelude.{
  ℕ, zero, suc, ◌+◌, ◌*◌, ◌/◌, ◌%◌, ◌^◌, ◌≤◌, ◌<◌, ◌≡◌, ◌≢◌, refl, ap, List, [], ◌∷◌, ◌++◌, length,
  drop, drop-suc, get_elem?, get_elem?-drop, get_elem?-drop_nil, arith, bit_and, bit_or,
  get_elem?-append, length-append, get_elem?-lt, Option-cases, inl, inr,
}
use native.Mathlib.Nat.{pow-suc}
use native.Mathlib.Numerals.{add-one}
use chwire.Prelude.Bits.{bit_and_128, bit_and_240, bit_or-lt}
use chwire.Prelude.Result.{buffer_underflow}
use chwire.Prelude.Outcome.{ok, err}
use chwire.Io.VarInt.{read_loop, read_var_int, read_loop64, read_var_int64}
use chwire.Io.VarInt.Encode.{leb128, leb128_small, leb128_large, length-leb128}

read_loop_bounds :
    (rounds : ℕ) (buffer : List ℕ) (acc shift offset v end : ℕ)
    → acc < 2 ^ 32
    → read_loop rounds buffer acc shift offset ≡ ok v end
    → (v < 2 ^ 32) × (offset < end) × (end ≤ length buffer) × (end ≤ offset + rounds)
unfolding read_loop
read_loop_bounds zero buffer acc shift offset v end ha e = cc
read_loop_bounds (suc rounds) buffer acc shift offset v end ha e =
    elim (Option-cases (get_elem? buffer offset)) [
      | inl gone ↦ ground (arith, gone)
      | inr (byte, got) ↦
          let part : ℕ = bit_and byte 0x7f * 2 ^ (shift % 32) % 2 ^ 32 in
          ground (
            arith,
            bit_or-lt 32 acc part,
            get_elem?-lt buffer offset got,
            read_loop_bounds rounds buffer (bit_or acc part) (shift + 7) (offset + 1) v end,
          )
    ]

-- A value that `readVarInt` returns fits 32 bits; it takes 1 to 5 bytes, all inside the buffer.
pub read_var_int_bounds :
    (buffer : List ℕ) (offset v end : ℕ)
    → read_var_int buffer offset ≡ ok v end
    → (v < 2 ^ 32) × (offset < end) × (end ≤ length buffer) × (end ≤ offset + 5)
unfolding read_var_int
read_var_int_bounds buffer offset v end e =
    read_loop_bounds 5 buffer 0 0 offset v end (omega arith) e

read_loop_rounds :
    (rounds more : ℕ) (buffer : List ℕ) (acc shift offset : ℕ)
    → 7 * rounds + shift ≡ 35
    → 1 ≤ rounds
    → rounds ≤ more
    → read_loop more buffer acc shift offset ≡ read_loop rounds buffer acc shift offset
unfolding read_loop
read_loop_rounds zero more buffer acc shift offset hs hp hm = absurd (omega arith)
read_loop_rounds (suc rounds) zero buffer acc shift offset hs hp hm = absurd (omega arith)
read_loop_rounds (suc rounds) (suc more) buffer acc shift offset hs hp hm =
    elim (Option-cases (get_elem? buffer offset)) [
      | inl gone ↦ ground (arith, gone)
      | inr (byte, got) ↦
          let part : ℕ = bit_and byte 0x7f * 2 ^ (shift % 32) % 2 ^ 32 in
          ground (
            arith,
            got,
            bit_and_128 byte,
            bit_and_240 byte,
            read_loop_rounds rounds more buffer (bit_or acc part) (shift + 7) (offset + 1),
          )
    ]

-- More rounds than five do not change what `readVarInt` does, on any buffer.
pub read_var_int_rounds :
    (more : ℕ) (buffer : List ℕ) (offset : ℕ)
    → 5 ≤ more
    → read_loop more buffer 0 0 offset ≡ read_var_int buffer offset
unfolding read_var_int
read_var_int_rounds more buffer offset h =
    read_loop_rounds 5 more buffer 0 0 offset refl (omega arith) h

read_loop64_rounds :
    (rounds more : ℕ) (buffer : List ℕ) (acc shift offset : ℕ)
    → 7 * rounds + shift ≡ 70
    → 1 ≤ rounds
    → rounds ≤ more
    → read_loop64 more buffer acc shift offset ≡ read_loop64 rounds buffer acc shift offset
unfolding read_loop64
read_loop64_rounds zero more buffer acc shift offset hs hp hm = absurd (omega arith)
read_loop64_rounds (suc rounds) zero buffer acc shift offset hs hp hm = absurd (omega arith)
read_loop64_rounds (suc rounds) (suc more) buffer acc shift offset hs hp hm =
    elim (Option-cases (get_elem? buffer offset)) [
      | inl gone ↦ ground (arith, gone)
      | inr (byte, got) ↦
          let part : ℕ = bit_and byte 0x7f * 2 ^ shift in
          ground (
            arith,
            got,
            read_loop64_rounds rounds more buffer (bit_or acc part) (shift + 7) (offset + 1),
          )
    ]

-- More rounds than ten do not change what `readVarInt64` does, on any buffer.
pub read_var_int64_rounds :
    (more : ℕ) (buffer : List ℕ) (offset : ℕ)
    → 10 ≤ more
    → read_loop64 more buffer 0 0 offset ≡ read_var_int64 buffer offset
unfolding read_var_int64
read_var_int64_rounds more buffer offset h =
    read_loop64_rounds 10 more buffer 0 0 offset refl (omega arith) h

read_loop64-append :
    (rounds : ℕ) (buffer more : List ℕ) (acc shift offset v end : ℕ)
    → read_loop64 rounds buffer acc shift offset ≡ ok v end
    → (read_loop64 rounds (buffer ++ more) acc shift offset ≡ ok v end)
      × (offset < end)
      × (end ≤ length buffer)
unfolding read_loop64
read_loop64-append zero buffer more acc shift offset v end e = cc
read_loop64-append (suc rounds) buffer more acc shift offset v end e =
    elim (Option-cases (get_elem? buffer offset)) [
      | inl gone ↦ ground (arith, gone)
      | inr (byte, got) ↦
          let part : ℕ = bit_and byte 0x7f * 2 ^ shift in
          ground (
            arith,
            get_elem?-append buffer more offset got,
            get_elem?-lt buffer offset got,
            read_loop64-append rounds buffer more (bit_or acc part) (shift + 7) (offset + 1) v end,
          )
    ]

-- What `readVarInt64` read does not change when more bytes arrive behind the buffer, and it lies
-- inside the buffer.
pub read_var_int64-append :
    (buffer more : List ℕ) (offset v end : ℕ)
    → read_var_int64 buffer offset ≡ ok v end
    → (read_var_int64 (buffer ++ more) offset ≡ ok v end) × (offset < end) × (end ≤ length buffer)
unfolding read_var_int64
read_var_int64-append buffer more offset v end e =
    read_loop64-append 10 buffer more 0 0 offset v end e

read_loop64_truncated :
    (k v rounds acc shift offset x : ℕ) (buffer front back : List ℕ)
    → v < 128 ^ suc k
    → 7 * rounds + shift ≡ 70
    → k < rounds
    → drop offset buffer ≡ front
    → leb128 v ≡ front ++ x ∷ back
    → read_loop64 rounds buffer acc shift offset ≡ err buffer_underflow (offset + length front)
unfolding read_loop64
read_loop64_truncated k v zero acc shift offset x buffer front back hv hs hr e p =
    absurd (omega arith)
read_loop64_truncated k v (suc rounds) acc shift offset x buffer [] back hv hs hr e p =
    ground (arith, get_elem?-drop_nil offset buffer e)
read_loop64_truncated zero v (suc rounds) acc shift offset x buffer (y ∷ front) back hv hs hr e p =
    absurd (
      omega (
        arith,
        ap (λ (t : List ℕ). length t) p,
        length-leb128 0 v hv,
        length-append front (x ∷ back),
      ))
read_loop64_truncated (suc k) v (suc rounds) acc shift offset x buffer (y ∷ front) back hv hs hr e
      p =
    ground (
      arith,
      leb128_small v,
      leb128_large v,
      front-ne-nil front,
      get_elem?-drop offset buffer {x = y} {ys = front},
      drop-suc offset buffer {x = y} {ys = front},
      add-one offset,
      bit_and_128 y,
      pow-suc 128 (suc k),
      read_loop64_truncated k (v / 128) rounds (bit_or acc (bit_and y 0x7f * 2 ^ shift)) (shift + 7)
          (offset + 1) x buffer front back,
    )
  where
    front-ne-nil : (l : List ℕ) → l ++ x ∷ back ≢ []
    front-ne-nil [] h = cc
    front-ne-nil (z ∷ l) h = cc

-- A buffer that ends inside the encoding of a value below 2 ^ 70 is an underflow at its end, and
-- no other error or value.
pub read_var_int64_truncated :
    (v offset x : ℕ) (buffer front back : List ℕ)
    → v < 2 ^ 70
    → drop offset buffer ≡ front
    → leb128 v ≡ front ++ x ∷ back
    → read_var_int64 buffer offset ≡ err buffer_underflow (offset + length front)
unfolding read_var_int64
read_var_int64_truncated v offset x buffer front back h e p =
    read_loop64_truncated 9 v 10 0 0 offset x buffer front back h refl (omega arith) e p
