-- ===== src/Native/Codecs/BigInt/RoundTrip.antt =====
-- native/codecs/scalar.ts: columns of Int128, UInt128, Int256 and UInt256 through BigIntCodec.
use chwire.Prelude.{
  ℕ, ◌+◌, ◌^◌, ◌<◌, ◌≡◌, refl, ap, ◌∙◌, sym, if◌then◌else◌, List, [], ◌∷◌, ◌++◌, length, take, drop,
  All, Bool, true, false, arith, length-append, take-length_append, drop-length_append, drop-drop,
  append_assoc, map, le→ltb_false,
}
use chwire.Prelude.Int.{
  ℤ, pos, negsuc, pos_part, neg_part, ◌≤ℤ◌, ltb_ℤ, to_word64, IsInt64, of_word64-to_word64,
}
use chwire.Prelude.Result.{Result, good}
use chwire.Io.Words.{le_value, length-le_bytes, le_value-le_bytes}
use chwire.Native.Column.{Column, Value, integer, boxed}
use chwire.Native.Codec.{RoundTrips}
use chwire.Native.Codecs.Fixed.{Fits, fixed_codec, fixed_codec-RoundTrips}
use chwire.Native.Codecs.BigInt.{
  shift64, join64, word_bytes, write_big_int128, high_word, read_big_int128, write_big_int256,
  read_big_int256, low_bound, high_bound, in_range, coerce, write_big_int, read_big_int,
  big_int_type,
}

join64-shift64 : (z : ℤ) → join64 (shift64 z) (to_word64 z) ≡ z
join64-shift64 (pos n) = ap pos (omega arith)
join64-shift64 (negsuc n) = ap negsuc (omega arith)

-- A word that is the highest one
abbrev pub IsWord : Bool → ℤ → Type 0
IsWord true z = IsInt64 z
IsWord false z = (pos_part z < 2 ^ 64) × (neg_part z ≡ 0)

to_word64_bound : (z : ℤ) → to_word64 z < 256 ^ 8
to_word64_bound (pos n) = omega arith
to_word64_bound (negsuc n) = omega arith

pub le_value-word_bytes : (z : ℤ) → le_value (word_bytes z) ≡ to_word64 z
le_value-word_bytes z = le_value-le_bytes 8 (to_word64 z) (to_word64_bound z)

high_word-word_bytes :
    (signed : Bool) (z : ℤ) → IsWord signed z → high_word signed (word_bytes z) ≡ z
unfolding high_word
high_word-word_bytes true z h = rw (le_value-word_bytes z) (of_word64-to_word64 z h)
high_word-word_bytes false (pos n) h = ap pos (le_value-word_bytes (pos n) ∙ omega (arith, h))
high_word-word_bytes false (negsuc n) h = absurd (omega (arith, h.1))

pub length-word_bytes : (z : ℤ) → length (word_bytes z) ≡ 8
length-word_bytes z = length-le_bytes 8 (to_word64 z)

take-word : (z : ℤ) (rest : List ℕ) → take 8 (word_bytes z ++ rest) ≡ word_bytes z
take-word z rest =
    ap (λ n. take n (word_bytes z ++ rest)) (sym (length-word_bytes z))
    ∙ take-length_append (word_bytes z) rest

drop-word : (z : ℤ) (rest : List ℕ) → drop 8 (word_bytes z ++ rest) ≡ rest
drop-word z rest =
    ap (λ n. drop n (word_bytes z ++ rest)) (sym (length-word_bytes z))
    ∙ drop-length_append (word_bytes z) rest

pub read_big_int128-write :
    (signed : Bool) (z : ℤ)
    → IsWord signed (shift64 z)
    → read_big_int128 signed (write_big_int128 z) ≡ z
unfolding read_big_int128 write_big_int128
read_big_int128-write signed z h =
    rw
      (
        take-word z (word_bytes (shift64 z)),
        drop-word z (word_bytes (shift64 z)),
        le_value-word_bytes z,
        high_word-word_bytes signed (shift64 z) h,
      )
      (join64-shift64 z)

drop-words :
    (n : ℕ) (z : ℤ) (rest more : List ℕ)
    → drop n more ≡ word_bytes z ++ rest
    → drop (n + 8) more ≡ rest
drop-words n z rest more e =
    sym (drop-drop n 8 (n + 8) more refl) ∙ ap (drop 8) e ∙ drop-word z rest

pub read_big_int256-write :
    (signed : Bool) (z : ℤ)
    → IsWord signed (shift64 (shift64 (shift64 z)))
    → read_big_int256 signed (write_big_int256 z) ≡ z
unfolding read_big_int256 write_big_int256
read_big_int256-write signed z h =
    let b : ℤ = shift64 z in
    let c : ℤ = shift64 b in
    let d : ℤ = shift64 c in
    let all : List ℕ = word_bytes z ++ word_bytes b ++ word_bytes c ++ word_bytes d in
    let e : all ≡ word_bytes z ++ (word_bytes b ++ (word_bytes c ++ word_bytes d)) =
      append_assoc (word_bytes z ++ word_bytes b) (word_bytes c) (word_bytes d)
      ∙ append_assoc (word_bytes z) (word_bytes b) (word_bytes c ++ word_bytes d) in
    let d8 : drop 8 all ≡ word_bytes b ++ (word_bytes c ++ word_bytes d) =
      ap (drop 8) e ∙ drop-word z (word_bytes b ++ (word_bytes c ++ word_bytes d)) in
    let d16 : drop 16 all ≡ word_bytes c ++ word_bytes d =
      drop-words 8 b (word_bytes c ++ word_bytes d) all d8 in
    let d24 : drop 24 all ≡ word_bytes d = drop-words 16 c (word_bytes d) all d16 in
    let t8 : take 8 all ≡ word_bytes z =
      ap (take 8) e ∙ take-word z (word_bytes b ++ (word_bytes c ++ word_bytes d)) in
    rw
      (
        d24,
        d16,
        d8,
        t8,
        take-word c (word_bytes d),
        take-word b (word_bytes c ++ word_bytes d),
        le_value-word_bytes z,
        le_value-word_bytes b,
        le_value-word_bytes c,
        high_word-word_bytes signed d h,
        join64-shift64 c,
        join64-shift64 b,
      )
      (join64-shift64 z)

module _ (type : List ℕ) (wide signed : Bool) (big_int_of : Value → Result ℤ) where
  abbrev pub InRange : ℤ → Type 0
  InRange b = (low_bound wide signed ≤ℤ b) × (b ≤ℤ high_bound wide signed)

  InRange-good : (b : ℤ) → InRange b → coerce type wide signed big_int_of (integer b) ≡ good b
  unfolding coerce in_range
  InRange-good b (low, high) =
      let above : ltb_ℤ b (low_bound wide signed) ≡ false = le→ltb_false _ _ low in
      let below : ltb_ℤ (high_bound wide signed) b ≡ false = le→ltb_false _ _ high in
      rw (above, below)

pub highest_IsWord128 :
    (signed : Bool) (b : ℤ)
    → low_bound false signed ≤ℤ b
    → b ≤ℤ high_bound false signed
    → IsWord signed (shift64 b)
highest_IsWord128 true (pos n) low high = (omega arith, omega arith)
highest_IsWord128 true (negsuc n) low high = (omega arith, omega arith)
highest_IsWord128 false (pos n) low high = (omega arith, omega arith)
highest_IsWord128 false (negsuc n) low high = absurd (omega arith)

pub highest_IsWord256 :
    (signed : Bool) (b : ℤ)
    → low_bound true signed ≤ℤ b
    → b ≤ℤ high_bound true signed
    → IsWord signed (shift64 (shift64 (shift64 b)))
highest_IsWord256 true (pos n) low high = (omega arith, omega arith)
highest_IsWord256 true (negsuc n) low high = (omega arith, omega arith)
highest_IsWord256 false (pos n) low high = (omega arith, omega arith)
highest_IsWord256 false (negsuc n) low high = absurd (omega arith)

read-write_big_int :
    (type : List ℕ) (wide signed : Bool) (big_int_of : Value → Result ℤ) (b : ℤ)
    → InRange type wide signed big_int_of b
    → read_big_int type wide signed big_int_of (write_big_int type wide signed big_int_of b) ≡ b
unfolding read_big_int write_big_int
read-write_big_int type false signed big_int_of b (low, high) =
    read_big_int128-write signed b (highest_IsWord128 signed b low high)
read-write_big_int type true signed big_int_of b (low, high) =
    read_big_int256-write signed b (highest_IsWord256 signed b low high)

length-more :
    (n : ℕ) (front : List ℕ) (z : ℤ) → length front ≡ n → length (front ++ word_bytes z) ≡ n + 8
length-more n front z h = omega (arith, length-append front (word_bytes z), length-word_bytes z, h)

pub length-write_big_int128 : (b : ℤ) → length (write_big_int128 b) ≡ 16
unfolding write_big_int128
length-write_big_int128 b = length-more 8 (word_bytes b) (shift64 b) (length-word_bytes b)

pub length-write_big_int256 : (b : ℤ) → length (write_big_int256 b) ≡ 32
unfolding write_big_int256
length-write_big_int256 b =
    length-more 24 _ _ (length-more 16 _ _ (length-more 8 _ _ (length-word_bytes b)))

length-write_big_int :
    (type : List ℕ) (wide signed : Bool) (big_int_of : Value → Result ℤ) (b : ℤ)
    → length (write_big_int type wide signed big_int_of b) ≡ (if wide then 32 else 16)
unfolding write_big_int
length-write_big_int type false signed big_int_of b = length-write_big_int128 b
length-write_big_int type true signed big_int_of b = length-write_big_int256 b

module _ (type : List ℕ) (wide signed : Bool) (big_int_of : Value → Result ℤ) where
  All-Fits :
      (values_of : Column → Result (List Value)) (bs : List ℤ)
      → All (InRange type wide signed big_int_of) bs
      → All (Fits (big_int_type type wide signed big_int_of) values_of) (map integer bs)
  unfolding big_int_type
  All-Fits values_of [] h = tt
  All-Fits values_of (b ∷ bs) (p, h) = (
    (
      write_big_int type wide signed big_int_of b,
      rw (InRange-good type wide signed big_int_of b p),
      length-write_big_int type wide signed big_int_of b,
      ap integer (read-write_big_int type wide signed big_int_of b p),
    ),
    All-Fits values_of bs h,
  )

  -- A column of integers in the range of the type, Int128, UInt128, Int256 or UInt256, round-trips.
  pub big_int_type-RoundTrips :
      (values_of : Column → Result (List Value)) (bs : List ℤ)
      → All (InRange type wide signed big_int_of) bs
      → RoundTrips
          (fixed_codec (big_int_type type wide signed big_int_of) values_of)
          (boxed type (map integer bs))
  big_int_type-RoundTrips values_of bs h =
      unfold big_int_type in
      fixed_codec-RoundTrips (big_int_type type wide signed big_int_of) values_of (map integer bs)
        (All-Fits values_of bs h)
