-- ===== src/Native/Codecs/Decimal/RoundTrip.antt =====
-- native/codecs/scalar.ts: columns of Decimal32, Decimal64, Decimal128 and Decimal256 through
-- DecimalCodec.
use chwire.Prelude.{
  ℕ, ◌^◌, ◌<◌, ◌≤◌, ◌≡◌, ap, ◌∙◌, ltb, List, [], ◌∷◌, length, All, true, false, arith, map,
  le→ltb_false,
}
use chwire.Prelude.Int.{
  ℤ, pos, negsuc, pos_part, neg_part, to_word32, of_word32, of_word32-to_word32, of_word64,
  of_word64-to_word64,
}
use chwire.Prelude.Result.{Result, good}
use chwire.Io.Words.{length-le_bytes, le_value-le_bytes}
use chwire.Native.Column.{Column, Value, text, boxed}
use chwire.Native.Codec.{RoundTrips}
use chwire.Native.Codecs.Fixed.{Fits, fixed_codec, fixed_codec-RoundTrips}
use chwire.Native.Codecs.BigInt.RoundTrip.{
  read_big_int128-write, read_big_int256-write, highest_IsWord128, highest_IsWord256,
  length-word_bytes, le_value-word_bytes, length-write_big_int128, length-write_big_int256,
}
use chwire.Native.Codecs.Decimal.{
  format_scaled, to_valid_decimal, Width, w4, w8, w16, w32, width_bytes, half, write_scaled,
  read_scaled, greatest, least, scaled_of, checked, decimal_type,
}
use chwire.Native.Codecs.Decimal.Text.{parse_decimal-format_scaled, is_decimal-format_scaled}

-- A signed word of the width
abbrev pub IsWide : Width → ℤ → Type 0
IsWide width z = (pos_part z < half width) × (neg_part z ≤ half width)

to_word32_bound : (z : ℤ) → to_word32 z < 256 ^ 4
to_word32_bound (pos n) = omega arith
to_word32_bound (negsuc n) = omega arith

read_scaled-write_scaled :
    (width : Width) (z : ℤ) → IsWide width z → read_scaled width (write_scaled width z) ≡ z
unfolding read_scaled write_scaled
read_scaled-write_scaled w4 z h =
    ap of_word32 (le_value-le_bytes 4 (to_word32 z) (to_word32_bound z)) ∙ of_word32-to_word32 z h
read_scaled-write_scaled w8 z h = ap of_word64 (le_value-word_bytes z) ∙ of_word64-to_word64 z h
read_scaled-write_scaled w16 z (high, low) =
    read_big_int128-write true z (highest_IsWord128 true z (ground arith) (ground arith))
read_scaled-write_scaled w32 z (high, low) =
    read_big_int256-write true z (highest_IsWord256 true z (ground arith) (ground arith))

length-write_scaled : (width : Width) (z : ℤ) → length (write_scaled width z) ≡ width_bytes width
unfolding write_scaled
length-write_scaled w4 z = length-le_bytes 4 (to_word32 z)
length-write_scaled w8 z = length-word_bytes z
length-write_scaled w16 z = length-write_big_int128 z
length-write_scaled w32 z = length-write_big_int256 z

half_positive : (width : Width) → 1 ≤ half width
half_positive w4 = omega arith
half_positive w8 = omega arith
half_positive w16 = omega arith
half_positive w32 = omega arith

module _ (type : List ℕ) (width : Width) (precision scale : ℕ) (string_of : Value → List ℕ) where
  -- What the codec accepts: no more digits than the precision, and in the bounds of the width
  abbrev pub InBounds : ℤ → Type 0
  InBounds z =
      (pos_part z ≤ greatest type width precision scale string_of)
      × (neg_part z ≤ least type width precision scale string_of)

  InBounds-IsWide : (z : ℤ) → InBounds z → IsWide width z
  InBounds-IsWide z (high, low) = (omega (arith, high, half_positive width), omega (arith, low))

  scaled_of-text :
      (z : ℤ)
      → scaled_of type width precision scale string_of (text (format_scaled z scale)) ≡ good z
  unfolding scaled_of to_valid_decimal
  scaled_of-text z = rw (is_decimal-format_scaled z scale) (parse_decimal-format_scaled z scale)

  checked-good : (z : ℤ) → InBounds z → checked type width precision scale string_of z ≡ good z
  unfolding checked
  checked-good z (high, low) =
      let above : ltb (least type width precision scale string_of) (neg_part z) ≡ false =
        le→ltb_false _ _ low in
      let below : ltb (greatest type width precision scale string_of) (pos_part z) ≡ false =
        le→ltb_false _ _ high in
      rw (above, below)

  abbrev pub decimal_text_of : ℤ → Value
  decimal_text_of z = text (format_scaled z scale)

  All-Fits :
      (values_of : Column → Result (List Value)) (zs : List ℤ)
      → All InBounds zs
      → All
          (Fits (decimal_type type width precision scale string_of) values_of)
          (map decimal_text_of zs)
  unfolding decimal_type
  All-Fits values_of [] h = tt
  All-Fits values_of (z ∷ zs) (p, h) = (
    (
      write_scaled width z,
      rw (scaled_of-text z, checked-good z p),
      length-write_scaled width z,
      ap decimal_text_of (read_scaled-write_scaled width z (InBounds-IsWide z p)),
    ),
    All-Fits values_of zs h,
  )

  -- A column of decimals of a width, each written with the scale of the type and in the bounds of
  -- its precision and of the width, round-trips as text.
  pub decimal_type-RoundTrips :
      (values_of : Column → Result (List Value)) (zs : List ℤ)
      → All InBounds zs
      → RoundTrips
          (fixed_codec (decimal_type type width precision scale string_of) values_of)
          (boxed type (map decimal_text_of zs))
  decimal_type-RoundTrips values_of zs h =
      unfold decimal_type in
      fixed_codec-RoundTrips (decimal_type type width precision scale string_of) values_of
        (map decimal_text_of zs) (All-Fits values_of zs h)
