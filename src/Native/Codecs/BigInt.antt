-- ===== src/Native/Codecs/BigInt.antt =====
-- native/codecs/scalar.ts: writeBigInt128, readBigInt128, writeBigInt256, readBigInt256 and class
-- BigIntCodec; native/coercion.ts: toBigIntInRange at a bigint. Parameter: the bigint of another
-- value, with the checks on numbers.
use chwire.Prelude.{
  ℕ, ◌+◌, ◌-◌, ◌*◌, ◌/◌, ◌^◌, ◌<◌, ◌≡◌, refl, ap, ◌∙◌, sym, if◌then◌else◌, List, [], ◌∷◌, ◌++◌,
  length, take, drop, All, Bool, true, false, ◌||◌, arith, length-append, take-length_append,
  drop-length_append, drop-drop, append_assoc, map, le→ltb_false,
}
use chwire.Prelude.Int.{
  ℤ, pos, negsuc, pos_part, neg_part, ◌≤ℤ◌, ltb_ℤ, to_word64, of_word64, IsInt64,
  of_word64-to_word64,
}
use chwire.Prelude.Result.{Result, good, bad, range_error, ◌>>=◌}
use chwire.Io.Words.{le_bytes, le_value, length-le_bytes, le_value-le_bytes}
use chwire.Native.Column.{Column, Value, integer, boxed}
use chwire.Native.Codec.{RoundTrips}
use chwire.Native.Codecs.Fixed.{FixedType, Fits, fixed_codec, fixed_codec-RoundTrips}
pub mod RoundTrip

-- `val >> 64n`, rounding down
abbrev pub shift64 : ℤ → ℤ
shift64 (pos n) = pos (n / 2 ^ 64)
shift64 (negsuc n) = negsuc (n / 2 ^ 64)

-- `(high << 64n) | low`, with `low` of 64 bits
abbrev pub join64 : ℤ → ℕ → ℤ
join64 (pos high) low = pos (high * 2 ^ 64 + low)
join64 (negsuc high) low = negsuc (high * 2 ^ 64 + (2 ^ 64 - 1 - low))

-- `setBigUint64(o, val & mask)`, and `setBigInt64` or `setBigUint64` of the highest word
abbrev pub word_bytes : ℤ → List ℕ
word_bytes z = le_bytes 8 (to_word64 z)

unfoldable pub write_big_int128 : ℤ → List ℕ
write_big_int128 val = word_bytes val ++ word_bytes (shift64 val)

-- The highest word, signed or not
unfoldable pub high_word : Bool → List ℕ → ℤ
high_word signed bs = if signed then of_word64 (le_value bs) else pos (le_value bs)

unfoldable pub read_big_int128 : Bool → List ℕ → ℤ
unfolding high_word
read_big_int128 signed bs = join64 (high_word signed (drop 8 bs)) (le_value (take 8 bs))

unfoldable pub write_big_int256 : ℤ → List ℕ
write_big_int256 val =
    word_bytes val
    ++ word_bytes (shift64 val)
    ++ word_bytes (shift64 (shift64 val))
    ++ word_bytes (shift64 (shift64 (shift64 val)))

unfoldable pub read_big_int256 : Bool → List ℕ → ℤ
unfolding high_word
read_big_int256 signed bs =
    join64
      (join64 (join64 (high_word signed (drop 24 bs)) (le_value (take 8 (drop 16 bs))))
        (le_value (take 8 (drop 8 bs))))
      (le_value (take 8 bs))

-- `byteSize` is 16, or 32 where the type is wide.
abbrev pub low_bound : Bool → Bool → ℤ
low_bound wide false = pos 0
low_bound false true = negsuc (2 ^ 127 - 1)
low_bound true true = negsuc (2 ^ 255 - 1)

abbrev pub high_bound : Bool → Bool → ℤ
high_bound false false = pos (2 ^ 128 - 1)
high_bound true false = pos (2 ^ 256 - 1)
high_bound false true = pos (2 ^ 127 - 1)
high_bound true true = pos (2 ^ 255 - 1)

unfoldable pub in_range : ℤ → ℤ → ℤ → Result ℤ
in_range low high b = if ltb_ℤ b low || ltb_ℤ high b then bad range_error else good b

module _ (type : List ℕ) (wide signed : Bool) (big_int_of : Value → Result ℤ) where
  unfoldable pub coerce : Value → Result ℤ
  unfolding in_range
  coerce (integer b) = in_range (low_bound wide signed) (high_bound wide signed) b
  coerce v = do b ← big_int_of v; in_range (low_bound wide signed) (high_bound wide signed) b

  unfoldable pub write_big_int : ℤ → List ℕ
  unfolding write_big_int128 write_big_int256
  write_big_int b = if wide then write_big_int256 b else write_big_int128 b

  unfoldable pub read_big_int : List ℕ → ℤ
  unfolding read_big_int128 read_big_int256
  read_big_int bs = if wide then read_big_int256 signed bs else read_big_int128 signed bs

  unfoldable pub big_int_type : FixedType
  unfolding coerce write_big_int read_big_int
  big_int_type = record {
    type = type;
    size = if wide then 32 else 16;
    to_bytes = λ v. coerce v >>= λ b. good (write_big_int b);
    of_bytes = λ bs. integer (read_big_int bs);
    from_value = λ v. coerce v >>= λ b. good (integer b);
    zero_value = integer (pos 0);
  }
