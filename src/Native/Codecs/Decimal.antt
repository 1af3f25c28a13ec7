-- ===== src/Native/Codecs/Decimal.antt =====
-- native/codecs/scalar.ts: parseDecimalToScaledBigInt, formatScaledBigInt and class DecimalCodec;
-- native/coercion.ts: toValidDecimal. Parameters: the text of a value that is no text and no bigint
-- ("0" for null), and the width, the precision and the scale that the constructor reads off the
-- type.
use chwire.Prelude.{
  ℕ, zero, suc, ◌+◌, ◌-◌, ◌^◌, min, ltb, ◌==◌, if◌then◌else◌, List, [], ◌∷◌, ◌++◌, length, take,
  drop, replicate, Bool, true, false, ◌&&◌, ◌||◌,
}
use chwire.Prelude.Int.{
  ℤ, pos, negsuc, pos_part, neg_part, to_word32, of_word32, to_word64, of_word64,
}
use chwire.Prelude.Decimal.{to_digits, value_behind, is_digit}
use chwire.Prelude.Result.{Result, good, bad, type_error, range_error, ◌>>=◌}
use chwire.Io.Words.{le_bytes, le_value}
use chwire.Native.Column.{Value, text, integer}
use chwire.Native.Codecs.Fixed.{FixedType}
use chwire.Native.Codecs.BigInt.{
  write_big_int128, read_big_int128, write_big_int256, read_big_int256, word_bytes,
}
pub mod Text
pub mod RoundTrip

-- `str.slice(0, dot)` and `str.slice(dot + 1)`; without a dot, the text and nothing
unfoldable pub before_dot : List ℕ → List ℕ
before_dot [] = []
before_dot (c ∷ str) = if c == b'.' then [] else c ∷ before_dot str

unfoldable pub behind_dot : List ℕ → List ℕ
behind_dot [] = []
behind_dot (c ∷ str) = if c == b'.' then str else behind_dot str

-- `replace(/0+$/, "")`
unfoldable pub trim_zeros : List ℕ → List ℕ
trim_zeros [] = []
trim_zeros (c ∷ str) = elim (trim_zeros str) [
  | [] ↦ if c == b'0' then [] else c ∷ []
  | x ∷ rest ↦ c ∷ x ∷ rest
]

-- `padEnd(scale, "0")`
abbrev pub pad_end : ℕ → List ℕ → List ℕ
pad_end scale frac = frac ++ replicate (scale - length frac) b'0'

unfoldable pub fit_scale : ℕ → List ℕ → Result (List ℕ)
unfolding trim_zeros
fit_scale scale frac =
    if ltb scale (length frac)
    then (if ltb scale (length (trim_zeros frac))
        then bad type_error
        else good (pad_end scale (trim_zeros frac)))
    else good (pad_end scale frac)

abbrev pub negate : ℤ → ℤ
negate (pos zero) = pos 0
negate (pos (suc n)) = negsuc n
negate (negsuc n) = pos (suc n)

-- Without the sign. The callers pass digits, so `BigInt` gets digits.
unfoldable pub parse_unsigned : ℕ → List ℕ → Result ℤ
unfolding before_dot behind_dot fit_scale
parse_unsigned scale str = do
  frac ← fit_scale scale (behind_dot str)
  good (pos (value_behind 0 (before_dot str ++ frac)))

-- `parseDecimalToScaledBigInt`
unfoldable pub parse_decimal : List ℕ → ℕ → Result ℤ
unfolding parse_unsigned
parse_decimal [] scale = parse_unsigned scale []
parse_decimal (c ∷ str) scale = elim (c == b'-') [
  | true ↦ do val ← parse_unsigned scale str; good (negate val)
  | false ↦ parse_unsigned scale (c ∷ str)
]

-- The loop adds zeros in front until there are more digits than the scale.
unfoldable pub pad_front : ℕ → List ℕ → List ℕ
pad_front scale str = replicate (suc scale - length str) b'0' ++ str

unfoldable pub with_point : ℕ → List ℕ → List ℕ
with_point zero str = str
with_point (suc scale) str =
    take (length str - suc scale) str ++ b'.' ∷ drop (length str - suc scale) str

unfoldable pub format_unsigned : ℕ → ℕ → List ℕ
unfolding pad_front with_point
format_unsigned n zero = to_digits n
format_unsigned n (suc scale) = with_point (suc scale) (pad_front (suc scale) (to_digits n))

-- `formatScaledBigInt`
unfoldable pub format_scaled : ℤ → ℕ → List ℕ
unfolding format_unsigned
format_scaled (pos n) scale = format_unsigned n scale
format_scaled (negsuc n) scale = b'-' ∷ format_unsigned (suc n) scale

-- `/^-?\d+(\.\d+)?$/`
unfoldable pub skip_digits : List ℕ → List ℕ
skip_digits [] = []
skip_digits (c ∷ s) = if is_digit c then skip_digits s else c ∷ s

abbrev pub is_empty : List ℕ → Bool
is_empty [] = true
is_empty (c ∷ s) = false

unfoldable pub is_fraction : List ℕ → Bool
unfolding skip_digits
is_fraction [] = false
is_fraction (c ∷ s) = is_digit c && is_empty (skip_digits s)

unfoldable pub is_behind_digits : List ℕ → Bool
unfolding is_fraction
is_behind_digits [] = true
is_behind_digits (c ∷ s) = c == b'.' && is_fraction s

unfoldable pub is_unsigned : List ℕ → Bool
unfolding skip_digits is_behind_digits
is_unsigned [] = false
is_unsigned (c ∷ s) = is_digit c && is_behind_digits (skip_digits s)

unfoldable pub is_decimal : List ℕ → Bool
unfolding is_unsigned
is_decimal [] = false
is_decimal (c ∷ s) = if c == b'-' then is_unsigned s else is_unsigned (c ∷ s)

-- `toValidDecimal` of a text
unfoldable pub to_valid_decimal : List ℕ → Result (List ℕ)
unfolding is_decimal
to_valid_decimal s = if is_decimal s then good s else bad type_error

pub data Width : Type 0 where
  w4 w8 w16 w32 : Width

abbrev pub width_bytes : Width → ℕ
width_bytes w4 = 4
width_bytes w8 = 8
width_bytes w16 = 16
width_bytes w32 = 32

-- The bounds of a signed word of the width
abbrev pub half : Width → ℕ
half w4 = 2 ^ 31
half w8 = 2 ^ 63
half w16 = 2 ^ 127
half w32 = 2 ^ 255

unfoldable pub write_scaled : Width → ℤ → List ℕ
write_scaled w4 z = le_bytes 4 (to_word32 z)
write_scaled w8 z = word_bytes z
write_scaled w16 z = write_big_int128 z
write_scaled w32 z = write_big_int256 z

unfoldable pub read_scaled : Width → List ℕ → ℤ
read_scaled w4 bs = of_word32 (le_value bs)
read_scaled w8 bs = of_word64 (le_value bs)
read_scaled w16 bs = read_big_int128 true bs
read_scaled w32 bs = read_big_int256 true bs

module _ (type : List ℕ) (width : Width) (precision scale : ℕ) (string_of : Value → List ℕ) where
  -- `this.max` and `-this.min`
  abbrev pub greatest : ℕ
  greatest = min (half width - 1) (10 ^ precision - 1)

  abbrev pub least : ℕ
  least = min (half width) (10 ^ precision - 1)

  unfoldable pub scaled_of : Value → Result ℤ
  unfolding to_valid_decimal parse_decimal
  scaled_of (integer b) = good b
  scaled_of (text s) = do str ← to_valid_decimal s; parse_decimal str scale
  scaled_of v = do str ← to_valid_decimal (string_of v); parse_decimal str scale

  unfoldable pub checked : ℤ → Result ℤ
  checked z =
      if ltb least (neg_part z) || ltb greatest (pos_part z) then bad range_error else good z

  -- `fromValues` at a value
  unfoldable pub decimal_text : Value → Result Value
  unfolding to_valid_decimal format_scaled
  decimal_text (integer b) = good (text (format_scaled b scale))
  decimal_text (text s) = do str ← to_valid_decimal s; good (text str)
  decimal_text v = do str ← to_valid_decimal (string_of v); good (text str)

  unfoldable pub decimal_type : FixedType
  unfolding scaled_of checked decimal_text write_scaled read_scaled format_scaled
  decimal_type = record {
    type = type;
    size = width_bytes width;
    to_bytes = λ v.
        scaled_of v >>= λ scaled. checked scaled >>= λ scaled. good (write_scaled width scaled);
    of_bytes = λ bs. text (format_scaled (read_scaled width bs) scale);
    from_value = decimal_text;
    zero_value = text (format_scaled (pos 0) scale);
  }
