-- ===== src/Examples/Scalars.antt =====
-- The theorems on types with values of a fixed size at concrete inputs.
use chwire.Prelude.{ℕ, ◌-◌, ◌+◌, ◌^◌, ◌≡◌, refl, List, [], ◌∷◌, map, true, arith}
use chwire.Prelude.Text.{codes}
use chwire.Prelude.Int.{ℤ, pos, negsuc}
use chwire.Prelude.Result.{Result, good, bad, type_error}
use chwire.Native.Column.{Column, Value, integer, boxed}
use chwire.Native.Codec.{RoundTrips}
use chwire.Native.Codecs.Fixed.{fixed_codec}
use chwire.Native.Codecs.BigInt.{big_int_type}
use chwire.Native.Codecs.BigInt.RoundTrip.{big_int_type-RoundTrips}
use chwire.Native.Codecs.Decimal.{
  w8, decimal_type, parse_decimal, parse_unsigned, before_dot, behind_dot, fit_scale, trim_zeros,
  format_scaled, format_unsigned, pad_front, with_point,
}
use chwire.Prelude.Decimal.{to_digits, digits_before, value_behind}
use chwire.Native.Codecs.Decimal.RoundTrip.{decimal_type-RoundTrips, decimal_text_of}

abbrev no_integer : Value → Result ℤ
no_integer v = bad type_error

abbrev no_values : Column → Result (List Value)
no_values col = bad type_error

abbrev integers : List ℤ
integers = negsuc (2 ^ 255 - 1) ∷ negsuc 0 ∷ pos (2 ^ 200 + 7) ∷ []

big_int_type-RoundTrips_example :
    RoundTrips
      (fixed_codec (big_int_type (codes "Int256") true true no_integer) no_values)
      (boxed (codes "Int256") (map integer integers))
big_int_type-RoundTrips_example =
    big_int_type-RoundTrips (codes "Int256") true true no_integer no_values integers
      ((omega arith, omega arith), ((omega arith, omega arith), ((omega arith, omega arith), tt)))

abbrev zero_text : Value → List ℕ
zero_text v = codes "0"

-- -0.5, 12345678901.23 and 0 with two digits behind the point
abbrev amounts : List ℤ
amounts = negsuc 49 ∷ pos 1234567890123 ∷ pos 0 ∷ []

decimal_type-RoundTrips_example :
    RoundTrips (fixed_codec (decimal_type (codes "Decimal(18, 2)") w8 18 2 zero_text) no_values) (
      boxed
        (codes "Decimal(18, 2)")
        (map (decimal_text_of (codes "Decimal(18, 2)") w8 18 2 zero_text) amounts))
decimal_type-RoundTrips_example =
    decimal_type-RoundTrips (codes "Decimal(18, 2)") w8 18 2 zero_text no_values amounts
      ((omega arith, omega arith), ((omega arith, omega arith), ((omega arith, omega arith), tt)))

formatted : format_scaled (negsuc 49) 2 ≡ codes "-0.50"
unfolding format_scaled format_unsigned pad_front with_point to_digits digits_before
formatted = refl

trimmed : parse_decimal (codes "1.500") 1 ≡ good (pos 15)
unfolding parse_decimal parse_unsigned before_dot behind_dot fit_scale trim_zeros value_behind
trimmed = refl

too_precise : parse_decimal (codes "-1.25") 1 ≡ bad type_error
unfolding parse_decimal parse_unsigned before_dot behind_dot fit_scale trim_zeros value_behind
too_precise = refl
