-- ===== src/Examples/Enum.antt =====
-- The theorems on enums and literals at concrete inputs.
use chwire.Prelude.{ℕ, ◌≡◌, refl, List, [], ◌∷◌, ◌++◌, some, true, false}
use chwire.Prelude.Text.{codes}
use chwire.Prelude.Int.{pos, negsuc}
use chwire.Prelude.Result.{good}
use chwire.Prelude.Maps.{lookup}
use chwire.Compression.{equals}
use chwire.Native.Literal.{quote, escape_string}
use chwire.Prelude.Scan.{starts_with}
use chwire.Native.Enum.{
  EnumMapping, parse_quoted_string, parse_enum_definition, entry_loop, parse_content, with_entries,
  skip_separators, after_entry, read_entry, behind_equals, skip_whitespace, read_value, read_sign,
  digit_loop, value_of, signed, is_refused, add_entry, quoted_loop, is_ascii_whitespace,
}
use chwire.Native.Enum.Quoted.{parse_quoted_string-escape_string}
use chwire.Native.Enum.Mapping.{IsMapping, parse_enum_definition-IsMapping}
use chwire.Native.Enum.Values.{
  EnumCodec, EnumColumn, missing, name, as_name, new_enum_codec, from_values, get, with_mapping,
  with_default, least, values_loop, to_enum_value,
}
use chwire.Native.Enum.Columns.{from_values-get, StandsFor}

parse_quoted_string-escape_string_example :
    parse_quoted_string (quote ∷ (escape_string (codes "a'b\\c") true ++ quote ∷ codes " = 1"))
    ≡ some (codes "a'b\\c", codes " = 1")
parse_quoted_string-escape_string_example =
    parse_quoted_string-escape_string (codes "a'b\\c") (codes " = 1")

abbrev no_entries : EnumMapping
no_entries = record { name_to_value = []; value_to_name = [] }

abbrev sign_type : List ℕ
sign_type = codes "Enum8('down' = -1, 'up'=2)"

abbrev sign_mapping : EnumMapping
sign_mapping = record {
  name_to_value = (codes "down", negsuc 0) ∷ (codes "up", pos 2) ∷ [];
  value_to_name = (negsuc 0, codes "down") ∷ (pos 2, codes "up") ∷ [];
}

sign_parsed : parse_enum_definition sign_type ≡ some sign_mapping
unfolding parse_enum_definition starts_with parse_content with_entries entry_loop skip_separators
    after_entry read_entry behind_equals skip_whitespace read_value read_sign digit_loop value_of
    signed is_refused add_entry parse_quoted_string quoted_loop is_ascii_whitespace lookup equals
sign_parsed = refl

parse_enum_definition-IsMapping_example : IsMapping (negsuc 127) (pos 127) sign_mapping
unfolding starts_with
parse_enum_definition-IsMapping_example =
    parse_enum_definition-IsMapping sign_type sign_mapping sign_parsed

abbrev sign_codec : EnumCodec
sign_codec = record {
  type = sign_type;
  low = negsuc 127;
  high = pos 127;
  mapping = sign_mapping;
  default_value = negsuc 0;
}

sign_made : new_enum_codec sign_type ≡ good sign_codec
unfolding new_enum_codec with_mapping with_default least parse_enum_definition starts_with
    parse_content with_entries entry_loop skip_separators after_entry read_entry behind_equals
    skip_whitespace read_value read_sign digit_loop value_of signed is_refused add_entry
    parse_quoted_string quoted_loop is_ascii_whitespace lookup equals
sign_made = refl

abbrev sign_column : EnumColumn
sign_column = record {
  type = sign_type;
  data_values = pos 2 ∷ negsuc 0 ∷ [];
  value_to_name = sign_mapping.value_to_name;
  enum_as_number = false;
}

sign_filled : from_values sign_codec (name (codes "up") ∷ missing ∷ []) ≡ good sign_column
unfolding from_values values_loop to_enum_value lookup equals
sign_filled = refl

from_values-get_example :
    (n : List ℕ) × (get sign_column 1 ≡ some (good (as_name n))) × StandsFor sign_codec missing n
from_values-get_example =
    from_values-get sign_type sign_codec (name (codes "up") ∷ missing ∷ []) sign_column sign_made
      sign_filled 1 missing refl
