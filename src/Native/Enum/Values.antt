-- ===== src/Native/Enum/Values.antt =====
-- native/codecs/scalar.ts, class EnumCodec: what it makes of values. native/columns.ts, class
-- EnumColumn.
-- A number that is no integer is one value of the model.
use chwire.Prelude.{
  ℕ, if◌then◌else◌, List, [], ◌∷◌, Bool, true, false, ◌||◌, Option, none, some, get_elem?,
}
use chwire.Prelude.Text.{codes}
use chwire.Prelude.Int.{ℤ, pos, negsuc, ltb_ℤ}
use chwire.Prelude.Maps.{lookup}
use chwire.Prelude.Result.{Result, good, bad, plain_error, type_error, ◌>>=◌}
use chwire.Compression.{equals}
use chwire.Native.Literal.{escape_string, wrap_quoted}
use chwire.Prelude.Scan.{starts_with}
use chwire.Native.Enum.{EnumMapping, equal_ℤ, parse_enum_definition}

-- A value as JavaScript has it: undefined or null, a string, a number that is an integer or is
-- none, a bigint, or something else.
pub data EnumInput : Type 0 where
  missing : EnumInput
  name : List ℕ → EnumInput
  number : ℤ → EnumInput
  fraction : EnumInput
  bigint : ℤ → EnumInput
  other : EnumInput

pub record EnumCodec : Type 0 where
  pub type : List ℕ
  pub low : ℤ
  pub high : ℤ
  pub mapping : EnumMapping
  pub default_value : ℤ

-- The least key: the loop of the constructor
unfoldable pub least : Option ℤ → List (ℤ × List ℕ) → Option ℤ
least min_value [] = min_value
least none ((v, n) ∷ entries) = least (some v) entries
least (some w) ((v, n) ∷ entries) = least (if ltb_ℤ v w then some v else some w) entries

unfoldable pub with_default : List ℕ → ℤ → ℤ → EnumMapping → Option ℤ → Result EnumCodec
with_default type low high m none = bad plain_error
with_default type low high m (some v) =
    good (record { type = type; low = low; high = high; mapping = m; default_value = v })

unfoldable pub with_mapping : List ℕ → ℤ → ℤ → Option EnumMapping → Result EnumCodec
unfolding least with_default
with_mapping type low high none = bad plain_error
with_mapping type low high (some m) = with_default type low high m (least none m.value_to_name)

-- The constructor
unfoldable pub new_enum_codec : List ℕ → Result EnumCodec
unfolding with_mapping
new_enum_codec type =
    if starts_with (codes "Enum8") type
    then with_mapping type (negsuc 127) (pos 127) (parse_enum_definition type)
    else with_mapping type (negsuc 32767) (pos 32767) (parse_enum_definition type)

module _ (c : EnumCodec) where
  -- The checks on a number
  unfoldable pub known_number : ℤ → Result ℤ
  unfolding lookup
  known_number num =
      if ltb_ℤ num c.low || ltb_ℤ c.high num
      then bad plain_error
      else elim (lookup equal_ℤ num (c.mapping.value_to_name)) [
        | some n ↦ good num
        | none ↦ bad plain_error
      ]

  unfoldable pub to_enum_value : EnumInput → Result ℤ
  unfolding known_number
  to_enum_value missing = good c.default_value
  to_enum_value (name s) = elim (lookup equals s (c.mapping.name_to_value)) [
    | some num ↦ good num
    | none ↦ bad plain_error
  ]
  to_enum_value (number num) = known_number num
  to_enum_value fraction = bad plain_error
  to_enum_value (bigint num) =
      if ltb_ℤ num c.low || ltb_ℤ c.high num then bad plain_error else known_number num
  to_enum_value other = bad plain_error

  unfoldable pub values_loop : List EnumInput → Result (List ℤ)
  unfolding to_enum_value
  values_loop [] = good []
  values_loop (v ∷ values) = do num ← to_enum_value v; rest ← values_loop values; good (num ∷ rest)

pub record EnumColumn : Type 0 where
  pub type : List ℕ
  pub data_values : List ℤ
  pub value_to_name : List (ℤ × List ℕ)
  pub enum_as_number : Bool

-- `get` of a column gives a name or a number.
pub data EnumOutput : Type 0 where
  as_name : List ℕ → EnumOutput
  as_number : ℤ → EnumOutput

unfoldable pub output_of : EnumColumn → ℤ → Result EnumOutput
output_of col num =
    if col.enum_as_number
    then good (as_number num)
    else elim (lookup equal_ℤ num col.value_to_name) [
      | some n ↦ good (as_name n)
      | none ↦ bad plain_error
    ]

-- `get(index)`, at an index of the column
unfoldable pub get : EnumColumn → ℕ → Option (Result EnumOutput)
unfolding output_of
get col index = elim (get_elem? col.data_values index) [
  | none ↦ none
  | some num ↦ some (output_of col num)
]

unfoldable pub from_values : EnumCodec → List EnumInput → Result EnumColumn
unfolding values_loop
from_values c values = do
  nums ← values_loop c values
  good (record {
    type = c.type;
    data_values = nums;
    value_to_name = c.mapping.value_to_name;
    enum_as_number = false;
  })

unfoldable pub literal_name : EnumCodec → EnumInput → Result (List ℕ)
unfolding to_enum_value
literal_name c (name s) = elim (lookup equals s (c.mapping.name_to_value)) [
  | some num ↦ good s
  | none ↦ bad plain_error
]
literal_name c v = do
  num ← to_enum_value c v
  elim (lookup equal_ℤ num (c.mapping.value_to_name)) [ some n ↦ good n | none ↦ bad type_error ]

-- The literal of a value. (`escapeString` throws a TypeError at undefined.)
unfoldable pub serialize_literal : EnumCodec → EnumInput → Bool → Result (List ℕ)
unfolding literal_name
serialize_literal c v quoted = do
  n ← literal_name c v
  good (if quoted then wrap_quoted (escape_string n true) true else escape_string n false)
