-- ===== src/Native/Column.antt =====
-- native/columns.ts: the column classes that the modelled codecs build. A name of a type is a text.
use chwire.Prelude.{ℕ, ◌-◌, ◌^◌, ltb, if◌then◌else◌, List, [], ◌∷◌, length, Option, Bool}
use chwire.Prelude.Int.{ℤ}
use chwire.Prelude.Result.{Result, good, bad, range_error}

-- An element of a DataColumn over an array of values.
pub data Value : Type 0 where
  text : List ℕ → Value
  bytes : List ℕ → Value
  integer : ℤ → Value

-- A `typed` column is a DataColumn over a typed array, with the size of its elements in bytes; a
-- `boxed` one is a DataColumn over an array of values.
mutual
  pub data Column : Type 0 where
    typed : List ℕ → ℕ → List ℕ → Column
    boxed : List ℕ → List Value → Column
    array : List ℕ → List ℕ → Column → Column
    nullable : List ℕ → List ℕ → Column → Column
    map_column : List ℕ → List ℕ → Column → Column → Bool → Column
    tuple : List ℕ → List (Option (List ℕ)) → Columns → Bool → Column

  pub data Columns : Type 0 where
    nil : Columns
    cons : Column → Columns → Columns

-- The `length` of a column: of a tuple, that of its first column.
unfoldable mutual
  pub column_length : Column → ℕ
  column_length (typed type size data_words) = length data_words
  column_length (boxed type values) = length values
  column_length (array type offsets inner) = length offsets
  column_length (nullable type null_flags inner) = length null_flags
  column_length (map_column type offsets keys values as_array) = length offsets
  column_length (tuple type elements columns is_named) = first_length columns

  pub first_length : Columns → ℕ
  first_length nil = 0
  first_length (cons c columns) = column_length c

abbrev pub max_safe_index : ℕ
max_safe_index = 2 ^ 53 - 1

abbrev pub last : List ℕ → ℕ
last [] = 0
last (x ∷ []) = x
last (x ∷ y ∷ xs) = last (y ∷ xs)

-- `assertOffsetsFitInJsNumber`; an empty list has no last offset.
unfoldable pub assert_offsets_fit : List ℕ → Result (Unit {0})
assert_offsets_fit offsets = if ltb max_safe_index (last offsets) then bad range_error else good tt
