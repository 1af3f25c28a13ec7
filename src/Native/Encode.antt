-- ===== src/Native/Encode.antt =====
-- native/index.ts: encodeNative, and validateColumnLengths of native/table.ts. Parameters: the text
-- codec, getCodec, and `Math.ceil(totalEstimate * 1.2)`, the first capacity of the writer.
pub mod Bytes
pub mod RoundTrip
use chwire.Prelude.{ℕ, zero, suc, ◌+◌, ◌==◌, if◌then◌else◌, List, [], ◌∷◌, length}
use chwire.Prelude.Result.{Result, good, bad, plain_error, type_error, ◌>>=◌}
use chwire.Io.Utf8.{Utf8}
use chwire.Io.Writer.{BufferWriter, new, write_varint, write_string}
use chwire.Native.Column.{Column, column_length}
use chwire.Native.Codec.{Codec}
use chwire.Native.Codec.Parts.{writing, finished, and_prefix}
use chwire.Native.Block.{ColumnDef}

pub record RecordBatch : Type 0 where
  pub columns : List ColumnDef
  pub column_data : List Column
  pub row_count : ℕ

pub record Encoder : Type 1 where
  pub utf8 : Utf8
  pub get_codec : List ℕ → Result Codec
  pub capacity : ℕ → ℕ

-- `validateColumnLengths` with an expected count of rows
pub validate_column_lengths : List Column → ℕ → Result (Unit {0})
validate_column_lengths [] row_count = good tt
validate_column_lengths (c ∷ column_data) row_count =
    let rest = validate_column_lengths column_data row_count in
    if column_length c == row_count then rest else bad plain_error

-- The prefix and the data, where there are rows. A column without data is undefined, and has no
-- `length`.
pub encode_data : ℕ → Codec → List Column → BufferWriter → Result BufferWriter
encode_data zero codec column_data w = good w
encode_data (suc rows) codec [] w = bad type_error
encode_data (suc rows) codec (col ∷ column_data) w = do
  w' ← codec.write_prefix col w
  writing (good w') (codec.encode col (codec.estimate_size (column_length col)))

module _ (e : Encoder) where
  pub total_estimate : ℕ → List ColumnDef → ℕ → Result ℕ
  total_estimate row_count [] total = good total
  total_estimate row_count (c ∷ columns) total = do
    codec ← e.get_codec c.type
    total_estimate row_count columns
        (total + (length c.name + length c.type + 10) + codec.estimate_size row_count)

  pub encode_column : ℕ → ColumnDef → List Column → BufferWriter → Result BufferWriter
  unfolding encode_data
  encode_column row_count c column_data w = do
    codec ← e.get_codec c.type
    encode_data row_count codec column_data
        (write_string e.utf8 c.type (write_string e.utf8 c.name w))

  abbrev tail : List Column → List Column
  tail [] = []
  tail (col ∷ column_data) = column_data

  pub encode_columns : ℕ → List ColumnDef → List Column → BufferWriter → Result BufferWriter
  unfolding encode_column
  encode_columns row_count [] column_data w = good w
  encode_columns row_count (c ∷ columns) column_data w = do
    w' ← encode_column row_count c column_data w
    encode_columns row_count columns (tail column_data) w'

  unfoldable pub encode_native : RecordBatch → Result (List ℕ)
  unfolding validate_column_lengths total_estimate encode_columns
  encode_native batch = do
    valid ← validate_column_lengths batch.column_data batch.row_count
    estimate ← total_estimate batch.row_count batch.columns 10
    finished (
        encode_columns batch.row_count batch.columns batch.column_data (
          write_varint batch.row_count
            (write_varint (length batch.columns) (new (e.capacity estimate)))))
