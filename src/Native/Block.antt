-- ===== src/Native/Block.antt =====
-- native/index.ts: the blocks of the Native format, decodeNativeBlockWithReader and encodeNative,
-- and validateColumnLengths of native/table.ts. A block that breaks off carries the columns that are
-- whole. Parameters: the text codec, getCodec, and `Math.ceil(totalEstimate * 1.2)`, the first
-- capacity of the writer.
pub mod Extend
pub mod Header
pub mod Resume
use chwire.Prelude.{
  ℕ, zero, suc, ◌+◌, ◌-◌, ltb, leb, ◌==◌, if◌then◌else◌, List, [], ◌∷◌, ◌++◌, length, map, take,
  Bool, true, false, ◌&&◌, not, Option, none, some,
}
use chwire.Prelude.Result.{Error, buffer_underflow, Result, good, bad, plain_error, type_error}
use chwire.Prelude.Outcome.{Outcome, ok, err, Exec, return, lift, ◌>>=◌, ◌>>◌}
use chwire.Io.Utf8.{Utf8}
use chwire.Io.Writer.{BufferWriter, new, write_varint, write_string}
use chwire.Io.Reader.{BufferReader, read_varint, read_string, read_u8}
use chwire.Native.Serialization.{
  SerializationNode, DeserializerState, default_dense_node, default_deserializer_state,
}
use chwire.Native.Column.{Column, boxed, column_length}
use chwire.Native.Codec.{Codec}
use chwire.Native.Codec.Parts.{writing, finished, and_prefix}

pub record ColumnDef : Type 0 where
  pub name : List ℕ
  pub type : List ℕ

pub record BlockResult : Type 0 where
  pub columns : List ColumnDef
  pub column_data : List Column
  pub row_count : ℕ
  pub bytes_consumed : ℕ
  pub is_end_marker : Bool

pub record PartialBlockState : Type 0 where
  pub columns : List ColumnDef
  pub column_data : List Column
  pub num_cols : ℕ
  pub num_rows : ℕ
  pub next_col_index : ℕ
  pub resume_offset : ℕ
  pub start_offset : ℕ

-- A block, a BlockUnderflowError with its partial state, or another error (a BufferUnderflowError
-- among them), each with the reader as it stands then.
pub data Decoded : Type 0 where
  decoded : BlockResult → BufferReader → Decoded
  block_underflow : PartialBlockState → BufferReader → Decoded
  failed : Error → BufferReader → Decoded

-- What the decoder takes: the text codec, getCodec and `clientVersion`, 0 where there is none.
pub record Decoder : Type 1 where
  pub utf8 : Utf8
  pub get_codec : List ℕ → Result Codec
  pub client_version : ℕ

-- A field of the block information is skipped, without a look at the buffer's end.
unfoldable pub skip_field : ℕ → BufferReader → BufferReader
skip_field field_id r =
    if field_id == 1
    then record r { offset = r.offset + 1 }
    else if field_id == 2
    then record r { offset = r.offset + 4 }
    else r

unfoldable pub after_field : Exec BufferReader (Unit {0}) → ℕ → Exec BufferReader (Unit {0})
unfolding skip_field
after_field again zero r = ok tt r
after_field again (suc n) r = again (skip_field (suc n) r)

unfoldable pub block_info_loop : ℕ → Exec BufferReader (Unit {0})
unfolding after_field
block_info_loop zero = return tt
block_info_loop (suc fuel) = do field_id ← read_varint; after_field (block_info_loop fuel) field_id

-- Every round reads a byte, or throws.
unfoldable pub block_info : ℕ → Exec BufferReader (Unit {0})
unfolding block_info_loop
block_info zero r = ok tt r
block_info (suc version) r = block_info_loop (suc (length r.buffer)) r

unfoldable pub header : ℕ → Exec BufferReader (ℕ × ℕ)
unfolding block_info
header client_version = do
  block_info client_version
  num_cols ← read_varint
  num_rows ← read_varint
  return (num_cols, num_rows)

-- `codec.readKinds` where the column has a serialization of its own
abbrev pub kinds_after : Codec → ℕ → Exec BufferReader SerializationNode
kinds_after codec zero = return default_dense_node
kinds_after codec (suc n) = codec.read_kinds

unfoldable pub serialization : ℕ → Codec → Exec BufferReader SerializationNode
serialization client_version codec =
    if leb 54454 client_version
    then (λ r. (read_u8 >>= kinds_after codec) r)
    else return default_dense_node

-- The prefix and the data of a column. A block without rows has neither.
unfoldable pub data_of : List ℕ → Codec → ℕ → SerializationNode → Exec BufferReader Column
data_of type codec zero kinds = return (boxed type [])
data_of type codec (suc rows) kinds = do
  codec.read_prefix (record { serialization_node = kinds })
  codec.decode (suc rows) (record { serialization_node = kinds })

module _ (d : Decoder) where
  unfoldable pub read_column : ℕ → Exec BufferReader (ColumnDef × Column)
  unfolding serialization data_of
  read_column num_rows = do
    name ← read_string d.utf8
    type ← read_string d.utf8
    codec ← lift (d.get_codec type)
    kinds ← serialization d.client_version codec
    col ← data_of type codec num_rows kinds
    return (record { name = name; type = type }, col)

  -- What a column leaves to do. The partial state is that of its start.
  unfoldable pub after_column :
      (PartialBlockState → BufferReader → Decoded)
      → PartialBlockState
      → Outcome BufferReader (ColumnDef × Column)
      → Decoded
  after_column next p (ok (def, col) r) =
      next
        (record p {
          columns = p.columns ++ def ∷ [];
          column_data = p.column_data ++ col ∷ [];
          next_col_index = suc p.next_col_index;
          resume_offset = r.offset;
        })
        r
  after_column next p (err buffer_underflow r) =
      block_underflow
        (record p {
          columns = take p.next_col_index p.columns;
          column_data = take p.next_col_index p.column_data;
        })
        (record r { offset = p.resume_offset })
  after_column next p (err e r) = failed e r

  -- The loop over the columns, as many as are left. Its variables are the partial state that an
  -- underflow would carry; the reader stands at `resume_offset`.
  unfoldable pub column_loop : ℕ → PartialBlockState → BufferReader → Decoded
  unfolding after_column read_column
  column_loop zero p r =
      decoded
        (record {
          columns = p.columns;
          column_data = p.column_data;
          row_count = p.num_rows;
          bytes_consumed = r.offset - p.start_offset;
          is_end_marker = false;
        })
        r
  column_loop (suc left) p r = after_column (column_loop left) p (read_column p.num_rows r)

  -- A block without columns and rows is the end of the data.
  unfoldable pub after_header : ℕ → Outcome BufferReader (ℕ × ℕ) → Decoded
  unfolding column_loop
  after_header start_offset (ok (zero, zero) r) =
      decoded
        (record {
          columns = [];
          column_data = [];
          row_count = 0;
          bytes_consumed = r.offset - start_offset;
          is_end_marker = true;
        })
        r
  after_header start_offset (ok (num_cols, num_rows) r) =
      column_loop num_cols
        (record {
          columns = [];
          column_data = [];
          num_cols = num_cols;
          num_rows = num_rows;
          next_col_index = 0;
          resume_offset = r.offset;
          start_offset = start_offset;
        })
        r
  after_header start_offset (err e r) = failed e r

  unfoldable pub decode_native_block_with_reader : Option PartialBlockState → BufferReader → Decoded
  unfolding column_loop after_header header
  decode_native_block_with_reader none r = after_header r.offset (header d.client_version r)
  decode_native_block_with_reader (some p) r =
      column_loop (p.num_cols - p.next_col_index) p (record r { offset = p.resume_offset })

  unfoldable pub decode_native_block : List ℕ → ℕ → Decoded
  unfolding decode_native_block_with_reader
  decode_native_block bytes offset =
      decode_native_block_with_reader none (record { buffer = bytes; offset = offset })
