-- ===== src/Examples/Stream.antt =====
-- The theorems on streams of blocks at concrete inputs.
use chwire.Prelude.{ℕ, ◌+◌, ◌≡◌, refl, List, [], ◌∷◌, ◌++◌, length, none, some, false, arith, blit}
use chwire.Io.Reader.{
  read_varint, read_string, read_bytes, read_typed_array, ensure_available, next_bytes, decode_next,
  elements,
}
use chwire.Io.Utf8.{decode_utf8_slice, ascii_loop}
use chwire.Io.Words.{le_value}
use chwire.Native.Sparse.{decode}
use chwire.Native.Codecs.Numeric.{numeric_codec}
use chwire.Io.VarInt.{read_var_int, read_loop}
use chwire.Io.BlockBuffer.{
  available, view, append, new, start_next_block, ensure_capacity, grow_loop,
}
use chwire.Prelude.Text.{codes}
use chwire.Native.Block.{
  ColumnDef, column_loop, after_header, header, block_info, read_column, data_of, serialization,
  after_column, decode_native_block_with_reader,
}
use chwire.Native.Stream.{
  StreamOptions, StreamState, waits, started, continues, next_block, yielded, stream_columns,
  goes_on, receive, must_wait, round, after_decode, reader_of, back_off, wait_at, made_progress,
  initial_retry_wait, initial_wait, start, arrives, rests,
}
use chwire.Native.Stream.Backoff.{must_wait-receive}
use chwire.Native.Stream.Whole.{Blocks, Streams-Blocks}
use chwire.Native.Stream.Resume.{reader_of-resumed}
use chwire.Examples.Native.{decoder, cut_off, first_column, numbers, uint8, uint8_codec-StableCodec}

abbrev options : StreamOptions
options = record { min_buffer = 8; retry_max_bytes = 4; retry_min_bytes = none }

-- The header of a block, up to the count of its rows
abbrev half_header : List ℕ
half_header = 1 ∷ 128 ∷ []

abbrev held_back : StreamState
held_back = record {
  block_buffer = record {
    buffer = 1 ∷ 128 ∷ 0 ∷ 0 ∷ 0 ∷ 0 ∷ 0 ∷ 0 ∷ [];
    read_offset = 0;
    write_offset = 2;
    initial_size = 8;
  };
  columns = [];
  partial = none;
  retry_after_available = 4;
  retry_wait_bytes = 4;
  batches = [];
}

backs_off : round decoder options 2 (receive half_header (started options)) ≡ waits held_back
unfolding round receive started must_wait after_decode reader_of back_off wait_at initial_retry_wait
    initial_wait decode_native_block_with_reader after_header header block_info read_varint
    read_var_int read_loop available view append new ensure_capacity blit
backs_off = refl

must_wait-receive_example : must_wait (receive (1 ∷ 2 ∷ 3 ∷ 4 ∷ []) held_back) ≡ false
must_wait-receive_example =
    must_wait-receive options decoder (1 ∷ 2 ∷ 3 ∷ 4 ∷ [])
      (rests (arrives half_header start) backs_off) (omega arith)

-- A chunk that ends inside the second column
abbrev broken_off : StreamState
broken_off = record {
  block_buffer = append cut_off.buffer (new 8);
  columns = [];
  partial = some first_column;
  retry_after_available = length cut_off.buffer + 4;
  retry_wait_bytes = 4;
  batches = [];
}

breaks_off :
    round decoder options (length cut_off.buffer) (receive cut_off.buffer (started options))
    ≡ waits broken_off
unfolding round receive started must_wait after_decode reader_of back_off wait_at made_progress
    initial_retry_wait initial_wait available view append new ensure_capacity blit
    decode_native_block_with_reader column_loop after_header header block_info read_column data_of
    serialization after_column numeric_codec read_varint read_string read_bytes read_typed_array
    ensure_available read_var_int read_loop next_bytes decode_next elements decode_utf8_slice
    ascii_loop le_value decode grow_loop
breaks_off = refl

reader_of-resumed_example :
    decode_native_block_with_reader decoder (some first_column) (reader_of broken_off)
    ≡ decode_native_block_with_reader decoder none (reader_of broken_off)
reader_of-resumed_example =
    reader_of-resumed decoder uint8_codec-StableCodec options
      (rests (arrives cut_off.buffer start) breaks_off)

-- The last byte of the block, and the start of the next one
abbrev last_byte : List ℕ
last_byte = 8 ∷ 1 ∷ 128 ∷ 128 ∷ []

abbrev columns : List ColumnDef
columns = record { name = codes "a"; type = uint8 } ∷ record { name = codes "b"; type = uint8 } ∷ []

abbrev one_batch : StreamState
one_batch = record {
  block_buffer = record {
    buffer = 1 ∷ 128 ∷ 128 ∷ 0 ∷ 0 ∷ 0 ∷ 0 ∷ 0 ∷ [];
    read_offset = 0;
    write_offset = 3;
    initial_size = 8;
  };
  columns = columns;
  partial = none;
  retry_after_available = 0;
  retry_wait_bytes = 0;
  batches =
      record {
        columns = columns;
        column_data = numbers (4 ∷ 250 ∷ []) ∷ numbers (7 ∷ 8 ∷ []) ∷ [];
        row_count = 2;
      }
      ∷ [];
}

ends_block : round decoder options 4 (receive last_byte broken_off) ≡ continues one_batch
unfolding round receive must_wait after_decode reader_of next_block yielded stream_columns available
    view append new ensure_capacity grow_loop start_next_block blit decode_native_block_with_reader
    column_loop after_header header block_info read_column data_of serialization after_column
    numeric_codec read_varint read_string read_bytes read_typed_array ensure_available read_var_int
    read_loop next_bytes decode_next elements decode_utf8_slice ascii_loop le_value decode
ends_block = refl

Streams-Blocks_example :
    Blocks decoder
      (cut_off.buffer ++ last_byte)
      columns
      one_batch.batches
      (view one_batch.block_buffer)
Streams-Blocks_example =
    Streams-Blocks decoder uint8_codec-StableCodec options
      (goes_on (arrives last_byte (rests (arrives cut_off.buffer start) breaks_off)) ends_block)
