-- ===== src/Native/Stream.antt =====
-- native/index.ts: streamDecodeNative, as steps. A chunk arrives, or the inner loop makes a round,
-- until it waits for the next chunk; the last loop makes a round when the chunks have ended. A
-- batch that is yielded is added to the batches. The counters of the messages are left out.
pub mod Backoff
pub mod Resume
pub mod Whole
use chwire.Prelude.{
  ℕ, zero, suc, ◌+◌, ◌*◌, min, ltb, ◌==◌, if◌then◌else◌, List, [], ◌∷◌, ◌++◌, length, Bool, true,
  false, ◌≡◌, ◌&&◌, not, Option, none, some,
}
use chwire.Prelude.Result.{Error, buffer_underflow, plain_error}
use chwire.Prelude.Outcome.{Outcome, ok, err}
use chwire.Io.BlockBuffer.{BlockBuffer, new, available, view, append, start_next_block}
use chwire.Io.Reader.{BufferReader}
use chwire.Native.Column.{Column}
use chwire.Native.Block.{
  ColumnDef, BlockResult, PartialBlockState, Decoded, decoded, block_underflow, failed, Decoder,
  decode_native_block_with_reader,
}
use chwire.Native.Encode.{RecordBatch}

-- The options, `retryMaxBytes` after its default and `Math.max`
pub record StreamOptions : Type 0 where
  pub min_buffer : ℕ
  pub retry_max_bytes : ℕ
  pub retry_min_bytes : Option ℕ

pub record StreamState : Type 0 where
  pub block_buffer : BlockBuffer
  pub columns : List ColumnDef
  pub partial : Option PartialBlockState
  pub retry_after_available : ℕ
  pub retry_wait_bytes : ℕ
  pub batches : List RecordBatch

-- A round goes on with the loop, leaves it to wait for more data, or throws.
pub data Round : Type 0 where
  continues : StreamState → Round
  waits : StreamState → Round
  throws : Error → StreamState → Round

pub data Phase : Type 0 where
  waiting : Phase
  looping : ℕ → Phase

unfoldable pub started : StreamOptions → StreamState
started o = record {
  block_buffer = new o.min_buffer;
  columns = [];
  partial = none;
  retry_after_available = 0;
  retry_wait_bytes = 0;
  batches = [];
}

unfoldable pub initial_wait : Option ℕ → ℕ → ℕ → ℕ
initial_wait (some retry_min_bytes) retry_max_bytes chunk_length =
    min retry_min_bytes retry_max_bytes
initial_wait none retry_max_bytes chunk_length =
    if ltb 0 retry_max_bytes then min chunk_length retry_max_bytes else 0

unfoldable pub initial_retry_wait : StreamOptions → ℕ → ℕ
unfolding initial_wait
initial_retry_wait o = initial_wait o.retry_min_bytes o.retry_max_bytes

unfoldable pub receive : List ℕ → StreamState → StreamState
receive chunk s = record s { block_buffer = append chunk s.block_buffer }

unfoldable pub must_wait : StreamState → Bool
must_wait s =
    ltb 0 s.retry_after_available && ltb (available s.block_buffer) s.retry_after_available

-- The columns of the first block are those of every batch.
unfoldable pub stream_columns : List ColumnDef → List ColumnDef → List ColumnDef
stream_columns [] columns = columns
stream_columns (c ∷ cs) columns = c ∷ cs

unfoldable pub yielded : BlockResult → StreamState → StreamState
unfolding stream_columns
yielded b s = if b.is_end_marker then s else record s {
  columns = stream_columns s.columns b.columns;
  batches =
      s.batches
      ++ record {
        columns = stream_columns s.columns b.columns;
        column_data = b.column_data;
        row_count = b.row_count;
      }
        ∷ [];
}

-- What follows `startNextBlock`
unfoldable pub next_block :
    (StreamState → StreamState) → BlockResult → StreamState → Outcome BlockBuffer (Unit {0}) → Round
unfolding yielded
next_block reset b s (ok u block_buffer) =
    continues (yielded b (reset (record s { block_buffer = block_buffer; partial = none })))
next_block reset b s (err e block_buffer) = throws e s

-- The wait that is in force after an underflow: afresh at the first one of a block, and where a
-- column more has been read.
unfoldable pub wait_at : StreamOptions → ℕ → Bool → ℕ → ℕ
unfolding initial_retry_wait
wait_at o chunk_length progress retry_wait_bytes =
    if progress
    then initial_retry_wait o chunk_length
    else if retry_wait_bytes == 0
    then initial_retry_wait o chunk_length
    else retry_wait_bytes

-- `prevCol !== partial.nextColIndex`
unfoldable pub made_progress : Option PartialBlockState → PartialBlockState → Bool
made_progress none p = true
made_progress (some previous) p = not (previous.next_col_index == p.next_col_index)

unfoldable pub back_off : StreamOptions → ℕ → StreamState → StreamState
back_off o zero s = record s { retry_wait_bytes = 0 }
back_off o (suc wait) s = record s {
  retry_after_available = available s.block_buffer + suc wait;
  retry_wait_bytes = min (suc wait * 2) o.retry_max_bytes;
}

module _ (o : StreamOptions) (chunk_length : ℕ) where
  unfoldable pub after_decode : StreamState → Decoded → Round
  unfolding next_block wait_at made_progress back_off
  after_decode s (decoded b r) =
      next_block (λ t. record t { retry_wait_bytes = 0 }) b s
        (start_next_block b.bytes_consumed s.block_buffer)
  after_decode s (block_underflow p r) = waits (
      back_off o (wait_at o chunk_length (made_progress s.partial p) s.retry_wait_bytes)
        (record s { partial = some p }))
  after_decode s (failed buffer_underflow r) =
      waits (back_off o (wait_at o chunk_length false s.retry_wait_bytes) s)
  after_decode s (failed e r) = throws e s

-- `new BufferReader(blockBuffer.view, 0)`
unfoldable pub reader_of : StreamState → BufferReader
unfolding view
reader_of s = record { buffer = view s.block_buffer; offset = 0 }

module _ (d : Decoder) (o : StreamOptions) where
  -- A round of the inner loop, after a chunk of that length
  unfoldable pub round : ℕ → StreamState → Round
  unfolding must_wait after_decode reader_of
  round chunk_length s =
      if ltb (available s.block_buffer) 2
      then waits s
      else if must_wait s
      then waits s
      else after_decode o chunk_length (record s { retry_after_available = 0 })
          (decode_native_block_with_reader d s.partial (reader_of s))

  -- A round of the last loop: a block that is incomplete is an error of its own.
  unfoldable pub after_final_decode : StreamState → Decoded → Round
  unfolding next_block
  after_final_decode s (decoded b r) =
      next_block (λ t. t) b s (start_next_block b.bytes_consumed s.block_buffer)
  after_final_decode s (block_underflow p r) = throws plain_error s
  after_final_decode s (failed buffer_underflow r) = throws plain_error s
  after_final_decode s (failed e r) = throws e s

  unfoldable pub final_round : StreamState → Round
  unfolding after_final_decode reader_of
  final_round s =
      if ltb 0 (available s.block_buffer)
      then after_final_decode s (decode_native_block_with_reader d s.partial (reader_of s))
      else waits s

  -- The states of a stream, with the bytes that have arrived: where it waits for a chunk, and where
  -- it loops after a chunk of a length.
  pub data Streams : Phase → List ℕ → StreamState → Type 0 where
    start : Streams waiting [] (started o)
    arrives :
        {s : StreamState} {bytes : List ℕ} (chunk : List ℕ)
        → Streams waiting bytes s
        → Streams (looping (length chunk)) (bytes ++ chunk) (receive chunk s)
    goes_on :
        {n : ℕ} {s t : StreamState} {bytes : List ℕ}
        → Streams (looping n) bytes s
        → round n s ≡ continues t
        → Streams (looping n) bytes t
    rests :
        {n : ℕ} {s t : StreamState} {bytes : List ℕ}
        → Streams (looping n) bytes s
        → round n s ≡ waits t
        → Streams waiting bytes t
