-- ===== src/Native/Stream/Whole.antt =====
-- streamDecodeNative against the blocks of the whole sequence of bytes, decoded one after another.
use std.Path.{subst}
use chwire.Prelude.{
  ℕ, zero, suc, ◌≤◌, ◌≡◌, refl, ap, ◌∙◌, sym, List, [], ◌∷◌, ◌++◌, length, length-append, drop,
  drop-append_le, arith, ltb, ltb→lt, true, false, none, some, Bool-cases, inl, inr,
}
use chwire.Prelude.Result.{buffer_underflow, range_error, type_error, plain_error, good}
use chwire.Io.BlockBuffer.{new, available, view, start_next_block}
use chwire.Io.BlockBuffer.Queue.{IsValid, append-Holds, start_next_block-Holds, consume_too_many}
use chwire.Io.Reader.{BufferReader}
use chwire.Io.Reader.Stable.{extend}
use chwire.Native.Codec.{Codec}
use chwire.Native.Sparse.Stable.{StableCodec}
use chwire.Native.Encode.{RecordBatch}
use chwire.Native.Block.{
  ColumnDef, BlockResult, Decoded, decoded, block_underflow, failed, Decoder,
  decode_native_block_with_reader,
}
use chwire.Native.Block.Extend.{IsDecided, extend_decoded, decode_native_block_with_reader-extend}
use chwire.Native.Stream.{
  StreamOptions, StreamState, Round, continues, waits, throws, started, stream_columns, receive,
  must_wait, yielded, next_block, wait_at, made_progress, back_off, after_decode, reader_of, round,
  Phase, Streams, start, arrives, goes_on, rests,
}
use chwire.Native.Stream.Backoff.{Streams-IsValid}
use chwire.Native.Stream.Resume.{from_start, reader_of-resumed}

-- The first blocks of the bytes, each decoded afresh: the columns of the first that is no end
-- marker, the batches, and the bytes that are left.
pub data Blocks (d : Decoder) (bytes : List ℕ)
    : List ColumnDef → List RecordBatch → List ℕ → Type 0 where
  no_blocks : Blocks d bytes [] [] bytes
  end_marker :
      {columns : List ColumnDef} {batches : List RecordBatch} {rest : List ℕ} (b : BlockResult)
      (r : BufferReader)
      → Blocks d bytes columns batches rest
      → decode_native_block_with_reader d none (from_start rest) ≡ decoded b r
      → b.bytes_consumed ≤ length rest
      → b.is_end_marker ≡ true
      → Blocks d bytes columns batches (drop b.bytes_consumed rest)
  block :
      {columns : List ColumnDef} {batches : List RecordBatch} {rest : List ℕ} (b : BlockResult)
      (r : BufferReader)
      → Blocks d bytes columns batches rest
      → decode_native_block_with_reader d none (from_start rest) ≡ decoded b r
      → b.bytes_consumed ≤ length rest
      → b.is_end_marker ≡ false
      → Blocks d bytes
          (stream_columns columns b.columns)
          (batches
            ++ record {
              columns = stream_columns columns b.columns;
              column_data = b.column_data;
              row_count = b.row_count;
            }
              ∷ [])
          (drop b.bytes_consumed rest)

module _ (d : Decoder)
    (codecs : (type : List ℕ) (c : Codec) → d.get_codec type ≡ good c → StableCodec c) where
  decoded_still :
      (rest more : List ℕ) (b : BlockResult) (r : BufferReader)
      → decode_native_block_with_reader d none (from_start rest) ≡ decoded b r
      → decode_native_block_with_reader d none (from_start (rest ++ more))
        ≡ decoded b (extend more r)
  decoded_still rest more b r e =
      decode_native_block_with_reader-extend d codecs none (from_start rest) more
        (rw (IsDecided, e) tt)
      ∙ ap (extend_decoded more) e

  still_fits : (rest more : List ℕ) (n : ℕ) → n ≤ length rest → n ≤ length (rest ++ more)
  still_fits rest more n h = omega (arith, length-append rest more)

  append-Blocks :
      {bytes : List ℕ} {columns : List ColumnDef} {batches : List RecordBatch} {rest : List ℕ}
      (more : List ℕ)
      → Blocks d bytes columns batches rest
      → Blocks d (bytes ++ more) columns batches (rest ++ more)
  append-Blocks more no_blocks = no_blocks
  append-Blocks {bytes} more (end_marker {columns} {batches} {rest} b r q e h m) =
      subst (Blocks d (bytes ++ more) columns batches) (drop-append_le b.bytes_consumed rest more h)
        (end_marker b (extend more r) (append-Blocks more q) (decoded_still rest more b r e)
          (still_fits rest more b.bytes_consumed h) m)
  append-Blocks {bytes} more (block {columns} {batches} {rest} b r q e h m) =
      subst (Blocks d (bytes ++ more) _ _) (drop-append_le b.bytes_consumed rest more h) (
        block b (extend more r) (append-Blocks more q) (decoded_still rest more b r e)
          (still_fits rest more b.bytes_consumed h) m)

  abbrev HasYielded : List ℕ → StreamState → Type 0
  HasYielded bytes s = Blocks d bytes s.columns s.batches (view s.block_buffer)

  abbrev KeepsYielded : List ℕ → Round → Type 0
  KeepsYielded bytes (continues s) = HasYielded bytes s
  KeepsYielded bytes (waits s) = HasYielded bytes s
  KeepsYielded bytes (throws e s) = Unit {0}

  yielded-HasYielded :
      (bytes : List ℕ) (b : BlockResult) (r : BufferReader) (s t : StreamState)
      → HasYielded bytes s
      → decode_native_block_with_reader d none (reader_of s) ≡ decoded b r
      → b.bytes_consumed ≤ length (view s.block_buffer)
      → t.columns ≡ s.columns
      → t.batches ≡ s.batches
      → view t.block_buffer ≡ drop b.bytes_consumed (view s.block_buffer)
      → HasYielded bytes (yielded b t)
  unfolding yielded reader_of
  yielded-HasYielded bytes b r s t q e h same_columns same_batches left =
      elim (Bool-cases b.is_end_marker) [
        | inl marker ↦ rw (marker, same_columns, same_batches, left) (end_marker b r q e h marker)
        | inr no_marker ↦
            rw (no_marker, same_columns, same_batches, left) (block b r q e h no_marker)
      ]

  next_block-KeepsYielded :
      (bytes : List ℕ) (b : BlockResult) (r : BufferReader) (s : StreamState)
      → IsValid s.block_buffer
      → HasYielded bytes s
      → decode_native_block_with_reader d none (reader_of s) ≡ decoded b r
      → KeepsYielded bytes (
          next_block
            (λ t. record t { retry_wait_bytes = 0 })
            b
            s
            (start_next_block b.bytes_consumed s.block_buffer))
  unfolding next_block
  next_block-KeepsYielded bytes b r s v q e =
      elim (Bool-cases (ltb (length (view s.block_buffer)) b.bytes_consumed)) [
        | inl over ↦
            rw ((consume_too_many s.block_buffer v b.bytes_consumed (ltb→lt _ _ over)).1) tt
        | inr fits ↦
            let h : b.bytes_consumed ≤ length (view s.block_buffer) = ground (arith, fits) in
            let (b', started_next, holds) =
              start_next_block-Holds s.block_buffer v b.bytes_consumed h in
            rw started_next (yielded-HasYielded bytes b r s _ q e h refl refl holds.held)
      ]

  module _ (o : StreamOptions) where
    back_off-HasYielded :
        (bytes : List ℕ) (wait : ℕ) (s : StreamState)
        → HasYielded bytes s
        → HasYielded bytes (back_off o wait s)
    unfolding back_off
    back_off-HasYielded bytes zero s q = q
    back_off-HasYielded bytes (suc wait) s q = q

    after_decode-KeepsYielded :
        (bytes : List ℕ) (n : ℕ) (s : StreamState)
        → IsValid s.block_buffer
        → HasYielded bytes s
        → (result : Decoded) → decode_native_block_with_reader d none (reader_of s) ≡ result
        → KeepsYielded bytes (after_decode o n s result)
    unfolding after_decode
    after_decode-KeepsYielded bytes n s v q (decoded b r) e =
        next_block-KeepsYielded bytes b r s v q e
    after_decode-KeepsYielded bytes n s v q (block_underflow p r) e =
        back_off-HasYielded bytes (wait_at o n (made_progress s.partial p) s.retry_wait_bytes)
          (record s { partial = some p }) q
    after_decode-KeepsYielded bytes n s v q (failed buffer_underflow r) e =
        back_off-HasYielded bytes (wait_at o n false s.retry_wait_bytes) s q
    after_decode-KeepsYielded bytes n s v q (failed range_error r) e = tt
    after_decode-KeepsYielded bytes n s v q (failed type_error r) e = tt
    after_decode-KeepsYielded bytes n s v q (failed plain_error r) e = tt

    round-KeepsYielded :
        (bytes : List ℕ) (n : ℕ) (s : StreamState)
        → IsValid s.block_buffer
        → decode_native_block_with_reader d s.partial (reader_of s)
          ≡ decode_native_block_with_reader d none (reader_of s)
        → HasYielded bytes s
        → KeepsYielded bytes (round d o n s)
    unfolding round reader_of
    round-KeepsYielded bytes n s v same q = elim (Bool-cases (ltb (available s.block_buffer) 2)) [
      | inl few ↦ rw few q
      | inr enough ↦ elim (Bool-cases (must_wait s)) [
        | inl wait ↦ rw (enough, wait) q
        | inr ready ↦
            rw (enough, ready)
              (after_decode-KeepsYielded bytes n (record s { retry_after_available = 0 }) v q _
                (sym same))
      ]
    ]

    receive-HasYielded :
        (bytes chunk : List ℕ) (s : StreamState)
        → IsValid s.block_buffer
        → HasYielded bytes s
        → HasYielded (bytes ++ chunk) (receive chunk s)
    unfolding receive
    receive-HasYielded bytes chunk s v q =
        rw ((append-Holds s.block_buffer v chunk).held) (append-Blocks chunk q)

    -- However the bytes that have arrived were cut into chunks, a stream has yielded the batches of
    -- their first blocks, each decoded afresh and in order, with the columns of the first block that
    -- is no end marker, and holds the bytes behind these blocks, provided that more bytes change no
    -- read of a codec but one that runs out of them.
    pub Streams-Blocks :
        {phase : Phase} {bytes : List ℕ} {s : StreamState}
        → Streams d o phase bytes s
        → Blocks d bytes s.columns s.batches (view s.block_buffer)
    unfolding view new
    Streams-Blocks start = unfold started in no_blocks
    Streams-Blocks (arrives {s} {bytes} chunk q) =
        receive-HasYielded bytes chunk s (Streams-IsValid o d q) (Streams-Blocks q)
    Streams-Blocks (goes_on {n} {s} {bytes} q e) = subst (KeepsYielded bytes) e (
        round-KeepsYielded bytes n s (Streams-IsValid o d q) (reader_of-resumed d codecs o q)
          (Streams-Blocks q))
    Streams-Blocks (rests {n} {s} {bytes} q e) = subst (KeepsYielded bytes) e (
        round-KeepsYielded bytes n s (Streams-IsValid o d q) (reader_of-resumed d codecs o q)
          (Streams-Blocks q))
