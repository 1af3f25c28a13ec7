-- ===== src/Native/Stream/Resume.antt =====
-- streamDecodeNative keeps the columns of a block that broke off: what it resumes is the block that
-- its buffer holds.
use std.Path.{subst}
use chwire.Prelude.{
  ℕ, zero, suc, ◌≡◌, refl, ◌∙◌, List, [], ◌++◌, append-nil, append_assoc, Option, none, some,
  Bool-cases, inl, inr, ltb, false,
}
use chwire.Prelude.Result.{buffer_underflow, range_error, type_error, plain_error, good}
use chwire.Prelude.Outcome.{Outcome, ok, err}
use chwire.Io.BlockBuffer.{BlockBuffer, available, view}
use chwire.Io.BlockBuffer.Queue.{IsValid, append-Holds}
use chwire.Io.Reader.{BufferReader}
use chwire.Io.Reader.Stable.{extend}
use chwire.Native.Codec.{Codec}
use chwire.Native.Sparse.Stable.{StableCodec}
use chwire.Native.Block.{
  BlockResult, PartialBlockState, Decoded, decoded, block_underflow, failed, Decoder,
  decode_native_block_with_reader,
}
use chwire.Native.Block.Resume.{IsResumable, decode_native_block_with_reader-Resumes}
use chwire.Native.Stream.{
  StreamOptions, StreamState, Round, continues, waits, throws, started, receive, must_wait, yielded,
  next_block, wait_at, made_progress, back_off, after_decode, reader_of, round, Phase, Streams,
  start, arrives, goes_on, rests,
}
use chwire.Native.Stream.Backoff.{Streams-IsValid}

abbrev pub from_start : List ℕ → BufferReader
from_start bytes = record { buffer = bytes; offset = 0 }

module _ (d : Decoder)
    (codecs : (type : List ℕ) (c : Codec) → d.get_codec type ≡ good c → StableCodec c) where
  -- Whatever follows the bytes, the partial state stands for the columns at their start.
  record Resumable (partial : Option PartialBlockState) (bytes : List ℕ) : Type 0 where
    pub well_formed : IsResumable d codecs partial
    pub same :
        (more : List ℕ)
        → decode_native_block_with_reader d partial (from_start (bytes ++ more))
          ≡ decode_native_block_with_reader d none (from_start (bytes ++ more))

  none-Resumable : (bytes : List ℕ) → Resumable none bytes
  none-Resumable bytes = record { well_formed = tt; same = λ more. refl }

  append-Resumable :
      (partial : Option PartialBlockState) (bytes chunk : List ℕ)
      → Resumable partial bytes
      → Resumable partial (bytes ++ chunk)
  append-Resumable partial bytes chunk h = record {
    well_formed = h.well_formed;
    same = λ more. rw (append_assoc bytes chunk more) (h.same (chunk ++ more));
  }

  relocated :
      (p : PartialBlockState) (r : BufferReader) (bytes more : List ℕ)
      → r.buffer ≡ bytes
      → decode_native_block_with_reader d (some p) (from_start (bytes ++ more))
        ≡ decode_native_block_with_reader d (some p) (extend more r)
  unfolding decode_native_block_with_reader
  relocated p r bytes more e = rw e refl

  block_underflow-Resumable :
      (partial : Option PartialBlockState) (bytes : List ℕ) (p : PartialBlockState)
      (r : BufferReader)
      → Resumable partial bytes
      → decode_native_block_with_reader d partial (from_start bytes) ≡ block_underflow p r
      → Resumable (some p) bytes
  block_underflow-Resumable partial bytes p r h e =
      let i =
        decode_native_block_with_reader-Resumes d codecs partial (from_start bytes) r p
          h.well_formed e in
      record {
        well_formed = (i.left, i.partial);
        same = λ more. relocated p r bytes more i.kept ∙ i.same more ∙ h.same more;
      }

  abbrev HoldsBlock : StreamState → Type 0
  HoldsBlock s = Resumable s.partial (view s.block_buffer)

  abbrev KeepsBlock : Round → Type 0
  KeepsBlock (continues s) = HoldsBlock s
  KeepsBlock (waits s) = HoldsBlock s
  KeepsBlock (throws e s) = Unit {0}

  yielded-HoldsBlock : (b : BlockResult) (s : StreamState) → HoldsBlock s → HoldsBlock (yielded b s)
  unfolding yielded
  yielded-HoldsBlock b s h = elim (Bool-cases b.is_end_marker) [
    | inl marker ↦ rw marker h
    | inr block ↦ rw block h
  ]

  next_block-KeepsBlock :
      (b : BlockResult) (s : StreamState) (result : Outcome BlockBuffer (Unit {0}))
      → KeepsBlock (next_block (λ t. record t { retry_wait_bytes = 0 }) b s result)
  unfolding next_block
  next_block-KeepsBlock b s (ok u block_buffer) =
      yielded-HoldsBlock b _ (none-Resumable (view block_buffer))
  next_block-KeepsBlock b s (err e block_buffer) = tt

  module _ (o : StreamOptions) where
    back_off-HoldsBlock :
        (wait : ℕ) (s : StreamState) → HoldsBlock s → HoldsBlock (back_off o wait s)
    unfolding back_off
    back_off-HoldsBlock zero s h = h
    back_off-HoldsBlock (suc wait) s h = h

    after_decode-KeepsBlock :
        (n : ℕ) (s : StreamState)
        → HoldsBlock s
        → (result : Decoded) → decode_native_block_with_reader d s.partial (reader_of s) ≡ result
        → KeepsBlock (after_decode o n s result)
    unfolding after_decode reader_of
    after_decode-KeepsBlock n s h (decoded b r) e = next_block-KeepsBlock b s _
    after_decode-KeepsBlock n s h (block_underflow p r) e =
        back_off-HoldsBlock (wait_at o n (made_progress s.partial p) s.retry_wait_bytes)
          (record s { partial = some p })
          (block_underflow-Resumable s.partial (view s.block_buffer) p r h e)
    after_decode-KeepsBlock n s h (failed buffer_underflow r) e =
        back_off-HoldsBlock (wait_at o n false s.retry_wait_bytes) s h
    after_decode-KeepsBlock n s h (failed range_error r) e = tt
    after_decode-KeepsBlock n s h (failed type_error r) e = tt
    after_decode-KeepsBlock n s h (failed plain_error r) e = tt

    round-KeepsBlock : (n : ℕ) (s : StreamState) → HoldsBlock s → KeepsBlock (round d o n s)
    unfolding round
    round-KeepsBlock n s h = elim (Bool-cases (ltb (available s.block_buffer) 2)) [
      | inl few ↦ rw few h
      | inr enough ↦ elim (Bool-cases (must_wait s)) [
        | inl wait ↦ rw (enough, wait) h
        | inr ready ↦
            rw (enough, ready)
              (after_decode-KeepsBlock n (record s { retry_after_available = 0 }) h _
                (unfold reader_of in refl))
      ]
    ]

    receive-HoldsBlock :
        (chunk : List ℕ) (s : StreamState)
        → IsValid s.block_buffer
        → HoldsBlock s
        → HoldsBlock (receive chunk s)
    unfolding receive
    receive-HoldsBlock chunk s v h =
        rw ((append-Holds s.block_buffer v chunk).held) (append-Resumable s.partial _ chunk h)

    Streams-HoldsBlock :
        {phase : Phase} {bytes : List ℕ} {s : StreamState}
        → Streams d o phase bytes s
        → HoldsBlock s
    Streams-HoldsBlock start = unfold started in none-Resumable _
    Streams-HoldsBlock (arrives {s} chunk q) =
        receive-HoldsBlock chunk s (Streams-IsValid o d q) (Streams-HoldsBlock q)
    Streams-HoldsBlock (goes_on {n} {s} q e) =
        subst KeepsBlock e (round-KeepsBlock n s (Streams-HoldsBlock q))
    Streams-HoldsBlock (rests {n} {s} q e) =
        subst KeepsBlock e (round-KeepsBlock n s (Streams-HoldsBlock q))

    -- However the bytes of a stream have been cut into chunks, and wherever its blocks have broken
    -- off, decoding goes on from the columns that the stream has kept as it would from the first
    -- byte of the block that the buffer holds, provided that more bytes change no read of a codec
    -- but one that runs out of them.
    pub reader_of-resumed :
        {phase : Phase} {bytes : List ℕ} {s : StreamState}
        → Streams d o phase bytes s
        → decode_native_block_with_reader d s.partial (reader_of s)
          ≡ decode_native_block_with_reader d none (reader_of s)
    unfolding reader_of
    reader_of-resumed {s} q =
        rw (append-nil (view s.block_buffer)) at ((Streams-HoldsBlock q).same [])
