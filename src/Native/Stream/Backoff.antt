-- ===== src/Native/Stream/Backoff.antt =====
-- The backoff of streamDecodeNative: after an underflow it waits, but never for more than
-- `underflowRetryMaxBytes`.
use chwire.Prelude.{
  ℕ, zero, suc, ◌+◌, ◌≤◌, ◌≡◌, ◌==◌, refl, ap, ◌∙◌, sym, ltb, List, length, arith, length-append,
  Bool, true, false, Option, none, some, Bool-cases, inl, inr, ltb→lt,
}
use std.Path.{subst}
use chwire.Prelude.Result.{buffer_underflow, range_error, type_error, plain_error}
use chwire.Io.BlockBuffer.{available, append, view, start_next_block}
use chwire.Io.BlockBuffer.Queue.{
  IsValid, Holds, available-length, new-Holds, append-Holds, start_next_block-Holds,
  consume_too_many,
}
use chwire.Native.Block.{
  BlockResult, Decoded, decoded, block_underflow, failed, Decoder, decode_native_block_with_reader,
}
use chwire.Native.Stream.{
  StreamOptions, StreamState, Round, continues, waits, throws, started, initial_wait,
  initial_retry_wait, receive, must_wait, yielded, next_block, wait_at, made_progress, back_off,
  after_decode, reader_of, round, Phase, waiting, Streams, start, arrives, goes_on, rests,
}

module _ (o : StreamOptions) where
  record BacksOff (s : StreamState) : Type 0 where
    pub valid : IsValid s.block_buffer
    pub bounded : s.retry_after_available ≤ available s.block_buffer + o.retry_max_bytes
    pub wait : s.retry_wait_bytes ≤ o.retry_max_bytes

  abbrev KeepsBackoff : Round → Type 0
  KeepsBackoff (continues s) = BacksOff s
  KeepsBackoff (waits s) = BacksOff s
  KeepsBackoff (throws e s) = Unit {0}

  initial_wait_bound : (wait : Option ℕ) (most n : ℕ) → initial_wait wait most n ≤ most
  unfolding initial_wait
  initial_wait_bound (some m) most n = omega arith
  initial_wait_bound none most n = ground arith

  initial_retry_wait_bound : (n : ℕ) → initial_retry_wait o n ≤ o.retry_max_bytes
  unfolding initial_retry_wait
  initial_retry_wait_bound = initial_wait_bound o.retry_min_bytes o.retry_max_bytes

  wait_at_bound :
      (n : ℕ) (progress : Bool) (wait : ℕ)
      → wait ≤ o.retry_max_bytes
      → wait_at o n progress wait ≤ o.retry_max_bytes
  unfolding wait_at
  wait_at_bound n true wait h = initial_retry_wait_bound n
  wait_at_bound n false wait h = elim (Bool-cases (wait == 0)) [
    | inl first ↦ rw first (initial_retry_wait_bound n)
    | inr later ↦ rw later h
  ]

  back_off-BacksOff :
      (wait : ℕ) (s : StreamState)
      → wait ≤ o.retry_max_bytes
      → BacksOff s
      → BacksOff (back_off o wait s)
  unfolding back_off
  back_off-BacksOff zero s h p = record { valid = p.valid; bounded = p.bounded; wait = h }
  back_off-BacksOff (suc wait) s h p = record {
    valid = p.valid;
    bounded = omega arith;
    wait = omega arith;
  }

  receive-available :
      (chunk : List ℕ) (s : StreamState)
      → IsValid s.block_buffer
      → available (receive chunk s).block_buffer ≡ available s.block_buffer + length chunk
  unfolding receive
  receive-available chunk s v =
      let appended : Holds _ _ = append-Holds s.block_buffer v chunk in
      available-length (append chunk s.block_buffer) appended.valid
      ∙ ap length appended.held
      ∙ length-append (view s.block_buffer) chunk
      ∙ ap (λ n. n + length chunk) (sym (available-length s.block_buffer v))

  receive-BacksOff : (chunk : List ℕ) (s : StreamState) → BacksOff s → BacksOff (receive chunk s)
  unfolding receive
  receive-BacksOff chunk s p =
      let grown : available (append chunk s.block_buffer)
          ≡ available s.block_buffer + length chunk =
        unfold receive in receive-available chunk s p.valid in
      record {
        valid = (append-Holds s.block_buffer p.valid chunk).valid;
        bounded = omega (arith, p.bounded, grown);
        wait = p.wait;
      }

  yielded-BacksOff : (b : BlockResult) (s : StreamState) → BacksOff s → BacksOff (yielded b s)
  unfolding yielded
  yielded-BacksOff b s p = elim (Bool-cases b.is_end_marker) [
    | inl marker ↦ rw marker p
    | inr block ↦ rw block (record { valid = p.valid; bounded = p.bounded; wait = p.wait })
  ]

  next_block-KeepsBackoff :
      (b : BlockResult) (s : StreamState)
      → IsValid s.block_buffer
      → s.retry_after_available ≡ 0
      → KeepsBackoff (
          next_block
            (λ t. record t { retry_wait_bytes = 0 })
            b
            s
            (start_next_block b.bytes_consumed s.block_buffer))
  unfolding next_block
  next_block-KeepsBackoff b s v z =
      elim (Bool-cases (ltb (length (view s.block_buffer)) b.bytes_consumed)) [
        | inl over ↦
            rw ((consume_too_many s.block_buffer v b.bytes_consumed (ltb→lt _ _ over)).1) tt
        | inr fits ↦
            let (b', e, holds) =
              start_next_block-Holds s.block_buffer v b.bytes_consumed (ground (arith, fits)) in
            rw e (
              yielded-BacksOff b _
                (record { valid = holds.valid; bounded = omega (arith, z); wait = omega arith }))
      ]

  after_decode-KeepsBackoff :
      (n : ℕ) (s : StreamState)
      → BacksOff s
      → s.retry_after_available ≡ 0
      → (r : Decoded) → KeepsBackoff (after_decode o n s r)
  unfolding after_decode
  after_decode-KeepsBackoff n s p z (decoded b r) = next_block-KeepsBackoff b s p.valid z
  after_decode-KeepsBackoff n s p z (block_underflow q r) =
      back_off-BacksOff _ _ (wait_at_bound n (made_progress s.partial q) _ p.wait)
        (record { valid = p.valid; bounded = p.bounded; wait = p.wait })
  after_decode-KeepsBackoff n s p z (failed buffer_underflow r) =
      back_off-BacksOff _ s (wait_at_bound n false _ p.wait) p
  after_decode-KeepsBackoff n s p z (failed range_error r) = tt
  after_decode-KeepsBackoff n s p z (failed type_error r) = tt
  after_decode-KeepsBackoff n s p z (failed plain_error r) = tt

  module _ (d : Decoder) where
    round-KeepsBackoff : (n : ℕ) (s : StreamState) → BacksOff s → KeepsBackoff (round d o n s)
    unfolding round
    round-KeepsBackoff n s p = elim (Bool-cases (ltb (available s.block_buffer) 2)) [
      | inl few ↦ rw few p
      | inr enough ↦ elim (Bool-cases (must_wait s)) [
        | inl wait ↦ rw (enough, wait) p
        | inr ready ↦
            rw (enough, ready)
              (after_decode-KeepsBackoff n (record s { retry_after_available = 0 })
                (record { valid = p.valid; bounded = omega arith; wait = p.wait }) refl
                (decode_native_block_with_reader d s.partial (reader_of s)))
      ]
    ]

    Streams-BacksOff :
        {phase : Phase} {bytes : List ℕ} {s : StreamState} → Streams d o phase bytes s → BacksOff s
    Streams-BacksOff start =
        unfold started in
        record { valid = (new-Holds o.min_buffer).valid; bounded = omega arith; wait = omega arith }
    Streams-BacksOff (arrives {s} chunk q) = receive-BacksOff chunk s (Streams-BacksOff q)
    Streams-BacksOff (goes_on {n} {s} q e) =
        subst KeepsBackoff e (round-KeepsBackoff n s (Streams-BacksOff q))
    Streams-BacksOff (rests {n} {s} q e) =
        subst KeepsBackoff e (round-KeepsBackoff n s (Streams-BacksOff q))

    pub Streams-IsValid :
        {phase : Phase} {bytes : List ℕ} {s : StreamState}
        → Streams d o phase bytes s
        → IsValid s.block_buffer
    Streams-IsValid q = (Streams-BacksOff q).valid

    -- However a stream has come to wait, a chunk of `underflowRetryMaxBytes` bytes or more ends the
    -- wait that an underflow has asked for: the next round is not held back.
    pub must_wait-receive :
        {s : StreamState} {bytes : List ℕ} (chunk : List ℕ)
        → Streams d o waiting bytes s
        → o.retry_max_bytes ≤ length chunk
        → must_wait (receive chunk s) ≡ false
    unfolding must_wait
    must_wait-receive {s} chunk q h =
        let p = Streams-BacksOff q in
        let same : (receive chunk s).retry_after_available ≡ s.retry_after_available =
          unfold receive in refl in
        ground (arith, p.bounded, receive-available chunk s p.valid, same)
