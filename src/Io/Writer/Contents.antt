-- ===== src/Io/Writer/Contents.antt =====
-- The abstract view of a BufferWriter: the bytes written so far. Every method appends to them,
-- whatever the buffer holds behind the offset and whether or not it grows.
use chwire.Prelude.{
  ℕ, ◌+◌, ◌-◌, ◌*◌, ◌%◌, ◌^◌, ◌≤◌, ◌<◌, ◌≡◌, refl, max, List, [], ◌∷◌, ◌++◌, length, take,
  replicate, blit, subarray, arith, length-blit, length-replicate, take-blit, length-take, blit_one,
}
use chwire.Prelude.Int.{ℤ, to_word32}
use chwire.Io.VarInt.Encode.{leb128, write_loop-leb128, length-leb128}
use chwire.Io.Words.{le_bytes, length-le_bytes}
use chwire.Io.Writer.{
  BufferWriter, ensure, write, write_u8, write_u32_le, write_u64_le, write_i32_le, write_varint,
  reset, finish, max_bytes64,
}

abbrev pub IsValid : BufferWriter → Type 0
IsValid w = w.offset ≤ length w.buffer

-- What has been written: the bytes before the offset.
abbrev pub contents : BufferWriter → List ℕ
contents w = take w.offset w.buffer

-- `w'` is a valid writer that holds what `w` holds and then `bytes`.
pub record Appends (w : BufferWriter) (bytes : List ℕ) (w' : BufferWriter) : Type 0 where
  pub valid : IsValid w'
  pub appended : contents w' ≡ contents w ++ bytes

pub finish-contents : (w : BufferWriter) → finish w ≡ contents w
unfolding finish
finish-contents w = let e : w.offset - 0 ≡ w.offset = omega arith in rw e

pub ensure_offset : (n : ℕ) (w : BufferWriter) → (ensure n w).offset ≡ w.offset
unfolding ensure
ensure_offset n w = ground arith

pub ensure_room : (n : ℕ) (w : BufferWriter) → w.offset + n ≤ length (ensure n w).buffer
unfolding ensure
ensure_room n w = ground (
  arith,
  length-blit (replicate (max (length w.buffer * 2) (w.offset + n)) 0) 0
      (subarray w.buffer 0 w.offset),
  length-replicate {A = ℕ} (max (length w.buffer * 2) (w.offset + n)) 0,
)

grown_keeps :
    (size : ℕ) (w : BufferWriter)
    → w.offset ≤ size
    → IsValid w
    → take w.offset (blit (replicate size 0) 0 (subarray w.buffer 0 w.offset)) ≡ contents w
grown_keeps size w h v =
    let e : w.offset - 0 ≡ w.offset = omega arith in
    ground (
      arith,
      e,
      take-blit (replicate size 0) 0 (contents w) w.offset,
      length-replicate {A = ℕ} size 0,
      length-take w.offset w.buffer,
    )

pub ensure-contents :
    (n : ℕ) (w : BufferWriter) → IsValid w → take w.offset (ensure n w).buffer ≡ contents w
unfolding ensure
ensure-contents n w v = ground (arith, grown_keeps (max (length w.buffer * 2) (w.offset + n)) w)

pub ensure-IsValid : (n : ℕ) (w : BufferWriter) → IsValid (ensure n w)
ensure-IsValid n w = omega (arith, ensure_room n w, ensure_offset n w)

-- Storing `bytes` at the offset of a writer with room for them.
stored :
    (w w' : BufferWriter) (bytes : List ℕ) (end : ℕ)
    → w'.offset ≡ w.offset
    → take w.offset w'.buffer ≡ contents w
    → w.offset + length bytes ≤ length w'.buffer
    → end ≡ w.offset + length bytes
    → Appends w bytes (record { buffer = blit w'.buffer w'.offset bytes; offset = end })
stored w w' bytes end o c room e = record {
  valid = omega (arith, length-blit w'.buffer w'.offset bytes);
  appended = ground (arith, take-blit w'.buffer w'.offset bytes end);
}

stored_after_ensure :
    (n : ℕ) (w : BufferWriter) (bytes : List ℕ) (end : ℕ)
    → IsValid w
    → length bytes ≤ n
    → end ≡ (ensure n w).offset + length bytes
    → Appends w bytes
        (record { buffer = blit (ensure n w).buffer (ensure n w).offset bytes; offset = end })
stored_after_ensure n w bytes end v fits e =
    stored w (ensure n w) bytes end (ensure_offset n w) (ensure-contents n w v)
      (omega (arith, ensure_room n w)) (omega (arith, ensure_offset n w))

-- On a valid writer, `write` appends the chunk.
pub write-Appends :
    (chunk : List ℕ) (w : BufferWriter) → IsValid w → Appends w chunk (write chunk w)
unfolding write
write-Appends chunk w v = stored_after_ensure (length chunk) w chunk _ v (omega arith) refl

-- `writeU8` appends the low byte.
pub write_u8-Appends :
    (b : ℕ) (w : BufferWriter) → IsValid w → Appends w (b % 256 ∷ []) (write_u8 b w)
unfolding write_u8
write_u8-Appends b w v =
    rw (← blit_one (ensure 1 w).buffer (ensure 1 w).offset (b % 256))
      (stored_after_ensure 1 w (b % 256 ∷ []) _ v (omega arith) refl)

module _ (w : BufferWriter) (v : IsValid w) where
  -- The fixed-width writes append the little-endian bytes.
  pub write_u32_le-Appends : (n : ℕ) → Appends w (le_bytes 4 n) (write_u32_le n w)
  unfolding write_u32_le
  write_u32_le-Appends n =
      stored_after_ensure 4 w (le_bytes 4 n) _ v (omega (arith, length-le_bytes 4 n))
        (omega (arith, length-le_bytes 4 n))

  pub write_u64_le-Appends : (n : ℕ) → Appends w (le_bytes 8 n) (write_u64_le n w)
  unfolding write_u64_le
  write_u64_le-Appends n =
      stored_after_ensure 8 w (le_bytes 8 n) _ v (omega (arith, length-le_bytes 8 n))
        (omega (arith, length-le_bytes 8 n))

  pub write_i32_le-Appends : (z : ℤ) → Appends w (le_bytes 4 (to_word32 z)) (write_i32_le z w)
  unfolding write_i32_le
  write_i32_le-Appends z =
      stored_after_ensure 4 w (le_bytes 4 (to_word32 z)) _ v
        (omega (arith, length-le_bytes 4 (to_word32 z)))
        (omega (arith, length-le_bytes 4 (to_word32 z)))

  -- On a valid writer, `writeVarint` appends the encoding of a value below 2 ^ 70, for which ten
  -- bytes are room enough.
  pub write_varint-Appends : (n : ℕ) → n < 2 ^ 70 → Appends w (leb128 n) (write_varint n w)
  unfolding write_varint
  write_varint-Appends n h =
      rw
        (write_loop-leb128 n n (ensure max_bytes64 w).buffer (ensure max_bytes64 w).offset
          (omega arith))
        (stored_after_ensure 10 w (leb128 n) _ v (length-leb128 9 n h) (omega arith))

-- `reset` forgets what was written; the buffer may stay.
pub reset_offset : (n : ℕ) (w : BufferWriter) → (reset n w).offset ≡ 0
unfolding reset
reset_offset n w = ground arith
