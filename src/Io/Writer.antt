-- ===== src/Io/Writer.antt =====
-- native/io.ts, class BufferWriter. The buffer is the list of its bytes, as long as its capacity;
-- the `view` is another look at the same bytes. A method returns the new state.
pub mod Contents
pub mod Text
use chwire.Prelude.{
  ℕ, zero, suc, ◌+◌, ◌-◌, ◌*◌, ◌%◌, ◌^◌, ◌≤◌, ◌<◌, max, ltb, leb, if◌then◌else◌, List, [], ◌∷◌,
  length, take, set, replicate, blit, subarray, Option, none, some,
}
use chwire.Prelude.Int.{ℤ, to_word32}
use chwire.Io.VarInt.{write_loop, var_int_size}
use chwire.Io.Utf8.{Utf8, write_utf8}
use chwire.Io.Words.{le_bytes}

pub record BufferWriter : Type 0 where
  pub buffer : List ℕ
  pub offset : ℕ

-- `BufferSize.DEFAULT_WRITER` and `VarInt.MAX_BYTES_64`
abbrev pub default_writer : ℕ
default_writer = 65536

abbrev pub max_bytes64 : ℕ
max_bytes64 = 10

unfoldable pub new : ℕ → BufferWriter
new initial_size = record { buffer = replicate initial_size 0; offset = 0 }

pub ensure : ℕ → BufferWriter → BufferWriter
ensure bytes w =
    let needed = w.offset + bytes in
    let new_size = max (length w.buffer * 2) needed in
    if leb needed (length w.buffer)
    then w
    else record w { buffer = blit (replicate new_size 0) 0 (subarray w.buffer 0 w.offset) }

pub write : List ℕ → BufferWriter → BufferWriter
write chunk w =
    let w' = ensure (length chunk) w in
    record { buffer = blit w'.buffer w'.offset chunk; offset = w'.offset + length chunk }

pub write_u8 : ℕ → BufferWriter → BufferWriter
write_u8 v w =
    let w' = ensure 1 w in
    record { buffer = set w'.buffer w'.offset (v % 256); offset = w'.offset + 1 }

-- `setUint32`, `setBigUint64` and `setInt32` at the offset, little-endian.
pub write_u32_le : ℕ → BufferWriter → BufferWriter
write_u32_le v w =
    let w' = ensure 4 w in
    record { buffer = blit w'.buffer w'.offset (le_bytes 4 v); offset = w'.offset + 4 }

pub write_u64_le : ℕ → BufferWriter → BufferWriter
write_u64_le v w =
    let w' = ensure 8 w in
    record { buffer = blit w'.buffer w'.offset (le_bytes 8 v); offset = w'.offset + 8 }

pub write_i32_le : ℤ → BufferWriter → BufferWriter
write_i32_le v w =
    let w' = ensure 4 w in
    record { buffer = blit w'.buffer w'.offset (le_bytes 4 (to_word32 v)); offset = w'.offset + 4 }

-- `writeVarint` of a value that is not negative (its callers pass ids, flags and lengths). The
-- offset grows by the count that `writeVarInt` returns, which leaves it where the loop ended.
pub write_varint : ℕ → BufferWriter → BufferWriter
write_varint value w =
    let w' = ensure max_bytes64 w in
    let (buffer', p) = write_loop value w'.buffer w'.offset value in
    record { buffer = buffer'; offset = w'.offset + (p - w'.offset) }

-- The loop of `writeString` for short strings, from position `p` on. The buffer comes back also
-- where a code unit above 127 ends the loop; then there is no position.
ascii_store : List ℕ → List ℕ → ℕ → List ℕ × Option ℕ
ascii_store [] buf p = (buf, some p)
ascii_store (code ∷ rest) buf p =
    let more = ascii_store rest (set buf p code) (p + 1) in
    if ltb 127 code then (buf, none) else more

module _ (u : Utf8) where
  pub write_string_general : List ℕ → BufferWriter → BufferWriter
  write_string_general val w =
      let max_len = length val * 3 in
      let w' = ensure (max_len + max_bytes64) w in
      let (buf, written) = write_utf8 u val w'.buffer (w'.offset + 1) in
      let v_size = var_int_size written in
      let moved =
        blit buf (w'.offset + v_size) (subarray buf (w'.offset + 1) (w'.offset + 1 + written)) in
      if ltb written 128
      then record { buffer = set buf w'.offset written; offset = w'.offset + (1 + written) }
      else record {
        buffer = (write_loop written moved w'.offset written).0;
        offset = w'.offset + (v_size + written);
      }

  pub write_string : List ℕ → BufferWriter → BufferWriter
  write_string val w =
      let len = length val in
      let w' = ensure (len + 1) w in
      let (buf, p) = ascii_store val w'.buffer (w'.offset + 1) in
      if leb len 64
      then elim p [
        | none ↦ write_string_general val (record w' { buffer = buf })
        | some p' ↦ record { buffer = set buf w'.offset len; offset = p' }
      ]
      else write_string_general val w

-- `reset(maxRetainedCapacity)`
pub reset : ℕ → BufferWriter → BufferWriter
reset max_retained_capacity w =
    if ltb max_retained_capacity (length w.buffer)
    then record { buffer = replicate default_writer 0; offset = 0 }
    else record w { offset = 0 }

-- `finish()` is a view of the bytes and `finishCopy()` a copy.
unfoldable pub finish : BufferWriter → List ℕ
finish w = subarray w.buffer 0 w.offset
