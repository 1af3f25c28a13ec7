-- ===== src/Io/BlockBuffer.antt =====
-- native/io.ts, class BlockBuffer. The backing buffer is the list of its bytes, as long as its
-- capacity. A method that throws changes nothing.
pub mod Queue
use chwire.Prelude.{
  ℕ, zero, suc, ◌+◌, ◌-◌, ◌*◌, ◌<◌, max, ltb, leb, if◌then◌else◌, List, [], ◌∷◌, length, replicate,
  blit, subarray,
}
use chwire.Prelude.Result.{range_error}
use chwire.Prelude.Outcome.{Outcome, ok, err}

pub record BlockBuffer : Type 0 where
  pub buffer : List ℕ
  pub read_offset : ℕ
  pub write_offset : ℕ
  pub initial_size : ℕ

unfoldable pub new : ℕ → BlockBuffer
new initial_size = record {
  buffer = replicate initial_size 0;
  read_offset = 0;
  write_offset = 0;
  initial_size = initial_size;
}

-- `available` and `view`
unfoldable pub available : BlockBuffer → ℕ
available b = b.write_offset - b.read_offset

unfoldable pub view : BlockBuffer → List ℕ
view b = subarray b.buffer b.read_offset b.write_offset

-- The loop of `ensureCapacity`. Its first round reaches the minimum.
unfoldable pub grow_loop : ℕ → ℕ → ℕ → ℕ
grow_loop zero next_capacity min_capacity = next_capacity
grow_loop (suc fuel) next_capacity min_capacity =
    let rest = grow_loop fuel (max (next_capacity * 2) min_capacity) min_capacity in
    if ltb next_capacity min_capacity then rest else next_capacity

unfoldable pub ensure_capacity : ℕ → BlockBuffer → BlockBuffer
ensure_capacity min_capacity b =
    let next_capacity = grow_loop 2 (length b.buffer) min_capacity in
    if leb min_capacity (length b.buffer) then b else record b {
      buffer = blit (replicate next_capacity 0) 0 (subarray b.buffer b.read_offset b.write_offset);
      write_offset = b.write_offset - b.read_offset;
      read_offset = 0;
    }

unfoldable pub append : List ℕ → BlockBuffer → BlockBuffer
append [] b = b
append (x ∷ chunk) b =
    let b' = ensure_capacity (b.write_offset + length (x ∷ chunk)) b in
    record b' {
      buffer = blit b'.buffer b'.write_offset (x ∷ chunk);
      write_offset = b'.write_offset + length (x ∷ chunk);
    }

-- `copyWithin(0, readOffset, writeOffset)` where half of the buffer has been read.
compact : BlockBuffer → BlockBuffer
compact b =
    let remaining = b.write_offset - b.read_offset in
    if ltb (length b.buffer) (b.read_offset * 2)
    then record b {
      buffer =
          if ltb 0 remaining
          then blit b.buffer 0 (subarray b.buffer b.read_offset b.write_offset)
          else b.buffer;
      read_offset = 0;
      write_offset = remaining;
    }
    else b

pub consume : ℕ → BlockBuffer → Outcome BlockBuffer (Unit {0})
unfolding available compact
consume bytes b =
    if ltb (available b) bytes
    then err range_error b
    else ok tt (compact (record b { read_offset = b.read_offset + bytes }))

unfoldable pub start_next_block : ℕ → BlockBuffer → Outcome BlockBuffer (Unit {0})
unfolding available
start_next_block bytes_consumed b =
    let start = b.read_offset + bytes_consumed in
    let trailing_length = b.write_offset - start in
    let next = replicate (max b.initial_size trailing_length) 0 in
    if ltb (available b) bytes_consumed
    then err range_error b
    else ok tt (record b {
      buffer =
          if ltb 0 trailing_length
          then blit next 0 (subarray b.buffer start b.write_offset)
          else next;
      read_offset = 0;
      write_offset = trailing_length;
    })
