-- ===== src/Io/VarInt.antt =====
-- native/io.ts: variable-length integers (LEB128). A buffer is the list of its bytes, a cursor is
-- an offset into it. `x >> 7n` is `x / 128`.
pub mod Encode
pub mod Extend
pub mod Decode
pub mod Bounds
pub mod Groups
pub mod Accepted
use chwire.Prelude.{
  ℕ, zero, suc, ◌+◌, ◌-◌, ◌*◌, ◌/◌, ◌%◌, ◌^◌, bit_and, bit_or, leb, ◌==◌, if◌then◌else◌, ◌&&◌, not,
  List, set, get_elem?, none, some,
}
use chwire.Prelude.Int.{ℤ, pos, negsuc}
use chwire.Prelude.Result.{Result, good, bad, buffer_underflow, range_error}
use chwire.Prelude.Outcome.{Outcome, ok, err}

-- The loop of `varIntSize`; the fuel is the value itself, which falls in every round.
var_int_size_loop : ℕ → ℕ → ℕ → ℕ
var_int_size_loop zero v size = size
var_int_size_loop (suc fuel) v size =
    let rest = var_int_size_loop fuel (v / 128) (size + 1) in if leb 128 v then rest else size

pub var_int_size : ℕ → ℕ
var_int_size value = var_int_size_loop value value 1

-- The loop of `writeVarInt`: the buffer, the position and the value still to be written. Every
-- store is a store into a `Uint8Array`. It returns the buffer and the position behind the last byte.
pub write_loop : ℕ → List ℕ → ℕ → ℕ → List ℕ × ℕ
write_loop zero buffer p v = (set buffer p (v % 256), p + 1)
write_loop (suc fuel) buffer p v =
    let next = set buffer p (bit_or (bit_and v 0x7f) 0x80 % 256) in
    let rest = write_loop fuel next (p + 1) (v / 128) in
    if leb 128 v then rest else (set buffer p (v % 256), p + 1)

-- `writeVarInt`, for the value as a BigInt. It returns the buffer and the count of bytes written.
pub write_var_int : List ℕ → ℕ → ℤ → Result (List ℕ × ℕ)
write_var_int buffer offset (pos v) =
    let (buffer', p) = write_loop v buffer offset v in good (buffer', p - offset)
write_var_int buffer offset (negsuc n) = bad range_error

-- The loop of `readVarInt`. The state is the cursor's offset. The accumulator is the 32-bit pattern
-- of the signed `result`; a shift count counts modulo 32 and drops what passes bit 31.
unfoldable pub read_loop : ℕ → List ℕ → ℕ → ℕ → ℕ → Outcome ℕ ℕ
read_loop zero buffer result shift offset = err range_error offset
read_loop (suc rounds) buffer result shift offset = elim (get_elem? buffer offset) [
  | none ↦ err buffer_underflow offset
  | some byte ↦
      let result' = bit_or result (bit_and byte 0x7f * 2 ^ (shift % 32) % 2 ^ 32) in
      let rest = read_loop rounds buffer result' (shift + 7) (offset + 1) in
      if shift == 28 && not (bit_and byte 0xf0 == 0)
      then err range_error (offset + 1)
      else if bit_and byte 0x80 == 0
      then ok result' (offset + 1)
      else rest
]

-- `readVarInt`. The byte at shift 28 ends the loop, so five rounds are all.
unfoldable pub read_var_int : List ℕ → ℕ → Outcome ℕ ℕ
read_var_int buffer offset = read_loop 5 buffer 0 0 offset

-- The loop of `readVarInt64`, over a BigInt.
unfoldable pub read_loop64 : ℕ → List ℕ → ℕ → ℕ → ℕ → Outcome ℕ ℕ
read_loop64 zero buffer result shift offset = err range_error offset
read_loop64 (suc rounds) buffer result shift offset = elim (get_elem? buffer offset) [
  | none ↦ err buffer_underflow offset
  | some byte ↦
      let result' = bit_or result (bit_and byte 0x7f * 2 ^ shift) in
      let rest = read_loop64 rounds buffer result' (shift + 7) (offset + 1) in
      if bit_and byte 0x80 == 0
      then ok result' (offset + 1)
      else if leb 70 (shift + 7)
      then err range_error (offset + 1)
      else rest
]

-- `readVarInt64`. After ten bytes `shift` is 70, so ten rounds are all.
unfoldable pub read_var_int64 : List ℕ → ℕ → Outcome ℕ ℕ
read_var_int64 buffer offset = read_loop64 10 buffer 0 0 offset
