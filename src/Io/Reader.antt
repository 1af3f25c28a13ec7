-- ===== src/Io/Reader.antt =====
-- native/io.ts, class BufferReader. A method that throws leaves the offset where it stands then.
pub mod Decodes
pub mod Reads
pub mod Stable
use chwire.Prelude.{
  ℕ, zero, suc, ◌+◌, ◌*◌, ◌≤◌, ltb, leb, if◌then◌else◌, List, [], ◌∷◌, length, take, drop, subarray,
  get_elem?,
}
use chwire.Prelude.Int.{ℤ, of_word32, of_word64}
use chwire.Prelude.Result.{buffer_underflow}
use chwire.Prelude.Outcome.{Outcome, ok, err, Exec, return, ◌>>=◌, ◌>>◌}
use chwire.Io.VarInt.{read_var_int, read_var_int64}
use chwire.Io.Utf8.{Utf8, decode_utf8_slice}
use chwire.Io.Words.{le_value}

pub record BufferReader : Type 0 where
  pub buffer : List ℕ
  pub offset : ℕ

-- The standalone readers take the reader itself as their cursor.
abbrev pub with_cursor : BufferReader → Outcome ℕ ℕ → Outcome BufferReader ℕ
with_cursor r (ok v offset) = ok v (record r { offset = offset })
with_cursor r (err e offset) = err e (record r { offset = offset })

unfoldable pub read_varint : Exec BufferReader ℕ
read_varint r = with_cursor r (read_var_int r.buffer r.offset)

unfoldable pub read_varint64 : Exec BufferReader ℕ
read_varint64 r = with_cursor r (read_var_int64 r.buffer r.offset)

unfoldable pub ensure_available : ℕ → Exec BufferReader (Unit {0})
ensure_available bytes r =
    if ltb (length r.buffer) (r.offset + bytes) then err buffer_underflow r else ok tt r

-- `this.buffer.subarray(this.offset, this.offset + n)`, and then `this.offset += n`.
unfoldable pub next_bytes : ℕ → Exec BufferReader (List ℕ)
next_bytes n r = ok (subarray r.buffer r.offset (r.offset + n)) (record r { offset = r.offset + n })

unfoldable pub read_bytes : ℕ → Exec BufferReader (List ℕ)
unfolding ensure_available next_bytes
read_bytes n = do ensure_available n; next_bytes n

-- The bytes of the string, decoded. `start` is the offset before it moves.
unfoldable pub decode_next : Utf8 → ℕ → Exec BufferReader (List ℕ)
decode_next u len r =
    ok (decode_utf8_slice u r.buffer r.offset len) (record r { offset = r.offset + len })

unfoldable pub read_string : Utf8 → Exec BufferReader (List ℕ)
unfolding read_varint ensure_available decode_next
read_string u = do len ← read_varint; ensure_available len; decode_next u len

unfoldable pub read_u8 : Exec BufferReader ℕ
unfolding read_bytes
read_u8 = do bytes ← read_bytes 1; return (le_value bytes)

-- `getUint32`, `getBigUint64`, `getInt32` and `getBigInt64` at the offset, little-endian.
unfoldable pub read_u32_le : Exec BufferReader ℕ
unfolding read_bytes
read_u32_le = do bytes ← read_bytes 4; return (le_value bytes)

unfoldable pub read_u64_le : Exec BufferReader ℕ
unfolding read_bytes
read_u64_le = do bytes ← read_bytes 8; return (le_value bytes)

unfoldable pub read_i32_le : Exec BufferReader ℤ
unfolding read_bytes
read_i32_le = do bytes ← read_bytes 4; return (of_word32 (le_value bytes))

unfoldable pub read_i64_le : Exec BufferReader ℤ
unfolding read_bytes
read_i64_le = do bytes ← read_bytes 8; return (of_word64 (le_value bytes))

-- The elements of a typed array over `bytes`, each of `size` bytes.
unfoldable pub elements : ℕ → ℕ → List ℕ → List ℕ
elements zero size bytes = []
elements (suc count) size bytes = le_value (take size bytes) ∷ elements count size (drop size bytes)

-- `readTypedArray` for unsigned elements of `size` bytes. Aligned or not, the array holds the
-- elements of the same bytes: of the buffer itself, or of a copy.
unfoldable pub read_typed_array : ℕ → ℕ → Exec BufferReader (List ℕ)
unfolding read_bytes elements
read_typed_array size count = do
  bytes ← read_bytes (count * size)
  return (elements count size bytes)

-- `replaceBuffer` keeps the offset.
pub replace_buffer : List ℕ → BufferReader → BufferReader
replace_buffer buffer r = record r { buffer = buffer }
