-- ===== src/Tcp/Reader/Methods.antt =====
-- tcp_client/reader.ts: the methods of StreamingReader that read values, exceptions and blocks.
use chwire.Prelude.{ℕ, zero, suc, ◌+◌, ◌-◌, ltb, ◌||◌, if◌then◌else◌, List, [], subarray}
use chwire.Prelude.Int.{ℤ, of_word32}
use chwire.Prelude.Result.{plain_error, range_error, Result, good, bad}
use chwire.Io.Utf8.{Utf8}
use chwire.Io.Words.{le_value}
use chwire.Compression.{
  Backends, read_uint32_le, decode_block, checksum_size, header_size, max_decompressed_block_size,
}
use chwire.Tcp.Wait.{got, threw, Awaits, done_with, fails, ◌>>=◌, ◌>>◌}
use chwire.Tcp.Reader.{
  StreamingReader, Session, max_compressed_block_size, ensure, taking, read_varint,
}

-- `ensure(n)`, the next `n` bytes, and `advance(n)`.
unfoldable pub read_bytes : ℕ → Awaits Session (List ℕ)
unfolding ensure taking
read_bytes n = do ensure n; taking n

unfoldable pub read_u8 : Awaits Session ℕ
unfolding read_bytes
read_u8 = do bytes ← read_bytes 1; done_with (le_value bytes)

unfoldable pub read_int32_le : Awaits Session ℤ
unfolding read_bytes
read_int32_le = do bytes ← read_bytes 4; done_with (of_word32 (le_value bytes))

unfoldable pub read_u64_le : Awaits Session ℕ
unfolding read_bytes
read_u64_le = do bytes ← read_bytes 8; done_with (le_value bytes)

-- `readException` builds a chain of exceptions: one without a nested exception, or one with.
pub data ClickHouseException : Type 0 where
  last : ℤ → List ℕ → List ℕ → List ℕ → ClickHouseException
  nesting : ℤ → List ℕ → List ℕ → List ℕ → ClickHouseException → ClickHouseException

module _ (u : Utf8) where
  unfoldable pub string_of_length : ℕ → Awaits Session (List ℕ)
  unfolding read_bytes
  string_of_length zero = done_with []
  string_of_length (suc n) = do bytes ← read_bytes (suc n); done_with (u.decode bytes)

  unfoldable pub read_string : Awaits Session (List ℕ)
  unfolding read_varint string_of_length
  read_string = do len ← read_varint; string_of_length len

  -- The fuel bounds how deep exceptions nest.
  unfoldable pub read_exception : ℕ → Awaits Session ClickHouseException
  unfolding read_string read_u8 read_int32_le
  read_exception zero = fails range_error
  read_exception (suc depth) = do
    code ← read_int32_le
    name ← read_string
    message ← read_string
    stack_trace ← read_string
    has_nested ← read_u8
    elim has_nested [
      | zero ↦ done_with (last code name message stack_trace)
      | suc flag ↦ do
        nested ← read_exception depth
        done_with (nesting code name message stack_trace nested)
    ]

-- `readCompressedFrameSize()`
unfoldable pub frame_size : Awaits Session ℕ
frame_size s =
    let r : StreamingReader = s.reader in
    let metadata_offset : ℕ = r.offset + checksum_size in
    let compressed_size_with_header : ℕ = read_uint32_le r.buffer (metadata_offset + 1) in
    let uncompressed_size : ℕ = read_uint32_le r.buffer (metadata_offset + 5) in
    let data_size : ℕ = compressed_size_with_header - header_size in
    if ltb compressed_size_with_header header_size || ltb max_compressed_block_size data_size
    then threw plain_error s
    else if ltb max_decompressed_block_size uncompressed_size
    then threw plain_error s
    else got (checksum_size + compressed_size_with_header) s

unfoldable pub frame_result : ℕ → Result (List ℕ) → Awaits Session (List ℕ)
unfolding taking
frame_result n (good decoded) = do taking n; done_with decoded
frame_result n (bad e) = fails e

module _ (k : Backends) where
  -- The frame is decoded before the offset moves.
  unfoldable pub decode_frame : ℕ → Awaits Session (List ℕ)
  unfolding frame_result
  decode_frame n s =
      let frame : List ℕ = subarray s.reader.buffer s.reader.offset (s.reader.offset + n) in
      frame_result n (decode_block k frame) s

  unfoldable pub read_compressed_block : Awaits Session (List ℕ)
  unfolding ensure frame_size decode_frame
  read_compressed_block = do ensure 25; n ← frame_size; ensure n; decode_frame n

unfoldable pub discard_compressed_block : Awaits Session (Unit {0})
unfolding ensure frame_size taking
discard_compressed_block = do ensure 25; n ← frame_size; ensure n; taking n; done_with tt
