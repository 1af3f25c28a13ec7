-- ===== src/Compression.antt =====
-- compression.ts: blocks of the native compression format, [checksum 16][method 1][size 4]
-- [raw size 4][payload]. CityHash, LZ4 and Zstandard are a parameter; the functions that `init` has
-- not loaded are absent.
pub mod Words
pub mod Layout
pub mod RoundTrip
pub mod Sound
pub mod Sequence
use chwire.Prelude.{
  ℕ, zero, suc, ◌+◌, ◌-◌, ◌*◌, ◌/◌, ◌%◌, ◌^◌, ◌≤◌, ◌<◌, bit_and, bit_or, ltb, leb, ◌==◌,
  if◌then◌else◌, Bool, true, false, ◌&&◌, not, List, [], ◌∷◌, ◌++◌, length, take, drop, set,
  get_elem?, replicate, blit, subarray, Option, none, some,
}
use chwire.Prelude.Result.{Result, good, bad, plain_error, ◌>>=◌}

pub record Backends : Type 0 where
  pub cityhash : List ℕ → List ℕ
  pub lz4_compress : Option (List ℕ → List ℕ)
  pub lz4_decompress : Option (List ℕ → ℕ → Result (List ℕ))
  pub zstd_compress : Option (List ℕ → ℕ → List ℕ)
  pub zstd_decompress : Option (List ℕ → Result (List ℕ))

-- `Compression`: `zstd_at` is the form `{ method: "zstd", level }`.
pub data Compression : Type 0 where
  off : Compression
  lz4 : Compression
  zstd : Compression
  zstd_at : Option ℕ → Compression

-- `Method`
pub data Method : Type 0 where
  none_method : Method
  lz4_method : Method
  zstd_method : Method

abbrev pub code : Method → ℕ
code none_method = 0x02
code lz4_method = 0x82
code zstd_method = 0x90

abbrev pub checksum_size : ℕ
checksum_size = 16

abbrev pub header_size : ℕ
header_size = 9

abbrev pub max_decompressed_block_size : ℕ
max_decompressed_block_size = 1024 * 1024 * 1024

unfoldable pub to_method_code : Compression → Method
to_method_code off = none_method
to_method_code lz4 = lz4_method
to_method_code zstd = zstd_method
to_method_code (zstd_at level) = zstd_method

unfoldable pub compression_level : Compression → Option ℕ
compression_level (zstd_at level) = level
compression_level _ = none

-- `concat(arrays)`: one array is returned as it is, several are copied one behind the other.
concat_loop : List (List ℕ) → List ℕ → ℕ → List ℕ
concat_loop [] result offset = result
concat_loop (arr ∷ arrays) result offset =
    concat_loop arrays (blit result offset arr) (offset + length arr)

total_length : List (List ℕ) → ℕ
total_length [] = 0
total_length (arr ∷ arrays) = length arr + total_length arrays

pub concat : List (List ℕ) → List ℕ
unfolding concat_loop total_length
concat [] = []
concat (arr ∷ []) = arr
concat (a ∷ b ∷ arrays) =
    concat_loop (a ∷ b ∷ arrays) (replicate (total_length (a ∷ b ∷ arrays)) 0) 0

-- `arr[i]!`, where a missing element counts as 0 under a bit operation.
abbrev pub at_or_zero : List ℕ → ℕ → ℕ
at_or_zero arr i = elim (get_elem? arr i) [ none ↦ 0 | some b ↦ b ]

unfoldable pub read_uint32_le : List ℕ → ℕ → ℕ
read_uint32_le arr offset =
    bit_or
      (bit_or (bit_or (at_or_zero arr offset) (at_or_zero arr (offset + 1) * 2 ^ 8))
        (at_or_zero arr (offset + 2) * 2 ^ 16))
      (at_or_zero arr (offset + 3) * 2 ^ 24 % 2 ^ 32)

unfoldable pub write_uint32_le : List ℕ → ℕ → ℕ → List ℕ
write_uint32_le arr value offset =
    let a = set arr offset (bit_and value 0xff) in
    let b = set a (offset + 1) (bit_and (value / 2 ^ 8) 0xff) in
    let c = set b (offset + 2) (bit_and (value / 2 ^ 16) 0xff) in
    set c (offset + 3) (bit_and (value / 2 ^ 24) 0xff)

unfoldable pub equals : List ℕ → List ℕ → Bool
equals [] [] = true
equals [] (y ∷ ys) = false
equals (x ∷ xs) [] = false
equals (x ∷ xs) (y ∷ ys) = (x == y) && equals xs ys

module _ (k : Backends) where
  -- The two halves of the hash change places.
  pub city_hash128_le : List ℕ → List ℕ
  city_hash128_le bytes =
      let hash = k.cityhash bytes in concat (subarray hash 8 16 ∷ subarray hash 0 8 ∷ [])

  unfoldable pub lz4_compress_raw : List ℕ → Result (List ℕ)
  lz4_compress_raw raw = elim k.lz4_compress [
    | none ↦ bad plain_error
    | some compress ↦ good (compress raw)
  ]

  pub lz4_decompress : List ℕ → ℕ → Result (List ℕ)
  lz4_decompress compressed size = elim k.lz4_decompress [
    | none ↦ bad plain_error
    | some decompress ↦ decompress compressed size
  ]

  -- An absent level is 3.
  pub zstd_compress_raw : List ℕ → Option ℕ → Result (List ℕ)
  zstd_compress_raw raw level =
      let level' : ℕ = elim level [ none ↦ 3 | some n ↦ n ] in
      elim k.zstd_compress [ none ↦ bad plain_error | some compress ↦ good (compress raw level') ]

  pub zstd_decompress : List ℕ → Result (List ℕ)
  zstd_decompress compressed = elim k.zstd_decompress [
    | none ↦ bad plain_error
    | some decompress ↦ decompress compressed
  ]

  unfoldable pub compress_with : Method → Compression → List ℕ → Result (List ℕ)
  unfolding lz4_compress_raw zstd_compress_raw
  compress_with lz4_method compression raw = lz4_compress_raw raw
  compress_with zstd_method compression raw = zstd_compress_raw raw (compression_level compression)
  compress_with none_method compression raw = good raw

  -- The block around a payload: header, payload, and the checksum over both.
  pub wrap_block : Method → List ℕ → List ℕ → List ℕ
  wrap_block mode raw compressed =
      let total_size = checksum_size + header_size + length compressed in
      let output = replicate total_size 0 in
      let output = set output 16 (code mode) in
      let output = write_uint32_le output (header_size + length compressed) 17 in
      let output = write_uint32_le output (length raw) 21 in
      let output = blit output 25 compressed in
      let checksum = city_hash128_le (subarray output 16 (25 + length compressed)) in
      let output = blit output 0 checksum in subarray output 0 total_size

  unfoldable pub encode_block : List ℕ → Compression → Result (List ℕ)
  unfolding compress_with to_method_code
  encode_block raw compression = do
    let mode = to_method_code compression
    compressed ← compress_with mode compression raw
    good (wrap_block mode raw compressed)

  -- The switch on the method byte.
  pub decompress_with : ℕ → List ℕ → ℕ → Result (List ℕ)
  unfolding lz4_decompress zstd_decompress
  decompress_with mode compressed uncompressed_size =
      if mode == 0x02
      then good compressed
      else if mode == 0x82
      then lz4_decompress compressed uncompressed_size
      else if mode == 0x90
      then zstd_decompress compressed
      else bad plain_error

  check_size : ℕ → List ℕ → Result (List ℕ)
  check_size uncompressed_size result =
      if length result == uncompressed_size then good result else bad plain_error

  pub decode_block : List ℕ → Result (List ℕ)
  unfolding equals check_size
  decode_block block =
      let checksum = subarray block 0 checksum_size in
      let metadata = subarray block 16 25 in
      let compressed = drop 25 block in
      let expected = city_hash128_le (drop 16 block) in
      let mode = at_or_zero metadata 0 in
      let compressed_size = read_uint32_le metadata 1 in
      let uncompressed_size = read_uint32_le metadata 5 in
      if ltb (length block) (checksum_size + header_size)
      then bad plain_error
      else if not (equals checksum expected)
      then bad plain_error
      else if not (compressed_size == header_size + length compressed)
      then bad plain_error
      else if ltb max_decompressed_block_size uncompressed_size
      then bad plain_error
      else decompress_with mode compressed uncompressed_size >>= check_size uncompressed_size

  -- The loop of `decodeBlocks`: the blocks decoded, and the offset where the loop ended. Every
  -- round takes 16 bytes at least, so the length of the input is fuel enough.
  pub blocks_loop : ℕ → List ℕ → ℕ → List (List ℕ) → Result (List (List ℕ) × ℕ)
  blocks_loop zero input offset blocks = good (blocks, offset)
  blocks_loop (suc fuel) input offset blocks =
      let block_size = checksum_size + read_uint32_le input (offset + checksum_size + 1) in
      let rest =
        λ (block : List ℕ). blocks_loop fuel input (offset + block_size) (blocks ++ block ∷ []) in
      if leb (offset + checksum_size + header_size) (length input)
      then if ltb (length input) (offset + block_size)
        then good (blocks, offset)
        else decode_block (subarray input offset (offset + block_size)) >>= rest
      else good (blocks, offset)

  pub all_decoded : List ℕ → List (List ℕ) × ℕ → Result (List ℕ)
  all_decoded input (blocks, offset) =
      if offset == length input then good (concat blocks) else bad plain_error

  pub decode_blocks : List ℕ → Result (List ℕ)
  unfolding blocks_loop all_decoded
  decode_blocks input = blocks_loop (length input) input 0 [] >>= all_decoded input
