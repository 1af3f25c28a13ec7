-- ===== src/Examples/Reader.antt =====
-- tcp_client/reader.ts at concrete inputs.
use chwire.Prelude.{
  ℕ, ◌+◌, ◌*◌, ◌≤◌, ◌≡◌, refl, false, List, [], ◌∷◌, length, none, arith, ap, length-append,
}
use chwire.Prelude.Int.{pos, negsuc}
use chwire.Prelude.Text.{codes}
use chwire.Prelude.Result.{good}
use chwire.Io.VarInt.Encode.{leb128}
use chwire.Compression.{
  lz4, lz4_method, city_hash128_le, wrap_block, encode_block, decode_block, compress_with,
  to_method_code, lz4_compress_raw,
}
use chwire.Compression.Layout.{body, length-body, length-city_hash128_le, wrap_block-body}
use chwire.Compression.RoundTrip.{decode_block-encode_block}
use chwire.Tcp.Reader.{StreamingReader, read_varint}
use chwire.Tcp.Reader.Methods.{
  read_exception, read_compressed_block, ClickHouseException, last, nesting,
}
use chwire.Tcp.Reader.Stream.{IsOpen}
use chwire.Tcp.Reader.Takes.{Takes, read_varint-Takes}
use chwire.Tcp.Reader.Values.{exception_bytes, read_exception-Takes}
use chwire.Tcp.Reader.Blocks.{read_compressed_block-Takes}
use chwire.Examples.Platform.{ascii, backends, backends-IsLossless}

read_varint-Takes_example : Takes read_varint (leb128 300) 300
read_varint-Takes_example = read_varint-Takes 300 (omega arith)

abbrev exception : ClickHouseException
exception =
    nesting (pos 60) (codes "DB") (codes "no table") []
      (last (negsuc 0) (codes "E") [] (codes "at"))

read_exception-Takes_example :
    Takes (read_exception ascii 3) (exception_bytes ascii exception) exception
read_exception-Takes_example = read_exception-Takes ascii exception 3 (omega arith) (ground arith)

compressed :
    compress_with backends (to_method_code lz4) lz4 (1 ∷ 2 ∷ 3 ∷ []) ≡ good (0xf0 ∷ 1 ∷ 2 ∷ 3 ∷ [])
unfolding to_method_code compress_with lz4_compress_raw
compressed = refl

abbrev block : List ℕ
block = wrap_block backends lz4_method (1 ∷ 2 ∷ 3 ∷ []) (0xf0 ∷ 1 ∷ 2 ∷ 3 ∷ [])

block_decodes : decode_block backends block ≡ good (1 ∷ 2 ∷ 3 ∷ [])
unfolding encode_block to_method_code compress_with lz4_compress_raw
block_decodes =
    decode_block-encode_block backends backends-IsLossless (1 ∷ 2 ∷ 3 ∷ []) lz4
      (0xf0 ∷ 1 ∷ 2 ∷ 3 ∷ []) compressed (omega arith) (omega arith)

block_fits : length block ≤ 25 + 128 * 1024 * 1024
block_fits =
    let raw : List ℕ = 1 ∷ 2 ∷ 3 ∷ [] in
    let payload : List ℕ = 0xf0 ∷ raw in
    let hash_size = backends-IsLossless.hash_size in
    let inside : List ℕ = body backends hash_size lz4_method (length raw) payload in
    omega (
      arith,
      ap (λ (t : List ℕ). length t) (wrap_block-body backends hash_size lz4_method raw payload),
      length-append (city_hash128_le backends inside) inside,
      length-city_hash128_le backends hash_size inside,
      length-body backends hash_size lz4_method (length raw) payload,
    )

read_compressed_block-Takes_example : Takes (read_compressed_block backends) block (1 ∷ 2 ∷ 3 ∷ [])
read_compressed_block-Takes_example =
    read_compressed_block-Takes backends block (1 ∷ 2 ∷ 3 ∷ []) block_decodes block_fits

abbrev reader : StreamingReader
reader = record {
  buffer = 1 ∷ 2 ∷ 3 ∷ 4 ∷ [];
  offset = 1;
  end = 4;
  returned_end = 2;
  done = false;
  error = none;
  paused_by_us = false;
}

reader-IsOpen : IsOpen reader
reader-IsOpen = record {
  valid = record { order = omega arith; fits = omega arith };
  no_error = refl;
  not_done = refl;
}
