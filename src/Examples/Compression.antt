-- ===== src/Examples/Compression.antt =====
-- compression.ts at concrete inputs.
use chwire.Prelude.{ℕ, ◌≡◌, refl, List, [], ◌∷◌, arith}
use chwire.Prelude.Result.{good, ◌>>=◌}
use chwire.Compression.{
  lz4, encode_block, decode_block, decode_blocks, compress_with, to_method_code, lz4_compress_raw,
  wrap_block, lz4_method,
}
use chwire.Compression.Layout.{flatten}
use chwire.Compression.RoundTrip.{decode_block-encode_block}
use chwire.Compression.Sound.{IsAccepted, decode_block-IsAccepted}
use chwire.Compression.Sequence.{blocks_of, raws_of, decode_blocks-flatten}
use chwire.Examples.Platform.{backends, backends-IsLossless}

compressed :
    compress_with backends (to_method_code lz4) lz4 (1 ∷ 2 ∷ 3 ∷ []) ≡ good (0xf0 ∷ 1 ∷ 2 ∷ 3 ∷ [])
unfolding to_method_code compress_with lz4_compress_raw
compressed = refl

decode_block-encode_block_example :
    (encode_block backends (1 ∷ 2 ∷ 3 ∷ []) lz4 >>= decode_block backends) ≡ good (1 ∷ 2 ∷ 3 ∷ [])
decode_block-encode_block_example =
    decode_block-encode_block backends backends-IsLossless (1 ∷ 2 ∷ 3 ∷ []) lz4
      (0xf0 ∷ 1 ∷ 2 ∷ 3 ∷ []) compressed (omega arith) (omega arith)

abbrev block : List ℕ
block = wrap_block backends lz4_method (1 ∷ 2 ∷ 3 ∷ []) (0xf0 ∷ 1 ∷ 2 ∷ 3 ∷ [])

block_decodes : decode_block backends block ≡ good (1 ∷ 2 ∷ 3 ∷ [])
unfolding encode_block to_method_code compress_with lz4_compress_raw
block_decodes =
    decode_block-encode_block backends backends-IsLossless (1 ∷ 2 ∷ 3 ∷ []) lz4
      (0xf0 ∷ 1 ∷ 2 ∷ 3 ∷ []) compressed (omega arith) (omega arith)

decode_block-IsAccepted_example : IsAccepted backends block (1 ∷ 2 ∷ 3 ∷ [])
decode_block-IsAccepted_example =
    decode_block-IsAccepted backends block (1 ∷ 2 ∷ 3 ∷ []) block_decodes

abbrev two_blocks : List (List ℕ × List ℕ)
two_blocks = (block, 1 ∷ 2 ∷ 3 ∷ []) ∷ (block, 1 ∷ 2 ∷ 3 ∷ []) ∷ []

decode_blocks-flatten_example :
    decode_blocks backends (flatten (blocks_of two_blocks)) ≡ good (flatten (raws_of two_blocks))
decode_blocks-flatten_example =
    decode_blocks-flatten backends two_blocks (block_decodes, (block_decodes, tt))
