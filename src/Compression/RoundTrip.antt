-- ===== src/Compression/RoundTrip.antt =====
-- `decodeBlock` undoes `encodeBlock`, and `decodeBlocks` a sequence of blocks.
use chwire.Prelude.{
  ℕ, ◌+◌, ◌^◌, ◌≤◌, ◌<◌, ◌≡◌, refl, ap, sym, ◌∙◌, true, List, [], ◌∷◌, ◌++◌, length, take, drop,
  arith, length-append, append_assoc, take-length_append, drop-length_append, append-nil, Option,
  none, some, drop-drop,
}
use chwire.Prelude.Result.{Result, good, ◌>>=◌}
use chwire.Io.Words.{le_bytes, length-le_bytes}
use chwire.Compression.{
  Backends, Compression, Method, none_method, lz4_method, zstd_method, code, city_hash128_le,
  wrap_block, encode_block, decode_block, equals, compress_with, decompress_with, check_size,
  compression_level, zstd_compress_raw, lz4_compress_raw, lz4_decompress, zstd_decompress,
  read_uint32_le, at_or_zero, max_decompressed_block_size, to_method_code,
}
use chwire.Compression.Words.{read_uint32_le-le_bytes}
use chwire.Compression.Layout.{body, length-body, length-city_hash128_le, wrap_block-body}

-- What the compression libraries document: decompression undoes compression.
pub record IsLossless (k : Backends) : Type 0 where
  pub hash_size : (bytes : List ℕ) → length (k.cityhash bytes) ≡ 16
  pub lz4 :
      (raw : List ℕ) (compress : List ℕ → List ℕ)
      → k.lz4_compress ≡ some compress
      → (decompress : List ℕ → ℕ → Result (List ℕ)) × (k.lz4_decompress ≡ some decompress)
        × (decompress (compress raw) (length raw) ≡ good raw)
  pub zstd :
      (raw : List ℕ) (level : ℕ) (compress : List ℕ → ℕ → List ℕ)
      → k.zstd_compress ≡ some compress
      → (decompress : List ℕ → Result (List ℕ)) × (k.zstd_decompress ≡ some decompress)
        × (decompress (compress raw level) ≡ good raw)

pub equals_refl : (xs : List ℕ) → equals xs xs ≡ true
unfolding equals
equals_refl [] = refl
equals_refl (x ∷ xs) = ground (arith, equals_refl xs)

pub equals→eq : (xs ys : List ℕ) → equals xs ys ≡ true → xs ≡ ys
unfolding equals
equals→eq [] [] h = refl
equals→eq [] (y ∷ ys) h = cc
equals→eq (x ∷ xs) [] h = cc
equals→eq (x ∷ xs) (y ∷ ys) h = ground (arith, equals→eq xs ys)

module _ (k : Backends) (lossless : IsLossless k) where
  lz4_back :
      (raw compressed : List ℕ)
      → lz4_compress_raw k raw ≡ good compressed
      → lz4_decompress k compressed (length raw) ≡ good raw
  unfolding lz4_compress_raw lz4_decompress
  lz4_back raw compressed e = go k.lz4_compress refl
    where
      go :
          (o : Option (List ℕ → List ℕ))
          → k.lz4_compress ≡ o
          → lz4_decompress k compressed (length raw) ≡ good raw
      go none p = absurd (cc (rw (p, lz4_compress_raw) at e))
      go (some compress) p =
          let (decompress, q, r) = lossless.lz4 raw compress p in
          let c : compress raw ≡ compressed = cc (rw (p, lz4_compress_raw) at e) in rw (q, ← c) r

  zstd_back :
      (raw compressed : List ℕ) (level : Option ℕ)
      → zstd_compress_raw k raw level ≡ good compressed
      → zstd_decompress k compressed ≡ good raw
  unfolding zstd_compress_raw zstd_decompress
  zstd_back raw compressed level e = go k.zstd_compress refl
    where
      chosen : ℕ
      chosen = elim level [ none ↦ 3 | some n ↦ n ]

      go :
          (o : Option (List ℕ → ℕ → List ℕ))
          → k.zstd_compress ≡ o
          → zstd_decompress k compressed ≡ good raw
      go none p = absurd (cc (rw (p, zstd_compress_raw) at e))
      go (some compress) p =
          let (decompress, q, r) = lossless.zstd raw chosen compress p in
          let c : compress raw chosen ≡ compressed = cc (rw (p, zstd_compress_raw) at e) in
          rw (q, ← c) r

  decompress-compress :
      (mode : Method) (compression : Compression) (raw compressed : List ℕ)
      → compress_with k mode compression raw ≡ good compressed
      → decompress_with k (code mode) compressed (length raw) ≡ good raw
  unfolding compress_with decompress_with
  decompress-compress none_method compression raw compressed e = cc
  decompress-compress lz4_method compression raw compressed e = lz4_back raw compressed e
  decompress-compress zstd_method compression raw compressed e =
      zstd_back raw compressed (compression_level compression) e

-- What `decodeBlock` does with a block whose parts are consistent.
decode_parts :
    (k : Backends) (block compressed header : List ℕ) (mode size : ℕ)
    → 25 ≤ length block
    → take 16 block ≡ city_hash128_le k (drop 16 block)
    → take 9 (drop 16 block) ≡ header
    → drop 25 block ≡ compressed
    → at_or_zero header 0 ≡ mode
    → read_uint32_le header 1 ≡ 9 + length compressed
    → read_uint32_le header 5 ≡ size
    → size ≤ max_decompressed_block_size
    → decode_block k block ≡ (decompress_with k mode compressed size >>= check_size k size)
unfolding decode_block
decode_parts k block compressed header mode size h1 h2 h3 h4 h5 h6 h7 h8 =
    rw (h3, h4, h5, h6, h7, h2) (ground (arith, equals_refl (city_hash128_le k (drop 16 block))))

module _ (k : Backends) (lossless : IsLossless k) (mode : Method) (raw compressed : List ℕ) where
  abbrev inside : List ℕ
  inside = body k lossless.hash_size mode (length raw) compressed

  abbrev sum : List ℕ
  sum = city_hash128_le k inside

  abbrev header : List ℕ
  header = code mode ∷ (le_bytes 4 (9 + length compressed) ++ le_bytes 4 (length raw))

  sum_size : length sum ≡ 16
  sum_size = length-city_hash128_le k lossless.hash_size inside

  inside_split : inside ≡ header ++ compressed
  inside_split =
      ap (λ (t : List ℕ). code mode ∷ t)
        (sym
          (append_assoc (le_bytes 4 (9 + length compressed)) (le_bytes 4 (length raw)) compressed))

  header_size_lem : length header ≡ 9
  header_size_lem = omega (
    arith,
    length-append (le_bytes 4 (9 + length compressed)) (le_bytes 4 (length raw)),
    length-le_bytes 4 (9 + length compressed),
    length-le_bytes 4 (length raw),
  )

  behind_sum : drop 16 (sum ++ inside) ≡ inside
  behind_sum = ap (λ (t : ℕ). drop t (sum ++ inside)) (sym sum_size) ∙ drop-length_append sum inside

  header_taken : take 9 inside ≡ header
  header_taken =
      ap (take 9) inside_split
      ∙ ap (λ (t : ℕ). take t (header ++ compressed)) (sym header_size_lem)
      ∙ take-length_append header compressed

  payload : drop 9 inside ≡ compressed
  payload =
      ap (drop 9) inside_split
      ∙ ap (λ (t : ℕ). drop t (header ++ compressed)) (sym header_size_lem)
      ∙ drop-length_append header compressed

  raw_size_at : drop 5 header ≡ le_bytes 4 (length raw) ++ []
  raw_size_at =
      ap (λ (t : ℕ). drop t (le_bytes 4 (9 + length compressed) ++ le_bytes 4 (length raw)))
        (sym (length-le_bytes 4 (9 + length compressed)))
      ∙ drop-length_append (le_bytes 4 (9 + length compressed)) (le_bytes 4 (length raw))
      ∙ sym (append-nil (le_bytes 4 (length raw)))

  decode-wrap_block :
      length compressed < 2 ^ 31
      → length raw ≤ max_decompressed_block_size
      → decompress_with k (code mode) compressed (length raw) ≡ good raw
      → decode_block k (wrap_block k mode raw compressed) ≡ good raw
  decode-wrap_block hc hr e = rw (wrap_block-body k lossless.hash_size mode raw compressed) (
      decode_parts k (sum ++ inside) compressed header (code mode) (length raw)
        (omega (
          arith,
          length-append sum inside,
          sum_size,
          length-body k lossless.hash_size mode (length raw) compressed,
        ))
        (ap (λ (t : ℕ). take t (sum ++ inside)) (sym sum_size)
          ∙ take-length_append sum inside
          ∙ ap (city_hash128_le k) (sym behind_sum))
        (ap (take 9) behind_sum ∙ header_taken)
        (sym (drop-drop 16 9 25 (sum ++ inside) refl) ∙ ap (drop 9) behind_sum ∙ payload) refl
        (read_uint32_le-le_bytes header 1 (9 + length compressed) (le_bytes 4 (length raw)) refl
          (omega arith))
        (read_uint32_le-le_bytes header 5 (length raw) [] raw_size_at (omega arith)) hr
      ∙ rw e (unfold check_size in ground arith))

-- With compression libraries that lose nothing, a block of at most 1 GiB whose payload has less
-- than 2 GiB decodes to what was encoded, with every compression and level, wherever the encoder
-- does not throw.
pub decode_block-encode_block :
    (k : Backends) (lossless : IsLossless k) (raw : List ℕ) (compression : Compression)
    (compressed : List ℕ)
    → compress_with k (to_method_code compression) compression raw ≡ good compressed
    → length compressed < 2 ^ 31
    → length raw ≤ max_decompressed_block_size
    → (encode_block k raw compression >>= decode_block k) ≡ good raw
unfolding encode_block
decode_block-encode_block k lossless raw compression compressed e hc hr =
    let mode : Method = to_method_code compression in
    rw e (
      decode-wrap_block k lossless mode raw compressed hc hr
        (decompress-compress k lossless mode compression raw compressed e))
