-- ===== src/Examples/Platform.antt =====
-- A UTF-8 codec for ASCII text and a set of compression libraries, to run the theorems on.
use chwire.Prelude.{
  ℕ, ◌%◌, ◌<◌, ◌≡◌, refl, ap, sym, List, [], ◌∷◌, ◌++◌, length, replicate, All, none, some, arith,
}
use chwire.Prelude.Result.{Result, good, bad, plain_error}
use chwire.Io.Utf8.{Utf8}
use chwire.Compression.{Backends}
use chwire.Compression.RoundTrip.{IsLossless}

-- ASCII text is its own encoding.
abbrev pub ascii : Utf8
ascii = record {
  IsText = All (λ c. c < 128);
  encode = λ s. s;
  decode = λ bytes. bytes;
  ascii-IsText = λ s h. h;
  encode_bound = λ s. omega arith;
  encode_ascii = λ s h. refl;
  decode_ascii = λ bytes h. refl;
  decode-encode = λ s h. refl;
}

abbrev store : List ℕ → List ℕ
store raw = 0xf0 ∷ raw

abbrev load : List ℕ → ℕ → Result (List ℕ)
load [] size = bad plain_error
load (token ∷ raw) size = good raw

-- LZ4 is loaded and stores its input behind a token; Zstandard is not loaded.
abbrev pub backends : Backends
backends = record {
  cityhash = λ bytes. replicate 8 (length bytes % 256) ++ replicate 8 7;
  lz4_compress = some store;
  lz4_decompress = some load;
  zstd_compress = none;
  zstd_decompress = none;
}

pub backends-IsLossless : IsLossless backends
backends-IsLossless = record {
  hash_size = λ bytes. refl;
  lz4 = λ raw compress e.
      let c : store ≡ compress = cc e in
      (load, refl, ap (λ (f : List ℕ → List ℕ). load (f raw) (length raw)) (sym c));
  zstd = λ raw level compress e. absurd (cc e);
}
