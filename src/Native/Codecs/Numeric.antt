-- ===== src/Native/Codecs/Numeric.antt =====
-- native/codecs/scalar.ts, class NumericCodec, over typed arrays with elements of `size` bytes.
-- Parameter: the converter of the type, at the values of a column that is not over a typed array.
use chwire.Prelude.{
  ℕ, ◌*◌, ◌^◌, ◌<◌, refl, List, [], ◌++◌, length, replicate, append-nil, sym, take,
}
use chwire.Prelude.Result.{Result, good, bad, plain_error}
use chwire.Prelude.Outcome.{Exec, return, ◌>>=◌}
use chwire.Io.Reader.{BufferReader, read_typed_array}
use chwire.Io.Reader.Decodes.{
  Decodes, Decodes-return, Decodes-bind, Decodes-of_eq, as_bytes, FitWords,
  read_typed_array-Decodes,
}
use chwire.Io.Reader.Stable.{Stable-return, Stable-bind, read_typed_array-Stable}
use chwire.Native.Sparse.Stable.{StableCodec, decode-Stable, read_kinds-Stable}
use chwire.Native.Serialization.{
  DeserializerState, Nodes, node, sparse, default_deserializer_state, read_kinds,
}
use chwire.Native.Column.{Column, typed, column_length}
use chwire.Native.Codec.{Codec, RoundTrips, no_write_prefix, no_read_prefix}
use chwire.Native.Sparse.{SparseCodec, decode, decode-Decodes}
use chwire.Native.Sparse.Expand.{ReadsWords, read_sparse-Decodes, offset_bytes, values_of}

converted : ℕ → Result (List ℕ) → Result (List ℕ)
unfolding as_bytes
converted size (good words) = good (as_bytes size words)
converted size (bad e) = bad e

module _ (type : List ℕ) (size : ℕ) (convert : Column → Result (List ℕ)) where
  encode : Column → ℕ → Result (List ℕ)
  unfolding converted as_bytes
  encode (typed t s words) hint = good (as_bytes s words)
  encode col hint = converted size (convert col)

  decode_dense : ℕ → DeserializerState → Exec BufferReader Column
  decode_dense rows state = do words ← read_typed_array size rows; return (typed type size words)

  -- Its dense columns are typed, so none is spread through `fromValues`.
  sparse_codec : SparseCodec
  unfolding decode_dense
  sparse_codec = record {
    type = type;
    zeros = λ rows. good (typed type size (replicate rows 0));
    decode_dense = decode_dense;
    spread = λ rows indices col. bad plain_error;
  }

  unfoldable pub numeric_codec : Codec
  unfolding encode sparse_codec
  numeric_codec = record {
    write_prefix = no_write_prefix;
    encode = encode;
    estimate_size = λ rows. rows * size;
    read_prefix = no_read_prefix;
    decode = decode sparse_codec;
    read_kinds = read_kinds;
  }

  decode_dense-Decodes :
      (words : List ℕ) (state : DeserializerState)
      → FitWords size words
      → Decodes (decode_dense (length words) state) (as_bytes size words) (typed type size words)
  unfolding decode_dense
  decode_dense-Decodes words state h =
      Decodes-of_eq
        (Decodes-bind (λ (ws : List ℕ) (r : BufferReader). return (typed type size ws) r)
          (read_typed_array-Decodes size words h) (Decodes-return (typed type size words)))
        (append-nil (as_bytes size words))

  sparse_codec-ReadsWords : (state : DeserializerState) → ReadsWords sparse_codec size state
  unfolding sparse_codec
  sparse_codec-ReadsWords state = record {
    zeros = λ rows. refl;
    dense = λ words h. decode_dense-Decodes words state h;
  }

  -- Where the node of the column is sparse, words that fit their elements, fewer than 2 ^ 62 of
  -- them, are read from the offsets of those that are not zero, and these words.
  pub numeric_codec-Decodes :
      (words : List ℕ) (nodes : Nodes)
      → FitWords size words
      → length words < 2 ^ 62
      → Decodes
          (numeric_codec.decode (length words) (record { serialization_node = node sparse nodes }))
          (offset_bytes 0 words ++ as_bytes size (values_of words))
          (typed type size words)
  unfolding numeric_codec decode
  numeric_codec-Decodes words nodes h l =
      unfold sparse_codec in
      read_sparse-Decodes
        (sparse_codec-ReadsWords (record { serialization_node = node sparse nodes })) words h l

  -- A typed column whose elements fit round-trips.
  pub numeric_codec-RoundTrips :
      (words : List ℕ) → FitWords size words → RoundTrips numeric_codec (typed type size words)
  unfolding numeric_codec
  numeric_codec-RoundTrips words h = record {
    prefix = [];
    content = as_bytes size words;
    writes = λ w v.
        (w, refl, record { valid = v; appended = sym (append-nil (take w.offset w.buffer)) });
    encodes = λ hint. refl;
    reads_prefix = Decodes-return tt;
    decodes =
        unfold column_length in
        decode-Decodes sparse_codec (length words)
          (decode_dense-Decodes words default_deserializer_state h);
  }

  -- More bytes do not change what the codec reads.
  pub numeric_codec-StableCodec : StableCodec numeric_codec
  unfolding numeric_codec sparse_codec decode_dense
  numeric_codec-StableCodec = record {
    prefix = λ state. Stable-return tt;
    column = decode-Stable sparse_codec (λ rows state.
        Stable-bind _ (read_typed_array-Stable size rows) (λ words. Stable-return _));
    kinds = read_kinds-Stable;
  }
