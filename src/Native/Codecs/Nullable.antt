-- ===== src/Native/Codecs/Nullable.antt =====
-- native/codecs/composite.ts, class NullableCodec. A column of another class, which the casts of the
-- source let through, is a TypeError.
use chwire.Prelude.{ℕ, ◌+◌, ◌≡◌, refl, List, ◌++◌, length, append-nil}
use chwire.Prelude.Result.{Result, good, bad, type_error}
use chwire.Prelude.Outcome.{Exec, return, ◌>>=◌}
use chwire.Io.Writer.{BufferWriter, new}
use chwire.Io.Reader.{BufferReader, read_typed_array}
use chwire.Io.Reader.Decodes.{
  Decodes, Decodes-return, Decodes-bind, Decodes-of_eq, FitWords, read_typed_array-Decodes,
  as_bytes_one,
}
use chwire.Io.Reader.Stable.{Stable-return, Stable-bind, read_typed_array-Stable}
use chwire.Native.Sparse.Stable.{StableCodec, decode-Stable, read_kinds1-Stable}
use chwire.Native.Serialization.{
  DeserializerState, default_deserializer_state, child_state, read_kinds1,
}
use chwire.Native.Column.{Column, nullable, column_length}
use chwire.Native.Codec.{Codec, RoundTrips}
use chwire.Native.Codec.Parts.{
  Fill, sparse_codec_of, writing, finished, new-Wrote, writing-Wrote, finished-Wrote,
}
use chwire.Native.Sparse.{decode, decode-Decodes}

module _ (fill : Fill) (type : List ℕ) (inner : Codec) where
  write_prefix : Column → BufferWriter → Result BufferWriter
  write_prefix (nullable t null_flags col) w = inner.write_prefix col w
  write_prefix col w = bad type_error

  estimate_size : ℕ → ℕ
  estimate_size rows = rows + inner.estimate_size rows

  encode : Column → ℕ → Result (List ℕ)
  encode (nullable t null_flags col) hint = finished (
      writing (writing (good (new hint)) (good null_flags))
        (inner.encode col (inner.estimate_size (column_length col))))
  encode col hint = bad type_error

  decode_dense : ℕ → DeserializerState → Exec BufferReader Column
  decode_dense rows state = do
    null_flags ← read_typed_array 1 rows
    col ← inner.decode rows (child_state state 0)
    return (nullable type null_flags col)

  unfoldable pub nullable_codec : Codec
  unfolding write_prefix estimate_size encode decode_dense
  nullable_codec = record {
    write_prefix = write_prefix;
    encode = encode;
    estimate_size = estimate_size;
    read_prefix = λ state. inner.read_prefix (child_state state 0);
    decode = decode (sparse_codec_of fill type decode_dense);
    read_kinds = read_kinds1 inner.read_kinds;
  }

  decode_dense-Decodes :
      (null_flags : List ℕ) (col : Column) (content : List ℕ)
      → FitWords 1 null_flags
      → column_length col ≡ length null_flags
      → Decodes (inner.decode (column_length col) default_deserializer_state) content col
      → Decodes
          (decode_dense (length null_flags) default_deserializer_state)
          (null_flags ++ content)
          (nullable type null_flags col)
  unfolding decode_dense child_state
  decode_dense-Decodes null_flags col content h n p =
      Decodes-of_eq
        (Decodes-bind _ (read_typed_array-Decodes 1 null_flags h) (
          Decodes-bind (λ (c : Column) (r : BufferReader). return (nullable type null_flags c) r)
            (rw n at p) (Decodes-return (nullable type null_flags col))))
        (rw (as_bytes_one null_flags h, append-nil content))

  -- A nullable column round-trips where the column of its values does, which has a row for every
  -- flag, and the flags are bytes.
  pub nullable_codec-RoundTrips :
      (null_flags : List ℕ) (col : Column)
      → FitWords 1 null_flags
      → column_length col ≡ length null_flags
      → RoundTrips inner col
      → RoundTrips nullable_codec (nullable type null_flags col)
  unfolding nullable_codec
  nullable_codec-RoundTrips null_flags col h n p = record {
    prefix = p.prefix;
    content = null_flags ++ p.content;
    writes = p.writes;
    encodes = λ hint. finished-Wrote (
        writing-Wrote _ p.content (writing-Wrote (good null_flags) null_flags (new-Wrote hint) refl)
          (p.encodes _));
    reads_prefix = unfold child_state in p.reads_prefix;
    decodes =
        unfold column_length in
        decode-Decodes (sparse_codec_of fill type decode_dense) (length null_flags)
          (decode_dense-Decodes null_flags col p.content h n p.decodes);
  }

  -- More bytes do not change what the codec reads, where this holds of the inner one.
  pub nullable_codec-StableCodec : StableCodec inner → StableCodec nullable_codec
  unfolding nullable_codec decode_dense
  nullable_codec-StableCodec s = record {
    prefix = λ state. s.prefix (child_state state 0);
    column = decode-Stable (sparse_codec_of fill type decode_dense) (λ rows state.
        Stable-bind _ (read_typed_array-Stable 1 rows) (λ null_flags.
          Stable-bind _ (s.column rows (child_state state 0)) (λ col. Stable-return _)));
    kinds = read_kinds1-Stable inner.read_kinds s.kinds;
  }
