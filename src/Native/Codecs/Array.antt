-- ===== src/Native/Codecs/Array.antt =====
-- native/codecs/composite.ts, class ArrayCodec. A column of another class, which the casts of the
-- source let through, is a TypeError.
use chwire.Prelude.{ℕ, ◌+◌, ◌*◌, refl, List, ◌++◌, length, append-nil}
use chwire.Prelude.Result.{Result, good, bad, type_error}
use chwire.Prelude.Outcome.{Exec, return, ◌>>=◌}
use chwire.Io.Writer.{BufferWriter, new}
use chwire.Io.Reader.{BufferReader}
use chwire.Io.Reader.Decodes.{Decodes, Decodes-return, Decodes-bind, Decodes-of_eq, as_bytes}
use chwire.Io.Reader.Stable.{Stable-return, Stable-bind}
use chwire.Native.Sparse.Stable.{StableCodec, decode-Stable, read_kinds1-Stable}
use chwire.Native.Serialization.{
  DeserializerState, default_deserializer_state, child_state, read_kinds1,
}
use chwire.Native.Column.{Column, array, column_length}
use chwire.Native.Codec.{Codec, RoundTrips}
use chwire.Native.Codec.Offsets.{
  read_offsets, AreOffsets, read_offsets-Decodes, read_offsets-Stable,
}
use chwire.Native.Codec.Parts.{
  Fill, sparse_codec_of, writing, finished, new-Wrote, writing-Wrote, finished-Wrote,
}
use chwire.Native.Sparse.{decode, decode-Decodes}

module _ (fill : Fill) (type : List ℕ) (inner : Codec) where
  write_prefix : Column → BufferWriter → Result BufferWriter
  write_prefix (array t offsets col) w = inner.write_prefix col w
  write_prefix col w = bad type_error

  estimate_size : ℕ → ℕ
  estimate_size rows = rows * 8 + inner.estimate_size (rows * 5)

  encode : Column → ℕ → Result (List ℕ)
  encode (array t offsets col) hint = finished (
      writing (writing (good (new hint)) (good (as_bytes 8 offsets)))
        (inner.encode col (inner.estimate_size (column_length col))))
  encode col hint = bad type_error

  decode_dense : ℕ → DeserializerState → Exec BufferReader Column
  decode_dense rows state = do
    (offsets, total) ← read_offsets rows
    col ← inner.decode total (child_state state 0)
    return (array type offsets col)

  unfoldable pub array_codec : Codec
  unfolding write_prefix estimate_size encode decode_dense
  array_codec = record {
    write_prefix = write_prefix;
    encode = encode;
    estimate_size = estimate_size;
    read_prefix = λ state. inner.read_prefix (child_state state 0);
    decode = decode (sparse_codec_of fill type decode_dense);
    read_kinds = read_kinds1 inner.read_kinds;
  }

  decode_dense-Decodes :
      (offsets : List ℕ) (col : Column) (content : List ℕ)
      → AreOffsets offsets (column_length col)
      → Decodes (inner.decode (column_length col) default_deserializer_state) content col
      → Decodes
          (decode_dense (length offsets) default_deserializer_state)
          (as_bytes 8 offsets ++ content)
          (array type offsets col)
  unfolding decode_dense child_state
  decode_dense-Decodes offsets col content h p =
      Decodes-of_eq
        (Decodes-bind _ (read_offsets-Decodes offsets (column_length col) h) (
          Decodes-bind (λ (c : Column) (r : BufferReader). return (array type offsets c) r) p
            (Decodes-return (array type offsets col))))
        (rw (append-nil content))

  -- An array column round-trips where the column of its elements does, whose length is the last
  -- offset.
  pub array_codec-RoundTrips :
      (offsets : List ℕ) (col : Column)
      → AreOffsets offsets (column_length col)
      → RoundTrips inner col
      → RoundTrips array_codec (array type offsets col)
  unfolding array_codec
  array_codec-RoundTrips offsets col h p = record {
    prefix = p.prefix;
    content = as_bytes 8 offsets ++ p.content;
    writes = p.writes;
    encodes = λ hint. finished-Wrote (
        writing-Wrote _ p.content
          (writing-Wrote (good (as_bytes 8 offsets)) (as_bytes 8 offsets) (new-Wrote hint) refl)
          (p.encodes _));
    reads_prefix = unfold child_state in p.reads_prefix;
    decodes =
        unfold column_length in
        decode-Decodes (sparse_codec_of fill type decode_dense) (length offsets)
          (decode_dense-Decodes offsets col p.content h p.decodes);
  }

  -- More bytes do not change what the codec reads, where this holds of the inner one.
  pub array_codec-StableCodec : StableCodec inner → StableCodec array_codec
  unfolding array_codec decode_dense
  array_codec-StableCodec s = record {
    prefix = λ state. s.prefix (child_state state 0);
    column = decode-Stable (sparse_codec_of fill type decode_dense) (λ rows state.
        Stable-bind _ (read_offsets-Stable rows) (λ (offsets, total).
          Stable-bind _ (s.column total (child_state state 0)) (λ col. Stable-return _)));
    kinds = read_kinds1-Stable inner.read_kinds s.kinds;
  }
