-- ===== src/Native/Codecs/Map.antt =====
-- native/codecs/composite.ts, class MapCodec. A column of another class, which the casts of the
-- source let through, is a TypeError; `map_as_array` is the option of the reader.
use chwire.Prelude.{
  ℕ, ◌+◌, ◌*◌, ◌≡◌, refl, ap, ◌∙◌, List, ◌++◌, length, append-nil, append_assoc, Bool,
}
use chwire.Prelude.Result.{Result, good, bad, type_error}
use chwire.Prelude.Outcome.{Exec, return, ◌>>=◌, ◌>>◌}
use chwire.Io.Writer.{BufferWriter, new}
use chwire.Io.Reader.{BufferReader}
use chwire.Io.Reader.Decodes.{Decodes, Decodes-return, Decodes-bind, Decodes-of_eq, as_bytes}
use chwire.Io.Reader.Stable.{Stable-return, Stable-bind}
use chwire.Native.Sparse.Stable.{StableCodec, decode-Stable, read_kinds2-Stable}
use chwire.Native.Serialization.{
  DeserializerState, default_deserializer_state, child_state, read_kinds2,
}
use chwire.Native.Column.{Column, map_column, column_length}
use chwire.Native.Codec.{Codec, RoundTrips}
use chwire.Native.Codec.Offsets.{
  read_offsets, AreOffsets, read_offsets-Decodes, read_offsets-Stable,
}
use chwire.Native.Codec.Parts.{
  Fill, sparse_codec_of, writing, finished, new-Wrote, writing-Wrote, finished-Wrote, and_prefix,
  and_prefix-WritesPrefix,
}
use chwire.Native.Sparse.{decode, decode-Decodes}

module _ (fill : Fill) (map_as_array : Bool) (type : List ℕ) (key_codec val_codec : Codec) where
  write_prefix : Column → BufferWriter → Result BufferWriter
  write_prefix (map_column t offsets keys values as_array) w =
      and_prefix (key_codec.write_prefix keys w) (val_codec.write_prefix values)
  write_prefix col w = bad type_error

  read_prefix : DeserializerState → Exec BufferReader (Unit {0})
  read_prefix state = do
    key_codec.read_prefix (child_state state 0)
    val_codec.read_prefix (child_state state 1)

  estimate_size : ℕ → ℕ
  estimate_size rows =
      rows * 8 + key_codec.estimate_size (rows * 3) + val_codec.estimate_size (rows * 3)

  encode : Column → ℕ → Result (List ℕ)
  encode (map_column t offsets keys values as_array) hint = finished (
      writing
        (writing (writing (good (new hint)) (good (as_bytes 8 offsets)))
          (key_codec.encode keys (key_codec.estimate_size (column_length keys))))
        (val_codec.encode values (val_codec.estimate_size (column_length values))))
  encode col hint = bad type_error

  decode_dense : ℕ → DeserializerState → Exec BufferReader Column
  decode_dense rows state = do
    (offsets, total) ← read_offsets rows
    keys ← key_codec.decode total (child_state state 0)
    vals ← val_codec.decode total (child_state state 1)
    return (map_column type offsets keys vals map_as_array)

  unfoldable pub map_codec : Codec
  unfolding write_prefix read_prefix estimate_size encode decode_dense
  map_codec = record {
    write_prefix = write_prefix;
    encode = encode;
    estimate_size = estimate_size;
    read_prefix = read_prefix;
    decode = decode (sparse_codec_of fill type decode_dense);
    read_kinds = read_kinds2 key_codec.read_kinds val_codec.read_kinds;
  }

  read_prefix-Decodes :
      {a b : List ℕ}
      → Decodes (key_codec.read_prefix default_deserializer_state) a tt
      → Decodes (val_codec.read_prefix default_deserializer_state) b tt
      → Decodes (read_prefix default_deserializer_state) (a ++ b) tt
  unfolding read_prefix child_state
  read_prefix-Decodes p q = Decodes-bind _ p q

  decode_dense-Decodes :
      (offsets : List ℕ) (keys values : Column) (a b : List ℕ)
      → AreOffsets offsets (column_length keys)
      → column_length values ≡ column_length keys
      → Decodes (key_codec.decode (column_length keys) default_deserializer_state) a keys
      → Decodes (val_codec.decode (column_length values) default_deserializer_state) b values
      → Decodes
          (decode_dense (length offsets) default_deserializer_state)
          (as_bytes 8 offsets ++ (a ++ b))
          (map_column type offsets keys values map_as_array)
  unfolding decode_dense child_state
  decode_dense-Decodes offsets keys values a b h n p q =
      Decodes-of_eq
        (Decodes-bind _ (read_offsets-Decodes offsets (column_length keys) h) (
          Decodes-bind _ p (
            Decodes-bind
              (λ (c : Column) (r : BufferReader).
                return (map_column type offsets keys c map_as_array) r)
              (rw n at q) (Decodes-return (map_column type offsets keys values map_as_array)))))
        (rw (append-nil b))

  -- A map column round-trips where the columns of its keys and of its values do, whose length is
  -- the last offset.
  pub map_codec-RoundTrips :
      (offsets : List ℕ) (keys values : Column)
      → AreOffsets offsets (column_length keys)
      → column_length values ≡ column_length keys
      → RoundTrips key_codec keys
      → RoundTrips val_codec values
      → RoundTrips map_codec (map_column type offsets keys values map_as_array)
  unfolding map_codec
  map_codec-RoundTrips offsets keys values h n p q = record {
    prefix = p.prefix ++ q.prefix;
    content = as_bytes 8 offsets ++ (p.content ++ q.content);
    writes = and_prefix-WritesPrefix p.writes q.writes;
    encodes = λ hint.
        finished-Wrote (
          writing-Wrote _ q.content
            (writing-Wrote _ p.content
              (writing-Wrote (good (as_bytes 8 offsets)) (as_bytes 8 offsets) (new-Wrote hint) refl)
              (p.encodes _))
            (q.encodes _))
        ∙ ap (λ (t : List ℕ). good t) (append_assoc (as_bytes 8 offsets) p.content q.content);
    reads_prefix = read_prefix-Decodes p.reads_prefix q.reads_prefix;
    decodes =
        unfold column_length in
        decode-Decodes (sparse_codec_of fill type decode_dense) (length offsets)
          (decode_dense-Decodes offsets keys values p.content q.content h n p.decodes q.decodes);
  }

  -- More bytes do not change what the codec reads, where this holds of those of keys and values.
  pub map_codec-StableCodec : StableCodec key_codec → StableCodec val_codec → StableCodec map_codec
  unfolding map_codec read_prefix decode_dense
  map_codec-StableCodec s t = record {
    prefix = λ state.
        Stable-bind _ (s.prefix (child_state state 0)) (λ u. t.prefix (child_state state 1));
    column = decode-Stable (sparse_codec_of fill type decode_dense) (λ rows state.
        Stable-bind _ (read_offsets-Stable rows) (λ (offsets, total).
          Stable-bind _ (s.column total (child_state state 0)) (λ keys.
            Stable-bind _ (t.column total (child_state state 1)) (λ vals. Stable-return _))));
    kinds = read_kinds2-Stable key_codec.read_kinds val_codec.read_kinds s.kinds t.kinds;
  }
