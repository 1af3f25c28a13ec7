-- ===== src/Native/Codecs/Tuple.antt =====
-- native/codecs/composite.ts, class TupleCodec. A column of another class, or with too few columns,
-- which the casts of the source let through, is a TypeError.
use chwire.Prelude.{ℕ, suc, ◌+◌, ◌≡◌, List, [], ◌∷◌, ◌++◌, append-nil, append_assoc, Bool, Option}
use chwire.Prelude.Result.{Result, good, bad, type_error}
use chwire.Prelude.Outcome.{Exec, return, ◌>>=◌, ◌>>◌}
use chwire.Io.Writer.{BufferWriter, new}
use chwire.Io.Reader.{BufferReader}
use chwire.Io.Reader.Decodes.{Decodes, Decodes-return, Decodes-bind, Decodes-of_eq}
use chwire.Native.Serialization.{
  DeserializerState, SerializationNode, default_deserializer_state, child_state, read_kinds_many,
}
use chwire.Native.Column.{Column, Columns, nil, cons, tuple, column_length, first_length}
use chwire.Native.Codec.{Codec, RoundTrips}
use chwire.Native.Codec.Parts.{
  Fill, sparse_codec_of, writing, finished, Wrote, new-Wrote, writing-Wrote, finished-Wrote,
  and_prefix, WritesPrefix, and_prefix-WritesPrefix, nothing-WritesPrefix,
}
use chwire.Native.Sparse.{decode, decode-Decodes}

pub record Element : Type 0 where
  pub name : Option (List ℕ)
  pub codec : Codec

-- The loops over the elements, from the one at index `i` on
write_prefix_loop : List Element → Columns → BufferWriter → Result BufferWriter
write_prefix_loop [] columns w = good w
write_prefix_loop (e ∷ elements) nil w = bad type_error
write_prefix_loop (e ∷ elements) (cons col columns) w =
    and_prefix (e.codec.write_prefix col w) (write_prefix_loop elements columns)

read_prefix_loop : List Element → ℕ → DeserializerState → Exec BufferReader (Unit {0})
read_prefix_loop [] i state = return tt
read_prefix_loop (e ∷ elements) i state = do
  e.codec.read_prefix (child_state state i)
  read_prefix_loop elements (suc i) state

encode_loop : List Element → Columns → Result BufferWriter → Result BufferWriter
encode_loop [] columns w = w
encode_loop (e ∷ elements) nil w = bad type_error
encode_loop (e ∷ elements) (cons col columns) w =
    encode_loop elements columns
      (writing w (e.codec.encode col (e.codec.estimate_size (column_length col))))

decode_loop : List Element → ℕ → ℕ → DeserializerState → Exec BufferReader Columns
decode_loop [] i rows state = return nil
decode_loop (e ∷ elements) i rows state = do
  col ← e.codec.decode rows (child_state state i)
  columns ← decode_loop elements (suc i) rows state
  return (cons col columns)

estimate_sum : List Element → ℕ → ℕ
estimate_sum [] rows = 0
estimate_sum (e ∷ elements) rows = e.codec.estimate_size rows + estimate_sum elements rows

kinds_of : List Element → List (Exec BufferReader SerializationNode)
kinds_of [] = []
kinds_of (e ∷ elements) = e.codec.read_kinds ∷ kinds_of elements

pub names_of : List Element → List (Option (List ℕ))
names_of [] = []
names_of (e ∷ elements) = e.name ∷ names_of elements

-- The columns of a tuple round-trip, each by its codec, and have `rows` rows.
pub data ElementsRoundTrip (rows : ℕ) : List Element → Columns → Type 0 where
  no_elements : ElementsRoundTrip rows [] nil
  element :
      (e : Element) (elements : List Element) (col : Column) (columns : Columns)
      → column_length col ≡ rows
      → RoundTrips e.codec col
      → ElementsRoundTrip rows elements columns
      → ElementsRoundTrip rows (e ∷ elements) (cons col columns)

module _ {rows : ℕ} where
  prefixes :
      {elements : List Element} {columns : Columns}
      → ElementsRoundTrip rows elements columns
      → List ℕ
  prefixes no_elements = []
  prefixes (element e elements col columns n p t) = p.prefix ++ prefixes t

  contents_of :
      {elements : List Element} {columns : Columns}
      → ElementsRoundTrip rows elements columns
      → List ℕ
  contents_of no_elements = []
  contents_of (element e elements col columns n p t) = p.content ++ contents_of t

  write_prefix_loop-WritesPrefix :
      (elements : List Element) (columns : Columns) (t : ElementsRoundTrip rows elements columns)
      → WritesPrefix (write_prefix_loop elements columns) (prefixes t)
  unfolding write_prefix_loop prefixes
  write_prefix_loop-WritesPrefix _ _ no_elements = nothing-WritesPrefix
  write_prefix_loop-WritesPrefix _ _ (element e elements col columns n p t) =
      and_prefix-WritesPrefix p.writes (write_prefix_loop-WritesPrefix elements columns t)

  read_prefix_loop-Decodes :
      (elements : List Element) (columns : Columns) (t : ElementsRoundTrip rows elements columns)
      (i : ℕ)
      → Decodes (read_prefix_loop elements i default_deserializer_state) (prefixes t) tt
  unfolding read_prefix_loop prefixes child_state
  read_prefix_loop-Decodes _ _ no_elements i = Decodes-return tt
  read_prefix_loop-Decodes _ _ (element e elements col columns n p t) i =
      Decodes-bind _ p.reads_prefix (read_prefix_loop-Decodes elements columns t (suc i))

  encode_loop-Wrote :
      (elements : List Element) (columns : Columns) (t : ElementsRoundTrip rows elements columns)
      (w : Result BufferWriter) (bytes : List ℕ)
      → Wrote w bytes
      → Wrote (encode_loop elements columns w) (bytes ++ contents_of t)
  unfolding encode_loop contents_of
  encode_loop-Wrote _ _ no_elements w bytes h = rw (append-nil bytes) h
  encode_loop-Wrote _ _ (element e elements col columns n p t) w bytes h =
      rw (← append_assoc bytes p.content (contents_of t)) (
        encode_loop-Wrote elements columns t
          (writing w (e.codec.encode col (e.codec.estimate_size (column_length col))))
          (bytes ++ p.content) (writing-Wrote _ p.content h (p.encodes _)))

  decode_loop-Decodes :
      (elements : List Element) (columns : Columns) (t : ElementsRoundTrip rows elements columns)
      (i : ℕ)
      → Decodes (decode_loop elements i rows default_deserializer_state) (contents_of t) columns
  unfolding decode_loop contents_of child_state
  decode_loop-Decodes _ _ no_elements i = Decodes-return nil
  decode_loop-Decodes _ _ (element e elements col columns n p t) i =
      Decodes-of_eq
        (Decodes-bind _ (rw n at p.decodes) (
          Decodes-bind (λ (cs : Columns) (r : BufferReader). return (cons col cs) r)
            (decode_loop-Decodes elements columns t (suc i)) (Decodes-return (cons col columns))))
        (rw (append-nil (contents_of t)))

module _ (fill : Fill) (type : List ℕ) (elements : List Element) (is_named : Bool) where
  write_prefix : Column → BufferWriter → Result BufferWriter
  unfolding write_prefix_loop
  write_prefix (tuple t names columns named) w = write_prefix_loop elements columns w
  write_prefix col w = bad type_error

  encode : Column → ℕ → Result (List ℕ)
  unfolding encode_loop
  encode (tuple t names columns named) hint =
      finished (encode_loop elements columns (good (new hint)))
  encode col hint = bad type_error

  decode_dense : ℕ → DeserializerState → Exec BufferReader Column
  unfolding decode_loop names_of
  decode_dense rows state = do
    columns ← decode_loop elements 0 rows state
    return (tuple type (names_of elements) columns is_named)

  unfoldable pub tuple_codec : Codec
  unfolding write_prefix encode decode_dense read_prefix_loop estimate_sum kinds_of
  tuple_codec = record {
    write_prefix = write_prefix;
    encode = encode;
    estimate_size = estimate_sum elements;
    read_prefix = read_prefix_loop elements 0;
    decode = decode (sparse_codec_of fill type decode_dense);
    read_kinds = read_kinds_many (kinds_of elements);
  }

  decode_dense-Decodes :
      (cols : Columns) (t : ElementsRoundTrip (first_length cols) elements cols)
      → Decodes
          (decode_dense (first_length cols) default_deserializer_state)
          (contents_of t)
          (tuple type (names_of elements) cols is_named)
  unfolding decode_dense
  decode_dense-Decodes cols t =
      Decodes-of_eq
        (Decodes-bind
          (λ (cs : Columns) (r : BufferReader).
            return (tuple type (names_of elements) cs is_named) r)
          (decode_loop-Decodes elements cols t 0)
          (Decodes-return (tuple type (names_of elements) cols is_named)))
        (append-nil (contents_of t))

  -- A tuple column round-trips where its columns do.
  pub tuple_codec-RoundTrips :
      (columns : Columns)
      → ElementsRoundTrip (first_length columns) elements columns
      → RoundTrips tuple_codec (tuple type (names_of elements) columns is_named)
  unfolding tuple_codec
  tuple_codec-RoundTrips columns t = record {
    prefix = prefixes t;
    content = contents_of t;
    writes = write_prefix_loop-WritesPrefix elements columns t;
    encodes = λ hint. finished-Wrote (encode_loop-Wrote elements columns t _ [] (new-Wrote hint));
    reads_prefix = read_prefix_loop-Decodes elements columns t 0;
    decodes =
        unfold column_length in
        decode-Decodes (sparse_codec_of fill type decode_dense) (first_length columns)
          (decode_dense-Decodes columns t);
  }
