-- ===== src/Native/Encode/Bytes.antt =====
-- The bytes that encodeNative makes of a batch.
use chwire.Prelude.{
  ℕ, suc, ◌+◌, ◌^◌, ◌<◌, ◌≡◌, refl, ap, ◌∙◌, List, [], ◌∷◌, ◌++◌, length, arith, append_assoc,
}
use chwire.Prelude.Result.{good}
use chwire.Io.Utf8.{Utf8}
use chwire.Io.VarInt.Encode.{leb128}
use chwire.Io.Writer.{BufferWriter, new, write_varint, write_string}
use chwire.Io.Writer.Contents.{IsValid, write_varint-Appends, finish-contents}
use chwire.Io.Writer.Text.{write_string-Appends}
use chwire.Io.Reader.Reads.{string_bytes}
use chwire.Native.Column.{Column, column_length}
use chwire.Native.Codec.{Codec, RoundTrips}
use chwire.Native.Codec.Parts.{
  finished, WritesPrefix, bind-WritesPrefix, nothing-WritesPrefix, writing-WritesPrefix,
}
use chwire.Native.Block.{ColumnDef}
use chwire.Native.Encode.{
  Encoder, validate_column_lengths, total_estimate, encode_data, encode_column, encode_columns,
  encode_native,
}

-- A name or a type that can stand in a block
abbrev pub IsName : Utf8 → List ℕ → Type 0
IsName u s = u.IsText s × (length s < 2 ^ 30)

-- The columns of a batch with `rows` rows, each with a codec under which it round-trips, and their
-- wire form.
pub data BatchRoundTrips (e : Encoder) (rows : ℕ)
    : List ColumnDef → List Column → List ℕ → Type 0 where
  no_columns : BatchRoundTrips e rows [] [] []
  column :
      (c : ColumnDef) (columns : List ColumnDef) (codec : Codec) (col : Column)
      (column_data : List Column) (bytes : List ℕ)
      → e.get_codec c.type ≡ good codec
      → IsName e.utf8 c.name
      → IsName e.utf8 c.type
      → column_length col ≡ rows
      → (p : RoundTrips codec col) → BatchRoundTrips e rows columns column_data bytes
      → BatchRoundTrips e rows (c ∷ columns) (col ∷ column_data) (
          (string_bytes e.utf8 c.name ++ (string_bytes e.utf8 c.type ++ (p.prefix ++ p.content)))
          ++ bytes)

encode_data-WritesPrefix :
    (rows : ℕ) (codec : Codec) (col : Column) (column_data : List Column) (p : RoundTrips codec col)
    → WritesPrefix (encode_data (suc rows) codec (col ∷ column_data)) (p.prefix ++ p.content)
unfolding encode_data
encode_data-WritesPrefix rows codec col column_data p =
    bind-WritesPrefix p.writes (writing-WritesPrefix _ p.content (p.encodes _))

new-IsValid : (size : ℕ) → IsValid (new size)
unfolding new
new-IsValid size = omega arith

module _ (e : Encoder) (rows : ℕ) where
  string-WritesPrefix :
      (s : List ℕ)
      → IsName e.utf8 s
      → WritesPrefix (λ (w : BufferWriter). good (write_string e.utf8 s w)) (string_bytes e.utf8 s)
  string-WritesPrefix s h w v =
      (write_string e.utf8 s w, refl, write_string-Appends e.utf8 s w v h.1)

  encode_column-WritesPrefix :
      (c : ColumnDef) (codec : Codec) (col : Column) (column_data : List Column)
      (p : RoundTrips codec col)
      → e.get_codec c.type ≡ good codec
      → IsName e.utf8 c.name
      → IsName e.utf8 c.type
      → WritesPrefix
          (encode_column e (suc rows) c (col ∷ column_data))
          (string_bytes e.utf8 c.name ++ (string_bytes e.utf8 c.type ++ (p.prefix ++ p.content)))
  unfolding encode_column
  encode_column-WritesPrefix c codec col column_data p g n t = rw g (
      bind-WritesPrefix (string-WritesPrefix c.name n) (
        bind-WritesPrefix (string-WritesPrefix c.type t)
          (encode_data-WritesPrefix rows codec col column_data p)))

  encode_columns-WritesPrefix :
      {columns : List ColumnDef} {column_data : List Column} {bytes : List ℕ}
      → BatchRoundTrips e (suc rows) columns column_data bytes
      → WritesPrefix (encode_columns e (suc rows) columns column_data) bytes
  unfolding encode_columns
  encode_columns-WritesPrefix no_columns = nothing-WritesPrefix
  encode_columns-WritesPrefix (column c columns codec col column_data bytes g n t l p more) =
      bind-WritesPrefix (encode_column-WritesPrefix c codec col column_data p g n t)
        (encode_columns-WritesPrefix more)

  validate_column_lengths-good :
      {columns : List ColumnDef} {column_data : List Column} {bytes : List ℕ}
      → BatchRoundTrips e (suc rows) columns column_data bytes
      → validate_column_lengths column_data (suc rows) ≡ good tt
  unfolding validate_column_lengths
  validate_column_lengths-good no_columns = refl
  validate_column_lengths-good (column c columns codec col column_data bytes g n t l p more) =
      ground (arith, l, validate_column_lengths-good more)

  total_estimate-good :
      {columns : List ColumnDef} {column_data : List Column} {bytes : List ℕ} (total : ℕ)
      → BatchRoundTrips e (suc rows) columns column_data bytes
      → (n : ℕ) × (total_estimate e (suc rows) columns total ≡ good n)
  unfolding total_estimate
  total_estimate-good total no_columns = (total, refl)
  total_estimate-good total (column c columns codec col column_data bytes g n t l p more) =
      let (m, q) =
        total_estimate-good
          (total + (length c.name + length c.type + 10) + codec.estimate_size (suc rows)) more in
      (m, rw (g, q))

  columns_finished :
      {columns : List ColumnDef} {column_data : List Column} {bytes : List ℕ} (capacity : ℕ)
      → BatchRoundTrips e (suc rows) columns column_data bytes
      → length columns < 2 ^ 32
      → suc rows < 2 ^ 32
      → finished (
          encode_columns e
            (suc rows)
            columns
            column_data
            (write_varint (suc rows) (write_varint (length columns) (new capacity))))
        ≡ good (leb128 (length columns) ++ (leb128 (suc rows) ++ bytes))
  unfolding finished new
  columns_finished {columns} {column_data} {bytes} capacity b n h =
      let x =
        write_varint-Appends (new capacity) (new-IsValid capacity) (length columns) (omega arith) in
      let w = write_varint (length columns) (new capacity) in
      let y = write_varint-Appends w x.valid (suc rows) (omega arith) in
      let (w', p, z) = encode_columns-WritesPrefix b (write_varint (suc rows) w) y.valid in
      rw p (
        ap (λ (t : List ℕ). good t)
          (finish-contents w'
            ∙ z.appended
            ∙ ap (λ (t : List ℕ). t ++ bytes)
                (y.appended ∙ ap (λ (t : List ℕ). t ++ leb128 (suc rows)) x.appended)
            ∙ append_assoc (leb128 (length columns)) (leb128 (suc rows)) bytes))

  -- A batch that has rows is encoded: the counts of columns and of rows, and the columns.
  pub encode_native-bytes :
      {columns : List ColumnDef} {column_data : List Column} {bytes : List ℕ}
      → BatchRoundTrips e (suc rows) columns column_data bytes
      → length columns < 2 ^ 32
      → suc rows < 2 ^ 32
      → encode_native e
          (record { columns = columns; column_data = column_data; row_count = suc rows })
        ≡ good (leb128 (length columns) ++ (leb128 (suc rows) ++ bytes))
  unfolding encode_native
  encode_native-bytes b n h =
      let (estimate, q) = total_estimate-good 10 b in
      rw (validate_column_lengths-good b, q) (columns_finished (e.capacity estimate) b n h)
