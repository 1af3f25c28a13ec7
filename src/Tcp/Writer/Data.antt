-- ===== src/Tcp/Writer/Data.antt =====
-- The data packet of the StreamingWriter.
use chwire.Prelude.{
  ℕ, ◌≡◌, refl, ap, sym, ◌∙◌, List, [], ◌∷◌, ◌++◌, length, none, some, All, arith, append-nil,
}
use chwire.Prelude.Int.{negsuc}
use chwire.Prelude.Result.{Result, good}
use chwire.Prelude.Outcome.{ok}
use chwire.Io.Utf8.{Utf8}
use chwire.Io.Writer.{
  BufferWriter, new, write, write_u8, write_i32_le, write_varint, write_string, default_writer,
}
use chwire.Io.Writer.Contents.{IsValid, contents, Appends, finish-contents, write-Appends}
use chwire.Tcp.ClientPacketId
use chwire.Tcp.With
use chwire.Tcp.Writer.{
  ◌⨟◌, skip, since, flush, EncodedColumn, columns_writes, block_writes, encode_data_block_content,
  behind_header, encode_data,
}
use chwire.Tcp.Writer.Fields.{
  Field, varint, text, byte, int32, wire, Fits, Emits, Emits-varint, Emits-text, Emits-byte,
  Emits-int32, Emits-skip, Emits-since, then_Appends,
}
use chwire.Tcp.Writer.Packets.{IsEmpty, since_fields, flushed, flush-IsEmpty}

module _ (u : Utf8) where
  abbrev pub column_fields : ℕ → EncodedColumn → List Field
  column_fields revision col =
      text col.name
      ∷ text col.type
      ∷ (since_fields With.custom_serialization revision (byte 0 ∷ []) ++ [])

  -- A column: its name, its type, the flag of a custom serialization, and its bytes as they are.
  abbrev pub columns_wire : ℕ → List EncodedColumn → List ℕ
  columns_wire revision [] = []
  columns_wire revision (col ∷ columns) =
      wire u (column_fields revision col) ++ (col.bytes ++ columns_wire revision columns)

  abbrev pub ColumnFits : ℕ → EncodedColumn → Type 0
  ColumnFits revision col = All (Fits u) (column_fields revision col)

  column_head : ℕ → EncodedColumn → BufferWriter → BufferWriter
  column_head revision col =
      write_string u col.name
      ⨟ write_string u col.type
      ⨟ since With.custom_serialization revision (write_u8 0 ⨟ skip)
      ⨟ skip

  column-Emits :
      (revision : ℕ) (col : EncodedColumn)
      → Emits u (column_head revision col) (column_fields revision col)
  unfolding column_head
  column-Emits revision col = search (Emits-since, Emits-byte, Emits-text, Emits-skip) depth 20

  columns-Appends :
      (revision : ℕ) (columns : List EncodedColumn) (w : BufferWriter)
      → IsValid w
      → All (ColumnFits revision) columns
      → Appends w (columns_wire revision columns) (columns_writes u revision columns w)
  unfolding columns_writes column_head
  columns-Appends revision [] w v h = record { valid = v; appended = sym (append-nil (contents w)) }
  columns-Appends revision (col ∷ columns) w v (h, hs) =
      let a = (column-Emits revision col).at w v h in
      let w1 : BufferWriter = column_head revision col w in
      let b = write-Appends col.bytes w1 a.valid in
      then_Appends u a
        (then_Appends u b (columns-Appends revision columns (write col.bytes w1) b.valid hs))

  abbrev pub block_fields : ℕ → ℕ → ℕ → List Field
  block_fields count rows_count revision =
      since_fields 1 revision (varint 1 ∷ byte 0 ∷ varint 2 ∷ int32 (negsuc 0) ∷ varint 0 ∷ [])
      ++ (varint count ∷ varint rows_count ∷ [])

  block_head : ℕ → ℕ → ℕ → BufferWriter → BufferWriter
  block_head count rows_count revision =
      since 1 revision (
        write_varint 1
        ⨟ write_u8 0
        ⨟ write_varint 2
        ⨟ write_i32_le (negsuc 0)
        ⨟ write_varint 0
        ⨟ skip)
      ⨟ write_varint count
      ⨟ write_varint rows_count
      ⨟ skip

  block-Emits :
      (count rows_count revision : ℕ)
      → Emits u (block_head count rows_count revision) (block_fields count rows_count revision)
  unfolding block_head
  block-Emits count rows_count revision =
      search (Emits-since, Emits-varint, Emits-byte, Emits-int32, Emits-skip) depth 30

  -- The content of a block: block info where the revision has it, the counts of columns and rows, and
  -- the columns.
  abbrev pub content_wire : ℕ → List EncodedColumn → ℕ → List ℕ
  content_wire rows_count columns revision =
      wire u (block_fields (length columns) rows_count revision) ++ columns_wire revision columns

  new-IsEmpty : (n : ℕ) → IsEmpty (new n)
  unfolding new
  new-IsEmpty n = record { valid = omega arith; nothing = refl }

  content-wire :
      (rows_count : ℕ) (columns : List EncodedColumn) (revision : ℕ)
      → All (Fits u) (block_fields (length columns) rows_count revision)
      → All (ColumnFits revision) columns
      → encode_data_block_content u rows_count columns revision
        ≡ content_wire rows_count columns revision
  unfolding encode_data_block_content block_writes block_head
  content-wire rows_count columns revision hb hc =
      let empty = new-IsEmpty default_writer in
      let a =
        (block-Emits (length columns) rows_count revision).at (new default_writer) empty.valid hb in
      let w1 : BufferWriter =
        block_head (length columns) rows_count revision (new default_writer) in
      let b = columns-Appends revision columns w1 a.valid hc in
      let c = then_Appends u a b in
      finish-contents (columns_writes u revision columns w1)
      ∙ c.appended
      ∙ ap (λ (t : List ℕ). t ++ content_wire rows_count columns revision) empty.nothing

  abbrev pub data_header : List ℕ → List Field
  data_header table_name = varint ClientPacketId.block ∷ text table_name ∷ []

  header-Emits :
      (table_name : List ℕ)
      → Emits u
          (write_varint ClientPacketId.block ⨟ write_string u table_name)
          (data_header table_name)
  header-Emits table_name =
      Emits-varint u ClientPacketId.block (Emits-text u table_name (Emits-skip u))

  module _ (table_name : List ℕ) (rows_count : ℕ) (columns : List EncodedColumn) (revision : ℕ)
      (w : BufferWriter) (ht : All (Fits u) (data_header table_name))
      (hb : All (Fits u) (block_fields (length columns) rows_count revision))
      (hc : All (ColumnFits revision) columns) where
    -- Where every field fits its width, `encodeData` without compression sends the header, the
    -- block info, the counts and the columns, each with its bytes as they are, and leaves the
    -- writer alone.
    pub encode_data-wire :
        encode_data u table_name rows_count columns revision none w
        ≡ ok (wire u (data_header table_name) ++ content_wire rows_count columns revision) w
    unfolding encode_data
    encode_data-wire = rw (
      flushed u (new 64) (header-Emits table_name) (new-IsEmpty 64) ht,
      content-wire rows_count columns revision hb hc,
    )

    -- Where every field fits its width, on a writer that holds nothing, and where the content can
    -- be compressed, `encodeData` sends the header uncompressed in front of the compressed content
    -- and leaves the writer empty.
    pub encode_data-compressed :
        (encode : List ℕ → Result (List ℕ)) (compressed : List ℕ)
        → IsEmpty w
        → encode (content_wire rows_count columns revision) ≡ good compressed
        → (w' : BufferWriter) × (encode_data u table_name rows_count columns revision
              (some encode)
              w
            ≡ ok (wire u (data_header table_name) ++ compressed) w')
          × IsEmpty w'
    unfolding encode_data behind_header flush
    encode_data-compressed encode compressed h e =
        let f : BufferWriter → BufferWriter =
          write_varint ClientPacketId.block ⨟ write_string u table_name in
        (
          (flush (f w)).1,
          ap (λ (c : List ℕ). behind_header u (flush (f w)) (encode c))
                (content-wire rows_count columns revision hb hc)
              ∙ ap (behind_header u (flush (f w))) e
              ∙ ap (λ (t : List ℕ). ok (t ++ compressed) (flush (f w)).1)
                  (flushed u w (header-Emits table_name) h ht),
          flush-IsEmpty (f w),
        )
