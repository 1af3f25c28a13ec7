-- ===== src/Native/Encode/RoundTrip.antt =====
-- A batch that encodeNative wrote, the block decoder reads again.
use chwire.Prelude.{
  ℕ, zero, suc, ◌+◌, ◌-◌, ◌^◌, ◌<◌, ◌≡◌, refl, ap, ◌∙◌, sym, List, [], ◌∷◌, ◌++◌, length, drop,
  arith, append-nil, append_assoc, length-append, none, false,
}
use chwire.Prelude.Result.{good}
use chwire.Prelude.Outcome.{ok, return, ◌>>=◌}
use chwire.Io.VarInt.Encode.{leb128}
use chwire.Io.Reader.{BufferReader, read_varint}
use chwire.Io.Reader.Reads.{
  advance, string_bytes, read_string-Reads, read_varint-Reads, drop_advance,
}
use chwire.Io.Reader.Decodes.{
  Inside, advance-Inside, Decodes, Decodes-return, Decodes-bind, Decodes-of_eq, Reads-Decodes,
}
use chwire.Native.Serialization.{default_dense_node}
use chwire.Native.Column.{Column, column_length}
use chwire.Native.Codec.{Codec, RoundTrips}
use chwire.Native.Block.{
  ColumnDef, PartialBlockState, Decoded, decoded, Decoder, read_column, data_of, serialization,
  after_column, column_loop, header, block_info, after_header, decode_native_block_with_reader,
}
use chwire.Native.Encode.{Encoder, encode_native}
use chwire.Native.Encode.Bytes.{IsName, BatchRoundTrips, no_columns, column, encode_native-bytes}

-- The decoder with the codecs of an encoder, for a stream without block information
abbrev pub decoder_of : Encoder → Decoder
decoder_of e = record { utf8 = e.utf8; get_codec = e.get_codec; client_version = 0 }

data_of-Decodes :
    (type : List ℕ) (codec : Codec) (rows : ℕ) (col : Column) (p : RoundTrips codec col)
    → column_length col ≡ suc rows
    → Decodes (data_of type codec (suc rows) default_dense_node) (p.prefix ++ p.content) col
unfolding data_of
data_of-Decodes type codec rows col p l = Decodes-bind _ p.reads_prefix (rw l at p.decodes)

module _ (e : Encoder) (rows : ℕ) where
  read_column-Decodes :
      (c : ColumnDef) (codec : Codec) (col : Column) (p : RoundTrips codec col)
      → e.get_codec c.type ≡ good codec
      → IsName e.utf8 c.name
      → IsName e.utf8 c.type
      → column_length col ≡ suc rows
      → Decodes
          (read_column (decoder_of e) (suc rows))
          (string_bytes e.utf8 c.name ++ (string_bytes e.utf8 c.type ++ (p.prefix ++ p.content)))
          (c, col)
  unfolding read_column serialization
  read_column-Decodes c codec col p g n t l =
      Decodes-bind _ (Reads-Decodes (read_string-Reads e.utf8 c.name n.0 n.1)) (
        Decodes-bind _ (Reads-Decodes (read_string-Reads e.utf8 c.type t.0 t.1)) (
          rw g (
            Decodes-of_eq
              (Decodes-bind (λ (x : Column) (r : BufferReader). return (c, x) r)
                (data_of-Decodes c.type codec rows col p l) (Decodes-return (c, col)))
              (append-nil (p.prefix ++ p.content)))))

  -- The result of the loop over the columns
  abbrev whole : PartialBlockState → List ColumnDef → List Column → BufferReader → Decoded
  whole p columns column_data r =
      decoded
        (record {
          columns = p.columns ++ columns;
          column_data = p.column_data ++ column_data;
          row_count = p.num_rows;
          bytes_consumed = r.offset - p.start_offset;
          is_end_marker = false;
        })
        r

  column_loop-whole :
      {columns : List ColumnDef} {column_data : List Column} {bytes : List ℕ}
      → BatchRoundTrips e (suc rows) columns column_data bytes
      → (p : PartialBlockState) (r : BufferReader) (rest : List ℕ) → p.num_rows ≡ suc rows
      → Inside r
      → drop r.offset r.buffer ≡ bytes ++ rest
      → column_loop (decoder_of e) (length columns) p r
        ≡ whole p columns column_data (advance (length bytes) r)
  unfolding column_loop after_column
  column_loop-whole no_columns p r rest m i q =
      let z : r.offset + 0 ≡ r.offset = omega arith in
      rw (z, append-nil p.columns, append-nil p.column_data)
  column_loop-whole (column c columns codec col column_data bytes g n t l x more) p r rest m i q =
      let here : List ℕ =
        string_bytes e.utf8 c.name ++ (string_bytes e.utf8 c.type ++ (x.prefix ++ x.content)) in
      let q' : drop r.offset r.buffer ≡ here ++ (bytes ++ rest) =
        q ∙ append_assoc here bytes rest in
      let r' : BufferReader = advance (length here) r in
      let p' : PartialBlockState = record p {
        columns = p.columns ++ c ∷ [];
        column_data = p.column_data ++ col ∷ [];
        next_col_index = suc p.next_col_index;
        resume_offset = r'.offset;
      } in
      let s : r.offset + length here + length bytes ≡ r.offset + length (here ++ bytes) =
        omega (arith, length-append here bytes) in
      ap (after_column (decoder_of e) (column_loop (decoder_of e) (length columns)) p) (
        ap (λ (t : ℕ). read_column (decoder_of e) t r) m
        ∙ (read_column-Decodes c codec col x g n t l).at r (bytes ++ rest) i q')
      ∙ column_loop-whole more p' r' rest m (advance-Inside r here (bytes ++ rest) i q')
          (drop_advance r here (bytes ++ rest) q')
      ∙ rw (
        s,
        append_assoc p.columns (c ∷ []) columns,
        append_assoc p.column_data (col ∷ []) column_data,
      )

  header-Decodes :
      (count : ℕ)
      → count < 2 ^ 32
      → suc rows < 2 ^ 32
      → Decodes (header 0) (leb128 count ++ leb128 (suc rows)) (count, suc rows)
  unfolding header block_info
  header-Decodes count h l =
      Decodes-bind (λ (c : ℕ). read_varint >>= (λ (n : ℕ) (r : BufferReader). return (c, n) r))
        (Reads-Decodes (read_varint-Reads count h))
        (Decodes-of_eq
          (Decodes-bind (λ (n : ℕ) (r : BufferReader). return (count, n) r)
            (Reads-Decodes (read_varint-Reads (suc rows) l)) (Decodes-return (count, suc rows)))
          (append-nil (leb128 (suc rows))))

  -- The state at the first column of a fresh block
  abbrev first_state : ℕ → ℕ → BufferReader → PartialBlockState
  first_state start count r = record {
    columns = [];
    column_data = [];
    num_cols = count;
    num_rows = suc rows;
    next_col_index = 0;
    resume_offset = r.offset;
    start_offset = start;
  }

  after_header_rows :
      (start count : ℕ) (r : BufferReader)
      → after_header (decoder_of e) start (ok (count, suc rows) r)
        ≡ column_loop (decoder_of e) count (first_state start count r) r
  unfolding after_header
  after_header_rows start zero r = refl
  after_header_rows start (suc count) r = refl

  at_end :
      (r : BufferReader) (counts bytes : List ℕ) (columns : List ColumnDef)
      (column_data : List Column)
      → whole
          (first_state r.offset (length columns) (advance (length counts) r))
          columns
          column_data
          (advance (length bytes) (advance (length counts) r))
        ≡ decoded
            (record {
              columns = columns;
              column_data = column_data;
              row_count = suc rows;
              bytes_consumed = length (counts ++ bytes);
              is_end_marker = false;
            })
            (advance (length (counts ++ bytes)) r)
  at_end r counts bytes columns column_data =
      let s : r.offset + length counts + length bytes ≡ r.offset + length (counts ++ bytes) =
        omega (arith, length-append counts bytes) in
      let d : r.offset + length (counts ++ bytes) - r.offset ≡ length (counts ++ bytes) =
        omega arith in
      rw (s, d)

  -- A batch that has rows, fewer than 2 ^ 32 columns and rows, and whose columns have codecs under
  -- which they round-trip, is encoded, and where its bytes come next in the buffer of a reader, the
  -- decoder of a stream without block information reads exactly them, as a block with the columns,
  -- the data and the rows of the batch.
  pub encode_native-decode_native_block_with_reader :
      {columns : List ColumnDef} {column_data : List Column} {bytes : List ℕ}
      → BatchRoundTrips e (suc rows) columns column_data bytes
      → length columns < 2 ^ 32
      → suc rows < 2 ^ 32
      → (encoded : List ℕ) × (encode_native e
            (record { columns = columns; column_data = column_data; row_count = suc rows })
          ≡ good encoded)
        × ((r : BufferReader) (rest : List ℕ)
            → Inside r
            → drop r.offset r.buffer ≡ encoded ++ rest
            → decode_native_block_with_reader (decoder_of e) none r
              ≡ decoded
                  (record {
                    columns = columns;
                    column_data = column_data;
                    row_count = suc rows;
                    bytes_consumed = length encoded;
                    is_end_marker = false;
                  })
                  (advance (length encoded) r))
  unfolding decode_native_block_with_reader
  encode_native-decode_native_block_with_reader {columns} {column_data} {bytes} b n h =
      let counts : List ℕ = leb128 (length columns) ++ leb128 (suc rows) in
      let a : leb128 (length columns) ++ (leb128 (suc rows) ++ bytes) ≡ counts ++ bytes =
        sym (append_assoc (leb128 (length columns)) (leb128 (suc rows)) bytes) in
      (
        counts ++ bytes,
        encode_native-bytes e rows b n h ∙ ap (λ (t : List ℕ). good t) a,
        λ r rest i q.
            let q' : drop r.offset r.buffer ≡ counts ++ (bytes ++ rest) =
              q ∙ append_assoc counts bytes rest in
            let r' : BufferReader = advance (length counts) r in
            ap (after_header (decoder_of e) r.offset)
              ((header-Decodes (length columns) n h).at r (bytes ++ rest) i q')
            ∙ after_header_rows r.offset (length columns) r'
            ∙ column_loop-whole b (first_state r.offset (length columns) r') r' rest refl
                (advance-Inside r counts (bytes ++ rest) i q')
                (drop_advance r counts (bytes ++ rest) q')
            ∙ at_end r counts bytes columns column_data,
      )
