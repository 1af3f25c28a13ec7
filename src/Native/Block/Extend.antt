-- ===== src/Native/Block/Extend.antt =====
-- A block that is decoded, or refused for another reason than missing bytes, stays so where more
-- bytes follow.
use chwire.Prelude.{ℕ, zero, suc, ◌-◌, ◌≡◌, ◌≢◌, refl, ap, ◌∙◌, List, Option, none, some}
use chwire.Prelude.Result.{buffer_underflow, range_error, type_error, plain_error, good}
use chwire.Prelude.Outcome.{Outcome, ok, err, Final}
use chwire.Io.Reader.{BufferReader}
use chwire.Io.Reader.Stable.{extend, extend_outcome}
use chwire.Native.Column.{Column}
use chwire.Native.Codec.{Codec}
use chwire.Native.Sparse.Stable.{StableCodec}
use chwire.Native.Block.{
  ColumnDef, PartialBlockState, Decoded, decoded, block_underflow, failed, Decoder, header,
  read_column, after_column, column_loop, after_header, decode_native_block_with_reader,
}
use chwire.Native.Block.Header.{header-Stable}
use chwire.Native.Block.Resume.{fresh, read_column-Stable}

abbrev pub extend_decoded : List ℕ → Decoded → Decoded
extend_decoded more (decoded b r) = decoded b (extend more r)
extend_decoded more (block_underflow p r) = block_underflow p (extend more r)
extend_decoded more (failed e r) = failed e (extend more r)

-- All but an underflow
abbrev pub IsDecided : Decoded → Type 0
IsDecided (decoded b r) = Unit {0}
IsDecided (block_underflow p r) = buffer_underflow ≢ buffer_underflow
IsDecided (failed e r) = e ≢ buffer_underflow

module _ (d : Decoder)
    (codecs : (type : List ℕ) (c : Codec) → d.get_codec type ≡ good c → StableCodec c) where
  module _ (left : ℕ)
      (later : (p : PartialBlockState) (r : BufferReader) (more : List ℕ)
        → IsDecided (column_loop d left p r)
        → column_loop d left p (extend more r) ≡ extend_decoded more (column_loop d left p r)) where
    after_column-extend :
        (p : PartialBlockState) (more : List ℕ) (o : Outcome BufferReader (ColumnDef × Column))
        → IsDecided (after_column d (column_loop d left) p o)
        → after_column d (column_loop d left) p (extend_outcome more o)
          ≡ extend_decoded more (after_column d (column_loop d left) p o)
    unfolding after_column
    after_column-extend p more (ok (c, col) r) h = later _ r more h
    after_column-extend p more (err buffer_underflow r) h = absurd (h refl)
    after_column-extend p more (err range_error r) h = refl
    after_column-extend p more (err type_error r) h = refl
    after_column-extend p more (err plain_error r) h = refl

    after_column-Final :
        (p : PartialBlockState) (o : Outcome BufferReader (ColumnDef × Column))
        → IsDecided (after_column d (column_loop d left) p o)
        → Final o
    unfolding after_column
    after_column-Final p (ok (c, col) r) h = tt
    after_column-Final p (err buffer_underflow r) h = absurd (h refl)
    after_column-Final p (err range_error r) h = h
    after_column-Final p (err type_error r) h = h
    after_column-Final p (err plain_error r) h = h

  column_loop-extend :
      (left : ℕ) (p : PartialBlockState) (r : BufferReader) (more : List ℕ)
      → IsDecided (column_loop d left p r)
      → column_loop d left p (extend more r) ≡ extend_decoded more (column_loop d left p r)
  unfolding column_loop
  column_loop-extend zero p r more h = refl
  column_loop-extend (suc left) p r more h =
      let later = column_loop-extend left in
      ap (after_column d (column_loop d left) p) (
        (read_column-Stable d codecs p.num_rows).extends r more
          (after_column-Final left later p (read_column d p.num_rows r) h))
      ∙ after_column-extend left later p more (read_column d p.num_rows r) h

  after_header-extend :
      (start : ℕ) (more : List ℕ) (o : Outcome BufferReader (ℕ × ℕ))
      → IsDecided (after_header d start o)
      → after_header d start (extend_outcome more o) ≡ extend_decoded more (after_header d start o)
  unfolding after_header
  after_header-extend start more (ok (zero, zero) r) h = refl
  after_header-extend start more (ok (zero, suc rows) r) h =
      column_loop-extend zero (fresh start 0 (suc rows) r.offset) r more h
  after_header-extend start more (ok (suc cols, rows) r) h =
      column_loop-extend (suc cols) (fresh start (suc cols) rows r.offset) r more h
  after_header-extend start more (err e r) h = refl

  after_header-Final :
      (start : ℕ) (o : Outcome BufferReader (ℕ × ℕ)) → IsDecided (after_header d start o) → Final o
  unfolding after_header
  after_header-Final start (ok counts r) h = tt
  after_header-Final start (err e r) h = h

  -- Fresh or resumed, a block that is decoded or refused, but not for want of bytes, is decoded or
  -- refused in the same way where more bytes follow, and the reader then stands at the same offset,
  -- provided that more bytes change no read of a codec but one that runs out of them.
  pub decode_native_block_with_reader-extend :
      (partial : Option PartialBlockState) (r : BufferReader) (more : List ℕ)
      → IsDecided (decode_native_block_with_reader d partial r)
      → decode_native_block_with_reader d partial (extend more r)
        ≡ extend_decoded more (decode_native_block_with_reader d partial r)
  unfolding decode_native_block_with_reader
  decode_native_block_with_reader-extend none r more h =
      ap (after_header d r.offset) (
        (header-Stable d.client_version).extends r more
          (after_header-Final r.offset (header d.client_version r) h))
      ∙ after_header-extend r.offset more (header d.client_version r) h
  decode_native_block_with_reader-extend (some p) r more h =
      column_loop-extend (p.num_cols - p.next_col_index) p (record r { offset = p.resume_offset })
        more h
