-- ===== src/Native/Block/Resume.antt =====
-- A block that breaks off and is resumed with more bytes is the block that is decoded afresh with
-- more bytes.
use chwire.Prelude.{
  ℕ, zero, suc, ◌+◌, ◌-◌, ◌≡◌, refl, ap, ◌∙◌, sym, leb, List, [], ◌∷◌, length, take, arith,
  take_all, length-append, Option, none, some, Bool-cases, inl, inr,
}
use chwire.Prelude.Result.{buffer_underflow, range_error, type_error, plain_error, good}
use chwire.Prelude.Outcome.{Outcome, ok, err, Final}
use chwire.Io.Reader.{BufferReader}
use chwire.Io.Reader.Stable.{
  extend, extend_outcome, Stable, Stable-return, Stable-lift_bind, Stable-bind, read_string-Stable,
  read_u8-Stable,
}
use chwire.Native.Serialization.{SerializationNode}
use chwire.Native.Column.{Column}
use chwire.Native.Codec.{Codec}
use chwire.Native.Sparse.Stable.{StableCodec}
use chwire.Native.Block.Header.{header-Stable}
use chwire.Native.Block.{
  ColumnDef, PartialBlockState, Decoded, block_underflow, Decoder, header, kinds_after,
  serialization, data_of, read_column, after_column, column_loop, after_header,
  decode_native_block_with_reader,
}

-- The state at the start of the columns of a fresh block
abbrev pub fresh : ℕ → ℕ → ℕ → ℕ → PartialBlockState
fresh start num_cols num_rows offset = record {
  columns = [];
  column_data = [];
  num_cols = num_cols;
  num_rows = num_rows;
  next_col_index = 0;
  resume_offset = offset;
  start_offset = start;
}

module _ (d : Decoder)
    (codecs : (type : List ℕ) (c : Codec) → d.get_codec type ≡ good c → StableCodec c) where
  kinds-Stable : (c : Codec) → StableCodec c → Stable (serialization d.client_version c)
  unfolding serialization
  kinds-Stable c s = elim (Bool-cases (leb 54454 d.client_version)) [
    | inl new ↦ rw new (Stable-bind (kinds_after c) read_u8-Stable (λ n. flag_Stable n))
    | inr old ↦ rw old (Stable-return _)
  ]
    where
      flag_Stable : (n : ℕ) → Stable (kinds_after c n)
      flag_Stable zero = Stable-return _
      flag_Stable (suc n) = s.kinds

  data_of-Stable :
      (type : List ℕ) (c : Codec) (rows : ℕ) (kinds : SerializationNode)
      → StableCodec c
      → Stable (data_of type c rows kinds)
  unfolding data_of
  data_of-Stable type c zero kinds s = Stable-return _
  data_of-Stable type c (suc rows) kinds s = Stable-bind _ (s.prefix _) (λ t. s.column (suc rows) _)

  pub read_column-Stable : (rows : ℕ) → Stable (read_column d rows)
  unfolding read_column
  read_column-Stable rows = Stable-bind _ (read_string-Stable d.utf8) (λ name.
      Stable-bind _ (read_string-Stable d.utf8) (λ type.
        Stable-lift_bind (d.get_codec type) _ (λ c e.
          Stable-bind _ (kinds-Stable c (codecs type c e)) (λ kinds.
            Stable-bind _ (data_of-Stable type c rows kinds (codecs type c e))
              (λ col. Stable-return _)))))

  -- The partial state at the start of a column, with so many columns left
  pub record IsPartial (p : PartialBlockState) (left : ℕ) : Type 0 where
    pub parsed : length p.columns ≡ p.next_col_index
    pub parsed_data : length p.column_data ≡ p.next_col_index
    pub left_over : p.next_col_index + left ≡ p.num_cols

  -- `again` broke off with the partial state `q`, which is well-formed; from there, with more bytes,
  -- decoding goes on as `again` does with these bytes.
  pub record Resumes (again : BufferReader → Decoded) (r : BufferReader) (q : PartialBlockState)
      (r' : BufferReader) : Type 0 where
    pub left : ℕ
    pub partial : IsPartial q left
    pub kept : r'.buffer ≡ r.buffer
    pub same :
        (more : List ℕ)
        → decode_native_block_with_reader d (some q) (extend more r') ≡ again (extend more r)

  same_reader :
      (r r' : BufferReader) (more : List ℕ) (offset : ℕ)
      → r'.buffer ≡ r.buffer
      → r.offset ≡ offset
      → record (extend more (record r' { offset = offset })) { offset = offset } ≡ extend more r
  same_reader r r' more offset b o = rw (b, o)

  -- What an underflow leaves to do
  resumed :
      (p : PartialBlockState) (left : ℕ) (r r1 r' : BufferReader) (q : PartialBlockState)
      (next : PartialBlockState → BufferReader → Decoded)
      → IsPartial p left
      → r.offset ≡ p.resume_offset
      → r1.buffer ≡ r.buffer
      → after_column d next p (err buffer_underflow r1) ≡ block_underflow q r'
      → Resumes (column_loop d left p) r q r'
  unfolding after_column decode_native_block_with_reader
  resumed p left r r1 r' q next h o b e =
      let s : record p {
        columns = take p.next_col_index p.columns;
        column_data = take p.next_col_index p.column_data;
      }
          ≡ p =
        rw (
          take_all p.next_col_index p.columns (omega (arith, h.parsed)),
          take_all p.next_col_index p.column_data (omega (arith, h.parsed_data)),
        ) in
      let eq : q ≡ p = sym (cc e) ∙ s in
      let er : r' ≡ record r1 { offset = p.resume_offset } = cc e in
      let n : p.num_cols - p.next_col_index ≡ left = omega (arith, h.left_over) in
      record {
        left = left;
        partial = rw eq h;
        kept = rw er b;
        same = λ more.
            rw (eq, er, n) (ap (column_loop d left p) (same_reader r r1 more p.resume_offset b o));
      }

  column_step :
      (left : ℕ) (r' : BufferReader) (q : PartialBlockState)
      (later : (p : PartialBlockState) (r : BufferReader)
        → IsPartial p left
        → r.offset ≡ p.resume_offset
        → column_loop d left p r ≡ block_underflow q r'
        → Resumes (column_loop d left p) r q r')
      (p : PartialBlockState) (r : BufferReader)
      → IsPartial p (suc left)
      → r.offset ≡ p.resume_offset
      → (o : Outcome BufferReader (ColumnDef × Column)) → read_column d p.num_rows r ≡ o
      → after_column d (column_loop d left) p o ≡ block_underflow q r'
      → Resumes (column_loop d (suc left) p) r q r'
  unfolding column_loop after_column
  column_step left r' q later p r h here (ok (c, col) r1) m e =
      let i =
        later _ r1
          (record {
            parsed = omega (arith, h.parsed, length-append p.columns (c ∷ []));
            parsed_data = omega (arith, h.parsed_data, length-append p.column_data (col ∷ []));
            left_over = omega (arith, h.left_over);
          })
          refl e in
      record {
        left = i.left;
        partial = i.partial;
        kept = i.kept ∙ (rw m at ((read_column-Stable p.num_rows).keeps r));
        same = λ more.
            let x : read_column d p.num_rows (extend more r) ≡ ok (c, col) (extend more r1) =
              (read_column-Stable p.num_rows).extends r more (rw (Final, m) tt)
              ∙ ap (extend_outcome more) m in
            i.same more ∙ sym (ap (after_column d (column_loop d left) p) x);
      }
  column_step left r' q later p r h here (err buffer_underflow r1) m e =
      resumed p (suc left) r r1 r' q (column_loop d left) h here
        (rw m at ((read_column-Stable p.num_rows).keeps r)) e
  column_step left r' q later p r h here (err range_error r1) m e = absurd (cc e)
  column_step left r' q later p r h here (err type_error r1) m e = absurd (cc e)
  column_step left r' q later p r h here (err plain_error r1) m e = absurd (cc e)

  column_loop-Resumes :
      (left : ℕ) (r' : BufferReader) (q : PartialBlockState) (p : PartialBlockState)
      (r : BufferReader)
      → IsPartial p left
      → r.offset ≡ p.resume_offset
      → column_loop d left p r ≡ block_underflow q r'
      → Resumes (column_loop d left p) r q r'
  unfolding column_loop
  column_loop-Resumes zero r' q p r h here e = absurd (cc e)
  column_loop-Resumes (suc left) r' q p r h here e =
      column_step left r' q (column_loop-Resumes left r' q) p r h here (read_column d p.num_rows r)
        refl e

  of_columns :
      (r r' s : BufferReader) (q : PartialBlockState) (num_cols num_rows : ℕ)
      → header d.client_version r ≡ ok (num_cols, num_rows) s
      → ((t : BufferReader)
          → after_header d r.offset (ok (num_cols, num_rows) t)
            ≡ column_loop d num_cols (fresh r.offset num_cols num_rows t.offset) t)
      → column_loop d num_cols (fresh r.offset num_cols num_rows s.offset) s ≡ block_underflow q r'
      → Resumes (decode_native_block_with_reader d none) r q r'
  unfolding decode_native_block_with_reader
  of_columns r r' s q num_cols num_rows m a h =
      let i =
        column_loop-Resumes num_cols r' q (fresh r.offset num_cols num_rows s.offset) s
          (record { parsed = refl; parsed_data = refl; left_over = omega arith }) refl h in
      let st = header-Stable d.client_version in
      record {
        left = i.left;
        partial = i.partial;
        kept = i.kept ∙ (rw m at (st.keeps r));
        same = λ more.
            let x : header d.client_version (extend more r)
                ≡ ok (num_cols, num_rows) (extend more s) =
              st.extends r more (rw (Final, m) tt) ∙ ap (extend_outcome more) m in
            i.same more ∙ sym (ap (after_header d r.offset) x ∙ a (extend more s));
      }

  after_header-Resumes :
      (r r' : BufferReader) (q : PartialBlockState) (o : Outcome BufferReader (ℕ × ℕ))
      → header d.client_version r ≡ o
      → after_header d r.offset o ≡ block_underflow q r'
      → Resumes (decode_native_block_with_reader d none) r q r'
  unfolding after_header decode_native_block_with_reader
  after_header-Resumes r r' q (err e s) m h = absurd (cc h)
  after_header-Resumes r r' q (ok (zero, zero) s) m h = absurd (cc h)
  after_header-Resumes r r' q (ok (zero, suc rows) s) m h =
      of_columns r r' s q zero (suc rows) m (λ t. refl) h
  after_header-Resumes r r' q (ok (suc cols, rows) s) m h =
      of_columns r r' s q (suc cols) rows m (λ t. refl) h

  partial-Resumes :
      (p : PartialBlockState) (left : ℕ) (r r' : BufferReader) (q : PartialBlockState)
      → IsPartial p left
      → decode_native_block_with_reader d (some p) r ≡ block_underflow q r'
      → Resumes (decode_native_block_with_reader d (some p)) r q r'
  unfolding decode_native_block_with_reader
  partial-Resumes p left r r' q h e =
      let n : p.num_cols - p.next_col_index ≡ left = omega (arith, h.left_over) in
      let i =
        column_loop-Resumes left r' q p (record r { offset = p.resume_offset }) h refl
          (rw n at e) in
      record {
        left = i.left;
        partial = i.partial;
        kept = i.kept;
        same = λ more. rw n (i.same more);
      }

  -- A partial state is one that decoding can be resumed from: none at all, or one as above.
  abbrev pub IsResumable : Option PartialBlockState → Type 0
  IsResumable none = Unit {0}
  IsResumable (some p) = (left : ℕ) × IsPartial p left

  -- A block that breaks off, whether it was begun afresh or from a well-formed partial state, leaves
  -- a well-formed partial state and the reader's buffer; decoding from there with more bytes gives
  -- what the same call gives with these bytes in the buffer from the start, provided that more bytes
  -- change no read of a codec but one that runs out of them.
  pub decode_native_block_with_reader-Resumes :
      (partial : Option PartialBlockState) (r r' : BufferReader) (q : PartialBlockState)
      → IsResumable partial
      → decode_native_block_with_reader d partial r ≡ block_underflow q r'
      → Resumes (decode_native_block_with_reader d partial) r q r'
  decode_native_block_with_reader-Resumes none r r' q h e =
      unfold decode_native_block_with_reader in
      after_header-Resumes r r' q (header d.client_version r) refl e
  decode_native_block_with_reader-Resumes (some p) r r' q (left, h) e =
      partial-Resumes p left r r' q h e
