-- ===== src/Native/Codec/Offsets.antt =====
-- native/codecs/composite.ts, readOffsets: the offsets of an array or a map column.
use chwire.Prelude.{ℕ, ◌≡◌, ◌≤◌, List, length, le→ltb_false}
use chwire.Prelude.Outcome.{Exec, return, lift, ◌>>=◌, ◌>>◌}
use chwire.Io.Reader.{BufferReader, read_typed_array}
use chwire.Io.Reader.Decodes.{Decodes, as_bytes, FitWords, read_typed_array-Decodes}
use chwire.Io.Reader.Stable.{
  Stable, Stable-return, Stable-lift, Stable-bind, read_typed_array-Stable,
}
use chwire.Native.Column.{last, max_safe_index, assert_offsets_fit}

-- The offsets, and the total count of the elements
unfoldable pub read_offsets : ℕ → Exec BufferReader (List ℕ × ℕ)
unfolding assert_offsets_fit
read_offsets rows = do
  offsets ← read_typed_array 8 rows
  lift (assert_offsets_fit offsets)
  return (offsets, last offsets)

pub record AreOffsets (offsets : List ℕ) (total : ℕ) : Type 0 where
  pub words : FitWords 8 offsets
  pub ends : last offsets ≡ total
  pub safe : total ≤ max_safe_index

pub read_offsets-Decodes :
    (offsets : List ℕ) (total : ℕ)
    → AreOffsets offsets total
    → Decodes (read_offsets (length offsets)) (as_bytes 8 offsets) (offsets, total)
unfolding read_offsets
read_offsets-Decodes offsets total h = record {
  at = λ r rest i e.
      rw ((read_typed_array-Decodes 8 offsets h.words).at r rest i e, h.ends)
        (rw (le→ltb_false max_safe_index total h.safe));
}

pub read_offsets-Stable : (rows : ℕ) → Stable (read_offsets rows)
unfolding read_offsets
read_offsets-Stable rows = Stable-bind _ (read_typed_array-Stable 8 rows) (λ offsets.
    Stable-bind _ (Stable-lift (assert_offsets_fit offsets))
      (λ t. Stable-return (offsets, last offsets)))
