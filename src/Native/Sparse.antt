-- ===== src/Native/Sparse.antt =====
-- native/codecs/base.ts: readSparse. The loop over the offsets moves a record of its variables.
-- `Number(offsetValue)` is exact here; in the source it is so below 2 ^ 53.
pub mod Bounds
pub mod Expand
pub mod Stable
use chwire.Prelude.{
  ℕ, zero, suc, ◌+◌, ◌-◌, ◌≡◌, refl, ◌/◌, ◌%◌, ◌^◌, ltb, leb, ◌==◌, if◌then◌else◌, List, [], ◌∷◌,
  ◌++◌, length, set, replicate, Bool, true, false, not, ◌&&◌,
}
use chwire.Prelude.Result.{Result, good, bad}
use chwire.Prelude.Outcome.{Outcome, ok, err, Exec, return, ◌>>=◌, ◌>>◌, continue, lift}
use chwire.Io.Reader.{BufferReader, read_varint64}
use chwire.Io.Reader.Decodes.{Decodes}
use chwire.Native.Serialization.{
  SerializationNode, DeserializerState, default_deserializer_state, kind, sparse,
}
use chwire.Native.Column.{Column, typed, boxed, last}

-- An entry of `sparseRuntime`
pub record SparseRuntime : Type 0 where
  pub trailing_default_count : ℕ
  pub has_value_after_trailing : Bool

pub record Offsets : Type 0 where
  pub indices : List ℕ
  pub total_rows : ℕ
  pub read_offset : ℕ
  pub skipped_values_rows : ℕ
  pub is_first_value : Bool

-- `state.sparseRuntime.get(node) || [0, false]` where there is no entry
abbrev pub no_runtime : SparseRuntime
no_runtime = record { trailing_default_count = 0; has_value_after_trailing = false }

-- `END_OF_GRANULE_FLAG` of an offset, and the offset without it
abbrev pub end_of_granule_flag : ℕ
end_of_granule_flag = 2 ^ 62

unfoldable pub is_end : ℕ → Bool
is_end offset_value = offset_value / end_of_granule_flag % 2 == 1

unfoldable pub without_end : ℕ → ℕ
without_end offset_value =
    if is_end offset_value then offset_value - end_of_granule_flag else offset_value

-- A value comes behind `defaults` default rows of its group.
abbrev pub place : ℕ → ℕ → Offsets → Offsets
place start_of_group defaults o =
    if leb o.read_offset defaults
    then record o {
      indices = o.indices ++ (start_of_group + defaults - o.read_offset) ∷ [];
      read_offset = 0;
      is_first_value = false;
    }
    else record o {
      skipped_values_rows = o.skipped_values_rows + 1;
      read_offset = o.read_offset - (defaults + 1);
    }

-- What stands before the loop
unfoldable pub begin : SparseRuntime → Offsets
begin s =
    let o : Offsets = record {
      indices = [];
      total_rows = s.trailing_default_count;
      read_offset = 0;
      skipped_values_rows = 0;
      is_first_value = true;
    } in
    if s.has_value_after_trailing
    then record (place 0 s.trailing_default_count o) { total_rows = s.trailing_default_count + 1 }
    else o

unfoldable pub start_of_group : Offsets → ℕ
start_of_group o =
    if not o.is_first_value && ltb 0 (length o.indices) then last o.indices + 1 else 0

-- The body of the loop: it ends with an entry for `sparseRuntime`, or goes on.
pub data Round : Type 0 where
  stops : SparseRuntime → Round
  goes_on : Offsets → Round

unfoldable pub sparse_round : ℕ → ℕ → Offsets → Round
unfolding is_end without_end start_of_group
sparse_round rows offset_value o =
    let end = is_end offset_value in
    let defaults_before_value = without_end offset_value in
    let next_total_rows = o.total_rows + defaults_before_value in
    let placed = place (start_of_group o) defaults_before_value o in
    if leb rows next_total_rows
    then stops (record {
      trailing_default_count = next_total_rows - rows;
      has_value_after_trailing = not end;
    })
    else if end
    then stops (record {
      trailing_default_count = defaults_before_value;
      has_value_after_trailing = false;
    })
    else goes_on (record placed { total_rows = next_total_rows + 1 })

abbrev pub SparseOffsets : Type 0
SparseOffsets = Offsets × SparseRuntime

-- What a round leaves to do
unfoldable pub after_round :
    Offsets → (Offsets → Exec BufferReader SparseOffsets) → Round → Exec BufferReader SparseOffsets
after_round o again (stops s) r = ok (o, s) r
after_round o again (goes_on o') r = again o' r

unfoldable pub offsets_loop : ℕ → ℕ → Offsets → Exec BufferReader SparseOffsets
unfolding after_round
offsets_loop zero rows o r = ok (o, no_runtime) r
offsets_loop (suc fuel) rows o r =
    continue (read_varint64 r)
      (λ offset_value. after_round o (offsets_loop fuel rows) (sparse_round rows offset_value o))

-- The offsets are read. A round that goes on adds a row, so the rows bound the rounds.
unfoldable pub sparse_offsets : ℕ → SparseRuntime → Exec BufferReader SparseOffsets
unfolding begin offsets_loop
sparse_offsets rows s = offsets_loop (rows + 1) rows (begin s)

-- `dest[indices[i]] = src[i]` where the index is below the number of rows
unfoldable pub scatter {ℓ} : {A : Type ℓ} → List A → List ℕ → List A → List A
scatter dest [] src = dest
scatter dest (i ∷ indices) [] = dest
scatter dest (i ∷ indices) (x ∷ src) = scatter (set dest i x) indices src

-- The methods of the codec that readSparse calls. For a column that is no typed array, `spread`
-- reads the values, spreads them over zero values and builds the column by `fromValues`.
pub record SparseCodec : Type 0 where
  pub type : List ℕ
  pub zeros : ℕ → Result Column
  pub decode_dense : ℕ → DeserializerState → Exec BufferReader Column
  pub spread : ℕ → List ℕ → Column → Result Column

pub spread_values : SparseCodec → ℕ → List ℕ → Column → Exec BufferReader Column
unfolding scatter
spread_values c rows indices (typed t size src) =
    return (typed c.type size (scatter (replicate rows 0) indices src))
spread_values c rows indices col = lift (c.spread rows indices col)

-- `decodeFn(reader, skippedValuesRows)`, whose values are dropped
skip_values : SparseCodec → ℕ → DeserializerState → Exec BufferReader (Unit {0})
skip_values c zero state = return tt
skip_values c (suc skipped) state = do c.decode_dense (suc skipped) state; return tt

-- The values are read, as many as there are indices.
fill : SparseCodec → ℕ → DeserializerState → List ℕ → Exec BufferReader Column
unfolding spread_values
fill c rows state [] = lift (c.zeros rows)
fill c rows state (i ∷ indices) = do
  values ← c.decode_dense (length (i ∷ indices)) state
  spread_values c rows (i ∷ indices) values

-- A node of the tree is read once in a block, so it has no entry in `sparseRuntime` before.
unfoldable pub read_sparse : SparseCodec → ℕ → DeserializerState → Exec BufferReader Column
unfolding sparse_offsets skip_values fill
read_sparse c rows state = do
  offsets ← sparse_offsets rows no_runtime
  skip_values c (offsets.0).skipped_values_rows state
  fill c rows state (offsets.0).indices

-- BaseCodec's `decode`
unfoldable pub decode : SparseCodec → ℕ → DeserializerState → Exec BufferReader Column
unfolding read_sparse
decode c rows state =
    if kind state.serialization_node == sparse
    then read_sparse c rows state
    else c.decode_dense rows state

-- Where the node is the default, which is dense, the column is read as it stands.
pub decode-Decodes :
    (c : SparseCodec) (rows : ℕ) {bytes : List ℕ} {col : Column}
    → Decodes (c.decode_dense rows default_deserializer_state) bytes col
    → Decodes (decode c rows default_deserializer_state) bytes col
unfolding decode
decode-Decodes c rows p = p
