-- ===== src/Native/Sparse/Stable.antt =====
-- More bytes do not change what a column, sparse or dense, is read as.
use chwire.Prelude.{
  ℕ, zero, suc, ◌+◌, if◌then◌else◌, ◌==◌, List, [], ◌∷◌, length, Bool, true, false,
}
use chwire.Prelude.Outcome.{Exec}
use chwire.Io.Reader.{BufferReader}
use chwire.Io.Reader.Stable.{
  Stable, Stable-return, Stable-lift, Stable-bind, read_varint64-Stable, read_u8-Stable,
}
use chwire.Native.Serialization.{
  SerializationNode, DeserializerState, kind, sparse, read_kinds, read_kinds1, read_kinds2,
}
use chwire.Native.Column.{Column, typed, boxed, array, nullable, map_column, tuple}
use chwire.Native.Codec.{Codec}
use chwire.Native.Sparse.{
  Offsets, SparseOffsets, SparseCodec, Round, stops, goes_on, no_runtime, begin, sparse_round,
  after_round, offsets_loop, sparse_offsets, spread_values, skip_values, fill, read_sparse, decode,
}

-- More bytes do not change what a codec reads.
pub record StableCodec (c : Codec) : Type 0 where
  pub prefix : (state : DeserializerState) → Stable (c.read_prefix state)
  pub column : (rows : ℕ) (state : DeserializerState) → Stable (c.decode rows state)
  pub kinds : Stable c.read_kinds

round_Stable :
    (o : Offsets) (again : Offsets → Exec BufferReader SparseOffsets) (round : Round)
    → ((o' : Offsets) → Stable (again o'))
    → Stable (after_round o again round)
unfolding after_round
round_Stable o again (stops s) h = Stable-return (o, s)
round_Stable o again (goes_on o') h = record {
  keeps = λ r. (h o').keeps r;
  extends = λ r more f. (h o').extends r more f;
}

offsets_loop-Stable : (fuel rows : ℕ) (o : Offsets) → Stable (offsets_loop fuel rows o)
unfolding offsets_loop
offsets_loop-Stable zero rows o = Stable-return _
offsets_loop-Stable (suc fuel) rows o =
    Stable-bind (λ (v : ℕ). after_round o (offsets_loop fuel rows) (sparse_round rows v o))
      read_varint64-Stable
      (λ v.
        round_Stable o (offsets_loop fuel rows) (sparse_round rows v o)
          (λ o'. offsets_loop-Stable fuel rows o'))

sparse_offsets-Stable : (rows : ℕ) → Stable (sparse_offsets rows no_runtime)
unfolding sparse_offsets
sparse_offsets-Stable rows = offsets_loop-Stable (rows + 1) rows (begin no_runtime)

if_Stable :
    (b : Bool) {x y : Exec BufferReader Column} → Stable x → Stable y → Stable (if b then x else y)
if_Stable true s t = s
if_Stable false s t = t

module _ (c : SparseCodec)
    (dense : (rows : ℕ) (state : DeserializerState) → Stable (c.decode_dense rows state)) where
  spread_values-Stable :
      (rows : ℕ) (indices : List ℕ) (col : Column) → Stable (spread_values c rows indices col)
  unfolding spread_values
  spread_values-Stable rows indices (typed t size src) = Stable-return _
  spread_values-Stable rows indices (boxed t values) = Stable-lift _
  spread_values-Stable rows indices (array t offsets col) = Stable-lift _
  spread_values-Stable rows indices (nullable t flags col) = Stable-lift _
  spread_values-Stable rows indices (map_column t offsets keys values a) = Stable-lift _
  spread_values-Stable rows indices (tuple t names columns n) = Stable-lift _

  skip_values-Stable :
      (skipped : ℕ) (state : DeserializerState) → Stable (skip_values c skipped state)
  unfolding skip_values
  skip_values-Stable zero state = Stable-return tt
  skip_values-Stable (suc skipped) state =
      Stable-bind _ (dense (suc skipped) state) (λ col. Stable-return tt)

  fill-Stable :
      (rows : ℕ) (state : DeserializerState) (indices : List ℕ) → Stable (fill c rows state indices)
  unfolding fill
  fill-Stable rows state [] = Stable-lift _
  fill-Stable rows state (i ∷ indices) =
      Stable-bind _ (dense (length (i ∷ indices)) state)
        (λ col. spread_values-Stable rows (i ∷ indices) col)

  read_sparse-Stable : (rows : ℕ) (state : DeserializerState) → Stable (read_sparse c rows state)
  unfolding read_sparse
  read_sparse-Stable rows state = Stable-bind _ (sparse_offsets-Stable rows) (λ o.
      Stable-bind _ (skip_values-Stable (o.0).skipped_values_rows state)
        (λ t. fill-Stable rows state (o.0).indices))

  pub decode-Stable : (rows : ℕ) (state : DeserializerState) → Stable (decode c rows state)
  unfolding decode
  decode-Stable rows state =
      if_Stable (kind state.serialization_node == sparse) (read_sparse-Stable rows state)
        (dense rows state)

pub read_kinds-Stable : Stable read_kinds
unfolding read_kinds
read_kinds-Stable = Stable-bind _ read_u8-Stable (λ kind. Stable-return _)

pub read_kinds1-Stable :
    (child : Exec BufferReader SerializationNode) → Stable child → Stable (read_kinds1 child)
unfolding read_kinds1
read_kinds1-Stable child s =
    Stable-bind _ read_u8-Stable (λ kind. Stable-bind _ s (λ c. Stable-return _))

pub read_kinds2-Stable :
    (a b : Exec BufferReader SerializationNode) → Stable a → Stable b → Stable (read_kinds2 a b)
unfolding read_kinds2
read_kinds2-Stable a b s t =
    Stable-bind _ read_u8-Stable
      (λ kind. Stable-bind _ s (λ x. Stable-bind _ t (λ y. Stable-return _)))
