-- ===== src/Native/Codecs/Fixed.antt =====
-- native/codecs/scalar.ts: what the codecs of types with values of a fixed size share. They write
-- the bytes of one value behind the other; they make sure of all the bytes of a column, and then
-- read value by value. Parameter: the values of a column that is no DataColumn over an array.
use chwire.Prelude.{
  ℕ, zero, suc, ◌+◌, ◌*◌, ◌≤◌, ◌≡◌, refl, ap, ◌∙◌, sym, List, [], ◌∷◌, ◌++◌, length, drop,
  replicate, subarray, All, ltb, arith, append-nil, length-append, length-drop, le→ltb_false, false,
}
use chwire.Prelude.Result.{Result, good, bad, plain_error, ◌>>=◌}
use chwire.Prelude.Outcome.{Outcome, ok, err, Exec, continue}
use chwire.Io.Reader.{BufferReader, ensure_available, next_bytes}
use chwire.Io.Reader.Reads.{next_slice}
use chwire.Io.Reader.Decodes.{Inside, Decodes, Decodes-return, Decodes-bind, Decodes-of_eq}
use chwire.Io.Reader.Stable.{
  extend, extend_outcome, state_of, Stable, Stable-return, same_slice, guarded-Stable,
}
use chwire.Native.Serialization.{DeserializerState, default_deserializer_state, read_kinds}
use chwire.Native.Column.{Column, Value, boxed, column_length}
use chwire.Native.Codec.{Codec, RoundTrips, no_write_prefix, no_read_prefix}
use chwire.Native.Codec.Parts.{nothing-WritesPrefix}
use chwire.Native.Sparse.{SparseCodec, scatter, decode, decode-Decodes}
use chwire.Native.Sparse.Stable.{StableCodec, decode-Stable, read_kinds-Stable}

-- What such a codec does with a single value
pub record FixedType : Type 0 where
  pub type : List ℕ
  pub size : ℕ
  pub to_bytes : Value → Result (List ℕ)
  pub of_bytes : List ℕ → Value
  pub from_value : Value → Result Value
  pub zero_value : Value

module _ {A B : Type 0} (g : A → B) where
  -- An outcome with its value changed
  abbrev mapped : Outcome BufferReader A → Outcome BufferReader B
  mapped o = continue o (λ a r. ok (g a) r)

  state_of-mapped : (o : Outcome BufferReader A) → state_of (mapped o) ≡ state_of o
  state_of-mapped (ok a r) = refl
  state_of-mapped (err e r) = refl

  mapped-extend :
      (more : List ℕ) (o : Outcome BufferReader A)
      → mapped (extend_outcome more o) ≡ extend_outcome more (mapped o)
  mapped-extend more (ok a r) = refl
  mapped-extend more (err e r) = refl

module _ (f : FixedType) (values_of : Column → Result (List Value)) where
  unfoldable pub encode_loop : List Value → Result (List ℕ)
  encode_loop [] = good []
  encode_loop (v ∷ values) = do
    first ← f.to_bytes v
    rest ← encode_loop values
    good (first ++ rest)

  unfoldable pub encode_fixed : Column → ℕ → Result (List ℕ)
  unfolding encode_loop
  encode_fixed (boxed t values) hint = encode_loop values
  encode_fixed col hint = do values ← values_of col; encode_loop values

  unfoldable pub value_loop : ℕ → Exec BufferReader (List Value)
  unfolding next_bytes
  value_loop zero r = ok [] r
  value_loop (suc rows) r =
      continue (next_bytes f.size r)
        (λ bytes r. continue (value_loop rows r) (λ values r. ok (f.of_bytes bytes ∷ values) r))

  unfoldable pub decode_fixed : ℕ → DeserializerState → Exec BufferReader Column
  unfolding value_loop ensure_available
  decode_fixed rows state r =
      continue (ensure_available (rows * f.size) r)
        (λ _ r. continue (value_loop rows r) (λ values r. ok (boxed f.type values) r))

  -- `fromValues`
  unfoldable pub from_values : List Value → Result (List Value)
  from_values [] = good []
  from_values (v ∷ values) = do
    first ← f.from_value v
    rest ← from_values values
    good (first ∷ rest)

  unfoldable pub spread_fixed : ℕ → List ℕ → Column → Result Column
  unfolding from_values scatter
  spread_fixed rows indices (boxed t values) = do
    spread ← from_values (scatter (replicate rows f.zero_value) indices values)
    good (boxed f.type spread)
  spread_fixed rows indices col = bad plain_error

  unfoldable pub zeros_fixed : ℕ → Result Column
  unfolding from_values
  zeros_fixed rows = do zeros ← from_values (replicate rows f.zero_value); good (boxed f.type zeros)

  abbrev sparse_fixed : SparseCodec
  sparse_fixed = record {
    type = f.type;
    zeros = zeros_fixed;
    decode_dense = decode_fixed;
    spread = spread_fixed;
  }

  unfoldable pub fixed_codec : Codec
  unfolding encode_fixed decode_fixed spread_fixed zeros_fixed
  fixed_codec = record {
    write_prefix = no_write_prefix;
    encode = encode_fixed;
    estimate_size = λ rows. rows * f.size;
    read_prefix = no_read_prefix;
    decode = decode sparse_fixed;
    read_kinds = read_kinds;
  }

  -- A value that is written as bytes of the right number, and read from them
  abbrev pub Fits : Value → Type 0
  Fits v =
      (bytes : List ℕ) × (f.to_bytes v ≡ good bytes)
      × (length bytes ≡ f.size)
      × (f.of_bytes bytes ≡ v)

  -- All of their bytes
  record Encoded (values : List Value) : Type 0 where
    pub content : List ℕ
    pub encodes : encode_loop values ≡ good content
    pub count : length content ≡ length values * f.size
    pub decodes : Decodes (value_loop (length values)) content values

  next_bytes-Decodes :
      (bytes : List ℕ) → length bytes ≡ f.size → Decodes (next_bytes f.size) bytes bytes
  unfolding next_bytes
  next_bytes-Decodes bytes n = record {
    at = λ r rest i e.
        rw (next_slice r bytes rest f.size e (sym n))
          (ap (λ k. ok bytes (record r { offset = r.offset + k })) (sym n));
  }

  -- What follows the bytes of a value
  abbrev after_value : ℕ → List ℕ → Exec BufferReader (List Value)
  after_value rows bytes r =
      continue (value_loop rows r) (λ values r. ok (f.of_bytes bytes ∷ values) r)

  encode_loop-Encoded : (values : List Value) → All Fits values → Encoded values
  unfolding encode_loop value_loop
  encode_loop-Encoded [] h = record {
    content = [];
    encodes = refl;
    count = omega arith;
    decodes = Decodes-return [];
  }
  encode_loop-Encoded (v ∷ values) ((bytes, written, n, back), h) =
      let rest = encode_loop-Encoded values h in
      record {
        content = bytes ++ rest.content;
        encodes = rw (written, rest.encodes);
        count = omega (arith, length-append bytes rest.content, n, rest.count);
        decodes = Decodes-bind (after_value (length values)) (next_bytes-Decodes bytes n) (
            Decodes-of_eq
              (Decodes-bind (λ vs r. ok (f.of_bytes bytes ∷ vs) r) rest.decodes
                (rw back (Decodes-return (v ∷ values))))
              (append-nil rest.content));
      }

  enough :
      (r : BufferReader) (bytes rest : List ℕ) (n : ℕ)
      → Inside r
      → drop r.offset r.buffer ≡ bytes ++ rest
      → length bytes ≡ n
      → ensure_available n r ≡ ok tt r
  unfolding ensure_available
  enough r bytes rest n i e l =
      let fits : ltb (length r.buffer) (r.offset + n) ≡ false =
        le→ltb_false (length r.buffer) (r.offset + n)
          (omega (arith, ap length e, length-drop r.offset r.buffer, length-append bytes rest)) in
      rw fits

  decode_fixed-Decodes :
      (values : List Value) (state : DeserializerState) (p : Encoded values)
      → Decodes (decode_fixed (length values) state) p.content (boxed f.type values)
  unfolding decode_fixed
  decode_fixed-Decodes values state p = record {
    at = λ r rest i e.
        rw (enough r p.content rest (length values * f.size) i e p.count, p.decodes.at r rest i e);
  }

  -- Values that are written as bytes of the size of the type, from which they are read, round-trip.
  pub fixed_codec-RoundTrips :
      (values : List Value) → All Fits values → RoundTrips fixed_codec (boxed f.type values)
  unfolding fixed_codec encode_fixed
  fixed_codec-RoundTrips values h =
      let p = encode_loop-Encoded values h in
      record {
        prefix = [];
        content = p.content;
        writes = nothing-WritesPrefix;
        encodes = λ hint. p.encodes;
        reads_prefix = Decodes-return tt;
        decodes =
            unfold column_length in
            decode-Decodes sparse_fixed (length values)
              (decode_fixed-Decodes values default_deserializer_state p);
      }

  value_loop_keeps :
      (rows : ℕ) (r : BufferReader) → (state_of (value_loop rows r)).buffer ≡ r.buffer
  unfolding value_loop next_bytes
  value_loop_keeps zero r = refl
  value_loop_keeps (suc rows) r =
      ap (λ (s : BufferReader). s.buffer) (state_of-mapped _ (value_loop rows _))
      ∙ value_loop_keeps rows (record r { offset = r.offset + f.size })

  value_loop-extend :
      (rows : ℕ) (r : BufferReader) (more : List ℕ)
      → r.offset + rows * f.size ≤ length r.buffer
      → value_loop rows (extend more r) ≡ extend_outcome more (value_loop rows r)
  unfolding value_loop next_bytes
  value_loop-extend zero r more h = refl
  value_loop-extend (suc rows) r more h = rw (same_slice r more f.size (ground (arith, h))) (
      ap (mapped (λ values. f.of_bytes (subarray r.buffer r.offset (r.offset + f.size)) ∷ values))
        (value_loop-extend rows (record r { offset = r.offset + f.size }) more (ground (arith, h)))
      ∙ mapped-extend _ more (value_loop rows (record r { offset = r.offset + f.size })))

  decode_fixed-Stable : (rows : ℕ) (state : DeserializerState) → Stable (decode_fixed rows state)
  unfolding decode_fixed
  decode_fixed-Stable rows state =
      guarded-Stable (rows * f.size)
        (λ r. continue (value_loop rows r) (λ values r. ok (boxed f.type values) r))
        (λ r.
          ap (λ (s : BufferReader). s.buffer) (state_of-mapped (boxed f.type) (value_loop rows r))
          ∙ value_loop_keeps rows r)
        (λ r more h.
          ap (mapped (boxed f.type)) (value_loop-extend rows r more h)
          ∙ mapped-extend (boxed f.type) more (value_loop rows r))

  -- More bytes do not change what such a codec reads.
  pub fixed_codec-StableCodec : StableCodec fixed_codec
  unfolding fixed_codec
  fixed_codec-StableCodec = record {
    prefix = λ state. Stable-return tt;
    column = decode-Stable sparse_fixed decode_fixed-Stable;
    kinds = read_kinds-Stable;
  }
