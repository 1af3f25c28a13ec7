-- ===== src/Native/Codecs/Text.antt =====
-- native/codecs/scalar.ts, class StringCodec. Parameters: coerceToString of a value that is not a
-- string, and of the values of a column that is no DataColumn over an array of values.
use chwire.Prelude.{
  ℕ, zero, suc, ◌*◌, ◌^◌, ◌<◌, ap, ◌∙◌, List, [], ◌∷◌, ◌++◌, length, map, length-map, replicate,
  All, append-nil, append_assoc,
}
use chwire.Prelude.Text.{codes}
use chwire.Prelude.Result.{Result, good, bad, plain_error}
use chwire.Prelude.Outcome.{Exec, return, ◌>>=◌}
use chwire.Io.Utf8.{Utf8}
use chwire.Io.Writer.{BufferWriter, new, write_string}
use chwire.Io.Writer.Text.{write_string-Appends}
use chwire.Io.Reader.{BufferReader, read_string}
use chwire.Io.Reader.Reads.{string_bytes, read_string-Reads}
use chwire.Io.Reader.Decodes.{Decodes, Decodes-return, Decodes-bind, Decodes-of_eq, Reads-Decodes}
use chwire.Native.Serialization.{DeserializerState, default_deserializer_state, read_kinds}
use chwire.Native.Column.{Column, Value, text, boxed, column_length}
use chwire.Native.Codec.{Codec, RoundTrips, no_write_prefix, no_read_prefix}
use chwire.Native.Codec.Parts.{finished, Wrote, new-Wrote, finished-Wrote, nothing-WritesPrefix}
use chwire.Native.Sparse.{SparseCodec, scatter, decode, decode-Decodes}

pub record Coercion : Type 0 where
  pub coerce_to_string : Value → Result (List ℕ)
  pub coerced : Column → Result (List (List ℕ))

abbrev string_type : List ℕ
string_type = codes "String"

and_string : Utf8 → Result BufferWriter → Result (List ℕ) → Result BufferWriter
and_string u (good w) (good s) = good (write_string u s w)
and_string u (good w) (bad e) = bad e
and_string u (bad e) s = bad e

module _ (u : Utf8) (c : Coercion) where
  value_loop : List Value → Result BufferWriter → Result BufferWriter
  unfolding and_string
  value_loop [] w = w
  value_loop (text s ∷ values) w = value_loop values (and_string u w (good s))
  value_loop (v ∷ values) w = value_loop values (and_string u w (c.coerce_to_string v))

  string_loop : List (List ℕ) → Result BufferWriter → Result BufferWriter
  unfolding and_string
  string_loop [] w = w
  string_loop (s ∷ strings) w = string_loop strings (and_string u w (good s))

  coerced_loop : Result (List (List ℕ)) → Result BufferWriter → Result BufferWriter
  unfolding string_loop
  coerced_loop (good strings) w = string_loop strings w
  coerced_loop (bad e) w = bad e

  encode : Column → ℕ → Result (List ℕ)
  unfolding value_loop coerced_loop
  encode (boxed t values) size_hint = finished (value_loop values (good (new size_hint)))
  encode col size_hint = finished (coerced_loop (c.coerced col) (good (new size_hint)))

  read_loop : ℕ → Exec BufferReader (List Value)
  read_loop zero = return []
  read_loop (suc rows) = do s ← read_string u; values ← read_loop rows; return (text s ∷ values)

  decode_dense : ℕ → DeserializerState → Exec BufferReader Column
  unfolding read_loop
  decode_dense rows state = do values ← read_loop rows; return (boxed string_type values)

  -- `fromValues` keeps strings as they are; its dense columns hold nothing else.
  spread : ℕ → List ℕ → Column → Result Column
  unfolding scatter
  spread rows indices (boxed t values) =
      good (boxed string_type (scatter (replicate rows (text [])) indices values))
  spread rows indices col = bad plain_error

  sparse_codec : SparseCodec
  unfolding decode_dense spread
  sparse_codec = record {
    type = string_type;
    zeros = λ rows. good (boxed string_type (replicate rows (text [])));
    decode_dense = decode_dense;
    spread = spread;
  }

  unfoldable pub string_codec : Codec
  unfolding encode sparse_codec
  string_codec = record {
    write_prefix = no_write_prefix;
    encode = encode;
    estimate_size = λ rows. rows * 33;
    read_prefix = no_read_prefix;
    decode = decode sparse_codec;
    read_kinds = read_kinds;
  }

  -- The wire form of strings, one behind the other
  abbrev all_bytes : List (List ℕ) → List ℕ
  all_bytes [] = []
  all_bytes (s ∷ strings) = string_bytes u s ++ all_bytes strings

  abbrev pub AreTexts : List (List ℕ) → Type 0
  AreTexts strings = All (λ (s : List ℕ). u.IsText s × (length s < 2 ^ 30)) strings

  value_loop-Wrote :
      (strings : List (List ℕ)) (w : Result BufferWriter) (held : List ℕ)
      → AreTexts strings
      → Wrote w held
      → Wrote (value_loop (map text strings) w) (held ++ all_bytes strings)
  unfolding value_loop
  value_loop-Wrote [] w held t h = rw (append-nil held) h
  value_loop-Wrote (s ∷ strings) w held ((p, l), t) h =
      let a = write_string-Appends u s (h.writer) h.valid l in
      rw (← append_assoc held (string_bytes u s) (all_bytes strings)) (
        value_loop-Wrote strings _ (held ++ string_bytes u s) t (record {
          writer = write_string u s h.writer;
          no_throw = rw (h.no_throw);
          valid = a.valid;
          held = a.appended ∙ ap (λ (t : List ℕ). t ++ string_bytes u s) h.held;
        }))

  read_loop-Decodes :
      (strings : List (List ℕ))
      → AreTexts strings
      → Decodes (read_loop (length strings)) (all_bytes strings) (map text strings)
  unfolding read_loop
  read_loop-Decodes [] t = Decodes-return []
  read_loop-Decodes (s ∷ strings) ((p, l), t) =
      Decodes-of_eq
        (Decodes-bind _ (Reads-Decodes (read_string-Reads u s p l)) (
          Decodes-bind (λ (vs : List Value) (r : BufferReader). return (text s ∷ vs) r)
            (read_loop-Decodes strings t) (Decodes-return (text s ∷ map text strings))))
        (rw (append-nil (all_bytes strings)))

  decode_dense-Decodes :
      (strings : List (List ℕ))
      → AreTexts strings
      → Decodes
          (decode_dense (length strings) default_deserializer_state)
          (all_bytes strings)
          (boxed string_type (map text strings))
  unfolding decode_dense
  decode_dense-Decodes strings t =
      Decodes-of_eq
        (Decodes-bind (λ (vs : List Value) (r : BufferReader). return (boxed string_type vs) r)
          (read_loop-Decodes strings t) (Decodes-return (boxed string_type (map text strings))))
        (append-nil (all_bytes strings))

  -- A column of strings that survive UTF-8, of fewer than 2 ^ 30 code units each, round-trips.
  pub string_codec-RoundTrips :
      (strings : List (List ℕ))
      → AreTexts strings
      → RoundTrips string_codec (boxed string_type (map text strings))
  unfolding string_codec
  string_codec-RoundTrips strings t = record {
    prefix = [];
    content = all_bytes strings;
    writes = nothing-WritesPrefix;
    encodes =
        λ hint. unfold encode in finished-Wrote (value_loop-Wrote strings _ [] t (new-Wrote hint));
    reads_prefix = Decodes-return tt;
    decodes =
        unfold column_length in
        rw (length-map text strings)
          (decode-Decodes sparse_codec (length strings) (decode_dense-Decodes strings t));
  }
