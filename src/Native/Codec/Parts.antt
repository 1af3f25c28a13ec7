-- ===== src/Native/Codec/Parts.antt =====
-- What the codecs of composite types share: a writer of their own, to which they write one part
-- after another, and the construction of a column from values, which a sparse read uses.
use chwire.Prelude.{ℕ, ◌≡◌, refl, ap, ◌∙◌, List, [], ◌++◌, append-nil, append_assoc, sym, arith}
use chwire.Prelude.Result.{Result, good, bad, ◌>>=◌}
use chwire.Prelude.Outcome.{Exec}
use chwire.Io.Writer.{BufferWriter, write, finish}
use chwire.Io.Writer.{new as new_writer}
use chwire.Io.Writer.Contents.{IsValid, Appends, contents, write-Appends, finish-contents}
use chwire.Io.Reader.{BufferReader}
use chwire.Native.Serialization.{DeserializerState}
use chwire.Native.Column.{Column}
use chwire.Native.Sparse.{SparseCodec}

-- `fromValues` of as many zero values, and of the values of a column between zero values.
pub record Fill : Type 0 where
  pub zeros : ℕ → Result Column
  pub spread : ℕ → List ℕ → Column → Result Column

abbrev pub sparse_codec_of :
    Fill → List ℕ → (ℕ → DeserializerState → Exec BufferReader Column) → SparseCodec
sparse_codec_of f type decode_dense = record {
  type = type;
  zeros = f.zeros;
  decode_dense = decode_dense;
  spread = f.spread;
}

-- `writer.write(part)`, where the part's encoding may have thrown
unfoldable pub writing : Result BufferWriter → Result (List ℕ) → Result BufferWriter
writing (good w) (good part) = good (write part w)
writing (good w) (bad e) = bad e
writing (bad e) part = bad e

unfoldable pub finished : Result BufferWriter → Result (List ℕ)
finished (good w) = good (finish w)
finished (bad e) = bad e

-- Nothing was thrown, and the writer holds `bytes`.
pub record Wrote (result : Result BufferWriter) (bytes : List ℕ) : Type 0 where
  pub writer : BufferWriter
  pub no_throw : result ≡ good writer
  pub valid : IsValid writer
  pub held : contents writer ≡ bytes

pub new-Wrote : (size : ℕ) → Wrote (good (new_writer size)) []
unfolding new_writer
new-Wrote size = record {
  writer = new_writer size;
  no_throw = refl;
  valid = omega arith;
  held = refl;
}

pub writing-Wrote :
    {result : Result BufferWriter} {bytes : List ℕ} (part : Result (List ℕ)) (more : List ℕ)
    → Wrote result bytes
    → part ≡ good more
    → Wrote (writing result part) (bytes ++ more)
unfolding writing
writing-Wrote {result} {bytes} part more p e =
    let a = write-Appends more p.writer p.valid in
    record {
      writer = write more p.writer;
      no_throw = rw (p.no_throw, e);
      valid = a.valid;
      held = a.appended ∙ ap (λ (t : List ℕ). t ++ more) p.held;
    }

pub finished-Wrote :
    {result : Result BufferWriter} {bytes : List ℕ}
    → Wrote result bytes
    → finished result ≡ good bytes
unfolding finished
finished-Wrote {result} {bytes} p =
    rw (p.no_throw) (ap (λ (t : List ℕ). good t) (finish-contents p.writer ∙ p.held))

-- One prefix after another
unfoldable pub and_prefix :
    Result BufferWriter → (BufferWriter → Result BufferWriter) → Result BufferWriter
and_prefix (good w) next = next w
and_prefix (bad e) next = bad e

abbrev pub WritesPrefix : (BufferWriter → Result BufferWriter) → List ℕ → Type 0
WritesPrefix write_prefix prefix =
    (w : BufferWriter)
    → IsValid w
    → (w' : BufferWriter) × (write_prefix w ≡ good w') × Appends w prefix w'

pub and_prefix-WritesPrefix :
    {first next : BufferWriter → Result BufferWriter} {a b : List ℕ}
    → WritesPrefix first a
    → WritesPrefix next b
    → WritesPrefix (λ (w : BufferWriter). and_prefix (first w) next) (a ++ b)
unfolding and_prefix
and_prefix-WritesPrefix {first} {next} {a} {b} p q w v =
    let (w1, e, x) = p w v in
    let (w2, f, y) = q w1 x.valid in
    (
      w2,
      rw e f,
      record {
        valid = y.valid;
        appended =
            y.appended ∙ ap (λ (t : List ℕ). t ++ b) x.appended ∙ append_assoc (contents w) a b;
      },
    )

pub nothing-WritesPrefix : WritesPrefix (λ (w : BufferWriter). good w) []
nothing-WritesPrefix w v = (w, refl, record { valid = v; appended = sym (append-nil (contents w)) })

same_bind :
    (r : Result BufferWriter) (next : BufferWriter → Result BufferWriter)
    → (r >>= next) ≡ and_prefix r next
unfolding and_prefix
same_bind (good w) next = refl
same_bind (bad e) next = refl

-- One step of a writer after another
pub bind-WritesPrefix :
    {first next : BufferWriter → Result BufferWriter} {a b : List ℕ}
    → WritesPrefix first a
    → WritesPrefix next b
    → WritesPrefix (λ (w : BufferWriter). first w >>= next) (a ++ b)
bind-WritesPrefix {first} {next} {a} {b} p q w v =
    let (w', e, x) = and_prefix-WritesPrefix p q w v in (w', same_bind (first w) next ∙ e, x)

pub writing-WritesPrefix :
    (part : Result (List ℕ)) (more : List ℕ)
    → part ≡ good more
    → WritesPrefix (λ (w : BufferWriter). writing (good w) part) more
unfolding writing
writing-WritesPrefix part more e w v = (write more w, rw e, write-Appends more w v)
