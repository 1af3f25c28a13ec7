-- ===== src/Tcp/Writer/Fields.antt =====
-- A packet as a list of typed fields: what each write puts on the wire, and that a reader that knows
-- the kinds of the fields reads them back.
use chwire.Prelude.{
  ℕ, ◌%◌, ◌^◌, ◌<◌, ◌≡◌, refl, ap, sym, ◌∙◌, leb, if◌then◌else◌, Bool, true, false, List, [], ◌∷◌,
  ◌++◌, length, All, arith, append_assoc, append-nil,
}
use chwire.Prelude.Int.{ℤ, to_word32, IsInt32}
use chwire.Prelude.Outcome.{Exec, return, ◌>>=◌}
use chwire.Io.Utf8.{Utf8}
use chwire.Io.VarInt.Encode.{leb128}
use chwire.Io.Words.{le_bytes}
use chwire.Io.Writer.{
  BufferWriter, write_u8, write_u64_le, write_i32_le, write_varint, write_string,
}
use chwire.Io.Writer.Contents.{
  IsValid, contents, Appends, write_u8-Appends, write_u64_le-Appends, write_i32_le-Appends,
  write_varint-Appends,
}
use chwire.Io.Writer.Text.{write_string-Appends}
use chwire.Io.Reader.{BufferReader, read_varint64, read_string, read_u8, read_u64_le, read_i32_le}
use chwire.Io.Reader.Reads.{
  Reads, Reads-bind, Reads-return, Reads-of_eq, read_varint64-Reads, read_string-Reads,
  read_u8-Reads, read_u64_le-Reads, read_i32_le-Reads, string_bytes,
}
use chwire.Tcp.Writer.{◌⨟◌, skip, since}

pub data Field : Type 0 where
  varint : ℕ → Field
  text : List ℕ → Field
  byte : ℕ → Field
  word64 : ℕ → Field
  int32 : ℤ → Field

module _ (u : Utf8) where
  abbrev pub field_bytes : Field → List ℕ
  field_bytes (varint n) = leb128 n
  field_bytes (text s) = string_bytes u s
  field_bytes (byte b) = b % 256 ∷ []
  field_bytes (word64 n) = le_bytes 8 n
  field_bytes (int32 z) = le_bytes 4 (to_word32 z)

  abbrev pub wire : List Field → List ℕ
  wire [] = []
  wire (f ∷ fs) = field_bytes f ++ wire fs

  -- What a value must satisfy to be sent and read back as it is.
  abbrev pub Fits : Field → Type 0
  Fits (varint n) = n < 2 ^ 70
  Fits (text s) = u.IsText s × (length s < 2 ^ 30)
  Fits (byte b) = b < 256
  Fits (word64 n) = n < 2 ^ 64
  Fits (int32 z) = IsInt32 z

  pub wire-append : (fs gs : List Field) → wire (fs ++ gs) ≡ wire fs ++ wire gs
  wire-append [] gs = refl
  wire-append (f ∷ fs) gs =
      ap (λ (t : List ℕ). field_bytes f ++ t) (wire-append fs gs)
      ∙ sym (append_assoc (field_bytes f) (wire fs) (wire gs))

All-append_split {ℓ κ} :
    {A : Type ℓ} (P : A → Type κ) (xs ys : List A) → All P (xs ++ ys) → All P xs × All P ys
All-append_split P [] ys h = (tt, h)
All-append_split P (x ∷ xs) ys (p, h) = let (a, b) = All-append_split P xs ys h in ((p, a), b)

module _ (u : Utf8) where
  -- The writes `f` append the fields, whatever the writer holds.
  pub record Emits (f : BufferWriter → BufferWriter) (fs : List Field) : Type 0 where
    pub at : (w : BufferWriter) → IsValid w → All (Fits u) fs → Appends w (wire u fs) (f w)

  pub then_Appends :
      {w w1 w2 : BufferWriter} {a b : List ℕ}
      → Appends w a w1
      → Appends w1 b w2
      → Appends w (a ++ b) w2
  then_Appends {w} {w1} {w2} {a} {b} p q = record {
    valid = q.valid;
    appended = q.appended ∙ ap (λ (t : List ℕ). t ++ b) p.appended ∙ append_assoc (contents w) a b;
  }

  pub Emits-skip : Emits skip []
  Emits-skip = record {
    at = λ w v h. record { valid = v; appended = sym (append-nil (contents w)) };
  }

  pub Emits-varint :
      (n : ℕ) {g : BufferWriter → BufferWriter} {gs : List Field}
      → Emits g gs
      → Emits (write_varint n ⨟ g) (varint n ∷ gs)
  Emits-varint n e = record {
    at = λ w v h.
        let a = write_varint-Appends w v n h.0 in
        then_Appends a (e.at (write_varint n w) a.valid h.1);
  }

  pub Emits-text :
      (s : List ℕ) {g : BufferWriter → BufferWriter} {gs : List Field}
      → Emits g gs
      → Emits (write_string u s ⨟ g) (text s ∷ gs)
  Emits-text s e = record {
    at = λ w v h.
        let a = write_string-Appends u s w v h.0.1 in
        then_Appends a (e.at (write_string u s w) a.valid h.1);
  }

  pub Emits-byte :
      (b : ℕ) {g : BufferWriter → BufferWriter} {gs : List Field}
      → Emits g gs
      → Emits (write_u8 b ⨟ g) (byte b ∷ gs)
  Emits-byte b e = record {
    at =
        λ w v h. let a = write_u8-Appends b w v in then_Appends a (e.at (write_u8 b w) a.valid h.1);
  }

  pub Emits-word64 :
      (n : ℕ) {g : BufferWriter → BufferWriter} {gs : List Field}
      → Emits g gs
      → Emits (write_u64_le n ⨟ g) (word64 n ∷ gs)
  Emits-word64 n e = record {
    at = λ w v h.
        let a = write_u64_le-Appends w v n in then_Appends a (e.at (write_u64_le n w) a.valid h.1);
  }

  pub Emits-int32 :
      (z : ℤ) {g : BufferWriter → BufferWriter} {gs : List Field}
      → Emits g gs
      → Emits (write_i32_le z ⨟ g) (int32 z ∷ gs)
  Emits-int32 z e = record {
    at = λ w v h.
        let a = write_i32_le-Appends w v z in then_Appends a (e.at (write_i32_le z w) a.valid h.1);
  }

  pub Emits-seq :
      {f g : BufferWriter → BufferWriter} {fs gs : List Field}
      → Emits f fs
      → Emits g gs
      → Emits (f ⨟ g) (fs ++ gs)
  Emits-seq {f} {g} {fs} {gs} d e = record {
    at = λ w v h.
        let (hf, hg) = All-append_split (Fits u) fs gs h in
        let a = d.at w v hf in
        record {
          valid = (e.at (f w) a.valid hg).valid;
          appended =
              (then_Appends a (e.at (f w) a.valid hg)).appended
              ∙ ap (λ (t : List ℕ). contents w ++ t) (sym (wire-append u fs gs));
        };
  }

  pub Emits-since :
      (gate revision : ℕ) {f g : BufferWriter → BufferWriter} {fs gs : List Field}
      → Emits f fs
      → Emits g gs
      → Emits (since gate revision f ⨟ g) ((if leb gate revision then fs else []) ++ gs)
  Emits-since gate revision {f} {g} {fs} {gs} d e =
      Emits-seq {f = since gate revision f} {g = g} (gated (leb gate revision) refl) e
    where
      gated :
          (b : Bool)
          → leb gate revision ≡ b
          → Emits (since gate revision f) (if leb gate revision then fs else [])
      gated true p = record { at = λ w v h. rw p (d.at w v (rw p at h)) }
      gated false p = record { at = λ w v h. rw p (Emits-skip.at w v tt) }

-- A reader of one field of each kind; the argument only says the kind.
unfoldable pub read_field : Utf8 → Field → Exec BufferReader Field
read_field u (varint _) = do n ← read_varint64; return (varint n)
read_field u (text _) = do s ← read_string u; return (text s)
read_field u (byte _) = do b ← read_u8; return (byte b)
read_field u (word64 _) = do n ← read_u64_le; return (word64 n)
read_field u (int32 _) = do z ← read_i32_le; return (int32 z)

unfoldable pub read_fields : Utf8 → List Field → Exec BufferReader (List Field)
unfolding read_field
read_fields u [] = return []
read_fields u (kind ∷ kinds) = do f ← read_field u kind; fs ← read_fields u kinds; return (f ∷ fs)

module _ (u : Utf8) where
  then_return :
      {A : Type 0} {m : Exec BufferReader A} {b : List ℕ} {v : A} (k : A → Field)
      → Reads m b v
      → Reads (m >>= λ x. return (k x)) b (k v)
  then_return {A} {m} {b} {v} k r =
      Reads-of_eq (Reads-bind (λ x. return (k x)) r (Reads-return (k v))) (append-nil b)

  read_field-Reads : (f : Field) → Fits u f → Reads (read_field u f) (field_bytes u f) f
  unfolding read_field
  read_field-Reads (varint n) h = then_return varint (read_varint64-Reads n h)
  read_field-Reads (text s) h = then_return text (read_string-Reads u s h.0 h.1)
  read_field-Reads (byte b) h =
      let e : b % 256 ≡ b = omega arith in rw e (then_return byte (read_u8-Reads b h))
  read_field-Reads (word64 n) h = then_return word64 (read_u64_le-Reads n h)
  read_field-Reads (int32 z) h = then_return int32 (read_i32_le-Reads z h)

  -- The bytes of a list of fields that fit their widths are read back as those fields, whatever
  -- follows them.
  pub read_fields-wire :
      (fs : List Field) → All (Fits u) fs → Reads (read_fields u fs) (wire u fs) fs
  unfolding read_fields
  read_fields-wire [] h = Reads-return []
  read_fields-wire (f ∷ fs) (hf, h) =
      Reads-bind (λ x. read_fields u fs >>= λ xs. return (x ∷ xs)) (read_field-Reads f hf)
        (Reads-of_eq
          (Reads-bind (λ xs. return (f ∷ xs)) (read_fields-wire fs h) (Reads-return (f ∷ fs)))
          (append-nil (wire u fs)))
