-- ===== src/Io/Reader/Stable.antt =====
-- Reads that more bytes behind the buffer do not change, as long as they do not run out of bytes.
use chwire.Prelude.{
  ℕ, ◌+◌, ◌-◌, ◌*◌, ◌≤◌, ◌≡◌, refl, ap, ◌∙◌, sym, List, ◌++◌, length, take, drop, subarray, arith,
  length-append, take-append_le, drop-append_le, length-drop, Bool-cases, inl, inr, false, ltb,
}
use chwire.Prelude.Result.{Result, good, bad}
use chwire.Prelude.Outcome.{Outcome, ok, err, Exec, lift, ◌>>=◌, continue, Final}
use chwire.Io.VarInt.{read_var_int, read_var_int64}
use chwire.Io.VarInt.Extend.{read_var_int-append, read_var_int64-append}
use chwire.Io.Utf8.{Utf8, decode_utf8_slice-decode}
use chwire.Io.Reader.{
  BufferReader, with_cursor, read_varint, read_varint64, ensure_available, next_bytes, read_bytes,
  decode_next, read_string, read_u8, read_typed_array,
}

-- The reader with more bytes behind its buffer
abbrev pub extend : List ℕ → BufferReader → BufferReader
extend more r = record r { buffer = r.buffer ++ more }

abbrev pub state_of {ℓ κ} : {S : Type ℓ} {A : Type κ} → Outcome S A → S
state_of (ok v s) = s
state_of (err e s) = s

abbrev pub extend_outcome {ℓ} :
    {A : Type ℓ} → List ℕ → Outcome BufferReader A → Outcome BufferReader A
extend_outcome more (ok v r) = ok v (extend more r)
extend_outcome more (err e r) = err e (extend more r)

pub record Stable {ℓ} {A : Type ℓ} (m : Exec BufferReader A) : Type ℓ where
  pub keeps : (r : BufferReader) → (state_of (m r)).buffer ≡ r.buffer
  pub extends :
      (r : BufferReader) (more : List ℕ)
      → Final (m r)
      → m (extend more r) ≡ extend_outcome more (m r)

module _ {ℓ} {A : Type ℓ} where
  pub Stable-return : (a : A) → Stable (λ (r : BufferReader). ok a r)
  Stable-return a = record { keeps = λ r. refl; extends = λ r more f. refl }

  pub Stable-lift : (result : Result A) → Stable (λ (r : BufferReader). lift result r)
  Stable-lift (good a) = record { keeps = λ r. refl; extends = λ r more f. refl }
  Stable-lift (bad e) = record { keeps = λ r. refl; extends = λ r more f. refl }

module _ {ℓ κ} {A : Type ℓ} {B : Type κ} where
  keeps_next :
      (f : A → Exec BufferReader B)
      → ((a : A) → Stable (f a))
      → (o : Outcome BufferReader A) → (state_of (continue o f)).buffer ≡ (state_of o).buffer
  keeps_next f q (ok v r) = (q v).keeps r
  keeps_next f q (err e r) = refl

  extends_next :
      (f : A → Exec BufferReader B)
      → ((a : A) → Stable (f a))
      → (more : List ℕ) (o : Outcome BufferReader A) → Final (continue o f)
      → continue (extend_outcome more o) f ≡ extend_outcome more (continue o f)
  extends_next f q more (ok v r) h = (q v).extends r more h
  extends_next f q more (err e r) h = refl

  continue-Final :
      (f : A → Exec BufferReader B) (o : Outcome BufferReader A) → Final (continue o f) → Final o
  continue-Final f (ok v r) h = tt
  continue-Final f (err e r) h = h

  pub Stable-bind :
      {m : Exec BufferReader A} (f : A → Exec BufferReader B)
      → Stable m
      → ((a : A) → Stable (f a))
      → Stable (m >>= f)
  Stable-bind {m} f p q = record {
    keeps = λ r. keeps_next f q (m r) ∙ p.keeps r;
    extends = λ r more h.
        ap (λ (t : Outcome BufferReader A). continue t f)
          (p.extends r more (continue-Final f (m r) h))
        ∙ extends_next f q more (m r) h;
  }

module _ (r : BufferReader) where
  cursor_keeps : (o : Outcome ℕ ℕ) → (state_of (with_cursor r o)).buffer ≡ r.buffer
  cursor_keeps (ok v offset) = refl
  cursor_keeps (err e offset) = refl

  cursor_extends :
      (more : List ℕ) (o : Outcome ℕ ℕ)
      → with_cursor (extend more r) o ≡ extend_outcome more (with_cursor r o)
  cursor_extends more (ok v offset) = refl
  cursor_extends more (err e offset) = refl

  with_cursor-Final : (o : Outcome ℕ ℕ) → Final (with_cursor r o) → Final o
  with_cursor-Final (ok v offset) h = tt
  with_cursor-Final (err e offset) h = h

-- The reads of varints, bytes, strings and words are stable.
pub read_varint-Stable : Stable read_varint
unfolding read_varint
read_varint-Stable = record {
  keeps = λ r. cursor_keeps r (read_var_int r.buffer r.offset);
  extends = λ r more h.
      ap (with_cursor (extend more r)) (
        read_var_int-append r.buffer more r.offset
          (with_cursor-Final r (read_var_int r.buffer r.offset) h))
      ∙ cursor_extends r more (read_var_int r.buffer r.offset);
}

pub read_varint64-Stable : Stable read_varint64
unfolding read_varint64
read_varint64-Stable = record {
  keeps = λ r. cursor_keeps r (read_var_int64 r.buffer r.offset);
  extends = λ r more h.
      ap (with_cursor (extend more r)) (
        read_var_int64-append r.buffer more r.offset
          (with_cursor-Final r (read_var_int64 r.buffer r.offset) h))
      ∙ cursor_extends r more (read_var_int64 r.buffer r.offset);
}

-- The bytes that come next, where there are enough
pub same_slice :
    (r : BufferReader) (more : List ℕ) (n : ℕ)
    → r.offset + n ≤ length r.buffer
    → subarray (r.buffer ++ more) r.offset (r.offset + n)
      ≡ subarray r.buffer r.offset (r.offset + n)
same_slice r more n h =
    let d : r.offset + n - r.offset ≡ n = omega arith in
    rw d (
      ap (take n) (drop-append_le r.offset r.buffer more (omega arith))
      ∙ take-append_le n (drop r.offset r.buffer) more
          (omega (arith, length-drop r.offset r.buffer)))

-- A read of the next `n` bytes, which throws where there are fewer
module _ {ℓ} {A : Type ℓ} (n : ℕ) (f : Exec BufferReader A)
    (keeps : (r : BufferReader) → (state_of (f r)).buffer ≡ r.buffer)
    (same : (r : BufferReader) (more : List ℕ)
      → r.offset + n ≤ length r.buffer
      → f (extend more r) ≡ extend_outcome more (f r)) where
  pub guarded-Stable :
      Stable (λ (r : BufferReader). continue (ensure_available n r) (λ (t : Unit {0}). f))
  unfolding ensure_available
  guarded-Stable = record {
    keeps = λ r. elim (Bool-cases (ltb (length r.buffer) (r.offset + n))) [
      | inl short ↦ rw short
      | inr enough ↦ rw enough (keeps r)
    ];
    extends = λ r more h. elim (Bool-cases (ltb (length r.buffer) (r.offset + n))) [
      | inl short ↦ absurd ((rw (Final, short) at h) refl)
      | inr enough ↦
          let e : ltb (length (r.buffer ++ more)) (r.offset + n) ≡ false =
            ground (arith, enough, length-append r.buffer more) in
          rw (enough, e) (same r more (ground (arith, enough)))
    ];
  }

pub read_bytes-Stable : (n : ℕ) → Stable (read_bytes n)
unfolding read_bytes next_bytes
read_bytes-Stable n =
    guarded-Stable n (next_bytes n) (λ r. refl)
      (λ r more h.
        ap (λ (t : List ℕ). ok t (record (extend more r) { offset = r.offset + n }))
          (same_slice r more n h))

same_text :
    (u : Utf8) (len : ℕ) (r : BufferReader) (more : List ℕ)
    → r.offset + len ≤ length r.buffer
    → decode_next u len (extend more r) ≡ extend_outcome more (decode_next u len r)
unfolding decode_next
same_text u len r more h =
    ap (λ (t : List ℕ). ok t (record (extend more r) { offset = r.offset + len }))
      (decode_utf8_slice-decode u (r.buffer ++ more) r.offset len
        ∙ ap u.decode (same_slice r more len h)
        ∙ sym (decode_utf8_slice-decode u r.buffer r.offset len))

decode_next-Stable :
    (u : Utf8) (len : ℕ)
    → Stable (λ (r : BufferReader).
      continue (ensure_available len r) (λ (t : Unit {0}). decode_next u len))
decode_next-Stable u len =
    guarded-Stable len (decode_next u len) (λ r. unfold decode_next in refl) (same_text u len)

pub read_string-Stable : (u : Utf8) → Stable (read_string u)
unfolding read_string
read_string-Stable u = Stable-bind _ read_varint-Stable (decode_next-Stable u)

pub read_u8-Stable : Stable read_u8
unfolding read_u8
read_u8-Stable = Stable-bind _ (read_bytes-Stable 1) (λ bytes. Stable-return _)

pub read_typed_array-Stable : (size count : ℕ) → Stable (read_typed_array size count)
unfolding read_typed_array
read_typed_array-Stable size count =
    Stable-bind _ (read_bytes-Stable (count * size)) (λ bytes. Stable-return _)

-- After a call that does not touch the reader, only what it returned goes on.
pub Stable-lift_bind {ℓ κ} :
    {A : Type ℓ} {B : Type κ} (result : Result A) (f : A → Exec BufferReader B)
    → ((a : A) → result ≡ good a → Stable (f a))
    → Stable (λ (r : BufferReader). continue (lift result r) f)
Stable-lift_bind (good a) f h = h a refl
Stable-lift_bind (bad e) f h = record { keeps = λ r. refl; extends = λ r more g. refl }
