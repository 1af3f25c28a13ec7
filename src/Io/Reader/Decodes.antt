-- ===== src/Io/Reader/Decodes.antt =====
-- Reads of a reader that stands inside its buffer, where also a read of nothing succeeds.
use chwire.Prelude.{
  ℕ, ◌+◌, ◌*◌, ◌^◌, ◌≤◌, ◌<◌, ◌≡◌, refl, ap, ◌∙◌, sym, List, [], ◌∷◌, ◌++◌, length, drop, take, All,
  arith, length-append, append_assoc, length-drop, take-length_append, drop-length_append,
}
use chwire.Prelude.Outcome.{ok, Exec, ◌>>=◌}
use chwire.Io.Words.{le_bytes, length-le_bytes, le_value-le_bytes}
use chwire.Io.Reader.{
  BufferReader, ensure_available, next_bytes, read_bytes, elements, read_typed_array,
}
use chwire.Io.Reader.Reads.{Reads, advance, next_slice, drop_advance}

abbrev pub Inside : BufferReader → Type 0
Inside r = r.offset ≤ length r.buffer

-- Where `bytes` come next in the buffer, `m` takes exactly them and returns `v`.
pub record Decodes {ℓ} {A : Type ℓ} (m : Exec BufferReader A) (bytes : List ℕ) (v : A)
    : Type ℓ where
  pub at :
      (r : BufferReader) (rest : List ℕ)
      → Inside r
      → drop r.offset r.buffer ≡ bytes ++ rest
      → m r ≡ ok v (advance (length bytes) r)

pub advance-Inside :
    (r : BufferReader) (bytes rest : List ℕ)
    → Inside r
    → drop r.offset r.buffer ≡ bytes ++ rest
    → Inside (advance (length bytes) r)
advance-Inside r bytes rest h e = omega (
  arith,
  ap (λ (t : List ℕ). length t) e,
  length-drop r.offset r.buffer,
  length-append bytes rest,
)

module _ {ℓ} {A : Type ℓ} where
  pub Reads-Decodes : {m : Exec BufferReader A} {b : List ℕ} {v : A} → Reads m b v → Decodes m b v
  Reads-Decodes p = record { at = λ r rest h e. p.at r rest e }

  pub Decodes-return : (a : A) → Decodes (λ r. ok a r) [] a
  Decodes-return a = record {
    at = λ r rest h e. let z : r.offset + 0 ≡ r.offset = omega arith in rw z;
  }

  pub Decodes-of_eq :
      {m : Exec BufferReader A} {b c : List ℕ} {v : A} → Decodes m b v → b ≡ c → Decodes m c v
  Decodes-of_eq {m} {b} {c} {v} h e = rw (← e) h

module _ {ℓ κ} {A : Type ℓ} {B : Type κ} where
  pub Decodes-bind :
      {m : Exec BufferReader A} (f : A → Exec BufferReader B) {b c : List ℕ} {v : A} {x : B}
      → Decodes m b v
      → Decodes (f v) c x
      → Decodes (m >>= f) (b ++ c) x
  Decodes-bind {m} f {b} {c} {v} {x} p q = record {
    at = λ r rest h e.
        let e' : drop r.offset r.buffer ≡ b ++ (c ++ rest) = e ∙ append_assoc b c rest in
        let s : r.offset + length b + length c ≡ r.offset + length (b ++ c) =
          omega (arith, length-append b c) in
        rw (p.at r (c ++ rest) h e') (
          q.at (advance (length b) r) rest (advance-Inside r b (c ++ rest) h e')
            (drop_advance r b (c ++ rest) e')
          ∙ ap (λ (t : ℕ). ok x (record r { offset = t })) s);
  }

-- Any chunk of bytes reads back, also an empty one.
pub read_bytes-Decodes :
    (bytes : List ℕ) (n : ℕ) → n ≡ length bytes → Decodes (read_bytes n) bytes bytes
unfolding read_bytes ensure_available next_bytes
read_bytes-Decodes bytes n e = record {
  at = λ r rest h d. ground (arith, advance-Inside r bytes rest h d, next_slice r bytes rest n d e);
}

-- The bytes of a typed array of elements of `size` bytes, as `asBytes` views them.
unfoldable pub as_bytes : ℕ → List ℕ → List ℕ
as_bytes size [] = []
as_bytes size (x ∷ xs) = le_bytes size x ++ as_bytes size xs

pub length-as_bytes : (size : ℕ) (xs : List ℕ) → length (as_bytes size xs) ≡ length xs * size
unfolding as_bytes
length-as_bytes size [] = omega arith
length-as_bytes size (x ∷ xs) = ground (
  arith,
  length-append (le_bytes size x) (as_bytes size xs),
  length-le_bytes size x,
  length-as_bytes size xs,
)

abbrev pub FitWords : ℕ → List ℕ → Type 0
FitWords size xs = All (λ (x : ℕ). x < 256 ^ size) xs

elements-as_bytes :
    (size : ℕ) (xs : List ℕ) → FitWords size xs → elements (length xs) size (as_bytes size xs) ≡ xs
unfolding elements as_bytes
elements-as_bytes size [] h = refl
elements-as_bytes size (x ∷ xs) (p, h) =
    let n : length (le_bytes size x) ≡ size = length-le_bytes size x in
    let t : take size (le_bytes size x ++ as_bytes size xs) ≡ le_bytes size x =
      ap (λ (k : ℕ). take k (le_bytes size x ++ as_bytes size xs)) (sym n)
      ∙ take-length_append (le_bytes size x) (as_bytes size xs) in
    let d : drop size (le_bytes size x ++ as_bytes size xs) ≡ as_bytes size xs =
      ap (λ (k : ℕ). drop k (le_bytes size x ++ as_bytes size xs)) (sym n)
      ∙ drop-length_append (le_bytes size x) (as_bytes size xs) in
    rw (t, d, le_value-le_bytes size x p, elements-as_bytes size xs h)

-- The elements of a typed array read back, however many there are.
pub read_typed_array-Decodes :
    (size : ℕ) (xs : List ℕ)
    → FitWords size xs
    → Decodes (read_typed_array size (length xs)) (as_bytes size xs) xs
unfolding read_typed_array
read_typed_array-Decodes size xs h = record {
  at = λ r rest i e.
      rw
        ((read_bytes-Decodes (as_bytes size xs) (length xs * size)
            (sym (length-as_bytes size xs))).at
          r rest i e)
        (ap (λ (t : List ℕ). ok t (advance (length (as_bytes size xs)) r))
          (elements-as_bytes size xs h));
}

-- A byte array is its own bytes.
pub as_bytes_one : (xs : List ℕ) → FitWords 1 xs → as_bytes 1 xs ≡ xs
unfolding as_bytes
as_bytes_one [] h = refl
as_bytes_one (x ∷ xs) (p, h) =
    let b : le_bytes 1 x ≡ x ∷ [] = unfold le_bytes in ground arith in rw (b, as_bytes_one xs h)
