-- ===== src/Io/Reader/Reads.antt =====
-- What the reader's methods make of bytes that a writer wrote, and how reads follow one another.
use chwire.Prelude.{
  ℕ, ◌+◌, ◌-◌, ◌^◌, ◌≤◌, ◌<◌, ◌≡◌, refl, ap, ◌∙◌, sym, List, [], ◌∷◌, ◌++◌, length, drop, subarray,
  arith, length-append, append_assoc, drop-drop, drop-length_append, take-length_append,
  length-drop, take_all,
}
use chwire.Prelude.Int.{
  ℤ, to_word32, IsInt32, of_word32-to_word32, to_word64, IsInt64, of_word64-to_word64,
}
use chwire.Prelude.Outcome.{ok, Exec, ◌>>=◌}
use chwire.Io.VarInt.Encode.{leb128, length-leb128_pos}
use chwire.Io.VarInt.Decode.{read_var_int-leb128, read_var_int64-leb128}
use chwire.Io.Utf8.{Utf8, decode_utf8_slice-decode}
use chwire.Io.Words.{le_bytes, length-le_bytes, le_value-le_bytes}
use chwire.Io.Reader.{
  BufferReader, read_varint, read_varint64, ensure_available, read_bytes, read_string, read_u8,
  read_u32_le, read_u64_le, read_i32_le, read_i64_le,
}

abbrev pub advance : ℕ → BufferReader → BufferReader
advance n r = record r { offset = r.offset + n }

-- Where `bytes` come next, whatever follows them, `m` takes exactly them and returns `v`.
pub record Reads {ℓ} {A : Type ℓ} (m : Exec BufferReader A) (bytes : List ℕ) (v : A) : Type ℓ where
  pub at :
      (r : BufferReader) (rest : List ℕ)
      → drop r.offset r.buffer ≡ bytes ++ rest
      → m r ≡ ok v (advance (length bytes) r)

-- The bytes that come next lie inside the buffer.
next_fit :
    (r : BufferReader) (bytes rest : List ℕ)
    → drop r.offset r.buffer ≡ bytes ++ rest
    → 1 ≤ length bytes
    → r.offset + length bytes ≤ length r.buffer
next_fit r bytes rest e h = omega (
  arith,
  ap (λ (t : List ℕ). length t) e,
  length-drop r.offset r.buffer,
  length-append bytes rest,
)

pub next_slice :
    (r : BufferReader) (bytes rest : List ℕ) (n : ℕ)
    → drop r.offset r.buffer ≡ bytes ++ rest
    → n ≡ length bytes
    → subarray r.buffer r.offset (r.offset + n) ≡ bytes
next_slice r bytes rest n e h =
    let d : r.offset + n - r.offset ≡ length bytes = omega arith in
    ground (arith, d, e, take-length_append bytes rest)

pub drop_advance :
    (r : BufferReader) (bytes rest : List ℕ)
    → drop r.offset r.buffer ≡ bytes ++ rest
    → drop (r.offset + length bytes) r.buffer ≡ rest
drop_advance r bytes rest e = ground (
  arith,
  drop-drop r.offset (length bytes) (r.offset + length bytes) r.buffer,
  e,
  drop-length_append bytes rest,
)

module _ {ℓ} {A : Type ℓ} where
  pub Reads-return : (a : A) → Reads (λ r. ok a r) [] a
  Reads-return a = record { at = λ r rest e. let z : r.offset + 0 ≡ r.offset = omega arith in rw z }

  pub Reads-of_eq :
      {m : Exec BufferReader A} {b c : List ℕ} {v : A} → Reads m b v → b ≡ c → Reads m c v
  Reads-of_eq {m} {b} {c} {v} h e = rw (← e) h

module _ {ℓ κ} {A : Type ℓ} {B : Type κ} where
  -- One read after another takes the bytes of the one and then of the other.
  pub Reads-bind :
      {m : Exec BufferReader A} (f : A → Exec BufferReader B) {b c : List ℕ} {v : A} {x : B}
      → Reads m b v
      → Reads (f v) c x
      → Reads (m >>= f) (b ++ c) x
  Reads-bind {m} f {b} {c} {v} {x} p q = record {
    at = λ r rest e.
        let e' : drop r.offset r.buffer ≡ b ++ (c ++ rest) = e ∙ append_assoc b c rest in
        let s : r.offset + length b + length c ≡ r.offset + length (b ++ c) =
          omega (arith, length-append b c) in
        rw (p.at r (c ++ rest) e') (
          q.at (advance (length b) r) rest (drop_advance r b (c ++ rest) e')
          ∙ ap (λ (t : ℕ). ok x (record r { offset = t })) s);
  }

-- A varint reads back, as a 32-bit and as a 64-bit value.
pub read_varint-Reads : (v : ℕ) → v < 2 ^ 32 → Reads read_varint (leb128 v) v
unfolding read_varint
read_varint-Reads v h = record {
  at = λ r rest e. rw (read_var_int-leb128 v r.offset r.buffer rest h e);
}

pub read_varint64-Reads : (v : ℕ) → v < 2 ^ 70 → Reads read_varint64 (leb128 v) v
unfolding read_varint64
read_varint64-Reads v h = record {
  at = λ r rest e. rw (read_var_int64-leb128 v r.offset r.buffer rest h e);
}

available :
    (r : BufferReader) (bytes rest : List ℕ) (n : ℕ)
    → drop r.offset r.buffer ≡ bytes ++ rest
    → n ≡ length bytes
    → 1 ≤ n
    → ensure_available n r ≡ ok tt r
unfolding ensure_available
available r bytes rest n e h p = ground (arith, next_fit r bytes rest)

-- A chunk of bytes reads back, as long as it is not empty.
pub read_bytes-Reads :
    (bytes : List ℕ) (n : ℕ) → n ≡ length bytes → 1 ≤ n → Reads (read_bytes n) bytes bytes
unfolding read_bytes
read_bytes-Reads bytes n h p = record {
  at = λ r rest e. ground (arith, next_fit r bytes rest, next_slice r bytes rest n e h);
}

length-cases : (bytes : List ℕ) → 1 ≤ length bytes → subarray bytes 0 (length bytes) ≡ bytes
length-cases bytes h =
    let d : length bytes - 0 ≡ length bytes = omega arith in
    ground (arith, d, take_all (length bytes) bytes)

read_word :
    (n v : ℕ)
    → 1 ≤ n
    → v < 256 ^ n
    → (r : BufferReader) (rest : List ℕ) → drop r.offset r.buffer ≡ le_bytes n v ++ rest
    → read_bytes n r ≡ ok (le_bytes n v) (advance n r)
read_word n v p h r rest e =
    (read_bytes-Reads (le_bytes n v) n (sym (length-le_bytes n v)) p).at r rest e
    ∙ rw (length-le_bytes n v)

-- The fixed-width words read back.
pub read_u8-Reads : (v : ℕ) → v < 256 → Reads read_u8 (v ∷ []) v
unfolding read_u8
read_u8-Reads v h = record {
  at = λ r rest e.
      let b : le_bytes 1 v ≡ v ∷ [] = unfold le_bytes in ground arith in
      rw (read_word 1 v (omega arith) (omega arith) r rest (rw b e))
        (ground (arith, le_value-le_bytes 1 v));
}

pub read_u32_le-Reads : (v : ℕ) → v < 2 ^ 32 → Reads read_u32_le (le_bytes 4 v) v
unfolding read_u32_le
read_u32_le-Reads v h = record {
  at = λ r rest e.
      rw (read_word 4 v (omega arith) (omega arith) r rest e, length-le_bytes 4 v)
        (ground (arith, le_value-le_bytes 4 v));
}

pub read_u64_le-Reads : (v : ℕ) → v < 2 ^ 64 → Reads read_u64_le (le_bytes 8 v) v
unfolding read_u64_le
read_u64_le-Reads v h = record {
  at = λ r rest e.
      rw (read_word 8 v (omega arith) (omega arith) r rest e, length-le_bytes 8 v)
        (ground (arith, le_value-le_bytes 8 v));
}

word32_fits : (z : ℤ) → to_word32 z < 256 ^ 4
word32_fits z = ground arith

word64_fits : (z : ℤ) → to_word64 z < 256 ^ 8
word64_fits z = ground arith

-- A signed 32-bit word in two's complement reads back.
pub read_i32_le-Reads : (z : ℤ) → IsInt32 z → Reads read_i32_le (le_bytes 4 (to_word32 z)) z
unfolding read_i32_le
read_i32_le-Reads z h = record {
  at = λ r rest e. rw (
    read_word 4 (to_word32 z) (omega arith) (word32_fits z) r rest e,
    length-le_bytes 4 (to_word32 z),
    le_value-le_bytes 4 (to_word32 z) (word32_fits z),
    of_word32-to_word32 z h,
  );
}

pub read_i64_le-Reads : (z : ℤ) → IsInt64 z → Reads read_i64_le (le_bytes 8 (to_word64 z)) z
unfolding read_i64_le
read_i64_le-Reads z h = record {
  at = λ r rest e. rw (
    read_word 8 (to_word64 z) (omega arith) (word64_fits z) r rest e,
    length-le_bytes 8 (to_word64 z),
    le_value-le_bytes 8 (to_word64 z) (word64_fits z),
    of_word64-to_word64 z h,
  );
}

-- The wire form of a string: the length of its UTF-8 bytes, and the bytes.
abbrev pub string_bytes : Utf8 → List ℕ → List ℕ
string_bytes u s = leb128 (length (u.encode s)) ++ u.encode s

-- A string of fewer than 2 ^ 30 code units that survives UTF-8 reads back, empty or not, by the
-- fast path or by the decoder.
pub read_string-Reads :
    (u : Utf8) (s : List ℕ)
    → u.IsText s
    → length s < 2 ^ 30
    → Reads (read_string u) (string_bytes u s) s
unfolding read_string
read_string-Reads u s t h = record {
  at = λ r rest e.
      let n : ℕ = length (u.encode s) in
      let l : List ℕ = leb128 n in
      let e' : drop r.offset r.buffer ≡ l ++ (u.encode s ++ rest) =
        e ∙ append_assoc l (u.encode s) rest in
      let r' : BufferReader = advance (length l) r in
      let e2 : drop r'.offset r'.buffer ≡ u.encode s ++ rest =
        drop_advance r l (u.encode s ++ rest) e' in
      ground (
        arith,
        (read_varint-Reads n (omega (arith, u.encode_bound s))).at r (u.encode s ++ rest) e',
        next_fit r (string_bytes u s) rest,
        length-append l (u.encode s),
        length-leb128_pos n,
        decode_utf8_slice-decode u r.buffer r'.offset n,
        next_slice r' (u.encode s) rest n e2 refl,
        u.decode-encode s t,
      );
}
