-- ===== src/Io/Writer/Text.antt =====
-- `writeString`: both of its paths append the length of the UTF-8 bytes and the bytes.
use chwire.Prelude.{
  ℕ, ◌+◌, ◌-◌, ◌*◌, ◌^◌, ◌≤◌, ◌<◌, ◌≡◌, refl, ltb, leb, List, [], ◌∷◌, ◌++◌, length, take, drop,
  set, blit, subarray, Option, none, some, All, arith, Bool-cases, inl, inr, length-blit,
  length-set, take-blit, take-blit_before, drop-blit_after, take-set, take-set_before,
  drop-set_after, take_split, subarray-blit, append_assoc, blit-set, blit-nil,
}
use native.Mathlib.Numerals.{add-one}
use chwire.Io.VarInt.{write_loop, var_int_size}
use chwire.Io.VarInt.Encode.{
  leb128, write_loop-leb128, length-leb128, length-leb128_pos, leb128_small, var_int_size-leb128,
}
use chwire.Io.Utf8.{Utf8}
use chwire.Io.Writer.{
  BufferWriter, ensure, ascii_store, write_string, write_string_general, max_bytes64,
}
use chwire.Io.Writer.Contents.{
  IsValid, contents, Appends, ensure_offset, ensure_room, ensure-contents, ensure-IsValid,
}

-- Two runs that lie behind one another in a buffer.
two_runs :
    (buffer head l e : List ℕ) (o n m end : ℕ)
    → m ≡ o + n
    → take m buffer ≡ head ++ l
    → take (length e) (drop m buffer) ≡ e
    → end ≡ m + length e
    → take end buffer ≡ head ++ (l ++ e)
two_runs buffer head l e o n m end hm p q he =
    ground (arith, take_split m (length e) end buffer, append_assoc head l e)

module _ (buffer e : List ℕ) (o : ℕ) where
  -- A short text: its bytes behind one byte for the length.
  short_layout :
      o + (1 + length e) ≤ length buffer
      → take (o + (1 + length e)) (set (blit buffer (o + 1) e) o (length e))
        ≡ take o buffer ++ (length e ∷ e)
  short_layout fits =
      two_runs (set (blit buffer (o + 1) e) o (length e)) (take o buffer) (length e ∷ []) e o 1
        (o + 1) _ refl
        (ground (
          arith,
          add-one o,
          take-set (blit buffer (o + 1) e) o (length e),
          take-blit_before buffer (o + 1) e o,
          length-blit buffer (o + 1) e,
        ))
        (ground (
          arith,
          drop-set_after (blit buffer (o + 1) e) o (length e) (o + 1),
          subarray-blit buffer (o + 1) e,
        ))
        (omega arith)

  -- A long text: its bytes are moved behind the space for the length, which is written last.
  long_layout :
      (l moved : List ℕ)
      → o + (length l + length e) ≤ length buffer
      → o + (1 + length e) ≤ length buffer
      → moved
        ≡ blit
            (blit buffer (o + 1) e)
            (o + length l)
            (subarray (blit buffer (o + 1) e) (o + 1) (o + 1 + length e))
      → 1 ≤ length l
      → take (o + (length l + length e)) (blit moved o l) ≡ take o buffer ++ (l ++ e)
  long_layout l moved fits fits' em pos =
      two_runs (blit moved o l) (take o buffer) l e o (length l) (o + length l) _ refl
        (ground (
          arith,
          moved_e,
          take-blit moved o l (o + length l),
          take-blit_before buffer (o + 1) e o,
          take-blit_before (blit buffer (o + 1) e) (o + length l) e o,
          length-blit buffer (o + 1) e,
          length-blit (blit buffer (o + 1) e) (o + length l) e,
        ))
        (ground (
          arith,
          moved_e,
          drop-blit_after moved o l (o + length l),
          subarray-blit (blit buffer (o + 1) e) (o + length l) e,
          length-blit buffer (o + 1) e,
        ))
        (omega arith)
    where
      moved_e : moved ≡ blit (blit buffer (o + 1) e) (o + length l) e
      moved_e =
          let d : o + 1 + length e - (o + 1) ≡ length e = omega arith in
          ground (arith, em, d, subarray-blit buffer (o + 1) e)

module _ (w w' : BufferWriter) (e : List ℕ) (o : w'.offset ≡ w.offset)
    (c : take w.offset w'.buffer ≡ contents w) where
  abbrev buf : List ℕ
  buf = blit w'.buffer (w'.offset + 1) e

  short_Appends :
      w'.offset + (1 + length e) ≤ length w'.buffer
      → Appends w
          (length e ∷ e)
          (record { buffer = set buf w'.offset (length e); offset = w'.offset + (1 + length e) })
  short_Appends room = record {
    valid =
        omega (arith, length-set buf w'.offset (length e), length-blit w'.buffer (w'.offset + 1) e);
    appended = ground (arith, short_layout w'.buffer e w'.offset);
  }

  abbrev moved : ℕ → List ℕ
  moved size = blit buf (w'.offset + size) (subarray buf (w'.offset + 1) (w'.offset + 1 + length e))

  long_Appends :
      length e < 2 ^ 70
      → w'.offset + (length e + 10) ≤ length w'.buffer
      → Appends w (leb128 (length e) ++ e) (record {
        buffer = (write_loop (length e) (moved (var_int_size (length e))) w'.offset (length e)).0;
        offset = w'.offset + (var_int_size (length e) + length e);
      })
  long_Appends h room =
      rw
        (
          var_int_size-leb128 (length e),
          write_loop-leb128 (length e) (length e) (moved (length l)) w'.offset (omega arith),
        )
        (record {
          valid = omega (
            arith,
            length-leb128 9 (length e) h,
            length-blit (moved (length l)) w'.offset l,
            length-blit buf (w'.offset + length l)
                (subarray buf (w'.offset + 1) (w'.offset + 1 + length e)),
            length-blit w'.buffer (w'.offset + 1) e,
          );
          appended = ground (
            arith,
            length-leb128 9 (length e) h,
            length-leb128_pos (length e),
            long_layout w'.buffer e w'.offset l (moved (length l)),
          );
        })
    where
      l : List ℕ
      l = leb128 (length e)

module _ (u : Utf8) where
  general-Appends :
      (val : List ℕ) (w : BufferWriter)
      → IsValid w
      → length val < 2 ^ 30
      → Appends w (leb128 (length (u.encode val)) ++ u.encode val) (write_string_general u val w)
  unfolding write_string_general
  general-Appends val w v h = elim (Bool-cases (ltb (length (u.encode val)) 128)) [
    | inl short ↦
        rw (short, leb128_small (length (u.encode val)) (ground (arith, short)))
          (short_Appends w w' (u.encode val) o c (omega (arith, room)))
    | inr long ↦
        rw long (long_Appends w w' (u.encode val) o c (omega (arith, u.encode_bound val)) room)
  ]
    where
      w' : BufferWriter
      w' = ensure (length val * 3 + max_bytes64) w

      o : w'.offset ≡ w.offset
      o = ensure_offset (length val * 3 + max_bytes64) w

      c : take w.offset w'.buffer ≡ contents w
      c = ensure-contents (length val * 3 + max_bytes64) w v

      room : w'.offset + (length (u.encode val) + 10) ≤ length w'.buffer
      room = omega (arith, ensure_room (length val * 3 + max_bytes64) w, o, u.encode_bound val)

ascii_store-some :
    (val buf : List ℕ) (p p' : ℕ)
    → (ascii_store val buf p).1 ≡ some p'
    → ((ascii_store val buf p).0 ≡ blit buf p val) × (p' ≡ p + length val) × All (λ c. c < 128) val
unfolding ascii_store
ascii_store-some [] buf p p' h = (ground (arith, blit-nil buf p), ground arith, tt)
ascii_store-some (code ∷ rest) buf p p' h = elim (Bool-cases (ltb 127 code)) [
  | inl high ↦ ground (arith, high)
  | inr low ↦
      let (a, b, c) = ascii_store-some rest (set buf p code) (p + 1) p' (ground (arith, low)) in
      (
        ground (arith, low, a, add-one p, blit-set buf p code rest),
        omega arith,
        (ground (arith, low), c),
      )
]

ascii_store-none :
    (val buf : List ℕ) (p : ℕ)
    → (length (ascii_store val buf p).0 ≡ length buf)
      × ((n : ℕ) → n ≤ p → take n (ascii_store val buf p).0 ≡ take n buf)
unfolding ascii_store
ascii_store-none [] buf p = (refl, λ n h. refl)
ascii_store-none (code ∷ rest) buf p = elim (Bool-cases (ltb 127 code)) [
  | inl high ↦ (ground (arith, high), λ n h. ground (arith, high))
  | inr low ↦
      let (a, b) = ascii_store-none rest (set buf p code) (p + 1) in
      (
        ground (arith, low, a, length-set buf p code),
        λ n h. ground (arith, low, b n, take-set_before buf p code n),
      )
]

same_contents :
    {w w1 w' : BufferWriter} {bytes : List ℕ}
    → contents w1 ≡ contents w
    → Appends w1 bytes w'
    → Appends w bytes w'
same_contents e a = record { valid = a.valid; appended = cc (e, a.appended) }

module _ (u : Utf8) (val : List ℕ) (w : BufferWriter) (v : IsValid w)
    (h : length val < 2 ^ 30) where
  abbrev roomy : BufferWriter
  roomy = ensure (length val + 1) w

  abbrev scan : List ℕ × Option ℕ
  scan = ascii_store val roomy.buffer (roomy.offset + 1)

  bytes_of_ascii :
      All (λ c. c < 128) val
      → length val ≤ 64
      → leb128 (length (u.encode val)) ++ u.encode val ≡ length val ∷ val
  bytes_of_ascii a small = ground (arith, u.encode_ascii val a, leb128_small (length val))

  scanned :
      (p : Option ℕ)
      → scan.1 ≡ p
      → length val ≤ 64
      → Appends w (leb128 (length (u.encode val)) ++ u.encode val) (elim p [
        | none ↦ write_string_general u val (record roomy { buffer = scan.0 })
        | some p' ↦ record { buffer = set scan.0 roomy.offset (length val); offset = p' }
      ])
  scanned none e small =
      let (a, b) = ascii_store-none val roomy.buffer (roomy.offset + 1) in
      same_contents
        (ground (
          arith,
          b roomy.offset,
          ensure-contents (length val + 1) w v,
          ensure_offset (length val + 1) w,
        ))
        (general-Appends u val (record roomy { buffer = scan.0 })
          (ground (arith, a, ensure-IsValid (length val + 1) w)) h)
  scanned (some p') e small =
      let (a, b, c) = ascii_store-some val roomy.buffer (roomy.offset + 1) p' e in
      let end : p' ≡ roomy.offset + (1 + length val) = omega (arith, b) in
      rw (bytes_of_ascii c small, a, end)
        (short_Appends w roomy val (ensure_offset (length val + 1) w)
          (ensure-contents (length val + 1) w v)
          (omega (arith, ensure_room (length val + 1) w, ensure_offset (length val + 1) w)))

  -- On a valid writer, `writeString` of fewer than 2 ^ 30 code units appends the length of the
  -- UTF-8 bytes as a varint, and the bytes.
  pub write_string-Appends :
      Appends w (leb128 (length (u.encode val)) ++ u.encode val) (write_string u val w)
  unfolding write_string
  write_string-Appends = elim (Bool-cases (leb (length val) 64)) [
    | inl small ↦ rw small (scanned scan.1 refl (ground (arith, small)))
    | inr large ↦ rw large (general-Appends u val w v h)
  ]
