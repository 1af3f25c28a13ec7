-- ===== src/Tcp/Reader/Values.antt =====
-- The StreamingReader's values and exceptions: read back from their wire form, however the socket
-- cuts it into chunks.
use chwire.Prelude.{
  ℕ, zero, suc, ◌^◌, ◌<◌, ◌≡◌, refl, ap, ◌∙◌, sym, List, [], ◌∷◌, ◌++◌, length, arith, append-nil,
}
use chwire.Prelude.Int.{ℤ, of_word32, to_word32, IsInt32, of_word32-to_word32}
use chwire.Io.Utf8.{Utf8}
use chwire.Io.Words.{le_bytes, le_value, length-le_bytes, le_value-le_bytes}
use chwire.Io.Reader.Reads.{string_bytes}
use chwire.Tcp.Wait.{Awaits, done_with, ◌>>=◌}
use chwire.Tcp.Reader.{Session}
use chwire.Tcp.Reader.Methods.{
  read_bytes, read_u8, read_int32_le, read_u64_le, string_of_length, read_string, read_exception,
  ClickHouseException, last, nesting,
}
use chwire.Tcp.Reader.Takes.{
  Takes, Takes-return, Takes-of_eq, Takes-bind, read_bytes-Takes, read_varint-Takes,
}

-- A value that is made of the next bytes.
made {ℓ} :
    {A : Type ℓ} (bytes : List ℕ) (n : ℕ) (f : List ℕ → A) (x : A)
    → n ≡ length bytes
    → f bytes ≡ x
    → Takes (read_bytes n >>= λ b. done_with (f b)) bytes x
made {A} bytes n f x h e = rw (← e) (
    Takes-of_eq
      (Takes-bind (λ b. done_with (f b)) (read_bytes-Takes bytes n h) (Takes-return (f bytes)))
      (append-nil bytes))

pub read_u8-Takes : (v : ℕ) → v < 256 → Takes read_u8 (v ∷ []) v
unfolding read_u8
read_u8-Takes v h = made (v ∷ []) 1 le_value v refl (unfold le_value in omega arith)

pub read_u64_le-Takes : (v : ℕ) → v < 2 ^ 64 → Takes read_u64_le (le_bytes 8 v) v
unfolding read_u64_le
read_u64_le-Takes v h =
    made (le_bytes 8 v) 8 le_value v (sym (length-le_bytes 8 v))
      (le_value-le_bytes 8 v (omega arith))

pub read_int32_le-Takes : (z : ℤ) → IsInt32 z → Takes read_int32_le (le_bytes 4 (to_word32 z)) z
unfolding read_int32_le
read_int32_le-Takes z h =
    made (le_bytes 4 (to_word32 z)) 4 (λ b. of_word32 (le_value b)) z
      (sym (length-le_bytes 4 (to_word32 z)))
      (ap of_word32 (le_value-le_bytes 4 (to_word32 z) (ground arith)) ∙ of_word32-to_word32 z h)

module _ (u : Utf8) where
  string_of_length-Takes :
      (n : ℕ) (bytes : List ℕ)
      → n ≡ length bytes
      → Takes (string_of_length u n) bytes (u.decode bytes)
  unfolding string_of_length
  string_of_length-Takes zero [] h = rw (u.decode_ascii [] tt) (Takes-return [])
  string_of_length-Takes zero (b ∷ bytes) h = absurd (omega arith)
  string_of_length-Takes (suc n) bytes h = made bytes (suc n) u.decode (u.decode bytes) h refl

  -- What is sent as a string and read back as it is.
  abbrev pub IsSent : List ℕ → Type 0
  IsSent s = u.IsText s × (length s < 2 ^ 30)

  -- On an open reader, a string of fewer than 2 ^ 30 code units that survives UTF-8 is read back,
  -- whichever chunks its bytes come in.
  pub read_string-Takes : (s : List ℕ) → IsSent s → Takes (read_string u) (string_bytes u s) s
  unfolding read_string
  read_string-Takes s (t, h) =
      let n : ℕ = length (u.encode s) in
      let p =
        Takes-bind (λ len. string_of_length u len)
          (read_varint-Takes n (omega (arith, u.encode_bound s)))
          (string_of_length-Takes n (u.encode s) refl) in
      rw (u.decode-encode s t) at p

  -- The wire form of an exception: its code, three strings, and whether another one follows.
  abbrev pub exception_bytes : ClickHouseException → List ℕ
  exception_bytes (last code name message stack_trace) =
      le_bytes 4 (to_word32 code)
      ++ (string_bytes u name ++ (string_bytes u message ++ (string_bytes u stack_trace ++ 0 ∷ [])))
  exception_bytes (nesting code name message stack_trace nested) =
      le_bytes 4 (to_word32 code)
      ++ (string_bytes u name
          ++ (string_bytes u message
              ++ (string_bytes u stack_trace ++ ((1 ∷ []) ++ exception_bytes nested))))

  abbrev pub FitsException : ClickHouseException → Type 0
  FitsException (last code name message stack_trace) =
      IsInt32 code × IsSent name × IsSent message × IsSent stack_trace
  FitsException (nesting code name message stack_trace nested) =
      IsInt32 code × IsSent name × IsSent message × IsSent stack_trace × FitsException nested

  abbrev pub depth : ClickHouseException → ℕ
  depth (last code name message stack_trace) = 0
  depth (nesting code name message stack_trace nested) = suc (depth nested)

  module _ (fuel : ℕ) where
    abbrev after_flag : ℤ → List ℕ → List ℕ → List ℕ → ℕ → Awaits Session ClickHouseException
    after_flag code name message stack_trace has_nested = elim has_nested [
      | zero ↦ done_with (last code name message stack_trace)
      | suc flag ↦ read_exception u fuel >>= λ nested.
          done_with (nesting code name message stack_trace nested)
    ]

    -- The four fields that stand in front, and the flag.
    fields-Takes :
        (code : ℤ) (name message stack_trace : List ℕ) (flag : ℕ) (bytes : List ℕ)
        (x : ClickHouseException)
        → IsInt32 code
        → IsSent name
        → IsSent message
        → IsSent stack_trace
        → flag < 256
        → Takes (after_flag code name message stack_trace flag) bytes x
        → Takes
            (read_exception u (suc fuel))
            (le_bytes 4 (to_word32 code)
              ++ (string_bytes u name
                  ++ (string_bytes u message
                      ++ (string_bytes u stack_trace ++ ((flag ∷ []) ++ bytes)))))
            x
    unfolding read_exception
    fields-Takes code name message stack_trace flag bytes x hc hn hm hs hf p =
        Takes-bind
          (λ c. read_string u >>= λ n.
            read_string u >>= λ m. read_string u >>= λ s. read_u8 >>= after_flag c n m s)
          (read_int32_le-Takes code hc)
          (Takes-bind
            (λ n. read_string u >>= λ m. read_string u >>= λ s. read_u8 >>= after_flag code n m s)
            (read_string-Takes name hn)
            (Takes-bind (λ m. read_string u >>= λ s. read_u8 >>= after_flag code name m s)
              (read_string-Takes message hm)
              (Takes-bind (λ s. read_u8 >>= after_flag code name message s)
                (read_string-Takes stack_trace hs)
                (Takes-bind (after_flag code name message stack_trace) (read_u8-Takes flag hf) p))))

  -- On an open reader, an exception and those nested in it are read back where their codes and
  -- strings fit, whichever chunks their bytes come in, with any fuel above the depth of the
  -- nesting.
  pub read_exception-Takes :
      (x : ClickHouseException) (fuel : ℕ)
      → depth x < fuel
      → FitsException x
      → Takes (read_exception u fuel) (exception_bytes x) x
  read_exception-Takes x zero h f = absurd (omega arith)
  read_exception-Takes (last code name message stack_trace) (suc fuel) h (hc, hn, hm, hs) =
      fields-Takes fuel code name message stack_trace 0 [] _ hc hn hm hs (omega arith)
        (Takes-return _)
  read_exception-Takes (nesting code name message stack_trace nested) (suc fuel) h
        (hc, hn, hm, hs, hx) =
      fields-Takes fuel code name message stack_trace 1 (exception_bytes nested) _ hc hn hm hs
        (omega arith)
        (Takes-of_eq
          (Takes-bind (λ x. done_with (nesting code name message stack_trace x))
            (read_exception-Takes nested fuel (omega arith) hx) (Takes-return _))
          (append-nil (exception_bytes nested)))
