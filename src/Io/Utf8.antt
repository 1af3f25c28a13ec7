-- ===== src/Io/Utf8.antt =====
-- native/io.ts: text to bytes and back. The platform's TextEncoder and TextDecoder (or Node's
-- Buffer) are a parameter. A string is the list of its UTF-16 code units.
use chwire.Prelude.{
  ℕ, ◌+◌, ◌*◌, ◌≤◌, ◌<◌, ◌≡◌, refl, ltb, leb, if◌then◌else◌, List, [], ◌∷◌, ◌++◌, length, All, blit,
  subarray, arith, Option, none, some, Bool-cases, inl, inr, append-nil, append_assoc, ◌∙◌,
}

-- What the platform documents of its UTF-8 codec. `IsText` holds of the strings that survive a
-- round trip: well-formed UTF-16 with no byte order mark in front, which the decoder drops.
pub record Utf8 : Type 1 where
  pub IsText : List ℕ → Type 0
  pub encode : List ℕ → List ℕ
  pub decode : List ℕ → List ℕ
  pub ascii-IsText : (s : List ℕ) → All (λ c. c < 128) s → IsText s
  pub encode_bound : (s : List ℕ) → length (encode s) ≤ 3 * length s
  pub encode_ascii : (s : List ℕ) → All (λ c. c < 128) s → encode s ≡ s
  pub decode_ascii : (bytes : List ℕ) → All (λ b. b < 128) bytes → decode bytes ≡ bytes
  pub decode-encode : (s : List ℕ) → IsText s → decode (encode s) ≡ s

-- `writeUtf8(str, target, offset, maxLen)`, where `maxLen` has room for every byte: the target and
-- the count of bytes written.
abbrev pub write_utf8 : Utf8 → List ℕ → List ℕ → ℕ → List ℕ × ℕ
write_utf8 u str target offset = (blit target offset (u.encode str), length (u.encode str))

-- The loop of `decodeUtf8Slice` over the bytes from `start` on; `none` where it meets a byte above
-- 127 and returns what the decoder makes of the whole slice.
unfoldable pub ascii_loop : List ℕ → List ℕ → Option (List ℕ)
ascii_loop [] str = some str
ascii_loop (code ∷ rest) str =
    let more = ascii_loop rest (str ++ code ∷ []) in if ltb 127 code then none else more

-- `decodeUtf8Slice(buffer, start, len)`
unfoldable pub decode_utf8_slice : Utf8 → List ℕ → ℕ → ℕ → List ℕ
decode_utf8_slice u buffer start len =
    if leb len 64
    then elim (ascii_loop (subarray buffer start (start + len)) []) [
      | some str ↦ str
      | none ↦ u.decode (subarray buffer start (start + len))
    ]
    else u.decode (subarray buffer start (start + len))

ascii_loop-some :
    (bytes str out : List ℕ)
    → ascii_loop bytes str ≡ some out
    → (out ≡ str ++ bytes) × All (λ b. b < 128) bytes
unfolding ascii_loop
ascii_loop-some [] str out e = (ground (arith, append-nil str), tt)
ascii_loop-some (code ∷ rest) str out e = elim (Bool-cases (ltb 127 code)) [
  | inl high ↦ ground (arith, high)
  | inr low ↦
      let (p, q) = ascii_loop-some rest (str ++ code ∷ []) out (ground arith) in
      (p ∙ append_assoc str (code ∷ []) rest, (ground arith, q))
]

-- The fast path for short ASCII strings agrees with the decoder: on every slice `decodeUtf8Slice`
-- returns what the decoder makes of it.
pub decode_utf8_slice-decode :
    (u : Utf8) (buffer : List ℕ) (start len : ℕ)
    → decode_utf8_slice u buffer start len ≡ u.decode (subarray buffer start (start + len))
unfolding decode_utf8_slice
decode_utf8_slice-decode u buffer start len = go (ascii_loop bytes []) refl
  where
    bytes : List ℕ
    bytes = subarray buffer start (start + len)

    go :
        (r : Option (List ℕ))
        → ascii_loop bytes [] ≡ r
        → decode_utf8_slice u buffer start len ≡ u.decode bytes
    go none e = ground (arith, e)
    go (some out) e = ground (
      arith,
      e,
      ascii_loop-some bytes [] out e,
      u.decode_ascii bytes (ascii_loop-some bytes [] out e).1,
    )
