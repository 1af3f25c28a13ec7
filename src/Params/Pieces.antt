-- ===== src/Params/Pieces.antt =====
-- The loop of `extractParamTypes` over a query that is written out of plain characters, quoted text
-- and placeholders.
use chwire.Prelude.{
  ℕ, zero, suc, ◌+◌, ◌≤◌, ◌<◌, ◌≡◌, refl, ap, ◌∙◌, leb, ◌==◌, ◌||◌, not, if◌then◌else◌, Bool, true,
  false, List, [], ◌∷◌, ◌++◌, length, drop, drop-suc, get_elem?-lt, get_elem?-drop, All, arith,
  replicate, length-append, length-drop, Option, none, some,
}
use chwire.Compression.{equals}
use native.Mathlib.Numerals.{add-one}
use chwire.Prelude.Scan.{Step, stop, go, scan}
use chwire.Params.{
  Types, set_first, behind_skipped, at_brace, at_character, extract_step, skip_quoted_string,
}
use chwire.Params.Runs.{Fails, skip_quoted_string-body, drop-behind, is_at-drop}
use chwire.Params.Placeholders.{
  Placeholder, IsPlaceholder, name_of, type_of, ending, placed, parse_param-placed,
}

-- A query as its writer sees it: characters, quoted text and placeholders
pub data Piece : Type 0 where
  plain : ℕ → Piece
  quoted : ℕ → List ℕ → Piece
  placeholder : Placeholder → Piece

abbrev pub render : List Piece → List ℕ
render [] = []
render (plain c ∷ pieces) = c ∷ render pieces
render (quoted quote body ∷ pieces) = quote ∷ (body ++ quote ∷ render pieces)
render (placeholder p ∷ pieces) = b'{' ∷ placed p (render pieces)

-- A character that opens no quotes, no comment and no placeholder
abbrev pub is_plain : ℕ → Bool
is_plain c = not (c == b'\'' || c == b'"' || c == b'`' || c == b'-' || c == b'/' || c == b'{')

abbrev pub is_quote : ℕ → Bool
is_quote c = c == b'\'' || c == b'"' || c == b'`'

-- Quoted text has no backslash and not its own quote, and what follows does not begin with the quote.
abbrev pub IsQuery : List Piece → Type 0
IsQuery [] = Unit {0}
IsQuery (plain c ∷ pieces) = (is_plain c ≡ true) × IsQuery pieces
IsQuery (quoted quote body ∷ pieces) =
    (is_quote quote ≡ true)
    × All (λ c. (c == b'\\' || c == quote) ≡ false) body
    × Fails (λ c. c == quote) (render pieces)
    × IsQuery pieces
IsQuery (placeholder p ∷ pieces) = IsPlaceholder p × IsQuery pieces

-- What the loop makes of the rest of a query
abbrev pub recorded : Types → List Piece → Types
recorded types [] = types
recorded types (plain c ∷ pieces) = recorded types pieces
recorded types (quoted quote body ∷ pieces) = recorded types pieces
recorded types (placeholder p ∷ pieces) = recorded (set_first (name_of p) (type_of p) types) pieces

pub length-pieces : (pieces : List Piece) → length pieces ≤ length (render pieces)
length-pieces [] = omega arith
length-pieces (plain c ∷ pieces) = omega (arith, length-pieces pieces)
length-pieces (quoted quote body ∷ pieces) =
    omega (arith, length-pieces pieces, length-append body (quote ∷ render pieces))
length-pieces (placeholder p ∷ pieces) = omega (
  arith,
  length-pieces pieces,
  length-append (name_of p) (b':' ∷ (replicate p.spaces b' ' ++ ending p (render pieces))),
  length-append (replicate p.spaces b' ') (ending p (render pieces)),
  length-append (type_of p) (b'}' ∷ render pieces),
)

module _ {S : Type 0} (step : S → Step S) (fuel : ℕ) (s t : S) where
  scan-stop : step s ≡ stop t → scan step (suc fuel) s ≡ t
  unfolding scan
  scan-stop e = rw (scan, e) refl

  scan-go : step s ≡ go t → scan step (suc fuel) s ≡ scan step fuel t
  unfolding scan
  scan-go e = rw (scan, e) refl

module _ (query : List ℕ) where
  at_end : (i : ℕ) → drop i query ≡ [] → leb (length query) i ≡ true
  at_end i e = ground (arith, ap (λ (t : List ℕ). length t) e, length-drop i query)

  inside : (i c : ℕ) (rest : List ℕ) → drop i query ≡ c ∷ rest → leb (length query) i ≡ false
  inside i c rest e =
      ground (arith, get_elem?-lt query i (get_elem?-drop i query {x = c} {ys = rest} e))

  plain_step :
      (i c : ℕ) (rest : List ℕ) (types : Types)
      → drop i query ≡ c ∷ rest
      → is_plain c ≡ true
      → extract_step query (i, types) ≡ go (i + 1, types)
  unfolding extract_step behind_skipped at_character
  plain_step i c rest types e h =
      rw (inside i c rest e) (ground (arith, get_elem?-drop i query {x = c} {ys = rest} e, h))

  quoted_behind :
      (i quote : ℕ) (rest : List ℕ)
      → drop i query ≡ quote ∷ rest
      → is_quote quote ≡ true
      → behind_skipped query i ≡ some (skip_quoted_string query (i + 1) quote)
  unfolding behind_skipped
  quoted_behind i quote rest e h =
      ground (arith, h, get_elem?-drop i query {x = quote} {ys = rest} e)

  no_backslash : (quote : ℕ) → is_quote quote ≡ true → (quote == b'\\') ≡ false
  no_backslash quote h = ground arith

  over_quoted :
      (i quote : ℕ) (body rest : List ℕ) (types : Types)
      → drop i query ≡ quote ∷ (body ++ quote ∷ rest)
      → is_quote quote ≡ true
      → All (λ c. (c == b'\\' || c == quote) ≡ false) body
      → Fails (λ c. c == quote) rest
      → (extract_step query (i, types) ≡ go (i + 1 + length body + 1, types))
        × (drop (i + 1 + length body + 1) query ≡ rest)
  unfolding extract_step at_character
  over_quoted i quote body rest types e q h f =
      let next : drop (i + 1) query ≡ body ++ quote ∷ rest =
        ap (λ n. drop n query) (add-one i) ∙ drop-suc i query e in
      (
        rw
            (
              inside i quote (body ++ quote ∷ rest) e,
              quoted_behind i quote (body ++ quote ∷ rest) e q,
              skip_quoted_string-body query quote (i + 1) body rest h (no_backslash quote q) f next,
            )
            refl,
        ap (λ n. drop n query) (add-one (i + 1 + length body))
            ∙ drop-suc (i + 1 + length body) query
                (drop-behind query (i + 1) body (quote ∷ rest) next),
      )

  end_step :
      (i : ℕ) (types : Types) → drop i query ≡ [] → extract_step query (i, types) ≡ stop (i, types)
  unfolding extract_step
  end_step i types e = rw (at_end i e) refl

  brace_not_skipped :
      (i : ℕ) (rest : List ℕ) → drop i query ≡ b'{' ∷ rest → behind_skipped query i ≡ none
  unfolding behind_skipped
  brace_not_skipped i rest e = ground (arith, get_elem?-drop i query {x = b'{'} {ys = rest} e)

  placeholder_step :
      (i : ℕ) (p : Placeholder) (rest : List ℕ) (types : Types)
      → drop i query ≡ b'{' ∷ placed p rest
      → IsPlaceholder p
      → (j : ℕ) × (extract_step query (i, types) ≡ go (j, set_first (name_of p) (type_of p) types))
        × (drop j query ≡ rest)
  unfolding extract_step at_character at_brace
  placeholder_step i p rest types e h =
      let next : drop (i + 1) query ≡ placed p rest =
        ap (λ n. drop n query) (add-one i) ∙ drop-suc i query e in
      let (j, parsed, behind) = parse_param-placed query (i + 1) p rest h next in
      (
        j,
        rw
            (
              inside i b'{' (placed p rest) e,
              brace_not_skipped i (placed p rest) e,
              is_at-drop query i b'{' (placed p rest) e b'{',
              parsed,
            )
            refl,
        behind,
      )

  pub extract_loop :
      (fuel i : ℕ) (types : Types) (pieces : List Piece)
      → length pieces < fuel
      → IsQuery pieces
      → drop i query ≡ render pieces
      → (scan (extract_step query) fuel (i, types)).1 ≡ recorded types pieces
  extract_loop zero i types pieces l h e = absurd (omega arith)
  extract_loop (suc fuel) i types [] l h e =
      ap (λ (s : ℕ × Types). s.1)
        (scan-stop (extract_step query) fuel (i, types) (i, types) (end_step i types e))
  extract_loop (suc fuel) i types (plain c ∷ pieces) l (p, h) e =
      ap (λ (s : ℕ × Types). s.1)
        (scan-go (extract_step query) fuel (i, types) (i + 1, types)
          (plain_step i c (render pieces) types e p))
      ∙ extract_loop fuel (i + 1) types pieces (omega (arith, l)) h
          (ap (λ n. drop n query) (add-one i) ∙ drop-suc i query e)
  extract_loop (suc fuel) i types (quoted quote body ∷ pieces) l (q, b, f, h) e =
      let (step, behind) = over_quoted i quote body (render pieces) types e q b f in
      ap (λ (s : ℕ × Types). s.1)
        (scan-go (extract_step query) fuel (i, types) (i + 1 + length body + 1, types) step)
      ∙ extract_loop fuel (i + 1 + length body + 1) types pieces (omega (arith, l)) h behind
  extract_loop (suc fuel) i types (placeholder p ∷ pieces) l (q, h) e =
      let (j, step, behind) = placeholder_step i p (render pieces) types e q in
      ap (λ (s : ℕ × Types). s.1)
        (scan-go (extract_step query) fuel (i, types) (j, set_first (name_of p) (type_of p) types)
          step)
      ∙ extract_loop fuel j (set_first (name_of p) (type_of p) types) pieces (omega (arith, l)) h
          behind

-- The type of the first placeholder of a name
abbrev pub declared : List ℕ → List Piece → Option (List ℕ)
declared name [] = none
declared name (plain c ∷ pieces) = declared name pieces
declared name (quoted quote body ∷ pieces) = declared name pieces
declared name (placeholder p ∷ pieces) =
    let later = declared name pieces in if equals (name_of p) name then some (type_of p) else later
