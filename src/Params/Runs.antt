-- ===== src/Params/Runs.antt =====
-- The loops of params.ts over texts that stand at a position of the query.
use chwire.Prelude.{
  ℕ, zero, suc, ◌+◌, ◌-◌, ◌<◌, ◌≡◌, refl, ap, ◌∙◌, sym, ◌==◌, ◌&&◌, ◌||◌, not, if◌then◌else◌, Bool,
  true, false, List, [], ◌∷◌, ◌++◌, length, drop, drop-suc, get_elem?-drop, get_elem?-drop_nil,
  get_elem?-lt, All, arith, subarray, take-length_append, length-append, length-drop, drop-drop,
  drop-length_append,
}
use native.Mathlib.Numerals.{add-one}
use chwire.Prelude.Scan.{scan, is_at}
use chwire.Params.{while_step, skip_while, type_step, quoted_step, skip_quoted_string}

-- The text at a position of the query begins with a character that does not pass a test, or there is
-- none.
abbrev pub Fails : (ℕ → Bool) → List ℕ → Type 0
Fails p [] = Unit {0}
Fails p (c ∷ rest) = p c ≡ false

-- Types whose parentheses close at depth `d`, without quotes and braces
unfoldable pub closes : List ℕ → ℕ → Bool
closes [] d = d == 0
closes (c ∷ type) d =
    let inner = closes type (d + 1) in
    let outer = closes type (d - 1) in
    let same = closes type d in
    if c == b'\'' || c == b'"' || c == b'}'
    then false
    else if c == b'('
    then inner
    else if c == b')'
    then not (d == 0) && outer
    else same

module _ (query : List ℕ) where
  while_loop :
      (p : ℕ → Bool) (fuel i : ℕ) (run rest : List ℕ)
      → length run < fuel
      → All (λ c. p c ≡ true) run
      → Fails p rest
      → drop i query ≡ run ++ rest
      → scan (while_step query p) fuel i ≡ i + length run
  unfolding scan while_step
  while_loop p zero i run rest l h f e = absurd (omega arith)
  while_loop p (suc fuel) i [] [] l h f e = ground (arith, get_elem?-drop_nil i query e)
  while_loop p (suc fuel) i [] (c ∷ rest) l h f e =
      ground (arith, get_elem?-drop i query {x = c} {ys = rest} e, f)
  while_loop p (suc fuel) i (c ∷ run) rest l (hc, h) f e = ground (
    arith,
    get_elem?-drop i query {x = c} {ys = run ++ rest} e,
    hc,
    add-one i,
    while_loop p fuel (i + 1) run rest (omega (arith, l)) h f
        (ap (λ n. drop n query) (add-one i) ∙ drop-suc i query {x = c} {ys = run ++ rest} e),
  )

  -- A run of characters that pass a test is skipped.
  pub skip_while-run :
      (p : ℕ → Bool) (i : ℕ) (run rest : List ℕ)
      → All (λ c. p c ≡ true) run
      → Fails p rest
      → drop i query ≡ run ++ rest
      → skip_while query p i ≡ i + length run
  unfolding skip_while
  skip_while-run p i run rest h f e =
      while_loop p (suc (length query)) i run rest
        (omega
          (arith, ap (λ (t : List ℕ). length t) e, length-append run rest, length-drop i query))
        h f e

  -- Nothing is skipped where the first character does not pass.
  pub skip_while-nothing :
      (p : ℕ → Bool) (i : ℕ) (rest : List ℕ)
      → Fails p rest
      → drop i query ≡ rest
      → skip_while query p i ≡ i
  skip_while-nothing p i rest f e = omega (arith, skip_while-run p i [] rest tt f e)

  type_loop :
      (fuel i d : ℕ) (type rest : List ℕ)
      → length type < fuel
      → closes type d ≡ true
      → drop i query ≡ type ++ b'}' ∷ rest
      → scan (type_step query) fuel (i, d) ≡ (i + length type, 0)
  unfolding scan type_step closes
  type_loop zero i d type rest l h e = absurd (omega arith)
  type_loop (suc fuel) i d [] rest l h e = ground (
    arith,
    get_elem?-drop i query {x = b'}'} {ys = rest} e,
    get_elem?-lt query i (get_elem?-drop i query {x = b'}'} {ys = rest} e),
  )
  type_loop (suc fuel) i d (c ∷ type) rest l h e = ground (
    arith,
    get_elem?-drop i query {x = c} {ys = type ++ b'}' ∷ rest} e,
    get_elem?-lt query i (get_elem?-drop i query {x = c} {ys = type ++ b'}' ∷ rest} e),
    add-one i,
    type_loop fuel (i + 1) (d + 1) type rest,
    type_loop fuel (i + 1) (d - 1) type rest,
    type_loop fuel (i + 1) d type rest,
    drop-suc i query {x = c} {ys = type ++ b'}' ∷ rest} e,
  )

  quoted_loop :
      (quote fuel i : ℕ) (body rest : List ℕ)
      → length body < fuel
      → All (λ c. (c == b'\\' || c == quote) ≡ false) body
      → (quote == b'\\') ≡ false
      → Fails (λ c. c == quote) rest
      → drop i query ≡ body ++ quote ∷ rest
      → scan (quoted_step query quote) fuel i ≡ i + length body + 1
  unfolding scan quoted_step
  quoted_loop quote zero i body rest l h q f e = absurd (omega arith)
  quoted_loop quote (suc fuel) i [] [] l h q f e =
      let next : drop (i + 1) query ≡ [] =
        ap (λ n. drop n query) (add-one i) ∙ drop-suc i query {x = quote} {ys = []} e in
      ground (
        arith,
        q,
        get_elem?-drop i query {x = quote} {ys = []} e,
        get_elem?-lt query i (get_elem?-drop i query {x = quote} {ys = []} e),
        get_elem?-drop_nil (i + 1) query next,
      )
  quoted_loop quote (suc fuel) i [] (c ∷ rest) l h q f e =
      let next : drop (i + 1) query ≡ c ∷ rest =
        ap (λ n. drop n query) (add-one i) ∙ drop-suc i query {x = quote} {ys = c ∷ rest} e in
      ground (
        arith,
        q,
        f,
        get_elem?-drop i query {x = quote} {ys = c ∷ rest} e,
        get_elem?-lt query i (get_elem?-drop i query {x = quote} {ys = c ∷ rest} e),
        get_elem?-drop (i + 1) query {x = c} {ys = rest} next,
      )
  quoted_loop quote (suc fuel) i (c ∷ body) rest l (hc, h) q f e =
      let next : drop (i + 1) query ≡ body ++ quote ∷ rest =
        ap (λ n. drop n query) (add-one i) ∙ drop-suc i query e in
      ground (
        arith,
        hc,
        get_elem?-drop i query {x = c} {ys = body ++ quote ∷ rest} e,
        get_elem?-lt query i (get_elem?-drop i query {x = c} {ys = body ++ quote ∷ rest} e),
        quoted_loop quote fuel (i + 1) body rest (omega (arith, l)) h q f next,
      )

  -- Quoted text without quotes and backslashes is skipped up to behind its closing quote.
  pub skip_quoted_string-body :
      (quote i : ℕ) (body rest : List ℕ)
      → All (λ c. (c == b'\\' || c == quote) ≡ false) body
      → (quote == b'\\') ≡ false
      → Fails (λ c. c == quote) rest
      → drop i query ≡ body ++ quote ∷ rest
      → skip_quoted_string query i quote ≡ i + length body + 1
  unfolding skip_quoted_string
  skip_quoted_string-body quote i body rest h q f e =
      quoted_loop quote (suc (length query)) i body rest
        (omega (
          arith,
          ap (λ (t : List ℕ). length t) e,
          length-append body (quote ∷ rest),
          length-drop i query,
        ))
        h q f e

  pub subarray-at :
      (i : ℕ) (text rest : List ℕ)
      → drop i query ≡ text ++ rest
      → subarray query i (i + length text) ≡ text
  subarray-at i text rest e =
      let n : i + length text - i ≡ length text = omega arith in
      rw (n, e) (take-length_append text rest)

  -- The position behind a text, and what is there.
  pub drop-behind :
      (i : ℕ) (text rest : List ℕ)
      → drop i query ≡ text ++ rest
      → drop (i + length text) query ≡ rest
  drop-behind i text rest e =
      sym (drop-drop i (length text) (i + length text) query refl)
      ∙ ap (drop (length text)) e
      ∙ drop-length_append text rest

  -- A type that a brace ends is scanned up to there.
  pub type_scan :
      (i : ℕ) (type rest : List ℕ)
      → closes type 0 ≡ true
      → drop i query ≡ type ++ b'}' ∷ rest
      → scan (type_step query) (suc (length query)) (i, 0) ≡ (i + length type, 0)
  type_scan i type rest h e =
      type_loop (suc (length query)) i 0 type rest
        (omega (
          arith,
          ap (λ (t : List ℕ). length t) e,
          length-append type (b'}' ∷ rest),
          length-drop i query,
        ))
        h e

  pub is_at-drop :
      (i c : ℕ) (rest : List ℕ) → drop i query ≡ c ∷ rest → (d : ℕ) → is_at query i d ≡ (c == d)
  is_at-drop i c rest e d = ground (arith, get_elem?-drop i query {x = c} {ys = rest} e)
