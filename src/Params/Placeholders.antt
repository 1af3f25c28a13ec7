-- ===== src/Params/Placeholders.antt =====
-- What `parseParam` reads of a placeholder.
use chwire.Prelude.{
  ℕ, zero, suc, ◌+◌, ◌≡◌, refl, ap, ◌∙◌, sym, ◌==◌, ◌||◌, not, true, false, List, ◌∷◌, ◌++◌, length,
  drop, drop-suc, All, arith, replicate, length-replicate, some,
}
use native.Mathlib.Numerals.{add-one}
use chwire.Prelude.Scan.{trim}
use chwire.Params.{parse_param, is_whitespace, is_word_char, is_letter}
use chwire.Params.Runs.{
  closes, skip_while-run, skip_while-nothing, subarray-at, drop-behind, type_scan, is_at-drop,
}

-- A placeholder: a name, the spaces between the colon and the type, and the type
pub record Placeholder : Type 0 where
  pub first : ℕ
  pub others : List ℕ
  pub spaces : ℕ
  pub start : ℕ
  pub tail : List ℕ

abbrev pub name_of : Placeholder → List ℕ
name_of p = p.first ∷ p.others

abbrev pub type_of : Placeholder → List ℕ
type_of p = p.start ∷ p.tail

-- The type with its closing brace, and `name: type}`, in front of a text
abbrev pub ending : Placeholder → List ℕ → List ℕ
ending p rest = type_of p ++ b'}' ∷ rest

abbrev pub placed : Placeholder → List ℕ → List ℕ
placed p rest = name_of p ++ b':' ∷ (replicate p.spaces b' ' ++ ending p rest)

-- The name is a word; the type starts like one, has no space around it, and has no quotes or braces
-- and only parentheses that are closed.
pub record IsPlaceholder (p : Placeholder) : Type 0 where
  pub word : All (λ c. is_word_char c ≡ true) (name_of p)
  pub begins : (p.start == b'_' || is_letter p.start) ≡ true
  pub whole : trim (type_of p) ≡ type_of p
  pub balanced : closes (type_of p) 0 ≡ true

word_not_space : (c : ℕ) → is_word_char c ≡ true → is_whitespace c ≡ false
word_not_space c h = ground arith

start_not_space : (c : ℕ) → (c == b'_' || is_letter c) ≡ true → is_whitespace c ≡ false
start_not_space c h = ground arith

spaces_are : (n : ℕ) → All (λ c. is_whitespace c ≡ true) (replicate n b' ')
spaces_are zero = tt
spaces_are (suc n) = (refl, spaces_are n)

module _ (query : List ℕ) where
  -- A placeholder is read with its name and its type, up to behind its closing brace.
  pub parse_param-placed :
      (i : ℕ) (p : Placeholder) (rest : List ℕ)
      → IsPlaceholder p
      → drop i query ≡ placed p rest
      → (j : ℕ) × (parse_param query i ≡ some (name_of p, type_of p, j)) × (drop j query ≡ rest)
  unfolding parse_param
  parse_param-placed i p rest h e =
      let gap : List ℕ = replicate p.spaces b' ' in
      let colon : ℕ = i + length (name_of p) in
      let e1 : drop colon query ≡ b':' ∷ (gap ++ ending p rest) =
        drop-behind query i (name_of p) (b':' ∷ (gap ++ ending p rest)) e in
      let e2 : drop (colon + 1) query ≡ gap ++ ending p rest =
        ap (λ n. drop n query) (add-one colon) ∙ drop-suc colon query e1 in
      let at_type : ℕ = colon + 1 + p.spaces in
      let n : colon + 1 + length gap ≡ at_type =
        omega (arith, length-replicate {A = ℕ} p.spaces b' ') in
      let e3 : drop at_type query ≡ ending p rest =
        ap (λ n. drop n query) (sym n) ∙ drop-behind query (colon + 1) gap (ending p rest) e2 in
      let e4 : drop (at_type + length (type_of p)) query ≡ b'}' ∷ rest =
        drop-behind query at_type (type_of p) (b'}' ∷ rest) e3 in
      let named : (colon == i) ≡ false = ground arith in
      (
        at_type + length (type_of p) + 1,
        rw
            (
              skip_while-nothing query is_whitespace i (placed p rest)
                  (word_not_space p.first h.word.0) e,
              skip_while-run query is_word_char i (name_of p) (b':' ∷ (gap ++ ending p rest)) h.word
                  refl e,
              skip_while-nothing query is_whitespace colon (b':' ∷ (gap ++ ending p rest)) refl e1,
              skip_while-run query is_whitespace (colon + 1) gap (ending p rest)
                  (spaces_are p.spaces) (start_not_space p.start h.begins) e2,
              n,
              type_scan query at_type (type_of p) rest h.balanced e3,
              subarray-at query at_type (type_of p) (b'}' ∷ rest) e3,
              h.whole,
              skip_while-nothing query (λ c. not (c == b'}')) (at_type + length (type_of p))
                  (b'}' ∷ rest) refl e4,
              subarray-at query i (name_of p) (b':' ∷ (gap ++ ending p rest)) e,
              is_at-drop query colon b':' (gap ++ ending p rest) e1 b':',
              h.begins,
              named,
            )
            refl,
        ap (λ n. drop n query) (add-one (at_type + length (type_of p)))
            ∙ drop-suc (at_type + length (type_of p)) query e4,
      )
