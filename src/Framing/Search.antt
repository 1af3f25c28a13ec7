-- ===== src/Framing/Search.antt =====
-- What is found in a text, and what rescanning only its end finds where more text has come.
use chwire.Prelude.{
  ℕ, zero, suc, ◌+◌, ◌≤◌, ◌≡◌, refl, ap, ◌∙◌, List, [], ◌∷◌, ◌++◌, length, drop, true, Option, none,
  some, arith, Bool-cases, inl, inr,
}
use chwire.Prelude.Scan.{starts_with}
use chwire.Framing.{shift, plus, find, index_of}

starts_with-append :
    (prefix text more : List ℕ)
    → length prefix ≤ length text
    → starts_with prefix (text ++ more) ≡ starts_with prefix text
unfolding starts_with
starts_with-append [] text more h = refl
starts_with-append (c ∷ prefix) [] more h = absurd (omega arith)
starts_with-append (c ∷ prefix) (d ∷ text) more h =
    rw (starts_with-append prefix text more (omega arith))

starts_with_fits :
    (prefix text : List ℕ) → starts_with prefix text ≡ true → length prefix ≤ length text
unfolding starts_with
starts_with_fits [] text h = omega arith
starts_with_fits (c ∷ prefix) [] h = absurd (cc h)
starts_with_fits (c ∷ prefix) (d ∷ text) h = ground (arith, starts_with_fits prefix text)

shift-some : (o : Option ℕ) (k : ℕ) → shift o ≡ some k → (j : ℕ) × (o ≡ some j) × (k ≡ suc j)
shift-some none k e = absurd (cc e)
shift-some (some j) k e = (j, refl, cc e)

shift-none : (o : Option ℕ) → shift o ≡ none → o ≡ none
shift-none none e = refl
shift-none (some j) e = absurd (cc e)

plus-zero : (o : Option ℕ) → plus 0 o ≡ o
plus-zero none = refl
plus-zero (some k) = ap some (omega arith)

plus-suc : (n : ℕ) (o : Option ℕ) → plus (suc n) o ≡ shift (plus n o)
plus-suc n none = refl
plus-suc n (some k) = ap some (omega arith)

module _ (delimiter : List ℕ) where
  pub find_fits :
      (text : List ℕ) (k : ℕ) → find delimiter text ≡ some k → k + length delimiter ≤ length text
  unfolding find
  find_fits [] k e = absurd (cc e)
  find_fits (c ∷ text) k e = elim (Bool-cases (starts_with delimiter (c ∷ text))) [
    | inl here ↦
        let e' : some 0 ≡ some k = rw here at e in
        let z : 0 ≡ k = cc e' in omega (arith, z, starts_with_fits delimiter (c ∷ text) here)
    | inr not_here ↦
        let (j, f, s) = shift-some (find delimiter text) k (rw not_here at e) in
        omega (arith, s, find_fits text j f)
  ]

  -- What is found stays found where more text comes.
  pub find-append :
      (text more : List ℕ) (k : ℕ)
      → find delimiter text ≡ some k
      → find delimiter (text ++ more) ≡ some k
  unfolding find
  find-append [] more k e = absurd (cc e)
  find-append (c ∷ text) more k e = elim (Bool-cases (starts_with delimiter (c ∷ text))) [
    | inl here ↦
        let e' : some 0 ≡ some k = rw here at e in
        rw
          (
            starts_with-append delimiter (c ∷ text) more
                (starts_with_fits delimiter (c ∷ text) here),
            here,
          )
          e'
    | inr not_here ↦
        let (j, f, s) = shift-some (find delimiter text) k (rw not_here at e) in
        let fits = find_fits text j f in
        rw
          (
            starts_with-append delimiter (c ∷ text) more (omega (arith, fits)),
            not_here,
            find-append text more j f,
            s,
          )
          refl
  ]

  -- No delimiter in the text, and none that starts before `from` where more text comes
  pub find-drop :
      (from : ℕ) (text more : List ℕ)
      → find delimiter text ≡ none
      → from + length delimiter ≤ suc (length text)
      → 1 ≤ length delimiter
      → index_of (text ++ more) delimiter from ≡ find delimiter (text ++ more)
  unfolding index_of find
  find-drop zero text more e h l = plus-zero (find delimiter (text ++ more))
  find-drop (suc from) [] more e h l = absurd (omega arith)
  find-drop (suc from) (c ∷ text) more e h l =
      elim (Bool-cases (starts_with delimiter (c ∷ text))) [
        | inl here ↦ let e' : some 0 ≡ none = rw here at e in absurd (cc e')
        | inr not_here ↦
            rw (starts_with-append delimiter (c ∷ text) more (omega arith), not_here)
              (plus-suc from (find delimiter (drop from (text ++ more)))
                ∙ ap shift (
                    find-drop from text more (shift-none (find delimiter text) (rw not_here at e))
                      (omega arith) l))
      ]

  pub index_of-zero : (text : List ℕ) → index_of text delimiter 0 ≡ find delimiter text
  unfolding index_of
  index_of-zero text = plus-zero (find delimiter text)
