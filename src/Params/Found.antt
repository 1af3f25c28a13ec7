-- ===== src/Params/Found.antt =====
-- The types that `extractParamTypes` finds for a name.
use chwire.Prelude.{
  ℕ, suc, ◌≡◌, refl, ap, ◌∙◌, sym, if◌then◌else◌, List, [], ◌∷◌, ◌++◌, length, arith, Option, none,
  some, Bool-cases, Option-cases, inl, inr,
}
use chwire.Compression.{equals}
use chwire.Compression.RoundTrip.{equals→eq}
use chwire.Params.{Types, get, set_first, extract_param_types}
use chwire.Params.Placeholders.{name_of, type_of}
use chwire.Params.Pieces.{
  Piece, plain, quoted, placeholder, render, IsQuery, recorded, declared, length-pieces,
  extract_loop,
}

or_else : Option (List ℕ) → Option (List ℕ) → Option (List ℕ)
or_else none later = later
or_else (some type) later = some type

get-behind :
    (name n type : List ℕ) (types : Types)
    → get name (types ++ (n, type) ∷ [])
      ≡ or_else (get name types) (if equals n name then some type else none)
unfolding get or_else
get-behind name n type [] = ground arith
get-behind name n type ((m, t) ∷ types) = elim (Bool-cases (equals m name)) [
  | inl same ↦ rw same refl
  | inr other ↦ rw other (get-behind name n type types)
]

get-set_first :
    (name n type : List ℕ) (types : Types) (later : Option (List ℕ))
    → or_else (get name (set_first n type types)) later
      ≡ or_else (get name types) (if equals n name then some type else later)
unfolding set_first or_else
get-set_first name n type types later = elim (Option-cases (get n types)) [
  | inl new ↦ rw (set_first, new, get-behind name n type types) (joined (get name types))
  | inr (t, known) ↦
      rw (set_first, known)
        (elim (Bool-cases (equals n name)) [
          | inl same ↦
              let found : get name types ≡ some t =
                ap (λ m. get m types) (sym (equals→eq n name same)) ∙ known in
              rw found refl
          | inr other ↦ rw other refl
        ])
]
  where
    joined :
        (o : Option (List ℕ))
        → or_else (or_else o (if equals n name then some type else none)) later
          ≡ or_else o (if equals n name then some type else later)
    joined (some t) = refl
    joined none = elim (Bool-cases (equals n name)) [
      | inl same ↦ rw same refl
      | inr other ↦ rw other refl
    ]

get-recorded :
    (name : List ℕ) (types : Types) (pieces : List Piece)
    → get name (recorded types pieces) ≡ or_else (get name types) (declared name pieces)
unfolding or_else
get-recorded name types [] = elim (Option-cases (get name types)) [
  | inl nothing ↦ rw nothing refl
  | inr (t, known) ↦ rw known refl
]
get-recorded name types (plain c ∷ pieces) = get-recorded name types pieces
get-recorded name types (quoted quote body ∷ pieces) = get-recorded name types pieces
get-recorded name types (placeholder p ∷ pieces) =
    get-recorded name (set_first (name_of p) (type_of p) types) pieces
    ∙ get-set_first name (name_of p) (type_of p) types (declared name pieces)

-- In a query of plain characters, quoted text and placeholders, `extractParamTypes` finds for every name the type
-- of the first placeholder with this name, and no type for a name that no placeholder has.
pub extract_param_types-render :
    (pieces : List Piece) (name : List ℕ)
    → IsQuery pieces
    → get name (extract_param_types (render pieces)) ≡ declared name pieces
unfolding extract_param_types get or_else
extract_param_types-render pieces name h =
    ap (get name) (
      extract_loop (render pieces) (suc (length (render pieces))) 0 [] pieces
        (omega (arith, length-pieces pieces)) h refl)
    ∙ get-recorded name [] pieces
