-- ===== src/Params/Declared.antt =====
-- What `serializeParams` returns.
use chwire.Prelude.{
  ℕ, ◌≤◌, ◌≡◌, refl, ap, ◌∙◌, sym, if◌then◌else◌, List, [], ◌∷◌, true, false, Option, none, some,
  ◌⊎◌, Bool-cases, Option-cases, inl, inr,
}
use chwire.Prelude.Result.{Error, Result, good, bad, ◌>>=◌}
use chwire.Compression.{equals}
use chwire.Compression.RoundTrip.{equals→eq}
use chwire.Params.{
  Types, get, proto, Literals, assign, literal_of, extract_param_types, serialize_loop,
  serialize_params,
}
use chwire.Params.Pieces.{Piece, IsQuery, render, declared}
use chwire.Params.Found.{extract_param_types-render}

-- What is given or returned under a name
abbrev pub entry {ℓ} : {A : Type ℓ} → List ℕ → List (List ℕ × A) → Option A
entry name [] = none
entry name ((n, a) ∷ pairs) = let rest = entry name pairs in if equals n name then some a else rest

module _ {V : Type 0} (to_text : V → List ℕ) (to_literal : List ℕ → V → Result (Option (List ℕ)))
    (type_of : List ℕ → Option (List ℕ)) where
  -- What stands under a name in the result: the literal of the value that is given, in the type that
  -- is declared, and nothing where one of them is missing. `__proto__` never stands in the result.
  abbrev pub Holds : List ℕ → Option V → Option (List ℕ) → Option (Option (List ℕ)) → Type 0
  Holds name (some value) (some type) o =
      (l : Option (List ℕ)) × (literal_of to_text to_literal type value ≡ good l)
      × (o ≡ (if equals name proto then none else some l))
  Holds name (some value) none o = o ≡ none
  Holds name none type o = o ≡ none

  -- One of the parameters is declared, and its literal throws the error.
  abbrev pub Throws : Error → List (List ℕ × V) → Type 0
  Throws x [] = 1 ≤ 0
  Throws x ((name, value) ∷ params) =
      ((type : List ℕ) × (type_of name ≡ some type)
        × (literal_of to_text to_literal type value ≡ bad x))
      ⊎ Throws x params

  abbrev pub IsSerialized : List (List ℕ × V) → Result Literals → Type 0
  IsSerialized params (good out) =
      (name : List ℕ) → Holds name (entry name params) (type_of name) (entry name out)
  IsSerialized params (bad x) = Throws x params

  undeclared :
      (name : List ℕ) (v : Option V) (o : Option (Option (List ℕ))) → Holds name v none o → o ≡ none
  undeclared name none o h = h
  undeclared name (some value) o h = h

  ignored :
      (n : List ℕ) (value : V) (params : List (List ℕ × V)) (result : Result Literals)
      → type_of n ≡ none
      → IsSerialized params result
      → IsSerialized ((n, value) ∷ params) result
  ignored n value params (bad x) e h = inr h
  ignored n value params (good out) e h = λ name. elim (Bool-cases (equals n name)) [
    | inl same ↦
        let nothing : type_of name ≡ none = ap type_of (sym (equals→eq n name same)) ∙ e in
        let h' : Holds name (entry name params) none (entry name out) = rw nothing at (h name) in
        rw (same, nothing) (undeclared name (entry name params) (entry name out) h')
    | inr other ↦ rw other (h name)
  ]

  -- `__proto__` is in no result.
  never_proto :
      (name : List ℕ) (v : Option V) (t : Option (List ℕ)) (o : Option (Option (List ℕ)))
      → equals name proto ≡ true
      → Holds name v t o
      → o ≡ none
  never_proto name none t o e h = h
  never_proto name (some value) none o e h = h
  never_proto name (some value) (some type) o e (l, converts, h) = rw e at h

  assigned :
      (n : List ℕ) (value : V) (type : List ℕ) (literal : Option (List ℕ))
      (params : List (List ℕ × V)) (others : Literals)
      → type_of n ≡ some type
      → literal_of to_text to_literal type value ≡ good literal
      → IsSerialized params (good others)
      → IsSerialized ((n, value) ∷ params) (good (assign n literal others))
  unfolding assign
  assigned n value type literal params others e c h = λ name. elim (Bool-cases (equals n name)) [
    | inl same ↦
        let p : n ≡ name = equals→eq n name same in
        let typed : type_of name ≡ some type = ap type_of (sym p) ∙ e in
        elim (Bool-cases (equals n proto)) [
          | inl hidden ↦
              let hidden' : equals name proto ≡ true = ap (λ m. equals m proto) (sym p) ∙ hidden in
              rw (same, typed, hidden, hidden')
                (
                  literal,
                  c,
                  never_proto name (entry name params) (type_of name) (entry name others) hidden'
                      (h name),
                )
          | inr shown ↦
              let shown' : equals name proto ≡ false = ap (λ m. equals m proto) (sym p) ∙ shown in
              rw (same, typed, shown, shown', same) (literal, c, refl)
        ]
    | inr other ↦ elim (Bool-cases (equals n proto)) [
      | inl hidden ↦ rw (other, hidden) (h name)
      | inr shown ↦ rw (other, shown, other) (h name)
    ]
  ]

  in_front :
      (n : List ℕ) (value : V) (type : List ℕ) (params : List (List ℕ × V))
      (literal : Result (Option (List ℕ))) (rest : Result Literals)
      → type_of n ≡ some type
      → literal_of to_text to_literal type value ≡ literal
      → IsSerialized params rest
      → IsSerialized
          ((n, value) ∷ params)
          (literal >>= λ l. rest >>= λ others. good (assign n l others))
  in_front n value type params (bad x) rest e c h = inl (type, e, c)
  in_front n value type params (good l) (bad x) e c h = inr h
  in_front n value type params (good l) (good others) e c h =
      assigned n value type l params others e c h

  serialize_loop-IsSerialized :
      (types : Types) (params : List (List ℕ × V))
      → ((name : List ℕ) → get name types ≡ type_of name)
      → IsSerialized params (serialize_loop to_text to_literal types params)
  unfolding serialize_loop
  serialize_loop-IsSerialized types [] d = unfold serialize_loop in λ name. refl
  serialize_loop-IsSerialized types ((n, value) ∷ params) d =
      let h = serialize_loop-IsSerialized types params d in
      elim (Option-cases (get n types)) [
        | inl unknown ↦
            rw (serialize_loop, unknown)
              (ignored n value params (serialize_loop to_text to_literal types params)
                (sym (d n) ∙ unknown) h)
        | inr (type, known) ↦
            rw (serialize_loop, known)
              (in_front n value type params (literal_of to_text to_literal type value)
                (serialize_loop to_text to_literal types params) (sym (d n) ∙ known) refl h)
      ]

module _ {V : Type 0} (to_text : V → List ℕ)
    (to_literal : List ℕ → V → Result (Option (List ℕ))) where
  -- The query is written of plain characters, which open no quotes, comment or placeholder; of quoted
  -- text without backslashes and without its own quote, inside or right behind it; and of placeholders
  -- with a word for a name and a trimmed type that begins with a letter or an underscore, has no quotes
  -- and no closing braces, and closes its parentheses. Where `serializeParams` returns, under each name
  -- stands the literal of the value given under it, in the type of the first placeholder with the name;
  -- nothing stands under a name that is not given, not a placeholder's, or `__proto__`. What it throws
  -- is what the literal of a parameter throws that a placeholder declares.
  pub serialize_params-IsSerialized :
      (pieces : List Piece) (params : List (List ℕ × V))
      → IsQuery pieces
      → IsSerialized to_text to_literal
          (λ name. declared name pieces)
          params
          (serialize_params to_text to_literal (render pieces) params)
  serialize_params-IsSerialized pieces params h =
      unfold serialize_params in
      serialize_loop-IsSerialized to_text to_literal (λ name. declared name pieces)
        (extract_param_types (render pieces)) params
        (λ name. extract_param_types-render pieces name h)
