-- ===== src/Native/TypeName/Lists.antt =====
-- Lists of types, as they stand between the parentheses of a type, and the parts of a type's text.
use chwire.Prelude.{
  ℕ, zero, suc, ◌+◌, ◌-◌, ◌≡◌, ◌≢◌, refl, ap, ◌∙◌, sym, min, max, ◌==◌, if◌then◌else◌, List, [],
  ◌∷◌, ◌++◌, length, All, Bool, true, false, ◌&&◌, arith, append-nil, append_assoc, Bool-cases, inl,
  inr, length-append, eq_of_==, take-length_append, drop-length_append,
}
use chwire.Prelude.Int.{pos}
use chwire.Prelude.Scan.{trim, trim_start}
use chwire.Native.TypeName.{
  Parsing, backtick, open_paren, close_paren, comma, unquoted, character, type_loop, with_last,
  parse_type_list, after_first, after_last, substring, extract_type_args,
}

-- A text without quotes that closes the parentheses it opens, from `depth` on, and has no comma
-- outside of them.
abbrev pub closes : ℕ → List ℕ → Bool
closes depth [] = depth == 0
closes depth (c ∷ t) =
    if c == backtick
    then false
    else if c == open_paren
    then closes (suc depth) t
    else if c == close_paren
    then elim depth [ zero ↦ false | suc d ↦ closes d t ]
    else if c == comma && depth == 0
    then false
    else closes depth t

abbrev pub IsTypeText : List ℕ → Type 0
IsTypeText t = (closes 0 t ≡ true) × (trim t ≡ t) × (t ≢ [])

-- `types.join(", ")`
abbrev pub join : List ℕ → List (List ℕ) → List ℕ
join t [] = t
join t (u ∷ types) = t ++ comma ∷ 32 ∷ join u types

abbrev outside : List (List ℕ) → ℕ → List ℕ → Parsing
outside types depth current = record {
  types = types;
  depth = pos depth;
  in_quote = false;
  current = current;
}

-- Outside quotes the loop takes one character at a time.
loop_step :
    (c : ℕ) (t : List ℕ) (types : List (List ℕ)) (depth : ℕ) (current : List ℕ)
    → type_loop (c ∷ t) (outside types depth current)
      ≡ type_loop t (character c (outside types depth current))
unfolding type_loop
loop_step c [] types depth current = refl
loop_step c (d ∷ t) types depth current = refl

-- A character that is kept, with the depth behind it
kept :
    (c : ℕ) (t rest : List ℕ) (types : List (List ℕ)) (depth : ℕ) (current : List ℕ) (next : ℕ)
    → character c (outside types depth current) ≡ outside types next (current ++ c ∷ [])
    → (type_loop (t ++ rest) (outside types next (current ++ c ∷ []))
        ≡ type_loop rest (outside types 0 ((current ++ c ∷ []) ++ t)))
    → type_loop (c ∷ t ++ rest) (outside types depth current)
      ≡ type_loop rest (outside types 0 (current ++ c ∷ t))
kept c t rest types depth current next e h =
    loop_step c (t ++ rest) types depth current
    ∙ ap (type_loop (t ++ rest)) e
    ∙ h
    ∙ ap (λ (x : List ℕ). type_loop rest (outside types 0 x)) (append_assoc current (c ∷ []) t)

module _ (types : List (List ℕ)) (current : List ℕ) where
  open_character :
      (depth : ℕ)
      → character open_paren (outside types depth current)
        ≡ outside types (suc depth) (current ++ open_paren ∷ [])
  unfolding character unquoted
  open_character depth = refl

  close_character :
      (depth : ℕ)
      → character close_paren (outside types (suc depth) current)
        ≡ outside types depth (current ++ close_paren ∷ [])
  unfolding character unquoted
  close_character depth = refl

  plain_character :
      (c depth : ℕ)
      → (c == backtick) ≡ false
      → (c == open_paren) ≡ false
      → (c == close_paren) ≡ false
      → (c == comma && depth == 0) ≡ false
      → character c (outside types depth current) ≡ outside types depth (current ++ c ∷ [])
  unfolding character unquoted
  plain_character c zero b o p k = rw (b, o, p, k)
  plain_character c (suc depth) b o p k = elim (Bool-cases (c == comma)) [
    | inl y ↦ rw (b, o, p, y)
    | inr n ↦ rw (b, o, p, n)
  ]

  comma-character :
      character comma (outside types 0 current) ≡ outside (types ++ trim current ∷ []) 0 []
  unfolding character unquoted
  comma-character = refl

-- A closing parenthesis stands inside of one.
inside :
    (t : List ℕ) (depth : ℕ)
    → elim depth [ zero ↦ false | suc d ↦ closes d t ] ≡ true
    → (d : ℕ) × (depth ≡ suc d) × (closes d t ≡ true)
inside t zero h = absurd (cc h)
inside t (suc d) h = (d, refl, h)

-- The loop keeps a text that closes its parentheses.
loop_keeps :
    (t rest : List ℕ) (types : List (List ℕ)) (depth : ℕ) (current : List ℕ)
    → closes depth t ≡ true
    → type_loop (t ++ rest) (outside types depth current)
      ≡ type_loop rest (outside types 0 (current ++ t))
loop_keeps [] rest types depth current h =
    let z : depth ≡ 0 = ground (arith, h) in rw (z, append-nil current)
loop_keeps (c ∷ t) rest types depth current h = elim (Bool-cases (c == backtick)) [
  | inl quote ↦ absurd (cc (rw quote at h))
  | inr b ↦ elim (Bool-cases (c == open_paren)) [
    | inl opens ↦
        let e : c ≡ open_paren = eq_of_== c open_paren opens in
        rw e (
          kept open_paren t rest types depth current (suc depth)
            (open_character types current depth)
            (loop_keeps t rest types (suc depth) (current ++ open_paren ∷ []) (rw (b, opens) at h)))
    | inr o ↦ elim (Bool-cases (c == close_paren)) [
      | inl shuts ↦
          let e : c ≡ close_paren = eq_of_== c close_paren shuts in
          let (d, n, h') = inside t depth (rw (b, o, shuts) at h) in
          rw (e, n)
            (kept close_paren t rest types (suc d) current d (close_character types current d)
              (loop_keeps t rest types d (current ++ close_paren ∷ []) h'))
      | inr p ↦ elim (Bool-cases (c == comma && depth == 0)) [
        | inl splits ↦ absurd (cc (rw (b, o, p, splits) at h))
        | inr k ↦
            kept c t rest types depth current depth (plain_character types current c depth b o p k)
              (loop_keeps t rest types depth (current ++ c ∷ []) (rw (b, o, p, k) at h))
      ]
    ]
  ]
]

-- A list of types, joined by commas, goes through the loop type by type; the last one is what is
-- left over.
final : List (List ℕ) → List ℕ → List (List ℕ) → List ℕ → Parsing
final types current_front [] t = outside types 0 (current_front ++ t)
final types current_front (u ∷ more) t =
    final (types ++ trim (current_front ++ t) ∷ []) (32 ∷ []) more u

loop_join :
    (more : List (List ℕ)) (t : List ℕ) (types : List (List ℕ)) (front : List ℕ)
    → IsTypeText t
    → All IsTypeText more
    → type_loop (join t more) (outside types 0 front) ≡ final types front more t
unfolding final
loop_join [] t types front (c, m, n) h =
    ap (λ (x : List ℕ). type_loop x (outside types 0 front)) (sym (append-nil t))
    ∙ loop_keeps t [] types 0 front c
    ∙ unfold type_loop in refl
loop_join (u ∷ more) t types front (c, m, n) (hu, h) =
    loop_keeps t (comma ∷ 32 ∷ join u more) types 0 front c
    ∙ loop_step comma (32 ∷ join u more) types 0 (front ++ t)
    ∙ ap (type_loop (32 ∷ join u more)) (comma-character types (front ++ t))
    ∙ loop_step 32 (join u more) (types ++ trim (front ++ t) ∷ []) 0 []
    ∙ ap (type_loop (join u more))
        (plain_character (types ++ trim (front ++ t) ∷ []) [] 32 0 refl refl refl refl)
    ∙ loop_join more u (types ++ trim (front ++ t) ∷ []) (32 ∷ []) hu h

trim_blank : (t : List ℕ) → trim (32 ∷ t) ≡ trim t
unfolding trim trim_start
trim_blank t = refl

with_last-append :
    (types : List (List ℕ)) (t : List ℕ) → t ≢ [] → with_last types t ≡ types ++ t ∷ []
unfolding with_last
with_last-append types [] n = absurd (n refl)
with_last-append types (c ∷ t) n = refl

final_types :
    (more : List (List ℕ)) (t : List ℕ) (types : List (List ℕ)) (front : List ℕ)
    → trim (front ++ t) ≡ t
    → IsTypeText t
    → All IsTypeText more
    → with_last (final types front more t).types (trim (final types front more t).current)
      ≡ types ++ t ∷ more
unfolding final
final_types [] t types front e (c, m, n) h = ap (with_last types) e ∙ with_last-append types t n
final_types (u ∷ more) t types front e (c, m, n) ((cu, mu, nu), h) =
    final_types more u (types ++ trim (front ++ t) ∷ []) (32 ∷ []) (trim_blank u ∙ mu) (cu, mu, nu)
      h
    ∙ ap (λ (x : List ℕ). (types ++ x ∷ []) ++ u ∷ more) e
    ∙ append_assoc types (t ∷ []) (u ∷ more)

-- Types without quotes that close the parentheses they open, with no comma outside of them, with no
-- blanks at their ends and not empty, are the parts of the list that joins them by commas and
-- blanks.
pub parse_type_list-join :
    (t : List ℕ) (more : List (List ℕ))
    → IsTypeText t
    → All IsTypeText more
    → parse_type_list (join t more) ≡ t ∷ more
unfolding parse_type_list
parse_type_list-join t more h hs =
    ap (λ (p : Parsing). with_last p.types (trim p.current)) (loop_join more t [] [] h hs)
    ∙ final_types more t [] [] (h.1) h hs

abbrev pub Without : ℕ → List ℕ → Type 0
Without c t = All (λ (x : ℕ). (x == c) ≡ false) t

after_first-append :
    (c : ℕ) (front back : List ℕ)
    → Without c front
    → after_first c (front ++ c ∷ back) ≡ suc (length front)
unfolding after_first
after_first-append c [] back h = let e : (c == c) ≡ true = ground arith in rw e
after_first-append c (x ∷ front) back (p, h) =
    let z : (suc (length front) == 0) ≡ false = ground arith in
    rw (p, after_first-append c front back h, z)

after_last-append : (c : ℕ) (front : List ℕ) → after_last c (front ++ c ∷ []) ≡ suc (length front)
unfolding after_last
after_last-append c [] = let e : (c == c) ≡ true = ground arith in rw e
after_last-append c (x ∷ front) =
    let z : (suc (length front) == 0) ≡ false = ground arith in rw (after_last-append c front, z)

after_last-Without : (c : ℕ) (t : List ℕ) → Without c t → after_last c t ≡ 0
unfolding after_last
after_last-Without c [] h = refl
after_last-Without c (x ∷ t) (p, h) = rw (after_last-Without c t h, p)

substring_middle :
    (front middle back : List ℕ)
    → substring (front ++ (middle ++ back)) (length front) (length front + length middle) ≡ middle
unfolding substring
substring_middle front middle back =
    let low : min (length front) (length front + length middle) ≡ length front = omega arith in
    let size : max (length front) (length front + length middle) - length front ≡ length middle =
      omega arith in
    rw (low, size, drop-length_append front (middle ++ back), take-length_append middle back)

substring_front : (front back : List ℕ) → substring (front ++ back) (length front) 0 ≡ front
unfolding substring
substring_front front back =
    let low : min (length front) 0 ≡ 0 = omega arith in
    let size : max (length front) 0 - 0 ≡ length front = omega arith in
    rw (low, size, take-length_append front back)

-- The arguments of a type are what stands between its first opening and its last closing
-- parenthesis. Of a type that does not close, they are everything up to and including the first
-- opening parenthesis, since the bounds of `substring` come in the wrong order.
pub extract_type_args-join :
    (name : List ℕ)
    → Without open_paren name
    → ((args : List ℕ) → extract_type_args (name ++ open_paren ∷ (args ++ close_paren ∷ [])) ≡ args)
      × ((rest : List ℕ)
          → Without close_paren (name ++ open_paren ∷ rest)
          → extract_type_args (name ++ open_paren ∷ rest) ≡ name ++ open_paren ∷ [])
unfolding extract_type_args
extract_type_args-join name h = (
  λ args.
      let front : List ℕ = name ++ open_paren ∷ [] in
      let a : name ++ open_paren ∷ (args ++ close_paren ∷ [])
          ≡ front ++ (args ++ close_paren ∷ []) =
        sym (append_assoc name (open_paren ∷ []) (args ++ close_paren ∷ [])) in
      let b : name ++ open_paren ∷ (args ++ close_paren ∷ [])
          ≡ (front ++ args) ++ close_paren ∷ [] =
        a ∙ sym (append_assoc front args (close_paren ∷ [])) in
      let n : length front ≡ suc (length name) =
        omega (arith, length-append name (open_paren ∷ [])) in
      let m : suc (length (front ++ args)) - 1 ≡ length front + length args =
        omega (arith, length-append front args) in
      ap
        (λ (k : ℕ).
          substring (name ++ open_paren ∷ (args ++ close_paren ∷ [])) k
            (after_last close_paren (name ++ open_paren ∷ (args ++ close_paren ∷ [])) - 1))
        (after_first-append open_paren name (args ++ close_paren ∷ []) h ∙ sym n)
      ∙ ap
          (λ (k : ℕ).
            substring (name ++ open_paren ∷ (args ++ close_paren ∷ [])) (length front) (k - 1))
          (ap (after_last close_paren) b ∙ after_last-append close_paren (front ++ args))
      ∙ ap (substring (name ++ open_paren ∷ (args ++ close_paren ∷ [])) (length front)) m
      ∙ ap (λ (t : List ℕ). substring t (length front) (length front + length args)) a
      ∙ substring_middle front args (close_paren ∷ []),
  λ rest u.
      let front : List ℕ = name ++ open_paren ∷ [] in
      let a : name ++ open_paren ∷ rest ≡ front ++ rest =
        sym (append_assoc name (open_paren ∷ []) rest) in
      let n : length front ≡ suc (length name) =
        omega (arith, length-append name (open_paren ∷ [])) in
      ap
        (λ (k : ℕ).
          substring (name ++ open_paren ∷ rest) k
            (after_last close_paren (name ++ open_paren ∷ rest) - 1))
        (after_first-append open_paren name rest h ∙ sym n)
      ∙ ap (λ (k : ℕ). substring (name ++ open_paren ∷ rest) (length front) (k - 1))
          (after_last-Without close_paren (name ++ open_paren ∷ rest) u)
      ∙ ap (λ (t : List ℕ). substring t (length front) 0) a
      ∙ substring_front front rest,
)
