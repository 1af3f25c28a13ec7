-- ===== src/Framing/Fields.antt =====
-- An event of two lines, its kind and its data, is the packet of that kind.
use chwire.Prelude.{
  ℕ, ◌==◌, ◌≡◌, ◌≢◌, refl, ap, ◌∙◌, if◌then◌else◌, List, [], ◌∷◌, ◌++◌, All, Bool, true, false,
  arith, Bool-cases, inl, inr, append_assoc, append-nil,
}
use chwire.Prelude.Text.{codes}
use chwire.Prelude.Scan.{trim, trim_start, starts_with}
use chwire.Prelude.Result.{Result}
use chwire.Framing.Events.{
  Json, kind_of, split_lines, join_lines, without_space, field_loop, event_of, with_fields,
  parse_sse_event,
}

-- A line has no newline in it.
abbrev pub IsLine : List ℕ → Type 0
IsLine = All (λ (c : ℕ). c ≢ 10)

abbrev is_line : List ℕ → Bool
is_line [] = true
is_line (c ∷ text) = if c == 10 then false else is_line text

prefix-IsLine :
    (prefix text : List ℕ) → is_line prefix ≡ true → IsLine text → IsLine (prefix ++ text)
prefix-IsLine [] text e h = h
prefix-IsLine (c ∷ prefix) text e h = elim (Bool-cases (c == 10)) [
  | inl is_newline ↦ let e' : false ≡ true = rw is_newline at e in absurd (cc e')
  | inr is_other ↦ ((λ s. ground (arith, is_other)), prefix-IsLine prefix text (rw is_other at e) h)
]

split_lines_last : (line text : List ℕ) → IsLine text → split_lines line text ≡ (line ++ text) ∷ []
unfolding split_lines
split_lines_last line [] h = rw (append-nil line)
split_lines_last line (c ∷ text) (h, hs) =
    let other : (c == 10) ≡ false = ground (arith, h) in
    rw other (
      split_lines_last (line ++ c ∷ []) text hs
      ∙ ap (λ t. t ∷ []) (append_assoc line (c ∷ []) text))

split_lines_first :
    (line text rest : List ℕ)
    → IsLine text
    → split_lines line (text ++ 10 ∷ rest) ≡ (line ++ text) ∷ split_lines [] rest
unfolding split_lines
split_lines_first line [] rest h = rw (append-nil line)
split_lines_first line (c ∷ text) rest (h, hs) =
    let other : (c == 10) ≡ false = ground (arith, h) in
    rw other (
      split_lines_first (line ++ c ∷ []) text rest hs
      ∙ ap (λ t. t ∷ split_lines [] rest) (append_assoc line (c ∷ []) text))

fields_of_event :
    (name body : List ℕ)
    → trim name ≡ name
    → field_loop ((codes "event: " ++ name) ∷ (codes "data: " ++ body) ∷ []) [] []
      ≡ (name, body ∷ [])
unfolding field_loop starts_with without_space trim trim_start
fields_of_event name body h = rw h

with_fields-event_of :
    {J : Type 0} (json : Json J) (base64_decode : List ℕ → Result (List ℕ)) (name body : List ℕ)
    → name ≢ []
    → with_fields json base64_decode (name, body ∷ [])
      ≡ event_of json base64_decode (kind_of name) body
unfolding with_fields join_lines
with_fields-event_of json base64_decode [] body h = absurd (h refl)
with_fields-event_of json base64_decode (c ∷ name) body h = refl

-- An event of two lines, `event: ` with a name that is not empty and has no white space at its ends,
-- and `data: ` with a body, is what the kind of that name makes of the body. Neither holds a newline.
pub parse_sse_event-event_of :
    {J : Type 0} (json : Json J) (base64_decode : List ℕ → Result (List ℕ)) (name body : List ℕ)
    → name ≢ []
    → trim name ≡ name
    → IsLine name
    → IsLine body
    → parse_sse_event json base64_decode (codes "event: " ++ name ++ 10 ∷ (codes "data: " ++ body))
      ≡ event_of json base64_decode (kind_of name) body
unfolding parse_sse_event
parse_sse_event-event_of json base64_decode name body n h l m =
    ap (λ lines. with_fields json base64_decode (field_loop lines [] []))
      (split_lines_first [] (codes "event: " ++ name) (codes "data: " ++ body)
          (prefix-IsLine (codes "event: ") name refl l)
        ∙ ap (λ t. (codes "event: " ++ name) ∷ t)
            (split_lines_last [] (codes "data: " ++ body)
              (prefix-IsLine (codes "data: ") body refl m)))
    ∙ ap (with_fields json base64_decode) (fields_of_event name body h)
    ∙ with_fields-event_of json base64_decode name body n
