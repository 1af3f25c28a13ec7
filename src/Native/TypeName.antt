-- ===== src/Native/TypeName.antt =====
-- native/codecs/base.ts: the texts of types, parseTypeList and extractTypeArgs.
pub mod Lists
use chwire.Prelude.{
  ℕ, zero, suc, ◌+◌, ◌-◌, ◌≤◌, ◌<◌, min, max, ltb, ◌==◌, if◌then◌else◌, List, [], ◌∷◌, ◌++◌, length,
  take, drop, subarray, Bool, true, false, not, ◌&&◌, Option, none, some,
}
use chwire.Prelude.Int.{ℤ, pos, negsuc}
use chwire.Prelude.Scan.{trim}

-- The variables of the loop; `depth` may go below zero.
pub record Parsing : Type 0 where
  pub types : List (List ℕ)
  pub depth : ℤ
  pub in_quote : Bool
  pub current : List ℕ

abbrev pub increment : ℤ → ℤ
increment (pos n) = pos (suc n)
increment (negsuc zero) = pos 0
increment (negsuc (suc n)) = negsuc n

abbrev pub decrement : ℤ → ℤ
decrement (pos zero) = negsuc 0
decrement (pos (suc n)) = pos n
decrement (negsuc n) = negsuc (suc n)

abbrev pub is_zero : ℤ → Bool
is_zero (pos zero) = true
is_zero (pos (suc n)) = false
is_zero (negsuc n) = false

-- The characters '`', '(', ')', ',' and '\'
abbrev pub backtick : ℕ
backtick = 96

abbrev pub open_paren : ℕ
open_paren = 40

abbrev pub close_paren : ℕ
close_paren = 41

abbrev pub comma : ℕ
comma = 44

abbrev pub backslash : ℕ
backslash = 92

abbrev pub add_char : ℕ → Parsing → Parsing
add_char c p = record p { current = p.current ++ c ∷ [] }

-- A character outside quotes
unfoldable pub unquoted : ℕ → Parsing → Parsing
unquoted c p =
    if c == open_paren
    then add_char c (record p { depth = increment p.depth })
    else if c == close_paren
    then add_char c (record p { depth = decrement p.depth })
    else if c == comma && is_zero p.depth
    then record p { types = p.types ++ trim p.current ∷ []; current = [] }
    else add_char c p

-- The character may open or close a quote first.
unfoldable pub character : ℕ → Parsing → Parsing
unfolding unquoted
character c p =
    let p' = if c == backtick then record p { in_quote = not p.in_quote } else p in
    if p'.in_quote then add_char c p' else unquoted c p'

-- The loop. Inside quotes a backslash takes the next character with it.
unfoldable pub type_loop : List ℕ → Parsing → Parsing
unfolding character
type_loop [] p = p
type_loop (c ∷ []) p = character c p
type_loop (c ∷ d ∷ inner) p = elim (p.in_quote && c == backslash) [
  | true ↦ type_loop inner (add_char d (add_char c p))
  | false ↦ type_loop (d ∷ inner) (character c p)
]

-- What is left over is a type, unless it is blank.
unfoldable pub with_last : List (List ℕ) → List ℕ → List (List ℕ)
with_last types [] = types
with_last types (c ∷ current) = types ++ (c ∷ current) ∷ []

unfoldable pub parse_type_list : List ℕ → List (List ℕ)
unfolding type_loop with_last
parse_type_list inner =
    let p =
      type_loop inner (record { types = []; depth = pos 0; in_quote = false; current = [] }) in
    with_last p.types (trim p.current)

-- `indexOf` and `lastIndexOf` of a character, plus one; 0 where there is none
unfoldable pub after_first : ℕ → List ℕ → ℕ
after_first c [] = 0
after_first c (x ∷ xs) =
    let rest = after_first c xs in if x == c then 1 else if rest == 0 then 0 else suc rest

unfoldable pub after_last : ℕ → List ℕ → ℕ
after_last c [] = 0
after_last c (x ∷ xs) =
    let rest = after_last c xs in if rest == 0 then (if x == c then 1 else 0) else suc rest

-- `text.substring(a, b)`, whose arguments may come in either order; `b` of -1 counts as 0.
unfoldable pub substring : List ℕ → ℕ → ℕ → List ℕ
substring text a b = subarray text (min a b) (max a b)

unfoldable pub extract_type_args : List ℕ → List ℕ
unfolding after_first after_last substring
extract_type_args type =
    substring type (after_first open_paren type) (after_last close_paren type - 1)
