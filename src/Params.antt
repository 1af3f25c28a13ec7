-- ===== src/Params.antt =====
-- params.ts: finding the `{name: Type}` placeholders of a query and serialising the parameters. The
-- codec of a type is a parameter. Positions are indices into the query.
pub mod Scanning
pub mod Declared
pub mod Runs
pub mod Placeholders
pub mod Pieces
pub mod Found
use chwire.Prelude.{
  ℕ, zero, suc, ◌+◌, ◌-◌, ltb, leb, ◌==◌, ◌&&◌, ◌||◌, not, if◌then◌else◌, Bool, true, false, List,
  [], ◌∷◌, ◌++◌, length, take, drop, subarray, get_elem?, Option, none, some,
}
use chwire.Prelude.Text.{codes}
use chwire.Prelude.Scan.{Step, stop, go, scan, is_at, test_at, within, trim}
use chwire.Prelude.Result.{Result, good, bad, ◌>>=◌}
use chwire.Compression.{equals}

module _ (query : List ℕ) where
  abbrev fuel : ℕ
  fuel = suc (length query)

  unfoldable pub quoted_step : ℕ → ℕ → Step ℕ
  quoted_step quote i =
      if leb (length query) i
      then stop i
      else if is_at query i b'\\'
      then go (i + 2)
      else if is_at query i quote
      then if is_at query (i + 1) quote then go (i + 2) else stop (i + 1)
      else go (i + 1)

  unfoldable pub skip_quoted_string : ℕ → ℕ → ℕ
  unfolding quoted_step scan
  skip_quoted_string i quote = scan (quoted_step quote) fuel i

  -- The loops that move over characters of one kind.
  unfoldable pub while_step : (ℕ → Bool) → ℕ → Step ℕ
  while_step p i = if test_at p query i then go (i + 1) else stop i

  unfoldable pub skip_while : (ℕ → Bool) → ℕ → ℕ
  unfolding while_step scan
  skip_while p i = scan (while_step p) fuel i

  unfoldable pub skip_line_comment : ℕ → ℕ
  unfolding skip_while
  skip_line_comment i = skip_while (λ c. not (c == b'\n')) i + 1

  -- Where the loop ends without `*/`, it goes to the end of the query.
  unfoldable pub block_comment_step : ℕ → Step ℕ
  block_comment_step i =
      if leb (length query - 1) i
      then stop (length query)
      else if is_at query i b'*' && is_at query (i + 1) b'/'
      then stop (i + 2)
      else go (i + 1)

  unfoldable pub skip_block_comment : ℕ → ℕ
  unfolding block_comment_step scan
  skip_block_comment i = scan block_comment_step fuel i

abbrev pub is_whitespace : ℕ → Bool
is_whitespace c = c == b' ' || c == b'\t' || c == b'\n' || c == b'\r'

abbrev pub is_letter : ℕ → Bool
is_letter c = within b'a' b'z' c || within b'A' b'Z' c

abbrev pub is_word_char : ℕ → Bool
is_word_char c = is_letter c || within b'0' b'9' c || c == b'_'

module _ (query : List ℕ) where
  -- `parseType`: the position and the depth of parentheses.
  unfoldable pub type_step : ℕ × ℕ → Step (ℕ × ℕ)
  unfolding skip_quoted_string
  type_step (i, depth) =
      if leb (length query) i
      then stop (i, depth)
      else if is_at query i b'\''
      then go (skip_quoted_string query (i + 1) b'\'', depth)
      else if is_at query i b'"'
      then go (skip_quoted_string query (i + 1) b'"', depth)
      else if is_at query i b'('
      then go (i + 1, depth + 1)
      else if is_at query i b')'
      then if depth == 0 then stop (i, depth) else go (i + 1, depth - 1)
      else if is_at query i b'}' && depth == 0
      then stop (i, depth)
      else go (i + 1, depth)

  unfoldable pub parse_type : ℕ → List ℕ × ℕ
  unfolding type_step scan trim
  parse_type start =
      let end = (scan type_step (suc (length query)) (start, 0)).0 in
      (trim (subarray query start end), end)

  -- `parseParam`: the name, the type and the position behind the placeholder.
  unfoldable pub parse_param : ℕ → Option (List ℕ × List ℕ × ℕ)
  unfolding skip_while parse_type
  parse_param start =
      let name_start = skip_while query is_whitespace start in
      let name_end = skip_while query is_word_char name_start in
      let name = subarray query name_start name_end in
      let colon = skip_while query is_whitespace name_end in
      let type_start = skip_while query is_whitespace (colon + 1) in
      let (type, type_end) = parse_type type_start in
      let close = skip_while query (λ c. not (c == b'}')) type_end in
      if name_end == name_start
      then none
      else if not (is_at query colon b':')
      then none
      else if test_at (λ c. c == b'_' || is_letter c) type 0
      then some (name, type, close + 1)
      else none

-- A `Map` from names to types, in the order of insertion.
abbrev pub Types : Type 0
Types = List (List ℕ × List ℕ)

unfoldable pub get : List ℕ → Types → Option (List ℕ)
unfolding equals
get name [] = none
get name ((n, type) ∷ types) =
    let rest = get name types in if equals n name then some type else rest

-- `if (!result.has(name)) result.set(name, type)`
unfoldable pub set_first : List ℕ → List ℕ → Types → Types
unfolding get
set_first name type types = elim (get name types) [
  | none ↦ types ++ (name, type) ∷ []
  | some t ↦ types
]

module _ (query : List ℕ) where
  -- Behind the quoted text or the comment that starts at a position, if one does.
  unfoldable pub behind_skipped : ℕ → Option ℕ
  unfolding skip_quoted_string skip_line_comment skip_block_comment
  behind_skipped i =
      if is_at query i b'\''
      then some (skip_quoted_string query (i + 1) b'\'')
      else if is_at query i b'"'
      then some (skip_quoted_string query (i + 1) b'"')
      else if is_at query i b'`'
      then some (skip_quoted_string query (i + 1) b'`')
      else if is_at query i b'-' && is_at query (i + 1) b'-'
      then some (skip_line_comment query (i + 2))
      else if is_at query i b'/' && is_at query (i + 1) b'*'
      then some (skip_block_comment query (i + 2))
      else none

  -- At a brace: what `parseParam` found there.
  unfoldable pub at_brace : ℕ → Types → Option (List ℕ × List ℕ × ℕ) → Step (ℕ × Types)
  unfolding set_first
  at_brace i result (some (name, type, end)) = go (end, set_first name type result)
  at_brace i result none = go (i + 1, result)

  unfoldable pub at_character : ℕ → Types → Option ℕ → Step (ℕ × Types)
  unfolding at_brace parse_param
  at_character i result (some j) = go (j, result)
  at_character i result none =
      if is_at query i b'{'
      then at_brace i result (parse_param query (i + 1))
      else go (i + 1, result)

  unfoldable pub extract_step : ℕ × Types → Step (ℕ × Types)
  unfolding behind_skipped at_character
  extract_step (i, result) =
      if leb (length query) i then stop (i, result) else at_character i result (behind_skipped i)

  unfoldable pub extract_param_types : Types
  unfolding extract_step scan
  extract_param_types = (scan extract_step (suc (length query)) (0, [])).1

-- `result[name] = literal` of a plain object: `__proto__` takes no text and no symbol, so the object
-- stays as it is.
abbrev pub proto : List ℕ
proto = codes "__proto__"

abbrev pub Literals : Type 0
Literals = List (List ℕ × Option (List ℕ))

unfoldable pub assign : List ℕ → Option (List ℕ) → Literals → Literals
unfolding equals
assign name literal others = if equals name proto then others else (name, literal) ∷ others

-- `serializeParams`. `to_text` is `String(value)`, `to_literal` is `toLiteral` of the type's codec,
-- where `none` is SQL_NULL; the lookup of the codec or the codec may throw.
module _ {V : Type 0} (to_text : V → List ℕ)
    (to_literal : List ℕ → V → Result (Option (List ℕ))) where
  unfoldable pub literal_of : List ℕ → V → Result (Option (List ℕ))
  unfolding equals
  literal_of type value =
      if equals type (codes "Identifier")
      then good (some (to_text value))
      else to_literal type value

  unfoldable pub serialize_loop : Types → List (List ℕ × V) → Result Literals
  unfolding get literal_of assign
  serialize_loop types [] = good []
  serialize_loop types ((name, value) ∷ params) =
      let rest = serialize_loop types params in
      elim (get name types) [
        | none ↦ rest
        | some type ↦ do
          literal ← literal_of type value
          others ← rest
          good (assign name literal others)
      ]

  unfoldable pub serialize_params : List ℕ → List (List ℕ × V) → Result Literals
  unfolding serialize_loop extract_param_types
  serialize_params query params = serialize_loop (extract_param_types query) params
