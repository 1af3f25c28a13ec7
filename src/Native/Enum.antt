-- ===== src/Native/Enum.antt =====
-- native/types.ts: parseQuotedString and parseEnumDefinition. A position in a text is the text from
-- there on.
pub mod Quoted
pub mod Rounds
pub mod Mapping
pub mod Values
pub mod Columns
use chwire.Prelude.{
  ℕ, zero, suc, ◌+◌, ◌-◌, ◌*◌, ltb, leb, ◌==◌, if◌then◌else◌, List, [], ◌∷◌, ◌++◌, length, Bool,
  true, false, not, ◌&&◌, ◌||◌, Option, none, some, take, drop,
}
use chwire.Prelude.Text.{codes}
use chwire.Prelude.Int.{ℤ, pos, negsuc, leb_ℤ, ltb_ℤ}
use chwire.Prelude.Maps.{lookup}
use chwire.Prelude.Options.{◌>>=◌, is_some}
use chwire.Prelude.Scan.{within, starts_with}
use chwire.Compression.{equals}
use chwire.Native.Literal.{quote, backslash}

unfoldable pub is_ascii_whitespace : ℕ → Bool
is_ascii_whitespace c = c == 9 || c == 10 || c == 13 || c == 32

unfoldable pub is_control_ascii : ℕ → Bool
is_control_ascii c = ltb c 0x20 || c == 0x7f

unfoldable pub hex_nibble : ℕ → Option ℕ
hex_nibble c =
    if within 48 57 c
    then some (c - 48)
    else if within 65 70 c
    then some (c - 65 + 10)
    else if within 97 102 c
    then some (c - 97 + 10)
    else none

-- `SIMPLE_ESCAPES`
unfoldable pub simple_escape : ℕ → Option (List ℕ)
simple_escape c =
    if c == quote
    then some (quote ∷ [])
    else if c == backslash
    then some (backslash ∷ [])
    else if c == b'n'
    then some (10 ∷ [])
    else if c == b'r'
    then some (13 ∷ [])
    else if c == b't'
    then some (9 ∷ [])
    else if c == b'b'
    then some (8 ∷ [])
    else if c == b'f'
    then some (12 ∷ [])
    else if c == b'0'
    then some (0 ∷ [])
    else if c == b'v'
    then some (11 ∷ [])
    else if c == b'a'
    then some (7 ∷ [])
    else if c == b'e'
    then some (27 ∷ [])
    else if c == b'N'
    then some []
    else none

unfoldable pub should_preserve_backslash : ℕ → Bool
unfolding is_control_ascii
should_preserve_backslash c =
    not (c == backslash)
    && not (c == quote)
    && not (c == b'"')
    && not (c == b'`')
    && not (c == b'/')
    && not (c == b'=')
    && not (is_control_ascii c)

-- The byte of two hexadecimal digits, `(hi << 4) | lo`
unfoldable pub hex_escape : List ℕ → Option (List ℕ × List ℕ)
unfolding hex_nibble
hex_escape (h ∷ l ∷ s) = do hi ← hex_nibble h; lo ← hex_nibble l; some ((hi * 16 + lo) ∷ [], s)
hex_escape _ = none

-- What follows a backslash: the characters that it stands for, and the text behind it.
unfoldable pub escape_sequence : List ℕ → Option (List ℕ × List ℕ)
unfolding hex_escape simple_escape should_preserve_backslash
escape_sequence [] = none
escape_sequence (c ∷ s) = if c == b'x' then hex_escape s else elim (simple_escape c) [
  | some mapped ↦ some (mapped, s)
  | none ↦ some ((if should_preserve_backslash c then backslash ∷ c ∷ [] else c ∷ []), s)
]

-- The loop behind the opening quote: the text that is read, and what is behind the closing quote.
-- Every round takes a character, or ends the loop.
abbrev pub Reading : Type 0
Reading = Option (List ℕ × List ℕ)

unfoldable pub escaped : (List ℕ → List ℕ → Reading) → List ℕ → Reading → Reading
escaped again result none = none
escaped again result (some (mapped, s)) = again s (result ++ mapped)

unfoldable pub quoted_loop : ℕ → List ℕ → List ℕ → Reading
unfolding escaped escape_sequence
quoted_loop zero s result = none
quoted_loop (suc fuel) [] result = none
quoted_loop (suc fuel) (c ∷ s) result =
    let plain = quoted_loop fuel s (result ++ c ∷ []) in
    if c == quote
    then some (result, s)
    else if c == backslash
    then escaped (quoted_loop fuel) result (escape_sequence s)
    else plain

unfoldable pub parse_quoted_string : List ℕ → Reading
unfolding quoted_loop
parse_quoted_string [] = none
parse_quoted_string (c ∷ s) = if c == quote then quoted_loop (suc (length s)) s [] else none

-- The loops over white space, and over white space and commas
unfoldable pub skip_whitespace : List ℕ → List ℕ
unfolding is_ascii_whitespace
skip_whitespace [] = []
skip_whitespace (c ∷ s) =
    let rest = skip_whitespace s in if is_ascii_whitespace c then rest else c ∷ s

unfoldable pub skip_separators : List ℕ → List ℕ
unfolding is_ascii_whitespace
skip_separators [] = []
skip_separators (c ∷ s) =
    let rest = skip_separators s in if c == b',' || is_ascii_whitespace c then rest else c ∷ s

-- The sign: whether it is a minus, and what is behind it
unfoldable pub read_sign : List ℕ → Bool × List ℕ
read_sign [] = (false, [])
read_sign (c ∷ s) =
    if c == b'-' then (true, s) else if c == b'+' then (false, s) else (false, c ∷ s)

-- The digits: their count, the value behind `value`, and what is behind them
unfoldable pub digit_loop : List ℕ → ℕ → ℕ → ℕ × ℕ × List ℕ
digit_loop [] value digits = (digits, value, [])
digit_loop (c ∷ s) value digits =
    let rest = digit_loop s (value * 10 + (c - 48)) (suc digits) in
    if within 48 57 c then rest else (digits, value, c ∷ s)

-- `value *= sign`
unfoldable pub signed : Bool → ℕ → ℤ
signed false n = pos n
signed true zero = pos 0
signed true (suc n) = negsuc n

unfoldable pub value_of : Bool → ℕ × ℕ × List ℕ → Option (ℤ × List ℕ)
unfolding signed
value_of minus (zero, value, s) = none
value_of minus (suc digits, value, s) = some (signed minus value, s)

unfoldable pub read_value : List ℕ → Option (ℤ × List ℕ)
unfolding read_sign digit_loop value_of
read_value s = let (minus, s') = read_sign s in value_of minus (digit_loop s' 0 0)

-- Behind the equals sign
unfoldable pub behind_equals : List ℕ → Option (List ℕ)
behind_equals [] = none
behind_equals (c ∷ s) = if c == b'=' then some s else none

-- A name, an equals sign and a value
unfoldable pub read_entry : List ℕ → Option (List ℕ × ℤ × List ℕ)
unfolding parse_quoted_string skip_whitespace behind_equals read_value
read_entry s = do
  (name, s) ← parse_quoted_string s
  s ← behind_equals (skip_whitespace s)
  (value, s) ← read_value (skip_whitespace s)
  some (name, value, s)

abbrev pub equal_ℤ : ℤ → ℤ → Bool
equal_ℤ (pos m) (pos n) = m == n
equal_ℤ (negsuc m) (negsuc n) = m == n
equal_ℤ (pos m) (negsuc n) = false
equal_ℤ (negsuc m) (pos n) = false

-- The two Maps, in the order of insertion
pub record EnumMapping : Type 0 where
  pub name_to_value : List (List ℕ × ℤ)
  pub value_to_name : List (ℤ × List ℕ)

-- `set` of keys that are not there yet
unfoldable pub add_entry : List ℕ → ℤ → EnumMapping → EnumMapping
add_entry name value m = record {
  name_to_value = m.name_to_value ++ (name, value) ∷ [];
  value_to_name = m.value_to_name ++ (value, name) ∷ [];
}

module _ (low high : ℤ) where
  unfoldable pub is_refused : List ℕ → ℤ → EnumMapping → Bool
  unfolding lookup equals
  is_refused name value m =
      ltb_ℤ value low
      || ltb_ℤ high value
      || is_some (lookup equals name m.name_to_value)
      || is_some (lookup equal_ℤ value m.value_to_name)

  unfoldable pub after_entry :
      (List ℕ → EnumMapping → Option EnumMapping)
      → EnumMapping
      → Option (List ℕ × ℤ × List ℕ)
      → Option EnumMapping
  unfolding is_refused add_entry
  after_entry again m none = none
  after_entry again m (some (name, value, s)) =
      if is_refused name value m then none else again s (add_entry name value m)

  -- The loop over the entries
  unfoldable pub entry_loop : ℕ → List ℕ → EnumMapping → Option EnumMapping
  unfolding skip_separators after_entry read_entry
  entry_loop zero s m = none
  entry_loop (suc fuel) s m = elim (skip_separators s) [
    | [] ↦ some m
    | c ∷ rest ↦ after_entry (entry_loop fuel) m (read_entry (c ∷ rest))
  ]

-- A mapping without entries is refused.
unfoldable pub with_entries : Option EnumMapping → Option EnumMapping
with_entries none = none
with_entries (some m) = elim (m.name_to_value) [ [] ↦ none | e ∷ entries ↦ some m ]

-- `type.slice(start, -1)` of a text that ends in a parenthesis
abbrev pub before_last : List ℕ → Option (List ℕ)
before_last [] = none
before_last (c ∷ []) = if c == b')' then some [] else none
before_last (c ∷ d ∷ s) = elim (before_last (d ∷ s)) [ none ↦ none | some t ↦ some (c ∷ t) ]

unfoldable pub parse_content : ℤ → ℤ → Option (List ℕ) → Option EnumMapping
unfolding with_entries entry_loop
parse_content low high none = none
parse_content low high (some content) = with_entries (
    entry_loop low high (suc (length content)) content
      (record { name_to_value = []; value_to_name = [] }))

-- The bounds of Int8 and Int16, and the start of the names
unfoldable pub parse_enum_definition : List ℕ → Option EnumMapping
unfolding starts_with parse_content
parse_enum_definition type =
    if starts_with (codes "Enum8(") type
    then parse_content (negsuc 127) (pos 127) (before_last (drop 6 type))
    else if starts_with (codes "Enum16(") type
    then parse_content (negsuc 32767) (pos 32767) (before_last (drop 7 type))
    else none
