-- ===== src/Native/Literal.antt =====
-- native/codecs/base.ts: escapeString and wrapQuoted, the texts of literals.
use chwire.Prelude.{ℕ, ◌==◌, if◌then◌else◌, List, [], ◌∷◌, ◌++◌, Bool}

abbrev pub quote : ℕ
quote = b'\''

abbrev pub backslash : ℕ
backslash = b'\\'

-- What a character adds to the result
unfoldable pub escape_char : Bool → ℕ → List ℕ
escape_char escape_single_quote c =
    if c == 9
    then backslash ∷ b't' ∷ []
    else if c == 10
    then backslash ∷ b'n' ∷ []
    else if c == 13
    then backslash ∷ b'r' ∷ []
    else if c == 92
    then backslash ∷ backslash ∷ []
    else if c == 39
    then (if escape_single_quote then backslash ∷ quote ∷ [] else quote ∷ [])
    else c ∷ []

unfoldable pub escape_loop : Bool → List ℕ → List ℕ → List ℕ
unfolding escape_char
escape_loop escape_single_quote [] result = result
escape_loop escape_single_quote (c ∷ s) result =
    escape_loop escape_single_quote s (result ++ escape_char escape_single_quote c)

unfoldable pub escape_string : List ℕ → Bool → List ℕ
unfolding escape_loop
escape_string s escape_single_quote = escape_loop escape_single_quote s []

unfoldable pub wrap_quoted : List ℕ → Bool → List ℕ
wrap_quoted s quoted = if quoted then quote ∷ (s ++ quote ∷ []) else s
