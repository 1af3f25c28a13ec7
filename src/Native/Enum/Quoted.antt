-- ===== src/Native/Enum/Quoted.antt =====
-- A text that escapeString writes between quotes is read back by parseQuotedString.
use chwire.Prelude.{
  ℕ, zero, suc, ◌≤◌, ◌<◌, ◌≡◌, ap, ◌∙◌, sym, List, [], ◌∷◌, ◌++◌, length, true, some, arith,
  append-nil, append_assoc, length-append,
}
use chwire.Native.Literal.{quote, escape_char, escape_loop, escape_string}
use chwire.Native.Enum.{simple_escape, escape_sequence, escaped, quoted_loop, parse_quoted_string}

abbrev all_escaped : List ℕ → List ℕ
all_escaped [] = []
all_escaped (c ∷ s) = escape_char true c ++ all_escaped s

escape_loop_appends : (s result : List ℕ) → escape_loop true s result ≡ result ++ all_escaped s
unfolding escape_loop
escape_loop_appends [] result = sym (append-nil result)
escape_loop_appends (c ∷ s) result =
    escape_loop_appends s (result ++ escape_char true c)
    ∙ append_assoc result (escape_char true c) (all_escaped s)

-- One round reads what one character has become.
quoted_loop-escape_char :
    (fuel c : ℕ) (s result : List ℕ)
    → quoted_loop (suc fuel) (escape_char true c ++ s) result
      ≡ quoted_loop fuel s (result ++ c ∷ [])
unfolding quoted_loop escape_char escaped escape_sequence simple_escape
quoted_loop-escape_char fuel c s result = ground arith

quoted_loop-all_escaped :
    (s : List ℕ) (fuel : ℕ) (rest result : List ℕ)
    → length s < fuel
    → quoted_loop fuel (all_escaped s ++ quote ∷ rest) result ≡ some (result ++ s, rest)
quoted_loop-all_escaped s zero rest result h = absurd (omega arith)
quoted_loop-all_escaped [] (suc fuel) rest result h = unfold quoted_loop in rw (append-nil result)
quoted_loop-all_escaped (c ∷ s) (suc fuel) rest result h =
    rw (append_assoc (escape_char true c) (all_escaped s) (quote ∷ rest)) (
      quoted_loop-escape_char fuel c (all_escaped s ++ quote ∷ rest) result
      ∙ quoted_loop-all_escaped s fuel rest (result ++ c ∷ []) (omega arith)
      ∙ ap (λ t. some (t, rest)) (append_assoc result (c ∷ []) s))

length-escape_char : (c : ℕ) → 1 ≤ length (escape_char true c)
unfolding escape_char
length-escape_char c = ground arith

length-all_escaped : (s : List ℕ) → length s ≤ length (all_escaped s)
length-all_escaped [] = omega arith
length-all_escaped (c ∷ s) = omega (
  arith,
  length-append (escape_char true c) (all_escaped s),
  length-escape_char c,
  length-all_escaped s,
)

-- A text that is escaped with its single quotes and put between quotes is read back, and what
-- follows it is left, whatever the text is.
pub parse_quoted_string-escape_string :
    (s rest : List ℕ)
    → parse_quoted_string (quote ∷ (escape_string s true ++ quote ∷ rest)) ≡ some (s, rest)
unfolding parse_quoted_string escape_string
parse_quoted_string-escape_string s rest = rw (escape_loop_appends s []) (
    quoted_loop-all_escaped s (suc (length (all_escaped s ++ quote ∷ rest))) rest []
      (omega (arith, length-append (all_escaped s) (quote ∷ rest), length-all_escaped s)))
