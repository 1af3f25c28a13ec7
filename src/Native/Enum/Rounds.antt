-- ===== src/Native/Enum/Rounds.antt =====
-- More fuel does not change what the loops of parseQuotedString and parseEnumDefinition do.
use chwire.Prelude.{
  ℕ, zero, suc, ◌+◌, ◌-◌, ◌*◌, ◌≤◌, ◌<◌, ◌≡◌, refl, ◌==◌, if◌then◌else◌, List, [], ◌∷◌, ◌++◌,
  length, Bool, true, false, Option, none, some, arith, Option-cases, inl, inr,
}
use chwire.Prelude.Int.{ℤ}
use chwire.Prelude.Options.{◌>>=◌}
use chwire.Native.Literal.{quote, backslash}
use chwire.Native.Enum.{
  Reading, hex_escape, escape_sequence, escaped, quoted_loop, parse_quoted_string, skip_whitespace,
  skip_separators, read_sign, digit_loop, value_of, read_value, behind_equals, read_entry,
  EnumMapping, add_entry, after_entry, entry_loop,
}

-- What a reading leaves is shorter than a bound, or it leaves nothing at all.
abbrev pub Leaves {ℓ} : {A : Type ℓ} → ℕ → Option (A × List ℕ) → Type 0
Leaves n none = Unit {0}
Leaves n (some (a, s)) = length s ≤ n

hex_escape-Leaves : (s : List ℕ) → Leaves (length s) (hex_escape s)
unfolding hex_escape
hex_escape-Leaves [] = tt
hex_escape-Leaves (h ∷ []) = tt
hex_escape-Leaves (h ∷ l ∷ s) = ground arith

escape_sequence-Leaves : (s : List ℕ) → Leaves (length s) (escape_sequence s)
unfolding escape_sequence
escape_sequence-Leaves [] = tt
escape_sequence-Leaves (c ∷ s) = ground (arith, hex_escape-Leaves s)

Leaves-le {ℓ} : {A : Type ℓ} (m n : ℕ) (o : Option (A × List ℕ)) → m ≤ n → Leaves m o → Leaves n o
Leaves-le m n none h l = tt
Leaves-le m n (some (a, s)) h l = omega arith

escaped_rounds :
    (again again' : List ℕ → List ℕ → Reading) (n : ℕ) (result : List ℕ) (o : Reading)
    → ((s result : List ℕ) → length s ≤ n → again s result ≡ again' s result)
    → Leaves n o
    → escaped again result o ≡ escaped again' result o
unfolding escaped
escaped_rounds again again' n result none h l = refl
escaped_rounds again again' n result (some (mapped, s)) h l = h s (result ++ mapped) l

escaped-Leaves :
    (again : List ℕ → List ℕ → Reading) (n : ℕ) (result : List ℕ) (o : Reading)
    → ((s result : List ℕ) → Leaves (length s) (again s result))
    → Leaves n o
    → Leaves n (escaped again result o)
unfolding escaped
escaped-Leaves again n result none h l = tt
escaped-Leaves again n result (some (mapped, s)) h l =
    Leaves-le (length s) n (again s (result ++ mapped)) l (h s (result ++ mapped))

quoted_loop_rounds :
    (fuel more : ℕ) (s result : List ℕ)
    → length s < fuel
    → fuel ≤ more
    → quoted_loop more s result ≡ quoted_loop fuel s result
unfolding quoted_loop
quoted_loop_rounds zero more s result l m = absurd (omega arith)
quoted_loop_rounds (suc fuel) zero s result l m = absurd (omega arith)
quoted_loop_rounds (suc fuel) (suc more) [] result l m = refl
quoted_loop_rounds (suc fuel) (suc more) (c ∷ s) result l m =
    let plain = quoted_loop_rounds fuel more s (result ++ c ∷ []) (omega arith) (omega arith) in
    let special =
      escaped_rounds (quoted_loop more) (quoted_loop fuel) (length s) result (escape_sequence s)
        (λ s' result' h. quoted_loop_rounds fuel more s' result' (omega arith) (omega arith))
        (escape_sequence-Leaves s) in
    rw (plain, special)

quoted_loop-Leaves : (fuel : ℕ) (s result : List ℕ) → Leaves (length s) (quoted_loop fuel s result)
unfolding quoted_loop
quoted_loop-Leaves zero s result = tt
quoted_loop-Leaves (suc fuel) [] result = tt
quoted_loop-Leaves (suc fuel) (c ∷ s) result =
    let plain =
      Leaves-le (length s) (suc (length s)) (quoted_loop fuel s (result ++ c ∷ [])) (omega arith)
        (quoted_loop-Leaves fuel s (result ++ c ∷ [])) in
    let special =
      Leaves-le (length s) (suc (length s)) (escaped (quoted_loop fuel) result (escape_sequence s))
        (omega arith)
        (escaped-Leaves (quoted_loop fuel) (length s) result (escape_sequence s)
          (quoted_loop-Leaves fuel) (escape_sequence-Leaves s)) in
    elim (c == quote)
      as (λ b. Leaves (suc (length s)) (
        if b
        then some (result, s)
        else if c == backslash
        then escaped (quoted_loop fuel) result (escape_sequence s)
        else quoted_loop fuel s (result ++ c ∷ []))) [
          | true ↦ omega arith
          | false ↦
              elim (c == backslash)
                as (λ b. Leaves (suc (length s)) (
                  if b
                  then escaped (quoted_loop fuel) result (escape_sequence s)
                  else quoted_loop fuel s (result ++ c ∷ []))) [ true ↦ special | false ↦ plain ]
        ]

parse_quoted_string-Leaves : (c : ℕ) (s : List ℕ) → Leaves (length s) (parse_quoted_string (c ∷ s))
unfolding parse_quoted_string
parse_quoted_string-Leaves c s = ground (arith, quoted_loop-Leaves (suc (length s)) s [])

length-skip_whitespace : (s : List ℕ) → length (skip_whitespace s) ≤ length s
unfolding skip_whitespace
length-skip_whitespace [] = omega arith
length-skip_whitespace (c ∷ s) = ground (arith, length-skip_whitespace s)

pub length-skip_separators : (s : List ℕ) → length (skip_separators s) ≤ length s
unfolding skip_separators
length-skip_separators [] = omega arith
length-skip_separators (c ∷ s) = ground (arith, length-skip_separators s)

behind_equals_shorter : (s t : List ℕ) → behind_equals s ≡ some t → length t ≤ length s
unfolding behind_equals
behind_equals_shorter [] t e = cc
behind_equals_shorter (c ∷ s) t e = ground arith

length-read_sign : (s : List ℕ) → length ((read_sign s).1) ≤ length s
unfolding read_sign
length-read_sign [] = omega arith
length-read_sign (c ∷ s) = ground arith

length-digit_loop :
    (s : List ℕ) (value digits : ℕ) → length ((digit_loop s value digits).2) ≤ length s
unfolding digit_loop
length-digit_loop [] value digits = omega arith
length-digit_loop (c ∷ s) value digits =
    ground (arith, length-digit_loop s (value * 10 + (c - 48)) (suc digits))

value_of-Leaves :
    (minus : Bool) (n : ℕ) (o : ℕ × ℕ × List ℕ) → length (o.2) ≤ n → Leaves n (value_of minus o)
unfolding value_of
value_of-Leaves minus n (zero, value, s) h = tt
value_of-Leaves minus n (suc digits, value, s) h = h

read_value-Leaves : (s : List ℕ) → Leaves (length s) (read_value s)
unfolding read_value
read_value-Leaves s =
    value_of-Leaves ((read_sign s).0) (length s) (digit_loop ((read_sign s).1) 0 0)
      (omega (arith, length-digit_loop ((read_sign s).1) 0 0, length-read_sign s))

-- An entry that is read leaves a shorter text.
abbrev pub LeavesEntry : ℕ → Option (List ℕ × ℤ × List ℕ) → Type 0
LeavesEntry n none = Unit {0}
LeavesEntry n (some (name, value, s)) = length s ≤ n

with_value-LeavesEntry :
    (name : List ℕ) (n : ℕ) (o : Option (ℤ × List ℕ))
    → Leaves n o
    → LeavesEntry n (o >>= λ (value, s). some (name, value, s))
with_value-LeavesEntry name n none h = tt
with_value-LeavesEntry name n (some (value, s)) h = h

behind_name-LeavesEntry :
    (name s : List ℕ)
    → LeavesEntry (length s) (
        behind_equals (skip_whitespace s) >>= λ t.
        read_value (skip_whitespace t) >>= λ (value, t). some (name, value, t))
behind_name-LeavesEntry name s = elim (Option-cases (behind_equals (skip_whitespace s))) [
  | inl nothing ↦ rw nothing tt
  | inr (t, e) ↦ rw e (
      with_value-LeavesEntry name (length s) (read_value (skip_whitespace t)) (
        Leaves-le (length (skip_whitespace t)) (length s) (read_value (skip_whitespace t))
          (omega (
            arith,
            length-skip_whitespace t,
            length-skip_whitespace s,
            behind_equals_shorter (skip_whitespace s) t e,
          ))
          (read_value-Leaves (skip_whitespace t))))
]

LeavesEntry-le :
    (m n : ℕ) (o : Option (List ℕ × ℤ × List ℕ)) → m ≤ n → LeavesEntry m o → LeavesEntry n o
LeavesEntry-le m n none h l = tt
LeavesEntry-le m n (some (name, value, s)) h l = omega arith

with_name-LeavesEntry :
    (n : ℕ) (o : Reading)
    → Leaves n o
    → LeavesEntry n (
        o >>= λ (name, s). behind_equals (skip_whitespace s) >>= λ t.
        read_value (skip_whitespace t) >>= λ (value, t). some (name, value, t))
with_name-LeavesEntry n none h = tt
with_name-LeavesEntry n (some (name, s)) h =
    LeavesEntry-le (length s) n _ h (behind_name-LeavesEntry name s)

read_entry-LeavesEntry : (c : ℕ) (s : List ℕ) → LeavesEntry (length s) (read_entry (c ∷ s))
unfolding read_entry
read_entry-LeavesEntry c s =
    with_name-LeavesEntry (length s) (parse_quoted_string (c ∷ s)) (parse_quoted_string-Leaves c s)

module _ (low high : ℤ) where
  after_entry_rounds :
      (again again' : List ℕ → EnumMapping → Option EnumMapping) (n : ℕ) (m : EnumMapping)
      (o : Option (List ℕ × ℤ × List ℕ))
      → ((s : List ℕ) (m : EnumMapping) → length s ≤ n → again s m ≡ again' s m)
      → LeavesEntry n o
      → after_entry low high again m o ≡ after_entry low high again' m o
  unfolding after_entry
  after_entry_rounds again again' n m none h l = refl
  after_entry_rounds again again' n m (some (name, value, s)) h l =
      rw (h s (add_entry name value m) l)

  at_text :
      (again again' : List ℕ → EnumMapping → Option EnumMapping) (n : ℕ) (m : EnumMapping)
      → ((s : List ℕ) (m : EnumMapping) → length s < n → again s m ≡ again' s m)
      → (t : List ℕ) → length t ≤ n
      → elim t [ [] ↦ some m | c ∷ rest ↦ after_entry low high again m (read_entry (c ∷ rest)) ]
        ≡ elim t [ [] ↦ some m | c ∷ rest ↦ after_entry low high again' m (read_entry (c ∷ rest)) ]
  at_text again again' n m h [] l = refl
  at_text again again' n m h (c ∷ rest) l =
      after_entry_rounds again again' (length rest) m (read_entry (c ∷ rest))
        (λ s' m' l'. h s' m' (omega arith)) (read_entry-LeavesEntry c rest)

  -- With more fuel than the text has characters, the result does not depend on the fuel.
  entry_loop_rounds :
      (fuel more : ℕ) (s : List ℕ) (m : EnumMapping)
      → length s < fuel
      → fuel ≤ more
      → entry_loop low high more s m ≡ entry_loop low high fuel s m
  unfolding entry_loop
  entry_loop_rounds zero more s m l k = absurd (omega arith)
  entry_loop_rounds (suc fuel) zero s m l k = absurd (omega arith)
  entry_loop_rounds (suc fuel) (suc more) s m l k =
      at_text (entry_loop low high more) (entry_loop low high fuel) (length s) m
        (λ s' m' l'. entry_loop_rounds fuel more s' m' (omega arith) (omega arith))
        (skip_separators s) (length-skip_separators s)
