-- ===== src/Native/Enum/Mapping.antt =====
-- The two Maps of an enum's definition are inverse to one another, and its values are in range.
use chwire.Prelude.{
  ℕ, zero, suc, ◌≡◌, ap, ◌∙◌, sym, if◌then◌else◌, List, [], ◌∷◌, ◌++◌, length, drop, Bool, true,
  false, ◌⊎◌, Option, none, some, arith, Bool-cases, Option-cases, inl, inr, eq_of_==,
}
use chwire.Prelude.Text.{codes}
use chwire.Prelude.Int.{ℤ, pos, negsuc, ◌≤ℤ◌}
use chwire.Prelude.Maps.{lookup, lookup-append_some, lookup-append_none}
use chwire.Compression.{equals}
use chwire.Compression.RoundTrip.{equals_refl, equals→eq}
use chwire.Prelude.Scan.{starts_with}
use chwire.Native.Enum.{
  EnumMapping, equal_ℤ, is_refused, add_entry, after_entry, entry_loop, read_entry, skip_separators,
  with_entries, before_last, parse_content, parse_enum_definition,
}

pub equal_ℤ_refl : (z : ℤ) → equal_ℤ z z ≡ true
equal_ℤ_refl (pos n) = ground arith
equal_ℤ_refl (negsuc n) = ground arith

equal_ℤ→eq : (a b : ℤ) → equal_ℤ a b ≡ true → a ≡ b
equal_ℤ→eq (pos m) (pos n) h = ap pos (eq_of_== m n h)
equal_ℤ→eq (negsuc m) (negsuc n) h = ap negsuc (eq_of_== m n h)
equal_ℤ→eq (pos m) (negsuc n) h = cc
equal_ℤ→eq (negsuc m) (pos n) h = cc

-- A Map with one entry more, under a key that it did not have
module _ {K V : Type 0} (equal : K → K → Bool) (equal_refl : (k : K) → equal k k ≡ true)
    (equal→eq : (a b : K) → equal a b ≡ true → a ≡ b) where
  lookup_added :
      (key : K) (value : V) (entries : List (K × V))
      → lookup equal key entries ≡ none
      → lookup equal key (entries ++ (key, value) ∷ []) ≡ some value
  lookup_added key value entries e =
      lookup-append_none equal key entries ((key, value) ∷ []) e
      ∙ (unfold lookup in rw (equal_refl key))

  lookup_single :
      (key k : K) (value v : V)
      → lookup equal k ((key, value) ∷ []) ≡ some v
      → (k ≡ key) × (v ≡ value)
  unfolding lookup
  lookup_single key k value v e = elim (Bool-cases (equal key k)) [
    | inl same ↦ let e' = rw same at e in (sym (equal→eq key k same), cc)
    | inr other ↦ let e' = rw other at e in absurd (cc e')
  ]

  lookup_cases :
      (key k : K) (value v : V) (entries : List (K × V))
      → lookup equal k (entries ++ (key, value) ∷ []) ≡ some v
      → (lookup equal k entries ≡ some v) ⊎ ((k ≡ key) × (v ≡ value))
  lookup_cases key k value v entries e = elim (Option-cases (lookup equal k entries)) [
    | inr (w, old) ↦
        inl (old ∙ sym (lookup-append_some equal k entries ((key, value) ∷ []) old) ∙ e)
    | inl fresh ↦ inr (
        lookup_single key k value v
          (sym (lookup-append_none equal k entries ((key, value) ∷ []) fresh) ∙ e))
  ]

pub record IsMapping (low high : ℤ) (m : EnumMapping) : Type 0 where
  pub named :
      (name : List ℕ) (value : ℤ)
      → lookup equals name m.name_to_value ≡ some value
      → lookup equal_ℤ value m.value_to_name ≡ some name
  pub valued :
      (name : List ℕ) (value : ℤ)
      → lookup equal_ℤ value m.value_to_name ≡ some name
      → lookup equals name m.name_to_value ≡ some value
  pub in_range :
      (name : List ℕ) (value : ℤ)
      → lookup equals name m.name_to_value ≡ some value
      → (low ≤ℤ value) × (value ≤ℤ high)

module _ (low high : ℤ) where
  -- An entry that is not refused
  record IsNew (name : List ℕ) (value : ℤ) (m : EnumMapping) : Type 0 where
    pub above : low ≤ℤ value
    pub below : value ≤ℤ high
    pub new_name : lookup equals name m.name_to_value ≡ none
    pub new_value : lookup equal_ℤ value m.value_to_name ≡ none

  is_refused-IsNew :
      (name : List ℕ) (value : ℤ) (m : EnumMapping)
      → is_refused low high name value m ≡ false
      → IsNew name value m
  unfolding is_refused
  is_refused-IsNew name value m h = record {
    above = ground arith;
    below = ground arith;
    new_name = ground arith;
    new_value = ground arith;
  }

  add_entry-IsMapping :
      (name : List ℕ) (value : ℤ) (m : EnumMapping)
      → IsMapping low high m
      → IsNew name value m
      → IsMapping low high (add_entry name value m)
  unfolding add_entry
  add_entry-IsMapping name value m p new = record {
    named = λ n v e.
        elim (lookup_cases equals equals_refl equals→eq name n value v m.name_to_value e) [
          | inl old ↦
              lookup-append_some equal_ℤ v m.value_to_name ((value, name) ∷ []) (p.named n v old)
          | inr (en, ev) ↦
              rw (en, ev)
                (lookup_added equal_ℤ equal_ℤ_refl equal_ℤ→eq value name m.value_to_name
                  new.new_value)
        ];
    valued = λ n v e.
        elim (lookup_cases equal_ℤ equal_ℤ_refl equal_ℤ→eq value v name n m.value_to_name e) [
          | inl old ↦
              lookup-append_some equals n m.name_to_value ((name, value) ∷ []) (p.valued n v old)
          | inr (ev, en) ↦
              rw (en, ev)
                (lookup_added equals equals_refl equals→eq name value m.name_to_value new.new_name)
        ];
    in_range = λ n v e.
        elim (lookup_cases equals equals_refl equals→eq name n value v m.name_to_value e) [
          | inl old ↦ p.in_range n v old
          | inr (en, ev) ↦ rw ev (new.above, new.below)
        ];
  }

  -- What a parser returns, if anything
  abbrev pub GivesMapping : Option EnumMapping → Type 0
  GivesMapping none = Unit {0}
  GivesMapping (some m) = IsMapping low high m

  after_entry-GivesMapping :
      (again : List ℕ → EnumMapping → Option EnumMapping) (m : EnumMapping)
      (o : Option (List ℕ × ℤ × List ℕ))
      → ((s : List ℕ) (m : EnumMapping) → IsMapping low high m → GivesMapping (again s m))
      → IsMapping low high m
      → GivesMapping (after_entry low high again m o)
  unfolding after_entry
  after_entry-GivesMapping again m none h p = tt
  after_entry-GivesMapping again m (some (name, value, s)) h p =
      elim (Bool-cases (is_refused low high name value m)) [
        | inl refused ↦ rw refused tt
        | inr taken ↦ rw taken (
            h s (add_entry name value m)
              (add_entry-IsMapping name value m p (is_refused-IsNew name value m taken)))
      ]

  at_text :
      (again : List ℕ → EnumMapping → Option EnumMapping) (m : EnumMapping)
      → ((s : List ℕ) (m : EnumMapping) → IsMapping low high m → GivesMapping (again s m))
      → IsMapping low high m
      → (t : List ℕ)
      → GivesMapping
          (elim t [ [] ↦ some m | c ∷ rest ↦ after_entry low high again m (read_entry (c ∷ rest)) ])
  at_text again m h p [] = p
  at_text again m h p (c ∷ rest) = after_entry-GivesMapping again m (read_entry (c ∷ rest)) h p

  entry_loop-GivesMapping :
      (fuel : ℕ) (s : List ℕ) (m : EnumMapping)
      → IsMapping low high m
      → GivesMapping (entry_loop low high fuel s m)
  unfolding entry_loop
  entry_loop-GivesMapping zero s m p = tt
  entry_loop-GivesMapping (suc fuel) s m p =
      at_text (entry_loop low high fuel) m (entry_loop-GivesMapping fuel) p (skip_separators s)

  with_entries-GivesMapping :
      (o : Option EnumMapping) → GivesMapping o → GivesMapping (with_entries o)
  unfolding with_entries
  with_entries-GivesMapping none p = tt
  with_entries-GivesMapping (some m) p =
      (elim (m.name_to_value)
        as (λ entries. GivesMapping (elim entries [ [] ↦ none | e ∷ rest ↦ some m ])) [
          | [] ↦ tt
          | e ∷ rest ↦ p
        ])

  empty-IsMapping : IsMapping low high (record { name_to_value = []; value_to_name = [] })
  empty-IsMapping = record {
    named = λ n v e. absurd (unfold lookup in cc e);
    valued = λ n v e. absurd (unfold lookup in cc e);
    in_range = λ n v e. absurd (unfold lookup in cc e);
  }

  parse_content-GivesMapping :
      (content : Option (List ℕ)) → GivesMapping (parse_content low high content)
  unfolding parse_content
  parse_content-GivesMapping none = tt
  parse_content-GivesMapping (some content) =
      with_entries-GivesMapping
        (entry_loop low high (suc (length content)) content
          (record { name_to_value = []; value_to_name = [] }))
        (entry_loop-GivesMapping (suc (length content)) content _ empty-IsMapping)

-- The greatest value of the type, Int8 or Int16
abbrev pub greatest : List ℕ → ℕ
greatest type = if starts_with (codes "Enum8(") type then 127 else 32767

-- In the mapping that parseEnumDefinition gives, no two names have a value in common and no two
-- values a name, each Map is the inverse of the other, and the values are those of Int8 for an Enum8
-- and of Int16 for an Enum16.
pub parse_enum_definition-IsMapping :
    (type : List ℕ) (m : EnumMapping)
    → parse_enum_definition type ≡ some m
    → IsMapping (negsuc (greatest type)) (pos (greatest type)) m
unfolding parse_enum_definition
parse_enum_definition-IsMapping type m e = elim (Bool-cases (starts_with (codes "Enum8(") type)) [
  | inl is8 ↦ rw is8 (given (negsuc 127) (pos 127) (before_last (drop 6 type)) (rw is8 at e))
  | inr not8 ↦ elim (Bool-cases (starts_with (codes "Enum16(") type)) [
    | inl is16 ↦
        rw not8
          (given (negsuc 32767) (pos 32767) (before_last (drop 7 type)) (rw (not8, is16) at e))
    | inr not16 ↦ let e' : none ≡ some m = rw (not8, not16) at e in absurd (cc e')
  ]
]
  where
    given :
        (low high : ℤ) (content : Option (List ℕ))
        → parse_content low high content ≡ some m
        → IsMapping low high m
    given low high content e = let p = parse_content-GivesMapping low high content in rw e at p
