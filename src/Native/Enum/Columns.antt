-- ===== src/Native/Enum/Columns.antt =====
-- What EnumCodec has made of values, an EnumColumn gives back.
use chwire.Prelude.{
  ℕ, zero, suc, ◌≡◌, ◌≢◌, refl, if◌then◌else◌, List, [], ◌∷◌, Bool, true, false, ◌||◌, ◌⊎◌, Option,
  none, some, Bool-cases, inl, inr, get_elem?,
}
use chwire.Prelude.Text.{codes}
use chwire.Prelude.Int.{ℤ, pos, negsuc, ltb_ℤ}
use chwire.Prelude.Maps.{lookup}
use chwire.Prelude.Result.{Result, good, bad, plain_error, chain_good}
use chwire.Compression.{equals}
use chwire.Prelude.Scan.{starts_with}
use chwire.Native.Enum.{EnumMapping, equal_ℤ, parse_enum_definition}
use chwire.Native.Enum.Mapping.{IsMapping, greatest, parse_enum_definition-IsMapping, equal_ℤ_refl}
use chwire.Native.Enum.Values.{
  EnumInput, missing, name, number, fraction, bigint, other, EnumCodec, least, with_default,
  with_mapping, new_enum_codec, known_number, to_enum_value, values_loop, EnumColumn, as_name,
  output_of, get, from_values,
}

-- A key behind an entry is a key, and has the entry's value or its own.
found :
    (k : ℤ) (n : List ℕ) (v : ℤ) (entries : List (ℤ × List ℕ)) (m : List ℕ)
    → lookup equal_ℤ v entries ≡ some m
    → (n' : List ℕ) × (lookup equal_ℤ v ((k, n) ∷ entries) ≡ some n')
unfolding lookup
found k n v entries m e = elim (Bool-cases (equal_ℤ k v)) [
  | inl same ↦ (n, rw same)
  | inr other_key ↦ (m, rw other_key e)
]

-- The least key is a key.
least-IsKey :
    (acc : Option ℤ) (entries : List (ℤ × List ℕ)) {v : ℤ}
    → least acc entries ≡ some v
    → (acc ≡ some v) ⊎ ((n : List ℕ) × (lookup equal_ℤ v entries ≡ some n))
unfolding least
least-IsKey acc [] e = inl e
least-IsKey none ((k, n) ∷ entries) {v} e = elim (least-IsKey (some k) entries e) [
  | inl first ↦ let s : k ≡ v = cc in inr (n, unfold lookup in rw (s, equal_ℤ_refl v))
  | inr (m, later) ↦ inr (found k n v entries m later)
]
least-IsKey (some w) ((k, n) ∷ entries) {v} e =
    elim (least-IsKey (if ltb_ℤ k w then some k else some w) entries e) [
      | inl first ↦ elim (Bool-cases (ltb_ℤ k w)) [
        | inl less ↦
            let s : some k ≡ some v = rw less at first in
            let s' : k ≡ v = cc s in inr (n, unfold lookup in rw (s', equal_ℤ_refl v))
        | inr not_less ↦ inl (rw not_less at first)
      ]
      | inr (m, later) ↦ inr (found k n v entries m later)
    ]

-- What the constructor gives
record IsCodec (c : EnumCodec) : Type 0 where
  pub range : ℤ × ℤ
  pub inverse : IsMapping (range.0) (range.1) c.mapping
  pub default_known :
      (n : List ℕ) × (lookup equal_ℤ c.default_value c.mapping.value_to_name ≡ some n)

with_default-IsCodec :
    (type : List ℕ) (low high low' high' : ℤ) (m : EnumMapping) (o : Option ℤ) (c : EnumCodec)
    → IsMapping low' high' m
    → least none m.value_to_name ≡ o
    → with_default type low high m o ≡ good c
    → IsCodec c
unfolding with_default
with_default-IsCodec type low high low' high' m none c p l e = absurd (cc e)
with_default-IsCodec type low high low' high' m (some v) c p l e =
    let same : record { type = type; low = low; high = high; mapping = m; default_value = v } ≡ c =
      cc e in
    rw (← same) (record {
      range = (low', high');
      inverse = p;
      default_known = elim (least-IsKey none m.value_to_name l) [
        | inl nothing ↦ absurd (cc nothing)
        | inr key ↦ key
      ];
    })

with_mapping-IsCodec :
    (type : List ℕ) (low high low' high' : ℤ) (o : Option EnumMapping) (c : EnumCodec)
    → ((m : EnumMapping) → o ≡ some m → IsMapping low' high' m)
    → with_mapping type low high o ≡ good c
    → IsCodec c
unfolding with_mapping
with_mapping-IsCodec type low high low' high' none c p e = absurd (cc e)
with_mapping-IsCodec type low high low' high' (some m) c p e =
    with_default-IsCodec type low high low' high' m (least none m.value_to_name) c (p m refl) refl e

new_enum_codec-IsCodec : (type : List ℕ) (c : EnumCodec) → new_enum_codec type ≡ good c → IsCodec c
unfolding new_enum_codec
new_enum_codec-IsCodec type c e = elim (Bool-cases (starts_with (codes "Enum8") type)) [
  | inl is8 ↦
      with_mapping-IsCodec type (negsuc 127) (pos 127) (negsuc (greatest type))
        (pos (greatest type)) (parse_enum_definition type) c (parse_enum_definition-IsMapping type)
        (rw is8 at e)
  | inr is16 ↦
      with_mapping-IsCodec type (negsuc 32767) (pos 32767) (negsuc (greatest type))
        (pos (greatest type)) (parse_enum_definition type) c (parse_enum_definition-IsMapping type)
        (rw is16 at e)
]

-- The name that a value stands for: its own, that of its number, or that of the default.
abbrev pub StandsFor : EnumCodec → EnumInput → List ℕ → Type 0
StandsFor c missing n = lookup equals n c.mapping.name_to_value ≡ some c.default_value
StandsFor c (name s) n = n ≡ s
StandsFor c (number num) n = lookup equals n c.mapping.name_to_value ≡ some num
StandsFor c fraction n = n ≢ n
StandsFor c (bigint num) n = lookup equals n c.mapping.name_to_value ≡ some num
StandsFor c other n = n ≢ n

module _ (c : EnumCodec) (p : IsCodec c) where
  -- The number of a value, with its name
  abbrev Known : EnumInput → ℤ → Type 0
  Known v num =
      (n : List ℕ) × (lookup equal_ℤ num c.mapping.value_to_name ≡ some n) × StandsFor c v n

  checked :
      (num num' : ℤ) (out : Bool) (o : Option (List ℕ))
      → (if out then bad plain_error else elim o [ some n ↦ good num | none ↦ bad plain_error ])
        ≡ good num'
      → (num ≡ num') × ((n : List ℕ) × (o ≡ some n))
  checked num num' true o e = absurd (cc e)
  checked num num' false none e = absurd (cc e)
  checked num num' false (some n) e = (cc e, (n, refl))

  known_number-Known :
      (num num' : ℤ)
      → known_number c num ≡ good num'
      → (num ≡ num') × ((n : List ℕ) × (lookup equal_ℤ num c.mapping.value_to_name ≡ some n))
  unfolding known_number
  known_number-Known num num' =
      checked num num' (ltb_ℤ num c.low || ltb_ℤ c.high num)
        (lookup equal_ℤ num c.mapping.value_to_name)

  of_name :
      (s : List ℕ) (num : ℤ) (o : Option ℤ)
      → lookup equals s c.mapping.name_to_value ≡ o
      → elim o [ some n ↦ good n | none ↦ bad plain_error ] ≡ good num
      → Known (name s) num
  of_name s num none l e = absurd (cc e)
  of_name s num (some num') l e =
      let same : num' ≡ num = cc e in (s, p.inverse.named s num (rw same at l), refl)

  of_number :
      (num num' : ℤ)
      → known_number c num ≡ good num'
      → (n : List ℕ) × (lookup equal_ℤ num' c.mapping.value_to_name ≡ some n)
        × (lookup equals n c.mapping.name_to_value ≡ some num)
  of_number num num' e =
      let (same, (n, known)) = known_number-Known num num' e in
      (n, rw same at known, p.inverse.valued n num known)

  in_bounds :
      {num : ℤ} (out : Bool) (r : Result ℤ)
      → (if out then bad plain_error else r) ≡ good num
      → r ≡ good num
  in_bounds true r e = absurd (cc e)
  in_bounds false r e = e

  to_enum_value-Known : (v : EnumInput) (num : ℤ) → to_enum_value c v ≡ good num → Known v num
  unfolding to_enum_value
  to_enum_value-Known missing num e =
      let same : c.default_value ≡ num = cc e in
      let (n, known) = p.default_known in
      (n, rw same at known, p.inverse.valued n c.default_value known)
  to_enum_value-Known (name s) num e =
      of_name s num (lookup equals s c.mapping.name_to_value) refl e
  to_enum_value-Known (number n) num e = of_number n num e
  to_enum_value-Known fraction num e = absurd (cc e)
  to_enum_value-Known (bigint n) num e =
      of_number n num (in_bounds (ltb_ℤ n c.low || ltb_ℤ c.high n) (known_number c n) e)
  to_enum_value-Known other num e = absurd (cc e)

  values_loop-Known :
      (values : List EnumInput) (nums : List ℤ) (i : ℕ) (v : EnumInput)
      → values_loop c values ≡ good nums
      → get_elem? values i ≡ some v
      → (num : ℤ) × (get_elem? nums i ≡ some num) × Known v num
  unfolding values_loop
  values_loop-Known [] nums i v e at_i = absurd (cc at_i)
  values_loop-Known (v' ∷ values) nums zero v e at_i =
      let (num, first, e') = chain_good (to_enum_value c v') _ e in
      let (rest, later, e'') = chain_good (values_loop c values) _ e' in
      let same : num ∷ rest ≡ nums = cc e'' in
      let same' : v' ≡ v = cc at_i in
      rw (← same) (num, refl, rw same' at (to_enum_value-Known v' num first))
  values_loop-Known (v' ∷ values) nums (suc i) v e at_i =
      let (num, first, e') = chain_good (to_enum_value c v') _ e in
      let (rest, later, e'') = chain_good (values_loop c values) _ e' in
      let same : num ∷ rest ≡ nums = cc e'' in
      rw (← same) (values_loop-Known values rest i v later at_i)

get_known :
    (col : EnumColumn) (i : ℕ) (num : ℤ) (n : List ℕ)
    → col.enum_as_number ≡ false
    → get_elem? col.data_values i ≡ some num
    → lookup equal_ℤ num col.value_to_name ≡ some n
    → get col i ≡ some (good (as_name n))
unfolding get output_of
get_known col i num n names at_i known = rw (get, at_i, output_of, names, known)

-- Reading a column that an EnumCodec has made of values never throws: at every index it gives the
-- name that the value there stands for, which is the value itself where that is a name.
pub from_values-get :
    (type : List ℕ) (c : EnumCodec) (values : List EnumInput) (col : EnumColumn)
    → new_enum_codec type ≡ good c
    → from_values c values ≡ good col
    → (i : ℕ) (v : EnumInput) → get_elem? values i ≡ some v
    → (n : List ℕ) × (get col i ≡ some (good (as_name n))) × StandsFor c v n
unfolding from_values
from_values-get type c values col made filled i v at_i =
    let p = new_enum_codec-IsCodec type c made in
    let (nums, numbers, e) = chain_good (values_loop c values) _ filled in
    let same : record {
      type = c.type;
      data_values = nums;
      value_to_name = c.mapping.value_to_name;
      enum_as_number = false;
    }
        ≡ col =
      cc e in
    let (num, at_num, (n, known, stands)) = values_loop-Known c p values nums i v numbers at_i in
    rw (← same) (n, get_known _ i num n refl at_num known, stands)
