-- ===== src/Native/Registry/Cache.antt =====
-- The cache of codecs holds every type once and never more types than its limit.
use chwire.Prelude.{
  ℕ, suc, ◌≤◌, ◌≡◌, refl, ap, ◌∙◌, sym, ltb, if◌then◌else◌, List, [], ◌∷◌, length, false, Option,
  none, some, arith, Bool-cases, inl, inr, le→ltb_false,
}
use chwire.Prelude.Outcome.{Outcome, ok, err, Exec, continue}
use chwire.Compression.{equals}
use chwire.Compression.RoundTrip.{equals→eq, equals_refl}
use chwire.Io.Reader.Stable.{state_of}
use chwire.Native.Registry.{
  Entry, codec_cache_limit, get, delete, set, evict, keep, on_cached, get_codec,
}

other : (s t : List ℕ) → equals s t ≡ false → equals t s ≡ false
other s t h = elim (Bool-cases (equals t s)) [
  | inr n ↦ n
  | inl e ↦ let k : t ≡ s = equals→eq t s e in absurd (cc (h, rw k at (equals_refl t)))
]

module _ {ℓ} {C : Type ℓ} where
  -- No key comes twice.
  abbrev pub AreUnique : List (Entry C) → Type ℓ
  AreUnique [] = Unit {ℓ}
  AreUnique (e ∷ cache) = (get e.key cache ≡ none) × AreUnique cache

  pub record IsCache (cache : List (Entry C)) : Type ℓ where
    pub unique : AreUnique cache
    pub limited : length cache ≤ codec_cache_limit

  get-delete_other :
      (k key : List ℕ) (cache : List (Entry C))
      → get k cache ≡ none
      → get k (delete key cache) ≡ none
  unfolding get delete
  get-delete_other k key [] h = refl
  get-delete_other k key (e ∷ cache) h = elim (Bool-cases (equals e.key k)) [
    | inl hit ↦ absurd (cc (rw hit at h))
    | inr miss ↦
        let h' : get k cache ≡ none = rw miss at h in
        elim (Bool-cases (equals e.key key)) [
          | inl here ↦ rw here h'
          | inr there ↦ rw (there, miss) (get-delete_other k key cache h')
        ]
  ]

  delete-AreUnique :
      (key : List ℕ) (cache : List (Entry C)) → AreUnique cache → AreUnique (delete key cache)
  unfolding delete
  delete-AreUnique key [] u = u
  delete-AreUnique key (e ∷ cache) (n, u) = elim (Bool-cases (equals e.key key)) [
    | inl here ↦ rw here u
    | inr there ↦ rw there (get-delete_other e.key key cache n, delete-AreUnique key cache u)
  ]

  get-delete :
      (key : List ℕ) (cache : List (Entry C)) → AreUnique cache → get key (delete key cache) ≡ none
  unfolding get delete
  get-delete key [] u = refl
  get-delete key (e ∷ cache) (n, u) = elim (Bool-cases (equals e.key key)) [
    | inl here ↦ let k : e.key ≡ key = equals→eq e.key key here in rw here (rw k at n)
    | inr there ↦ rw (there, there) (get-delete key cache u)
  ]

  length-delete :
      (key : List ℕ) (cache : List (Entry C)) {c : C}
      → get key cache ≡ some c
      → suc (length (delete key cache)) ≡ length cache
  unfolding get delete
  length-delete key [] h = absurd (cc h)
  length-delete key (e ∷ cache) h = elim (Bool-cases (equals e.key key)) [
    | inl here ↦ rw here
    | inr there ↦ rw there (ap suc (length-delete key cache (rw there at h)))
  ]

  get-set : (key : List ℕ) (c : C) (cache : List (Entry C)) → get key (set key c cache) ≡ some c
  unfolding get set
  get-set key c [] = rw (equals_refl key)
  get-set key c (e ∷ cache) = elim (Bool-cases (equals e.key key)) [
    | inl here ↦ rw (here, here)
    | inr there ↦ rw (there, there) (get-set key c cache)
  ]

  get-set_other :
      (k key : List ℕ) (c : C) (cache : List (Entry C))
      → equals key k ≡ false
      → get k (set key c cache) ≡ get k cache
  unfolding get set
  get-set_other k key c [] n = rw n
  get-set_other k key c (e ∷ cache) n = elim (Bool-cases (equals e.key key)) [
    | inl here ↦
        let e' : e.key ≡ key = equals→eq e.key key here in
        let m : equals e.key k ≡ false = rw e' n in rw (here, m)
    | inr there ↦ rw there (
        ap (λ (o : Option C). if equals e.key k then some e.value else o)
          (get-set_other k key c cache n))
  ]

  set-AreUnique :
      (key : List ℕ) (c : C) (cache : List (Entry C))
      → AreUnique cache
      → AreUnique (set key c cache)
  unfolding set get
  set-AreUnique key c [] u = (refl, tt)
  set-AreUnique key c (e ∷ cache) (n, u) = elim (Bool-cases (equals e.key key)) [
    | inl here ↦ rw here (n, u)
    | inr there ↦
        rw there
          (get-set_other e.key key c cache (other e.key key there) ∙ n, set-AreUnique key c cache u)
  ]

  -- A new key is one entry more, an old one none.
  length-set_le :
      (key : List ℕ) (c : C) (cache : List (Entry C))
      → length (set key c cache) ≤ suc (length cache)
  unfolding set
  length-set_le key c [] = omega arith
  length-set_le key c (e ∷ cache) = elim (Bool-cases (equals e.key key)) [
    | inl here ↦ rw here (omega arith)
    | inr there ↦ rw there (omega (arith, length-set_le key c cache))
  ]

  evict-IsCache :
      (cache : List (Entry C))
      → AreUnique cache
      → length cache ≤ suc codec_cache_limit
      → IsCache (evict cache)
  unfolding evict
  evict-IsCache [] u l = record { unique = u; limited = omega arith }
  evict-IsCache (e ∷ cache) (n, u) l =
      elim (Bool-cases (ltb codec_cache_limit (length (e ∷ cache)))) [
        | inl over ↦ rw over (record { unique = u; limited = omega (arith, l) })
        | inr fits ↦ rw fits (record { unique = (n, u); limited = ground (arith, fits) })
      ]

  -- The entry that was set last is not the one that is dropped.
  get-evict :
      (key : List ℕ) (c : C) (cache : List (Entry C))
      → length cache ≤ codec_cache_limit
      → get key (evict (set key c cache)) ≡ some c
  unfolding evict set
  get-evict key c [] l = get-set key c []
  get-evict key c (e ∷ cache) l = elim (Bool-cases (equals e.key key)) [
    | inl here ↦
        let f : ltb codec_cache_limit (length (e ∷ cache)) ≡ false = le→ltb_false _ _ l in
        let s : set key c (e ∷ cache) ≡ record e { value = c } ∷ cache = rw here in
        let g : evict (record e { value = c } ∷ cache) ≡ record e { value = c } ∷ cache = rw f in
        ap (λ (t : List (Entry C)). get key (evict t)) s
        ∙ ap (get key) (g ∙ sym s)
        ∙ get-set key c (e ∷ cache)
    | inr there ↦
        let s : set key c (e ∷ cache) ≡ e ∷ set key c cache = rw there in
        ap (λ (t : List (Entry C)). get key (evict t)) s
        ∙ elim (Bool-cases (ltb codec_cache_limit (length (e ∷ set key c cache)))) [
          | inl over ↦ rw over (get-set key c cache)
          | inr fits ↦ rw fits (ap (get key) (sym s) ∙ get-set key c (e ∷ cache))
        ]
  ]

  keep-IsCache :
      (key : List ℕ) (c : C) (cache : List (Entry C))
      → IsCache cache
      → IsCache (evict (set key c cache))
  keep-IsCache key c cache h =
      evict-IsCache (set key c cache) (set-AreUnique key c cache h.unique)
        (omega (arith, h.limited, length-set_le key c cache))

  moved-IsCache :
      (key : List ℕ) (c : C) (cache : List (Entry C))
      → IsCache cache
      → get key cache ≡ some c
      → IsCache (set key c (delete key cache))
  moved-IsCache key c cache h e = record {
    unique = set-AreUnique key c (delete key cache) (delete-AreUnique key cache h.unique);
    limited =
        omega (arith, h.limited, length-set_le key c (delete key cache), length-delete key cache e);
  }

  module _ (create_codec : List ℕ → Exec (List (Entry C)) C)
      (keeps : (type : List ℕ) (cache : List (Entry C))
        → IsCache cache
        → IsCache (state_of (create_codec type cache))) where
    kept_IsCache :
        (type : List ℕ) (o : Outcome (List (Entry C)) C)
        → IsCache (state_of o)
        → IsCache (state_of (continue o (λ codec. keep type codec)))
    unfolding keep
    kept_IsCache type (ok c cache) h = keep-IsCache type c cache h
    kept_IsCache type (err e cache) h = h

    cached_IsCache :
        (type : List ℕ) (cache : List (Entry C)) (o : Option C)
        → get type cache ≡ o
        → IsCache cache
        → IsCache (state_of (on_cached create_codec type o cache))
    unfolding on_cached
    cached_IsCache type cache (some c) e h = moved-IsCache type c cache h e
    cached_IsCache type cache none e h =
        kept_IsCache type (create_codec type cache) (keeps type cache h)

    kept_is_there :
        (type : List ℕ) (o : Outcome (List (Entry C)) C) (c : C) (cache : List (Entry C))
        → IsCache (state_of o)
        → continue o (λ codec. keep type codec) ≡ ok c cache
        → get type cache ≡ some c
    unfolding keep
    kept_is_there type (ok d before) c cache h e =
        let a : d ≡ c = cc e in
        let b : evict (set type d before) ≡ cache = cc e in
        rw (← b, ← a) (get-evict type d before h.limited)
    kept_is_there type (err x before) c cache h e = absurd (cc e)

    cached_is_there :
        (type : List ℕ) (before : List (Entry C)) (o : Option C) (c : C) (cache : List (Entry C))
        → IsCache before
        → on_cached create_codec type o before ≡ ok c cache
        → get type cache ≡ some c
    unfolding on_cached
    cached_is_there type before (some d) c cache h e =
        let a : d ≡ c = cc e in
        let b : set type d (delete type before) ≡ cache = cc e in
        rw (← b, ← a) (get-set type d (delete type before))
    cached_is_there type before none c cache h e =
        kept_is_there type (create_codec type before) c cache (keeps type before h) e

    -- Where the creation of codecs keeps the cache well-formed (no type twice, no more types than the
    -- limit), getCodec does, also where it throws; the codec that it returns is in the cache under
    -- its type then, and a codec that was there before is the one it returns.
    pub get_codec-IsCache :
        (type : List ℕ) (cache : List (Entry C))
        → IsCache cache
        → IsCache (state_of (get_codec create_codec type cache))
          × ((c : C) (after : List (Entry C))
              → get_codec create_codec type cache ≡ ok c after
              → get type after ≡ some c)
          × ((c : C)
              → get type cache ≡ some c
              → (after : List (Entry C)) × (get_codec create_codec type cache ≡ ok c after))
    unfolding get_codec
    get_codec-IsCache type cache h = (
      cached_IsCache type cache (get type cache) refl h,
      λ c after e. cached_is_there type cache (get type cache) c after h e,
      λ c e. (set type c (delete type cache), unfold on_cached in rw e),
    )
