-- ===== src/Native/Registry.antt =====
-- native/codecs/registry.ts: the cache of getCodec. A JavaScript Map keeps its keys in the order of
-- their insertion, so the cache is a list of entries, the oldest first. Parameter: createCodec, which
-- gets the codecs of inner types from the same cache, and so is a step on it.
-- `===` on texts is `equals`.
pub mod Cache
use chwire.Prelude.{
  ℕ, ltb, ◌==◌, if◌then◌else◌, List, [], ◌∷◌, length, Bool, true, false, ◌&&◌, Option, none, some,
}
use chwire.Compression.{equals}
use chwire.Prelude.Outcome.{ok, Exec, continue}

pub record Entry {ℓ} (C : Type ℓ) : Type ℓ where
  pub key : List ℕ
  pub value : C

abbrev pub codec_cache_limit : ℕ
codec_cache_limit = 8192

module _ {ℓ} {C : Type ℓ} where
  -- The Map's `get`, `delete` and `set`
  unfoldable pub get : List ℕ → List (Entry C) → Option C
  unfolding equals
  get key [] = none
  get key (e ∷ cache) = if equals e.key key then some e.value else get key cache

  unfoldable pub delete : List ℕ → List (Entry C) → List (Entry C)
  unfolding equals
  delete key [] = []
  delete key (e ∷ cache) =
      let rest = delete key cache in if equals e.key key then cache else e ∷ rest

  unfoldable pub set : List ℕ → C → List (Entry C) → List (Entry C)
  unfolding equals
  set key c [] = record { key = key; value = c } ∷ []
  set key c (e ∷ cache) =
      let rest = set key c cache in
      if equals e.key key then record e { value = c } ∷ cache else e ∷ rest

  -- `delete` of the first key
  abbrev pub delete_oldest : List (Entry C) → List (Entry C)
  delete_oldest [] = []
  delete_oldest (e ∷ cache) = cache

  unfoldable pub evict : List (Entry C) → List (Entry C)
  evict cache = if ltb codec_cache_limit (length cache) then delete_oldest cache else cache

  unfoldable pub keep : List ℕ → C → Exec (List (Entry C)) C
  unfolding set evict
  keep key c cache = ok c (evict (set key c cache))

  -- What getCodec does on what the cache has for the type
  unfoldable pub on_cached :
      (List ℕ → Exec (List (Entry C)) C) → List ℕ → Option C → Exec (List (Entry C)) C
  unfolding delete set keep
  on_cached create_codec type (some cached) cache = ok cached (set type cached (delete type cache))
  on_cached create_codec type none cache =
      continue (create_codec type cache) (λ codec. keep type codec)

  unfoldable pub get_codec : (List ℕ → Exec (List (Entry C)) C) → List ℕ → Exec (List (Entry C)) C
  unfolding get on_cached
  get_codec create_codec type cache = on_cached create_codec type (get type cache) cache
