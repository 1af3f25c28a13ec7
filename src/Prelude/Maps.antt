-- ===== src/Prelude/Maps.antt =====
-- A `Map` as the list of its entries, in the order of insertion, with a test for equal keys.
use mathlib.Core.Path.{◌≡◌, refl}
use mathlib.Core.Bool.{Bool}
use mathlib.Core.List.{List, [], ◌∷◌, ◌++◌}
use mathlib.Core.Option.{Option, none, some}
use native.Mathlib.Omega.{arith}
use chwire.Prelude.Tests.{if◌then◌else◌}

module _ {K V : Type 0} (equal : K → K → Bool) where
  -- `get`, and `has` where it is tested for an entry
  unfoldable pub lookup : K → List (K × V) → Option V
  lookup key [] = none
  lookup key ((k, v) ∷ entries) = if equal k key then some v else lookup key entries

  pub lookup-append_some :
      (key : K) (entries more : List (K × V)) {v : V}
      → lookup key entries ≡ some v
      → lookup key (entries ++ more) ≡ some v
  unfolding lookup
  lookup-append_some key [] more e = cc
  lookup-append_some key ((k, w) ∷ entries) more {v} e =
      ground (arith, lookup-append_some key entries more {v = v})

  pub lookup-append_none :
      (key : K) (entries more : List (K × V))
      → lookup key entries ≡ none
      → lookup key (entries ++ more) ≡ lookup key more
  unfolding lookup
  lookup-append_none key [] more e = refl
  lookup-append_none key ((k, w) ∷ entries) more e =
      ground (arith, e, lookup-append_none key entries more)
