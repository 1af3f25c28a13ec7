-- ===== src/Prelude/Scan.antt =====
-- A `while` loop that moves through a text: its body is a step that goes on or stops, and the loop
-- runs on fuel. Characters of a text are its UTF-16 code units.
use Prim.Native.Nat.{ℕ, zero, suc, ◌+◌, ◌≤◌, ◌<◌}
use mathlib.Core.Path.{◌≡◌, refl}
use mathlib.Core.Bool.{Bool, true, false, ◌&&◌, ◌||◌}
use mathlib.Core.Option.{none, some}
use mathlib.Core.List.{List, [], ◌∷◌}
use native.Mathlib.Omega.{arith}
use chwire.Prelude.Tests.{◌==◌, leb, if◌then◌else◌}
use chwire.Prelude.Lists.{get_elem?}

pub data Step (S : Type 0) : Type 0 where
  stop : S → Step S
  go : S → Step S

unfoldable pub scan : {S : Type 0} → (S → Step S) → ℕ → S → S
scan step zero s = s
scan step (suc fuel) s = elim (step s) [ stop s' ↦ s' | go s' ↦ scan step fuel s' ]

-- The loop ends by itself, in a state `t`, with at most so many rounds.
pub data EndsIn {S : Type 0} (step : S → Step S) : ℕ → S → S → Type 0 where
  stops : {n : ℕ} {s t : S} → step s ≡ stop t → EndsIn step (suc n) s t
  goes_on : {n : ℕ} {s s' t : S} → step s ≡ go s' → EndsIn step n s' t → EndsIn step (suc n) s t

-- A step that goes on moves to the right and starts inside the text; one that stops does not go back.
abbrev pub Forward : {S : Type 0} → (S → ℕ) → ℕ → S → Step S → Type 0
Forward pos len s (go s') = (pos s < pos s') × (pos s < len)
Forward pos len s (stop s') = pos s ≤ pos s'

module _ {S : Type 0} (pos : S → ℕ) (len : ℕ) (step : S → Step S)
    (fwd : (s : S) → Forward pos len s (step s)) where
  -- Such a loop ends by itself within the fuel, in the state that it returns.
  pub scan-EndsIn :
      (fuel : ℕ) (s : S) → 1 ≤ fuel → len < pos s + fuel → EndsIn step fuel s (scan step fuel s)
  unfolding scan
  scan-EndsIn zero s h l = absurd (omega arith)
  scan-EndsIn (suc fuel) s h l =
      (elim (step s)
          as (λ (t : Step S).
            Forward pos len s t
            → step s ≡ t
            → EndsIn step (suc fuel) s (elim t [ stop s' ↦ s' | go s' ↦ scan step fuel s' ])) [
              | stop s' ↦ λ f e. EndsIn.stops e
              | go s' ↦ λ f e.
                  EndsIn.goes_on e
                    (scan-EndsIn fuel s' (omega (arith, f.0, f.1)) (omega (arith, f.0)))
            ])
        (fwd s) refl

  -- It ends where it began or behind it.
  pub scan_forward : (fuel : ℕ) (s : S) → pos s ≤ pos (scan step fuel s)
  unfolding scan
  scan_forward zero s = omega arith
  scan_forward (suc fuel) s =
      (elim (step s)
          as (λ (t : Step S).
            Forward pos len s t
            → pos s ≤ pos (elim t [ stop s' ↦ s' | go s' ↦ scan step fuel s' ])) [
              | stop s' ↦ λ f. f
              | go s' ↦ λ f. omega (arith, f.0, scan_forward fuel s')
            ])
        (fwd s)

-- `text[i] === c`
abbrev pub is_at : List ℕ → ℕ → ℕ → Bool
is_at text i c = elim (get_elem? text i) [ none ↦ false | some x ↦ x == c ]

-- `text[i]` satisfies a test.
abbrev pub test_at : (ℕ → Bool) → List ℕ → ℕ → Bool
test_at p text i = elim (get_elem? text i) [ none ↦ false | some x ↦ p x ]

abbrev pub within : ℕ → ℕ → ℕ → Bool
within low high c = leb low c && leb c high

-- The white space and line ends that `trim()` removes.
abbrev pub is_trimmed : ℕ → Bool
is_trimmed c =
    within 9 13 c
    || c == 32
    || c == 160
    || c == 0x1680
    || within 0x2000 0x200a c
    || c == 0x2028
    || c == 0x2029
    || c == 0x202f
    || c == 0x205f
    || c == 0x3000
    || c == 0xfeff

unfoldable pub trim_start : List ℕ → List ℕ
trim_start [] = []
trim_start (c ∷ text) = let rest = trim_start text in if is_trimmed c then rest else c ∷ text

unfoldable pub trim_end : List ℕ → List ℕ
trim_end [] = []
trim_end (c ∷ text) = elim (trim_end text) [
  | [] ↦ if is_trimmed c then [] else c ∷ []
  | x ∷ rest ↦ c ∷ x ∷ rest
]

-- `text.trim()`
unfoldable pub trim : List ℕ → List ℕ
unfolding trim_start trim_end
trim text = trim_end (trim_start text)

-- `text.startsWith(prefix)`
unfoldable pub starts_with : List ℕ → List ℕ → Bool
starts_with [] s = true
starts_with (c ∷ prefix) [] = false
starts_with (c ∷ prefix) (d ∷ s) = let rest = starts_with prefix s in if c == d then rest else false
