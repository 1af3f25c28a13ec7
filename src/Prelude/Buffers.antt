-- ===== src/Prelude/Buffers.antt =====
-- What is read back from a list after writes into it, as from a buffer.
use Prim.Native.Nat.{ℕ, zero, suc, ◌+◌, ◌-◌, ◌≤◌, ◌<◌}
use mathlib.Core.Path.{◌≡◌, refl, ap, sym, ◌∙◌}
use mathlib.Core.Logic.{◌⊎◌, inl, inr}
use mathlib.Core.List.{List, [], ◌∷◌, ◌++◌}
use mathlib.Core.Option.{some}
use native.Mathlib.Omega.{arith}
use chwire.Prelude.Lists.{
  length, get_elem?, set, take, drop, replicate, blit, subarray, length-take, length-drop, drop_all,
  drop-drop, drop-take, drop-append_le,
}

module _ {ℓ} {A : Type ℓ} where
  pub length-blit : (xs : List A) (o : ℕ) (ys : List A) → length (blit xs o ys) ≡ length xs
  unfolding blit
  length-blit [] o ys = refl
  length-blit (x ∷ xs) (suc o) ys = ap suc (length-blit xs o ys)
  length-blit (x ∷ xs) zero [] = refl
  length-blit (x ∷ xs) zero (y ∷ ys) = ap suc (length-blit xs zero ys)

  -- A write that fits puts `ys` behind the first `o` elements.
  pub take-blit :
      (xs : List A) (o : ℕ) (ys : List A) (n : ℕ)
      → n ≡ o + length ys
      → n ≤ length xs
      → take n (blit xs o ys) ≡ take o xs ++ ys
  unfolding blit
  take-blit [] zero [] zero e h = refl
  take-blit [] zero (y ∷ ys) zero e h = absurd (omega arith)
  take-blit [] (suc o) ys zero e h = absurd (omega arith)
  take-blit [] o ys (suc n) e h = absurd (omega arith)
  take-blit (x ∷ xs) (suc o) ys zero e h = absurd (omega arith)
  take-blit (x ∷ xs) (suc o) ys (suc n) e h =
      ap (λ (t : List A). x ∷ t) (take-blit xs o ys n (omega arith) (omega arith))
  take-blit (x ∷ xs) zero [] zero e h = refl
  take-blit (x ∷ xs) zero [] (suc n) e h = absurd (omega arith)
  take-blit (x ∷ xs) zero (y ∷ ys) zero e h = absurd (omega arith)
  take-blit (x ∷ xs) zero (y ∷ ys) (suc n) e h =
      ap (λ (t : List A). y ∷ t) (take-blit xs zero ys n (omega arith) (omega arith))

  pub take-blit_before :
      (xs : List A) (o : ℕ) (ys : List A) (n : ℕ) → n ≤ o → take n (blit xs o ys) ≡ take n xs
  unfolding blit
  take-blit_before xs o ys zero h = refl
  take-blit_before [] o ys (suc n) h = refl
  take-blit_before (x ∷ xs) zero ys (suc n) h = absurd (omega arith)
  take-blit_before (x ∷ xs) (suc o) ys (suc n) h =
      ap (λ (t : List A). x ∷ t) (take-blit_before xs o ys n (omega arith))

  pub drop-blit_after :
      (xs : List A) (o : ℕ) (ys : List A) (n : ℕ)
      → o + length ys ≤ n
      → drop n (blit xs o ys) ≡ drop n xs
  unfolding blit
  drop-blit_after [] o ys n h = refl
  drop-blit_after (x ∷ xs) zero [] n h = refl
  drop-blit_after (x ∷ xs) zero (y ∷ ys) zero h = absurd (omega arith)
  drop-blit_after (x ∷ xs) zero (y ∷ ys) (suc n) h = drop-blit_after xs zero ys n (omega arith)
  drop-blit_after (x ∷ xs) (suc o) ys zero h = absurd (omega arith)
  drop-blit_after (x ∷ xs) (suc o) ys (suc n) h = drop-blit_after xs o ys n (omega arith)

  pub take-set :
      (xs : List A) (i : ℕ) (v : A)
      → i < length xs
      → take (suc i) (set xs i v) ≡ take i xs ++ v ∷ []
  take-set [] i v h = absurd (omega arith)
  take-set (x ∷ xs) zero v h = refl
  take-set (x ∷ xs) (suc i) v h = ap (λ (t : List A). x ∷ t) (take-set xs i v (omega arith))

  pub take-set_before :
      (xs : List A) (i : ℕ) (v : A) (n : ℕ) → n ≤ i → take n (set xs i v) ≡ take n xs
  take-set_before xs i v zero h = refl
  take-set_before [] i v (suc n) h = refl
  take-set_before (x ∷ xs) zero v (suc n) h = absurd (omega arith)
  take-set_before (x ∷ xs) (suc i) v (suc n) h =
      ap (λ (t : List A). x ∷ t) (take-set_before xs i v n (omega arith))

  pub drop-set_after :
      (xs : List A) (i : ℕ) (v : A) (n : ℕ) → i < n → drop n (set xs i v) ≡ drop n xs
  drop-set_after [] i v n h = refl
  drop-set_after (x ∷ xs) i v zero h = absurd (omega arith)
  drop-set_after (x ∷ xs) zero v (suc n) h = refl
  drop-set_after (x ∷ xs) (suc i) v (suc n) h = drop-set_after xs i v n (omega arith)

  pub blit-nil : (xs : List A) (o : ℕ) → blit xs o [] ≡ xs
  unfolding blit
  blit-nil [] o = refl
  blit-nil (x ∷ xs) zero = refl
  blit-nil (x ∷ xs) (suc o) = ap (λ (t : List A). x ∷ t) (blit-nil xs o)

  pub blit-set :
      (xs : List A) (o : ℕ) (y : A) (ys : List A)
      → blit (set xs o y) (suc o) ys ≡ blit xs o (y ∷ ys)
  unfolding blit
  blit-set [] o y ys = refl
  blit-set (x ∷ xs) zero y ys = refl
  blit-set (x ∷ xs) (suc o) y ys = ap (λ (t : List A). x ∷ t) (blit-set xs o y ys)

  pub blit_one : (xs : List A) (o : ℕ) (y : A) → blit xs o (y ∷ []) ≡ set xs o y
  unfolding blit
  blit_one [] o y = refl
  blit_one (x ∷ xs) zero y = ap (λ (t : List A). y ∷ t) (blit-nil xs zero)
  blit_one (x ∷ xs) (suc o) y = ap (λ (t : List A). x ∷ t) (blit_one xs o y)

  pub get_elem?-append :
      (xs ys : List A) (i : ℕ) {x : A} → get_elem? xs i ≡ some x → get_elem? (xs ++ ys) i ≡ some x
  get_elem?-append [] ys i h = cc
  get_elem?-append (y ∷ xs) ys zero h = h
  get_elem?-append (y ∷ xs) ys (suc i) h = get_elem?-append xs ys i h

  pub get_elem?-lt : (xs : List A) (i : ℕ) {x : A} → get_elem? xs i ≡ some x → i < length xs
  get_elem?-lt [] i h = cc
  get_elem?-lt (y ∷ xs) zero h = omega arith
  get_elem?-lt (y ∷ xs) (suc i) h = omega (arith, get_elem?-lt xs i h)

  -- What was written at `o` is read back at `o`.
  pub subarray-blit :
      (xs : List A) (o : ℕ) (ys : List A)
      → o + length ys ≤ length xs
      → take (length ys) (drop o (blit xs o ys)) ≡ ys
  unfolding blit
  subarray-blit [] zero [] h = refl
  subarray-blit [] zero (y ∷ ys) h = absurd (omega arith)
  subarray-blit [] (suc o) ys h = absurd (omega arith)
  subarray-blit (x ∷ xs) zero [] h = refl
  subarray-blit (x ∷ xs) zero (y ∷ ys) h =
      ap (λ (t : List A). y ∷ t) (subarray-blit xs zero ys (omega arith))
  subarray-blit (x ∷ xs) (suc o) ys h = subarray-blit xs o ys (omega arith)

  -- A run that is written at the end of a range extends the range.
  pub subarray-blit_end :
      (xs : List A) (start end : ℕ) (ys : List A) (end' : ℕ)
      → start ≤ end
      → end' ≡ end + length ys
      → end' ≤ length xs
      → subarray (blit xs end ys) start end' ≡ subarray xs start end ++ ys
  subarray-blit_end xs start end ys end' h e fits =
      sym (drop-take start (end' - start) end' (blit xs end ys) (omega arith))
      ∙ ap (drop start) (take-blit xs end ys end' e fits)
      ∙ drop-append_le start (take end xs) ys (omega (arith, length-take end xs))
      ∙ ap (λ (t : List A). t ++ ys) (drop-take start (end - start) end xs (omega arith))

  pub length-subarray :
      (xs : List A) (start end : ℕ) → end ≤ length xs → length (subarray xs start end) ≡ end - start
  length-subarray xs start end h =
      omega (arith, length-take (end - start) (drop start xs), length-drop start xs)

  -- A run written over the front of a list is what the front then holds.
  pub subarray-blit_front :
      (xs ys : List A) (n : ℕ) → n ≡ length ys → n ≤ length xs → subarray (blit xs 0 ys) 0 n ≡ ys
  subarray-blit_front xs ys n e h =
      let d : n - 0 ≡ n = omega arith in
      ap (λ (t : ℕ). take t (blit xs 0 ys)) d ∙ take-blit xs 0 ys n (omega arith) h

  pub drop-subarray :
      (n : ℕ) (xs : List A) (start end : ℕ)
      → drop n (subarray xs start end) ≡ subarray xs (start + n) end
  drop-subarray n xs start end = elim (le_or_lt n (end - start)) [
    | inl le ↦
        drop-take n (end - (start + n)) (end - start) (drop start xs) (omega arith)
        ∙ ap (take (end - (start + n))) (drop-drop start n (start + n) xs refl)
    | inr lt ↦
        let z : end - (start + n) ≡ 0 = omega arith in
        drop_all n (subarray xs start end)
          (omega (arith, length-take (end - start) (drop start xs)))
        ∙ ap (λ (t : ℕ). take t (drop (start + n) xs)) (sym z)
  ]
    where
      le_or_lt : (a b : ℕ) → (a ≤ b) ⊎ (b < a)
      le_or_lt a b = omega arith

module _ {ℓ} {A : Type ℓ} where
  pub blit_over : (xs ys : List A) → length xs ≡ length ys → blit xs 0 ys ≡ ys
  unfolding blit
  blit_over [] [] h = refl
  blit_over [] (y ∷ ys) h = absurd (omega arith)
  blit_over (x ∷ xs) [] h = absurd (omega arith)
  blit_over (x ∷ xs) (y ∷ ys) h = ap (λ (t : List A). y ∷ t) (blit_over xs ys (omega arith))

  pub blit_front :
      (xs rest ys : List A) → length xs ≡ length ys → blit (xs ++ rest) 0 ys ≡ ys ++ rest
  unfolding blit
  blit_front [] rest [] h = blit-nil rest 0
  blit_front [] rest (y ∷ ys) h = absurd (omega arith)
  blit_front (x ∷ xs) rest [] h = absurd (omega arith)
  blit_front (x ∷ xs) rest (y ∷ ys) h =
      ap (λ (t : List A). y ∷ t) (blit_front xs rest ys (omega arith))

  pub replicate-add :
      (m n k : ℕ) (x : A) → k ≡ m + n → replicate k x ≡ replicate m x ++ replicate n x
  replicate-add zero n k x e = let e' : k ≡ n = omega arith in rw e'
  replicate-add (suc m) n zero x e = absurd (omega arith)
  replicate-add (suc m) n (suc k) x e =
      ap (λ (t : List A). x ∷ t) (replicate-add m n k x (omega arith))

  pub get_elem?-add :
      (xs : List A) (m n k : ℕ) → k ≡ m + n → get_elem? xs k ≡ get_elem? (drop m xs) n
  get_elem?-add xs zero n k e = let e' : k ≡ n = omega arith in rw e'
  get_elem?-add [] (suc m) n k e = refl
  get_elem?-add (x ∷ xs) (suc m) n zero e = absurd (omega arith)
  get_elem?-add (x ∷ xs) (suc m) n (suc k) e = get_elem?-add xs m n k (omega arith)

  pub get_elem?-append_lt :
      (xs ys : List A) (i : ℕ) → i < length xs → get_elem? (xs ++ ys) i ≡ get_elem? xs i
  get_elem?-append_lt [] ys i h = absurd (omega arith)
  get_elem?-append_lt (x ∷ xs) ys zero h = refl
  get_elem?-append_lt (x ∷ xs) ys (suc i) h = get_elem?-append_lt xs ys i (omega arith)

  pub get_elem?-take_lt :
      (n : ℕ) (xs : List A) (i : ℕ) → i < n → get_elem? (take n xs) i ≡ get_elem? xs i
  get_elem?-take_lt zero xs i h = absurd (omega arith)
  get_elem?-take_lt (suc n) [] i h = refl
  get_elem?-take_lt (suc n) (x ∷ xs) zero h = refl
  get_elem?-take_lt (suc n) (x ∷ xs) (suc i) h = get_elem?-take_lt n xs i (omega arith)
