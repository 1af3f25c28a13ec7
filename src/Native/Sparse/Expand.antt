-- ===== src/Native/Sparse/Expand.antt =====
-- What a sparse read makes of the sparse form of a list of words, in which zero is the default: for
-- every word that is not zero the count of zeros before it, then the count of zeros behind the last
-- one, marked as the end, and then the words that are not zero.
use chwire.Prelude.{
  ℕ, zero, suc, ◌+◌, ◌-◌, ◌^◌, ◌<◌, ◌≡◌, refl, ap, ◌∙◌, sym, List, [], ◌∷◌, ◌++◌, length, set,
  replicate, Bool, leb, ◌==◌, ◌/◌, ◌%◌, le→leb, lt→leb_false, true, false, arith, append-nil,
  append_assoc, length-append,
}
use chwire.Prelude.Result.{good}
use chwire.Io.VarInt.Encode.{leb128}
use chwire.Io.Reader.Reads.{read_varint64-Reads}
use chwire.Io.Reader.Decodes.{
  Decodes, Decodes-return, Decodes-bind, Decodes-of_eq, Reads-Decodes, FitWords, as_bytes,
}
use chwire.Native.Serialization.{DeserializerState}
use chwire.Native.Column.{typed, last}
use chwire.Native.Sparse.{
  Offsets, SparseCodec, stops, goes_on, no_runtime, end_of_granule_flag, begin, start_of_group,
  sparse_round, after_round, offsets_loop, sparse_offsets, scatter, spread_values, skip_values,
  fill, read_sparse,
}

-- The words that are not zero
abbrev pub values_of : List ℕ → List ℕ
values_of [] = []
values_of (zero ∷ xs) = values_of xs
values_of (suc x ∷ xs) = suc x ∷ values_of xs

-- Their places, where the first word is at `p`
abbrev pub places_of : ℕ → List ℕ → List ℕ
places_of p [] = []
places_of p (zero ∷ xs) = places_of (p + 1) xs
places_of p (suc x ∷ xs) = p ∷ places_of (p + 1) xs

-- The stream of offsets, behind a run of zeros
abbrev pub offset_bytes : ℕ → List ℕ → List ℕ
offset_bytes run [] = leb128 (end_of_granule_flag + run)
offset_bytes run (zero ∷ xs) = offset_bytes (run + 1) xs
offset_bytes run (suc x ∷ xs) = leb128 run ++ offset_bytes 0 xs

abbrev pub tracked : List ℕ → ℕ → Bool → Offsets
tracked indices total_rows first = record {
  indices = indices;
  total_rows = total_rows;
  read_offset = 0;
  skipped_values_rows = 0;
  is_first_value = first;
}

last-append : (xs : List ℕ) (x : ℕ) → last (xs ++ x ∷ []) ≡ x
last-append [] x = refl
last-append (y ∷ []) x = refl
last-append (y ∷ z ∷ xs) x = last-append (z ∷ xs) x

-- A group starts where the rows so far end.
abbrev pub Continues : Offsets → Type 0
Continues o = start_of_group o ≡ o.total_rows

pub placed-Continues :
    (indices : List ℕ) (p : ℕ) → Continues (tracked (indices ++ p ∷ []) (p + 1) false)
unfolding start_of_group
placed-Continues indices p = ground (arith, last-append indices p, length-append indices (p ∷ []))

value_round :
    (rows d : ℕ) (indices : List ℕ) (total : ℕ) (first : Bool)
    → Continues (tracked indices total first)
    → total + d < rows
    → d < 2 ^ 62
    → sparse_round rows d (tracked indices total first)
      ≡ goes_on (tracked (indices ++ (total + d) ∷ []) (total + d + 1) false)
unfolding sparse_round
value_round rows d indices total first c h l =
    let e : (d / 2 ^ 62 % 2 == 1) ≡ false = ground arith in
    let z : leb 0 d ≡ true = ground arith in
    let i : start_of_group (tracked indices total first) + d - 0 ≡ total + d = omega (arith, c) in
    rw (e, lt→leb_false rows (total + d) h, z, i)

end_round :
    (rows d : ℕ) (o : Offsets)
    → o.total_rows + d ≡ rows
    → d < 2 ^ 62
    → sparse_round rows (end_of_granule_flag + d) o ≡ stops no_runtime
unfolding sparse_round
end_round rows d o h l =
    let e : ((2 ^ 62 + d) / 2 ^ 62 % 2 == 1) ≡ true = ground arith in
    let m : 2 ^ 62 + d - 2 ^ 62 ≡ d = omega arith in
    let b : leb rows (o.total_rows + d) ≡ true = le→leb rows (o.total_rows + d) (omega arith) in
    let z : o.total_rows + d - rows ≡ 0 = omega arith in rw (e, m, b, z)

after : List ℕ → ℕ → ℕ → List ℕ → Bool → Offsets
after indices total run [] first = tracked indices total first
after indices total run (zero ∷ xs) first = after indices total (run + 1) xs first
after indices total run (suc x ∷ xs) first =
    after (indices ++ (total + run) ∷ []) (total + run + 1) 0 xs false

-- The loop reads the offsets of the words, one round for each that is not zero, and one more.
offsets_loop-Decodes :
    (xs : List ℕ) (fuel rows run : ℕ) (indices : List ℕ) (total : ℕ) (first : Bool)
    → Continues (tracked indices total first)
    → total + run + length xs ≡ rows
    → rows < 2 ^ 62
    → length xs < fuel
    → Decodes
        (offsets_loop fuel rows (tracked indices total first))
        (offset_bytes run xs)
        (after indices total run xs first, no_runtime)
unfolding offsets_loop after_round after
offsets_loop-Decodes xs zero rows run indices total first c h l f = absurd (omega arith)
offsets_loop-Decodes [] (suc fuel) rows run indices total first c h l f = record {
  at = λ r rest i e. rw (
    (read_varint64-Reads (end_of_granule_flag + run) (omega arith)).at r rest e,
    end_round rows run (tracked indices total first) (omega arith) (omega arith),
  );
}
offsets_loop-Decodes (zero ∷ xs) (suc fuel) rows run indices total first c h l f =
    offsets_loop-Decodes xs (suc fuel) rows (run + 1) indices total first c (omega arith) l
      (omega arith)
offsets_loop-Decodes (suc x ∷ xs) (suc fuel) rows run indices total first c h l f =
    Decodes-bind
      (λ (v : ℕ).
        after_round (tracked indices total first) (offsets_loop fuel rows)
          (sparse_round rows v (tracked indices total first)))
      (Reads-Decodes (read_varint64-Reads run (omega arith)))
      (rw (value_round rows run indices total first c (omega arith) (omega arith)) (
        offsets_loop-Decodes xs fuel rows 0 (indices ++ (total + run) ∷ []) (total + run + 1) false
          (placed-Continues indices (total + run)) (omega arith) l (omega arith)))

after-indices :
    (xs : List ℕ) (run : ℕ) (indices : List ℕ) (total : ℕ) (first : Bool)
    → (after indices total run xs first).indices ≡ indices ++ places_of (total + run) xs
unfolding after
after-indices [] run indices total first = sym (append-nil indices)
after-indices (zero ∷ xs) run indices total first =
    let e : total + (run + 1) ≡ total + run + 1 = omega arith in
    after-indices xs (run + 1) indices total first ∙ ap (λ (t : ℕ). indices ++ places_of t xs) e
after-indices (suc x ∷ xs) run indices total first =
    let e : total + run + 1 + 0 ≡ total + run + 1 = omega arith in
    after-indices xs 0 (indices ++ (total + run) ∷ []) (total + run + 1) false
    ∙ append_assoc indices ((total + run) ∷ []) (places_of (total + run + 1 + 0) xs)
    ∙ ap (λ (t : ℕ). indices ++ (total + run) ∷ places_of t xs) e

after_skipped :
    (xs : List ℕ) (run : ℕ) (indices : List ℕ) (total : ℕ) (first : Bool)
    → (after indices total run xs first).skipped_values_rows ≡ 0
unfolding after
after_skipped [] run indices total first = refl
after_skipped (zero ∷ xs) run indices total first = after_skipped xs (run + 1) indices total first
after_skipped (suc x ∷ xs) run indices total first =
    after_skipped xs 0 (indices ++ (total + run) ∷ []) (total + run + 1) false

length-places_of : (p : ℕ) (xs : List ℕ) → length (places_of p xs) ≡ length (values_of xs)
length-places_of p [] = refl
length-places_of p (zero ∷ xs) = length-places_of (p + 1) xs
length-places_of p (suc x ∷ xs) = ap suc (length-places_of (p + 1) xs)

values_of-FitWords : (size : ℕ) (xs : List ℕ) → FitWords size xs → FitWords size (values_of xs)
values_of-FitWords size [] h = tt
values_of-FitWords size (zero ∷ xs) (p, h) = values_of-FitWords size xs h
values_of-FitWords size (suc x ∷ xs) (p, h) = (p, values_of-FitWords size xs h)

set-length_append :
    (front : List ℕ) (y x : ℕ) (back : List ℕ)
    → set (front ++ y ∷ back) (length front) x ≡ front ++ x ∷ back
set-length_append [] y x back = refl
set-length_append (z ∷ front) y x back =
    ap (λ (t : List ℕ). z ∷ t) (set-length_append front y x back)

-- The words that are not zero, put in their places among zeros, are the words.
scatter-values_of :
    (xs front : List ℕ) (p : ℕ)
    → p ≡ length front
    → scatter (front ++ replicate (length xs) 0) (places_of p xs) (values_of xs) ≡ front ++ xs
unfolding scatter
scatter-values_of [] front p e = refl
scatter-values_of (zero ∷ xs) front p e =
    ap (λ (t : List ℕ). scatter t (places_of (p + 1) xs) (values_of xs))
      (sym (append_assoc front (0 ∷ []) (replicate (length xs) 0)))
    ∙ scatter-values_of xs (front ++ 0 ∷ []) (p + 1) (omega (arith, length-append front (0 ∷ [])))
    ∙ append_assoc front (0 ∷ []) xs
scatter-values_of (suc x ∷ xs) front p e =
    ap (λ (t : List ℕ). scatter t (places_of (p + 1) xs) (values_of xs))
      (ap (λ (t : ℕ). set (front ++ 0 ∷ replicate (length xs) 0) t (suc x)) e
        ∙ set-length_append front 0 (suc x) (replicate (length xs) 0)
        ∙ sym (append_assoc front (suc x ∷ []) (replicate (length xs) 0)))
    ∙ scatter-values_of xs (front ++ suc x ∷ []) (p + 1)
        (omega (arith, length-append front (suc x ∷ [])))
    ∙ append_assoc front (suc x ∷ []) xs

sparse_offsets-Decodes :
    (xs : List ℕ)
    → length xs < 2 ^ 62
    → Decodes
        (sparse_offsets (length xs) no_runtime)
        (offset_bytes 0 xs)
        (after [] 0 0 xs true, no_runtime)
unfolding sparse_offsets begin
sparse_offsets-Decodes xs l =
    offsets_loop-Decodes xs (length xs + 1) (length xs) 0 [] 0 true (unfold start_of_group in refl)
      (omega arith) l (omega arith)

-- A codec of words: it reads a dense run of them as a typed column, and builds one of zeros.
pub record ReadsWords (c : SparseCodec) (size : ℕ) (state : DeserializerState) : Type 0 where
  pub zeros : (rows : ℕ) → c.zeros rows ≡ good (typed c.type size (replicate rows 0))
  pub dense :
      (words : List ℕ)
      → FitWords size words
      → Decodes
          (c.decode_dense (length words) state)
          (as_bytes size words)
          (typed c.type size words)

module _ {c : SparseCodec} {size : ℕ} {state : DeserializerState}
    (h : ReadsWords c size state) where
  fill-Decodes :
      (rows : ℕ) (places words : List ℕ)
      → length places ≡ length words
      → FitWords size words
      → Decodes
          (fill c rows state places)
          (as_bytes size words)
          (typed c.type size (scatter (replicate rows 0) places words))
  unfolding fill spread_values as_bytes scatter
  fill-Decodes rows [] [] e w = rw (h.zeros rows) (Decodes-return _)
  fill-Decodes rows [] (x ∷ words) e w = absurd (omega arith)
  fill-Decodes rows (p ∷ places) [] e w = absurd (omega arith)
  fill-Decodes rows (p ∷ places) (x ∷ words) e w =
      let d : Decodes (c.decode_dense (length (p ∷ places)) state) (as_bytes size (x ∷ words))
          (typed c.type size (x ∷ words)) =
        rw e (h.dense (x ∷ words) w) in
      Decodes-of_eq (Decodes-bind (spread_values c rows (p ∷ places)) d (Decodes-return _))
        (append-nil (as_bytes size (x ∷ words)))

  -- Words that fit their elements, fewer than 2 ^ 62 of them, are read from their sparse form: the
  -- offsets, then the words that are not zero.
  pub read_sparse-Decodes :
      (xs : List ℕ)
      → FitWords size xs
      → length xs < 2 ^ 62
      → Decodes
          (read_sparse c (length xs) state)
          (offset_bytes 0 xs ++ as_bytes size (values_of xs))
          (typed c.type size xs)
  unfolding read_sparse skip_values
  read_sparse-Decodes xs w l = Decodes-bind _ (sparse_offsets-Decodes xs l) (
      rw (after_skipped xs 0 [] 0 true, after-indices xs 0 [] 0 true)
        (Decodes-of_eq
          (Decodes-bind (λ (t : Unit {0}). fill c (length xs) state (places_of 0 xs))
            (Decodes-return tt)
            (rw (scatter-values_of xs [] 0 refl) at (
              fill-Decodes (length xs) (places_of 0 xs) (values_of xs) (length-places_of 0 xs)
                (values_of-FitWords size xs w))))
          refl))
