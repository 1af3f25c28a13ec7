-- ===== src/Native/Sparse/Bounds.antt =====
-- The offsets of a sparse column, whatever the bytes are: where the values go, and how often the
-- loop runs.
use chwire.Prelude.{
  ℕ, zero, suc, ◌+◌, ◌-◌, ◌≤◌, ◌<◌, ◌≡◌, refl, ap, ◌∙◌, sym, leb, ◌==◌, ◌/◌, ◌%◌, ◌^◌, List, [],
  ◌∷◌, ◌++◌, Bool, true, false, arith, Bool-cases, inl, inr, leb-false, ◌⊎◌,
}
use chwire.Prelude.Outcome.{Outcome, ok, err, Exec, continue}
use chwire.Io.Reader.{BufferReader, read_varint64}
use chwire.Native.Sparse.{
  Offsets, SparseRuntime, SparseOffsets, Round, stops, goes_on, no_runtime, begin, start_of_group,
  sparse_round, after_round, offsets_loop, sparse_offsets,
}
use chwire.Native.Sparse.Expand.{tracked, Continues, placed-Continues}

-- Every number is larger than the one before it; the first is `low` at least, the last below `high`.
abbrev pub Increasing : ℕ → List ℕ → ℕ → Type 0
Increasing low [] high = low ≤ high
Increasing low (x ∷ xs) high = (low ≤ x) × Increasing (x + 1) xs high

Increasing-append :
    (low : ℕ) (xs : List ℕ) (m x : ℕ)
    → Increasing low xs m
    → m ≤ x
    → Increasing low (xs ++ x ∷ []) (x + 1)
Increasing-append low [] m x h l = (omega arith, omega arith)
Increasing-append low (y ∷ xs) m x (p, h) l = (p, Increasing-append (y + 1) xs m x h l)

Increasing-le :
    (low : ℕ) (xs : List ℕ) (m n : ℕ) → Increasing low xs m → m ≤ n → Increasing low xs n
Increasing-le low [] m n h l = omega arith
Increasing-le low (y ∷ xs) m n (p, h) l = (p, Increasing-le (y + 1) xs m n h l)

last_round :
    (rows v : ℕ) (o : Offsets)
    → (v / 2 ^ 62 % 2 == 1) ≡ true
    → (s : SparseRuntime) × (sparse_round rows v o ≡ stops s)
unfolding sparse_round
last_round rows v o e = elim (Bool-cases (leb rows (o.total_rows + (v - 2 ^ 62)))) [
  | inl full ↦ (
    record {
      trailing_default_count = o.total_rows + (v - 2 ^ 62) - rows;
      has_value_after_trailing = false;
    },
    rw (e, full),
  )
  | inr room ↦ (
    record { trailing_default_count = v - 2 ^ 62; has_value_after_trailing = false },
    rw (e, room),
  )
]

full_round :
    (rows v : ℕ) (o : Offsets)
    → (v / 2 ^ 62 % 2 == 1) ≡ false
    → leb rows (o.total_rows + v) ≡ true
    → (s : SparseRuntime) × (sparse_round rows v o ≡ stops s)
unfolding sparse_round
full_round rows v o e full = (
  record { trailing_default_count = o.total_rows + v - rows; has_value_after_trailing = true },
  rw (e, full),
)

value_goes_on :
    (rows v : ℕ) (indices : List ℕ) (total : ℕ) (first : Bool)
    → Continues (tracked indices total first)
    → (v / 2 ^ 62 % 2 == 1) ≡ false
    → leb rows (total + v) ≡ false
    → sparse_round rows v (tracked indices total first)
      ≡ goes_on (tracked (indices ++ (total + v) ∷ []) (total + v + 1) false)
unfolding sparse_round
value_goes_on rows v indices total first c e room =
    let z : leb 0 v ≡ true = ground arith in
    let i : start_of_group (tracked indices total first) + v - 0 ≡ total + v = omega (arith, c) in
    rw (e, room, z, i)

-- The cases of a round
round_cases :
    (rows v : ℕ) (indices : List ℕ) (total : ℕ) (first : Bool)
    → Continues (tracked indices total first)
    → ((s : SparseRuntime) × (sparse_round rows v (tracked indices total first) ≡ stops s))
      ⊎ ((total + v < rows)
          × (sparse_round rows v (tracked indices total first)
              ≡ goes_on (tracked (indices ++ (total + v) ∷ []) (total + v + 1) false)))
round_cases rows v indices total first c = elim (Bool-cases (v / 2 ^ 62 % 2 == 1)) [
  | inl e ↦ inl (last_round rows v (tracked indices total first) e)
  | inr e ↦ elim (Bool-cases (leb rows (total + v))) [
    | inl full ↦ inl (full_round rows v (tracked indices total first) e full)
    | inr room ↦
        inr (leb-false rows (total + v) room, value_goes_on rows v indices total first c e room)
  ]
]

-- What the loop leaves behind
pub record WellPlaced (rows : ℕ) (o : Offsets) : Type 0 where
  pub increasing : Increasing 0 o.indices rows
  pub none_skipped : o.skipped_values_rows ≡ 0

-- One round: either it is the last, or the later rounds decide.
after_WellPlaced :
    (rows : ℕ) (indices : List ℕ) (total : ℕ) (first : Bool)
    (again : Offsets → Exec BufferReader SparseOffsets) (o : Outcome BufferReader ℕ)
    (result : SparseOffsets) (r' : BufferReader)
    → Continues (tracked indices total first)
    → Increasing 0 indices total
    → total ≤ rows
    → ((x : List ℕ) (t : ℕ) (s : BufferReader)
        → Continues (tracked x t false)
        → Increasing 0 x t
        → t ≤ rows
        → total < t
        → again (tracked x t false) s ≡ ok result r'
        → WellPlaced rows (result.0))
    → continue o (λ v.
      after_round
        (tracked indices total first)
        again
        (sparse_round rows v (tracked indices total first)))
      ≡ ok result r'
    → WellPlaced rows (result.0)
unfolding after_round
after_WellPlaced rows indices total first again (err e s) result r' c h l later q = absurd (cc q)
after_WellPlaced rows indices total first again (ok v s) result r' c h l later q =
    elim (round_cases rows v indices total first c) [
      | inl (x, e) ↦
          let q' : ok (tracked indices total first, x) s ≡ ok result r' =
            sym (ap (λ (t : Round). after_round (tracked indices total first) again t s) e) ∙ q in
          let pair : (tracked indices total first, x) ≡ result = cc q' in
          let p : tracked indices total first ≡ result.0 = ap (λ (t : SparseOffsets). t.0) pair in
          rw (← p)
            (record { increasing = Increasing-le 0 indices total rows h l; none_skipped = refl })
      | inr (room, e) ↦
          later (indices ++ (total + v) ∷ []) (total + v + 1) s
            (placed-Continues indices (total + v))
            (Increasing-append 0 indices total (total + v) h (omega arith)) (omega arith)
            (omega arith)
            (sym (ap (λ (t : Round). after_round (tracked indices total first) again t s) e) ∙ q)
    ]

loop_WellPlaced :
    (fuel rows : ℕ) (indices : List ℕ) (total : ℕ) (first : Bool) (r : BufferReader)
    (result : SparseOffsets) (r' : BufferReader)
    → Continues (tracked indices total first)
    → Increasing 0 indices total
    → total ≤ rows
    → offsets_loop fuel rows (tracked indices total first) r ≡ ok result r'
    → WellPlaced rows (result.0)
unfolding offsets_loop
loop_WellPlaced zero rows indices total first r result r' c h l q =
    let pair : (tracked indices total first, no_runtime) ≡ result = cc q in
    let p : tracked indices total first ≡ result.0 = ap (λ (t : SparseOffsets). t.0) pair in
    rw (← p) (record { increasing = Increasing-le 0 indices total rows h l; none_skipped = refl })
loop_WellPlaced (suc fuel) rows indices total first r result r' c h l q =
    after_WellPlaced rows indices total first (offsets_loop fuel rows) (read_varint64 r) result r' c
      h l (λ x t s c' h' l' g e. loop_WellPlaced fuel rows x t false s result r' c' h' l' e) q

-- Whatever bytes come, where the offsets of a sparse column of `rows` rows are read, the places of
-- the values increase and are rows of the column, and no value is skipped.
pub sparse_offsets-WellPlaced :
    (rows : ℕ) (r : BufferReader) (result : SparseOffsets) (r' : BufferReader)
    → sparse_offsets rows no_runtime r ≡ ok result r'
    → WellPlaced rows (result.0)
unfolding sparse_offsets begin
sparse_offsets-WellPlaced rows r result r' q =
    loop_WellPlaced (rows + 1) rows [] 0 true r result r' (unfold start_of_group in refl)
      (omega arith) (omega arith) q

-- One round of two loops that agree behind it
same_after :
    (rows : ℕ) (indices : List ℕ) (total : ℕ) (first : Bool)
    (a b : Offsets → Exec BufferReader SparseOffsets) (o : Outcome BufferReader ℕ)
    → Continues (tracked indices total first)
    → ((x : List ℕ) (t : ℕ) (s : BufferReader)
        → Continues (tracked x t false)
        → t ≤ rows
        → total < t
        → a (tracked x t false) s ≡ b (tracked x t false) s)
    → continue o (λ v.
      after_round
        (tracked indices total first)
        a
        (sparse_round rows v (tracked indices total first)))
      ≡ continue o (λ v.
        after_round
          (tracked indices total first)
          b
          (sparse_round rows v (tracked indices total first)))
unfolding after_round
same_after rows indices total first a b (err e s) c later = refl
same_after rows indices total first a b (ok v s) c later =
    elim (round_cases rows v indices total first c) [
      | inl (x, e) ↦ rw e
      | inr (room, e) ↦ rw e (
          later (indices ++ (total + v) ∷ []) (total + v + 1) s
            (placed-Continues indices (total + v)) (omega arith) (omega arith))
    ]

offsets_loop_rounds :
    (fuel more rows : ℕ) (indices : List ℕ) (total : ℕ) (first : Bool) (r : BufferReader)
    → Continues (tracked indices total first)
    → total ≤ rows
    → rows < total + fuel
    → fuel ≤ more
    → offsets_loop more rows (tracked indices total first) r
      ≡ offsets_loop fuel rows (tracked indices total first) r
unfolding offsets_loop
offsets_loop_rounds zero more rows indices total first r c l f g = absurd (omega arith)
offsets_loop_rounds (suc fuel) zero rows indices total first r c l f g = absurd (omega arith)
offsets_loop_rounds (suc fuel) (suc more) rows indices total first r c l f g =
    same_after rows indices total first (offsets_loop more rows) (offsets_loop fuel rows)
      (read_varint64 r) c
      (λ x t s c' l' h.
        offsets_loop_rounds fuel more rows x t false s c' l' (omega arith) (omega arith))

-- The loop over the offsets ends before its fuel does, whatever bytes come: with more fuel than one
-- round for each row, and one more, it does the same.
pub sparse_offsets_rounds :
    (more rows : ℕ) (r : BufferReader)
    → rows + 1 ≤ more
    → offsets_loop more rows (begin no_runtime) r ≡ sparse_offsets rows no_runtime r
unfolding sparse_offsets begin
sparse_offsets_rounds more rows r h =
    offsets_loop_rounds (rows + 1) more rows [] 0 true r (unfold start_of_group in refl)
      (omega arith) (omega arith) h
