-- ===== src/Native/Block/Header.antt =====
-- The counts at the start of a block, behind the block information.
use chwire.Prelude.{
  ℕ, zero, suc, ◌+◌, ◌≤◌, ◌<◌, ◌≡◌, refl, ap, ◌∙◌, ◌==◌, List, ◌++◌, length, arith, length-append,
  Bool-cases, inl, inr,
}
use chwire.Prelude.Outcome.{Outcome, ok, err, Exec, continue, Final}
use chwire.Io.VarInt.{read_var_int}
use chwire.Io.VarInt.Bounds.{read_var_int_bounds}
use chwire.Io.Reader.{BufferReader, with_cursor, read_varint}
use chwire.Io.Reader.Stable.{
  extend, extend_outcome, Stable, Stable-return, Stable-bind, read_varint-Stable,
}
use chwire.Native.Block.{skip_field, after_field, block_info_loop, block_info, header}

skip_field-extend :
    (n : ℕ) (r : BufferReader) (more : List ℕ)
    → skip_field n (extend more r) ≡ extend more (skip_field n r)
unfolding skip_field
skip_field-extend n r more = elim (Bool-cases (n == 1)) [
  | inl overflows ↦ rw overflows
  | inr other ↦ elim (Bool-cases (n == 2)) [
    | inl bucket ↦ rw (other, bucket)
    | inr unknown ↦ rw (other, unknown)
  ]
]

skip_field_keeps : (n : ℕ) (r : BufferReader) → (skip_field n r).buffer ≡ r.buffer
unfolding skip_field
skip_field_keeps n r = ground arith

skip_field_forward : (n : ℕ) (r : BufferReader) → r.offset ≤ (skip_field n r).offset
unfolding skip_field
skip_field_forward n r = ground arith

after_field-Stable :
    (again : Exec BufferReader (Unit {0})) (n : ℕ) → Stable again → Stable (after_field again n)
unfolding after_field
after_field-Stable again zero s = Stable-return tt
after_field-Stable again (suc n) s = record {
  keeps = λ r. s.keeps (skip_field (suc n) r) ∙ skip_field_keeps (suc n) r;
  extends = λ r more f.
      ap again (skip_field-extend (suc n) r more) ∙ s.extends (skip_field (suc n) r) more f;
}

block_info_loop-Stable : (fuel : ℕ) → Stable (block_info_loop fuel)
unfolding block_info_loop
block_info_loop-Stable zero = Stable-return tt
block_info_loop-Stable (suc fuel) =
    Stable-bind (after_field (block_info_loop fuel)) read_varint-Stable
      (λ n. after_field-Stable (block_info_loop fuel) n (block_info_loop-Stable fuel))

-- One round of the loop, whose later rounds agree where they start behind this one
same_round :
    (r : BufferReader) (a b : Exec BufferReader (Unit {0}))
    → ((s : BufferReader)
        → s.buffer ≡ r.buffer
        → r.offset < s.offset
        → r.offset < length r.buffer
        → a s ≡ b s)
    → (o : Outcome ℕ ℕ) → read_var_int r.buffer r.offset ≡ o
    → continue (with_cursor r o) (after_field a) ≡ continue (with_cursor r o) (after_field b)
unfolding after_field
same_round r a b h (err e end) m = refl
same_round r a b h (ok zero end) m = refl
same_round r a b h (ok (suc n) end) m =
    let s : BufferReader = record r { offset = end } in
    let b = read_var_int_bounds r.buffer r.offset (suc n) end m in
    h (skip_field (suc n) s) (skip_field_keeps (suc n) s)
      (omega (arith, b.1, skip_field_forward (suc n) s)) (omega (arith, b.1, b.2))

-- The loop over the block information ends before its fuel does: every round reads a byte. So more
-- fuel than there are bytes changes nothing.
pub block_info_loop_rounds :
    (fuel more : ℕ) (r : BufferReader)
    → 1 ≤ fuel
    → length r.buffer < r.offset + fuel
    → fuel ≤ more
    → block_info_loop more r ≡ block_info_loop fuel r
unfolding block_info_loop read_varint
block_info_loop_rounds zero more r p h l = absurd (omega arith)
block_info_loop_rounds (suc fuel) zero r p h l = absurd (omega arith)
block_info_loop_rounds (suc fuel) (suc more) r p h l =
    same_round r (block_info_loop more) (block_info_loop fuel)
      (λ s b f i.
        block_info_loop_rounds fuel more s (omega arith)
          (omega (arith, ap (λ (t : List ℕ). length t) b)) (omega arith))
      (read_var_int r.buffer r.offset) refl

-- With more bytes behind the buffer, the loop has more fuel.
loop_extends :
    (r : BufferReader) (more : List ℕ)
    → Final (block_info_loop (suc (length r.buffer)) r)
    → block_info_loop (suc (length (r.buffer ++ more))) (extend more r)
      ≡ extend_outcome more (block_info_loop (suc (length r.buffer)) r)
loop_extends r more f =
    let e : block_info_loop (suc (length (r.buffer ++ more))) r
        ≡ block_info_loop (suc (length r.buffer)) r =
      block_info_loop_rounds (suc (length r.buffer)) (suc (length (r.buffer ++ more))) r
        (omega arith) (omega arith) (omega (arith, length-append r.buffer more)) in
    (block_info_loop-Stable (suc (length (r.buffer ++ more)))).extends r more (rw e f)
    ∙ ap (extend_outcome more) e

block_info-Stable : (client_version : ℕ) → Stable (block_info client_version)
unfolding block_info
block_info-Stable zero = Stable-return tt
block_info-Stable (suc version) = record {
  keeps = λ r. (block_info_loop-Stable (suc (length r.buffer))).keeps r;
  extends = λ r more f. loop_extends r more f;
}

pub header-Stable : (client_version : ℕ) → Stable (header client_version)
unfolding header
header-Stable client_version = Stable-bind _ (block_info-Stable client_version) (λ t.
    Stable-bind _ read_varint-Stable (λ num_cols.
      Stable-bind _ read_varint-Stable (λ num_rows. Stable-return (num_cols, num_rows))))
