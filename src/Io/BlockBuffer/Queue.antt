-- ===== src/Io/BlockBuffer/Queue.antt =====
-- A BlockBuffer is a queue of bytes: its view. Appending adds to the end, both ways of consuming
-- take from the front, wherever the bytes lie and whether or not the buffer is replaced.
use chwire.Prelude.{
  ℕ, zero, suc, ◌+◌, ◌-◌, ◌*◌, ◌≤◌, ◌<◌, ◌≡◌, refl, ap, ◌∙◌, sym, max, ltb, leb, if◌then◌else◌,
  List, [], ◌∷◌, ◌++◌, true, length, replicate, drop, blit, subarray, arith, length-blit,
  length-replicate, subarray-blit_end, subarray-blit_front, length-subarray, drop-subarray,
  append-nil, Bool-cases, inl, inr, lt→ltb, le→ltb_false,
}
use chwire.Prelude.Result.{range_error}
use chwire.Prelude.Outcome.{ok, err}
use chwire.Io.BlockBuffer.{
  BlockBuffer, new, available, view, grow_loop, ensure_capacity, append, compact, consume,
  start_next_block,
}

pub record IsValid (b : BlockBuffer) : Type 0 where
  pub order : b.read_offset ≤ b.write_offset
  pub fits : b.write_offset ≤ length b.buffer

-- `b'` is a valid buffer that holds `bytes`.
pub record Holds (bytes : List ℕ) (b : BlockBuffer) : Type 0 where
  pub valid : IsValid b
  pub held : view b ≡ bytes

pub new-Holds : (n : ℕ) → Holds [] (new n)
unfolding new view
new-Holds n = record { valid = record { order = omega arith; fits = omega arith }; held = refl }

pub available-length : (b : BlockBuffer) → IsValid b → available b ≡ length (view b)
unfolding available view
available-length b v = omega (arith, length-subarray b.buffer b.read_offset b.write_offset v.fits)

grow_loop_reaches : (capacity minimum : ℕ) → minimum ≤ grow_loop 2 capacity minimum
unfolding grow_loop
grow_loop_reaches capacity minimum = ground arith

-- The loop that doubles the capacity ends after one round at most.
pub grow_loop_rounds :
    (fuel capacity minimum : ℕ)
    → 2 ≤ fuel
    → grow_loop fuel capacity minimum ≡ grow_loop 2 capacity minimum
unfolding grow_loop
grow_loop_rounds zero capacity minimum h = absurd (omega arith)
grow_loop_rounds (suc zero) capacity minimum h = absurd (omega arith)
grow_loop_rounds (suc (suc zero)) capacity minimum h = refl
grow_loop_rounds (suc (suc (suc fuel))) capacity minimum h = ground arith

module _ (b : BlockBuffer) (v : IsValid b) where
  moved_Holds :
      (size : ℕ)
      → available b ≤ size
      → Holds (view b) (record b {
        buffer = blit (replicate size 0) 0 (view b);
        write_offset = available b;
        read_offset = 0;
      })
  unfolding available view
  moved_Holds size h = record {
    valid = record {
      order = omega arith;
      fits = omega (
        arith,
        length-blit (replicate size 0) 0 (subarray b.buffer b.read_offset b.write_offset),
        length-replicate {A = ℕ} size 0,
      );
    };
    held =
        subarray-blit_front (replicate size 0) (subarray b.buffer b.read_offset b.write_offset) _
          (omega (arith, length-subarray b.buffer b.read_offset b.write_offset v.fits))
          (omega (arith, length-replicate {A = ℕ} size 0));
  }

  ensured_Holds : (extra : ℕ) → Holds (view b) (ensure_capacity (b.write_offset + extra) b)
  unfolding ensure_capacity
  ensured_Holds extra = elim (Bool-cases (leb (b.write_offset + extra) (length b.buffer))) [
    | inl fits ↦ rw fits (record { valid = v; held = refl })
    | inr grow ↦ rw grow (
        unfold available view in
        moved_Holds (grow_loop 2 (length b.buffer) (b.write_offset + extra))
          (omega (arith, grow_loop_reaches (length b.buffer) (b.write_offset + extra))))
  ]

  ensured_room :
      (extra : ℕ)
      → (ensure_capacity (b.write_offset + extra) b).write_offset + extra
        ≤ length (ensure_capacity (b.write_offset + extra) b).buffer
  unfolding ensure_capacity
  ensured_room extra = ground (
    arith,
    grow_loop_reaches (length b.buffer) (b.write_offset + extra),
    length-blit (replicate (grow_loop 2 (length b.buffer) (b.write_offset + extra)) 0) 0
        (subarray b.buffer b.read_offset b.write_offset),
    length-replicate {A = ℕ} (grow_loop 2 (length b.buffer) (b.write_offset + extra)) 0,
  )

  -- On a valid buffer, appending a chunk adds it behind the unread bytes.
  pub append-Holds : (chunk : List ℕ) → Holds (view b ++ chunk) (append chunk b)
  unfolding append
  append-Holds [] = record { valid = v; held = sym (append-nil (view b)) }
  append-Holds (x ∷ chunk) =
      let n : ℕ = length (x ∷ chunk) in
      let b' : BlockBuffer = ensure_capacity (b.write_offset + n) b in
      let h : Holds (view b) b' = ensured_Holds n in
      record {
        valid = record {
          order = omega (arith, h.valid.order);
          fits = omega (arith, ensured_room n, length-blit b'.buffer b'.write_offset (x ∷ chunk));
        };
        held =
            unfold view in
            subarray-blit_end b'.buffer b'.read_offset b'.write_offset (x ∷ chunk) _ h.valid.order
              refl (ensured_room n)
            ∙ ap (λ (t : List ℕ). t ++ x ∷ chunk) h.held;
      }

module _ (b : BlockBuffer) (v : IsValid b) where
  compact-Holds : Holds (view b) (compact b)
  unfolding compact view
  compact-Holds = elim (Bool-cases (ltb (length b.buffer) (b.read_offset * 2))) [
    | inr keep ↦ rw keep (record { valid = v; held = refl })
    | inl half ↦ elim (Bool-cases (ltb 0 (b.write_offset - b.read_offset))) [
      | inl some_left ↦
          rw (half, some_left)
            (record {
              valid = record {
                order = omega arith;
                fits = omega (
                  arith,
                  length-blit b.buffer 0 (subarray b.buffer b.read_offset b.write_offset),
                  v.fits,
                );
              };
              held =
                  subarray-blit_front b.buffer (subarray b.buffer b.read_offset b.write_offset) _
                    (omega (arith, length-subarray b.buffer b.read_offset b.write_offset v.fits))
                    (omega (arith, v.fits));
            })
      | inr none_left ↦
          let z : b.write_offset - b.read_offset ≡ 0 = ground (arith, none_left) in
          rw (half, none_left)
            (record {
              valid = record { order = omega arith; fits = omega (arith, v.fits) };
              held = rw z;
            })
    ]
  ]

module _ (b : BlockBuffer) (v : IsValid b) where
  -- On a valid buffer, `consume` takes the first bytes, where there are so many, and keeps the
  -- rest.
  pub consume-Holds :
      (n : ℕ)
      → n ≤ length (view b)
      → (b' : BlockBuffer) × (consume n b ≡ ok tt b') × Holds (drop n (view b)) b'
  unfolding consume
  consume-Holds n h =
      let rest : BlockBuffer = record b { read_offset = b.read_offset + n } in
      let l : n ≤ b.write_offset - b.read_offset =
        unfold available in omega (arith, available-length b v) in
      let w : IsValid rest = record { order = omega (arith, v.order); fits = v.fits } in
      let e : drop n (view b) ≡ view rest =
        unfold view in drop-subarray n b.buffer b.read_offset b.write_offset in
      (
        compact rest,
        unfold available in rw (le→ltb_false (b.write_offset - b.read_offset) n l),
        rw e (compact-Holds rest w),
      )

  -- On a valid buffer, `startNextBlock` takes the first bytes, where there are so many, and keeps
  -- the rest, in a buffer of its own.
  pub start_next_block-Holds :
      (n : ℕ)
      → n ≤ length (view b)
      → (b' : BlockBuffer) × (start_next_block n b ≡ ok tt b') × Holds (drop n (view b)) b'
  unfolding start_next_block
  start_next_block-Holds n h =
      let l : n ≤ b.write_offset - b.read_offset =
        unfold available in omega (arith, available-length b v) in
      let start : ℕ = b.read_offset + n in
      let size : ℕ = max b.initial_size (b.write_offset - start) in
      let rest : List ℕ = subarray b.buffer start b.write_offset in
      let n_rest : b.write_offset - start ≡ length rest =
        omega (arith, length-subarray b.buffer start b.write_offset v.fits) in
      let e : drop n (view b) ≡ rest =
        unfold view in drop-subarray n b.buffer b.read_offset b.write_offset in
      (
        record b {
          buffer =
              if ltb 0 (b.write_offset - start)
              then blit (replicate size 0) 0 rest
              else replicate size 0;
          read_offset = 0;
          write_offset = b.write_offset - start;
        },
        unfold available in rw (le→ltb_false (b.write_offset - b.read_offset) n l),
        elim (Bool-cases (ltb 0 (b.write_offset - start))) [
          | inl left ↦ rw left (record {
            valid = record {
              order = omega arith;
              fits =
                  omega
                    (arith, length-blit (replicate size 0) 0 rest, length-replicate {A = ℕ} size 0);
            };
            held =
                unfold view in
                subarray-blit_front (replicate size 0) rest _ n_rest
                  (omega (arith, length-replicate {A = ℕ} size 0))
                ∙ sym e;
          })
          | inr none_left ↦
              let z : b.write_offset - start ≡ 0 = ground (arith, none_left) in
              rw none_left (record {
                valid = record {
                  order = omega arith;
                  fits = omega (arith, length-replicate {A = ℕ} size 0);
                };
                held = unfold view in rw (e, z);
              })
        ],
      )

  -- On a valid buffer, `consume` and `startNextBlock` throw, and change nothing, where more is
  -- asked for than there is.
  pub consume_too_many :
      (n : ℕ)
      → length (view b) < n
      → (consume n b ≡ err range_error b) × (start_next_block n b ≡ err range_error b)
  unfolding consume start_next_block
  consume_too_many n h =
      let l : ltb (available b) n ≡ true = lt→ltb _ _ (omega (arith, available-length b v)) in
      (rw l, rw l)
