-- ===== src/Compression/Sequence.antt =====
-- `decodeBlocks` on blocks that lie behind one another.
use chwire.Prelude.{
  ℕ, zero, suc, ◌+◌, ◌-◌, ◌≤◌, ◌≡◌, refl, ap, sym, ◌∙◌, List, [], ◌∷◌, ◌++◌, length, take, drop,
  subarray, arith, length-append, append_assoc, append-nil, drop-length_append, take-length_append,
  All, le→leb, le→ltb_false, lt→leb_false,
}
use chwire.Prelude.Result.{good}
use chwire.Compression.{Backends, decode_block, read_uint32_le, blocks_loop, decode_blocks}
use chwire.Compression.Layout.{flatten, concat-flatten}
use chwire.Compression.Sound.{decode_block-IsAccepted, read_uint32_le-part, size_in_block}

-- An encoded block with what it decodes to.
abbrev pub Decodes : Backends → List ℕ × List ℕ → Type 0
Decodes k (block, raw) = decode_block k block ≡ good raw

abbrev pub blocks_of : List (List ℕ × List ℕ) → List (List ℕ)
blocks_of [] = []
blocks_of ((block, raw) ∷ pairs) = block ∷ blocks_of pairs

abbrev pub raws_of : List (List ℕ × List ℕ) → List (List ℕ)
raws_of [] = []
raws_of ((block, raw) ∷ pairs) = raw ∷ raws_of pairs

flatten-append : (xs ys : List (List ℕ)) → flatten (xs ++ ys) ≡ flatten xs ++ flatten ys
flatten-append [] ys = refl
flatten-append (x ∷ xs) ys =
    ap (λ (t : List ℕ). x ++ t) (flatten-append xs ys)
    ∙ sym (append_assoc x (flatten xs) (flatten ys))

module _ (k : Backends) where
  -- One round on a block that decodes.
  loop_step :
      (fuel : ℕ) (front block raw back : List ℕ) (done : List (List ℕ)) (offset : ℕ)
      → offset ≡ length front
      → decode_block k block ≡ good raw
      → blocks_loop k (suc fuel) (front ++ (block ++ back)) offset done
        ≡ blocks_loop k fuel (front ++ (block ++ back)) (offset + length block) (done ++ raw ∷ [])
  unfolding blocks_loop
  loop_step fuel front block raw back done offset eo e =
      let input : List ℕ = front ++ (block ++ back) in
      let a = decode_block-IsAccepted k block raw e in
      let total : length input ≡ length front + (length block + length back) =
        omega (arith, length-append front (block ++ back), length-append block back) in
      let size : 16 + read_uint32_le input (offset + 16 + 1) ≡ length block = omega (
        arith,
        a.size_agrees,
        size_in_block block a.long_enough,
        read_uint32_le-part front block back (offset + 16 + 1) 17 (omega arith)
            (omega (arith, a.long_enough)),
      ) in
      let cut : subarray input offset (offset + length block) ≡ block =
        let d : offset + length block - offset ≡ length block = omega arith in
        ap (λ (t : ℕ). take t (drop offset input)) d
        ∙ ap (λ (t : ℕ). take (length block) (drop t input)) eo
        ∙ ap (take (length block)) (drop-length_append front (block ++ back))
        ∙ take-length_append block back in
      rw (
        size,
        cut,
        e,
        le→leb (offset + 16 + 9) (length input) (omega (arith, total, a.long_enough)),
        le→ltb_false (length input) (offset + length block) (omega (arith, total)),
      )

  loop_end :
      (fuel : ℕ) (front : List ℕ) (done : List (List ℕ))
      → blocks_loop k fuel front (length front) done ≡ good (done, length front)
  unfolding blocks_loop
  loop_end zero front done = refl
  loop_end (suc fuel) front done =
      rw (lt→leb_false (length front + 16 + 9) (length front) (omega arith))

  loop-blocks :
      (pairs : List (List ℕ × List ℕ)) (fuel : ℕ) (front : List ℕ) (done : List (List ℕ))
      (offset : ℕ)
      → All (Decodes k) pairs
      → offset ≡ length front
      → length (flatten (blocks_of pairs)) ≤ fuel
      → blocks_loop k fuel (front ++ flatten (blocks_of pairs)) offset done
        ≡ good (done ++ raws_of pairs, length (front ++ flatten (blocks_of pairs)))
  loop-blocks [] fuel front done offset h eo hf =
      rw (append-nil front, append-nil done, eo) (loop_end fuel front done)
  loop-blocks ((block, raw) ∷ pairs) zero front done offset (e, h) eo hf = absurd (
      omega (
        arith,
        length-append block (flatten (blocks_of pairs)),
        (decode_block-IsAccepted k block raw e).long_enough,
      ))
  loop-blocks ((block, raw) ∷ pairs) (suc fuel) front done offset (e, h) eo hf =
      let rest : List ℕ = flatten (blocks_of pairs) in
      let a = decode_block-IsAccepted k block raw e in
      let l : length (block ++ rest) ≡ length block + length rest = length-append block rest in
      loop_step fuel front block raw rest done offset eo e
      ∙ ap (λ (t : List ℕ). blocks_loop k fuel t (offset + length block) (done ++ raw ∷ []))
          (sym (append_assoc front block rest))
      ∙ loop-blocks pairs fuel (front ++ block) (done ++ raw ∷ []) (offset + length block) h
          (omega (arith, length-append front block)) (omega (arith, l, a.long_enough))
      ∙ rw (append_assoc done (raw ∷ []) (raws_of pairs), append_assoc front block rest)

  -- A sequence of blocks that each decode is decoded to the concatenation of their contents.
  pub decode_blocks-flatten :
      (pairs : List (List ℕ × List ℕ))
      → All (Decodes k) pairs
      → decode_blocks k (flatten (blocks_of pairs)) ≡ good (flatten (raws_of pairs))
  unfolding decode_blocks
  decode_blocks-flatten pairs h =
      rw
        (
          loop-blocks pairs (length (flatten (blocks_of pairs))) [] [] 0 h refl (omega arith),
          concat-flatten (raws_of pairs),
        )
        (ground arith)
