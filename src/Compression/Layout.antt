-- ===== src/Compression/Layout.antt =====
-- The bytes of an encoded block.
use chwire.Prelude.{
  ℕ, ◌+◌, ◌-◌, ◌≤◌, ◌≡◌, refl, ap, sym, ◌∙◌, List, [], ◌∷◌, ◌++◌, length, take, set, replicate,
  blit, subarray, arith, length-append, length-replicate, blit_over, blit_front, blit-nil, take_all,
  append-nil, append_assoc, length-blit, take-blit, length-subarray, replicate-add,
}
use chwire.Io.Words.{le_bytes, length-le_bytes}
use chwire.Compression.{
  Backends, Method, code, concat, concat_loop, total_length, city_hash128_le, wrap_block,
  header_size, write_uint32_le,
}
use chwire.Compression.Words.{write_uint32_le-blit, le_bytes_four}

abbrev pub flatten : List (List ℕ) → List ℕ
flatten [] = []
flatten (arr ∷ arrays) = arr ++ flatten arrays

total_length-flatten : (arrays : List (List ℕ)) → total_length arrays ≡ length (flatten arrays)
unfolding total_length
total_length-flatten [] = refl
total_length-flatten (arr ∷ arrays) =
    omega (arith, total_length-flatten arrays, length-append arr (flatten arrays))

concat_loop-take :
    (arrays : List (List ℕ)) (result : List ℕ) (o n : ℕ)
    → n ≡ o + length (flatten arrays)
    → n ≤ length result
    → take n (concat_loop arrays result o) ≡ take o result ++ flatten arrays
unfolding concat_loop
concat_loop-take [] result o n e h =
    let e' : n ≡ o = omega arith in rw e' (sym (append-nil (take o result)))
concat_loop-take (arr ∷ arrays) result o n e h =
    let l : length (arr ++ flatten arrays) ≡ length arr + length (flatten arrays) =
      length-append arr (flatten arrays) in
    concat_loop-take arrays (blit result o arr) (o + length arr) n (omega (arith, l))
      (omega (arith, length-blit result o arr))
    ∙ ap (λ (t : List ℕ). t ++ flatten arrays)
        (take-blit result o arr (o + length arr) refl (omega (arith, l)))
    ∙ append_assoc (take o result) arr (flatten arrays)

length-concat_loop :
    (arrays : List (List ℕ)) (result : List ℕ) (o : ℕ)
    → length (concat_loop arrays result o) ≡ length result
unfolding concat_loop
length-concat_loop [] result o = refl
length-concat_loop (arr ∷ arrays) result o =
    length-concat_loop arrays (blit result o arr) (o + length arr) ∙ length-blit result o arr

-- `concat` is concatenation, on all three of its paths.
pub concat-flatten : (arrays : List (List ℕ)) → concat arrays ≡ flatten arrays
unfolding concat
concat-flatten [] = refl
concat-flatten (arr ∷ []) = sym (append-nil arr)
concat-flatten (a ∷ b ∷ arrays) =
    let all : List (List ℕ) = a ∷ b ∷ arrays in
    let n : ℕ = total_length all in
    sym (
      take_all n (concat_loop all (replicate n 0) 0)
        (omega (arith, length-concat_loop all (replicate n 0) 0, length-replicate {A = ℕ} n 0)))
    ∙ concat_loop-take all (replicate n 0) 0 n (omega (arith, total_length-flatten all))
        (omega (arith, length-replicate {A = ℕ} n 0))

-- The header and the payload behind 16 bytes for the checksum.
filled :
    (m a b total : ℕ) (c : List ℕ)
    → total ≡ 25 + length c
    → blit (write_uint32_le (write_uint32_le (set (replicate total 0) 16 m) a 17) b 21) 25 c
      ≡ replicate 16 0 ++ (m ∷ (le_bytes 4 a ++ (le_bytes 4 b ++ c)))
unfolding blit
filled m a b total c e = rw (
  write_uint32_le-blit,
  write_uint32_le-blit,
  replicate-add {A = ℕ} 25 (length c) total 0 e,
  le_bytes_four a,
  le_bytes_four b,
  blit-nil {A = ℕ} (replicate (length c) 0) 0,
  blit_over {A = ℕ} (replicate (length c) 0) c (length-replicate (length c) 0),
)

module _ (k : Backends) (hash_size : (bytes : List ℕ) → length (k.cityhash bytes) ≡ 16) where
  pub length-city_hash128_le : (bytes : List ℕ) → length (city_hash128_le k bytes) ≡ 16
  unfolding city_hash128_le
  length-city_hash128_le bytes =
      let h : List ℕ = k.cityhash bytes in
      rw (concat-flatten (subarray h 8 16 ∷ subarray h 0 8 ∷ []), append-nil)
        (omega (
          arith,
          length-append (subarray h 8 16) (subarray h 0 8),
          hash_size bytes,
          length-subarray h 8 16,
          length-subarray h 0 8,
        ))

  -- What the checksum covers: the method, the two sizes, the payload.
  abbrev pub body : Method → ℕ → List ℕ → List ℕ
  body mode raw_size compressed =
      code mode
      ∷ (le_bytes 4 (header_size + length compressed) ++ (le_bytes 4 raw_size ++ compressed))

  pub length-body :
      (mode : Method) (raw_size : ℕ) (compressed : List ℕ)
      → length (body mode raw_size compressed) ≡ 9 + length compressed
  length-body mode raw_size compressed =
      let a : List ℕ = le_bytes 4 (header_size + length compressed) in
      let b : List ℕ = le_bytes 4 raw_size in
      omega (
        arith,
        length-append a (b ++ compressed),
        length-append b compressed,
        length-le_bytes 4 (header_size + length compressed),
        length-le_bytes 4 raw_size,
      )

  -- An encoded block is the checksum of the body, and the body.
  pub wrap_block-body :
      (mode : Method) (raw compressed : List ℕ)
      → wrap_block k mode raw compressed
        ≡ city_hash128_le k (body mode (length raw) compressed) ++ body mode (length raw) compressed
  unfolding wrap_block
  wrap_block-body mode raw compressed =
      let n : ℕ = length compressed in
      let b : List ℕ = body mode (length raw) compressed in
      let h : List ℕ = city_hash128_le k b in
      let cut : 25 + n - 16 ≡ 9 + n = omega arith in
      let cut0 : 25 + n - 0 ≡ 25 + n = omega arith in
      let size : length b ≡ 9 + n = length-body mode (length raw) compressed in
      rw
        (
          filled (code mode) (9 + n) (length raw) (25 + n) compressed refl,
          cut,
          take_all (9 + n) b (omega (arith, size)),
          blit_front (replicate 16 0) b h (sym (length-city_hash128_le b)),
          cut0,
        )
        (take_all (25 + n) (h ++ b)
          (omega (arith, size, length-append h b, length-city_hash128_le b)))
