-- ===== src/Compression/Sound.antt =====
-- What a block is that `decodeBlock` accepts.
use chwire.Prelude.{
  ℕ, ◌+◌, ◌-◌, ◌≤◌, ◌<◌, ◌≡◌, ap, ◌∙◌, List, ◌++◌, length, take, drop, subarray, arith, length-drop,
  drop-length_append, get_elem?-add, get_elem?-append_lt, get_elem?-take_lt, get_elem?,
}
use chwire.Prelude.Result.{Result, good, bad, ◌>>=◌}
use chwire.Compression.{
  Backends, city_hash128_le, decode_block, check_size, decompress_with, read_uint32_le, at_or_zero,
  max_decompressed_block_size,
}
use chwire.Compression.RoundTrip.{equals→eq}

pub record IsAccepted (k : Backends) (block result : List ℕ) : Type 0 where
  pub long_enough : 25 ≤ length block
  pub intact : take 16 block ≡ city_hash128_le k (drop 16 block)
  pub size_agrees : read_uint32_le (subarray block 16 25) 1 + 16 ≡ length block
  pub result_size : length result ≡ read_uint32_le (subarray block 16 25) 5
  pub bounded : length result ≤ max_decompressed_block_size

check_size-good :
    (k : Backends) (size : ℕ) (r : Result (List ℕ)) (result : List ℕ)
    → (r >>= check_size k size) ≡ good result
    → length result ≡ size
unfolding check_size
check_size-good k size (good bytes) result e = ground arith
check_size-good k size (bad x) result e = cc

-- Whatever the bytes: a block is only decoded if its checksum and its size are right, and the
-- result has the size that the header announces, at most 1 GiB.
pub decode_block-IsAccepted :
    (k : Backends) (block result : List ℕ)
    → decode_block k block ≡ good result
    → IsAccepted k block result
unfolding decode_block
decode_block-IsAccepted k block result e =
    let d : length (drop 25 block) ≡ length block - 25 = length-drop 25 block in
    let size : ℕ = read_uint32_le (subarray block 16 25) 5 in
    let r : Result (List ℕ) =
      decompress_with k (at_or_zero (subarray block 16 25) 0) (drop 25 block) size in
    record {
      long_enough = ground arith;
      intact = ground (arith, equals→eq (take 16 block) (city_hash128_le k (drop 16 block)));
      size_agrees = ground (arith, d);
      result_size = ground (arith, check_size-good k size r result);
      bounded = ground (arith, check_size-good k size r result);
    }

element_of_part :
    (front part back : List ℕ) (o i : ℕ)
    → o ≡ length front + i
    → i < length part
    → get_elem? (front ++ (part ++ back)) o ≡ get_elem? part i
element_of_part front part back o i e h =
    get_elem?-add (front ++ (part ++ back)) (length front) i o e
    ∙ ap (λ (t : List ℕ). get_elem? t i) (drop-length_append front (part ++ back))
    ∙ get_elem?-append_lt part back i h

-- A word inside a part of a buffer is the word of the part.
pub read_uint32_le-part :
    (front part back : List ℕ) (o i : ℕ)
    → o ≡ length front + i
    → i + 3 < length part
    → read_uint32_le (front ++ (part ++ back)) o ≡ read_uint32_le part i
unfolding read_uint32_le
read_uint32_le-part front part back o i e h = ground (
  arith,
  element_of_part front part back o i,
  element_of_part front part back (o + 1) (i + 1),
  element_of_part front part back (o + 2) (i + 2),
  element_of_part front part back (o + 3) (i + 3),
)

-- The compressed size lies 17 bytes into a block, in the header behind the checksum.
pub size_in_block :
    (block : List ℕ)
    → 25 ≤ length block
    → read_uint32_le block 17 ≡ read_uint32_le (subarray block 16 25) 1
unfolding read_uint32_le
size_in_block block h = ground (
  arith,
  get_elem?-add block 16 1 17,
  get_elem?-take_lt 9 (drop 16 block) 1,
  get_elem?-add block 16 2 18,
  get_elem?-take_lt 9 (drop 16 block) 2,
  get_elem?-add block 16 3 19,
  get_elem?-take_lt 9 (drop 16 block) 3,
  get_elem?-add block 16 4 20,
  get_elem?-take_lt 9 (drop 16 block) 4,
)
