-- ===== src/Io/VarInt/Accepted.antt =====
-- What `readVarInt` makes of any bytes that it accepts.
use chwire.Prelude.{
  ℕ, zero, suc, ◌+◌, ◌*◌, ◌/◌, ◌%◌, ◌^◌, ◌≤◌, ◌<◌, ◌≡◌, refl, ap, ◌∙◌, sym, List, [], ◌∷◌, ◌++◌,
  length, drop, get_elem?, arith, bit_and, bit_or, Option-cases, ◌⊎◌, inl, inr, none, some,
}
use native.Mathlib.Numerals.{add-one}
use chwire.Prelude.Bits.{bit_and_128, bit_and_240}
use chwire.Prelude.Outcome.{ok}
use chwire.Io.VarInt.{read_loop}
use chwire.Io.VarInt.Groups.{
  groups, Ends, drop-get_elem?, regrouped, joined, group_fits, next_bound,
}

-- At an offset there are at most `most` bytes up to `end`; `acc` is `v` less their groups from bit
-- `shift` on.
record Accepts (buffer : List ℕ) (offset most acc shift v end : ℕ) : Type 0 where
  pub first : ℕ
  pub others : List ℕ
  pub rest : List ℕ
  pub place : drop offset buffer ≡ first ∷ others ++ rest
  pub stops : end ≡ offset + suc (length others)
  pub few : suc (length others) ≤ most
  pub last : Ends (first ∷ others)
  pub value : v ≡ acc + groups (first ∷ others) * 2 ^ shift
  pub fits : v < 2 ^ 32

-- A round that leads to a value: at shift 28 the byte has no bit in its upper half, and the loop
-- ends with the byte or goes on behind it.
round_cases :
    (rounds : ℕ) (buffer : List ℕ) (acc shift offset v end byte : ℕ)
    → get_elem? buffer offset ≡ some byte
    → read_loop (suc rounds) buffer acc shift offset ≡ ok v end
    → (shift ≡ 28 → byte / 16 % 16 ≡ 0)
      × (((byte / 128 % 2 ≡ 0)
            × (bit_or acc (bit_and byte 0x7f * 2 ^ (shift % 32) % 2 ^ 32) ≡ v)
            × (offset + 1 ≡ end))
          ⊎ ((byte / 128 % 2 ≡ 1)
              × (read_loop rounds buffer
                    (bit_or acc (bit_and byte 0x7f * 2 ^ (shift % 32) % 2 ^ 32))
                    (shift + 7)
                    (offset + 1)
                  ≡ ok v end)))
unfolding read_loop
round_cases rounds buffer acc shift offset v end byte got e =
    ground (arith, got, bit_and_128 byte, bit_and_240 byte)

-- A byte in front of what is accepted behind it
more-Accepts :
    (k : ℕ) (buffer : List ℕ) (acc shift offset v end byte : ℕ)
    → get_elem? buffer offset ≡ some byte
    → byte / 128 % 2 ≡ 1
    → Accepts buffer (offset + 1) k (acc + byte % 128 * 2 ^ shift) (shift + 7) v end
    → Accepts buffer offset (suc k) acc shift v end
more-Accepts k buffer acc shift offset v end byte got more p = record {
  first = byte;
  others = p.first ∷ p.others;
  rest = p.rest;
  place =
      drop-get_elem? offset buffer byte got
      ∙ ap (λ (t : List ℕ). byte ∷ t)
          (ap (λ (n : ℕ). drop n buffer) (sym (add-one offset)) ∙ p.place);
  stops = omega (arith, p.stops);
  few = omega (arith, p.few);
  last = (more, p.last);
  value = p.value ∙ regrouped acc byte shift (groups (p.first ∷ p.others));
  fits = p.fits;
}

-- The value that a round ends with, or the loop behind it
after_round :
    (k rounds : ℕ) (buffer : List ℕ) (acc shift offset v end byte : ℕ)
    → 7 * k + shift ≡ 28
    → acc < 2 ^ shift
    → get_elem? buffer offset ≡ some byte
    → read_loop (suc rounds) buffer acc shift offset ≡ ok v end
    → Accepts buffer offset 1 acc shift v end
      ⊎ ((1 ≤ k)
          × (byte / 128 % 2 ≡ 1)
          × (read_loop rounds buffer (acc + byte % 128 * 2 ^ shift) (shift + 7) (offset + 1)
              ≡ ok v end))
after_round k rounds buffer acc shift offset v end byte hs ha got e =
    let (top, cases) = round_cases rounds buffer acc shift offset v end byte got e in
    let f = group_fits k acc byte shift hs ha top in
    let j = joined acc byte shift ha (omega arith) (omega (arith, f)) in
    elim cases [
      | inl (last, value, stops) ↦ inl (record {
        first = byte;
        others = [];
        rest = drop (suc offset) buffer;
        place = drop-get_elem? offset buffer byte got;
        stops = omega (arith, stops);
        few = omega arith;
        last = last;
        value = omega (arith, value, j);
        fits = omega (arith, value, j, f);
      })
      | inr (more, again) ↦ inr (earlier k hs top more, more, rw (← j) again)
    ]
  where
    earlier :
        (k : ℕ)
        → 7 * k + shift ≡ 28
        → (shift ≡ 28 → byte / 16 % 16 ≡ 0)
        → byte / 128 % 2 ≡ 1
        → 1 ≤ k
    earlier zero hs top more = absurd (omega (arith, top (omega arith)))
    earlier (suc k) hs top more = omega arith

nothing_there :
    (rounds : ℕ) (buffer : List ℕ) (acc shift offset v end : ℕ)
    → get_elem? buffer offset ≡ none
    → read_loop rounds buffer acc shift offset ≡ ok v end
    → ⊥
unfolding read_loop
nothing_there zero buffer acc shift offset v end gone e = cc
nothing_there (suc rounds) buffer acc shift offset v end gone e = ground (arith, gone)

fewer :
    (j k : ℕ) (buffer : List ℕ) (acc shift offset v end : ℕ)
    → j ≤ k
    → Accepts buffer offset j acc shift v end
    → Accepts buffer offset k acc shift v end
fewer j k buffer acc shift offset v end h p = record {
  first = p.first;
  others = p.others;
  rest = p.rest;
  place = p.place;
  stops = p.stops;
  few = omega (arith, p.few);
  last = p.last;
  value = p.value;
  fits = p.fits;
}

read_loop-Accepts :
    (k rounds : ℕ) (buffer : List ℕ) (acc shift offset v end : ℕ)
    → 7 * k + shift ≡ 28
    → k < rounds
    → acc < 2 ^ shift
    → read_loop rounds buffer acc shift offset ≡ ok v end
    → Accepts buffer offset (suc k) acc shift v end
read_loop-Accepts k zero buffer acc shift offset v end hs hr ha e = absurd (omega arith)
read_loop-Accepts zero (suc rounds) buffer acc shift offset v end hs hr ha e =
    elim (Option-cases (get_elem? buffer offset)) [
      | inl gone ↦ absurd (nothing_there (suc rounds) buffer acc shift offset v end gone e)
      | inr (byte, got) ↦
          elim (after_round zero rounds buffer acc shift offset v end byte hs ha got e) [
            | inl p ↦ p
            | inr (h, more, again) ↦ absurd (omega (arith, h))
          ]
    ]
read_loop-Accepts (suc k) (suc rounds) buffer acc shift offset v end hs hr ha e =
    elim (Option-cases (get_elem? buffer offset)) [
      | inl gone ↦ absurd (nothing_there (suc rounds) buffer acc shift offset v end gone e)
      | inr (byte, got) ↦
          elim (after_round (suc k) rounds buffer acc shift offset v end byte hs ha got e) [
            | inl p ↦ fewer 1 (suc (suc k)) buffer acc shift offset v end (omega arith) p
            | inr (h, more, again) ↦
                more-Accepts (suc k) buffer acc shift offset v end byte got more (
                  read_loop-Accepts k rounds buffer (acc + byte % 128 * 2 ^ shift) (shift + 7)
                    (offset + 1) v end (omega arith) (omega arith) (next_bound acc byte shift ha)
                    again)
          ]
    ]

-- What `readVarInt` has read of a buffer: at the offset, 1 to 5 bytes of which only the last has no
-- continuation bit, and whose groups of seven bits are the value, below 2 ^ 32.
pub record HasRead (buffer : List ℕ) (offset v end : ℕ) : Type 0 where
  pub bytes : List ℕ
  pub rest : List ℕ
  pub place : drop offset buffer ≡ bytes ++ rest
  pub stops : end ≡ offset + length bytes
  pub few : length bytes ≤ 5
  pub last : Ends bytes
  pub value : v ≡ groups bytes
  pub fits : v < 2 ^ 32

-- However many rounds its loop may make, five or more, `readVarInt` returns a value only from 1 to 5
-- bytes at the offset, of which only the last has no continuation bit. The value is the number that
-- their groups of seven bits spell, with no bit lost; it is below 2 ^ 32, and the new offset is right
-- behind the bytes.
pub read_loop-HasRead :
    (rounds : ℕ) (buffer : List ℕ) (offset v end : ℕ)
    → 5 ≤ rounds
    → read_loop rounds buffer 0 0 offset ≡ ok v end
    → HasRead buffer offset v end
read_loop-HasRead rounds buffer offset v end h e =
    let p = read_loop-Accepts 4 rounds buffer 0 0 offset v end refl (omega arith) (omega arith) e in
    record {
      bytes = p.first ∷ p.others;
      rest = p.rest;
      place = p.place;
      stops = p.stops;
      few = p.few;
      last = p.last;
      value = omega (arith, p.value);
      fits = p.fits;
    }
