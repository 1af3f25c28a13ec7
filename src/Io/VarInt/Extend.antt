-- ===== src/Io/VarInt/Extend.antt =====
-- A varint that is read before the bytes run out is read also where more bytes follow.
use chwire.Prelude.{
  ℕ, zero, suc, ◌+◌, ◌≡◌, refl, List, ◌++◌, get_elem?, get_elem?-append, Bool-cases, Option-cases,
  inl, inr, some, bit_and, leb, ◌==◌, not, ◌&&◌,
}
use chwire.Prelude.Outcome.{Final}
use chwire.Io.VarInt.{read_loop, read_var_int, read_loop64, read_var_int64}

read_loop-append :
    (rounds : ℕ) (buffer more : List ℕ) (result shift offset : ℕ)
    → Final (read_loop rounds buffer result shift offset)
    → read_loop rounds (buffer ++ more) result shift offset
      ≡ read_loop rounds buffer result shift offset
unfolding read_loop
read_loop-append zero buffer more result shift offset h = refl
read_loop-append (suc rounds) buffer more result shift offset h =
    elim (Option-cases (get_elem? buffer offset)) [
      | inl none_left ↦ absurd ((rw (Final, read_loop, none_left) at h) refl)
      | inr (byte, here) ↦
          let there : get_elem? (buffer ++ more) offset ≡ some byte =
            get_elem?-append buffer more offset here in
          elim (Bool-cases (shift == 28 && not (bit_and byte 0xf0 == 0))) [
            | inl large ↦ rw (read_loop, here, there, large)
            | inr fits ↦ elim (Bool-cases (bit_and byte 0x80 == 0)) [
              | inl last ↦ rw (read_loop, here, there, fits, last)
              | inr goes_on ↦
                  rw (read_loop, here, there, fits, goes_on)
                    (read_loop-append rounds buffer more _ (shift + 7) (offset + 1)
                      (rw (Final, read_loop, here, fits, goes_on) at h))
            ]
          ]
    ]

read_loop64-append :
    (rounds : ℕ) (buffer more : List ℕ) (result shift offset : ℕ)
    → Final (read_loop64 rounds buffer result shift offset)
    → read_loop64 rounds (buffer ++ more) result shift offset
      ≡ read_loop64 rounds buffer result shift offset
unfolding read_loop64
read_loop64-append zero buffer more result shift offset h = refl
read_loop64-append (suc rounds) buffer more result shift offset h =
    elim (Option-cases (get_elem? buffer offset)) [
      | inl none_left ↦ absurd ((rw (Final, read_loop64, none_left) at h) refl)
      | inr (byte, here) ↦
          let there : get_elem? (buffer ++ more) offset ≡ some byte =
            get_elem?-append buffer more offset here in
          elim (Bool-cases (bit_and byte 0x80 == 0)) [
            | inl last ↦ rw (read_loop64, here, there, last)
            | inr goes_on ↦ elim (Bool-cases (leb 70 (shift + 7))) [
              | inl large ↦ rw (read_loop64, here, there, goes_on, large)
              | inr fits ↦
                  rw (read_loop64, here, there, goes_on, fits)
                    (read_loop64-append rounds buffer more _ (shift + 7) (offset + 1)
                      (rw (Final, read_loop64, here, goes_on, fits) at h))
            ]
          ]
    ]

pub read_var_int-append :
    (buffer more : List ℕ) (offset : ℕ)
    → Final (read_var_int buffer offset)
    → read_var_int (buffer ++ more) offset ≡ read_var_int buffer offset
unfolding read_var_int
read_var_int-append buffer more offset h = read_loop-append 5 buffer more 0 0 offset h

pub read_var_int64-append :
    (buffer more : List ℕ) (offset : ℕ)
    → Final (read_var_int64 buffer offset)
    → read_var_int64 (buffer ++ more) offset ≡ read_var_int64 buffer offset
unfolding read_var_int64
read_var_int64-append buffer more offset h = read_loop64-append 10 buffer more 0 0 offset h
