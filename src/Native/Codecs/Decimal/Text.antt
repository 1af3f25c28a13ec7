-- ===== src/Native/Codecs/Decimal/Text.antt =====
-- native/codecs/scalar.ts: the text that formatScaledBigInt writes, as toValidDecimal and
-- parseDecimalToScaledBigInt read it.
use chwire.Prelude.{
  ℕ, zero, suc, ◌-◌, ◌≤◌, ◌≡◌, refl, ap, ◌∙◌, sym, ltb, ◌==◌, List, [], ◌∷◌, ◌++◌, length, take,
  drop, replicate, true, false, arith, append-nil, length-append, length-take, length-drop,
  length-replicate, take-append-drop, le→ltb_false,
}
use chwire.Prelude.Int.{ℤ, pos, negsuc}
use chwire.Prelude.Decimal.{
  to_digits, value_behind, is_digit, AreDigits, value_behind-to_digits, to_digits-AreDigits,
  length-to_digits, value_behind-zeros,
}
use chwire.Prelude.Result.{good}
use chwire.Native.Codecs.Decimal.{
  before_dot, behind_dot, fit_scale, parse_unsigned, parse_decimal, pad_front, with_point,
  format_unsigned, format_scaled, skip_digits, is_empty, is_fraction, is_behind_digits, is_unsigned,
  is_decimal,
}

-- The fraction, behind a point where it is not empty
abbrev point : List ℕ → List ℕ
point [] = []
point (c ∷ frac) = b'.' ∷ c ∷ frac

-- A text of digits that spell `n`, with `scale` digits behind the point
record Spells (n scale : ℕ) (str : List ℕ) : Type 0 where
  pub first : ℕ
  pub whole : List ℕ
  pub frac : List ℕ
  pub whole_digits : AreDigits (first ∷ whole)
  pub frac_digits : AreDigits frac
  pub count : length frac ≡ scale
  pub value : value_behind 0 ((first ∷ whole) ++ frac) ≡ n
  pub same : str ≡ (first ∷ whole) ++ point frac

AreDigits-take : (n : ℕ) (ds : List ℕ) → AreDigits ds → AreDigits (take n ds)
AreDigits-take zero ds h = tt
AreDigits-take (suc n) [] h = tt
AreDigits-take (suc n) (x ∷ ds) (p, h) = (p, AreDigits-take n ds h)

AreDigits-drop : (n : ℕ) (ds : List ℕ) → AreDigits ds → AreDigits (drop n ds)
AreDigits-drop zero ds h = h
AreDigits-drop (suc n) [] h = tt
AreDigits-drop (suc n) (x ∷ ds) (p, h) = AreDigits-drop n ds h

zeros-AreDigits : (k : ℕ) (text : List ℕ) → AreDigits text → AreDigits (replicate k b'0' ++ text)
zeros-AreDigits zero text h = h
zeros-AreDigits (suc k) text h = ((omega arith, omega arith), zeros-AreDigits k text h)

-- Digits that are split in front of the last `suc scale` ones
Spells-with_point :
    (n scale : ℕ) (ds : List ℕ)
    → AreDigits ds
    → suc (suc scale) ≤ length ds
    → value_behind 0 ds ≡ n
    → Spells n (suc scale) (with_point (suc scale) ds)
unfolding with_point
Spells-with_point n scale ds digits long value =
    split (take m ds) (drop m ds) (AreDigits-take m ds digits) (AreDigits-drop m ds digits)
      (omega (arith, length-take m ds, long)) (omega (arith, length-drop m ds, long))
      (ap (value_behind 0) (take-append-drop m ds) ∙ value)
  where
    m : ℕ
    m = length ds - suc scale

    split :
        (whole frac : List ℕ)
        → AreDigits whole
        → AreDigits frac
        → 1 ≤ length whole
        → length frac ≡ suc scale
        → value_behind 0 (whole ++ frac) ≡ n
        → Spells n (suc scale) (whole ++ b'.' ∷ frac)
    split [] frac w f l c v = absurd (omega (arith, l))
    split (x ∷ whole) [] w f l c v = absurd (omega (arith, c))
    split (x ∷ whole) (y ∷ frac) w f l c v = record {
      first = x;
      whole = whole;
      frac = y ∷ frac;
      whole_digits = w;
      frac_digits = f;
      count = c;
      value = v;
      same = refl;
    }

format_unsigned-Spells : (n scale : ℕ) → Spells n scale (format_unsigned n scale)
unfolding format_unsigned pad_front
format_unsigned-Spells n zero =
    digits (to_digits n) (to_digits-AreDigits n) (length-to_digits n) (value_behind-to_digits n)
  where
    digits : (ds : List ℕ) → AreDigits ds → 1 ≤ length ds → value_behind 0 ds ≡ n → Spells n zero ds
    digits [] h l v = absurd (omega (arith, l))
    digits (x ∷ ds) h l v = record {
      first = x;
      whole = ds;
      frac = [];
      whole_digits = h;
      frac_digits = tt;
      count = refl;
      value = ap (value_behind 0) (append-nil (x ∷ ds)) ∙ v;
      same = sym (append-nil (x ∷ ds));
    }
format_unsigned-Spells n (suc scale) =
    let zeros = suc (suc scale) - length (to_digits n) in
    Spells-with_point n scale (replicate zeros b'0' ++ to_digits n)
      (zeros-AreDigits zeros (to_digits n) (to_digits-AreDigits n))
      (omega (
        arith,
        length-append (replicate zeros b'0') (to_digits n),
        length-replicate {A = ℕ} zeros b'0',
      ))
      (value_behind-zeros zeros (to_digits n) ∙ value_behind-to_digits n)

before_dot-digits :
    (whole frac : List ℕ) → AreDigits whole → before_dot (whole ++ point frac) ≡ whole
unfolding before_dot
before_dot-digits [] [] h = refl
before_dot-digits [] (c ∷ frac) h = refl
before_dot-digits (x ∷ whole) frac ((low, high), h) = ground (arith, before_dot-digits whole frac h)

behind_dot-digits :
    (whole frac : List ℕ) → AreDigits whole → behind_dot (whole ++ point frac) ≡ frac
unfolding behind_dot
behind_dot-digits [] [] h = refl
behind_dot-digits [] (c ∷ frac) h = refl
behind_dot-digits (x ∷ whole) frac ((low, high), h) = ground (arith, behind_dot-digits whole frac h)

fit_scale-exact : (frac : List ℕ) → fit_scale (length frac) frac ≡ good frac
unfolding fit_scale
fit_scale-exact frac =
    let none_left : length frac - length frac ≡ 0 = omega arith in
    let fits : ltb (length frac) (length frac) ≡ false = le→ltb_false _ _ (omega arith) in
    rw (fits, none_left) (ap good (append-nil frac))

parse_unsigned-Spells :
    (n scale : ℕ) (str : List ℕ) → Spells n scale str → parse_unsigned scale str ≡ good (pos n)
unfolding parse_unsigned
parse_unsigned-Spells n scale str p =
    rw
      (
        p.same,
        behind_dot-digits (p.first ∷ p.whole) p.frac p.whole_digits,
        before_dot-digits (p.first ∷ p.whole) p.frac p.whole_digits,
        ← p.count,
        fit_scale-exact p.frac,
      )
      (ap (λ k. good (pos k)) p.value)

-- Text that starts with a digit has no sign.
no_sign :
    (c : ℕ) (whole rest : List ℕ) (scale : ℕ)
    → AreDigits (c ∷ whole)
    → parse_decimal (c ∷ rest) scale ≡ parse_unsigned scale (c ∷ rest)
unfolding parse_decimal parse_unsigned
no_sign c whole rest scale ((low, high), h) =
    let other : (c == b'-') ≡ false = ground (arith, low) in rw (parse_decimal, other)

parse_decimal-Spells :
    (n scale : ℕ) (str : List ℕ) → Spells n scale str → parse_decimal str scale ≡ good (pos n)
parse_decimal-Spells n scale str p =
    ap (λ s. parse_decimal s scale) p.same
    ∙ no_sign p.first p.whole (p.whole ++ point p.frac) scale p.whole_digits
    ∙ ap (parse_unsigned scale) (sym p.same)
    ∙ parse_unsigned-Spells n scale str p

-- Parsing the text of a scaled integer gives the integer.
pub parse_decimal-format_scaled :
    (z : ℤ) (scale : ℕ) → parse_decimal (format_scaled z scale) scale ≡ good z
unfolding format_scaled
parse_decimal-format_scaled (pos n) scale =
    parse_decimal-Spells n scale (format_unsigned n scale) (format_unsigned-Spells n scale)
parse_decimal-format_scaled (negsuc n) scale =
    unfold parse_decimal in
    rw (
      parse_unsigned-Spells (suc n) scale (format_unsigned (suc n) scale)
        (format_unsigned-Spells (suc n) scale))

is_digit-digit : (c : ℕ) → 48 ≤ c → c ≤ 57 → is_digit c ≡ true
is_digit-digit c low high = ground arith

skip_digits-digits : (ds rest : List ℕ) → AreDigits ds → skip_digits (ds ++ rest) ≡ skip_digits rest
unfolding skip_digits
skip_digits-digits [] rest h = refl
skip_digits-digits (x ∷ ds) rest ((low, high), h) =
    rw (is_digit-digit x low high) (skip_digits-digits ds rest h)

is_behind_digits-point :
    (frac : List ℕ) → AreDigits frac → is_behind_digits (skip_digits (point frac)) ≡ true
unfolding is_behind_digits is_fraction skip_digits
is_behind_digits-point [] h = refl
is_behind_digits-point (y ∷ frac) ((low, high), h) =
    rw (is_digit-digit y low high)
      (ap is_empty (ap skip_digits (sym (append-nil frac)) ∙ skip_digits-digits frac [] h))

is_unsigned-digits :
    (x : ℕ) (whole frac : List ℕ)
    → AreDigits (x ∷ whole)
    → AreDigits frac
    → is_unsigned (x ∷ whole ++ point frac) ≡ true
unfolding is_unsigned
is_unsigned-digits x whole frac ((low, high), h) f =
    rw (is_digit-digit x low high) (
      ap is_behind_digits (skip_digits-digits whole (point frac) h) ∙ is_behind_digits-point frac f)

is_unsigned-Spells : (n scale : ℕ) (str : List ℕ) → Spells n scale str → is_unsigned str ≡ true
is_unsigned-Spells n scale str p =
    ap is_unsigned p.same ∙ is_unsigned-digits p.first p.whole p.frac p.whole_digits p.frac_digits

unsigned_IsDecimal :
    (x : ℕ) (whole rest : List ℕ)
    → AreDigits (x ∷ whole)
    → is_decimal (x ∷ rest) ≡ is_unsigned (x ∷ rest)
unfolding is_decimal is_unsigned
unsigned_IsDecimal x whole rest ((low, high), h) =
    let other : (x == b'-') ≡ false = ground (arith, low) in rw other

-- The text of a scaled integer is a valid decimal.
pub is_decimal-format_scaled : (z : ℤ) (scale : ℕ) → is_decimal (format_scaled z scale) ≡ true
unfolding format_scaled
is_decimal-format_scaled (pos n) scale =
    let p = format_unsigned-Spells n scale in
    ap is_decimal p.same
    ∙ unsigned_IsDecimal p.first p.whole (p.whole ++ point p.frac) p.whole_digits
    ∙ ap is_unsigned (sym p.same)
    ∙ is_unsigned-Spells n scale (format_unsigned n scale) p
is_decimal-format_scaled (negsuc n) scale =
    unfold is_decimal in
    is_unsigned-Spells (suc n) scale (format_unsigned (suc n) scale)
      (format_unsigned-Spells (suc n) scale)
