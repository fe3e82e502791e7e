-- ===== src/Divrem/Integers.antt =====
-- integer_divrem on any two exact integers.
use chicken_core_mirror.Prelude.{
  ℕ, ◌+◌, ◌-◌, ◌*◌, ◌/◌, ◌%◌, ◌^◌, ◌<◌, ◌≤◌, ◌≡◌, ◌≢◌, ◌==◌, ◌&&◌, List, [], ◌∷◌, length, ◌⊎◌,
  Option, none, some, Bool, true, false, not, if◌then◌else◌, Yields, arith, refl, sym, ◌∙◌, inl,
  inr, Bool-cases,
}
use chicken_core_mirror.Prelude.Int.{signed_magnitude}
use chicken_core_mirror.Word.{
  word_base, signed, sign_bit, abs_word, fits_in_fixnum, most_negative_fixnum, fits_in_half_digit,
}
use chicken_core_mirror.Digits.{magnitude}
use chicken_core_mirror.Bignum.{
  Integer, fix, big, IsInteger, value, integer_negate, negated_fits_in_fixnum,
}
use chicken_core_mirror.Bignum.Values.{fix_to_big-one_digit}
use chicken_core_mirror.Bignum.Negation.{
  integer_negate_lem, negate_magnitude, negated_fits, negated_too_large,
}
use chicken_core_mirror.Times.Fixnum.{abs_word_parts}
use chicken_core_mirror.Times.Integers.{abs_word_small}
use chicken_core_mirror.Divide.{is_small}
use chicken_core_mirror.Divide.Small.{divide_unsigned_small_lem}
use chicken_core_mirror.Divrem.{
  Divide, burnikel_ziegler_threshold, bignum_divrem, divide_by_fixnum, integer_divrem, is_zero,
}
use chicken_core_mirror.Divrem.Signs.{
  Returns, Returns-of_option, AreDivrem, by_signs, leftover_signs,
}
use chicken_core_mirror.Divrem.Bignums.{
  IsRoom, IsCorrectOn, FitsInt, sign_nought, bignum_divrem_lem, equal_lem, below_lem,
}
use chicken_core_mirror.Divrem.Fixnums.{fixnum_divrem_lem}

-- A divisor that does not fit a half digit.
not_small : (a : ℕ) → a < 2 ^ 64 → is_small a ≡ false → 2 ^ 32 ≤ a
unfolding is_small fits_in_half_digit
not_small a w h = ground arith

over_one : (a : ℕ) → (a / 1 ≡ a) × (a % 1 ≡ 0)
over_one a = (omega arith, omega arith)

keep_sign : (m : Bool) → (if m then not false else false) ≡ m
keep_sign true = refl
keep_sign false = refl

flip_sign : (m : Bool) → (if m then not true else true) ≡ not m
flip_sign true = refl
flip_sign false = refl

by_one :
    (m : Bool) (x : List ℕ)
    → IsInteger (big m x)
    → AreDivrem (signed_magnitude m (magnitude x)) (signed 1) (big m x, fix 0)
by_one m x h =
    let (q, r) = over_one (magnitude x) in
    let (ok, v) = sign_nought m in
    by_signs m false (magnitude x) 1 (big m x, fix 0) h ok (rw (q, keep_sign m) refl) (rw r v)

by_minus_one :
    (m : Bool) (x : List ℕ)
    → IsInteger (big m x)
    → AreDivrem
        (signed_magnitude m (magnitude x))
        (signed (word_base - 1))
        (integer_negate (big m x), fix 0)
by_minus_one m x h =
    let (q, r) = over_one (magnitude x) in
    let (ok, v) = sign_nought m in
    let (ok', v') = integer_negate_lem (big m x) h in
    by_signs m true (magnitude x) 1 (integer_negate (big m x), fix 0) ok' ok
      (rw (q, flip_sign m) (v' ∙ sym (negate_magnitude m (magnitude x)))) (rw r v)

-- One digit is never left to Burnikel-Ziegler division.
one_digit-IsCorrectOn :
    (rec : Option Divide) (m n : Bool) (x : List ℕ) (d : ℕ) → IsCorrectOn rec m n x (d ∷ [])
one_digit-IsCorrectOn none m n x d = tt
one_digit-IsCorrectOn (some divide) m n x d = λ more long longer. absurd (omega arith)

divide_by_fixnum_lem :
    (rec : Option Divide) (m : Bool) (x : List ℕ) (y : ℕ)
    → FitsInt x
    → IsInteger (big m x)
    → IsInteger (fix y)
    → y ≢ 0
    → Yields (divide_by_fixnum rec m x y) (AreDivrem (signed_magnitude m (magnitude x)) (signed y))
unfolding divide_by_fixnum
divide_by_fixnum_lem rec m x y int hx hy n = elim (Bool-cases (y == 1)) [
  | inl e ↦ let one : y ≡ 1 = ground arith in rw one (by_one m x hx)
  | inr e ↦ elim (Bool-cases (y == word_base - 1)) [
    | inl e' ↦ let minus : y ≡ word_base - 1 = ground arith in rw minus (by_minus_one m x hx)
    | inr e' ↦
        let not_nought : (y == 0) ≡ false = ground arith in
        let (word, positive, stands) = abs_word_small y hy.0 not_nought in
        elim (Bool-cases (is_small (abs_word y))) [
          | inl small ↦
              let (ok, ok', v, v') =
                divide_unsigned_small_lem m x y hx hy n (λ o. absurd (ground arith))
                  (λ o. absurd (ground arith)) small in
              rw (e, e', small, not_nought)
                (
                  ok,
                  ok',
                  v,
                  v'
                      ∙ rw (← stands)
                          (sym (leftover_signs m (sign_bit y) (magnitude x) (abs_word y))),
                )
          | inr large ↦
              let one_digit : abs_word y + 2 ^ 64 * 0 ≡ abs_word y = omega arith in
              let low = not_small (abs_word y) word large in
              rw (e, e', large, ← stands, fix_to_big-one_digit y not_nought)
                (rw one_digit at (
                  bignum_divrem_lem rec m (sign_bit y) x (abs_word y ∷ [])
                    (one_digit-IsCorrectOn rec m (sign_bit y) x (abs_word y)) int hx
                    ((word, tt), omega (arith, positive), omega (arith, low))))
        ]
  ]
]

-- A fixnum is below every bignum but the one that it negates.
fixnum_below :
    (x : ℕ) (n : Bool) (y : List ℕ)
    → IsInteger (fix x)
    → IsInteger (big n y)
    → ((x == most_negative_fixnum) && negated_fits_in_fixnum n y) ≡ false
    → abs_word x < magnitude y
fixnum_below x n y (hx, fx) hy e = elim (Bool-cases (x == most_negative_fixnum)) [
  | inl least ↦
      let (range, _) = abs_word_parts x hx fx in
      let other : negated_fits_in_fixnum n y ≡ false = rw least at e in
      omega (arith, range, negated_too_large n y hy other)
  | inr more ↦
      let small : abs_word x < 2 ^ 62 = unfold abs_word fits_in_fixnum in ground arith in
      omega (arith, small, hy.2)
]

fixnum_by_bignum :
    (x : ℕ) (n : Bool) (y : List ℕ)
    → IsInteger (fix x)
    → IsInteger (big n y)
    → AreDivrem (signed x) (signed_magnitude n (magnitude y)) (
        if (x == most_negative_fixnum) && negated_fits_in_fixnum n y
        then (fix (word_base - 1), fix 0)
        else (fix 0, fix x))
fixnum_by_bignum x n y hx hy =
    elim (Bool-cases ((x == most_negative_fixnum) && negated_fits_in_fixnum n y)) [
      | inl e ↦
          let least : x ≡ most_negative_fixnum = ground arith in
          let fits : negated_fits_in_fixnum n y ≡ true = ground arith in
          let (plus, same) = negated_fits n y hy fits in
          rw (e, least, plus, same) (equal_lem true false (2 ^ 62) (2 ^ 62) refl (omega arith))
      | inr e ↦
          let (_, stands) = abs_word_parts x hx.0 hx.1 in
          rw e (
            rw stands at (
              below_lem (sign_bit x) n (abs_word x) (magnitude y) (fix x)
                (fixnum_below x n y hx hy e) hx (sym stands)))
    ]

-- The lengths of x are an `int`, and the division that is given is correct on the two bignums, where
-- it is called.
abbrev pub Covers : Option Divide → Integer → Integer → Type 0
Covers rec (fix x) y = Unit
Covers rec (big m x) (fix y) = FitsInt x
Covers rec (big m x) (big n y) = FitsInt x × IsCorrectOn rec m n x y

-- integer_divrem on two well-formed integers, the second not 0.
pub integer_divrem_lem :
    (rec : Option Divide) (x y : Integer)
    → Covers rec x y
    → IsInteger x
    → IsInteger y
    → is_zero y ≡ false
    → Returns (integer_divrem rec x y) (AreDivrem (value x) (value y))
unfolding integer_divrem
integer_divrem_lem rec (fix x) (fix y) _ hx hy n = fixnum_divrem_lem x y hx hy (ground arith)
integer_divrem_lem rec (fix x) (big n y) _ hx hy _ =
    let s = fixnum_by_bignum x n y hx hy in
    elim (Bool-cases ((x == most_negative_fixnum) && negated_fits_in_fixnum n y)) [
      | inl e ↦ rw e (rw e at s)
      | inr e ↦ rw e (rw e at s)
    ]
integer_divrem_lem rec (big m x) (fix y) int hx hy n =
    Returns-of_option (divide_by_fixnum rec m x y)
      (AreDivrem (signed_magnitude m (magnitude x)) (signed y))
      (divide_by_fixnum_lem rec m x y int hx hy (ground arith))
integer_divrem_lem rec (big m x) (big n y) (int, correct) hx hy _ =
    Returns-of_option (bignum_divrem rec (m, x) (n, y))
      (AreDivrem (signed_magnitude m (magnitude x)) (signed_magnitude n (magnitude y)))
      (bignum_divrem_lem rec m n x y correct int hx (hy.0, hy.1, omega (arith, hy.2)))

-- Where Burnikel-Ziegler division is not taken: there is no room for it on the stack, the divisor
-- is short, or it is not much shorter than the dividend.
abbrev pub TakesSchoolbook : Option Divide → Integer → Integer → Type 0
TakesSchoolbook none x y = Unit
TakesSchoolbook (some divide) (fix x) y = Unit
TakesSchoolbook (some divide) (big m x) (fix y) = Unit
TakesSchoolbook (some divide) (big m x) (big n y) =
    (length y ≤ burnikel_ziegler_threshold) ⊎ (length x ≤ length y + burnikel_ziegler_threshold)

-- The number of digits of a bignum that the plain ints of the long division allow.
abbrev pub IsSized : Integer → Type 0
IsSized (fix x) = Unit
IsSized (big m x) = FitsInt x

pub schoolbook-Covers :
    (rec : Option Divide) (x y : Integer) → TakesSchoolbook rec x y → IsSized x → Covers rec x y
schoolbook-Covers none (fix x) y t h = tt
schoolbook-Covers none (big m x) (fix y) t h = h
schoolbook-Covers none (big m x) (big n y) t h = (h, tt)
schoolbook-Covers (some divide) (fix x) y t h = tt
schoolbook-Covers (some divide) (big m x) (fix y) t h = h
schoolbook-Covers (some divide) (big m x) (big n y) (inl short) h =
    (h, λ more long longer. absurd (omega arith))
schoolbook-Covers (some divide) (big m x) (big n y) (inr near) h =
    (h, λ more long longer. absurd (omega arith))

-- A division that is correct on all bignums that are left to it.
pub room-Covers :
    (rec : Option Divide) (x y : Integer)
    → IsRoom rec
    → IsInteger x
    → IsInteger y
    → IsSized x
    → Covers rec x y
room-Covers rec (fix x) y room hx hy h = tt
room-Covers rec (big m x) (fix y) room hx hy h = h
room-Covers none (big m x) (big n y) room hx hy h = (h, tt)
room-Covers (some divide) (big m x) (big n y) room hx hy h =
    (h, λ more long longer. room m n x y hx hy more long h)
