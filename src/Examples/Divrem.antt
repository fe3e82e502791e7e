-- ===== src/Examples/Divrem.antt =====
-- runtime.c: long division and the operators built on integer_divrem, on concrete numbers.
use chicken_core_mirror.Prelude.{
  ℕ, ◌<◌, ◌≤◌, ◌≡◌, some, not, if◌then◌else◌, length, inl, List, [], ◌∷◌, true, false, none, Yields,
  arith, refl,
}
use chicken_core_mirror.Digits.{magnitude, AreDigits, IsTrimmed}
use chicken_core_mirror.Digits.Order.{cmp_unsigned-eq-compare}
use chicken_core_mirror.Bignum.{Integer, fix, big, IsInteger, value}
use chicken_core_mirror.Overflow.{truncate}
use chicken_core_mirror.LongDivision.{divide_full, uninitialized}
use chicken_core_mirror.LongDivision.Full.{IsDivision, divide_full_lem}
use chicken_core_mirror.Divrem.{
  Divide, division_by_zero, divide_schoolbook, is_zero, integer_quotient_and_remainder,
  integer_quotient, integer_remainder, integer_modulo,
}
use chicken_core_mirror.Divrem.Signs.{AreDivrem, leftover}
use chicken_core_mirror.Divrem.Bignums.{IsDivide, not_longer, divide_schoolbook_lem}
use chicken_core_mirror.Divrem.Remainders.{
  Unless, IsResult, integer_quotient_and_remainder_lem, integer_quotient_lem, integer_remainder_lem,
}
use chicken_core_mirror.Divrem.Modulo.{floor_mod, integer_modulo_lem}

-- Numbers where the estimate of a half digit is one too high.
abbrev num : List ℕ
num = 0 ∷ 0 ∷ 9223372036854775807 ∷ 9223372036854775808 ∷ []

abbrev den : List ℕ
den = 18446744073709551615 ∷ 18446744069414584319 ∷ 9223372036854775807 ∷ []

divide_full_lem_example :
    Yields (divide_full num den (uninitialized 2)) (IsDivision (magnitude num) (magnitude den) 2 5)
divide_full_lem_example =
    divide_full_lem num den (uninitialized 2)
      (omega arith, (omega arith, (omega arith, (omega arith, tt))))
      (omega arith, (omega arith, (omega arith, tt))) (omega arith) (omega arith) (omega arith) refl
      (omega arith)

abbrev minus_num : Integer
minus_num = big true num

minus_num-IsInteger : IsInteger minus_num
minus_num-IsInteger =
    ((omega arith, (omega arith, (omega arith, (omega arith, tt)))), omega arith, omega arith)

abbrev plus_den : Integer
plus_den = big false den

plus_den-IsInteger : IsInteger plus_den
plus_den-IsInteger = ((omega arith, (omega arith, (omega arith, tt))), omega arith, omega arith)

-- A division that never answers: it is not called on these numbers.
abbrev no_answer : Divide
no_answer x y = none

integer_quotient_and_remainder_lem_example :
    Unless
      (is_zero plus_den)
      (integer_quotient_and_remainder (some no_answer) minus_num plus_den)
      (AreDivrem (value minus_num) (value plus_den))
integer_quotient_and_remainder_lem_example =
    integer_quotient_and_remainder_lem (some no_answer) minus_num plus_den (inl (omega arith))
      (omega arith) minus_num-IsInteger plus_den-IsInteger

integer_quotient_lem_example :
    Unless
      (is_zero plus_den)
      (integer_quotient none minus_num plus_den)
      (IsResult (truncate (value minus_num) (value plus_den)))
integer_quotient_lem_example =
    integer_quotient_lem none minus_num plus_den tt (omega arith) minus_num-IsInteger
      plus_den-IsInteger

integer_remainder_lem_example :
    Unless
      (is_zero plus_den)
      (integer_remainder (some no_answer) minus_num plus_den)
      (IsResult (leftover (value minus_num) (value plus_den)))
integer_remainder_lem_example =
    integer_remainder_lem (some no_answer) minus_num plus_den (inl (omega arith)) (omega arith)
      minus_num-IsInteger plus_den-IsInteger

-- The long division in the place of Burnikel-Ziegler division, which the code falls back to.
abbrev by_schoolbook : Divide
by_schoolbook (big m x) (big n y) = divide_schoolbook (m, x) (n, y) (if m then not n else n)
by_schoolbook (fix x) y = none
by_schoolbook (big m x) (fix y) = none

larger_is_longer :
    (x y : List ℕ)
    → AreDigits x
    → AreDigits y
    → IsTrimmed x
    → IsTrimmed y
    → 0 < magnitude y
    → magnitude y < magnitude x
    → length y ≤ length x
larger_is_longer x y hx hy tx ty p more =
    let order = cmp_unsigned-eq-compare x y hx hy tx ty in not_longer x y (ground (arith, order))

by_schoolbook-IsDivide : IsDivide by_schoolbook
by_schoolbook-IsDivide m n x y hx hy more long int =
    divide_schoolbook_lem m n x y hx.0 hy.0 hy.1 (omega (arith, hy.2))
      (larger_is_longer x y hx.0 hy.0 hx.1 hy.1 (omega (arith, hy.2)) more) int

integer_modulo_lem_example :
    Unless
      (is_zero plus_den)
      (integer_modulo (some by_schoolbook) minus_num plus_den)
      (IsResult (floor_mod (value minus_num) (value plus_den)))
integer_modulo_lem_example =
    integer_modulo_lem (some by_schoolbook) minus_num plus_den by_schoolbook-IsDivide (omega arith)
      minus_num-IsInteger plus_den-IsInteger

-- A bignum by 0 is the error, and not the assertion that integer_divrem has for it.
by_zero : integer_remainder none minus_num (fix 0) ≡ division_by_zero
unfolding integer_remainder
by_zero = refl
