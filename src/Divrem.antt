-- ===== src/Divrem.antt =====
-- runtime.c: division of exact integers, integer_divrem and what is built on it: quotient,
-- remainder and modulo. The Burnikel-Ziegler division of large bignums is a parameter of
-- integer_divrem, `none` where the stack has no room for it. `none` as a result is a failed
-- assertion or a read or write past an array; the error of a division by zero is an outcome of its
-- own.
pub mod Signs
pub mod Bignums
pub mod Fixnums
pub mod Integers
pub mod Remainders
pub mod Modulo
use chicken_core_mirror.Prelude.{
  ℕ, ◌+◌, ◌-◌, ◌^◌, List, [], ◌∷◌, Option, none, some, Bool, true, false, not, ◌&&◌, ◌==◌, ltb,
  if◌then◌else◌, length, ◌>>=◌, ◌/◌, ◌%◌,
}
use chicken_core_mirror.Word.{
  word_base, sign_bit, sub_word, mul_word, abs_word, most_negative_fixnum,
}
use chicken_core_mirror.Digits.{cmp_unsigned}
use chicken_core_mirror.Bignum.{
  Integer, fix, big, fix_to_big, bignum_simplify, negated_fits_in_fixnum, integer_negate,
  integer_plus,
}
use chicken_core_mirror.Overflow.{quotient_word}
use chicken_core_mirror.Divide.{is_small, divide_unsigned_small, remainder_small}
use chicken_core_mirror.LongDivision.{divide_unsigned}
use Prim.Native.Nat.{Ordering}

-- C_BURNIKEL_ZIEGLER_THRESHOLD
abbrev pub burnikel_ziegler_threshold : ℕ
burnikel_ziegler_threshold = 300

abbrev pub Divide : Type 0
Divide = Integer → Integer → Option (Integer × Integer)

-- What an operator comes to: its result, C_div_by_zero_error, or a failure that C does not catch.
pub data Outcome (A : Type 0) : Type 0 where
  returned : A → Outcome A
  division_by_zero : Outcome A
  failed : Outcome A

abbrev pub and_then : {A : Type 0} {B : Type 0} → Outcome A → (A → Outcome B) → Outcome B
and_then (returned a) f = f a
and_then division_by_zero f = division_by_zero
and_then failed f = failed

abbrev pub of_option : {A : Type 0} → Option A → Outcome A
of_option none = failed
of_option (some a) = returned a

-- C_a_i_fixnum_quotient_checked
unfoldable pub fixnum_quotient : ℕ → ℕ → Outcome Integer
fixnum_quotient x y =
    if y == 0
    then division_by_zero
    else if (x == most_negative_fixnum) && (y == word_base - 1)
    then returned (big false (2 ^ 62 ∷ []))
    else returned (fix (quotient_word x y))

-- C_i_fixnum_remainder_checked
unfoldable pub fixnum_remainder : ℕ → ℕ → Outcome Integer
fixnum_remainder x y =
    if y == 0
    then division_by_zero
    else returned (fix (sub_word x (mul_word (quotient_word x y) y)))

-- bignum_divide_unsigned, with the results simplified.
unfoldable pub divide_schoolbook : Bool × List ℕ → Bool × List ℕ → Bool → Option (Integer × Integer)
divide_schoolbook x y q_negp = do
  s ← divide_unsigned x.1 y.1
  some (bignum_simplify q_negp s.0, bignum_simplify x.0 s.1)

-- The choice of the division where the magnitude of x is the larger.
unfoldable pub divide_larger :
    Option Divide → Bool × List ℕ → Bool × List ℕ → Bool → Option (Integer × Integer)
unfolding divide_schoolbook
divide_larger none x y q_negp = divide_schoolbook x y q_negp
divide_larger (some divide) x y q_negp =
    let size = length x.1 - length y.1 in
    if ltb burnikel_ziegler_threshold (length y.1) && ltb burnikel_ziegler_threshold size
    then divide (big x.0 x.1) (big y.0 y.1)
    else divide_schoolbook x y q_negp

-- bignum_divrem: the quotient and the remainder.
unfoldable pub bignum_divrem :
    Option Divide → Bool × List ℕ → Bool × List ℕ → Option (Integer × Integer)
unfolding divide_larger
bignum_divrem rec x y =
    let q_negp : Bool = if x.0 then not y.0 else y.0 in
    elim (cmp_unsigned x.1 y.1) [
      | Ordering.eq ↦ some (fix (if q_negp then word_base - 1 else 1), fix 0)
      | Ordering.lt ↦ some (fix 0, big x.0 x.1)
      | Ordering.gt ↦ divide_larger rec x y q_negp
    ]

-- integer_divrem on a bignum and a fixnum. `y` 0 fails the assertion.
unfoldable pub divide_by_fixnum : Option Divide → Bool → List ℕ → ℕ → Option (Integer × Integer)
unfolding bignum_divrem
divide_by_fixnum rec negx ds y =
    if y == 1
    then some (big negx ds, fix 0)
    else if y == word_base - 1
    then some (integer_negate (big negx ds), fix 0)
    else if is_small (abs_word y)
    then (if y == 0 then none else some (divide_unsigned_small negx ds y))
    else bignum_divrem rec (negx, ds) (fix_to_big y)

-- integer_divrem with both results asked for.
unfoldable pub integer_divrem : Option Divide → Integer → Integer → Outcome (Integer × Integer)
unfolding fixnum_quotient fixnum_remainder divide_by_fixnum
integer_divrem rec (fix x) (big n y) =
    if (x == most_negative_fixnum) && negated_fits_in_fixnum n y
    then returned (fix (word_base - 1), fix 0)
    else returned (fix 0, fix x)
integer_divrem rec (big m x) (big n y) = of_option (bignum_divrem rec (m, x) (n, y))
integer_divrem rec (fix x) (fix y) =
    and_then (fixnum_quotient x y) λ q. and_then (fixnum_remainder x y) λ r. returned (q, r)
integer_divrem rec (big m x) (fix y) = of_option (divide_by_fixnum rec m x y)

-- `y == C_fix(0)`
abbrev pub is_zero : Integer → Bool
is_zero (fix n) = n == 0
is_zero (big negp ds) = false

-- C_i_positivep, on exact integers
unfoldable pub is_positive : Integer → Bool
is_positive (fix n) = not (sign_bit n) && not (n == 0)
is_positive (big negp ds) = not negp

-- The same on a bignum and a fixnum, with only the remainder asked for.
unfoldable pub remainder_by_fixnum : Option Divide → Bool → List ℕ → ℕ → Option Integer
remainder_by_fixnum rec negx ds y =
    if y == 1
    then some (fix 0)
    else if y == word_base - 1
    then some (fix 0)
    else if is_small (abs_word y)
    then (if y == 0 then none else some (remainder_small negx ds y))
    else (bignum_divrem rec (negx, ds) (fix_to_big y) >>= λ s. some s.1)

-- integer_divrem with only the remainder asked for.
unfoldable pub remainder_only : Option Divide → Integer → Integer → Outcome Integer
unfolding remainder_by_fixnum
remainder_only rec (fix x) (fix y) = fixnum_remainder x y
remainder_only rec (big m x) (fix y) = of_option (remainder_by_fixnum rec m x y)
remainder_only rec x (big n y) = and_then (integer_divrem rec x (big n y)) λ s. returned s.1

-- integer_divrem with only the quotient asked for: no remainder of fixnums is taken, and in the
-- other branches it is only not stored.
unfoldable pub quotient_only : Option Divide → Integer → Integer → Outcome Integer
quotient_only rec (fix x) (fix y) = fixnum_quotient x y
quotient_only rec (big m x) (fix y) =
    and_then (of_option (divide_by_fixnum rec m x y)) λ s. returned s.0
quotient_only rec x (big n y) = and_then (integer_divrem rec x (big n y)) λ s. returned s.0

-- C_u_integer_quotient_and_remainder
unfoldable pub integer_quotient_and_remainder :
    Option Divide → Integer → Integer → Outcome (Integer × Integer)
integer_quotient_and_remainder rec x y =
    if is_zero y then division_by_zero else integer_divrem rec x y

-- C_s_a_u_i_integer_quotient
unfoldable pub integer_quotient : Option Divide → Integer → Integer → Outcome Integer
unfolding quotient_only
integer_quotient rec x y = if is_zero y then division_by_zero else quotient_only rec x y

-- C_s_a_u_i_integer_remainder; C_s_a_i_remainder on exact integers
unfoldable pub integer_remainder : Option Divide → Integer → Integer → Outcome Integer
unfolding remainder_only
integer_remainder rec x y = if is_zero y then division_by_zero else remainder_only rec x y

-- The end of C_s_a_u_i_integer_modulo: the sign of the result follows y.
unfoldable pub follow_sign : Integer → Integer → Option Integer
follow_sign y r =
    let same : Bool = if is_positive y then is_positive r else not (is_positive r) in
    if not same && not (is_zero r) then integer_plus r y else some r

-- C_s_a_u_i_integer_modulo
unfoldable pub integer_modulo : Option Divide → Integer → Integer → Outcome Integer
unfolding follow_sign
integer_modulo rec x y =
    if is_zero y
    then division_by_zero
    else and_then (integer_remainder rec x y) λ r. of_option (follow_sign y r)
