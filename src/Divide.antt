-- ===== src/Divide.antt =====
-- runtime.c: division of a bignum by a small fixnum, one that fits a half digit or is a power of
-- two, as integer_divrem does it.
pub mod Small
pub mod Remainder
use chicken_core_mirror.Prelude.{
  ℕ, ◌-◌, ◌%◌, ◌^◌, List, [], ◌∷◌, Bool, false, not, ◌&&◌, ◌||◌, ◌==◌, if◌then◌else◌,
}
use chicken_core_mirror.Word.{
  sign_bit, neg_word, fits_in_half_digit, fits_in_fixnum, abs_word, ilen,
}
use chicken_core_mirror.Digits.{scale_down, shift_right, remainder_halfdigit}
use chicken_core_mirror.Bignum.{Integer, fix, bignum_simplify}
use Prim.Native.Nat.{bit_and}

-- The test of integer_divrem for a small divisor.
unfoldable pub is_small : ℕ → Bool
is_small absy = fits_in_half_digit absy || (2 ^ (ilen absy - 1) == absy && fits_in_fixnum absy)

-- `C_truep(r_negp) ? C_fix(-remainder) : C_fix(remainder)`
unfoldable pub signed_remainder : Bool → ℕ → Integer
signed_remainder negp rem = fix (if negp then neg_word rem else rem)

-- The digits of the quotient and the remainder: a shift for a power of two.
unfoldable pub divide_digits : List ℕ → ℕ → List ℕ × ℕ
divide_digits ds absy =
    let shift_amount = ilen absy - 1 in
    if 2 ^ shift_amount == absy then shift_right ds shift_amount false else scale_down ds absy

-- bignum_destructive_divide_unsigned_small on the bignum of sign `negx` and digits `ds`: the
-- quotient and the remainder.
unfoldable pub divide_unsigned_small : Bool → List ℕ → ℕ → Integer × Integer
divide_unsigned_small negx ds y =
    let q_negp = if sign_bit y then not negx else negx in
    let s = divide_digits ds (abs_word y) in (bignum_simplify q_negp s.0, signed_remainder negx s.1)

lowest_digit : List ℕ → ℕ
lowest_digit [] = 0
lowest_digit (d ∷ ds) = d

-- The branch of integer_divrem where only the remainder is asked for.
unfoldable pub remainder_small : Bool → List ℕ → ℕ → Integer
unfolding lowest_digit
remainder_small negx ds y =
    let absy = abs_word y in
    let next_power = 2 ^ (ilen absy - 1) in
    signed_remainder negx (
      if next_power == absy
      then bit_and (lowest_digit ds) (next_power - 1)
      else remainder_halfdigit ds absy)
