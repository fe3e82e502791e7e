-- ===== src/Examples/Integers.antt =====
-- runtime.c: exact integers, on concrete numbers.
use chicken_core_mirror.Prelude.{
  ℕ, not, ◌-◌, ◌*◌, ◌^◌, ◌≡◌, ◌↔◌, [], ◌∷◌, some, true, false, arith, refl,
}
use chicken_core_mirror.Prelude.Int.{pos, ltb_ℤ, signed_magnitude, ◌+ℤ◌, ◌-ℤ◌, ◌*ℤ◌}
use chicken_core_mirror.Word.{fits_in_fixnum, word_base}
use chicken_core_mirror.Digits.{magnitude, cmp_unsigned, multiply_digits, to_halves, from_halves}
use chicken_core_mirror.Bignum.{
  Integer, fix, big, IsInteger, value, Computes, bignum_simplify, trim, bignum_minus_unsigned,
  integer_plus, integer_minus, integer_negate, integer_equalp, integer_greaterp,
  integer_greater_or_equalp, integer_less_or_equalp, integer_lessp,
}
use chicken_core_mirror.Bignum.Simplify.{bignum_simplify_lem}
use chicken_core_mirror.Bignum.Sums.{integer_plus_lem, integer_minus_lem}
use chicken_core_mirror.Bignum.Order.{integer_lessp_lem, integer_equalp_iff}
use chicken_core_mirror.Bignum.Comparisons.{integer_comparisons_lem}
use chicken_core_mirror.Shift.{shift_left_by, shift_right_by}
use chicken_core_mirror.Shift.Left.{shift_left_by_lem}
use chicken_core_mirror.Shift.Ones.{floor_shift, shift_right_by-ones}
use chicken_core_mirror.Shift.Floor.{shift_right_by_lem}
use chicken_core_mirror.Times.{karatsuba, schoolbook, times_with, times_unsigned, integer_times}
use chicken_core_mirror.Times.Karatsuba.{karatsuba_lem}
use chicken_core_mirror.Times.Integers.{integer_times_lem}

abbrev last : ℕ
last = 2 ^ 64 - 1

-- - (2 ^ 128 - 1)
abbrev minus_full : Integer
minus_full = big true (last ∷ last ∷ [])

-- 2 ^ 62, the least bignum
abbrev least : Integer
least = big false (2 ^ 62 ∷ [])

-- -3
abbrev minus_three : Integer
minus_three = fix (word_base - 3)

minus_full-IsInteger : IsInteger minus_full
minus_full-IsInteger = ((omega arith, (omega arith, tt)), omega arith, omega arith)

least-IsInteger : IsInteger least
least-IsInteger = ((omega arith, tt), omega arith, omega arith)

minus_three-IsInteger : IsInteger minus_three
minus_three-IsInteger = (omega arith, unfold fits_in_fixnum in refl)

negated_least : integer_negate least ≡ fix (word_base - 2 ^ 62)
unfolding integer_negate fits_in_fixnum
negated_least = refl

sum_of_bignums : integer_plus minus_full (big false (last ∷ last ∷ [])) ≡ some (fix 0)
unfolding integer_plus bignum_minus_unsigned cmp_unsigned
sum_of_bignums = refl

square : integer_times 0 minus_full minus_full ≡ some (big false (1 ∷ 0 ∷ (last - 1) ∷ last ∷ []))
unfolding integer_times times_with times_unsigned schoolbook multiply_digits bignum_simplify
    to_halves trim from_halves
square = refl

shifted : shift_right_by minus_three 1 ≡ fix (word_base - 2)
unfolding shift_right_by
shifted = refl

integer_times_lem_example :
    Computes (integer_times 1 minus_full minus_three) (value minus_full *ℤ value minus_three)
integer_times_lem_example =
    integer_times_lem 1 minus_full minus_three minus_full-IsInteger minus_three-IsInteger

integer_plus_lem_example :
    Computes (integer_plus minus_full least) (value minus_full +ℤ value least)
integer_plus_lem_example = integer_plus_lem minus_full least minus_full-IsInteger least-IsInteger

integer_minus_lem_example :
    Computes (integer_minus minus_three minus_full) (value minus_three -ℤ value minus_full)
integer_minus_lem_example =
    integer_minus_lem minus_three minus_full minus_three-IsInteger minus_full-IsInteger

shift_right_by_lem_example :
    IsInteger (shift_right_by minus_three 1)
    × (value (shift_right_by minus_three 1) ≡ floor_shift (value minus_three) 1)
shift_right_by_lem_example = shift_right_by_lem minus_three 1 minus_three-IsInteger tt

shift_left_by_lem_example :
    IsInteger (shift_left_by minus_three 70)
    × (value (shift_left_by minus_three 70) ≡ value minus_three *ℤ pos (2 ^ 70))
shift_left_by_lem_example = shift_left_by_lem minus_three 70 minus_three-IsInteger

karatsuba_lem_example :
    Computes
      (karatsuba (integer_times 0) minus_full least true)
      (signed_magnitude true (magnitude (last ∷ last ∷ []) * magnitude (2 ^ 62 ∷ [])))
karatsuba_lem_example =
    karatsuba_lem (integer_times 0) true false true (last ∷ last ∷ []) (2 ^ 62 ∷ [])
      (integer_times_lem 0) minus_full-IsInteger least-IsInteger

integer_lessp_lem_example : integer_lessp minus_full least ≡ ltb_ℤ (value minus_full) (value least)
integer_lessp_lem_example = integer_lessp_lem minus_full least minus_full-IsInteger least-IsInteger

integer_comparisons_lem_example :
    (integer_greaterp minus_full least ≡ ltb_ℤ (value least) (value minus_full))
    × (integer_greater_or_equalp minus_full least ≡ not (ltb_ℤ (value minus_full) (value least)))
    × (integer_less_or_equalp minus_full least ≡ not (ltb_ℤ (value least) (value minus_full)))
integer_comparisons_lem_example =
    integer_comparisons_lem minus_full least minus_full-IsInteger least-IsInteger

integer_equalp_iff_example :
    (integer_equalp least minus_three ≡ true) ↔ (value least ≡ value minus_three)
integer_equalp_iff_example =
    integer_equalp_iff least minus_three least-IsInteger minus_three-IsInteger

bignum_simplify_lem_example :
    IsInteger (bignum_simplify true (5 ∷ 0 ∷ 0 ∷ []))
    × (value (bignum_simplify true (5 ∷ 0 ∷ 0 ∷ []))
        ≡ signed_magnitude true (magnitude (5 ∷ 0 ∷ 0 ∷ [])))
bignum_simplify_lem_example =
    bignum_simplify_lem true (5 ∷ 0 ∷ 0 ∷ []) (omega arith, (omega arith, (omega arith, tt)))

-- - (2 ^ 128 - 1) shifted by -64, which is - 2 ^ 64 when rounded down
shift_right_by-ones_example :
    (value (shift_right_by (big true (last ∷ last ∷ [])) 64) ≡ pos 0)
    × (floor_shift (value (big true (last ∷ last ∷ []))) 64 ≡ signed_magnitude true (2 ^ 64))
shift_right_by-ones_example = shift_right_by-ones (last ∷ []) 0 (omega arith, tt) (omega arith)
