-- ===== src/Examples/Bitwise.antt =====
-- runtime.c: the bitwise operators on concrete numbers.
use chicken_core_mirror.Prelude.{
  ℕ, ◌-◌, ◌≡◌, ◌==◌, List, [], ◌∷◌, true, false, if◌then◌else◌, Yields, arith, refl,
}
use chicken_core_mirror.Word.{abs_word, ilen, ilen_step, word_base}
use chicken_core_mirror.Bignum.{
  Integer, fix, big, IsInteger, value, fix_to_big, bignum_simplify, trim,
}
use chicken_core_mirror.Digits.{negate_digits, complement}
use chicken_core_mirror.Shift.{negated_for_bitwise_op}
use chicken_core_mirror.Bitwise.{
  bitwise_and, bitwise_ior, bitwise_xor, bitwise_not, bitwise_all, integer_length, bit_to_bool,
  bignum_and, bignum_combine, for_bitwise_op, zip_short, zip_long, finish_bitwise, fill_zeros, bit,
  out_of_bounds,
}
use chicken_core_mirror.Bitwise.Bits.{bit_of}
use chicken_core_mirror.Bitwise.Operators.{HasBits}
use chicken_core_mirror.Bitwise.Arguments.{
  HasAllBits, bitwise_operators_lem, bitwise_all_lem, bitwise_not_lem,
}
use chicken_core_mirror.Bitwise.Lengths.{IsLength, bits_below, integer_length_lem}
use chicken_core_mirror.Bitwise.BitToBool.{reads_copy, bit_to_bool_lem}
use Prim.Native.Nat.{max, min, differ}

-- -2 ^ 128, and 2 ^ 64 + 5.
abbrev low : Integer
low = big true (0 ∷ 0 ∷ 1 ∷ [])

abbrev high : Integer
high = big false (5 ∷ 1 ∷ [])

low-IsInteger : IsInteger low
low-IsInteger = ((omega arith, (omega arith, (omega arith, tt))), omega arith, omega arith)

high-IsInteger : IsInteger high
high-IsInteger = ((omega arith, (omega arith, tt)), omega arith, omega arith)

and_of_signs : bitwise_and low high ≡ fix 0
unfolding bitwise_and bignum_and for_bitwise_op zip_short finish_bitwise fill_zeros bignum_simplify
    negate_digits complement negated_for_bitwise_op trim
and_of_signs = refl

ior_of_signs : bitwise_ior low (fix 5) ≡ big true (18446744073709551611 ∷ 18446744073709551615 ∷ [])
unfolding fix_to_big bitwise_ior bignum_combine abs_word for_bitwise_op zip_long finish_bitwise
    bignum_simplify negate_digits complement negated_for_bitwise_op trim
ior_of_signs = refl

ior_of_zero : bitwise_ior low (fix 0) ≡ low
unfolding fix_to_big bitwise_ior bignum_combine abs_word for_bitwise_op zip_long finish_bitwise
    bignum_simplify negate_digits complement negated_for_bitwise_op trim
ior_of_zero = refl

bitwise_operators_lem_example :
    HasBits min (value low) (value high) (bitwise_and low high)
    × HasBits max (value low) (value high) (bitwise_ior low high)
    × HasBits differ (value low) (value high) (bitwise_xor low high)
bitwise_operators_lem_example = bitwise_operators_lem low high low-IsInteger high-IsInteger

bitwise_all_lem_example :
    let xs : List Integer = low ∷ high ∷ low ∷ [] in
    HasAllBits min 1 xs (bitwise_all bitwise_and (fix (word_base - 1)) xs)
    × HasAllBits max 0 xs (bitwise_all bitwise_ior (fix 0) xs)
    × HasAllBits differ 0 xs (bitwise_all bitwise_xor (fix 0) xs)
bitwise_all_lem_example =
    bitwise_all_lem (low ∷ high ∷ low ∷ []) (low-IsInteger, (high-IsInteger, (low-IsInteger, tt)))

bitwise_not_lem_example :
    Yields
      (bitwise_not low)
      (λ r. IsInteger r × ((k : ℕ) → bit_of (value r) k ≡ 1 - bit_of (value low) k))
bitwise_not_lem_example = bitwise_not_lem low low-IsInteger

bit_to_bool_lem_example :
    bit_to_bool low (fix 70)
    ≡ (if reads_copy low 70 then out_of_bounds else bit (bit_of (value low) 70 == 1))
bit_to_bool_lem_example = bit_to_bool_lem low 70 low-IsInteger refl

integer_length_lem_example : IsLength (bits_below (value low)) (integer_length low)
integer_length_lem_example = integer_length_lem low low-IsInteger

length_of_power : integer_length low ≡ 128
unfolding integer_length ilen ilen_step
length_of_power = refl
