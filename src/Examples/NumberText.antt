-- ===== src/Examples/NumberText.antt =====
-- runtime.c: integers from and to text, on concrete numbers.
use chicken_core_mirror.Prelude.{
  ◌&&◌, leb, ℕ, List, [], ◌∷◌, ◌≡◌, true, false, some, none, refl, arith,
}
use chicken_core_mirror.Word.{
  fits_in_half_digit, fits_in_fixnum, ufits_in_fixnum, ilen, ilen_step, combine,
}
use chicken_core_mirror.Digits.{scale_up, scale_up_round}
use chicken_core_mirror.Bignum.{fix, big, bignum_simplify, trim}
use chicken_core_mirror.NumberText.{
  AreDigitsOf, hex_char_to_digit, digit_char, str_to_bignum, read_bits, read_chunk, read_chunks,
  write_carry, clear_rest, bits_to_digits, write_digits, digits_to_integer, fixnum_to_string, text,
  bad_base, to_n_nary,
}
use chicken_core_mirror.NumberText.Integers.{TextResult, digits_to_integer_lem}
use chicken_core_mirror.NumberText.RoundTrip.{Prints, fixnum_to_string-digits_to_integer}

-- "98765432109876543210", more than a digit holds.
abbrev twenty_digits : List ℕ
twenty_digits =
    57 ∷ 56 ∷ 55 ∷ 54 ∷ 53 ∷ 52 ∷ 51 ∷ 50 ∷ 49 ∷ 48 ∷ 57 ∷ 56 ∷ 55 ∷ 54 ∷ 53 ∷ 52 ∷ 51 ∷ 50 ∷ 49
    ∷ 48 ∷ []

digits_to_integer-decimal :
    digits_to_integer twenty_digits 10 true ≡ some (some (big true (6531711741328785130 ∷ 5 ∷ [])))
unfolding digits_to_integer fits_in_half_digit str_to_bignum ilen ilen_step read_chunks read_chunk
    write_carry clear_rest scale_up scale_up_round combine bits_to_digits bignum_simplify trim
    hex_char_to_digit
digits_to_integer-decimal = refl

-- "#3Fa", whose `#` is a zero.
digits_to_integer-hex : digits_to_integer (35 ∷ 51 ∷ 70 ∷ 97 ∷ []) 16 false ≡ some (some (fix 1018))
unfolding digits_to_integer fits_in_half_digit str_to_bignum ilen ilen_step read_bits bits_to_digits
    bignum_simplify trim hex_char_to_digit ufits_in_fixnum
digits_to_integer-hex = refl

digits_to_integer-nothing : digits_to_integer [] 10 false ≡ some none
unfolding digits_to_integer
digits_to_integer-nothing = refl

fixnum_to_string-unary : fixnum_to_string 5 1 ≡ bad_base
unfolding fixnum_to_string
fixnum_to_string-unary = refl

-- -255 in base 16
fixnum_to_string-negative : fixnum_to_string 18446744073709551361 16 ≡ text (45 ∷ 102 ∷ 102 ∷ [])
unfolding fixnum_to_string to_n_nary ilen ilen_step write_digits digit_char
fixnum_to_string-negative = refl

-- The text of a flonum without a fraction.
to_n_nary-flonum : to_n_nary 10 10 false true ≡ some (49 ∷ 48 ∷ 46 ∷ 48 ∷ [])
unfolding to_n_nary ilen ilen_step write_digits digit_char
to_n_nary-flonum = refl

twenty_digits-AreDigitsOf : AreDigitsOf 10 twenty_digits
unfolding hex_char_to_digit
twenty_digits-AreDigitsOf = ground arith

digits_to_integer_lem_example :
    TextResult twenty_digits 10 true (digits_to_integer twenty_digits 10 true)
digits_to_integer_lem_example =
    digits_to_integer_lem twenty_digits 10 true (omega arith) (omega arith) (omega arith)
      twenty_digits-AreDigitsOf

fixnum_to_string-digits_to_integer_example :
    Prints (leb 2 7 && leb 7 16) 18446744073709551361 7 (fixnum_to_string 18446744073709551361 7)
fixnum_to_string-digits_to_integer_example =
    fixnum_to_string-digits_to_integer 18446744073709551361 7
      (unfold fits_in_fixnum in (omega arith, refl))
