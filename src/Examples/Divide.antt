-- ===== src/Examples/Divide.antt =====
-- runtime.c: division by a small fixnum, on concrete numbers.
use chicken_core_mirror.Prelude.{ℕ, ◌-◌, ◌%◌, ◌≡◌, List, [], ◌∷◌, true, arith, refl}
use chicken_core_mirror.Prelude.Int.{signed_magnitude}
use chicken_core_mirror.Word.{word_base, signed, fits_in_fixnum, fits_in_half_digit, abs_word}
use chicken_core_mirror.Digits.{magnitude}
use chicken_core_mirror.Bignum.{fix, big, IsInteger, value}
use chicken_core_mirror.Overflow.{truncate}
use chicken_core_mirror.Divide.{is_small, divide_unsigned_small}
use chicken_core_mirror.Divide.Small.{divide_unsigned_small_lem}

abbrev ds : List ℕ
ds = 7 ∷ 0 ∷ 5 ∷ []

ds-IsInteger : IsInteger (big true ds)
ds-IsInteger = ((omega arith, (omega arith, (omega arith, tt))), omega arith, omega arith)

abbrev minus_ten : ℕ
minus_ten = word_base - 10

minus_ten-IsInteger : IsInteger (fix minus_ten)
minus_ten-IsInteger = (omega arith, unfold fits_in_fixnum in refl)

divide_unsigned_small_lem_example :
    let s = divide_unsigned_small true ds minus_ten in
    IsInteger s.0
    × IsInteger s.1
    × (value s.0 ≡ truncate (value (big true ds)) (signed minus_ten))
    × (value s.1 ≡ signed_magnitude true (magnitude ds % abs_word minus_ten))
divide_unsigned_small_lem_example =
    divide_unsigned_small_lem true ds minus_ten ds-IsInteger minus_ten-IsInteger (omega arith)
      (omega arith) (omega arith) (unfold is_small fits_in_half_digit abs_word in refl)
