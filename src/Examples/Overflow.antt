-- ===== src/Examples/Overflow.antt =====
-- runtime.c: the fixnum operators with overflow tests, on concrete fixnums.
use chicken_core_mirror.Prelude.{ℕ, ◌-◌, ◌^◌, ◌≡◌, ◌==◌, none, some, if◌then◌else◌, arith, refl}
use chicken_core_mirror.Prelude.Int.{◌+ℤ◌, ◌*ℤ◌}
use chicken_core_mirror.Word.{word_base, signed, fix_word, fits_in_fixnum, unfix_word, is_fixnum}
use chicken_core_mirror.Overflow.{
  IsFixnum, fixnum_or_false, truncate, answer, division_by_zero, o_fixnum_plus, o_fixnum_times,
  o_fixnum_quotient, o_fixnum_and, o_fixnum_ior, o_fixnum_xor, on_fixnums, leaves_both,
}
use chicken_core_mirror.Overflow.Sums.{o_fixnum_plus_lem}
use chicken_core_mirror.Overflow.Products.{o_fixnum_times_lem, o_fixnum_quotient_lem}
use chicken_core_mirror.Overflow.Bits.{o_fixnum_bitwise_lem}
use Prim.Native.Nat.{bit_and, bit_or, bit_xor}

-- The greatest fixnum, and -5.
abbrev greatest : ℕ
greatest = 2 ^ 62 - 1

abbrev minus_five : ℕ
minus_five = word_base - 5

greatest-IsFixnum : IsFixnum greatest
greatest-IsFixnum = (omega arith, unfold fits_in_fixnum in refl)

minus_five-IsFixnum : IsFixnum minus_five
minus_five-IsFixnum = (omega arith, unfold fits_in_fixnum in refl)

overflows : o_fixnum_plus (fix_word greatest) (fix_word 1) ≡ none
unfolding o_fixnum_plus on_fixnums leaves_both fix_word unfix_word is_fixnum
overflows = refl

o_fixnum_plus_lem_example :
    o_fixnum_plus (fix_word greatest) (fix_word minus_five)
    ≡ fixnum_or_false (signed greatest +ℤ signed minus_five)
o_fixnum_plus_lem_example =
    o_fixnum_plus_lem greatest minus_five greatest-IsFixnum minus_five-IsFixnum

o_fixnum_times_lem_example :
    o_fixnum_times (fix_word greatest) (fix_word minus_five)
    ≡ fixnum_or_false (signed greatest *ℤ signed minus_five)
o_fixnum_times_lem_example =
    o_fixnum_times_lem greatest minus_five greatest-IsFixnum minus_five-IsFixnum

o_fixnum_quotient_lem_example : o_fixnum_quotient (fix_word greatest) (fix_word minus_five) ≡ (
    if minus_five == 0
    then division_by_zero
    else answer (fixnum_or_false (truncate (signed greatest) (signed minus_five))))
o_fixnum_quotient_lem_example =
    o_fixnum_quotient_lem greatest minus_five greatest-IsFixnum minus_five-IsFixnum

o_fixnum_bitwise_lem_example :
    ((o_fixnum_and (fix_word greatest) (fix_word minus_five)
        ≡ some (fix_word (bit_and greatest minus_five)))
      × IsFixnum (bit_and greatest minus_five))
    × ((o_fixnum_ior (fix_word greatest) (fix_word minus_five)
          ≡ some (fix_word (bit_or greatest minus_five)))
        × IsFixnum (bit_or greatest minus_five))
    × ((o_fixnum_xor (fix_word greatest) (fix_word minus_five)
          ≡ some (fix_word (bit_xor greatest minus_five)))
        × IsFixnum (bit_xor greatest minus_five))
o_fixnum_bitwise_lem_example =
    o_fixnum_bitwise_lem greatest minus_five greatest-IsFixnum minus_five-IsFixnum
