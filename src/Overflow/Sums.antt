-- ===== src/Overflow/Sums.antt =====
-- C_i_o_fixnum_plus and C_i_o_fixnum_difference against the sum and the difference of integers.
use chicken_core_mirror.Prelude.{
  ℕ, ◌*◌, ◌≤◌, ltb, ◌⊎◌, ◌^◌, ◌<◌, ◌≡◌, Option, none, some, not, ◌||◌, arith, if◌then◌else◌,
  Bool-cases, inl, inr,
}
use chicken_core_mirror.Prelude.Int.{◌+ℤ◌, ◌-ℤ◌}
use chicken_core_mirror.Word.{IsWord, signed, fix_word, fits_in_fixnum, add_word, sub_word}
use chicken_core_mirror.Word.Fixnums.{unfix_word-fix_word, fits_in_fixnum_iff}
use chicken_core_mirror.Bignum.Values.{signed-add_word, signed-sub_word}
use chicken_core_mirror.Overflow.{
  IsFixnum, checked, on_fixnums, leaves_both, leaves_first, o_fixnum_plus, o_fixnum_difference,
  fixnum_or_false,
}

-- On two fixnums the tests of the tags pass, and the tags are taken off.
pub on_fixnums_lem :
    (a b : ℕ) (f : ℕ → ℕ → Option ℕ)
    → IsFixnum a
    → IsFixnum b
    → on_fixnums (fix_word a) (fix_word b) f ≡ f a b
unfolding on_fixnums
on_fixnums_lem a b f (ha, fa) (hb, fb) =
    let (ua, ta, wa) = unfix_word-fix_word a ha fa in
    let (ub, tb, wb) = unfix_word-fix_word b hb fb in rw (ta, tb, ua, ub)

-- The word of a fixnum is in the lowest or in the highest quarter.
quarters : (a : ℕ) → IsFixnum a → (a < 2 ^ 62) ⊎ ((3 * 2 ^ 62 ≤ a) × (a < 2 ^ 64))
unfolding fits_in_fixnum
quarters a (h, f) = elim (Bool-cases (ltb a (2 ^ 62))) [
  | inl e ↦ inl (ground arith)
  | inr e ↦ inr (ground arith)
]

-- The test of the range, as the two tests of a sum and a difference.
sum_test :
    (a b : ℕ)
    → IsFixnum a
    → IsFixnum b
    → (leaves_both (add_word a b) a b 62 || leaves_both (add_word a b) a b 63)
      ≡ not (fits_in_fixnum (add_word a b))
unfolding leaves_both
sum_test a b ha hb = elim (quarters a ha) [
  | inl l ↦ elim (quarters b hb) [
    | inl l' ↦ unfold fits_in_fixnum in ground arith
    | inr h' ↦ unfold fits_in_fixnum in ground arith
  ]
  | inr h ↦ elim (quarters b hb) [
    | inl l' ↦ unfold fits_in_fixnum in ground arith
    | inr h' ↦ unfold fits_in_fixnum in ground arith
  ]
]

-- The test of the range against the promise.
pub checked_lem : (s : ℕ) → IsWord s → checked s ≡ fixnum_or_false (signed s)
unfolding checked fits_in_fixnum
checked_lem s h = ground arith

difference_test :
    (a b : ℕ)
    → IsFixnum a
    → IsFixnum b
    → (leaves_first (sub_word a b) a b 62 || leaves_first (sub_word a b) a b 63)
      ≡ not (fits_in_fixnum (sub_word a b))
unfolding leaves_first
difference_test a b ha hb = elim (quarters a ha) [
  | inl l ↦ elim (quarters b hb) [
    | inl l' ↦ unfold fits_in_fixnum in ground arith
    | inr h' ↦ unfold fits_in_fixnum in ground arith
  ]
  | inr h ↦ elim (quarters b hb) [
    | inl l' ↦ unfold fits_in_fixnum in ground arith
    | inr h' ↦ unfold fits_in_fixnum in ground arith
  ]
]

-- The branch that a test of the range takes.
branch : (s : ℕ) → (if not (fits_in_fixnum s) then none else some (fix_word s)) ≡ checked s
unfolding checked
branch s = elim (Bool-cases (fits_in_fixnum s)) [ inl e ↦ rw e | inr e ↦ rw e ]

-- C_i_o_fixnum_plus on two fixnums gives the fixnum of their sum, or #f where the sum is no
-- fixnum.
pub o_fixnum_plus_lem :
    (a b : ℕ)
    → IsFixnum a
    → IsFixnum b
    → o_fixnum_plus (fix_word a) (fix_word b) ≡ fixnum_or_false (signed a +ℤ signed b)
unfolding o_fixnum_plus
o_fixnum_plus_lem a b ha hb =
    let same =
      signed-add_word a b ha.0 hb.0 ((fits_in_fixnum_iff a ha.0).0 ha.1)
        ((fits_in_fixnum_iff b hb.0).0 hb.1) in
    rw (on_fixnums_lem a b _ ha hb, sum_test a b ha hb, branch (add_word a b), ← same)
      (checked_lem (add_word a b) (omega arith))

-- C_i_o_fixnum_difference on two fixnums gives the fixnum of their difference, or #f where the
-- difference is no fixnum.
pub o_fixnum_difference_lem :
    (a b : ℕ)
    → IsFixnum a
    → IsFixnum b
    → o_fixnum_difference (fix_word a) (fix_word b) ≡ fixnum_or_false (signed a -ℤ signed b)
unfolding o_fixnum_difference
o_fixnum_difference_lem a b ha hb =
    let same =
      signed-sub_word a b ha.0 hb.0 ((fits_in_fixnum_iff a ha.0).0 ha.1)
        ((fits_in_fixnum_iff b hb.0).0 hb.1) in
    rw (on_fixnums_lem a b _ ha hb, difference_test a b ha hb, branch (sub_word a b), ← same)
      (checked_lem (sub_word a b) (omega arith))
