-- ===== src/Bignum/Simplify.antt =====
-- C_bignum_simplify: the number and the form of its result.
use chicken_core_mirror.Prelude.{
  ℕ, ◌+◌, ◌*◌, ◌^◌, ◌≤◌, ◌≡◌, ◌≢◌, List, [], ◌∷◌, Bool, true, false, to_nat, ◌==◌, arith, refl, inl,
  inr, Bool-cases,
}
use chicken_core_mirror.Prelude.Int.{signed_magnitude}
use chicken_core_mirror.Word.{IsWord, fits_in_fixnum, ufits_in_fixnum}
use chicken_core_mirror.Digits.{magnitude, AreDigits, IsTrimmed}
use chicken_core_mirror.Bignum.{
  IsInteger, value, drop_zero, trim, one_digit_fits, simplify_trimmed, bignum_simplify,
}

drop_zero_lem :
    (d : ℕ) (ds : List ℕ)
    → IsWord d
    → AreDigits ds
    → IsTrimmed ds
    → (magnitude (drop_zero d ds) ≡ d + 2 ^ 64 * magnitude ds)
      × AreDigits (drop_zero d ds)
      × IsTrimmed (drop_zero d ds)
unfolding drop_zero
drop_zero_lem d (e ∷ ds) hd h t = (refl, (hd, h), t)
drop_zero_lem d [] hd h t = elim (Bool-cases (d == 0)) [
  | inl e ↦ rw e (ground arith, tt, tt)
  | inr e ↦ rw e (omega arith, (hd, tt), ground arith)
]

pub trim_lem :
    (ds : List ℕ)
    → AreDigits ds
    → (magnitude (trim ds) ≡ magnitude ds) × AreDigits (trim ds) × IsTrimmed (trim ds)
unfolding trim
trim_lem [] h = (refl, tt, tt)
trim_lem (d ∷ ds) (hd, h) =
    let (value, digits, trimmed) = trim_lem ds h in
    let (value', digits', trimmed') = drop_zero_lem d (trim ds) hd digits trimmed in
    (omega (arith, value, value'), digits', trimmed')

simplify_one :
    (negp : Bool) (d : ℕ)
    → IsWord d
    → d ≢ 0
    → IsInteger (simplify_trimmed negp (d ∷ []))
      × (value (simplify_trimmed negp (d ∷ [])) ≡ signed_magnitude negp (magnitude (d ∷ [])))
unfolding simplify_trimmed fits_in_fixnum ufits_in_fixnum
simplify_one true d hd nz = elim (Bool-cases (one_digit_fits true d)) [
  | inl e ↦ rw e (unfold one_digit_fits in ((ground arith, ground arith), ground arith))
  | inr e ↦ rw e (((hd, tt), nz, unfold one_digit_fits in ground arith), refl)
]
simplify_one false d hd nz = elim (Bool-cases (one_digit_fits false d)) [
  | inl e ↦ rw e (unfold one_digit_fits in ((hd, ground arith), ground arith))
  | inr e ↦ rw e (((hd, tt), nz, unfold one_digit_fits in ground arith), refl)
]

-- Two digits or more are out of fixnum range.
two_digits : (d e : ℕ) (ds : List ℕ) → IsTrimmed (e ∷ ds) → 2 ^ 64 ≤ magnitude (d ∷ e ∷ ds)
two_digits d e [] t = omega arith
two_digits d e (f ∷ ds) t = omega (arith, two_digits e f ds t)

simplify_trimmed_lem :
    (negp : Bool) (ds : List ℕ)
    → AreDigits ds
    → IsTrimmed ds
    → IsInteger (simplify_trimmed negp ds)
      × (value (simplify_trimmed negp ds) ≡ signed_magnitude negp (magnitude ds))
simplify_trimmed_lem negp (d ∷ []) (hd, _) t = simplify_one negp d hd t
simplify_trimmed_lem true [] h t =
    unfold simplify_trimmed fits_in_fixnum in ((omega arith, refl), refl)
simplify_trimmed_lem false [] h t =
    unfold simplify_trimmed fits_in_fixnum in ((omega arith, refl), refl)
simplify_trimmed_lem negp (d ∷ e ∷ ds) h t = unfold simplify_trimmed in ((h, t, top negp), refl)
  where
    top : (n : Bool) → 2 ^ 62 + to_nat n ≤ magnitude (d ∷ e ∷ ds)
    top true = omega (arith, two_digits d e ds t)
    top false = omega (arith, two_digits d e ds t)

-- C_bignum_simplify on any sign and any digits, zeros on top included, gives the well-formed
-- integer of that sign and magnitude: a fixnum where it fits one, and otherwise a bignum whose top
-- digit is not zero.
pub bignum_simplify_lem :
    (negp : Bool) (ds : List ℕ)
    → AreDigits ds
    → IsInteger (bignum_simplify negp ds)
      × (value (bignum_simplify negp ds) ≡ signed_magnitude negp (magnitude ds))
unfolding bignum_simplify
bignum_simplify_lem negp ds h =
    let (same, digits, trimmed) = trim_lem ds h in
    rw (← same) (simplify_trimmed_lem negp (trim ds) digits trimmed)
