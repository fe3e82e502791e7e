-- ===== src/Bignum/Negation.antt =====
-- C_s_a_u_i_integer_negate and C_s_a_u_i_integer_abs.
use chicken_core_mirror.Prelude.{
  ℕ, ◌+◌, ◌^◌, ◌<◌, ◌≡◌, List, [], ◌∷◌, Bool, true, false, not, ◌==◌, arith, refl, ◌∙◌, inl, inr,
  Bool-cases,
}
use chicken_core_mirror.Prelude.Int.{ℤ, pos, pos_part, neg_part, ◌-ℤ◌, signed_magnitude}
use chicken_core_mirror.Word.{sign_bit, fits_in_fixnum, ufits_in_fixnum, most_negative_fixnum}
use chicken_core_mirror.Digits.{magnitude}
use chicken_core_mirror.Bignum.{
  Integer, fix, big, IsInteger, value, negated_fits_in_fixnum, integer_negate, integer_abs,
}
use chicken_core_mirror.Bignum.Values.{magnitude-positive}
use chicken_core_mirror.Bignum.Simplify.{bignum_simplify_lem}

pub negate_magnitude :
    (n : Bool) (m : ℕ) → signed_magnitude (not n) m ≡ pos 0 -ℤ signed_magnitude n m
unfolding ◌-ℤ◌
negate_magnitude true m = ground arith
negate_magnitude false m = ground arith

-- The one bignum whose negation is a fixnum.
pub negated_fits :
    (n : Bool) (ds : List ℕ)
    → IsInteger (big n ds)
    → negated_fits_in_fixnum n ds ≡ true
    → (n ≡ false) × (magnitude ds ≡ 2 ^ 62)
unfolding negated_fits_in_fixnum fits_in_fixnum ufits_in_fixnum
negated_fits n [] h e = absurd (cc)
negated_fits true (d ∷ []) ((hd, _), t, m) e = absurd (ground arith)
negated_fits false (d ∷ []) ((hd, _), t, m) e = (refl, ground arith)
negated_fits n (d ∷ f ∷ ds) h e = absurd (cc)

pub negated_too_large :
    (n : Bool) (ds : List ℕ)
    → IsInteger (big n ds)
    → negated_fits_in_fixnum n ds ≡ false
    → 2 ^ 62 < magnitude ds
unfolding negated_fits_in_fixnum fits_in_fixnum ufits_in_fixnum
negated_too_large true ds (h, t, m) e = omega (arith, m)
negated_too_large false [] (h, t, m) e = absurd (omega (arith, m))
negated_too_large false (d ∷ []) ((hd, _), t, m) e = ground arith
negated_too_large false (d ∷ f ∷ ds) ((hd, (hf, h)), t, m) e =
    ground (arith, magnitude-positive f ds t)

-- C_s_a_u_i_integer_negate on a well-formed integer gives the well-formed integer of the other
-- sign, the two numbers at the lower end of the fixnums included.
pub integer_negate_lem :
    (x : Integer)
    → IsInteger x
    → IsInteger (integer_negate x) × (value (integer_negate x) ≡ pos 0 -ℤ value x)
unfolding integer_negate
integer_negate_lem (fix x) (hx, fx) =
    unfold ◌-ℤ◌ fits_in_fixnum in
    elim (Bool-cases (x == most_negative_fixnum)) [
      | inl e ↦ rw e (((omega arith, tt), omega arith, omega arith), ground arith)
      | inr e ↦ rw e ((ground arith, ground arith), ground arith)
    ]
integer_negate_lem (big n ds) (h, t, m) = elim (Bool-cases (negated_fits_in_fixnum n ds)) [
  | inl e ↦
      let (positive, exact) = negated_fits n ds (h, t, m) e in
      rw (e, positive, exact) (unfold ◌-ℤ◌ fits_in_fixnum in ((omega arith, refl), refl))
  | inr e ↦ rw (e, ← negate_magnitude n (magnitude ds)) (bignum_simplify_lem (not n) ds h)
]

-- The magnitude of an integer.
abbrev abs : ℤ → ℤ
abs z = pos (pos_part z + neg_part z)

-- C_s_a_u_i_integer_abs on a well-formed integer gives its well-formed absolute value.
pub integer_abs_lem :
    (x : Integer)
    → IsInteger x
    → IsInteger (integer_abs x)
      × (value (integer_abs x) ≡ pos (pos_part (value x) + neg_part (value x)))
unfolding integer_abs
integer_abs_lem (fix x) (hx, fx) = elim (Bool-cases (sign_bit x)) [
  | inl e ↦
      let (ok, v) = integer_negate_lem (fix x) (hx, fx) in
      rw e (ok, v ∙ unfold ◌-ℤ◌ in ground arith)
  | inr e ↦ rw e ((hx, fx), ground arith)
]
integer_abs_lem (big true ds) h =
    let (ok, v) = integer_negate_lem (big true ds) h in (ok, v ∙ unfold ◌-ℤ◌ in ground arith)
integer_abs_lem (big false ds) h = (h, ground arith)
