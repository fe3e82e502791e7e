-- ===== src/Bignum/Values.antt =====
-- The fixnum results, and a fixnum as a bignum.
use chicken_core_mirror.Prelude.{
  ℕ, ◌<◌, ◌≡◌, ◌==◌, List, [], ◌∷◌, Bool, false, arith, refl, inl, inr, Bool-cases,
}
use chicken_core_mirror.Prelude.Int.{ℤ, ◌+ℤ◌, ◌-ℤ◌, signed_magnitude}
use chicken_core_mirror.Word.{
  IsWord, signed, add_word, sub_word, fits_in_fixnum, abs_word, sign_bit,
}
use chicken_core_mirror.Word.Fixnums.{InFixnumRange}
use chicken_core_mirror.Digits.{magnitude, AreDigits, IsTrimmed}
use chicken_core_mirror.Bignum.{
  Integer, fix, big, IsInteger, value, fixnum_result, to_big, fix_to_big,
}

-- The arguments of the operations on bignums.
abbrev pub IsSigned : Bool × List ℕ → Type 0
IsSigned b = AreDigits b.1 × IsTrimmed b.1

abbrev pub signed_value : Bool × List ℕ → ℤ
signed_value b = signed_magnitude b.0 (magnitude b.1)

pub magnitude-positive : (d : ℕ) (ds : List ℕ) → IsTrimmed (d ∷ ds) → 0 < magnitude (d ∷ ds)
magnitude-positive d [] t = omega (arith, t)
magnitude-positive d (e ∷ ds) t = omega (arith, magnitude-positive e ds t)

fix_to_big_lem :
    (n : ℕ) → IsWord n → IsSigned (fix_to_big n) × (signed_value (fix_to_big n) ≡ signed n)
unfolding fix_to_big abs_word
fix_to_big_lem n w = elim (Bool-cases (n == 0)) [
  | inl e ↦ rw e ((tt, tt), ground arith)
  | inr e ↦ rw e (((ground arith, tt), ground arith), ground arith)
]

-- A fixnum other than 0 has one digit.
pub fix_to_big-one_digit : (n : ℕ) → (n == 0) ≡ false → fix_to_big n ≡ (sign_bit n, abs_word n ∷ [])
unfolding fix_to_big
fix_to_big-one_digit n e = rw e refl

-- An integer as a bignum is the same integer.
pub to_big_lem :
    (x : Integer) → IsInteger x → IsSigned (to_big x) × (signed_value (to_big x) ≡ value x)
to_big_lem (fix n) (w, f) = fix_to_big_lem n w
to_big_lem (big negp ds) (h, t, m) = ((h, t), refl)

-- Any word makes a well-formed integer: C_int_to_num, and the fast paths for fixnums.
pub fixnum_result_lem :
    (z : ℕ) → IsWord z → IsInteger (fixnum_result z) × (value (fixnum_result z) ≡ signed z)
unfolding fixnum_result
fixnum_result_lem z w = elim (Bool-cases (fits_in_fixnum z)) [
  | inl e ↦ rw e ((w, e), refl)
  | inr e ↦ rw e (
      unfold abs_word fits_in_fixnum in
      (((ground arith, tt), (λ h. ground arith), ground arith), ground arith))
]

-- The sum of two fixnums does not wrap.
pub signed-add_word :
    (x y : ℕ)
    → IsWord x
    → IsWord y
    → InFixnumRange (signed x)
    → InFixnumRange (signed y)
    → signed (add_word x y) ≡ signed x +ℤ signed y
unfolding ◌+ℤ◌
signed-add_word x y hx hy rx ry = ground arith

pub signed-sub_word :
    (x y : ℕ)
    → IsWord x
    → IsWord y
    → InFixnumRange (signed x)
    → InFixnumRange (signed y)
    → signed (sub_word x y) ≡ signed x -ℤ signed y
unfolding ◌-ℤ◌
signed-sub_word x y hx hy rx ry = ground arith
