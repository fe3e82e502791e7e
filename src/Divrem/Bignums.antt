-- ===== src/Divrem/Bignums.antt =====
-- bignum_divrem and bignum_divide_unsigned against the division of integers.
use chicken_core_mirror.Prelude.{
  ℕ, zero, suc, ◌+◌, ◌-◌, ◌/◌, ◌%◌, ◌^◌, ◌<◌, ◌≤◌, ◌≡◌, List, Option, none, some, Bool, true, false,
  not, if◌then◌else◌, length, length-replicate, ltb, ◌&&◌, replicate, Yields, Yields-bind, arith,
  refl, ◌∙◌, inl, inr, Bool-cases, ◌⊎◌,
}
use chicken_core_mirror.Prelude.Int.{signed_magnitude}
use chicken_core_mirror.Word.{word_base, fits_in_fixnum}
use chicken_core_mirror.Digits.{magnitude, AreDigits, IsTrimmed, cmp_unsigned}
use chicken_core_mirror.Digits.Order.{cmp_unsigned-eq-compare}
use chicken_core_mirror.Bignum.{Integer, fix, big, IsInteger, value}
use chicken_core_mirror.Bignum.Simplify.{bignum_simplify_lem}
use chicken_core_mirror.Divide.Small.{remainder_of}
use chicken_core_mirror.Shift.Floor.{quotient_of}
use chicken_core_mirror.LongDivision.{divide_unsigned, uninitialized}
use chicken_core_mirror.LongDivision.Full.{IsDivision, divide_full_lem}
use chicken_core_mirror.Divrem.{
  Divide, burnikel_ziegler_threshold, divide_schoolbook, divide_larger, bignum_divrem,
}
use chicken_core_mirror.Divrem.Signs.{AreDivrem, by_signs}
use Prim.Native.Nat.{compare, Ordering}
use native.Mathlib.Nat.{div-eq_of_lt, mod-eq_of_lt}

-- The lengths in half digits, with one digit more, are an `int`.
abbrev pub FitsInt : List ℕ → Type 0
FitsInt x = length x + 1 < 2 ^ 30

-- A correct division of the bignums that are left to it.
abbrev pub IsDivide : Divide → Type 0
IsDivide divide =
    (m n : Bool) (x y : List ℕ)
    → IsInteger (big m x)
    → IsInteger (big n y)
    → magnitude y < magnitude x
    → burnikel_ziegler_threshold < length y
    → FitsInt x
    → Yields (divide (big m x) (big n y))
        (AreDivrem (signed_magnitude m (magnitude x)) (signed_magnitude n (magnitude y)))

abbrev pub IsRoom : Option Divide → Type 0
IsRoom none = Unit
IsRoom (some divide) = IsDivide divide

-- A division that is correct on two bignums that are left to it.
abbrev pub IsCorrectOn : Option Divide → Bool → Bool → List ℕ → List ℕ → Type 0
IsCorrectOn none m n x y = Unit
IsCorrectOn (some divide) m n x y =
    magnitude y < magnitude x
    → burnikel_ziegler_threshold < length y
    → burnikel_ziegler_threshold < length x - length y
    → Yields (divide (big m x) (big n y))
        (AreDivrem (signed_magnitude m (magnitude x)) (signed_magnitude n (magnitude y)))

all_ones : (n : ℕ) → AreDigits (replicate n (word_base - 1))
all_ones zero = tt
all_ones (suc n) = (omega arith, all_ones n)

pub not_longer : (x y : List ℕ) → cmp_unsigned x y ≡ Ordering.gt → length y ≤ length x
unfolding cmp_unsigned
not_longer x y h = elim (Bool-cases (ltb (length x) (length y))) [
  | inl e ↦ absurd (ground arith)
  | inr e ↦ ground arith
]

pub divide_schoolbook_lem :
    (m n : Bool) (x y : List ℕ)
    → AreDigits x
    → AreDigits y
    → IsTrimmed y
    → 2 ^ 32 ≤ magnitude y
    → length y ≤ length x
    → FitsInt x
    → Yields
        (divide_schoolbook (m, x) (n, y) (if m then not n else n))
        (AreDivrem (signed_magnitude m (magnitude x)) (signed_magnitude n (magnitude y)))
unfolding divide_schoolbook divide_unsigned
divide_schoolbook_lem m n x y hx hy t large l int =
    Yields-bind _ _
      (IsDivision (magnitude x) (magnitude y) (length (uninitialized (length x + 1 - length y)))
        (length x + 1))
      (AreDivrem (signed_magnitude m (magnitude x)) (signed_magnitude n (magnitude y)))
      (divide_full_lem x y (uninitialized (length x + 1 - length y)) hx hy t large l
        (length-replicate (length x + 1 - length y) (word_base - 1)) int)
      λ s (total, low, hq, hr, _, _).
        let quotient =
          quotient_of (magnitude s.0) (magnitude s.1) (magnitude y) (magnitude x) total low in
        let remainder =
          remainder_of (magnitude s.0) (magnitude s.1) (magnitude y) (magnitude x) total low in
        let (ok, v) = bignum_simplify_lem (if m then not n else n) s.0 hq in
        let (ok', v') = bignum_simplify_lem m s.1 hr in
        by_signs m n (magnitude x) (magnitude y) _ ok ok' (v ∙ rw quotient) (v' ∙ rw remainder)

sign_unit :
    (negp : Bool)
    → IsInteger (fix (if negp then word_base - 1 else 1))
      × (value (fix (if negp then word_base - 1 else 1)) ≡ signed_magnitude negp 1)
unfolding fits_in_fixnum
sign_unit true = ((omega arith, refl), refl)
sign_unit false = ((omega arith, refl), refl)

pub sign_nought : (negp : Bool) → IsInteger (fix 0) × (value (fix 0) ≡ signed_magnitude negp 0)
unfolding fits_in_fixnum
sign_nought true = ((omega arith, refl), refl)
sign_nought false = ((omega arith, refl), refl)

-- Two numbers of the same magnitude.
pub equal_lem :
    (m n : Bool) (a b : ℕ)
    → a ≡ b
    → 0 < b
    → AreDivrem
        (signed_magnitude m a)
        (signed_magnitude n b)
        (fix (if (if m then not n else n) then word_base - 1 else 1), fix 0)
equal_lem m n a b e p =
    let one : a / b ≡ 1 = quotient_of 1 0 b a (omega arith) p in
    let nought : a % b ≡ 0 = remainder_of 1 0 b a (omega arith) p in
    let (ok, v) = sign_unit (if m then not n else n) in
    let (ok', v') = sign_nought m in
    by_signs m n a b (fix (if (if m then not n else n) then word_base - 1 else 1), fix 0) ok ok'
      (rw one v) (rw nought v')

-- A number below the divisor.
pub below_lem :
    (m n : Bool) (a b : ℕ) (x : Integer)
    → a < b
    → IsInteger x
    → value x ≡ signed_magnitude m a
    → AreDivrem (signed_magnitude m a) (signed_magnitude n b) (fix 0, x)
below_lem m n a b x l h v =
    let nought : a / b ≡ 0 = div-eq_of_lt l in
    let whole : a % b ≡ a = mod-eq_of_lt l in
    let (ok, v') = sign_nought (if m then not n else n) in
    by_signs m n a b (fix 0, x) ok h (rw nought v') (rw whole v)

compare_cases :
    (x y : List ℕ)
    → cmp_unsigned x y ≡ compare (magnitude x) (magnitude y)
    → ((cmp_unsigned x y ≡ Ordering.eq) × (magnitude x ≡ magnitude y))
      ⊎ ((cmp_unsigned x y ≡ Ordering.lt) × (magnitude x < magnitude y))
      ⊎ ((cmp_unsigned x y ≡ Ordering.gt) × (magnitude y < magnitude x))
compare_cases x y e = ground arith

-- The divisor is a bignum, or a fixnum that does not fit a half digit in one digit.
abbrev pub IsDivisor : List ℕ → Type 0
IsDivisor y = AreDigits y × IsTrimmed y × (2 ^ 32 ≤ magnitude y)

divide_larger_lem :
    (rec : Option Divide) (m n : Bool) (x y : List ℕ)
    → IsCorrectOn rec m n x y
    → FitsInt x
    → IsInteger (big m x)
    → IsDivisor y
    → magnitude y < magnitude x
    → length y ≤ length x
    → Yields
        (divide_larger rec (m, x) (n, y) (if m then not n else n))
        (AreDivrem (signed_magnitude m (magnitude x)) (signed_magnitude n (magnitude y)))
unfolding divide_larger
divide_larger_lem none m n x y room int hx (hy, ty, large) more l =
    divide_schoolbook_lem m n x y hx.0 hy ty large l int
divide_larger_lem (some divide) m n x y room int hx (hy, ty, large) more l =
    elim (Bool-cases (
      ltb burnikel_ziegler_threshold (length y)
      && ltb burnikel_ziegler_threshold (length x - length y))) [
        | inl e ↦
            let long : burnikel_ziegler_threshold < length y = ground arith in
            rw e (room more long (ground arith))
        | inr e ↦ rw e (divide_schoolbook_lem m n x y hx.0 hy ty large l int)
      ]

pub bignum_divrem_lem :
    (rec : Option Divide) (m n : Bool) (x y : List ℕ)
    → IsCorrectOn rec m n x y
    → FitsInt x
    → IsInteger (big m x)
    → IsDivisor y
    → Yields
        (bignum_divrem rec (m, x) (n, y))
        (AreDivrem (signed_magnitude m (magnitude x)) (signed_magnitude n (magnitude y)))
unfolding bignum_divrem
bignum_divrem_lem rec m n x y room int hx (hy, ty, large) =
    let order = cmp_unsigned-eq-compare x y hx.0 hy hx.1 ty in
    elim (compare_cases x y order) [
      | inl (e, same) ↦
          rw (bignum_divrem, e) (equal_lem m n (magnitude x) (magnitude y) same (omega arith))
      | inr (inl (e, less)) ↦
          rw (bignum_divrem, e) (below_lem m n (magnitude x) (magnitude y) (big m x) less hx refl)
      | inr (inr (e, more)) ↦
          rw (bignum_divrem, e)
            (divide_larger_lem rec m n x y room int hx (hy, ty, large) more (not_longer x y e))
    ]
