-- ===== src/Shift/Floor.antt =====
-- The arithmetic shift to the right, of fixnums and of positive bignums.
use chicken_core_mirror.Prelude.{
  ℕ, zero, suc, ◌+◌, ◌-◌, ◌*◌, ◌/◌, ◌%◌, ◌^◌, ◌<◌, ◌≤◌, ◌≡◌, List, [], ◌∷◌, true, false, ◌==◌, ltb,
  leb, if◌then◌else◌, length, drop, arith, refl, sym, ap, ◌∙◌, inl, inr, Bool-cases,
}
use chicken_core_mirror.Prelude.Int.{pos, negsuc}
use chicken_core_mirror.Word.{IsWord, sign_bit, signed, fits_in_fixnum}
use chicken_core_mirror.Word.Length.{two_pow_add}
use chicken_core_mirror.Digits.{magnitude, AreDigits, shift_right}
use chicken_core_mirror.Digits.Shifts.{shift_right_lem}
use chicken_core_mirror.Bignum.{Integer, fix, big, IsInteger, value}
use chicken_core_mirror.Bignum.Simplify.{bignum_simplify_lem}
use chicken_core_mirror.Shift.{
  all_out, shift_right_word, shift_right_by, bignum_shift_right, shift_digits_right,
}
use chicken_core_mirror.Shift.Ones.{floor_shift, magnitude-lt, take_all, power_suc}
use native.Mathlib.Nat.{
  zero-div, mod-lt, div-le_self, div-add-mod', div-lt_iff_lt-mul, one-le-pow, pow-le-pow_right,
  div-eq_of_lt, div-div-eq-div-mul, add-mul-div_right,
}

-- A remainder below the divisor does not show in the quotient.
pub quotient_of : (q r p m : ℕ) → q * p + r ≡ m → r < p → m / p ≡ q
quotient_of q r p m e h =
    let flip : m ≡ r + q * p = omega arith in
    let none_left : r / p ≡ 0 = div-eq_of_lt h in
    let positive : 0 < p = omega arith in
    rw (flip, add-mul-div_right r q positive, none_left) (omega arith)

pub magnitude-drop :
    (n : ℕ) (ds : List ℕ)
    → AreDigits ds
    → (magnitude (drop n ds) ≡ magnitude ds / 2 ^ (64 * n))
      × AreDigits (drop n ds)
      × (length (drop n ds) ≡ length ds - n)
magnitude-drop zero ds h = (omega arith, h, omega arith)
magnitude-drop (suc n) [] h = (sym (zero-div (2 ^ (64 * suc n))), tt, omega arith)
magnitude-drop (suc n) (d ∷ ds) (hd, h) =
    let (value, digits, len) = magnitude-drop n ds h in
    let first : (d + 2 ^ 64 * magnitude ds) / 2 ^ 64 ≡ magnitude ds = omega arith in
    let both : (d + 2 ^ 64 * magnitude ds) / 2 ^ 64 / 2 ^ (64 * n)
        ≡ (d + 2 ^ 64 * magnitude ds) / (2 ^ 64 * 2 ^ (64 * n)) =
      div-div-eq-div-mul (d + 2 ^ 64 * magnitude ds) (2 ^ 64) (2 ^ (64 * n)) in
    (value ∙ sym (rw (power_suc n, ← both, first)), digits, omega (arith, len))

moved_digits :
    (ds : List ℕ) (b : ℕ)
    → AreDigits ds
    → b < 64
    → let s = if ltb 0 b then (shift_right ds b false).0 else ds in
      (magnitude s ≡ magnitude ds / 2 ^ b) × AreDigits s
moved_digits ds b h hb = elim (Bool-cases (ltb 0 b)) [
  | inl e ↦
      let (value, digits, small, len) = shift_right_lem ds b h (ground arith) hb in
      rw e (sym (quotient_of _ _ (2 ^ b) (magnitude ds) value small), digits)
  | inr e ↦ let no_bits : b ≡ 0 = ground arith in rw (e, no_bits) (omega arith, h)
]

shift_digits_right_lem :
    (ds : List ℕ) (y : ℕ)
    → AreDigits ds
    → (magnitude (shift_digits_right false ds y) ≡ magnitude ds / 2 ^ y)
      × AreDigits (shift_digits_right false ds y)
unfolding shift_digits_right
shift_digits_right_lem ds y h =
    let (value, digits, len) = magnitude-drop (y / 64) ds h in
    let kept = take_all (length ds - y / 64) (drop (y / 64) ds) (omega (arith, len)) in
    let (moved, digits') = moved_digits (drop (y / 64) ds) (y % 64) digits (omega arith) in
    let e : 64 * (y / 64) + y % 64 ≡ y = omega arith in
    let split : 2 ^ (64 * (y / 64)) * 2 ^ (y % 64) ≡ 2 ^ y =
      sym (two_pow_add (64 * (y / 64)) (y % 64)) ∙ rw e in
    rw kept (
      moved
          ∙ rw (
            value,
            div-div-eq-div-mul (magnitude ds) (2 ^ (64 * (y / 64))) (2 ^ (y % 64)),
            split,
          ),
      digits',
    )

positive_shift :
    (ds : List ℕ) (y : ℕ)
    → AreDigits ds
    → IsInteger (bignum_shift_right false ds y)
      × (value (bignum_shift_right false ds y) ≡ pos (magnitude ds / 2 ^ y))
unfolding bignum_shift_right
positive_shift ds y h = elim (Bool-cases (leb (length ds * 64) y)) [
  | inl e ↦
      let wide : 2 ^ (64 * length ds) ≤ 2 ^ y =
        pow-le-pow_right (omega arith) {j = y} (ground arith) in
      let out : magnitude ds / 2 ^ y ≡ 0 = div-eq_of_lt (omega (arith, magnitude-lt ds h, wide)) in
      rw (e, out) ((omega arith, unfold fits_in_fixnum in refl), refl)
  | inr e ↦
      let (value, digits) = shift_digits_right_lem ds y h in
      rw (e, ← value) (bignum_simplify_lem false (shift_digits_right false ds y) digits)
]

negative_shift :
    (n y a : ℕ)
    → y < 64
    → n + 1 + a ≡ 2 ^ 64
    → n / 2 ^ y + (2 ^ y - 1) * 2 ^ (64 - y) + 1 + a / 2 ^ y ≡ 2 ^ 64
negative_shift n y a hy e =
    let s = 2 ^ y in
    let m = 2 ^ (64 - y) in
    let q = a / s in
    let width : y + (64 - y) ≡ 64 = omega arith in
    let both : s * m ≡ 2 ^ 64 = sym (two_pow_add y (64 - y)) ∙ rw width in
    let positive : 0 < s = one-le-pow y 2 (omega arith) in
    let split = div-add-mod' a s in
    let small : a % s < s = mod-lt a positive in
    let few : q < m = (div-lt_iff_lt-mul positive).1 (omega (arith, both)) in
    let product : (m - 1 - q) * s + (q * s + s) ≡ s * m =
      let sum : m ≡ m - 1 - q + q + 1 = omega arith in omega (arith, ap (λ (t : ℕ). s * t) sum) in
    let value : n / s ≡ m - 1 - q =
      quotient_of (m - 1 - q) (s - 1 - a % s) s n (omega (arith, product, both, split))
        (omega arith) in
    let top : (s - 1) * m + m ≡ s * m =
      let sum : s ≡ s - 1 + 1 = omega arith in omega (arith, ap (λ (t : ℕ). t * m) sum) in
    rw value (omega (arith, top, both, few))

-- `>>` of a C_word in fixnum range rounds down.
fixnum_shift :
    (n y : ℕ)
    → IsWord n
    → fits_in_fixnum n ≡ true
    → y < 64
    → IsInteger (fix (shift_right_word n y))
      × (signed (shift_right_word n y) ≡ floor_shift (signed n) y)
unfolding shift_right_word fits_in_fixnum
fixnum_shift n y h f hy = elim (Bool-cases (sign_bit n)) [
  | inl e ↦
      let a = 2 ^ 64 - 1 - n in
      let shifted = negative_shift n y a hy (omega arith) in
      let smaller : a / 2 ^ y ≤ a = div-le_self a (2 ^ y) in
      let minus : signed n ≡ negsuc a = ground arith in
      rw (e, minus) ((omega arith, ground arith), ground arith)
  | inr e ↦
      let smaller : n / 2 ^ y ≤ n = div-le_self n (2 ^ y) in
      let same : n / 2 ^ y + 0 ≡ n / 2 ^ y = omega arith in
      let plus : signed n ≡ pos n = ground arith in
      rw (e, plus, same) ((omega arith, ground arith), ground arith)
]

-- All bits of a fixnum are shifted out.
fixnum_out :
    (n y : ℕ)
    → IsWord n
    → fits_in_fixnum n ≡ true
    → 64 ≤ y
    → IsInteger (all_out (sign_bit n)) × (value (all_out (sign_bit n)) ≡ floor_shift (signed n) y)
unfolding fits_in_fixnum
fixnum_out n y h f hy =
    let wide : 2 ^ 64 ≤ 2 ^ y = pow-le-pow_right (omega arith) {j = y} hy in
    let none_left : n / 2 ^ y ≡ 0 = div-eq_of_lt (omega arith) in
    let none_left' : (2 ^ 64 - 1 - n) / 2 ^ y ≡ 0 = div-eq_of_lt (omega arith) in
    elim (Bool-cases (sign_bit n)) [
      | inl e ↦
          let minus : signed n ≡ negsuc (2 ^ 64 - 1 - n) = ground arith in
          rw (e, minus, none_left') ((omega arith, refl), refl)
      | inr e ↦
          let plus : signed n ≡ pos n = ground arith in
          rw (e, plus, none_left) ((omega arith, refl), refl)
    ]

-- What the theorem below is about: all but negative bignums.
abbrev pub IsShiftable : Integer → Type 0
IsShiftable (fix n) = Unit
IsShiftable (big negp ds) = negp ≡ false

-- C_s_a_i_arithmetic_shift by y to the right, of a fixnum or of a positive bignum, is well-formed
-- and rounds the quotient by 2 ^ y down.
pub shift_right_by_lem :
    (x : Integer) (y : ℕ)
    → IsInteger x
    → IsShiftable x
    → IsInteger (shift_right_by x y) × (value (shift_right_by x y) ≡ floor_shift (value x) y)
unfolding shift_right_by
shift_right_by_lem (big true ds) y h s = absurd (cc)
shift_right_by_lem (big false ds) y (h, _, _) s = positive_shift ds y h
shift_right_by_lem (fix n) y (h, f) s = elim (Bool-cases (n == 0)) [
  | inl e ↦
      let nought : n ≡ 0 = ground arith in
      rw (e, nought, zero-div (2 ^ y)) ((omega arith, unfold fits_in_fixnum in refl), refl)
  | inr e ↦ elim (Bool-cases (ltb y 64)) [
    | inl short ↦ rw (e, short) (fixnum_shift n y h f (ground arith))
    | inr long ↦ rw (e, long) (fixnum_out n y h f (ground arith))
  ]
]
