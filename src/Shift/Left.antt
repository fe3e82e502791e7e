-- ===== src/Shift/Left.antt =====
-- The arithmetic shift to the left.
use chicken_core_mirror.Prelude.{
  ℕ, zero, suc, ◌+◌, ◌-◌, ◌*◌, ◌/◌, ◌%◌, ◌^◌, ◌<◌, ◌≤◌, ◌≡◌, List, [], ◌∷◌, ◌++◌, Bool, true, false,
  ◌&&◌, ◌==◌, ltb, if◌then◌else◌, replicate, All-append, arith, refl, ap, ◌∙◌, inl, inr, Bool-cases,
}
use chicken_core_mirror.Prelude.Int.{pos, signs_multiply, signed_magnitude, ◌*ℤ◌}
use native.Mathlib.Nat.{one-le-pow, zero-div, mul_assoc, mul-le-mul_right, pow-le-pow_right}
use chicken_core_mirror.Word.{IsWord, word_base, signed, ilen, fits_in_fixnum}
use chicken_core_mirror.Word.Length.{two_pow_add, ilen_bounds}
use chicken_core_mirror.Digits.{magnitude, AreDigits, shift_left}
use chicken_core_mirror.Digits.Arrays.{magnitude-append_zero}
use chicken_core_mirror.Digits.Shifts.{shift_left_lem}
use chicken_core_mirror.Bignum.{Integer, fix, big, IsInteger, value, fix_to_big}
use chicken_core_mirror.Bignum.Simplify.{bignum_simplify_lem}
use chicken_core_mirror.Bignum.Values.{to_big_lem}
use chicken_core_mirror.Shift.{shift_digits_left, bignum_shift_left, shift_left_by}

-- Zeros below the digits.
magnitude-zeros :
    (n : ℕ) (ds : List ℕ) → magnitude (replicate n 0 ++ ds) ≡ magnitude ds * 2 ^ (64 * n)
magnitude-zeros zero ds = omega arith
magnitude-zeros (suc n) ds =
    let e : 64 * suc n ≡ 64 + 64 * n = omega arith in
    rw (e, two_pow_add 64 (64 * n)) (omega (arith, magnitude-zeros n ds))

zeros-AreDigits : (n : ℕ) → AreDigits (replicate n 0)
zeros-AreDigits zero = tt
zeros-AreDigits (suc n) = (omega arith, zeros-AreDigits n)

-- The zero on top takes up the last carry.
last_carry : (ds : List ℕ) (k c : ℕ) → (shift_left (ds ++ 0 ∷ []) k c).1 ≡ 0
unfolding shift_left
last_carry [] k c = zero-div (2 ^ (64 - k))
last_carry (d ∷ ds) k c = last_carry ds k (d / 2 ^ (64 - k))

shifted_digits :
    (ds : List ℕ) (k : ℕ)
    → AreDigits ds
    → k < 64
    → let s = (shift_left (ds ++ 0 ∷ []) k 0).0 in
      (magnitude s ≡ magnitude ds * 2 ^ k) × AreDigits s
shifted_digits ds k h hk =
    let all = All-append IsWord ds (0 ∷ []) h (omega arith, tt) in
    let (value, digits, last, len) =
      shift_left_lem (ds ++ 0 ∷ []) k 0 all hk (one-le-pow k 2 (omega arith)) in
    let s = (shift_left (ds ++ 0 ∷ []) k 0).0 in
    let whole =
      rw (last_carry ds k 0, magnitude-append_zero s, magnitude-append_zero ds) at value in
    (omega (arith, whole), digits)

moved_digits :
    (ds : List ℕ) (y : ℕ)
    → AreDigits ds
    → let digits = ds ++ 0 ∷ [] in
      let s = if ltb 0 (y % 64) then (shift_left digits (y % 64) 0).0 else digits in
      (magnitude s ≡ magnitude ds * 2 ^ (y % 64)) × AreDigits s
moved_digits ds y h = elim (Bool-cases (ltb 0 (y % 64))) [
  | inl e ↦ rw e (shifted_digits ds (y % 64) h (omega arith))
  | inr e ↦
      let no_bits : y % 64 ≡ 0 = ground arith in
      rw e (
        rw (no_bits, magnitude-append_zero ds) (omega arith),
        All-append IsWord ds (0 ∷ []) h (omega arith, tt),
      )
]

shift_digits_left_lem :
    (ds : List ℕ) (y : ℕ)
    → AreDigits ds
    → (magnitude (shift_digits_left ds y) ≡ magnitude ds * 2 ^ y)
      × AreDigits (shift_digits_left ds y)
unfolding shift_digits_left
shift_digits_left_lem ds y h =
    let (value, digits) = moved_digits ds y h in
    let e : y ≡ y % 64 + 64 * (y / 64) = omega arith in
    let split : 2 ^ y ≡ 2 ^ (y % 64) * 2 ^ (64 * (y / 64)) =
      ap (λ (t : ℕ). 2 ^ t) e ∙ two_pow_add (y % 64) (64 * (y / 64)) in
    let assoc = mul_assoc (magnitude ds) (2 ^ (y % 64)) (2 ^ (64 * (y / 64))) in
    (
      magnitude-zeros (y / 64) _ ∙ rw (value, split) assoc,
      All-append IsWord (replicate (y / 64) 0) _ (zeros-AreDigits (y / 64)) digits,
    )

signed_magnitude-mul :
    (n : Bool) (m p : ℕ) → signed_magnitude n (m * p) ≡ signed_magnitude n m *ℤ pos p
signed_magnitude-mul true m p = signs_multiply true false m p
signed_magnitude-mul false m p = signs_multiply false false m p

bignum_shift_left_lem :
    (n : Bool) (ds : List ℕ) (y : ℕ)
    → AreDigits ds
    → IsInteger (bignum_shift_left n ds y)
      × (value (bignum_shift_left n ds y) ≡ signed_magnitude n (magnitude ds) *ℤ pos (2 ^ y))
unfolding bignum_shift_left
bignum_shift_left_lem n ds y h =
    let (same, digits) = shift_digits_left_lem ds y h in
    rw (← signed_magnitude-mul n (magnitude ds) (2 ^ y), ← same)
      (bignum_simplify_lem n (shift_digits_left ds y) digits)

-- `n` has so few bits that the shifted number stays in fixnum range.
short_shift : (n y : ℕ) → IsWord n → ilen n + y < 62 → (n * 2 ^ y < 2 ^ 62) × (n < 2 ^ 62)
short_shift n y h l =
    let (below, above) = ilen_bounds n h in
    let wide : suc n * 2 ^ y ≤ 2 ^ ilen n * 2 ^ y = mul-le-mul_right (2 ^ y) below in
    let total : 2 ^ (ilen n + y) ≤ 2 ^ 62 = pow-le-pow_right (omega arith) {j = 62} (omega arith) in
    let one : 1 ≤ 2 ^ y = one-le-pow y 2 (omega arith) in
    let self : 2 ^ ilen n ≤ 2 ^ 62 = pow-le-pow_right (omega arith) {j = 62} (omega arith) in
    (omega (arith, wide, total, one, two_pow_add (ilen n) y), omega (arith, below, self))

short_fixnum :
    (n y : ℕ)
    → IsWord n
    → ilen n + y < 62
    → IsInteger (fix (n * 2 ^ y % word_base))
      × (value (fix (n * 2 ^ y % word_base)) ≡ signed n *ℤ pos (2 ^ y))
unfolding fits_in_fixnum
short_fixnum n y h l =
    let (small, self) = short_shift n y h l in
    let whole : n * 2 ^ y % word_base ≡ n * 2 ^ y = omega arith in
    let positive : signed n ≡ pos n = ground arith in
    let positive' : signed (n * 2 ^ y) ≡ pos (n * 2 ^ y) = ground arith in
    rw (whole, positive)
      ((omega arith, ground arith), positive' ∙ signed_magnitude-mul false n (2 ^ y))

-- C_s_a_i_arithmetic_shift by y to the left multiplies a well-formed integer by 2 ^ y and leaves a
-- well-formed integer, whatever the sign and the amount.
pub shift_left_by_lem :
    (x : Integer) (y : ℕ)
    → IsInteger x
    → IsInteger (shift_left_by x y) × (value (shift_left_by x y) ≡ value x *ℤ pos (2 ^ y))
unfolding shift_left_by
shift_left_by_lem (big n ds) y (h, t, m) = bignum_shift_left_lem n ds y h
shift_left_by_lem (fix n) y (h, f) = elim (Bool-cases (n == 0)) [
  | inl e ↦
      let zero_word : n ≡ 0 = ground arith in
      let nothing = signed_magnitude-mul false 0 (2 ^ y) in
      rw (e, zero_word)
        ((omega arith, unfold fits_in_fixnum in refl), ap pos (omega arith) ∙ nothing)
  | inr e ↦ elim (Bool-cases (ltb y 62 && ltb (ilen n + y) 62)) [
    | inl short ↦ rw (e, short) (short_fixnum n y h (ground arith))
    | inr long ↦
        let ((digits, _), same) = to_big_lem (fix n) (h, f) in
        rw (e, long, ← same) (bignum_shift_left_lem (fix_to_big n).0 (fix_to_big n).1 y digits)
  ]
]
