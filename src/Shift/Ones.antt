-- ===== src/Shift/Ones.antt =====
-- The arithmetic shift to the right, of negative bignums with ones on top.
use chicken_core_mirror.Prelude.{
  ℕ, zero, suc, ◌+◌, ◌-◌, ◌*◌, ◌/◌, ◌%◌, ◌^◌, ◌<◌, ◌≤◌, ◌≡◌, List, [], ◌∷◌, ◌++◌, true, false, ◌==◌,
  leb, length, take, drop, replicate, length-append, length-replicate, arith, refl, ap, inl, inr,
  Bool-cases,
}
use chicken_core_mirror.Prelude.Int.{ℤ, pos, negsuc, signed_magnitude, sub_ℕ}
use chicken_core_mirror.Word.{not_word, add_word}
use chicken_core_mirror.Word.Length.{two_pow_add}
use chicken_core_mirror.Digits.{magnitude, AreDigits, negate_digits, complement}
use chicken_core_mirror.Bignum.{fix, big, value, bignum_simplify, trim}
use chicken_core_mirror.Shift.{
  shift_right_by, bignum_shift_right, shift_digits_right, negated_for_bitwise_op,
}
use mathlib.Core.List.{append_assoc}
use native.Mathlib.Nat.{div-eq_of_lt, add-mul-div_right, one-le-pow}

-- The integer below, of the quotient by a power of two.
abbrev pub floor_shift : ℤ → ℕ → ℤ
floor_shift (pos n) y = pos (n / 2 ^ y)
floor_shift (negsuc n) y = negsuc (n / 2 ^ y)

complement-all_ones : (n : ℕ) → complement (replicate n (2 ^ 64 - 1)) ≡ replicate n 0
unfolding complement
complement-all_ones zero = refl
complement-all_ones (suc n) = ap (λ (t : List ℕ). 0 ∷ t) (complement-all_ones n)

drop-complement :
    (low high : List ℕ) → drop (length low) (complement (low ++ high)) ≡ complement high
unfolding complement
drop-complement [] high = refl
drop-complement (d ∷ low) high = drop-complement low high

-- Above a digit that is not zero, negation is the complement.
drop-negate_digits :
    (low high : List ℕ)
    → AreDigits low
    → 0 < magnitude low
    → drop (length low) (negate_digits (low ++ high)) ≡ complement high
unfolding negate_digits
drop-negate_digits [] high h p = absurd (omega arith)
drop-negate_digits (d ∷ low) high (hd, h) p = elim (Bool-cases (add_word (not_word d) 1 == 0)) [
  | inl e ↦ rw e (drop-negate_digits low high h (ground arith))
  | inr e ↦ rw e (drop-complement low high)
]

negate-zeros : (n : ℕ) → negate_digits (replicate n 0) ≡ replicate n 0
unfolding negate_digits
negate-zeros zero = refl
negate-zeros (suc n) = ap (λ (t : List ℕ). 0 ∷ t) (negate-zeros n)

trim-zeros : (n : ℕ) → trim (replicate n 0) ≡ []
unfolding trim
trim-zeros zero = refl
trim-zeros (suc n) = rw (trim-zeros n)

pub power_suc : (n : ℕ) → 2 ^ (64 * suc n) ≡ 2 ^ 64 * 2 ^ (64 * n)
power_suc n = let e : 64 * suc n ≡ 64 + 64 * n = omega arith in rw e (two_pow_add 64 (64 * n))

abbrev ones : ℕ → List ℕ
ones n = replicate n (2 ^ 64 - 1)

magnitude-ones :
    (low : List ℕ) (n : ℕ)
    → magnitude (low ++ ones n) + 2 ^ (64 * length low)
      ≡ magnitude low + 2 ^ (64 * length low) * 2 ^ (64 * n)
magnitude-ones [] zero = refl
magnitude-ones [] (suc n) = omega (arith, magnitude-ones [] n, power_suc n)
magnitude-ones (d ∷ low) n = omega (
  arith,
  magnitude-ones low n,
  power_suc (length low),
  ap (λ (t : ℕ). t * 2 ^ (64 * n)) (power_suc (length low)),
)

pub take_all : (n : ℕ) (xs : List ℕ) → length xs ≤ n → take n xs ≡ xs
take_all zero [] h = refl
take_all (suc n) [] h = refl
take_all zero (x ∷ xs) h = absurd (omega arith)
take_all (suc n) (x ∷ xs) h = ap (λ (t : List ℕ). x ∷ t) (take_all n xs (omega arith))

take-complement-ones :
    (n : ℕ) (rest : List ℕ) → take n (complement (ones n ++ rest)) ≡ replicate n 0
unfolding complement
take-complement-ones zero rest = refl
take-complement-ones (suc n) rest = ap (λ (t : List ℕ). 0 ∷ t) (take-complement-ones n rest)

pub magnitude-lt : (ds : List ℕ) → AreDigits ds → magnitude ds < 2 ^ (64 * length ds)
magnitude-lt [] h = omega arith
magnitude-lt (d ∷ ds) (hd, h) = omega (arith, magnitude-lt ds h, power_suc (length ds))

-- The quotient of `- (l + p * k - p)` by `p`, for `0 < l < p`.
floor_of_minus :
    (m l k y : ℕ)
    → 0 < l
    → l < 2 ^ y
    → 0 < k
    → m + 2 ^ y ≡ l + 2 ^ y * k
    → floor_shift (sub_ℕ 0 m) y ≡ sub_ℕ 0 k
floor_of_minus m zero k y hl lp hk e = absurd (omega arith)
floor_of_minus m (suc l) zero y hl lp hk e = absurd (omega arith)
floor_of_minus zero (suc l) (suc k) y hl lp hk e = absurd (omega arith)
floor_of_minus (suc m) (suc l) (suc k) y hl lp hk e =
    let split : m ≡ l + k * 2 ^ y = omega arith in
    let below : l / 2 ^ y ≡ 0 = div-eq_of_lt (omega arith) in
    let quotient : m / 2 ^ y ≡ k =
      rw (split, add-mul-div_right l k (one-le-pow y 2 (omega arith)), below) (omega arith) in
    let sign : sub_ℕ 0 (suc m) ≡ negsuc m = ground arith in
    let sign' : sub_ℕ 0 (suc k) ≡ negsuc k = ground arith in rw (sign, sign') (ap negsuc quotient)

module _ (low : List ℕ) (n : ℕ) (h : AreDigits low) (p : 0 < magnitude low) where
  all_digits : List ℕ
  all_digits = low ++ ones (suc n)

  -- The copy for the bitwise operation has a zero on top, and is negated.
  negated_copy :
      negated_for_bitwise_op all_digits (length all_digits + 1)
      ≡ negate_digits (low ++ (ones (suc n) ++ 0 ∷ []))
  unfolding negated_for_bitwise_op all_digits
  negated_copy =
      let ds = low ++ ones (suc n) in
      let one : length ds + 1 - length ds ≡ 1 = omega arith in
      rw (take_all (length ds + 1) ds (omega arith), one)
        (ap negate_digits (append_assoc low (ones (suc n)) (0 ∷ [])))

  -- The digits that are kept are all zero.
  shifted_to_zero : shift_digits_right true all_digits (64 * length low) ≡ replicate (suc n) 0
  unfolding shift_digits_right
  shifted_to_zero =
      let off : 64 * length low / 64 ≡ length low = omega arith in
      let bits : 64 * length low % 64 ≡ 0 = omega arith in
      let kept : length all_digits - length low ≡ suc n =
        unfold all_digits in
        omega (
          arith,
          length-append low (ones (suc n)),
          length-replicate {A = ℕ} (suc n) (2 ^ 64 - 1),
        ) in
      rw
        (
          off,
          bits,
          kept,
          negated_copy,
          drop-negate_digits low (ones (suc n) ++ 0 ∷ []) h p,
          take-complement-ones (suc n) (0 ∷ []),
        )
        (negate-zeros (suc n))

  shift_to_zero : bignum_shift_right true all_digits (64 * length low) ≡ fix 0
  unfolding bignum_shift_right bignum_simplify
  shift_to_zero =
      let l = length-append low (ones (suc n)) in
      let k = length-replicate {A = ℕ} (suc n) (2 ^ 64 - 1) in
      let room : leb (length all_digits * 64) (64 * length low) ≡ false =
        unfold all_digits in ground (arith, l, k) in
      rw (room, shifted_to_zero, trim-zeros (suc n))

  -- A negative bignum whose lower digits are not all zero and whose upper digits, one or more, are
  -- all ones is shifted right by the lower digits to 0, where the quotient rounded down is minus a
  -- power of two.
  pub shift_right_by-ones :
      (value (shift_right_by (big true (low ++ ones (suc n))) (64 * length low)) ≡ pos 0)
      × (floor_shift (value (big true (low ++ ones (suc n)))) (64 * length low)
          ≡ signed_magnitude true (2 ^ (64 * suc n)))
  unfolding shift_right_by all_digits
  shift_right_by-ones = (
    ap value shift_to_zero,
    floor_of_minus (magnitude (low ++ ones (suc n))) (magnitude low) (2 ^ (64 * suc n))
        (64 * length low) p (magnitude-lt low h) (one-le-pow (64 * suc n) 2 (omega arith))
        (magnitude-ones low (suc n)),
  )
