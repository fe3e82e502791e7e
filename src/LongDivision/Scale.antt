-- ===== src/LongDivision/Scale.antt =====
-- The shift of bignum_destructive_divide_full that normalises the denominator, and the places that the
-- quotient fills.
use chicken_core_mirror.Prelude.{
  ℕ, zero, suc, ◌+◌, ◌-◌, ◌*◌, ◌^◌, ◌<◌, ◌≤◌, ◌≡◌, ◌⊎◌, ◌==◌, List, [], ◌∷◌, some, true, false,
  length, get_elem?, set, drop, leb, All, arith, refl, sym, ◌∙◌, inl, inr, Bool-cases,
}
use chicken_core_mirror.Word.{IsHalf, IsWord, ilen}
use chicken_core_mirror.Word.Length.{ilen_bounds, two_pow_add}
use chicken_core_mirror.Digits.{magnitude, AreDigits, IsTrimmed, to_halves}
use chicken_core_mirror.Digits.Products.{half_magnitude}
use chicken_core_mirror.Times.Schoolbook.{power_shift}
use chicken_core_mirror.LongDivision.{normalizing_shift}
use chicken_core_mirror.LongDivision.Subtract.{half_power}
use chicken_core_mirror.LongDivision.Normal.{IsNormalized, Fills}
use native.Mathlib.Nat.{mul-le-mul_left, pow-le-pow_right, one-le-pow}

-- 2 ^ 64 to the power of `n`.
abbrev pub digit_power : ℕ → ℕ
digit_power zero = 1
digit_power (suc n) = 2 ^ 64 * digit_power n

pub half_power-double : (n : ℕ) → half_power (n + n) ≡ digit_power n
half_power-double zero = refl
half_power-double (suc n) =
    let e : suc n + suc n ≡ suc (suc (n + n)) = omega arith in
    rw e (omega (arith, half_power-double n))

pub half_power-add : (a b : ℕ) → half_power (a + b) ≡ half_power a * half_power b
half_power-add zero b = let e : 0 + b ≡ b = omega arith in rw e (omega arith)
half_power-add (suc a) b =
    let e : suc a + b ≡ suc (a + b) = omega arith in rw e (omega (arith, half_power-add a b))

-- The most significant digit.
top_digit :
    (ds : List ℕ) (l : ℕ)
    → AreDigits ds
    → IsTrimmed ds
    → length ds ≡ suc l
    → (d1 : ℕ) × (get_elem? ds l ≡ some d1)
      × IsWord d1
      × (0 < d1)
      × (digit_power l * d1 ≤ magnitude ds)
      × (magnitude ds < digit_power l * suc d1)
top_digit [] l h t e = absurd (omega arith)
top_digit (d ∷ []) zero (hd, h) t e = (d, refl, hd, omega (arith, t), omega arith, omega arith)
top_digit (d ∷ []) (suc l) h t e = absurd (omega arith)
top_digit (d ∷ d' ∷ ds) zero h t e = absurd (omega arith)
top_digit (d ∷ d' ∷ ds) (suc l) (hd, h) t e =
    let (d1, read, word, positive, low, high) = top_digit (d' ∷ ds) l h t (omega arith) in
    (d1, read, word, positive, omega (arith, low), omega (arith, high))

-- The number shifted until its top digit has `w` bits.
scaled :
    (m p d1 s w : ℕ)
    → IsWord d1
    → 0 < d1
    → p * d1 ≤ m
    → m < p * suc d1
    → s + ilen d1 ≡ w
    → (2 ^ w * p ≤ 2 * (m * 2 ^ s)) × (m * 2 ^ s < 2 ^ w * p)
scaled m p d1 s w word positive low high e =
    let (below, above) = ilen_bounds d1 word in
    let split : 2 ^ s * 2 ^ ilen d1 ≡ 2 ^ w = sym (two_pow_add s (ilen d1)) ∙ rw e in
    let some_bit : 0 < 2 ^ s = one-le-pow s 2 (omega arith) in
    let lower : 2 ^ s * (p * 2 ^ ilen d1) ≤ 2 ^ s * (p * (2 * d1)) =
      mul-le-mul_left (2 ^ s) (mul-le-mul_left p (above positive)) in
    let lower' : 2 ^ s * (p * d1) ≤ 2 ^ s * m = mul-le-mul_left (2 ^ s) low in
    let upper : p * suc d1 ≤ p * 2 ^ ilen d1 = mul-le-mul_left p below in
    let upper' : 2 ^ s * suc m ≤ 2 ^ s * (p * 2 ^ ilen d1) =
      mul-le-mul_left (2 ^ s) (omega (arith, high, upper)) in
    let whole : 2 ^ s * (p * 2 ^ ilen d1) ≡ 2 ^ w * p = rw (← split) (omega arith) in
    (omega (arith, whole, lower, lower'), omega (arith, whole, upper', some_bit))

-- The shift that the code takes, and the half digits that the shifted denominator fills.
abbrev pub Normalizes : List ℕ → ℕ → ℕ → Type 0
Normalizes den s k =
    (normalizing_shift den ≡ some s)
    × (s < 32)
    × Fills den (suc (suc k))
    × IsNormalized (magnitude den * 2 ^ s) k

-- The top digit has more than 32 bits.
wide_shift :
    (den : List ℕ) (l d1 : ℕ)
    → length den ≡ suc l
    → get_elem? den l ≡ some d1
    → IsWord d1
    → 0 < d1
    → digit_power l * d1 ≤ magnitude den
    → magnitude den < digit_power l * suc d1
    → leb 32 (64 - ilen d1) ≡ false
    → (s : ℕ) × (k : ℕ) × Normalizes den s k
unfolding normalizing_shift
wide_shift den l d1 e read word positive low high f =
    let last : length den - 1 ≡ l = omega arith in
    let few : 64 - ilen d1 < 32 = ground arith in
    let bits : ilen d1 ≤ 64 = omega (arith, power_shift d1 word positive) in
    let (lower, upper) =
      scaled (magnitude den) (digit_power l) d1 (64 - ilen d1) 64 word positive low high
        (omega arith) in
    (
      64 - ilen d1,
      l + l,
      (
        rw (last, read, f),
        few,
        inl (omega arith),
        (omega (arith, lower, half_power-double l), omega (arith, upper, half_power-double l)),
      ),
    )

-- It has 32 bits or fewer, and the shift fills only its lower half.
narrow_shift :
    (den : List ℕ) (l d1 : ℕ)
    → length den ≡ suc l
    → get_elem? den l ≡ some d1
    → IsWord d1
    → 0 < d1
    → digit_power l * d1 ≤ magnitude den
    → magnitude den < digit_power l * suc d1
    → 2 ^ 32 ≤ magnitude den
    → leb 32 (64 - ilen d1) ≡ true
    → (s : ℕ) × (k : ℕ) × Normalizes den s k
unfolding normalizing_shift
narrow_shift den zero d1 e read word positive low high large t =
    let narrow : 2 ^ ilen d1 ≤ 2 ^ 32 =
      pow-le-pow_right (omega arith) {i = ilen d1} {j = 32} (ground arith) in
    absurd (omega (arith, (ilen_bounds d1 word).0, narrow, high, large))
narrow_shift den (suc l) d1 e read word positive low high large t =
    let last : length den - 1 ≡ suc l = omega arith in
    let bits : ilen d1 ≤ 32 = ground arith in
    let some_bit : 0 < ilen d1 = elim (Bool-cases (ilen d1 == 0)) [
      | inl z ↦
          let nought : ilen d1 ≡ 0 = ground arith in
          let one : 2 ^ ilen d1 ≡ 1 = rw nought in
          absurd (omega (arith, (ilen_bounds d1 word).0, one))
      | inr f ↦ ground arith
    ] in
    let (lower, upper) =
      scaled (magnitude den) (digit_power (suc l)) d1 (64 - ilen d1 - 32) 32 word positive low high
        (omega arith) in
    (
      64 - ilen d1 - 32,
      suc (l + l),
      (
        rw (last, read, t),
        omega arith,
        inr (omega arith),
        (omega (arith, lower, half_power-double l), omega (arith, upper, half_power-double l)),
      ),
    )

pub normalizing_shift_lem :
    (den : List ℕ)
    → AreDigits den
    → IsTrimmed den
    → 2 ^ 32 ≤ magnitude den
    → (s : ℕ) × (k : ℕ) × Normalizes den s k
normalizing_shift_lem [] h t large = absurd (omega arith)
normalizing_shift_lem (d ∷ ds) h t large =
    let (d1, read, word, positive, low, high) = top_digit (d ∷ ds) (length ds) h t refl in
    elim (Bool-cases (leb 32 (64 - ilen d1))) [
      | inl e ↦ narrow_shift (d ∷ ds) (length ds) d1 refl read word positive low high large e
      | inr f ↦ wide_shift (d ∷ ds) (length ds) d1 refl read word positive low high f
    ]

-- The half digits of the quotient fill its array, but for the top one, which was cleared.
pub drop_cleared :
    (quot : List ℕ) (r : ℕ)
    → 1 ≤ length quot
    → (r ≡ length quot + length quot) ⊎ (suc r ≡ length quot + length quot)
    → let rest = drop r (to_halves (set quot (length quot - 1) 0)) in
      (half_magnitude rest ≡ 0) × All IsHalf rest × (r + length rest ≡ length quot + length quot)
unfolding to_halves
drop_cleared [] r h l = absurd (omega arith)
drop_cleared (d ∷ []) r h (inl e) = let two : r ≡ 2 = omega arith in rw two (refl, tt, refl)
drop_cleared (d ∷ []) r h (inr e) =
    let one : r ≡ 1 = omega arith in rw one (refl, (omega arith, tt), refl)
drop_cleared (d ∷ d' ∷ ds) zero h l = absurd (elim l [ inl e ↦ omega arith | inr e ↦ omega arith ])
drop_cleared (d ∷ d' ∷ ds) (suc zero) h l =
    absurd (elim l [ inl e ↦ omega arith | inr e ↦ omega arith ])
drop_cleared (d ∷ d' ∷ ds) (suc (suc r)) h l =
    let same : suc (suc (length ds)) - 1 ≡ suc (suc (length ds) - 1) = omega arith in
    let (value, halves, len) =
      drop_cleared (d' ∷ ds) r (omega arith)
        (elim l [ inl e ↦ inl (omega arith) | inr e ↦ inr (omega arith) ]) in
    rw same (value, halves, omega (arith, len))
