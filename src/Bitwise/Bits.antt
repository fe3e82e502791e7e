-- ===== src/Bitwise/Bits.antt =====
-- The bits of numbers, of digit arrays and of two's complements.
use chicken_core_mirror.Prelude.{
  ℕ, zero, suc, ◌+◌, ◌-◌, ◌*◌, ◌/◌, ◌%◌, ◌^◌, ◌<◌, ◌≤◌, ◌≡◌, List, ◌∷◌, true, arith, refl, sym, ap,
  ◌∙◌,
}
use chicken_core_mirror.Prelude.Int.{ℤ, pos, negsuc, signed_magnitude}
use chicken_core_mirror.Word.{IsWord, bit_at}
use chicken_core_mirror.Word.Length.{two_pow_add}
use chicken_core_mirror.Digits.{magnitude}
use chicken_core_mirror.Shift.Floor.{quotient_of}
use native.Mathlib.Nat.{
  zero-div, pow-suc, div-add-mod', mod-lt, div-lt_iff_lt-mul, one-le-pow, add-mul-div_left,
  div-div-eq-div-mul, div-eq_of_lt, pow-le-pow_right,
}

-- Bit `k` of an integer, in the two's complement without end.
abbrev pub bit_of : ℤ → ℕ → ℕ
bit_of (pos n) k = bit_at n k
bit_of (negsuc n) k = 1 - bit_at n k

pub bit_at-zero : (k : ℕ) → bit_at 0 k ≡ 0
bit_at-zero k = rw (zero-div (2 ^ k)) refl

pub bit_at-beyond : (n k m : ℕ) → m < 2 ^ n → n ≤ k → bit_at m k ≡ 0
bit_at-beyond n k m h l =
    let wide : 2 ^ n ≤ 2 ^ k = pow-le-pow_right (omega arith) {i = n} {j = k} l in
    let none_left : m / 2 ^ k ≡ 0 = div-eq_of_lt (omega (arith, h, wide)) in rw none_left refl

two_pow_split : (n k : ℕ) → k < n → 2 ^ n ≡ 2 ^ k * (2 * 2 ^ (n - k - 1))
two_pow_split n k h =
    let e : k + suc (n - k - 1) ≡ n = omega arith in
    ap (λ (t : ℕ). 2 ^ t) (sym e)
    ∙ two_pow_add k (suc (n - k - 1))
    ∙ ap (λ (t : ℕ). 2 ^ k * t) (pow-suc 2 (n - k - 1) ∙ omega arith)

-- The bits of a lower part.
pub bit_at-low : (n k d m : ℕ) → k < n → bit_at (d + 2 ^ n * m) k ≡ bit_at d k
bit_at-low n k d m h =
    let split = two_pow_split n k h in
    let positive : 0 < 2 ^ k = one-le-pow k 2 (omega arith) in
    let moved : d + 2 ^ n * m ≡ d + 2 ^ k * (2 * 2 ^ (n - k - 1) * m) = rw split (omega arith) in
    let quotient : (d + 2 ^ n * m) / 2 ^ k ≡ d / 2 ^ k + 2 * 2 ^ (n - k - 1) * m =
      rw moved (add-mul-div_left d (2 * 2 ^ (n - k - 1) * m) positive) in
    rw quotient (omega arith)

-- The bits above.
pub bit_at-high : (n k d m : ℕ) → d < 2 ^ n → bit_at (d + 2 ^ n * m) (n + k) ≡ bit_at m k
bit_at-high n k d m h =
    let positive : 0 < 2 ^ n = one-le-pow n 2 (omega arith) in
    let first : (d + 2 ^ n * m) / 2 ^ n ≡ m =
      quotient_of m d (2 ^ n) (d + 2 ^ n * m) (omega arith) h in
    let both : (d + 2 ^ n * m) / 2 ^ (n + k) ≡ m / 2 ^ k =
      rw (two_pow_add n k)
        (sym (div-div-eq-div-mul (d + 2 ^ n * m) (2 ^ n) (2 ^ k)) ∙ rw first refl) in
    rw both refl

-- The complement in `n` bits.
pub bit_at-complement : (n k m : ℕ) → m < 2 ^ n → k < n → bit_at (2 ^ n - 1 - m) k ≡ 1 - bit_at m k
bit_at-complement n k m h l =
    let p = 2 ^ k in
    let t = 2 * 2 ^ (n - k - 1) in
    let q = m / p in
    let split : 2 ^ n ≡ p * t = two_pow_split n k l in
    let positive : 0 < p = one-le-pow k 2 (omega arith) in
    let parts = div-add-mod' m p in
    let small : m % p < p = mod-lt m positive in
    let below : q < t = (div-lt_iff_lt-mul positive).1 (omega (arith, h, split)) in
    let sum : (t - 1 - q + (q + 1)) * p ≡ p * t =
      let e : t - 1 - q + (q + 1) ≡ t = omega arith in rw e (omega arith) in
    let quotient : (2 ^ n - 1 - m) / p ≡ t - 1 - q =
      quotient_of (t - 1 - q) (p - 1 - m % p) p (2 ^ n - 1 - m)
        (omega (arith, split, parts, sum, small)) (omega arith) in
    rw quotient (omega arith)

-- The digits of a number.
pub magnitude_bit-low :
    (d k : ℕ) (ds : List ℕ) → k < 64 → bit_at (magnitude (d ∷ ds)) k ≡ bit_at d k
magnitude_bit-low d k ds h = bit_at-low 64 k d (magnitude ds) h

pub magnitude_bit-high :
    (d k : ℕ) (ds : List ℕ)
    → IsWord d
    → bit_at (magnitude (d ∷ ds)) (64 + k) ≡ bit_at (magnitude ds) k
magnitude_bit-high d k ds h = bit_at-high 64 k d (magnitude ds) h

-- The two's complement of a negative number in `n` bits.
pub bit_at-negative :
    (n k m t : ℕ) → 0 < m → t + m ≡ 2 ^ n → k < n → bit_at t k ≡ bit_of (signed_magnitude true m) k
bit_at-negative n k zero t p e h = absurd (omega arith)
bit_at-negative n k (suc m) t p e h =
    let same : t ≡ 2 ^ n - 1 - m = omega arith in
    let minus : signed_magnitude true (suc m) ≡ negsuc m = ground arith in
    rw (minus, same) (bit_at-complement n k m (omega arith) h)

-- Above the number its sign goes on.
pub bit_of-beyond : (n k m : ℕ) → 0 < m → m ≤ 2 ^ n → n ≤ k → bit_of (signed_magnitude true m) k ≡ 1
bit_of-beyond n k zero p l h = absurd (omega arith)
bit_of-beyond n k (suc m) p l h =
    let minus : signed_magnitude true (suc m) ≡ negsuc m = ground arith in
    rw (minus, bit_at-beyond n k m (omega arith) h) refl
