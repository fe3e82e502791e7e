-- ===== src/Digits/Scaling.antt =====
-- Multiplication and division of a digit array by a half digit.
use chicken_core_mirror.Prelude.{
  ℕ, ◌+◌, ◌-◌, ◌*◌, ◌/◌, ◌%◌, ◌^◌, ◌<◌, ◌≤◌, ◌≡◌, List, [], ◌∷◌, ◌++◌, length, arith, refl, ap, sym,
}
use chicken_core_mirror.Word.{
  IsWord, IsHalf, lo_half, hi_half, combine, add_word, mul_word, sub_word,
}
use chicken_core_mirror.Word.Bits.{combine_lem}
use chicken_core_mirror.Digits.{
  magnitude, AreDigits, scale_up_round, scale_up, scale_down_round, scale_down, remainder_halfdigit,
}
use native.Mathlib.Nat.{div-add-mod', mod-lt, div-lt_iff_lt-mul, mul-le-mul, add-mul-mod_self_right}

-- The product of two half words and two more half words fit a word.
pub product_fits : (a b : ℕ) → IsHalf a → IsHalf b → a * b + 2 ^ 32 + 2 ^ 32 ≤ 2 ^ 64 + 1
product_fits a b ha hb =
    let h : a * b ≤ (2 ^ 32 - 1) * (2 ^ 32 - 1) =
      mul-le-mul {n₂ = 2 ^ 32 - 1} {m₂ = 2 ^ 32 - 1} (omega arith) (omega arith) in
    omega arith

halves_of : (d : ℕ) → IsWord d → d ≡ 2 ^ 32 * hi_half d + lo_half d
halves_of d h = omega arith

-- A product of half words plus a half word, as the code computes it.
pub multiply_add :
    (a b c : ℕ) → IsHalf a → IsHalf b → IsHalf c → add_word (mul_word a b) c ≡ a * b + c
multiply_add a b c ha hb hc = omega (arith, product_fits a b ha hb)

pub scale_up_round_lem :
    (f d c : ℕ)
    → IsHalf f
    → IsWord d
    → IsHalf c
    → ((scale_up_round f d c).0 + 2 ^ 64 * (scale_up_round f d c).1 ≡ f * d + c)
      × IsWord (scale_up_round f d c).0
      × IsHalf (scale_up_round f d c).1
unfolding scale_up_round
scale_up_round_lem f d c hf hd hc =
    let lo = lo_half d in
    let hi = hi_half d in
    let p = f * lo + c in
    let p' = f * hi + hi_half p in
    let first : add_word (mul_word f lo) c ≡ p = multiply_add f lo c hf (omega arith) hc in
    let second : add_word (mul_word f hi) (hi_half p) ≡ p' =
      multiply_add f hi (hi_half p) hf (omega arith) (omega arith) in
    let split : f * d ≡ f * (2 ^ 32 * hi + lo) = ap (λ (t : ℕ). f * t) (halves_of d hd) in
    let small = product_fits f lo hf (omega arith) in
    let small' = product_fits f hi hf (omega arith) in
    rw (first, second, combine_lem (lo_half p') (lo_half p) (omega arith) (omega arith))
      (omega arith)

-- The digits and the carry that bignum_digits_destructive_scale_up_with_carry leaves are the
-- product by the factor, plus the carry, for half digits.
pub scale_up_lem :
    (ds : List ℕ) (factor carry : ℕ)
    → AreDigits ds
    → IsHalf factor
    → IsHalf carry
    → let s = scale_up ds factor carry in
      (magnitude (s.0 ++ s.1 ∷ []) ≡ factor * magnitude ds + carry)
      × AreDigits s.0
      × IsHalf s.1
      × (length s.0 ≡ length ds)
unfolding scale_up
scale_up_lem [] factor carry h hf hc = (omega arith, tt, hc, refl)
scale_up_lem (d ∷ ds) factor carry (hd, h) hf hc =
    let (digit, carry') = scale_up_round factor d carry in
    let round = scale_up_round_lem factor d carry hf hd hc in
    let (value, digits, last, len) = scale_up_lem ds factor carry' h hf round.2 in
    (omega (arith, value, round.0), (round.1, digits), last, omega arith)

-- One division of `k` and a half digit below it by `den`: quotient and remainder.
divide-IsHalf :
    (den k h : ℕ)
    → IsHalf den
    → k < den
    → IsHalf h
    → let k₁ = combine k h in
      let q = lo_half (k₁ / den) in
      (q * den + sub_word k₁ (mul_word q den) ≡ k * 2 ^ 32 + h)
      × IsHalf q
      × (sub_word k₁ (mul_word q den) < den)
divide-IsHalf den k h hden hk hh =
    let n = k * 2 ^ 32 + h in
    let bound : n < 2 ^ 32 * den = omega arith in
    let pos : 0 < den = omega arith in
    let small : n / den < 2 ^ 32 = (div-lt_iff_lt-mul pos).1 bound in
    let whole = div-add-mod' n den in
    let rest : n % den < den = mod-lt n pos in
    let q : lo_half (n / den) ≡ n / den = omega arith in
    rw (combine_lem k h (omega arith) hh, q) (omega arith)

two_halves :
    (den k d hi lo k' q q' r : ℕ)
    → d ≡ 2 ^ 32 * hi + lo
    → q * den + k' ≡ k * 2 ^ 32 + hi
    → q' * den + r ≡ k' * 2 ^ 32 + lo
    → (q * 2 ^ 32 + q') * den + r ≡ k * 2 ^ 64 + d
two_halves den k d hi lo k' q q' r split e e' = omega arith

scale_down_round_lem :
    (den d k : ℕ)
    → IsHalf den
    → IsWord d
    → k < den
    → let s = scale_down_round den d k in
      (s.0 * den + s.1 ≡ k * 2 ^ 64 + d) × IsWord s.0 × (s.1 < den)
unfolding scale_down_round
scale_down_round_lem den d k hden hd hk =
    let (e, hq, hr) = divide-IsHalf den k (hi_half d) hden hk (omega arith) in
    let k₁ = combine k (hi_half d) in
    let q = lo_half (k₁ / den) in
    let k₂ = sub_word k₁ (mul_word q den) in
    let (e', hq', hr') = divide-IsHalf den k₂ (lo_half d) hden hr (omega arith) in
    let k₃ = combine k₂ (lo_half d) in
    let q' = lo_half (k₃ / den) in
    rw (combine_lem q q' hq hq')
      (two_halves den k d (hi_half d) (lo_half d) k₂ q q' _ (halves_of d hd) e e', omega arith, hr')

-- bignum_digits_destructive_scale_down divides with remainder by a half digit that is not 0.
pub scale_down_lem :
    (ds : List ℕ) (den : ℕ)
    → AreDigits ds
    → IsHalf den
    → 0 < den
    → let s = scale_down ds den in
      (magnitude s.0 * den + s.1 ≡ magnitude ds)
      × AreDigits s.0
      × (s.1 < den)
      × (length s.0 ≡ length ds)
unfolding scale_down
scale_down_lem [] den h hden pos = (omega arith, tt, pos, refl)
scale_down_lem (d ∷ ds) den (hd, h) hden pos =
    let (value, digits, small, len) = scale_down_lem ds den h hden pos in
    let k = (scale_down ds den).1 in
    let round = scale_down_round_lem den d k hden hd small in
    (omega (arith, value, round.0), (round.1, digits), round.2, omega arith)

-- A remainder may be taken early, below one more digit in base `c`.
mod_below : (n k c y : ℕ) → 0 < y → (n % y * c + k) % y ≡ (n * c + k) % y
mod_below n k c y pos =
    let split : n * c ≡ (n / y * y + n % y) * c = ap (λ (t : ℕ). t * c) (sym (div-add-mod' n y)) in
    let e : n * c + k ≡ n % y * c + k + n / y * c * y = omega (arith, split) in
    rw e (sym (add-mul-mod_self_right (n % y * c + k) (n / y * c) y))

-- bignum_remainder_unsigned_halfdigit is the remainder by a half digit that is not 0.
pub remainder_halfdigit-mod :
    (ds : List ℕ) (y : ℕ)
    → AreDigits ds
    → IsHalf y
    → 0 < y
    → remainder_halfdigit ds y ≡ magnitude ds % y
unfolding remainder_halfdigit
remainder_halfdigit-mod [] y h hy pos = ground arith
remainder_halfdigit-mod (d ∷ ds) y (hd, h) hy pos =
    let m = magnitude ds in
    let r : m % y < 2 ^ 32 = omega (arith, mod-lt m pos) in
    let upper = mod_below m (hi_half d) (2 ^ 32) y pos in
    let n = m * 2 ^ 32 + hi_half d in
    let r' : n % y < 2 ^ 32 = omega (arith, mod-lt n pos) in
    let e : n * 2 ^ 32 + lo_half d ≡ d + 2 ^ 64 * m = omega arith in
    rw (
      remainder_halfdigit-mod ds y h hy pos,
      combine_lem (m % y) (hi_half d) r (omega arith),
      upper,
      combine_lem (n % y) (lo_half d) r' (omega arith),
      mod_below n (lo_half d) (2 ^ 32) y pos,
      e,
    )
