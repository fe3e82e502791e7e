-- ===== src/LongDivision/Estimate.antt =====
-- The estimate of a half digit of the quotient, against the quotient.
use chicken_core_mirror.Prelude.{
  ℕ, zero, suc, ◌+◌, ◌*◌, ◌/◌, ◌%◌, ◌^◌, ◌<◌, ◌≤◌, ◌≡◌, true, false, ap, ltb, leb, ◌&&◌, arith, inl,
  inr, Bool-cases,
}
use chicken_core_mirror.Word.{IsHalf, IsWord, half_base, add_word, mul_word, combine}
use chicken_core_mirror.Word.Bits.{combine_lem}
use chicken_core_mirror.Digits.Scaling.{product_fits}
use chicken_core_mirror.LongDivision.{reduce_estimate, correct_estimate, estimate}
use native.Mathlib.Nat.{mul-le-mul, mul-le-mul_left, mul-le-mul_right, div-add-mod', mod-lt}

-- A number below another in its upper part is below it.
less_by_upper : (q u3 x v3 w b : ℕ) → u3 < b → x < q * w → u3 + b * x < q * (v3 + b * w)
less_by_upper q u3 x v3 w b h l =
    let wide : b * suc x ≤ b * (q * w) = mul-le-mul_left b l in omega (arith, wide)

-- With a normalised divisor one quotient digit too many is all that the lower part can hide.
close_by_upper :
    (q u3 x v3 w b : ℕ)
    → v3 < b
    → q < 2 ^ 32
    → 2 ^ 32 ≤ w
    → q * w ≤ x
    → q * (v3 + b * w) ≤ u3 + b * x + (v3 + b * w)
close_by_upper q u3 x v3 w b h hq hw l =
    let low : q * v3 ≤ 2 ^ 32 * b =
      mul-le-mul {m₁ = v3} {n₂ = 2 ^ 32} {m₂ = b} (omega arith) (omega arith) in
    let top : b * 2 ^ 32 ≤ b * w = mul-le-mul_left b hw in
    let wide : b * (q * w) ≤ b * x = mul-le-mul_left b l in omega (arith, low, top, wide)

close_by_rest :
    (q r u3 u2 v3 v2 v1 b : ℕ)
    → v3 < b
    → IsHalf v2
    → q < 2 ^ 32
    → 2 ^ 32 ≤ r
    → q * (v3 + b * (v2 + 2 ^ 32 * v1)) ≤ u3 + b * (u2 + 2 ^ 32 * (q * v1 + r))
close_by_rest q r u3 u2 v3 v2 v1 b h h2 hq hr =
    let lowest : q * v3 ≤ q * b = mul-le-mul_left q (omega arith) in
    let second : q * suc v2 ≤ q * 2 ^ 32 = mul-le-mul_left q h2 in
    let second' : b * (q * suc v2) ≤ b * (q * 2 ^ 32) = mul-le-mul_left b second in
    let over : b * q ≤ b * r = mul-le-mul_left b (omega arith) in
    omega (arith, lowest, second', over)

-- The divisor, whose first two half digits are `v1` and `v2`, and the number that is divided, whose
-- first three are `hat` and `u2`.
module _ (v1 v2 v3 b u2 u3 hat : ℕ) where
  abbrev pub divisor : ℕ
  divisor = v3 + b * (v2 + 2 ^ 32 * v1)

  abbrev pub dividend : ℕ
  dividend = u3 + b * (u2 + 2 ^ 32 * hat)

  -- `q` is not too low, and `r` is what it leaves of `hat`.
  record IsEstimate (q r : ℕ) : Type 0 where
    rest : q * v1 + r ≡ hat
    high : dividend < suc q * divisor

  module _ (word : IsWord hat) (normal : 2 ^ 31 ≤ v1) (half : IsHalf v2) (lower : v3 < b)
      (next : IsHalf u2) (lower' : u3 < b) where
    first-IsEstimate : IsEstimate (hat / v1) (hat % v1)
    first-IsEstimate =
        let split = div-add-mod' hat v1 in
        let positive : 0 < v1 = omega arith in
        let small = mod-lt hat positive in
        record {
          rest = split;
          high =
              less_by_upper (suc (hat / v1)) u3 (u2 + 2 ^ 32 * hat) v3 (v2 + 2 ^ 32 * v1) b lower'
                (omega (arith, split, small));
        }

    -- One less, where that is not too low.
    one_less :
        (q r : ℕ) → IsEstimate (suc q) r → dividend < suc q * divisor → IsEstimate q (add_word r v1)
    one_less q r e l = record {
      rest = let same : suc q * v1 + r ≡ hat = e.rest in omega (arith, same);
      high = l;
    }

    reduce_estimate_lem :
        (q r : ℕ)
        → IsEstimate q r
        → dividend < 2 ^ 32 * divisor
        → let s = reduce_estimate v1 q r in IsEstimate s.0 s.1 × IsHalf s.0
    unfolding reduce_estimate
    reduce_estimate_lem zero r e l = (e, omega arith)
    reduce_estimate_lem (suc q) r e l = elim (Bool-cases (leb half_base (suc q))) [
      | inl t ↦
          let big : 2 ^ 32 ≤ suc q = ground arith in
          let wide : 2 ^ 32 * divisor ≤ suc q * divisor = mul-le-mul_right divisor big in
          rw (reduce_estimate, t)
            (reduce_estimate_lem q (add_word r v1) (one_less q r e (omega (arith, l, wide))) l)
      | inr f ↦ rw (reduce_estimate, f) (e, ground arith)
    ]

    -- Where the test of the second loop passes, the estimate is too high.
    too_high :
        (q r : ℕ)
        → IsEstimate (suc q) r
        → IsHalf (suc q)
        → (ltb (combine r u2) (mul_word (suc q) v2) && ltb r half_base) ≡ true
        → dividend < suc q * divisor
    too_high q r e h t =
        let r_half : IsHalf r = ground arith in
        let p = product_fits (suc q) v2 h half in
        let test : r * 2 ^ 32 + u2 < suc q * v2 = ground (arith, combine_lem r u2 r_half next) in
        less_by_upper (suc q) u3 (u2 + 2 ^ 32 * hat) v3 (v2 + 2 ^ 32 * v1) b lower'
          (omega (arith, e.rest, test))

    -- Where it fails, the estimate is at most one too high.
    close_enough :
        (q r : ℕ)
        → IsEstimate (suc q) r
        → IsHalf (suc q)
        → (ltb (combine r u2) (mul_word (suc q) v2) && ltb r half_base) ≡ false
        → suc q * divisor ≤ dividend + divisor
    close_enough q r e h t = elim (Bool-cases (ltb r half_base)) [
      | inl small ↦
          let r_half : IsHalf r = ground arith in
          let p = product_fits (suc q) v2 h half in
          let test : suc q * v2 ≤ r * 2 ^ 32 + u2 = ground (arith, combine_lem r u2 r_half next) in
          close_by_upper (suc q) u3 (u2 + 2 ^ 32 * hat) v3 (v2 + 2 ^ 32 * v1) b lower h
            (omega arith) (omega (arith, e.rest, test))
      | inr big ↦
          let l = close_by_rest (suc q) r u3 u2 v3 v2 v1 b lower half h (ground arith) in
          let same : suc q * v1 + r ≡ hat = e.rest in omega (arith, l, ap (λ (t : ℕ). b * t) same)
    ]

    correct_estimate_lem :
        (q r : ℕ)
        → IsEstimate q r
        → IsHalf q
        → let s = correct_estimate v1 v2 u2 q r in
          IsHalf s × (dividend < suc s * divisor) × (s * divisor ≤ dividend + divisor)
    unfolding correct_estimate
    correct_estimate_lem zero r e h = (h, e.high, omega arith)
    correct_estimate_lem (suc q) r e h =
        elim (Bool-cases (ltb (combine r u2) (mul_word (suc q) v2) && ltb r half_base)) [
          | inl t ↦
              rw (correct_estimate, t)
                (correct_estimate_lem q (add_word r v1) (one_less q r e (too_high q r e h t))
                  (omega arith))
          | inr f ↦ rw (correct_estimate, f) (h, e.high, close_enough q r e h f)
        ]

    -- The estimate is the half digit of the quotient or one more.
    pub estimate_lem :
        dividend < 2 ^ 32 * divisor
        → let s = estimate v1 v2 u2 hat in
          IsHalf s × (dividend < suc s * divisor) × (s * divisor ≤ dividend + divisor)
    unfolding estimate
    estimate_lem l =
        let (e, h) = reduce_estimate_lem (hat / v1) (hat % v1) first-IsEstimate l in
        let s = reduce_estimate v1 (hat / v1) (hat % v1) in correct_estimate_lem s.0 s.1 e h
