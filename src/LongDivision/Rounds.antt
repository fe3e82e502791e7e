-- ===== src/LongDivision/Rounds.antt =====
-- The outer loop of the long division against division with remainder.
use chicken_core_mirror.Prelude.{
  ℕ, zero, suc, ◌+◌, ◌-◌, ◌*◌, ◌^◌, ◌<◌, ◌≤◌, ◌≡◌, ◌==◌, List, [], ◌∷◌, ◌++◌, some, length,
  length-append, get_elem?, drop, All, All-append, Yields, Yields-bind, Yields-map, arith, refl, ap,
  sym, ◌∙◌, inl, inr, Bool-cases,
}
use chicken_core_mirror.Word.{IsHalf, combine}
use chicken_core_mirror.Word.Bits.{combine_lem}
use chicken_core_mirror.Digits.Products.{half_magnitude}
use chicken_core_mirror.LongDivision.{estimate, divide_round, divide_rows}
use chicken_core_mirror.LongDivision.Estimate.{estimate_lem}
use chicken_core_mirror.LongDivision.Corrections.{Divided, subtract_estimate_lem}
use chicken_core_mirror.LongDivision.Subtract.{half_power, half_magnitude-append, half_magnitude-lt}
use native.Mathlib.Nat.{mul-le-mul_left}
use mathlib.Core.List.{append_assoc}

pub get_elem?-past :
    (us xs : List ℕ) (k : ℕ) → get_elem? (us ++ xs) (k + length us) ≡ get_elem? xs k
get_elem?-past [] xs k = let e : k + 0 ≡ k = omega arith in rw e
get_elem?-past (u ∷ us) xs k =
    let e : k + suc (length us) ≡ suc (k + length us) = omega arith in rw e (get_elem?-past us xs k)

-- The places that a round reads.
reads :
    (vs us z : List ℕ) (v2 v1 u2 u1 u0 : ℕ)
    → length us ≡ length vs
    → let v = vs ++ v2 ∷ v1 ∷ [] in
      let u = us ++ u2 ∷ u1 ∷ u0 ∷ z in
      (get_elem? u (length v) ≡ some u0)
      × (get_elem? u (length v - 1) ≡ some u1)
      × (get_elem? u (length v - 2) ≡ some u2)
reads vs us z v2 v1 u2 u1 u0 l =
    let n = length-append vs (v2 ∷ v1 ∷ []) in
    let first : length (vs ++ v2 ∷ v1 ∷ []) ≡ 2 + length us = omega (arith, n, l) in
    let xs : List ℕ = u2 ∷ u1 ∷ u0 ∷ z in
    let second : 2 + length us - 1 ≡ 1 + length us = omega arith in
    let third : 2 + length us - 2 ≡ 0 + length us = omega arith in
    rw (first, second, third)
      (get_elem?-past us xs 2, get_elem?-past us xs 1, get_elem?-past us xs 0)

pub split_at :
    (n : ℕ) (xs : List ℕ)
    → All IsHalf xs
    → n ≤ length xs
    → (p z : List ℕ) × (xs ≡ p ++ z) × All IsHalf p × All IsHalf z × (length p ≡ n)
split_at zero xs h l = ([], xs, refl, tt, h, refl)
split_at (suc n) [] h l = absurd (omega arith)
split_at (suc n) (x ∷ xs) (hx, h) l =
    let (p, z, e, hp, hz, len) = split_at n xs h (omega arith) in
    (x ∷ p, z, ap (λ (t : List ℕ). x ∷ t) e, (hx, hp), hz, ap suc len)

-- A number below the power of the place has nothing above the place.
pub nothing_above : (w p m total : ℕ) → w + p * m ≡ total → total < p → (m ≡ 0) × (w ≡ total)
nothing_above w p zero total e l = (refl, omega arith)
nothing_above w p (suc m) total e l = absurd (omega arith)

-- What a round, or all rounds, leave of `u`: the remainder in as many places, and the quotient.
abbrev pub Leaves : ℕ → ℕ → ℕ → List ℕ → ℕ → Type 0
Leaves u v l s q =
    (q * v + half_magnitude s ≡ u) × (half_magnitude s < v) × All IsHalf s × (length s ≡ l)

abbrev AfterRound : ℕ → ℕ → ℕ → List ℕ × ℕ → Type 0
AfterRound u v l s = Leaves u v l s.0 s.1 × IsHalf s.1

abbrev pub AfterRows : ℕ → ℕ → ℕ → ℕ → List ℕ × List ℕ → Type 0
AfterRows u v l k s = Leaves u v l s.0 (half_magnitude s.1) × All IsHalf s.1 × (length s.1 ≡ k)

-- The divisor in full half digits, the first one with its top bit set.
module _ (vs : List ℕ) (v2 v1 : ℕ) (halves : All IsHalf vs) (half2 : IsHalf v2) (half1 : IsHalf v1)
    (normal : 2 ^ 31 ≤ v1) where
  abbrev divisor : List ℕ
  divisor = vs ++ v2 ∷ v1 ∷ []

  divisor_lem :
      (half_magnitude divisor ≡ half_magnitude vs + half_power (length vs) * (v2 + 2 ^ 32 * v1))
      × All IsHalf divisor
  divisor_lem = (
    omega (arith, half_magnitude-append vs (v2 ∷ v1 ∷ [])),
    All-append IsHalf vs (v2 ∷ v1 ∷ []) halves (half2, (half1, tt)),
  )

  -- A round on a number whose first half digits make a quotient of one half digit.
  divide_round_lem :
      (us z : List ℕ) (u2 u1 u0 : ℕ)
      → length us ≡ length vs
      → All IsHalf us
      → IsHalf u2
      → IsHalf u1
      → IsHalf u0
      → half_magnitude (us ++ u2 ∷ u1 ∷ u0 ∷ []) < 2 ^ 32 * half_magnitude divisor
      → Yields (divide_round divisor v1 v2 (us ++ u2 ∷ u1 ∷ u0 ∷ z)) (
          Divided
            (half_magnitude (us ++ u2 ∷ u1 ∷ u0 ∷ []))
            (half_magnitude divisor)
            (suc (length divisor))
            z)
  unfolding divide_round
  divide_round_lem us z u2 u1 u0 l hs h2 h1 h0 small =
      let (top, second, next) = reads vs us z v2 v1 u2 u1 u0 l in
      let (v, hv) = divisor_lem in
      let u : half_magnitude (us ++ u2 ∷ u1 ∷ u0 ∷ [])
          ≡ half_magnitude us + half_power (length vs) * (u2 + 2 ^ 32 * (u0 * 2 ^ 32 + u1)) =
        rw (half_magnitude-append us (u2 ∷ u1 ∷ u0 ∷ []), l) (omega arith) in
      let hat = combine_lem u0 u1 h0 h1 in
      let lower = half_magnitude-lt vs halves in
      let lower' : half_magnitude us < half_power (length vs) =
        rw (← l) (half_magnitude-lt us hs) in
      let place : us ++ u2 ∷ u1 ∷ u0 ∷ z ≡ (us ++ u2 ∷ u1 ∷ []) ++ u0 ∷ z =
        sym (append_assoc us (u2 ∷ u1 ∷ []) (u0 ∷ z)) in
      let place' : us ++ u2 ∷ u1 ∷ u0 ∷ [] ≡ (us ++ u2 ∷ u1 ∷ []) ++ u0 ∷ [] =
        sym (append_assoc us (u2 ∷ u1 ∷ []) (u0 ∷ [])) in
      let row : All IsHalf (us ++ u2 ∷ u1 ∷ []) =
        All-append IsHalf us (u2 ∷ u1 ∷ []) hs (h2, (h1, tt)) in
      let len : length (us ++ u2 ∷ u1 ∷ []) ≡ length divisor =
        omega (arith, length-append us (u2 ∷ u1 ∷ []), length-append vs (v2 ∷ v1 ∷ [])) in
      let u' : half_magnitude (us ++ u2 ∷ u1 ∷ u0 ∷ [])
          ≡ half_magnitude us + half_power (length vs) * (u2 + 2 ^ 32 * combine u0 u1) =
        rw hat u in
      let (half, above, below) =
        estimate_lem v1 v2 (half_magnitude vs) (half_power (length vs)) u2 (half_magnitude us)
          (combine u0 u1) (omega (arith, hat)) normal half2 lower h2 lower'
          (omega (arith, u', v, small)) in
      let qhat = estimate v1 v2 u2 (combine u0 u1) in
      let n : ℕ = half_magnitude (us ++ u2 ∷ u1 ∷ u0 ∷ []) in
      let above' : n < suc qhat * half_magnitude divisor = rw (u', v) above in
      let below' : qhat * half_magnitude divisor ≤ n + half_magnitude divisor = rw (u', v) below in
      elim (Bool-cases (combine u0 u1 == 0)) [
        | inl e ↦
            let nought : combine u0 u1 ≡ 0 = ground arith in
            let wide : half_power (length vs) * suc u2 ≤ half_power (length vs) * 2 ^ 32 =
              mul-le-mul_left (half_power (length vs)) h2 in
            let first : half_power (length vs) * 2 ^ 32
                ≤ half_power (length vs) * (v2 + 2 ^ 32 * v1) =
              mul-le-mul_left (half_power (length vs)) (omega arith) in
            let plain : u2 + 2 ^ 32 * 0 ≡ u2 = omega arith in
            let low : half_magnitude (us ++ u2 ∷ u1 ∷ u0 ∷ [])
                ≡ half_magnitude us + half_power (length vs) * u2 =
              u' ∙ rw (nought, plain) in
            rw (top, second, next, e)
              (
                us ++ u2 ∷ u1 ∷ u0 ∷ [],
                (
                  sym (append_assoc us (u2 ∷ u1 ∷ u0 ∷ []) z),
                  All-append IsHalf us (u2 ∷ u1 ∷ u0 ∷ []) hs (h2, (h1, (h0, tt))),
                  omega (
                    arith,
                    length-append us (u2 ∷ u1 ∷ u0 ∷ []),
                    length-append vs (v2 ∷ v1 ∷ []),
                    l,
                  ),
                ),
                omega arith,
                omega (arith, low, v, lower', wide, first),
                omega arith,
              )
        | inr e ↦
            rw (top, second, next, e, place, place')
              (subtract_estimate_lem divisor (us ++ u2 ∷ u1 ∷ []) z
                (estimate v1 v2 u2 (combine u0 u1)) u0 len hv row h0 half (rw (← place') above')
                (rw (← place') below'))
      ]

  -- The first half digits of the number, `p` and three more, and the zeros above.
  window_at :
      (d : ℕ) (us p z : List ℕ)
      → IsHalf d
      → half_magnitude us < half_magnitude divisor
      → d ∷ us ≡ p ++ z
      → All IsHalf p
      → All IsHalf z
      → length p ≡ length vs
      → 3 ≤ length z
      → Yields
          (divide_round divisor v1 v2 (d ∷ us))
          (AfterRound (half_magnitude (d ∷ us)) (half_magnitude divisor) (suc (length us)))
  window_at d us p [] hd small e hp hz len l = absurd (omega arith)
  window_at d us p (a ∷ []) hd small e hp hz len l = absurd (omega arith)
  window_at d us p (a ∷ b ∷ []) hd small e hp hz len l = absurd (omega arith)
  window_at d us p (u2 ∷ u1 ∷ u0 ∷ z) hd small e hp (h2, (h1, (h0, hz))) len l =
      let w : List ℕ = p ++ u2 ∷ u1 ∷ u0 ∷ [] in
      let size : length w ≡ suc (length divisor) =
        omega (arith, length-append p (u2 ∷ u1 ∷ u0 ∷ []), length-append vs (v2 ∷ v1 ∷ [])) in
      let whole : d ∷ us ≡ w ++ z = e ∙ sym (append_assoc p (u2 ∷ u1 ∷ u0 ∷ []) z) in
      let value = half_magnitude-append w z in
      let total : half_magnitude w + half_power (length w) * half_magnitude z
          ≡ half_magnitude (d ∷ us) =
        sym (ap half_magnitude whole ∙ value) in
      let room : half_magnitude (d ∷ us) < half_power (length w) =
        rw size (omega (arith, half_magnitude-lt divisor divisor_lem.1)) in
      let (zeros, same) =
        nothing_above (half_magnitude w) (half_power (length w)) (half_magnitude z)
          (half_magnitude (d ∷ us)) total room in
      rw (e, ← same)
        (Yields-map _ (Divided (half_magnitude w) (half_magnitude divisor) (suc (length divisor)) z)
          _ (divide_round_lem p z u2 u1 u0 len hp h2 h1 h0 (omega (arith, same)))
          λ (s, digit) (q, (row, hq, lq), quotient, low, half).
            let rest : half_magnitude (q ++ z) ≡ half_magnitude q =
              half_magnitude-append q z ∙ rw zeros (omega arith) in
            rw (row, rest)
              (
                (
                  quotient,
                  low,
                  All-append IsHalf q z hq hz,
                  omega (arith, length-append q z, lq, size, ap length whole, length-append w z),
                ),
                half,
              ))

  -- A number above the place, less than the divisor, is in the next half digits.
  window :
      (d : ℕ) (us : List ℕ)
      → IsHalf d
      → All IsHalf us
      → half_magnitude us < half_magnitude divisor
      → length divisor ≤ length us
      → Yields
          (divide_round divisor v1 v2 (d ∷ us))
          (AfterRound (half_magnitude (d ∷ us)) (half_magnitude divisor) (suc (length us)))
  window d us hd hu small l =
      let n = length-append vs (v2 ∷ v1 ∷ []) in
      let (p, z, e, hp, hz, len) = split_at (length vs) (d ∷ us) (hd, hu) (omega (arith, n)) in
      window_at d us p z hd small e hp hz len (omega (arith, n, ap length e, length-append p z))

  -- All rounds, on a number whose part from place `k` on is less than the divisor.
  pub divide_rows_lem :
      (k : ℕ) (us : List ℕ)
      → All IsHalf us
      → half_magnitude (drop k us) < half_magnitude divisor
      → k + length divisor ≤ length us
      → Yields
          (divide_rows divisor v1 v2 k us)
          (AfterRows (half_magnitude us) (half_magnitude divisor) (length us) k)
  unfolding divide_rows
  divide_rows_lem zero us h small l = ((omega arith, small, h, refl), tt, refl)
  divide_rows_lem (suc k) [] h small l = absurd (omega arith)
  divide_rows_lem (suc k) (d ∷ us) (hd, h) small l =
      let v : ℕ = half_magnitude divisor in
      Yields-bind _ _ (AfterRows (half_magnitude us) v (length us) k)
        (AfterRows (half_magnitude (d ∷ us)) v (suc (length us)) (suc k))
        (divide_rows_lem k us h small (omega arith))
        λ s ((value, low, hs, len), hq, lq).
          Yields-bind _ _ (AfterRound (half_magnitude (d ∷ s.0)) v (suc (length s.0)))
            (AfterRows (half_magnitude (d ∷ us)) v (suc (length us)) (suc k))
            (window d s.0 hd hs low (omega arith))
            λ t ((value', low', ht, len'), half).
              ((omega (arith, value, value'), low', ht, omega arith), (half, hq), ap suc lq)
