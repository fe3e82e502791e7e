-- ===== src/LongDivision/Corrections.antt =====
-- A round of the long division after its estimate: the subtraction, and the add back where the
-- estimate was one too high.
use chicken_core_mirror.Prelude.{
  ℕ, zero, suc, ◌+◌, ◌*◌, ◌<◌, ◌≤◌, ◌≡◌, List, [], ◌∷◌, ◌++◌, some, Bool, true, false, length,
  if◌then◌else◌, ◌>>=◌, All, Yields, Yields-bind, arith, refl, ap, sym, ◌∙◌,
}
use chicken_core_mirror.Word.{IsHalf, lo_half, sub_word}
use chicken_core_mirror.Digits.Products.{half_magnitude}
use chicken_core_mirror.LongDivision.{add_back, subtract_estimate}
use chicken_core_mirror.LongDivision.Subtract.{
  half_power, IsRow, Difference, Sum, multiply_subtract_lem, add_back_lem, half_magnitude-lt,
}
use mathlib.Core.List.{append_assoc}

split_last :
    (q : List ℕ) (n : ℕ)
    → All IsHalf q
    → length q ≡ suc n
    → (p : List ℕ) × (t : ℕ) × (q ≡ p ++ t ∷ []) × All IsHalf p × IsHalf t × (length p ≡ n)
split_last [] n h l = absurd (omega arith)
split_last (a ∷ []) n (ha, h) l = ([], a, refl, tt, ha, omega arith)
split_last (a ∷ b ∷ q) zero (ha, h) l = absurd (omega arith)
split_last (a ∷ b ∷ q) (suc n) (ha, h) l =
    let (p, t, e, hp, ht, len) = split_last (b ∷ q) n h (omega arith) in
    (a ∷ p, t, ap (λ (s : List ℕ). a ∷ s) e, (ha, hp), ht, ap suc len)

-- The round leaves the remainder in the row of `l` places, and gives the quotient.
abbrev pub Divided : ℕ → ℕ → ℕ → List ℕ → List ℕ × ℕ → Type 0
Divided u v l z s =
    (q : List ℕ) × IsRow l z q s.0
    × (s.1 * v + half_magnitude q ≡ u)
    × (half_magnitude q < v)
    × IsHalf s.1

below_power : (q : List ℕ) (n : ℕ) → All IsHalf q → length q ≡ n → half_magnitude q < half_power n
below_power q n h l = rw (← l) (half_magnitude-lt q h)

-- Too much was subtracted: one carry goes out of the sum.
one_carry :
    (r p v u qhat w c : ℕ)
    → r + qhat * v ≡ u + p
    → r < p
    → w < p
    → v ≤ p
    → qhat * v ≤ u + v
    → w + c * p ≡ r + v
    → (1 ≤ qhat) × (w + qhat * v ≡ u + v)
one_carry r p v u zero w c e hr hw hv hq s = absurd (omega arith)
one_carry r p v u (suc q) w zero e hr hw hv hq s = absurd (omega arith)
one_carry r p v u (suc q) w (suc zero) e hr hw hv hq s = (omega arith, omega arith)
one_carry r p v u (suc q) w (suc (suc c)) e hr hw hv hq s = absurd (omega arith)

less_one : (q v w u : ℕ) → IsHalf q → 1 ≤ q → w + q * v ≡ u + v → lo_half (sub_word q 1) * v + w ≡ u
less_one zero v w u h l e = absurd (omega arith)
less_one (suc q) v w u h l e =
    let same : lo_half (sub_word (suc q) 1) ≡ q = omega arith in rw same (omega arith)

-- The digit that is kept, with the divisor added back where it was too high.
after_subtraction :
    (v p z : List ℕ) (qhat top : ℕ)
    → length p ≡ length v
    → All IsHalf v
    → All IsHalf p
    → IsHalf top
    → IsHalf qhat
    → half_magnitude (p ++ top ∷ []) < suc qhat * half_magnitude v
    → qhat * half_magnitude v ≤ half_magnitude (p ++ top ∷ []) + half_magnitude v
    → (s : List ℕ × Bool)
    → Difference (half_magnitude (p ++ top ∷ [])) (0 + qhat * half_magnitude v) (suc (length v)) z s
    → Yields
        (if s.1
          then (add_back v 0 s.0 >>= λ w. some (w, lo_half (sub_word qhat 1)))
          else some (s.0, lo_half qhat))
        (Divided (half_magnitude (p ++ top ∷ [])) (half_magnitude v) (suc (length v)) z)
after_subtraction v p z qhat top l hv hp ht hq above below (s, false) (q, row, value) =
    let same : lo_half qhat ≡ qhat = omega arith in
    (q, row, rw same (omega (arith, value)), omega (arith, value, above), omega arith)
after_subtraction v p z qhat top l hv hp ht hq above below (s, true) (q, (e, halves, len), value) =
    let (p', t, e', hp', ht', len') = split_last q (length v) halves len in
    let place : s ≡ p' ++ t ∷ z = e ∙ rw e' (append_assoc p' (t ∷ []) z) in
    let u = half_magnitude (p ++ top ∷ []) in
    let n = suc (length v) in
    rw place (
      Yields-bind _ _ (Sum (half_magnitude (p' ++ t ∷ []) + 0 + half_magnitude v) n z)
        (Divided u (half_magnitude v) n z) (add_back_lem v p' z 0 t len' hv hp' ht' (omega arith))
        λ w (q', c, (row, halves', size), sum).
          let bound : half_magnitude q < half_power n = below_power q n halves len in
          let bound' : half_magnitude q' < half_power n = below_power q' n halves' size in
          let same : half_magnitude (p' ++ t ∷ []) ≡ half_magnitude q =
            ap half_magnitude (sym e') in
          let small = half_magnitude-lt v hv in
          let (positive, total) =
            one_carry (half_magnitude q) (half_power n) (half_magnitude v) u qhat
              (half_magnitude q') c (omega (arith, value)) bound bound' (omega (arith, small)) below
              (omega (arith, sum, same)) in
          (
            q',
            (row, halves', size),
            less_one qhat (half_magnitude v) (half_magnitude q') u hq positive total,
            omega (arith, total, above),
            omega arith,
          ))

-- The part of a round after the estimate `qhat`, which may be one too high.
pub subtract_estimate_lem :
    (v p z : List ℕ) (qhat top : ℕ)
    → length p ≡ length v
    → All IsHalf v
    → All IsHalf p
    → IsHalf top
    → IsHalf qhat
    → half_magnitude (p ++ top ∷ []) < suc qhat * half_magnitude v
    → qhat * half_magnitude v ≤ half_magnitude (p ++ top ∷ []) + half_magnitude v
    → Yields
        (subtract_estimate v (p ++ top ∷ z) qhat)
        (Divided (half_magnitude (p ++ top ∷ [])) (half_magnitude v) (suc (length v)) z)
unfolding subtract_estimate
subtract_estimate_lem v p z qhat top l hv hp ht hq above below =
    let u = half_magnitude (p ++ top ∷ []) in
    let n = suc (length v) in
    Yields-bind _ _ (Difference u (0 + qhat * half_magnitude v) n z)
      (Divided u (half_magnitude v) n z)
      (multiply_subtract_lem v p z qhat 0 top l hv hp ht hq (omega arith))
      λ s d. after_subtraction v p z qhat top l hv hp ht hq above below s d
