-- ===== src/Times/Schoolbook.antt =====
-- The parts of the multiplication that do not recur: the schoolbook loop, and the product by a half
-- digit or by a power of two.
use chicken_core_mirror.Prelude.{
  ℕ, ◌+◌, ◌-◌, ◌*◌, ◌^◌, ◌<◌, ◌≤◌, ◌≡◌, List, [], ◌∷◌, ◌++◌, Bool, ◌==◌, ==_iff, ltb, if◌then◌else◌,
  length, replicate, All-append, arith, ◌∙◌, inl, inr, Bool-cases, ◌⊎◌,
}
use chicken_core_mirror.Prelude.Int.{signed_magnitude}
use chicken_core_mirror.Word.{IsWord, IsHalf, ilen}
use chicken_core_mirror.Word.Length.{ilen_bounds}
use chicken_core_mirror.Digits.{magnitude, AreDigits, multiply_digits, shift_left, scale_up}
use chicken_core_mirror.Digits.Products.{multiply_digits_lem}
use chicken_core_mirror.Digits.Scaling.{scale_up_lem}
use chicken_core_mirror.Digits.Shifts.{shift_left_lem}
use chicken_core_mirror.Bignum.{IsInteger, value, Computes}
use chicken_core_mirror.Bignum.Simplify.{bignum_simplify_lem}
use chicken_core_mirror.Bignum.Unsigned.{simplify-Computes}
use chicken_core_mirror.Times.{schoolbook, times_small}
use native.Mathlib.Nat.{one-le-pow, pow-le-pow_right}

-- The schoolbook multiplication of two digit arrays writes within the result and gives the well-
-- formed integer of the product of their magnitudes under the sign asked for.
pub schoolbook_lem :
    (x y : List ℕ) (negp : Bool)
    → AreDigits x
    → AreDigits y
    → Computes (schoolbook x y negp) (signed_magnitude negp (magnitude x * magnitude y))
unfolding schoolbook
schoolbook_lem x y negp hx hy =
    simplify-Computes (multiply_digits x y (replicate (length x + length y) 0)) negp _
      (length x + length y) (multiply_digits_lem x y hx hy)

-- Fewer than 65 bits, so the shift of a power of two is by less than a digit.
pub power_shift : (a : ℕ) → IsWord a → 0 < a → ilen a - 1 < 64
power_shift a h p = elim (Bool-cases (ltb 64 (ilen a))) [
  | inl e ↦
      let wide : 2 ^ 65 ≤ 2 ^ ilen a =
        pow-le-pow_right (omega arith) {i = 65} {j = ilen a} (ground arith) in
      absurd (omega (arith, (ilen_bounds a h).1 p, wide))
  | inr e ↦ ground arith
]

product_digits :
    (ds : List ℕ) (absy : ℕ)
    → AreDigits ds
    → IsWord absy
    → 0 < absy
    → IsHalf absy ⊎ (2 ^ (ilen absy - 1) ≡ absy)
    → let s =
        if 2 ^ (ilen absy - 1) == absy
        then shift_left ds (ilen absy - 1) 0
        else scale_up ds absy 0 in
      (magnitude (s.0 ++ s.1 ∷ []) ≡ magnitude ds * absy) × AreDigits (s.0 ++ s.1 ∷ [])
product_digits ds absy h hy p small = elim (Bool-cases (2 ^ (ilen absy - 1) == absy)) [
  | inl e ↦
      let k = ilen absy - 1 in
      let exact : 2 ^ k ≡ absy = (==_iff (2 ^ k) absy).0 e in
      let (value, digits, last, len) =
        shift_left_lem ds k 0 h (power_shift absy hy p) (one-le-pow k 2 (omega arith)) in
      rw e (
        value ∙ rw exact (omega arith),
        All-append IsWord _ _ digits (omega (arith, last, exact), tt),
      )
  | inr e ↦
      let half : IsHalf absy = elim small [ inl l ↦ l | inr r ↦ absurd (ground arith) ] in
      let (value, digits, last, len) = scale_up_lem ds absy 0 h half (omega arith) in
      rw e (value ∙ omega arith, All-append IsWord _ _ digits (omega (arith, last), tt))
]

pub times_small_lem :
    (ds : List ℕ) (absy : ℕ) (negp : Bool)
    → AreDigits ds
    → IsWord absy
    → 0 < absy
    → IsHalf absy ⊎ (2 ^ (ilen absy - 1) ≡ absy)
    → IsInteger (times_small ds absy negp)
      × (value (times_small ds absy negp) ≡ signed_magnitude negp (magnitude ds * absy))
unfolding times_small
times_small_lem ds absy negp h hy p small =
    let (same, digits) = product_digits ds absy h hy p small in
    rw (← same) (bignum_simplify_lem negp _ digits)
