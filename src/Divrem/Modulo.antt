-- ===== src/Divrem/Modulo.antt =====
-- The operator modulo on exact integers.
use chicken_core_mirror.Prelude.{
  ℕ, suc, ◌+◌, ◌-◌, ◌/◌, ◌%◌, ◌<◌, ◌≡◌, ◌==◌, ◌&&◌, ◌⊎◌, Option, Bool, true, false, not,
  if◌then◌else◌, arith, refl, sym, ◌∙◌, inl, inr, Bool-cases, ltb,
}
use chicken_core_mirror.Prelude.Int.{ℤ, pos, negsuc, signed_magnitude, ◌+ℤ◌, pos_part}
use chicken_core_mirror.Bignum.{Integer, fix, big, IsInteger, value, Computes}
use chicken_core_mirror.Bignum.Sums.{integer_plus_lem}
use chicken_core_mirror.Divide.Small.{remainder_of}
use chicken_core_mirror.Divrem.{
  of_option, Divide, is_zero, is_positive, remainder_only, integer_remainder, follow_sign,
  integer_modulo,
}
use chicken_core_mirror.Divrem.Signs.{Returns-of_option, Returns-and_then, leftover, abs_ℤ}
use chicken_core_mirror.Divrem.Bignums.{IsRoom}
use chicken_core_mirror.Divrem.Integers.{IsSized, room-Covers}
use chicken_core_mirror.Divrem.Remainders.{Unless, IsResult, remainder_only_lem}
use native.Mathlib.Nat.{mod-eq_of_lt, div-add-mod', mod-lt}

-- What is left of the quotient rounded down: it has the sign of the divisor.
abbrev pub floor_mod : ℤ → ℤ → ℤ
floor_mod (pos a) (pos b) = pos (a % b)
floor_mod (pos a) (negsuc b) = signed_magnitude true ((suc b - a % suc b) % suc b)
floor_mod (negsuc a) (pos b) = pos (b - 1 - a % b)
floor_mod (negsuc a) (negsuc b) = signed_magnitude true (suc a % suc b)

-- The remainder of the next number.
next_remainder :
    (a b : ℕ)
    → 0 < b
    → ((suc a % b ≡ 0) × (a % b + 1 ≡ b)) ⊎ ((suc a % b ≡ suc (a % b)) × (a % b + 1 < b))
next_remainder a b p = elim (Bool-cases (a % b + 1 == b)) [
  | inl e ↦
      let last : a % b + 1 ≡ b = ground arith in
      inl (remainder_of (suc (a / b)) 0 b (suc a) (omega (arith, div-add-mod' a b, last)) p, last)
  | inr e ↦
      let more : a % b + 1 < b = ground (arith, mod-lt a p) in
      inr (
        remainder_of (a / b) (suc (a % b)) b (suc a) (omega (arith, div-add-mod' a b))
            (omega (arith, more)),
        more,
      )
]

-- The tests of the code, on values.
abbrev positive_ℤ : ℤ → Bool
positive_ℤ z = ltb 0 (pos_part z)

abbrev differs : Bool → Bool → Bool → Bool
differs y r zero_r = not (if y then r else not r) && not zero_r

is_positive-value : (x : Integer) → IsInteger x → is_positive x ≡ positive_ℤ (value x)
unfolding is_positive
is_positive-value (fix n) (h, f) = ground arith
is_positive-value (big true ds) h = ground arith
is_positive-value (big false ds) h = ground arith

is_zero-value : (x : Integer) → IsInteger x → is_zero x ≡ (abs_ℤ (value x) == 0)
is_zero-value (fix n) (h, f) = ground arith
is_zero-value (big true ds) h = ground arith
is_zero-value (big false ds) h = ground arith

follow_value :
    (x y : ℤ)
    → 0 < abs_ℤ y
    → let r = leftover x y in
      (if differs (positive_ℤ y) (positive_ℤ r) (abs_ℤ r == 0) then r +ℤ y else r) ≡ floor_mod x y
unfolding ◌+ℤ◌
follow_value (pos a) (pos b) p = ground arith
follow_value (pos a) (negsuc b) p =
    let below : a % suc b < suc b = mod-lt a (omega arith) in
    let same : 0 + suc b ≡ suc b = omega arith in
    rw same (elim (Bool-cases (a % suc b == 0)) [
      | inl e ↦
          let nought : a % suc b ≡ 0 = ground arith in
          let whole : (suc b - 0) % suc b ≡ 0 =
            remainder_of 1 0 (suc b) (suc b - 0) (omega arith) (omega arith) in
          rw (nought, whole) refl
      | inr e ↦
          let part : (suc b - a % suc b) % suc b ≡ suc b - a % suc b =
            mod-eq_of_lt (ground arith) in
          rw part (ground arith)
    ])
follow_value (negsuc a) (pos b) p = elim (next_remainder a b (omega arith)) [
  | inl (e, last) ↦ ground arith
  | inr (e, more) ↦ ground arith
]
follow_value (negsuc a) (negsuc b) p = ground arith

follow_sign_lem :
    (x : ℤ) (y r : Integer)
    → IsInteger y
    → IsInteger r
    → is_zero y ≡ false
    → value r ≡ leftover x (value y)
    → Computes (follow_sign y r) (floor_mod x (value y))
unfolding follow_sign
follow_sign_lem x y r hy hr n v =
    let positive : 0 < abs_ℤ (value y) = ground (arith, sym (is_zero-value y hy) ∙ n) in
    let goal = follow_value x (value y) positive in
    let t = differs (is_positive y) (is_positive r) (is_zero r) in
    let same : differs (positive_ℤ (value y)) (positive_ℤ (leftover x (value y)))
          (abs_ℤ (leftover x (value y)) == 0)
        ≡ t =
      rw (← v, ← is_positive-value y hy, ← is_positive-value r hr, ← is_zero-value r hr) refl in
    elim (Bool-cases t) [
      | inl e ↦
          let sum : leftover x (value y) +ℤ value y ≡ floor_mod x (value y) =
            rw (same ∙ e) at goal in
          rw (e, ← sum, ← v) (integer_plus_lem r y hr hy)
      | inr e ↦
          let kept : leftover x (value y) ≡ floor_mod x (value y) = rw (same ∙ e) at goal in
          rw e (hr, v ∙ kept)
    ]

-- With no room on the stack for Burnikel-Ziegler division, or with any correct one,
-- C_s_a_u_i_integer_modulo on two well-formed integers, the dividend of fewer than 2^30 - 1
-- digits, calls the error for a division by zero for the divisor 0, and otherwise returns the
-- well-formed integer that the quotient rounded down leaves, which has the sign of the divisor.
pub integer_modulo_lem :
    (rec : Option Divide) (x y : Integer)
    → IsRoom rec
    → IsSized x
    → IsInteger x
    → IsInteger y
    → Unless (is_zero y) (integer_modulo rec x y) (IsResult (floor_mod (value x) (value y)))
unfolding integer_modulo integer_remainder
integer_modulo_lem rec x y room size hx hy = elim (Bool-cases (is_zero y)) [
  | inl e ↦ rw e refl
  | inr e ↦
      let covers = room-Covers rec x y room hx hy size in
      rw e (
        Returns-and_then (remainder_only rec x y) (λ r. of_option (follow_sign y r))
          (IsResult (leftover (value x) (value y))) (IsResult (floor_mod (value x) (value y)))
          (remainder_only_lem rec x y covers hx hy e)
          λ s (hr, vr).
            Returns-of_option (follow_sign y s) (IsResult (floor_mod (value x) (value y)))
              (follow_sign_lem (value x) y s hy hr e vr))
]
