-- ===== src/Divrem/Signs.antt =====
-- What a division of integers promises, by signs and magnitudes.
use chicken_core_mirror.Prelude.{
  ℕ, zero, suc, ◌+◌, ◌/◌, ◌%◌, ◌≡◌, Option, none, some, Yields, Bool, true, false, not,
  if◌then◌else◌, arith, refl,
}
use chicken_core_mirror.Prelude.Int.{ℤ, pos, negsuc, pos_part, neg_part, signed_magnitude, sub_ℕ}
use chicken_core_mirror.Bignum.{Integer, IsInteger, value}
use chicken_core_mirror.Divrem.{Outcome, returned, division_by_zero, failed, and_then, of_option}
use chicken_core_mirror.Overflow.{truncate}
use chicken_core_mirror.Overflow.Products.{truncate_signs}
use native.Mathlib.Nat.{zero-mod}

abbrev pub abs_ℤ : ℤ → ℕ
abs_ℤ z = pos_part z + neg_part z

-- What the quotient rounded towards zero leaves: it has the sign of the dividend.
abbrev pub leftover : ℤ → ℤ → ℤ
leftover (pos a) b = pos (a % abs_ℤ b)
leftover (negsuc a) b = signed_magnitude true (suc a % abs_ℤ b)

abs-signed_magnitude : (n : Bool) (b : ℕ) → abs_ℤ (signed_magnitude n b) ≡ b
abs-signed_magnitude true b = ground arith
abs-signed_magnitude false b = omega arith

minus-suc : (m : ℕ) → sub_ℕ 0 (suc m) ≡ negsuc m
minus-suc m = ground arith

pub leftover_signs :
    (m n : Bool) (a b : ℕ)
    → leftover (signed_magnitude m a) (signed_magnitude n b) ≡ signed_magnitude m (a % b)
leftover_signs false n a b = rw (abs-signed_magnitude n b) refl
leftover_signs true n zero b = rw (abs-signed_magnitude n b, zero-mod b) refl
leftover_signs true n (suc a) b = rw (minus-suc a, abs-signed_magnitude n b) refl

-- The operator returns a result with the property.
abbrev pub Returns : {A : Type 0} → Outcome A → (A → Type 0) → Type 0
Returns (returned a) P = P a
Returns division_by_zero P = ⊥
Returns failed P = ⊥

module _ {A : Type 0} where
  pub Returns-of_option : (o : Option A) (P : A → Type 0) → Yields o P → Returns (of_option o) P
  Returns-of_option none P h = h
  Returns-of_option (some a) P h = h

  pub Returns-and_then :
      {B : Type 0} (o : Outcome A) (f : A → Outcome B) (P : A → Type 0) (Q : B → Type 0)
      → Returns o P
      → ((a : A) → P a → Returns (f a) Q)
      → Returns (and_then o f) Q
  Returns-and_then (returned a) f P Q h next = next a h
  Returns-and_then division_by_zero f P Q h next = absurd h
  Returns-and_then failed f P Q h next = absurd h

-- The quotient and the remainder of two numbers, as well-formed integers.
abbrev pub AreDivrem : ℤ → ℤ → Integer × Integer → Type 0
AreDivrem x y s =
    IsInteger s.0 × IsInteger s.1 × (value s.0 ≡ truncate x y) × (value s.1 ≡ leftover x y)

-- The same by signs and magnitudes.
pub by_signs :
    (m n : Bool) (a b : ℕ) (s : Integer × Integer)
    → IsInteger s.0
    → IsInteger s.1
    → value s.0 ≡ signed_magnitude (if m then not n else n) (a / b)
    → value s.1 ≡ signed_magnitude m (a % b)
    → AreDivrem (signed_magnitude m a) (signed_magnitude n b) s
by_signs m n a b s hq hr vq vr =
    rw (truncate_signs m n a b, leftover_signs m n a b) (hq, hr, vq, vr)
