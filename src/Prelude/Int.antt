-- ===== src/Prelude/Int.antt =====
-- Signed integers over the native numbers, under the library's names.
use chicken_core_mirror.Prelude.Tests.{ltb, leb, if◌then◌else◌}
use Prim.Native.Nat.{ℕ, suc, ◌+◌, ◌-◌, ◌*◌, ◌≤◌}
use mathlib.Core.Bool.{Bool, true, false, not}
use mathlib.Core.Path.{◌≡◌}
use native.Mathlib.Omega.{arith}

-- `negsuc n` is -(n + 1).
pub data ℤ : Type 0 where
  pos : ℕ → ℤ
  negsuc : ℕ → ℤ

abbrev pub pos_part : ℤ → ℕ
pos_part (pos n) = n
pos_part (negsuc n) = 0

abbrev pub neg_part : ℤ → ℕ
neg_part (pos n) = 0
neg_part (negsuc n) = suc n

-- a - b, as an integer.
abbrev pub sub_ℕ : ℕ → ℕ → ℤ
sub_ℕ a b = if leb b a then pos (a - b) else negsuc (b - a - 1)

infixl 65 ◌+ℤ◌ ◌-ℤ◌
infixl 70 ◌*ℤ◌
infix 50 ◌≤ℤ◌
unfoldable pub ◌+ℤ◌ : ℤ → ℤ → ℤ
a +ℤ b = sub_ℕ (pos_part a + pos_part b) (neg_part a + neg_part b)

unfoldable pub ◌-ℤ◌ : ℤ → ℤ → ℤ
a -ℤ b = sub_ℕ (pos_part a + neg_part b) (neg_part a + pos_part b)

unfoldable pub ◌*ℤ◌ : ℤ → ℤ → ℤ
a *ℤ b =
    sub_ℕ (pos_part a * pos_part b + neg_part a * neg_part b)
      (pos_part a * neg_part b + neg_part a * pos_part b)

abbrev pub ◌≤ℤ◌ : ℤ → ℤ → Type 0
a ≤ℤ b = pos_part a + neg_part b ≤ pos_part b + neg_part a

abbrev pub ltb_ℤ : ℤ → ℤ → Bool
ltb_ℤ a b = ltb (pos_part a + neg_part b) (pos_part b + neg_part a)

-- A magnitude under a sign.
abbrev pub signed_magnitude : Bool → ℕ → ℤ
signed_magnitude true m = sub_ℕ 0 m
signed_magnitude false m = pos m

-- The two parts of a number with a minus sign.
pub minus_parts : (m : ℕ) → (pos_part (sub_ℕ 0 m) ≡ 0) × (neg_part (sub_ℕ 0 m) ≡ m)
minus_parts m = ground arith

-- Signs multiply.
pub signs_multiply :
    (m n : Bool) (a b : ℕ)
    → signed_magnitude (if m then not n else n) (a * b)
      ≡ signed_magnitude m a *ℤ signed_magnitude n b
unfolding ◌*ℤ◌
signs_multiply true true a b =
    let c : 0 * 0 + a * b ≡ a * b = omega arith in
    let d : 0 * b + a * 0 ≡ 0 = omega arith in
    rw ((minus_parts a).0, (minus_parts a).1, (minus_parts b).0, (minus_parts b).1, c, d)
      (ground arith)
signs_multiply true false a b =
    let c : 0 * b + a * 0 ≡ 0 = omega arith in
    let d : 0 * 0 + a * b ≡ a * b = omega arith in rw ((minus_parts a).0, (minus_parts a).1, c, d)
signs_multiply false true a b =
    let c : a * 0 + 0 * b ≡ 0 = omega arith in
    let d : a * b + 0 * 0 ≡ a * b = omega arith in rw ((minus_parts b).0, (minus_parts b).1, c, d)
signs_multiply false false a b = ground arith
