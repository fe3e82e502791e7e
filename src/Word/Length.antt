-- ===== src/Word/Length.antt =====
-- C_ilen (chicken.h): the length of a word in bits.
use chicken_core_mirror.Prelude.{
  refl, ℕ, zero, suc, ◌+◌, ◌*◌, ◌/◌, ◌^◌, ◌<◌, ◌≤◌, ◌≡◌, ap, arith, ◌==◌, if◌then◌else◌, inl, inr,
  Bool-cases,
}
use chicken_core_mirror.Word.{IsWord, ilen_step, ilen}
use native.Mathlib.Nat.{pow-suc, one-le-pow, div-lt_iff_lt-mul}

pub two_pow_add : (a b : ℕ) → 2 ^ (a + b) ≡ 2 ^ a * 2 ^ b
two_pow_add a zero = let e : a + 0 ≡ a = omega arith in rw e (omega arith)
two_pow_add a (suc b) =
    let e : a + suc b ≡ suc (a + b) = omega arith in
    rw e
      (omega (arith, pow-suc 2 (a + b), two_pow_add a b, ap (λ (t : ℕ). 2 ^ a * t) (pow-suc 2 b)))

-- `s.0` bits of `x` were counted and dropped, and `s.1` is what is left, below `2 ^ k`.
record Counted (x k : ℕ) (s : ℕ × ℕ) : Type 0 where
  above : s.1 * 2 ^ s.0 ≤ x
  below : x < (s.1 + 1) * 2 ^ s.0
  small : s.1 < 2 ^ k
  positive : 0 < x → 0 < s.1

-- Multiplication keeps the two sides of a bound in order.
scale_up : (a b p : ℕ) → a ≤ b → a * p ≤ b * p
scale_up a b p h = grind arith

-- One test of C_ilen halves the width.
ilen_step-Counted :
    (x k : ℕ) (s : ℕ × ℕ) → 0 < k → Counted x (k + k) s → Counted x k (ilen_step k s)
unfolding ilen_step
ilen_step-Counted x k (n, y) pos c = elim (Bool-cases (y / 2 ^ k == 0)) [
  | inl e ↦ rw e (record {
    above = c.above;
    below = c.below;
    small = ground (arith, one-le-pow k 2);
    positive = c.positive;
  })
  | inr e ↦ rw e (record {
    above =
        let low = scale_up (y / 2 ^ k * 2 ^ k) y (2 ^ n) (omega arith) in
        rw (two_pow_add n k) (omega (arith, low, c.above));
    below =
        let high =
          scale_up (y + 1) ((y / 2 ^ k + 1) * 2 ^ k) (2 ^ n) (ground (arith, one-le-pow k 2)) in
        rw (two_pow_add n k) (omega (arith, high, c.below));
    small =
        (div-lt_iff_lt-mul (one-le-pow k 2 (omega arith))).1
          (omega (arith, two_pow_add k k, c.small));
    positive = λ h. ground arith;
  })
]

ilen_halvings :
    (x : ℕ)
    → IsWord x
    → Counted x 2 (ilen_step 2 (ilen_step 4 (ilen_step 8 (ilen_step 16 (ilen_step 32 (0, x))))))
ilen_halvings x w =
    let start : Counted x (32 + 32) (0, x) = record {
      above = omega arith;
      below = omega arith;
      small = w;
      positive = λ h. h;
    } in
    let s32 = ilen_step-Counted x 32 (0, x) (omega arith) start in
    let s16 = ilen_step-Counted x 16 _ (omega arith) s32 in
    let s8 = ilen_step-Counted x 8 _ (omega arith) s16 in
    let s4 = ilen_step-Counted x 4 _ (omega arith) s8 in ilen_step-Counted x 2 _ (omega arith) s4

-- The last test of C_ilen, where at most two bits are left.
last_bits :
    (x : ℕ) (s : ℕ × ℕ)
    → Counted x 2 s
    → (x < 2 ^ (if s.1 / 2 == 0 then s.0 + s.1 else s.0 + 2))
      × (0 < x → 2 ^ (if s.1 / 2 == 0 then s.0 + s.1 else s.0 + 2) ≤ 2 * x)
last_bits x (n, zero) c =
    let e : n + 0 ≡ n = omega arith in
    rw e (omega (arith, c.below), λ h. absurd (omega (arith, c.positive h)))
last_bits x (n, suc zero) c = omega (arith, c.below, c.above, two_pow_add n 1)
last_bits x (n, suc (suc zero)) c = omega (arith, c.below, c.above, two_pow_add n 2)
last_bits x (n, suc (suc (suc zero))) c = omega (arith, c.below, c.above, two_pow_add n 2)
last_bits x (n, suc (suc (suc (suc y)))) c = absurd (omega (arith, c.small))

pub ilen_bounds : (x : ℕ) → IsWord x → (x < 2 ^ ilen x) × (0 < x → 2 ^ ilen x ≤ 2 * x)
unfolding ilen
ilen_bounds x w = last_bits x _ (ilen_halvings x w)

ilen-nought : ilen 0 ≡ 0
unfolding ilen ilen_step
ilen-nought = refl

-- C_ilen of a word x is the least number n of bits with x < 2 ^ n: twice the word, and one more,
-- reaches 2 ^ n.
pub ilen_lem : (x : ℕ) → IsWord x → (x < 2 ^ ilen x) × (2 ^ ilen x ≤ 2 * x + 1)
ilen_lem x h = elim (Bool-cases (x == 0)) [
  | inl e ↦ let nought : x ≡ 0 = ground arith in rw (nought, ilen-nought) (omega arith, omega arith)
  | inr e ↦ omega (arith, (ilen_bounds x h).0, (ilen_bounds x h).1 (ground arith))
]
