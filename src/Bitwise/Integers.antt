-- ===== src/Bitwise/Integers.antt =====
-- The bitwise operators on any exact integers.
use chicken_core_mirror.Prelude.{
  ℕ, zero, suc, ◌-◌, ◌^◌, ◌<◌, ◌≡◌, ◌==◌, List, Bool, true, false, not, ◌||◌, ltb, to_nat,
  if◌then◌else◌, arith, refl, inl, inr, Bool-cases,
}
use chicken_core_mirror.Word.{IsWord, bit_at, signed, abs_word}
use chicken_core_mirror.Word.Bitwise.{bit_and-bit, bit_or-bit, bit_or-lt, bit_xor-bit, bit_xor-lt}
use chicken_core_mirror.Bignum.{Integer, fix, big, IsInteger, value, to_big, fix_to_big}
use chicken_core_mirror.Bignum.Values.{to_big_lem, signed_value}
use chicken_core_mirror.Overflow.Bits.{o_fixnum_bitwise_lem}
use chicken_core_mirror.Bitwise.{bignum_and, bignum_combine, bitwise_and, bitwise_ior, bitwise_xor}
use chicken_core_mirror.Bitwise.Bits.{bit_of, bit_at-beyond, bit_at-complement}
use chicken_core_mirror.Bitwise.Operators.{
  IsOperand, HasBits, or_sign, xor_sign, bignum_combine_lem, and_negative, and_positive,
}
use Prim.Native.Nat.{bit_and, bit_or, bit_xor, max, min, differ}

to_big-IsOperand : (x : Integer) → IsInteger x → IsOperand (to_big x)
unfolding fix_to_big
to_big-IsOperand (fix n) (h, f) = elim (Bool-cases (n == 0)) [
  | inl e ↦ rw e (tt, λ s. ground arith)
  | inr e ↦ rw e (unfold abs_word in ((ground arith, tt), λ s. ground arith))
]
to_big-IsOperand (big negp ds) (h, t, m) = (h, λ e. omega (arith, m))

-- The bits of a fixnum: those of its word, and then its sign.
pub signed_bits :
    (w k : ℕ) → IsWord w → bit_of (signed w) k ≡ (if ltb k 64 then bit_at w k else bit_at w 63)
signed_bits w k h = elim (Bool-cases (ltb w (2 ^ 63))) [
  | inl e ↦
      let top : bit_at w 63 ≡ 0 = ground arith in
      rw e (elim (Bool-cases (ltb k 64)) [
        | inl e' ↦ rw e' refl
        | inr e' ↦ rw (e', top) (bit_at-beyond 64 k w h (ground arith))
      ])
  | inr e ↦
      let top : bit_at w 63 ≡ 1 = ground arith in
      rw e (elim (Bool-cases (ltb k 64)) [
        | inl e' ↦ let c = bit_at-complement 64 k w h (ground arith) in rw (e', c) (omega arith)
        | inr e' ↦
            let small : 2 ^ 64 - 1 - w < 2 ^ 64 = omega arith in
            rw (e', top, bit_at-beyond 64 k (2 ^ 64 - 1 - w) small (ground arith)) refl
      ])
]

-- An operation on words that works bit by bit, on two fixnums.
fixnum_bits :
    (op f : ℕ → ℕ → ℕ) (x y : ℕ)
    → ((k : ℕ) → bit_at (op x y) k ≡ f (bit_at x k) (bit_at y k))
    → IsWord x
    → IsWord y
    → IsWord (op x y)
    → (k : ℕ) → bit_of (signed (op x y)) k ≡ f (bit_of (signed x) k) (bit_of (signed y) k)
fixnum_bits op f x y bit hx hy h k =
    rw (signed_bits (op x y) k h, signed_bits x k hx, signed_bits y k hy)
      (elim (Bool-cases (ltb k 64)) [ inl e ↦ rw e (bit k) | inr e ↦ rw e (bit 63) ])

-- The bignum part of bitwise-and, for either sign.
and_signed :
    (x y : Bool × List ℕ)
    → IsOperand x
    → IsOperand y
    → HasBits min (signed_value x) (signed_value y) (bignum_and x y)
and_signed (false, xs) (false, ys) hx hy = and_positive xs ys hx.0 hy.0
and_signed (true, xs) (n, ys) hx hy = and_negative (true, xs) (n, ys) hx hy refl
and_signed (false, xs) (true, ys) hx hy = and_negative (false, xs) (true, ys) hx hy refl

big_and :
    (x y : Integer)
    → IsInteger x
    → IsInteger y
    → HasBits min (value x) (value y) (bignum_and (to_big x) (to_big y))
big_and x y hx hy =
    rw ((to_big_lem x hx).1, (to_big_lem y hy).1) at
      (and_signed (to_big x) (to_big y) (to_big-IsOperand x hx) (to_big-IsOperand y hy))

big_combine :
    (op f : ℕ → ℕ → ℕ) (s : Bool) (x y : Integer)
    → ((k a b : ℕ) → bit_at (op a b) k ≡ f (bit_at a k) (bit_at b k))
    → ((a b : ℕ) → IsWord a → IsWord b → IsWord (op a b))
    → ((b : ℕ) → b < 2 → f 0 b ≡ b)
    → ((a : ℕ) → a < 2 → f a 0 ≡ a)
    → to_nat s ≡ f (to_nat (to_big x).0) (to_nat (to_big y).0)
    → IsInteger x
    → IsInteger y
    → HasBits f (value x) (value y) (bignum_combine op s (to_big x) (to_big y))
big_combine op f s x y bit word left right sign hx hy =
    rw ((to_big_lem x hx).1, (to_big_lem y hy).1) at
      (bignum_combine_lem op f s (to_big x) (to_big y) bit word left right sign
        (to_big-IsOperand x hx) (to_big-IsOperand y hy))

pub bitwise_and_lem :
    (x y : Integer) → IsInteger x → IsInteger y → HasBits min (value x) (value y) (bitwise_and x y)
unfolding bitwise_and
bitwise_and_lem (fix x) (fix y) hx hy =
    let ok = (o_fixnum_bitwise_lem x y hx hy).0.1 in
    (ok, fixnum_bits bit_and min x y (λ k. bit_and-bit k x y) hx.0 hy.0 ok.0)
bitwise_and_lem (fix x) (big n y) hx hy = big_and (fix x) (big n y) hx hy
bitwise_and_lem (big m x) (fix y) hx hy = big_and (big m x) (fix y) hx hy
bitwise_and_lem (big m x) (big n y) hx hy = big_and (big m x) (big n y) hx hy

big_ior :
    (x y : Integer)
    → IsInteger x
    → IsInteger y
    → HasBits max
        (value x)
        (value y)
        (bignum_combine bit_or ((to_big x).0 || (to_big y).0) (to_big x) (to_big y))
big_ior x y hx hy =
    big_combine bit_or max ((to_big x).0 || (to_big y).0) x y (λ k a b. bit_or-bit k a b)
      (bit_or-lt 64) (λ b h. omega arith) (λ a h. omega arith) (or_sign (to_big x).0 (to_big y).0)
      hx hy

pub bitwise_ior_lem :
    (x y : Integer) → IsInteger x → IsInteger y → HasBits max (value x) (value y) (bitwise_ior x y)
unfolding bitwise_ior
bitwise_ior_lem (fix x) (fix y) hx hy =
    let ok = (o_fixnum_bitwise_lem x y hx hy).1.1 in
    (ok, fixnum_bits bit_or max x y (λ k. bit_or-bit k x y) hx.0 hy.0 ok.0)
bitwise_ior_lem (fix x) (big n y) hx hy = big_ior (fix x) (big n y) hx hy
bitwise_ior_lem (big m x) (fix y) hx hy = big_ior (big m x) (fix y) hx hy
bitwise_ior_lem (big m x) (big n y) hx hy = big_ior (big m x) (big n y) hx hy

differ_left : (b : ℕ) → b < 2 → differ 0 b ≡ b
differ_left b h = refl

differ_right : (a : ℕ) → a < 2 → differ a 0 ≡ a
differ_right zero h = refl
differ_right (suc zero) h = refl
differ_right (suc (suc a)) h = absurd (omega arith)

big_xor :
    (x y : Integer)
    → IsInteger x
    → IsInteger y
    → HasBits differ (value x) (value y) (
        bignum_combine bit_xor
          (if (to_big x).0 then not (to_big y).0 else (to_big y).0)
          (to_big x)
          (to_big y))
big_xor x y hx hy =
    big_combine bit_xor differ (if (to_big x).0 then not (to_big y).0 else (to_big y).0) x y
      (λ k a b. bit_xor-bit k a b) (bit_xor-lt 64) differ_left differ_right
      (xor_sign (to_big x).0 (to_big y).0) hx hy

pub bitwise_xor_lem :
    (x y : Integer)
    → IsInteger x
    → IsInteger y
    → HasBits differ (value x) (value y) (bitwise_xor x y)
unfolding bitwise_xor
bitwise_xor_lem (fix x) (fix y) hx hy =
    let ok = (o_fixnum_bitwise_lem x y hx hy).2.1 in
    (ok, fixnum_bits bit_xor differ x y (λ k. bit_xor-bit k x y) hx.0 hy.0 ok.0)
bitwise_xor_lem (fix x) (big n y) hx hy = big_xor (fix x) (big n y) hx hy
bitwise_xor_lem (big m x) (fix y) hx hy = big_xor (big m x) (fix y) hx hy
bitwise_xor_lem (big m x) (big n y) hx hy = big_xor (big m x) (big n y) hx hy
