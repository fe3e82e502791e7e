-- ===== src/Word/Bitwise.antt =====
-- `&`, `|` and `^` of C, digit by digit.
use chicken_core_mirror.Prelude.{
  ℕ, zero, suc, ◌+◌, ◌-◌, ◌*◌, ◌/◌, ◌%◌, ◌^◌, ◌<◌, ◌≤◌, ◌≡◌, refl, sym, ap, ◌∙◌, arith,
}
use Prim.Native.Nat.{
  digits, bitwise, bit_and, bit_and-bitwise, bit_or, bit_or-bitwise, bit_xor, bit_xor-bitwise, min,
  max, differ,
}
use native.Mathlib.Nat.{
  pow-suc, div-div-eq-div-mul, one-le-pow, div-add-mod, mod-lt, mod-eq_of_lt,
  mul-add-mod_self_right,
}

-- `z` is the result once the first number has run out, `f` the operation on two digits.
module _ (z : ℕ → ℕ) (f : ℕ → ℕ → ℕ) (end : (b : ℕ) → z b ≡ z (b / 2) * 2 + f 0 (b % 2)) where
  -- One more unit of the count changes nothing once the count reaches the first number.
  one_more : (n a b : ℕ) → a ≤ n → digits z f (suc n) a b ≡ digits z f n a b
  one_more zero zero b le = refl
  one_more zero (suc a) b le = absurd (omega arith)
  one_more (suc n) zero b le = refl
  one_more (suc n) (suc a) b le = rw (one_more n (suc a / 2) (b / 2) (omega arith))

  enough : (extra a b : ℕ) → digits z f (extra + a) a b ≡ bitwise z f a b
  enough zero a b = let e : 0 + a ≡ a = omega arith in rw e
  enough (suc extra) a b =
      let e : suc extra + a ≡ suc (extra + a) = omega arith in
      rw e (one_more (extra + a) a b (omega arith) ∙ enough extra a b)

  bitwise_step : (a b : ℕ) → bitwise z f a b ≡ bitwise z f (a / 2) (b / 2) * 2 + f (a % 2) (b % 2)
  bitwise_step zero b = end b
  bitwise_step (suc a) b =
      let spare : a ≡ a - suc a / 2 + suc a / 2 = omega arith in
      ap (λ (n : ℕ). digits z f n (suc a / 2) (b / 2) * 2 + f (suc a % 2) (b % 2)) spare
      ∙ rw (enough (a - suc a / 2) (suc a / 2) (b / 2))

  module _ (bit : (x y : ℕ) → x < 2 → y < 2 → f x y < 2) where
    bitwise_bit : (k a b : ℕ) → bitwise z f a b / 2 ^ k % 2 ≡ f (a / 2 ^ k % 2) (b / 2 ^ k % 2)
    bitwise_bit zero a b =
        let one : a / 1 ≡ a = omega arith in
        let one' : b / 1 ≡ b = omega arith in
        rw (one, one')
          (omega (arith, bitwise_step a b, bit (a % 2) (b % 2) (omega arith) (omega arith)))
    bitwise_bit (suc k) a b =
        let half : bitwise z f a b / 2 ≡ bitwise z f (a / 2) (b / 2) =
          omega (arith, bitwise_step a b, bit (a % 2) (b % 2) (omega arith) (omega arith)) in
        let down : (n : ℕ) → n / 2 ^ suc k ≡ n / 2 / 2 ^ k = λ n.
          (let twice : 2 ^ suc k ≡ 2 * 2 ^ k = omega (arith, pow-suc 2 k) in
            rw twice (sym (div-div-eq-div-mul n 2 (2 ^ k)))) in
        rw (down (bitwise z f a b), half, down a, down b) (bitwise_bit k (a / 2) (b / 2))

    bitwise_lt : z 0 ≡ 0 → (k a b : ℕ) → a < 2 ^ k → b < 2 ^ k → bitwise z f a b < 2 ^ k
    bitwise_lt e zero a b ha hb =
        let none : a ≡ 0 = omega arith in
        let none' : b ≡ 0 = omega arith in rw (none, none', e) (omega arith)
    bitwise_lt e (suc k) a b ha hb = omega (
      arith,
      pow-suc 2 k,
      bitwise_step a b,
      bit (a % 2) (b % 2) (omega arith) (omega arith),
      bitwise_lt e k (a / 2) (b / 2) (omega (arith, pow-suc 2 k)) (omega (arith, pow-suc 2 k)),
    )

and_bit : (x y : ℕ) → x < 2 → y < 2 → min x y < 2
and_bit x y hx hy = omega arith

or_bit : (x y : ℕ) → x < 2 → y < 2 → max x y < 2
or_bit x y hx hy = omega arith

xor_bit : (x y : ℕ) → x < 2 → y < 2 → differ x y < 2
xor_bit zero y hx hy = hy
xor_bit (suc zero) zero hx hy = hx
xor_bit (suc zero) (suc zero) hx hy = omega arith
xor_bit (suc zero) (suc (suc y)) hx hy = absurd (omega arith)
xor_bit (suc (suc x)) y hx hy = absurd (omega arith)

and_end : (b : ℕ) → 0 ≡ 0 * 2 + min 0 (b % 2)
and_end b = omega arith

or_end : (b : ℕ) → b ≡ b / 2 * 2 + max 0 (b % 2)
or_end b = omega arith

xor_end : (b : ℕ) → b ≡ b / 2 * 2 + differ 0 (b % 2)
xor_end b = omega arith

pub bit_and-bit : (k a b : ℕ) → bit_and a b / 2 ^ k % 2 ≡ min (a / 2 ^ k % 2) (b / 2 ^ k % 2)
bit_and-bit k a b = rw (bit_and-bitwise a b) (bitwise_bit (λ n. 0) min and_end and_bit k a b)

pub bit_and-lt : (k a b : ℕ) → a < 2 ^ k → b < 2 ^ k → bit_and a b < 2 ^ k
bit_and-lt k a b ha hb =
    rw (bit_and-bitwise a b) (bitwise_lt (λ n. 0) min and_end and_bit refl k a b ha hb)

-- The lowest binary digit of `a | b`, and the others.
pub bit_or_step : (a b : ℕ) → bit_or a b ≡ bit_or (a / 2) (b / 2) * 2 + max (a % 2) (b % 2)
bit_or_step a b =
    rw (bit_or-bitwise a b, bit_or-bitwise (a / 2) (b / 2)) (bitwise_step (λ n. n) max or_end a b)

pub bit_or-bit : (k a b : ℕ) → bit_or a b / 2 ^ k % 2 ≡ max (a / 2 ^ k % 2) (b / 2 ^ k % 2)
bit_or-bit k a b = rw (bit_or-bitwise a b) (bitwise_bit (λ n. n) max or_end or_bit k a b)

pub bit_or-lt : (k a b : ℕ) → a < 2 ^ k → b < 2 ^ k → bit_or a b < 2 ^ k
bit_or-lt k a b ha hb =
    rw (bit_or-bitwise a b) (bitwise_lt (λ n. n) max or_end or_bit refl k a b ha hb)

pub bit_xor-bit : (k a b : ℕ) → bit_xor a b / 2 ^ k % 2 ≡ differ (a / 2 ^ k % 2) (b / 2 ^ k % 2)
bit_xor-bit k a b = rw (bit_xor-bitwise a b) (bitwise_bit (λ n. n) differ xor_end xor_bit k a b)

pub bit_xor-lt : (k a b : ℕ) → a < 2 ^ k → b < 2 ^ k → bit_xor a b < 2 ^ k
bit_xor-lt k a b ha hb =
    rw (bit_xor-bitwise a b) (bitwise_lt (λ n. n) differ xor_end xor_bit refl k a b ha hb)

bit_and_step : (a b : ℕ) → bit_and a b ≡ bit_and (a / 2) (b / 2) * 2 + min (a % 2) (b % 2)
bit_and_step a b =
    rw (bit_and-bitwise a b, bit_and-bitwise (a / 2) (b / 2))
      (bitwise_step (λ n. 0) min and_end a b)

bit_and-zero_below : (n a : ℕ) → a < n → bit_and a 0 ≡ 0
bit_and-zero_below zero a h = absurd (omega arith)
bit_and-zero_below (suc n) zero h = refl
bit_and-zero_below (suc n) (suc a) h =
    omega (arith, bit_and_step (suc a) 0, bit_and-zero_below n (suc a / 2) (omega arith))

-- A remainder by twice a number, from the one of the half.
twice_mod : (a p : ℕ) → 0 < p → a % (2 * p) ≡ a / 2 % p * 2 + a % 2
twice_mod a p h =
    let r = a / 2 % p * 2 + a % 2 in
    let whole : a ≡ a / 2 / p * (2 * p) + r = omega (arith, div-add-mod (a / 2) p) in
    let small : r < 2 * p = omega (arith, mod-lt (a / 2) h) in
    ap (λ (t : ℕ). t % (2 * p)) whole
    ∙ rw (mul-add-mod_self_right (a / 2 / p) (2 * p) r) (mod-eq_of_lt small)

-- A mask of the lowest bits.
pub bit_and-mask : (k a : ℕ) → bit_and a (2 ^ k - 1) ≡ a % 2 ^ k
bit_and-mask zero a = omega (arith, bit_and-zero_below (suc a) a (omega arith))
bit_and-mask (suc k) a =
    let positive = one-le-pow k 2 (omega arith) in
    let half : (2 ^ suc k - 1) / 2 ≡ 2 ^ k - 1 = omega (arith, pow-suc 2 k) in
    let odd : (2 ^ suc k - 1) % 2 ≡ 1 = omega (arith, pow-suc 2 k, positive) in
    let twice : 2 ^ suc k ≡ 2 * 2 ^ k = omega (arith, pow-suc 2 k) in
    let below : a % 2 ^ suc k ≡ a / 2 % 2 ^ k * 2 + a % 2 =
      rw twice (twice_mod a (2 ^ k) positive) in
    bit_and_step a (2 ^ suc k - 1) ∙ rw (half, odd, bit_and-mask k (a / 2), below) (omega arith)
