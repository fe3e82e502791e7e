-- ===== src/Bitwise/Operators.antt =====
-- C_s_a_i_bitwise_and, C_s_a_i_bitwise_ior and C_s_a_i_bitwise_xor, bit by bit.
use chicken_core_mirror.Prelude.{
  ℕ, suc, ◌+◌, ◌*◌, ◌<◌, ◌≤◌, ◌≡◌, ◌⊎◌, ◌==◌, List, [], ◌∷◌, ◌++◌, Bool, true, false, not, ◌&&◌,
  ◌||◌, ltb, to_nat, length, length-append, All-append, if◌then◌else◌, arith, refl, sym, ap, ◌∙◌,
  inl, inr, Bool-cases,
}
use chicken_core_mirror.Prelude.Int.{ℤ, pos}
use chicken_core_mirror.Word.{IsWord, bit_at}
use chicken_core_mirror.Word.Bitwise.{bit_and-bit, bit_and-lt}
use chicken_core_mirror.Digits.{magnitude, AreDigits}
use chicken_core_mirror.Bignum.{Integer, IsInteger, value}
use chicken_core_mirror.Bignum.Values.{signed_value}
use chicken_core_mirror.Shift.Ones.{magnitude-lt}
use chicken_core_mirror.Bitwise.Loops.{zip_short_lem, zip_long_lem, fill_zeros_lem}
use chicken_core_mirror.Bignum.Simplify.{bignum_simplify_lem}
use chicken_core_mirror.Digits.Arrays.{magnitude-append_zero}
use chicken_core_mirror.Bitwise.{
  for_bitwise_op, zip_short, zip_long, fill_zeros, bignum_and, bignum_combine, finish_bitwise,
}
use chicken_core_mirror.Bitwise.Bits.{bit_of, bit_at-zero, bit_at-beyond, bit_of-beyond}
use chicken_core_mirror.Bitwise.Signs.{for_bitwise_op_lem, finish_bitwise_lem}
use Prim.Native.Nat.{bit_and, max, min, differ}

-- The sign and the digits of a number, which is not a negative zero.
abbrev pub IsOperand : Bool × List ℕ → Type 0
IsOperand x = AreDigits x.1 × (x.0 ≡ true → 0 < magnitude x.1)

pub sign_goes_on :
    (x : Bool × List ℕ) (l k : ℕ)
    → IsOperand x
    → length x.1 ≤ l
    → 64 * l ≤ k
    → bit_of (signed_value x) k ≡ to_nat x.0
sign_goes_on (false, ds) l k (h, p) len hk =
    bit_at-beyond (64 * length ds) k (magnitude ds) (magnitude-lt ds h) (omega arith)
sign_goes_on (true, ds) l k (h, p) len hk =
    bit_of-beyond (64 * length ds) k (magnitude ds) (p refl) (omega (arith, magnitude-lt ds h))
      (omega arith)

-- The bits that an operator promises.
abbrev pub HasBits : (ℕ → ℕ → ℕ) → ℤ → ℤ → Integer → Type 0
HasBits f x y r = IsInteger r × ((k : ℕ) → bit_of (value r) k ≡ f (bit_of x k) (bit_of y k))

pub combined :
    (f : ℕ → ℕ → ℕ) (x y : Bool × List ℕ) (s : Bool) (l : ℕ) (r : List ℕ)
    → IsOperand x
    → IsOperand y
    → length x.1 ≤ l
    → length y.1 ≤ l
    → to_nat s ≡ f (to_nat x.0) (to_nat y.0)
    → AreDigits r
    → length r ≡ suc l
    → ((k : ℕ)
        → bit_at (magnitude r) k
          ≡ f
              (bit_at (magnitude (for_bitwise_op x (suc l))) k)
              (bit_at (magnitude (for_bitwise_op y (suc l))) k))
    → HasBits f (signed_value x) (signed_value y) (finish_bitwise s r)
combined f x y s l r hx hy lx ly sign digits len bits =
    let reads = for_bitwise_op_lem x.0 x.1 (suc l) hx.0 hx.1 (omega arith) in
    let reads' = for_bitwise_op_lem y.0 y.1 (suc l) hy.0 hy.1 (omega arith) in
    let below : (k : ℕ)
        → k < 64 * suc l
        → bit_at (magnitude r) k ≡ f (bit_of (signed_value x) k) (bit_of (signed_value y) k) =
      λ k h. bits k ∙ rw (reads.bits k h, reads'.bits k h) refl in
    let above : (k : ℕ)
        → 64 * l ≤ k
        → to_nat s ≡ f (bit_of (signed_value x) k) (bit_of (signed_value y) k) =
      λ k h. rw (sign_goes_on x l k hx lx h, sign_goes_on y l k hy ly h) sign in
    let positive : s ≡ true → 0 < magnitude r = λ e. elim (Bool-cases (magnitude r == 0)) [
      | inl z ↦
          let nought : magnitude r ≡ 0 = ground arith in
          let top = above (64 * l) (omega arith) ∙ sym (below (64 * l) (omega arith)) in
          let one : 1 ≡ bit_at 0 (64 * l) = rw (e, nought) at top in
          absurd (omega (arith, one ∙ bit_at-zero (64 * l)))
      | inr n ↦ ground arith
    ] in
    let (ok, v) = finish_bitwise_lem s r digits positive in
    (
      ok,
      λ k. v k ∙ elim (Bool-cases (ltb k (64 * length r))) [
        | inl e ↦ rw e (below k (ground (arith, len)))
        | inr e ↦ rw e (above k (ground (arith, len)))
      ],
    )

pub or_sign : (a b : Bool) → to_nat (a || b) ≡ max (to_nat a) (to_nat b)
or_sign true true = omega arith
or_sign true false = omega arith
or_sign false true = omega arith
or_sign false false = omega arith

and_sign : (a b : Bool) → to_nat (a && b) ≡ min (to_nat a) (to_nat b)
and_sign true true = omega arith
and_sign true false = omega arith
and_sign false true = omega arith
and_sign false false = omega arith

pub xor_sign : (a b : Bool) → to_nat (if a then not b else b) ≡ differ (to_nat a) (to_nat b)
xor_sign true true = refl
xor_sign true false = refl
xor_sign false true = refl
xor_sign false false = refl

-- One more zero where the array is not full.
fill_one :
    (size : ℕ) (ds : List ℕ)
    → AreDigits ds
    → (length ds ≡ size) ⊎ (suc (length ds) ≡ size)
    → let r = if ltb (length ds) size then ds ++ 0 ∷ [] else ds in
      (magnitude r ≡ magnitude ds) × AreDigits r × (length r ≡ size)
fill_one size ds h l = elim (Bool-cases (ltb (length ds) size)) [
  | inl e ↦ rw e (
    magnitude-append_zero ds,
    All-append IsWord ds (0 ∷ []) h (omega arith, tt),
    elim l [ inl s ↦ absurd (ground arith) | inr s ↦ omega (arith, length-append ds (0 ∷ [])) ],
  )
  | inr e ↦ rw e (refl, h, elim l [ inl s ↦ s | inr s ↦ absurd (ground arith) ])
]

long_length :
    (a b : Bool) (m n : ℕ)
    → let l = max m n in
      let t = max (if a then suc l else m) (if b then suc l else n) in (t ≡ suc l) ⊎ (suc t ≡ suc l)
long_length true true m n = inl (omega arith)
long_length true false m n = inl (omega arith)
long_length false true m n = inl (omega arith)
long_length false false m n = inr refl

-- The operators that read the longer array to its end.
pub bignum_combine_lem :
    (op f : ℕ → ℕ → ℕ) (s : Bool) (x y : Bool × List ℕ)
    → ((k a b : ℕ) → bit_at (op a b) k ≡ f (bit_at a k) (bit_at b k))
    → ((a b : ℕ) → IsWord a → IsWord b → IsWord (op a b))
    → ((b : ℕ) → b < 2 → f 0 b ≡ b)
    → ((a : ℕ) → a < 2 → f a 0 ≡ a)
    → to_nat s ≡ f (to_nat x.0) (to_nat y.0)
    → IsOperand x
    → IsOperand y
    → HasBits f (signed_value x) (signed_value y) (bignum_combine op s x y)
unfolding bignum_combine
bignum_combine_lem op f s x y bit word left right sign hx hy =
    let l = max (length x.1) (length y.1) in
    let one_more : l + 1 ≡ suc l = omega arith in
    let reads = for_bitwise_op_lem x.0 x.1 (suc l) hx.0 hx.1 (omega arith) in
    let reads' = for_bitwise_op_lem y.0 y.1 (suc l) hy.0 hy.1 (omega arith) in
    let (bits, digits, len) =
      zip_long_lem op f bit word left right (for_bitwise_op x (suc l)) (for_bitwise_op y (suc l))
        reads.digits reads'.digits in
    let ds = zip_long op (for_bitwise_op x (suc l)) (for_bitwise_op y (suc l)) in
    let size : (length ds ≡ suc l) ⊎ (suc (length ds) ≡ suc l) =
      rw (len, reads.long, reads'.long) (long_length x.0 y.0 (length x.1) (length y.1)) in
    let (same, digits', len') = fill_one (suc l) ds digits size in
    rw one_more (
      combined f x y s l (if ltb (length ds) (suc l) then ds ++ 0 ∷ [] else ds) hx hy (omega arith)
        (omega arith) sign digits' len' (λ k. ap (λ (m : ℕ). bit_at m k) same ∙ bits k))

short_length :
    (a b : Bool) (m n : ℕ)
    → min (if a then suc (max m n) else m) (if b then suc (max m n) else n) ≤ suc (max m n)
short_length true true m n = omega arith
short_length true false m n = omega arith
short_length false true m n = omega arith
short_length false false m n = omega arith

and_bits : (k a b : ℕ) → bit_at (bit_and a b) k ≡ min (bit_at a k) (bit_at b k)
and_bits k a b = bit_and-bit k a b

-- One of the numbers is negative.
pub and_negative :
    (x y : Bool × List ℕ)
    → IsOperand x
    → IsOperand y
    → (x.0 || y.0) ≡ true
    → HasBits min (signed_value x) (signed_value y) (bignum_and x y)
unfolding bignum_and
and_negative x y hx hy e =
    let l = max (length x.1) (length y.1) in
    let one_more : l + 1 ≡ suc l = omega arith in
    let reads = for_bitwise_op_lem x.0 x.1 (suc l) hx.0 hx.1 (omega arith) in
    let reads' = for_bitwise_op_lem y.0 y.1 (suc l) hy.0 hy.1 (omega arith) in
    let (bits, digits, len) =
      zip_short_lem bit_and min and_bits (bit_and-lt 64) (λ b h. omega arith) (λ a h. omega arith)
        (for_bitwise_op x (suc l)) (for_bitwise_op y (suc l)) reads.digits reads'.digits in
    let ds = zip_short bit_and (for_bitwise_op x (suc l)) (for_bitwise_op y (suc l)) in
    let size : length ds ≤ suc l =
      rw (len, reads.long, reads'.long) (short_length x.0 y.0 (length x.1) (length y.1)) in
    let (same, digits', len') = fill_zeros_lem (suc l) ds digits size in
    rw (e, one_more)
      (combined min x y (x.0 && y.0) l (fill_zeros (suc l) ds) hx hy (omega arith) (omega arith)
        (and_sign x.0 y.0) digits' len' (λ k. ap (λ (m : ℕ). bit_at m k) same ∙ bits k))

-- Neither is.
pub and_positive :
    (xs ys : List ℕ)
    → AreDigits xs
    → AreDigits ys
    → HasBits min (pos (magnitude xs)) (pos (magnitude ys)) (bignum_and (false, xs) (false, ys))
unfolding bignum_and finish_bitwise for_bitwise_op
and_positive xs ys hx hy =
    let (bits, digits, len) =
      zip_short_lem bit_and min and_bits (bit_and-lt 64) (λ b h. omega arith) (λ a h. omega arith)
        xs ys hx hy in
    let ds = zip_short bit_and xs ys in
    let n = min (length xs) (length ys) in
    let (same, digits', len') = fill_zeros_lem n ds digits (omega (arith, len)) in
    let (ok, v) = bignum_simplify_lem false (fill_zeros n ds) digits' in
    (ok, λ k. rw (v, same) (bits k))
