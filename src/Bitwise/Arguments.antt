-- ===== src/Bitwise/Arguments.antt =====
-- The bitwise operators on two integers and on any number of integers, and bitwise-not.
use chicken_core_mirror.Prelude.{
  ℕ, ◌-◌, ◌<◌, ◌≡◌, List, [], ◌∷◌, All, Yields, Yields-map, arith, refl, sym, ap, ◌∙◌,
}
use chicken_core_mirror.Prelude.Int.{ℤ, pos, negsuc, ◌-ℤ◌}
use chicken_core_mirror.Word.{word_base, fits_in_fixnum}
use chicken_core_mirror.Bignum.{Integer, fix, IsInteger, value}
use chicken_core_mirror.Bignum.Sums.{integer_minus_lem}
use chicken_core_mirror.Bitwise.{
  bitwise_and, bitwise_ior, bitwise_xor, bitwise_not, bitwise_loop, bitwise_all,
}
use chicken_core_mirror.Bitwise.Bits.{bit_of, bit_at-zero}
use chicken_core_mirror.Bitwise.Operators.{HasBits}
use chicken_core_mirror.Bitwise.Integers.{bitwise_and_lem, bitwise_ior_lem, bitwise_xor_lem}
use Prim.Native.Nat.{max, min, differ}

-- C_s_a_i_bitwise_and, C_s_a_i_bitwise_ior and C_s_a_i_bitwise_xor on two well-formed integers of
-- any signs give well-formed integers whose bits, in the two's complement without end, are those
-- that both have, that one has, and that exactly one has.
pub bitwise_operators_lem :
    (x y : Integer)
    → IsInteger x
    → IsInteger y
    → HasBits min (value x) (value y) (bitwise_and x y)
      × HasBits max (value x) (value y) (bitwise_ior x y)
      × HasBits differ (value x) (value y) (bitwise_xor x y)
bitwise_operators_lem x y hx hy =
    (bitwise_and_lem x y hx hy, bitwise_ior_lem x y hx hy, bitwise_xor_lem x y hx hy)

-- Bit `k` of all the integers, under the operation `f` on bits, from `b` on.
abbrev pub bits_of_all : (ℕ → ℕ → ℕ) → ℕ → List Integer → ℕ → ℕ
bits_of_all f b [] k = b
bits_of_all f b (x ∷ xs) k = bits_of_all f (f b (bit_of (value x) k)) xs k

abbrev pub HasAllBits : (ℕ → ℕ → ℕ) → ℕ → List Integer → Integer → Type 0
HasAllBits f b xs r = IsInteger r × ((k : ℕ) → bit_of (value r) k ≡ bits_of_all f b xs k)

-- An operator on two integers, bit by bit.
abbrev Acts : (Integer → Integer → Integer) → (ℕ → ℕ → ℕ) → Type 0
Acts op f = (x y : Integer) → IsInteger x → IsInteger y → HasBits f (value x) (value y) (op x y)

bitwise_loop_lem :
    (op : Integer → Integer → Integer) (f : ℕ → ℕ → ℕ) (r : Integer) (xs : List Integer)
    → Acts op f
    → IsInteger r
    → All IsInteger xs
    → IsInteger (bitwise_loop op r xs)
      × ((k : ℕ)
          → bit_of (value (bitwise_loop op r xs)) k ≡ bits_of_all f (bit_of (value r) k) xs k)
unfolding bitwise_loop
bitwise_loop_lem op f r [] acts hr h = (hr, λ k. refl)
bitwise_loop_lem op f r (x ∷ xs) acts hr (hx, h) =
    let (ok, bits) = acts r x hr hx in
    let (ok', rest) = bitwise_loop_lem op f (op r x) xs acts ok h in
    (ok', λ k. rest k ∙ ap (λ (b : ℕ). bits_of_all f b xs k) (bits k))

bit_of-small : (z : ℤ) (k : ℕ) → bit_of z k < 2
bit_of-small (pos n) k = omega arith
bit_of-small (negsuc n) k = omega arith

-- With the answer for no arguments.
bitwise_all-HasAllBits :
    (op : Integer → Integer → Integer) (f : ℕ → ℕ → ℕ) (empty : Integer) (b : ℕ) (xs : List Integer)
    → Acts op f
    → IsInteger empty
    → ((k : ℕ) → bit_of (value empty) k ≡ b)
    → ((a : ℕ) → a < 2 → f b a ≡ a)
    → All IsInteger xs
    → HasAllBits f b xs (bitwise_all op empty xs)
unfolding bitwise_all
bitwise_all-HasAllBits op f empty b [] acts he bits unit h = (he, bits)
bitwise_all-HasAllBits op f empty b (x ∷ xs) acts he bits unit (hx, h) =
    let (ok, rest) = bitwise_loop_lem op f x xs acts hx h in
    (
      ok,
      λ k.
          rest k
          ∙ ap (λ (c : ℕ). bits_of_all f c xs k)
              (sym (unit (bit_of (value x) k) (bit_of-small (value x) k))),
    )

-- C_bitwise_and, C_bitwise_ior and C_bitwise_xor on any number of well-formed integers, none
-- included, give a well-formed integer of which every bit is the conjunction, disjunction or
-- parity of that bit of all arguments.
pub bitwise_all_lem :
    (xs : List Integer)
    → All IsInteger xs
    → HasAllBits min 1 xs (bitwise_all bitwise_and (fix (word_base - 1)) xs)
      × HasAllBits max 0 xs (bitwise_all bitwise_ior (fix 0) xs)
      × HasAllBits differ 0 xs (bitwise_all bitwise_xor (fix 0) xs)
unfolding fits_in_fixnum
bitwise_all_lem xs h = (
  bitwise_all-HasAllBits bitwise_and min (fix (word_base - 1)) 1 xs bitwise_and_lem
      (omega arith, refl) (λ k. ap (λ (b : ℕ). 1 - b) (bit_at-zero k)) (λ a ha. omega arith) h,
  bitwise_all-HasAllBits bitwise_ior max (fix 0) 0 xs bitwise_ior_lem (omega arith, refl)
      bit_at-zero (λ a ha. omega arith) h,
  bitwise_all-HasAllBits bitwise_xor differ (fix 0) 0 xs bitwise_xor_lem (omega arith, refl)
      bit_at-zero (λ a ha. refl) h,
)

complement_bits : (z : ℤ) (k : ℕ) → bit_of (negsuc 0 -ℤ z) k ≡ 1 - bit_of z k
unfolding ◌-ℤ◌
complement_bits (pos n) k = let e : negsuc 0 -ℤ pos n ≡ negsuc n = ground arith in rw e refl
complement_bits (negsuc n) k =
    let e : negsuc 0 -ℤ negsuc n ≡ pos n = ground arith in rw e (omega arith)

-- C_s_a_i_bitwise_not on a well-formed integer ends with the well-formed integer of which every
-- bit is the other one.
pub bitwise_not_lem :
    (x : Integer)
    → IsInteger x
    → Yields
        (bitwise_not x)
        (λ r. IsInteger r × ((k : ℕ) → bit_of (value r) k ≡ 1 - bit_of (value x) k))
unfolding bitwise_not fits_in_fixnum
bitwise_not_lem x hx =
    Yields-map _ (λ r. IsInteger r × (value r ≡ negsuc 0 -ℤ value x)) _
      (integer_minus_lem (fix (word_base - 1)) x (omega arith, refl) hx)
      λ r (ok, v). (ok, λ k. rw v (complement_bits (value x) k))
