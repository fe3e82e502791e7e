-- ===== src/Bitwise/Loops.antt =====
-- The loops of the bitwise operators, bit by bit.
use chicken_core_mirror.Prelude.{
  ℕ, zero, suc, ◌+◌, ◌-◌, ◌<◌, ◌≤◌, ◌≡◌, List, [], ◌∷◌, ◌++◌, ltb, length, length-append,
  length-replicate, replicate, All-append, arith, refl, sym, ◌∙◌, inl, inr, Bool-cases,
}
use chicken_core_mirror.Word.{IsWord, bit_at}
use chicken_core_mirror.Digits.{magnitude, AreDigits}
use chicken_core_mirror.Bitwise.{zip_short, zip_long, fill_zeros}
use chicken_core_mirror.Bitwise.Bits.{bit_at-zero, magnitude_bit-low, magnitude_bit-high}
use Prim.Native.Nat.{max, min}

-- To prove a property of the bits of two numbers, digit by digit.
bit_by_digit :
    (d : ℕ) (ds : List ℕ) (n : ℕ → ℕ)
    → IsWord d
    → ((k : ℕ) → k < 64 → bit_at d k ≡ n k)
    → ((k : ℕ) → bit_at (magnitude ds) k ≡ n (64 + k))
    → (k : ℕ) → bit_at (magnitude (d ∷ ds)) k ≡ n k
bit_by_digit d ds n hd low high k = elim (Bool-cases (ltb k 64)) [
  | inl e ↦ magnitude_bit-low d k ds (ground arith) ∙ low k (ground arith)
  | inr e ↦
      let place : k ≡ 64 + (k - 64) = ground arith in
      rw place (magnitude_bit-high d (k - 64) ds hd ∙ high (k - 64))
]

module _ (op f : ℕ → ℕ → ℕ) (bit : (k a b : ℕ) → bit_at (op a b) k ≡ f (bit_at a k) (bit_at b k))
    (word : (a b : ℕ) → IsWord a → IsWord b → IsWord (op a b)) where
  -- Both digit arrays go on.
  one_place :
      (a b k : ℕ) (xs ys zs : List ℕ)
      → IsWord a
      → IsWord b
      → ((k : ℕ) → bit_at (magnitude zs) k ≡ f (bit_at (magnitude xs) k) (bit_at (magnitude ys) k))
      → bit_at (magnitude (op a b ∷ zs)) k
        ≡ f (bit_at (magnitude (a ∷ xs)) k) (bit_at (magnitude (b ∷ ys)) k)
  one_place a b k xs ys zs ha hb rest =
      bit_by_digit (op a b) zs
        (λ k. f (bit_at (magnitude (a ∷ xs)) k) (bit_at (magnitude (b ∷ ys)) k)) (word a b ha hb)
        (λ k h. bit k a b ∙ rw (magnitude_bit-low a k xs h, magnitude_bit-low b k ys h) refl)
        (λ k. rest k ∙ rw (magnitude_bit-high a k xs ha, magnitude_bit-high b k ys hb) refl) k

  module _ (left : (b : ℕ) → b < 2 → f 0 b ≡ 0) (right : (a : ℕ) → a < 2 → f a 0 ≡ 0) where
    pub zip_short_lem :
        (xs ys : List ℕ)
        → AreDigits xs
        → AreDigits ys
        → ((k : ℕ)
            → bit_at (magnitude (zip_short op xs ys)) k
              ≡ f (bit_at (magnitude xs) k) (bit_at (magnitude ys) k))
          × AreDigits (zip_short op xs ys)
          × (length (zip_short op xs ys) ≡ min (length xs) (length ys))
    unfolding zip_short
    zip_short_lem [] ys hx hy =
        (λ k. sym (rw (bit_at-zero k) (left _ (omega arith))), tt, omega arith)
    zip_short_lem (a ∷ xs) [] hx hy =
        (λ k. sym (rw (bit_at-zero k) (right _ (omega arith))), tt, omega arith)
    zip_short_lem (a ∷ xs) (b ∷ ys) (ha, hx) (hb, hy) =
        let (rest, digits, len) = zip_short_lem xs ys hx hy in
        (λ k. one_place a b k xs ys _ ha hb rest, (word a b ha hb, digits), omega (arith, len))

  module _ (left : (b : ℕ) → b < 2 → f 0 b ≡ b) (right : (a : ℕ) → a < 2 → f a 0 ≡ a) where
    pub zip_long_lem :
        (xs ys : List ℕ)
        → AreDigits xs
        → AreDigits ys
        → ((k : ℕ)
            → bit_at (magnitude (zip_long op xs ys)) k
              ≡ f (bit_at (magnitude xs) k) (bit_at (magnitude ys) k))
          × AreDigits (zip_long op xs ys)
          × (length (zip_long op xs ys) ≡ max (length xs) (length ys))
    unfolding zip_long
    zip_long_lem [] ys hx hy =
        (λ k. sym (rw (bit_at-zero k) (left _ (omega arith))), hy, omega arith)
    zip_long_lem (a ∷ xs) [] hx hy =
        (λ k. sym (rw (bit_at-zero k) (right _ (omega arith))), hx, omega arith)
    zip_long_lem (a ∷ xs) (b ∷ ys) (ha, hx) (hb, hy) =
        let (rest, digits, len) = zip_long_lem xs ys hx hy in
        (λ k. one_place a b k xs ys _ ha hb rest, (word a b ha hb, digits), omega (arith, len))

pub magnitude-append_zeros : (ds : List ℕ) (n : ℕ) → magnitude (ds ++ replicate n 0) ≡ magnitude ds
magnitude-append_zeros [] zero = refl
magnitude-append_zeros [] (suc n) = omega (arith, magnitude-append_zeros [] n)
magnitude-append_zeros (d ∷ ds) n = omega (arith, magnitude-append_zeros ds n)

pub zeros-AreDigits : (n : ℕ) → AreDigits (replicate n 0)
zeros-AreDigits zero = tt
zeros-AreDigits (suc n) = (omega arith, zeros-AreDigits n)

pub fill_zeros_lem :
    (size : ℕ) (ds : List ℕ)
    → AreDigits ds
    → length ds ≤ size
    → (magnitude (fill_zeros size ds) ≡ magnitude ds)
      × AreDigits (fill_zeros size ds)
      × (length (fill_zeros size ds) ≡ size)
unfolding fill_zeros
fill_zeros_lem size ds h l = (
  magnitude-append_zeros ds (size - length ds),
  All-append IsWord ds (replicate (size - length ds) 0) h (zeros-AreDigits (size - length ds)),
  omega (
    arith,
    length-append ds (replicate (size - length ds) 0),
    length-replicate {A = ℕ} (size - length ds) 0,
  ),
)
