-- ===== src/Digits/Order.antt =====
-- bignum_cmp_unsigned against the order of numbers.
use chicken_core_mirror.Prelude.{
  ℕ, ◌<◌, ◌≡◌, List, [], ◌∷◌, ◌++◌, length, length-append, arith, refl, ◌∙◌,
}
use chicken_core_mirror.Digits.{magnitude, AreDigits, IsTrimmed, compare_digits, cmp_unsigned}
use Prim.Native.Nat.{compare, Ordering}
use mathlib.Core.List.{reverse, reverse-append}

-- A longer number whose top digit is not zero is larger.
pub lt_of_shorter :
    (x y : List ℕ) → AreDigits x → IsTrimmed y → length x < length y → magnitude x < magnitude y
lt_of_shorter x [] hx ty l = absurd (omega arith)
lt_of_shorter [] (e ∷ []) hx ty l = omega arith
lt_of_shorter (d ∷ x) (e ∷ []) hx ty l = absurd (omega arith)
lt_of_shorter [] (e ∷ f ∷ y) hx ty l = omega (arith, lt_of_shorter [] (f ∷ y) tt ty (omega arith))
lt_of_shorter (d ∷ x) (e ∷ f ∷ y) (hd, hx) ty l =
    omega (arith, lt_of_shorter x (f ∷ y) hx ty (omega arith))

-- The scan from the top: a least significant digit decides only if all above are equal.
abbrev then_compare : Ordering → ℕ → ℕ → Ordering
then_compare Ordering.lt a b = Ordering.lt
then_compare Ordering.gt a b = Ordering.gt
then_compare Ordering.eq a b = compare a b

compare_digits-append :
    (a b : List ℕ) (x y : ℕ)
    → length a ≡ length b
    → compare_digits (a ++ x ∷ []) (b ++ y ∷ []) ≡ then_compare (compare_digits a b) x y
unfolding compare_digits
compare_digits-append [] [] x y l = ground arith
compare_digits-append [] (e ∷ b) x y l = absurd (omega arith)
compare_digits-append (d ∷ a) [] x y l = absurd (omega arith)
compare_digits-append (d ∷ a) (e ∷ b) x y l =
    ground (arith, compare_digits-append a b x y (omega arith))

pub length-reverse : (a : List ℕ) → length (reverse a) ≡ length a
length-reverse [] = refl
length-reverse (x ∷ a) =
    rw (reverse-append (x ∷ []) a)
      (omega (arith, length-append (reverse a) (x ∷ []), length-reverse a))

compare_digits-reverse :
    (x y : List ℕ)
    → AreDigits x
    → AreDigits y
    → length x ≡ length y
    → compare_digits (reverse x) (reverse y) ≡ compare (magnitude x) (magnitude y)
compare_digits-reverse [] [] hx hy l = unfold compare_digits in refl
compare_digits-reverse [] (e ∷ y) hx hy l = absurd (omega arith)
compare_digits-reverse (d ∷ x) [] hx hy l = absurd (omega arith)
compare_digits-reverse (d ∷ x) (e ∷ y) (hd, hx) (he, hy) l =
    let rest = compare_digits-reverse x y hx hy (omega arith) in
    let same : length (reverse x) ≡ length (reverse y) =
      omega (arith, length-reverse x, length-reverse y) in
    rw (reverse-append (d ∷ []) x, reverse-append (e ∷ []) y)
      (compare_digits-append (reverse x) (reverse y) d e same ∙ rw rest (ground arith))

-- bignum_cmp_unsigned on two digit arrays, neither with zeros on top, is the order of the two
-- numbers.
pub cmp_unsigned-eq-compare :
    (x y : List ℕ)
    → AreDigits x
    → AreDigits y
    → IsTrimmed x
    → IsTrimmed y
    → cmp_unsigned x y ≡ compare (magnitude x) (magnitude y)
unfolding cmp_unsigned
cmp_unsigned-eq-compare x y hx hy nx ny =
    ground
      (arith, lt_of_shorter x y hx ny, lt_of_shorter y x hy nx, compare_digits-reverse x y hx hy)
