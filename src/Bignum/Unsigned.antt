-- ===== src/Bignum/Unsigned.antt =====
-- bignum_plus_unsigned and bignum_minus_unsigned, on the digits of two bignums.
use chicken_core_mirror.Prelude.{
  ℕ, suc, ◌+◌, ◌-◌, ◌≤◌, ◌≡◌, List, [], ◌∷◌, ◌++◌, Option, none, some, Bool, true, false, ltb,
  length, Yields, ◌>>=◌, arith, refl, inl, inr, Bool-cases,
}
use chicken_core_mirror.Prelude.Int.{pos, sub_ℕ, signed_magnitude}
use chicken_core_mirror.Word.{fits_in_fixnum}
use chicken_core_mirror.Digits.{magnitude, AreDigits, IsTrimmed, add_digits, subtract_digits}
use chicken_core_mirror.Digits.Arrays.{Holds}
use chicken_core_mirror.Digits.Sums.{add_digits_lem}
use chicken_core_mirror.Digits.Differences.{subtract_digits_lem}
use chicken_core_mirror.Digits.Order.{cmp_unsigned-eq-compare, lt_of_shorter}
use chicken_core_mirror.Bignum.{
  Computes, bignum_simplify, add_into, bignum_plus_unsigned, subtract_from, bignum_minus_unsigned,
}
use chicken_core_mirror.Bignum.Simplify.{bignum_simplify_lem}
use Prim.Native.Nat.{compare, Ordering}

-- An array that is simplified at the end.
pub simplify-Computes :
    (o : Option (List ℕ)) (negp : Bool) (n l : ℕ)
    → Yields o (Holds n l)
    → Computes (o >>= λ r. some (bignum_simplify negp r)) (signed_magnitude negp n)
simplify-Computes none negp n l h = h
simplify-Computes (some r) negp n l (e, digits, len) = rw (← e) (bignum_simplify_lem negp r digits)

add_into_lem :
    (x y : List ℕ) (negp : Bool)
    → AreDigits x
    → AreDigits y
    → length y ≤ length x
    → Computes (add_into x y negp) (signed_magnitude negp (magnitude x + magnitude y))
unfolding add_into
add_into_lem x y negp hx hy l =
    let e : magnitude x + magnitude y + 0 ≡ magnitude x + magnitude y = omega arith in
    rw (← e) (
      simplify-Computes (add_digits (x ++ 0 ∷ []) y false) negp _ (suc (length x))
        (add_digits_lem x y false hx hy l))

pub bignum_plus_unsigned_lem :
    (x y : List ℕ) (negp : Bool)
    → AreDigits x
    → AreDigits y
    → Computes (bignum_plus_unsigned x y negp) (signed_magnitude negp (magnitude x + magnitude y))
unfolding bignum_plus_unsigned
bignum_plus_unsigned_lem x y negp hx hy = elim (Bool-cases (ltb (length x) (length y))) [
  | inl e ↦
      let flip : magnitude x + magnitude y ≡ magnitude y + magnitude x = omega arith in
      rw (e, flip) (add_into_lem y x negp hy hx (ground arith))
  | inr e ↦ rw e (add_into_lem x y negp hx hy (ground arith))
]

subtract_from_lem :
    (x y : List ℕ) (negp : Bool)
    → AreDigits x
    → AreDigits y
    → length y ≤ length x
    → magnitude y ≤ magnitude x
    → Computes (subtract_from x y negp) (signed_magnitude negp (magnitude x - magnitude y))
unfolding subtract_from
subtract_from_lem x y negp hx hy l le =
    let e : magnitude x - (magnitude y + 0) ≡ magnitude x - magnitude y = omega arith in
    rw (← e) (
      simplify-Computes (subtract_digits x y false) negp _ (length x)
        (subtract_digits_lem x y false hx hy l (omega arith)))

-- The larger number has at least as many digits.
longer :
    (x y : List ℕ)
    → AreDigits y
    → IsTrimmed x
    → IsTrimmed y
    → AreDigits x
    → magnitude y ≤ magnitude x
    → length y ≤ length x
longer x y hy nx ny hx le = elim (Bool-cases (ltb (length x) (length y))) [
  | inl e ↦ absurd (omega (arith, lt_of_shorter x y hx ny (ground arith)))
  | inr e ↦ ground arith
]

minus_by_order :
    (x y : List ℕ) (o : Ordering)
    → AreDigits x
    → AreDigits y
    → IsTrimmed x
    → IsTrimmed y
    → compare (magnitude x) (magnitude y) ≡ o
    → Computes (bignum_minus_unsigned x y) (sub_ℕ (magnitude x) (magnitude y))
unfolding bignum_minus_unsigned
minus_by_order x y Ordering.eq hx hy nx ny e =
    let z : sub_ℕ (magnitude x) (magnitude y) ≡ pos 0 = ground arith in
    rw (cmp_unsigned-eq-compare x y hx hy nx ny, e, z, bignum_minus_unsigned)
      ((omega arith, unfold fits_in_fixnum in refl), refl)
minus_by_order x y Ordering.lt hx hy nx ny e =
    let le : magnitude x ≤ magnitude y = ground arith in
    let z : sub_ℕ (magnitude x) (magnitude y) ≡ signed_magnitude true (magnitude y - magnitude x) =
      ground arith in
    rw (cmp_unsigned-eq-compare x y hx hy nx ny, e, z, bignum_minus_unsigned)
      (subtract_from_lem y x true hy hx (longer y x hx ny nx hy le) le)
minus_by_order x y Ordering.gt hx hy nx ny e =
    let le : magnitude y ≤ magnitude x = ground arith in
    let z : sub_ℕ (magnitude x) (magnitude y) ≡ signed_magnitude false (magnitude x - magnitude y) =
      ground arith in
    rw (cmp_unsigned-eq-compare x y hx hy nx ny, e, z, bignum_minus_unsigned)
      (subtract_from_lem x y false hx hy (longer x y hy nx ny hx le) le)

-- The sign follows the order of the two magnitudes.
pub bignum_minus_unsigned_lem :
    (x y : List ℕ)
    → AreDigits x
    → AreDigits y
    → IsTrimmed x
    → IsTrimmed y
    → Computes (bignum_minus_unsigned x y) (sub_ℕ (magnitude x) (magnitude y))
bignum_minus_unsigned_lem x y hx hy nx ny = minus_by_order x y _ hx hy nx ny refl
