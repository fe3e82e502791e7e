-- ===== src/Divrem/Remainders.antt =====
-- The operators quotient and remainder on exact integers, which share integer_divrem.
use chicken_core_mirror.Prelude.{
  ℕ, ◌-◌, ◌≡◌, ◌≢◌, ◌==◌, List, Option, none, some, Bool, true, false, ◌>>=◌, arith, refl, ap, inl,
  inr, Bool-cases,
}
use chicken_core_mirror.Prelude.Int.{ℤ}
use chicken_core_mirror.Word.{word_base, signed, abs_word}
use chicken_core_mirror.Bignum.{Integer, fix, big, IsInteger, value}
use chicken_core_mirror.Overflow.{truncate}
use chicken_core_mirror.Divide.{is_small}
use chicken_core_mirror.Divide.Remainder.{remainder_small-divide}
use chicken_core_mirror.Divrem.{
  Outcome, returned, division_by_zero, failed, and_then, of_option, fixnum_quotient,
  fixnum_remainder, quotient_only, Divide, divide_by_fixnum, integer_divrem, is_zero,
  remainder_by_fixnum, remainder_only, integer_quotient_and_remainder, integer_quotient,
  integer_remainder,
}
use chicken_core_mirror.Divrem.Signs.{Returns, Returns-and_then, AreDivrem, leftover}
use chicken_core_mirror.Divrem.Integers.{
  Covers, TakesSchoolbook, IsSized, schoolbook-Covers, integer_divrem_lem,
}

-- The error of a division by zero for the divisor 0, and otherwise a result with the property.
abbrev pub Unless : {A : Type 0} → Bool → Outcome A → (A → Type 0) → Type 0
Unless true o P = o ≡ division_by_zero
Unless false o P = Returns o P

abbrev pub IsResult : ℤ → Integer → Type 0
IsResult z r = IsInteger r × (value r ≡ z)

-- C_u_integer_quotient_and_remainder on two well-formed integers, the dividend of fewer than 2^30
-- - 1 digits, calls the error for a division by zero for the divisor 0, and otherwise returns two
-- well-formed integers: the quotient rounded towards zero and the remainder that has the sign of
-- the dividend. This is where Burnikel-Ziegler division is not taken: the stack has no room for
-- it, or the divisor or the difference of the lengths has 300 digits at most.
pub integer_quotient_and_remainder_lem :
    (rec : Option Divide) (x y : Integer)
    → TakesSchoolbook rec x y
    → IsSized x
    → IsInteger x
    → IsInteger y
    → Unless (is_zero y) (integer_quotient_and_remainder rec x y) (AreDivrem (value x) (value y))
unfolding integer_quotient_and_remainder
integer_quotient_and_remainder_lem rec x y school size hx hy = elim (Bool-cases (is_zero y)) [
  | inl e ↦ rw e refl
  | inr e ↦ rw e (integer_divrem_lem rec x y (schoolbook-Covers rec x y school size) hx hy e)
]

-- The two results of fixnums on their own.
both_returned :
    {A : Type 0} {B : Type 0} (q : Outcome A) (r : Outcome B) (P : A × B → Type 0)
    → Returns (and_then q λ a. and_then r λ b. returned (a, b)) P
    → Returns q (λ a. (b : B) × P (a, b)) × Returns r (λ b. (a : A) × P (a, b))
both_returned (returned a) (returned b) P h = ((b, h), (a, h))
both_returned (returned a) division_by_zero P h = absurd h
both_returned (returned a) failed P h = absurd h
both_returned division_by_zero r P h = absurd h
both_returned failed r P h = absurd h

quotient_of_both :
    (x y : ℤ) (o : Outcome (Integer × Integer))
    → Returns o (AreDivrem x y)
    → Returns (and_then o λ s. returned s.0) (IsResult (truncate x y))
quotient_of_both x y o h =
    Returns-and_then o (λ s. returned s.0) (AreDivrem x y) (IsResult (truncate x y)) h
      λ s (hq, hr, vq, vr). (hq, vq)

remainder_of_both :
    (x y : ℤ) (o : Outcome (Integer × Integer))
    → Returns o (AreDivrem x y)
    → Returns (and_then o λ s. returned s.1) (IsResult (leftover x y))
remainder_of_both x y o h =
    Returns-and_then o (λ s. returned s.1) (AreDivrem x y) (IsResult (leftover x y)) h
      λ s (hq, hr, vq, vr). (hr, vr)

Returns-map :
    {A : Type 0} (o : Outcome A) (P Q : A → Type 0)
    → Returns o P
    → ((a : A) → P a → Q a)
    → Returns o Q
Returns-map (returned a) P Q h f = f a h
Returns-map division_by_zero P Q h f = absurd h
Returns-map failed P Q h f = absurd h

quotient_only_lem :
    (rec : Option Divide) (x y : Integer)
    → Covers rec x y
    → IsInteger x
    → IsInteger y
    → is_zero y ≡ false
    → Returns (quotient_only rec x y) (IsResult (truncate (value x) (value y)))
unfolding quotient_only integer_divrem
quotient_only_lem rec (fix x) (fix y) c hx hy n =
    let both =
      both_returned (fixnum_quotient x y) (fixnum_remainder x y) (AreDivrem (signed x) (signed y))
        (integer_divrem_lem rec (fix x) (fix y) c hx hy n) in
    Returns-map (fixnum_quotient x y) (λ q. (r : Integer) × AreDivrem (signed x) (signed y) (q, r))
      (IsResult (truncate (signed x) (signed y))) both.0 λ q (r, (hq, hr, vq, vr)). (hq, vq)
quotient_only_lem rec (big m x) (fix y) c hx hy n =
    quotient_of_both (value (big m x)) (value (fix y)) (integer_divrem rec (big m x) (fix y))
      (integer_divrem_lem rec (big m x) (fix y) c hx hy n)
quotient_only_lem rec (fix x) (big b y) c hx hy n =
    quotient_of_both (value (fix x)) (value (big b y)) (integer_divrem rec (fix x) (big b y))
      (integer_divrem_lem rec (fix x) (big b y) c hx hy n)
quotient_only_lem rec (big m x) (big b y) c hx hy n =
    quotient_of_both (value (big m x)) (value (big b y)) (integer_divrem rec (big m x) (big b y))
      (integer_divrem_lem rec (big m x) (big b y) c hx hy n)

-- C_s_a_u_i_integer_quotient on two well-formed integers, the dividend of fewer than 2^30 - 1
-- digits, calls the error for a division by zero for the divisor 0, and otherwise returns the
-- well-formed integer of the quotient rounded towards zero. This is where Burnikel-Ziegler
-- division is not taken: the stack has no room for it, or the divisor or the difference of the
-- lengths has 300 digits at most.
pub integer_quotient_lem :
    (rec : Option Divide) (x y : Integer)
    → TakesSchoolbook rec x y
    → IsSized x
    → IsInteger x
    → IsInteger y
    → Unless (is_zero y) (integer_quotient rec x y) (IsResult (truncate (value x) (value y)))
unfolding integer_quotient
integer_quotient_lem rec x y school size hx hy = elim (Bool-cases (is_zero y)) [
  | inl e ↦ rw e refl
  | inr e ↦ rw e (quotient_only_lem rec x y (schoolbook-Covers rec x y school size) hx hy e)
]

-- The remainder alone is the one that comes with the quotient.
remainder_by_fixnum-eq :
    (rec : Option Divide) (m : Bool) (x : List ℕ) (y : ℕ)
    → IsInteger (big m x)
    → IsInteger (fix y)
    → y ≢ 0
    → remainder_by_fixnum rec m x y ≡ (divide_by_fixnum rec m x y >>= λ s. some s.1)
unfolding remainder_by_fixnum divide_by_fixnum
remainder_by_fixnum-eq rec m x y hx hy n = elim (Bool-cases (y == 1)) [
  | inl e ↦ rw e refl
  | inr e ↦ elim (Bool-cases (y == word_base - 1)) [
    | inl e' ↦ rw (e, e') refl
    | inr e' ↦
        let not_nought : (y == 0) ≡ false = ground arith in
        elim (Bool-cases (is_small (abs_word y))) [
          | inl small ↦
              rw (e, e', small, not_nought)
                (ap some (
                  remainder_small-divide m x y hx hy n (λ o. absurd (ground arith))
                    (λ o. absurd (ground arith)) small))
          | inr large ↦ rw (e, e', large) refl
        ]
  ]
]

option_second :
    (o : Option (Integer × Integer))
    → of_option (o >>= λ s. some s.1) ≡ and_then (of_option o) λ s. returned s.1
option_second none = refl
option_second (some s) = refl

pub remainder_only_lem :
    (rec : Option Divide) (x y : Integer)
    → Covers rec x y
    → IsInteger x
    → IsInteger y
    → is_zero y ≡ false
    → Returns (remainder_only rec x y) (IsResult (leftover (value x) (value y)))
unfolding remainder_only integer_divrem
remainder_only_lem rec (fix x) (fix y) c hx hy n =
    let both =
      both_returned (fixnum_quotient x y) (fixnum_remainder x y) (AreDivrem (signed x) (signed y))
        (integer_divrem_lem rec (fix x) (fix y) c hx hy n) in
    Returns-map (fixnum_remainder x y) (λ r. (q : Integer) × AreDivrem (signed x) (signed y) (q, r))
      (IsResult (leftover (signed x) (signed y))) both.1 λ r (q, (hq, hr, vq, vr)). (hr, vr)
remainder_only_lem rec (big m x) (fix y) c hx hy n =
    rw
      (
        remainder_by_fixnum-eq rec m x y hx hy (ground arith),
        option_second (divide_by_fixnum rec m x y),
      )
      (remainder_of_both (value (big m x)) (value (fix y)) (integer_divrem rec (big m x) (fix y))
        (integer_divrem_lem rec (big m x) (fix y) c hx hy n))
remainder_only_lem rec (fix x) (big b y) c hx hy n =
    remainder_of_both (value (fix x)) (value (big b y)) (integer_divrem rec (fix x) (big b y))
      (integer_divrem_lem rec (fix x) (big b y) c hx hy n)
remainder_only_lem rec (big m x) (big b y) c hx hy n =
    remainder_of_both (value (big m x)) (value (big b y)) (integer_divrem rec (big m x) (big b y))
      (integer_divrem_lem rec (big m x) (big b y) c hx hy n)

-- C_s_a_u_i_integer_remainder on two well-formed integers, the dividend of fewer than 2^30 - 1
-- digits, by its shorter ways for a small divisor too, calls the error for a division by zero for
-- the divisor 0, and otherwise returns the well-formed integer of the remainder that has the sign
-- of the dividend. This is where Burnikel-Ziegler division is not taken: the stack has no room for
-- it, or the divisor or the difference of the lengths has 300 digits at most.
pub integer_remainder_lem :
    (rec : Option Divide) (x y : Integer)
    → TakesSchoolbook rec x y
    → IsSized x
    → IsInteger x
    → IsInteger y
    → Unless (is_zero y) (integer_remainder rec x y) (IsResult (leftover (value x) (value y)))
unfolding integer_remainder
integer_remainder_lem rec x y school size hx hy = elim (Bool-cases (is_zero y)) [
  | inl e ↦ rw e refl
  | inr e ↦ rw e (remainder_only_lem rec x y (schoolbook-Covers rec x y school size) hx hy e)
]
