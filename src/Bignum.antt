-- ===== src/Bignum.antt =====
-- runtime.c and chicken.h: exact integers, as fixnums and bignums, and their operations. An
-- intermediate object on the stack or in scratch space is a value here, so moving one to another
-- buffer, and freeing it, is no step of the model.
pub mod Values
pub mod Simplify
pub mod Unsigned
pub mod Sums
pub mod Negation
pub mod Order
pub mod Comparisons
use chicken_core_mirror.Prelude.{
  ℕ, zero, suc, ◌+◌, ◌-◌, ◌*◌, ◌/◌, ◌%◌, ◌^◌, ◌<◌, ◌≤◌, ◌≡◌, List, [], ◌∷◌, ◌++◌, Option, none,
  some, Bool, true, false, not, ◌&&◌, ◌==◌, ltb, if◌then◌else◌, to_nat, length, ◌>>=◌, Yields,
}
use chicken_core_mirror.Prelude.Int.{ℤ, signed_magnitude}
use chicken_core_mirror.Word.{
  IsWord, sign_bit, signed, neg_word, add_word, sub_word, fits_in_fixnum, ufits_in_fixnum, abs_word,
  most_negative_fixnum,
}
use chicken_core_mirror.Digits.{
  magnitude, AreDigits, IsTrimmed, add_digits, subtract_digits, cmp_unsigned,
}
use Prim.Native.Nat.{Ordering}

-- `fix n` is C_fix(n), of which C_unfix gives `n` back; `big` has the sign and the digits.
pub data Integer : Type 0 where
  fix : ℕ → Integer
  big : Bool → List ℕ → Integer

-- The form that every operation expects and leaves: a number in fixnum range is a fixnum, and any
-- other is a bignum without zeros on top.
abbrev pub IsInteger : Integer → Type 0
IsInteger (fix n) = IsWord n × (fits_in_fixnum n ≡ true)
IsInteger (big negp ds) = AreDigits ds × IsTrimmed ds × (2 ^ 62 + to_nat negp ≤ magnitude ds)

-- The integer that an object stands for.
abbrev pub value : Integer → ℤ
value (fix n) = signed n
value (big negp ds) = signed_magnitude negp (magnitude ds)

-- The operation ends without leaving an array, and its result is a well-formed `z`.
abbrev pub Computes : Option Integer → ℤ → Type 0
Computes o z = Yields o λ r. IsInteger r × (value r ≡ z)

drop_zero : ℕ → List ℕ → List ℕ
drop_zero d [] = if d == 0 then [] else d ∷ []
drop_zero d (e ∷ ds) = d ∷ e ∷ ds

-- The digits up to the last one that is not zero: the scan of C_bignum_simplify.
unfoldable pub trim : List ℕ → List ℕ
unfolding drop_zero
trim [] = []
trim (d ∷ ds) = drop_zero d (trim ds)

-- The test of C_bignum_simplify on the only digit.
one_digit_fits : Bool → ℕ → Bool
one_digit_fits negp tmp =
    if negp then not (sign_bit tmp) && fits_in_fixnum (neg_word tmp) else ufits_in_fixnum tmp

simplify_trimmed : Bool → List ℕ → Integer
unfolding one_digit_fits
simplify_trimmed negp [] = fix 0
simplify_trimmed negp (d ∷ []) =
    if one_digit_fits negp d then fix (if negp then neg_word d else d) else big negp (d ∷ [])
simplify_trimmed negp (d ∷ e ∷ ds) = big negp (d ∷ e ∷ ds)

-- C_bignum_simplify
unfoldable pub bignum_simplify : Bool → List ℕ → Integer
unfolding simplify_trimmed
bignum_simplify negp ds = simplify_trimmed negp (trim ds)

-- C_a_u_i_fix_to_big: the sign and the digits, of which C_bignum0 has none.
unfoldable pub fix_to_big : ℕ → Bool × List ℕ
fix_to_big n = (sign_bit n, if n == 0 then [] else abs_word n ∷ [])

-- `if (x & C_FIXNUM_BIT) x = C_a_u_i_fix_to_big(&a, x);`
abbrev pub to_big : Integer → Bool × List ℕ
to_big (fix n) = fix_to_big n
to_big (big negp ds) = (negp, ds)

-- The result has one digit more than x, for the carry.
add_into : List ℕ → List ℕ → Bool → Option Integer
add_into x y negp = do r ← add_digits (x ++ 0 ∷ []) y false; some (bignum_simplify negp r)

-- bignum_plus_unsigned
unfoldable pub bignum_plus_unsigned : List ℕ → List ℕ → Bool → Option Integer
unfolding add_into
bignum_plus_unsigned x y negp =
    if ltb (length x) (length y) then add_into y x negp else add_into x y negp

subtract_from : List ℕ → List ℕ → Bool → Option Integer
subtract_from x y negp = do r ← subtract_digits x y false; some (bignum_simplify negp r)

-- bignum_minus_unsigned
unfoldable pub bignum_minus_unsigned : List ℕ → List ℕ → Option Integer
unfolding subtract_from
bignum_minus_unsigned x y = elim (cmp_unsigned x y) [
  | Ordering.eq ↦ some (fix 0)
  | Ordering.lt ↦ subtract_from y x true
  | Ordering.gt ↦ subtract_from x y false
]

-- A sum or difference of two fixnums, which always fits a word.
unfoldable pub fixnum_result : ℕ → Integer
fixnum_result z = if fits_in_fixnum z then fix z else big (sign_bit z) (abs_word z ∷ [])

-- C_s_a_u_i_integer_plus on two bignums
add_signed : Bool × List ℕ → Bool × List ℕ → Option Integer
add_signed (true, x) (true, y) = bignum_plus_unsigned x y true
add_signed (true, x) (false, y) = bignum_minus_unsigned y x
add_signed (false, x) (true, y) = bignum_minus_unsigned x y
add_signed (false, x) (false, y) = bignum_plus_unsigned x y false

-- C_s_a_u_i_integer_plus; C_a_i_fixnum_plus on two fixnums
unfoldable pub integer_plus : Integer → Integer → Option Integer
unfolding add_signed
integer_plus (fix x) (fix y) = some (fixnum_result (add_word x y))
integer_plus x y = add_signed (to_big x) (to_big y)

subtract_signed : Bool × List ℕ → Bool × List ℕ → Option Integer
subtract_signed (true, x) (true, y) = bignum_minus_unsigned y x
subtract_signed (true, x) (false, y) = bignum_plus_unsigned x y true
subtract_signed (false, x) (true, y) = bignum_plus_unsigned x y false
subtract_signed (false, x) (false, y) = bignum_minus_unsigned x y

-- C_s_a_u_i_integer_minus; C_a_i_fixnum_difference on two fixnums
unfoldable pub integer_minus : Integer → Integer → Option Integer
unfolding subtract_signed
integer_minus (fix x) (fix y) = some (fixnum_result (sub_word x y))
integer_minus x y = subtract_signed (to_big x) (to_big y)

-- C_bignum_negated_fitsinfixnump
unfoldable pub negated_fits_in_fixnum : Bool → List ℕ → Bool
negated_fits_in_fixnum negp [] = false
negated_fits_in_fixnum negp (d ∷ []) =
    if negp then ufits_in_fixnum d else not (sign_bit d) && fits_in_fixnum (neg_word d)
negated_fits_in_fixnum negp (d ∷ e ∷ ds) = false

-- C_s_a_u_i_integer_negate; C_a_i_fixnum_negate on a fixnum
unfoldable pub integer_negate : Integer → Integer
unfolding negated_fits_in_fixnum
integer_negate (fix x) =
    if x == most_negative_fixnum then big false (2 ^ 62 ∷ []) else fix (neg_word x)
integer_negate (big negp ds) =
    if negated_fits_in_fixnum negp ds
    then fix most_negative_fixnum
    else bignum_simplify (not negp) ds

-- C_s_a_u_i_integer_abs; C_a_i_fixnum_abs on a fixnum
unfoldable pub integer_abs : Integer → Integer
integer_abs (fix x) = if sign_bit x then integer_negate (fix x) else fix x
integer_abs (big negp ds) = if negp then integer_negate (big negp ds) else big negp ds

-- C_i_bignum_cmp
bignum_cmp : Bool × List ℕ → Bool × List ℕ → Ordering
bignum_cmp (true, x) (true, y) = cmp_unsigned y x
bignum_cmp (true, x) (false, y) = Ordering.lt
bignum_cmp (false, x) (true, y) = Ordering.gt
bignum_cmp (false, x) (false, y) = cmp_unsigned x y

is_equal : Ordering → Bool
is_equal Ordering.eq = true
is_equal _ = false

is_greater : Ordering → Bool
is_greater Ordering.gt = true
is_greater _ = false

is_less : Ordering → Bool
is_less Ordering.lt = true
is_less _ = false

-- `C_unfix(x) < C_unfix(y)`, on C_word
word_lt : ℕ → ℕ → Bool
word_lt x y =
    if sign_bit x
    then (if sign_bit y then ltb x y else true)
    else (if sign_bit y then false else ltb x y)

-- C_i_integer_equalp
unfoldable pub integer_equalp : Integer → Integer → Bool
unfolding bignum_cmp is_equal
integer_equalp (fix x) (fix y) = x == y
integer_equalp (fix x) (big n y) = false
integer_equalp (big m x) (fix y) = false
integer_equalp (big m x) (big n y) = is_equal (bignum_cmp (m, x) (n, y))

-- C_i_integer_greaterp
unfoldable pub integer_greaterp : Integer → Integer → Bool
unfolding bignum_cmp is_greater word_lt
integer_greaterp (fix x) (fix y) = word_lt y x
integer_greaterp (fix x) (big n y) = n
integer_greaterp (big m x) (fix y) = not m
integer_greaterp (big m x) (big n y) = is_greater (bignum_cmp (m, x) (n, y))

-- C_i_integer_lessp
unfoldable pub integer_lessp : Integer → Integer → Bool
unfolding bignum_cmp is_less word_lt
integer_lessp (fix x) (fix y) = word_lt x y
integer_lessp (fix x) (big n y) = not n
integer_lessp (big m x) (fix y) = m
integer_lessp (big m x) (big n y) = is_less (bignum_cmp (m, x) (n, y))

-- `res == C_fix(0) || res == C_fix(1)`, and `res == C_fix(0) || res == C_fix(-1)`
at_least : Ordering → Bool
at_least Ordering.lt = false
at_least Ordering.eq = true
at_least Ordering.gt = true

at_most : Ordering → Bool
at_most Ordering.lt = true
at_most Ordering.eq = true
at_most Ordering.gt = false

-- C_i_integer_greater_or_equalp
unfoldable pub integer_greater_or_equalp : Integer → Integer → Bool
unfolding bignum_cmp at_least word_lt
integer_greater_or_equalp (fix x) (fix y) = not (word_lt x y)
integer_greater_or_equalp (fix x) (big n y) = n
integer_greater_or_equalp (big m x) (fix y) = not m
integer_greater_or_equalp (big m x) (big n y) = at_least (bignum_cmp (m, x) (n, y))

-- C_i_integer_less_or_equalp
unfoldable pub integer_less_or_equalp : Integer → Integer → Bool
unfolding bignum_cmp at_most word_lt
integer_less_or_equalp (fix x) (fix y) = not (word_lt y x)
integer_less_or_equalp (fix x) (big n y) = not n
integer_less_or_equalp (big m x) (fix y) = m
integer_less_or_equalp (big m x) (big n y) = at_most (bignum_cmp (m, x) (n, y))
