-- ===== src/Times.antt =====
-- runtime.c and chicken.h: multiplication of exact integers. The room on the C stack that
-- C_stack_check1 tests is a number: each level of Karatsuba multiplication uses one up, and with
-- none left the code falls back to the schoolbook loop.
pub mod Fixnum
pub mod Schoolbook
pub mod Halves
pub mod Karatsuba
pub mod Integers
use chicken_core_mirror.Prelude.{
  ℕ, zero, suc, ◌+◌, ◌-◌, ◌*◌, ◌/◌, ◌%◌, ◌^◌, ◌<◌, ◌≡◌, List, [], ◌∷◌, ◌++◌, Option, none, some,
  Bool, true, false, not, ◌&&◌, ◌||◌, ◌==◌, ltb, leb, if◌then◌else◌, length, take, drop, replicate,
  ◌>>=◌,
}
use chicken_core_mirror.Word.{
  word_base, sign_bit, neg_word, add_word, mul_word, lo_half, hi_half, combine, fits_in_half_digit,
  fits_in_fixnum, ufits_in_fixnum, abs_word, ilen,
}
use chicken_core_mirror.Digits.{scale_up, shift_left, multiply_digits}
use chicken_core_mirror.Bignum.{
  Integer, fix, big, fix_to_big, bignum_simplify, integer_plus, integer_minus, integer_negate,
  integer_abs,
}
use chicken_core_mirror.Shift.{shift_left_by}
use Prim.Native.Nat.{min}

-- C_KARATSUBA_THRESHOLD
abbrev pub karatsuba_threshold : ℕ
karatsuba_threshold = 70

-- The end of C_a_i_fixnum_times: the two digits of the product become an integer.
fixnum_product : Bool → ℕ → ℕ → Integer
fixnum_product negp lo hi =
    let outside =
      if negp
      then sign_bit lo || not (fits_in_fixnum (neg_word lo))
      else not (ufits_in_fixnum lo) in
    if hi == 0
    then (if outside then big negp (lo ∷ []) else fix (if negp then neg_word lo else lo))
    else big negp (lo ∷ hi ∷ [])

-- The two digits of the product of two words, by half digits.
double_product : ℕ → ℕ → ℕ × ℕ
double_product x y =
    let p = mul_word (lo_half x) (lo_half y) in
    let p' = add_word (mul_word (hi_half x) (lo_half y)) (hi_half p) in
    let p'' = add_word (mul_word (lo_half x) (hi_half y)) (lo_half p') in
    (
      combine (lo_half p'') (lo_half p),
      add_word (add_word (mul_word (hi_half x) (hi_half y)) (hi_half p'')) (hi_half p'),
    )

-- C_a_i_fixnum_times
unfoldable pub fixnum_times : ℕ → ℕ → Integer
unfolding fixnum_product double_product
fixnum_times x y =
    let negp = if sign_bit x then not (sign_bit y) else sign_bit y in
    let (lo, hi) = double_product (abs_word x) (abs_word y) in fixnum_product negp lo hi

-- bignum_extract_digits; `none` is the end of the digits. Its callers never ask for an end below
-- the start.
unfoldable pub extract_digits : Integer → ℕ → Option ℕ → Integer
extract_digits (fix x) start end =
    let some_digits : Bool = elim end [ none ↦ true | some e ↦ ltb 0 e ] in
    if start == 0 && some_digits then fix x else fix 0
extract_digits (big negp ds) start end =
    let stop : ℕ = elim end [ none ↦ length ds | some e ↦ min e (length ds) ] in
    let size = stop - start in
    if size == 0 || leb (length ds) start
    then fix 0
    else bignum_simplify negp (take size (drop start ds))

-- C_bignum_size of a bignum
abbrev pub bignum_size : Integer → ℕ
bignum_size (fix x) = 0
bignum_size (big negp ds) = length ds

abbrev pub Multiply : Type 0
Multiply = Integer → Integer → Option Integer

-- The products and sums of bignum_times_bignum_karatsuba, on the halves of the two numbers.
unfoldable pub karatsuba_halves :
    Multiply → ℕ → Integer × Integer → Integer × Integer → Bool → Option Integer
karatsuba_halves times bits (xhi, xlo) (yhi, ylo) negp = do
  a ← times xhi yhi
  b ← times xlo ylo
  xmid ← integer_minus xhi xlo
  ymid ← integer_minus yhi ylo
  c ← times xmid ymid
  let top = shift_left_by a (bits * 2)
  c' ← integer_minus a c
  c'' ← integer_plus b c'
  let mid = shift_left_by c'' bits
  bottom ← integer_plus mid b
  r ← integer_plus top bottom
  some (if negp then integer_negate r else r)

unfoldable pub halves : Integer → ℕ → Integer × Integer
unfolding extract_digits
halves x n = (extract_digits x n none, extract_digits x 0 (some n))

-- bignum_times_bignum_karatsuba; `times` makes the products of the parts.
unfoldable pub karatsuba : Multiply → Integer → Integer → Bool → Option Integer
karatsuba times x y negp =
    let n = bignum_size (integer_abs y) / 2 in
    karatsuba_halves times (n * 64) (halves (integer_abs x) n) (halves (integer_abs y) n) negp

-- The end of bignum_times_bignum_unsigned: the loop of bignum_digits_multiply on a new bignum.
unfoldable pub schoolbook : List ℕ → List ℕ → Bool → Option Integer
schoolbook x y negp = do
  r ← multiply_digits x y (replicate (length x + length y) 0)
  some (bignum_simplify negp r)

-- x has no more digits than y.
unfoldable pub times_ordered :
    Option Multiply → Bool × List ℕ → Bool × List ℕ → Bool → Option Integer
times_ordered rec x y negp =
    if leb karatsuba_threshold (length x.1)
    then elim rec [
      | none ↦ schoolbook x.1 y.1 negp
      | some times ↦ karatsuba times (big x.0 x.1) (big y.0 y.1) negp
    ]
    else schoolbook x.1 y.1 negp

-- bignum_times_bignum_unsigned; `rec` is `none` where the stack has no room.
unfoldable pub times_unsigned :
    Option Multiply → Bool × List ℕ → Bool × List ℕ → Bool → Option Integer
unfolding times_ordered
times_unsigned rec x y negp =
    if ltb (length y.1) (length x.1) then times_ordered rec y x negp else times_ordered rec x y negp

-- The multiplication of the digits by a half digit, or by a power of two.
unfoldable pub times_small : List ℕ → ℕ → Bool → Integer
times_small ds absy negp =
    let shift = ilen absy - 1 in
    let s = if 2 ^ shift == absy then shift_left ds shift 0 else scale_up ds absy 0 in
    bignum_simplify negp (s.0 ++ s.1 ∷ [])

-- C_s_a_u_i_integer_times on a bignum and a fixnum
unfoldable pub times_fixnum : Option Multiply → Bool → List ℕ → ℕ → Option Integer
unfolding times_small
times_fixnum rec negx ds y =
    let absy = abs_word y in
    let negp = if sign_bit y then not negx else negx in
    if y == 0
    then some (fix 0)
    else if y == 1
    then some (big negx ds)
    else if y == word_base - 1
    then some (integer_negate (big negx ds))
    else if fits_in_half_digit absy || (2 ^ (ilen absy - 1) == absy && fits_in_fixnum absy)
    then some (times_small ds absy negp)
    else times_unsigned rec (negx, ds) (fix_to_big y) negp

unfoldable pub times_with : Option Multiply → Multiply
unfolding times_fixnum
times_with rec (fix x) (fix y) = some (fixnum_times x y)
times_with rec (fix x) (big n y) = times_fixnum rec n y x
times_with rec (big m x) (fix y) = times_fixnum rec m x y
times_with rec (big m x) (big n y) = times_unsigned rec (m, x) (n, y) (if m then not n else n)

-- C_s_a_u_i_integer_times, with room on the stack for so many levels
unfoldable pub integer_times : ℕ → Multiply
integer_times zero = times_with none
integer_times (suc stack) = times_with (some (integer_times stack))
