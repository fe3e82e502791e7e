-- ===== src/Overflow.antt =====
-- runtime.c: the fixnum operators that answer #f where the result is no fixnum, C_i_o_fixnum_plus
-- and the others. The arguments and results are tagged words; #f is `none`.
pub mod Sums
pub mod Products
pub mod Bits
use chicken_core_mirror.Prelude.{
  ℕ, suc, ◌-◌, ◌*◌, ◌/◌, ◌^◌, ◌<◌, ◌≡◌, Option, none, some, Bool, true, false, not, ◌&&◌, ◌||◌,
  ◌==◌, ltb, leb, if◌then◌else◌,
}
use chicken_core_mirror.Prelude.Int.{ℤ, pos, negsuc, pos_part, neg_part, signed_magnitude}
use chicken_core_mirror.Word.{
  word_base, bit_at, sign_bit, neg_word, not_word, add_word, sub_word, mul_word, abs_word,
  fits_in_fixnum, fix_word, unfix_word, is_fixnum,
}
use Prim.Native.Nat.{bit_and, bit_or, bit_xor}

-- Both arguments are fixnums: the test of the tags at the start of every operator.
unfoldable pub on_fixnums : ℕ → ℕ → (ℕ → ℕ → Option ℕ) → Option ℕ
on_fixnums n1 n2 f =
    if not (is_fixnum n1) || not (is_fixnum n2) then none else f (unfix_word n1) (unfix_word n2)

-- Bit `k` of `(s ^ x1) & (s ^ x2)`, and of `(s ^ x1) & ~(s ^ x2)`.
unfoldable pub leaves_both : ℕ → ℕ → ℕ → ℕ → Bool
leaves_both s x1 x2 k = not (bit_at s k == bit_at x1 k) && not (bit_at s k == bit_at x2 k)

unfoldable pub leaves_first : ℕ → ℕ → ℕ → ℕ → Bool
leaves_first s x1 x2 k = not (bit_at s k == bit_at x1 k) && (bit_at s k == bit_at x2 k)

-- C_i_o_fixnum_plus: a shift by 62 keeps the two top bits.
unfoldable pub o_fixnum_plus : ℕ → ℕ → Option ℕ
o_fixnum_plus n1 n2 = on_fixnums n1 n2 λ x1 x2.
    let s = add_word x1 x2 in
    if leaves_both s x1 x2 62 || leaves_both s x1 x2 63 then none else some (fix_word s)

-- C_i_o_fixnum_difference
unfoldable pub o_fixnum_difference : ℕ → ℕ → Option ℕ
o_fixnum_difference n1 n2 = on_fixnums n1 n2 λ x1 x2.
    let s = sub_word x1 x2 in
    if leaves_first s x1 x2 62 || leaves_first s x1 x2 63 then none else some (fix_word s)

-- The word of a magnitude under a sign.
unfoldable pub signed_word : Bool → ℕ → ℕ
signed_word negp m = if negp then neg_word m else m

abbrev pub signs_differ : ℕ → ℕ → Bool
signs_differ x1 x2 = if sign_bit x1 then not (sign_bit x2) else sign_bit x2

-- `x1 * x2` and `x1 / x2` on C_word. The first wraps where C leaves the product undefined.
unfoldable pub times_word : ℕ → ℕ → ℕ
times_word x1 x2 = signed_word (signs_differ x1 x2) (mul_word (abs_word x1) (abs_word x2))

unfoldable pub quotient_word : ℕ → ℕ → ℕ
quotient_word x1 x2 = signed_word (signs_differ x1 x2) (abs_word x1 / abs_word x2)

unfoldable pub checked : ℕ → Option ℕ
checked x = if fits_in_fixnum x then some (fix_word x) else none

-- C_i_o_fixnum_times
unfoldable pub o_fixnum_times : ℕ → ℕ → Option ℕ
o_fixnum_times n1 n2 =
    let c = if signs_differ n1 n2 then 2 ^ 63 else 2 ^ 63 - 1 in
    on_fixnums n1 n2 λ x1 x2.
      if not (abs_word x2 == 0) && ltb (c / abs_word x2) (abs_word x1)
      then none
      else checked (times_word x1 x2)

-- The results of C_i_o_fixnum_quotient: an answer, or the error of a division by zero.
pub data Quotient : Type 0 where
  answer : Option ℕ → Quotient
  division_by_zero : Quotient

-- C_i_o_fixnum_quotient
unfoldable pub o_fixnum_quotient : ℕ → ℕ → Quotient
o_fixnum_quotient n1 n2 =
    let x1 = unfix_word n1 in
    let x2 = unfix_word n2 in
    if not (is_fixnum n1) || not (is_fixnum n2)
    then answer none
    else if x2 == 0
    then division_by_zero
    else if (x1 == 2 ^ 63) && (x2 == word_base - 1)
    then answer none
    else answer (checked (quotient_word x1 x2))

-- `((r & C_INT_SIGN_BIT) >> 1) != (r & C_INT_TOP_BIT)`
unfoldable pub top_bits_differ : ℕ → Bool
top_bits_differ r = not (bit_at r 63 == bit_at r 62)

unfoldable pub o_fixnum_and : ℕ → ℕ → Option ℕ
o_fixnum_and n1 n2 =
    on_fixnums n1 n2
      λ x1 x2. let r = bit_and x1 x2 in if top_bits_differ r then none else some (fix_word r)

unfoldable pub o_fixnum_ior : ℕ → ℕ → Option ℕ
o_fixnum_ior n1 n2 =
    on_fixnums n1 n2
      λ x1 x2. let r = bit_or x1 x2 in if top_bits_differ r then none else some (fix_word r)

unfoldable pub o_fixnum_xor : ℕ → ℕ → Option ℕ
o_fixnum_xor n1 n2 =
    on_fixnums n1 n2
      λ x1 x2. let r = bit_xor x1 x2 in if top_bits_differ r then none else some (fix_word r)

-- What an operator promises: the tagged word of the result `z`, or #f where z is no fixnum.
abbrev pub word_of : ℤ → ℕ
word_of (pos n) = n
word_of (negsuc n) = word_base - 1 - n

abbrev pub fixnum_or_false : ℤ → Option ℕ
fixnum_or_false z =
    if ltb (pos_part z) (2 ^ 62) && leb (neg_part z) (2 ^ 62)
    then some (fix_word (word_of z))
    else none

-- A word that a fixnum is tagged from.
abbrev pub IsFixnum : ℕ → Type 0
IsFixnum n = (n < word_base) × (fits_in_fixnum n ≡ true)

-- The quotient of two integers, rounded towards zero.
abbrev pub truncate : ℤ → ℤ → ℤ
truncate (pos a) (pos b) = pos (a / b)
truncate (pos a) (negsuc b) = signed_magnitude true (a / suc b)
truncate (negsuc a) (pos b) = signed_magnitude true (suc a / b)
truncate (negsuc a) (negsuc b) = pos (suc a / suc b)
