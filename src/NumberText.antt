-- ===== src/NumberText.antt =====
-- runtime.c: exact integers from and to text in a radix (C_s_a_i_digits_to_integer, str_to_bignum,
-- to_n_nary, C_fixnum_to_string). A text is the list of its character codes.
pub mod Bits
pub mod Chunks
pub mod Reading
pub mod Integers
pub mod Writing
pub mod RoundTrip
use chicken_core_mirror.Prelude.{
  ℕ, zero, suc, ◌+◌, ◌-◌, ◌*◌, ◌/◌, ◌%◌, ◌^◌, ◌<◌, List, [], ◌∷◌, ◌++◌, Option, none, some, Bool,
  true, false, not, ◌&&◌, ◌==◌, ltb, leb, if◌then◌else◌, length, replicate, All, ◌>>=◌,
}
use chicken_core_mirror.Word.{
  word_base, add_word, sub_word, mul_word, fits_in_half_digit, ilen, sign_bit, neg_word,
}
use chicken_core_mirror.Digits.{push, scale_up}
use chicken_core_mirror.Bignum.{Integer, bignum_simplify}
use mathlib.Core.List.{reverse}
use Prim.Native.Nat.{bit_or, bit_and}

-- hex_char_to_digit of a byte, converted to C_uword. A `char` is signed: the codes from 128 on are
-- negative numbers.
unfoldable pub hex_char_to_digit : ℕ → ℕ
hex_char_to_digit ch =
    if ch == 35
    then 0
    else if leb 128 ch
    then sub_word ch (256 + 48)
    else if leb 97 ch
    then ch - 97 + 10
    else if leb 65 ch
    then ch - 65 + 10
    else sub_word ch 48

-- The number that a text stands for after `n`, and that of a text from the last character on.
abbrev pub number : ℕ → ℕ → List ℕ → ℕ
number radix n [] = n
number radix n (c ∷ cs) = number radix (radix * n + hex_char_to_digit c) cs

abbrev pub number_reversed : ℕ → List ℕ → ℕ
number_reversed radix [] = 0
number_reversed radix (c ∷ cs) = hex_char_to_digit c + radix * number_reversed radix cs

-- Every character is a digit of the radix, as str_to_bignum assumes.
abbrev pub AreDigitsOf : ℕ → List ℕ → Type 0
AreDigitsOf radix = All (λ c. hex_char_to_digit c < radix)

-- The loop of str_to_bignum for a power of two: the digits that it writes, from the characters
-- with the last one first. `none` is the failed assertion on the bits that are left.
unfoldable pub read_bits : ℕ → List ℕ → ℕ → ℕ → Option (List ℕ)
read_bits radix_shift [] big_digit n =
    if ltb n 64 then (if ltb 0 n then some (big_digit ∷ []) else some []) else none
read_bits radix_shift (c ∷ cs) big_digit n =
    let str_digit = hex_char_to_digit c in
    let filled = bit_or big_digit (str_digit * 2 ^ n % word_base) in
    let n' = n + radix_shift in
    let full = leb 64 n' in
    let rest =
      read_bits radix_shift cs (if full then str_digit / 2 ^ (radix_shift - (n' - 64)) else filled)
        (if full then n' - 64 else n') in
    if full then push filled rest else rest

-- The inner loop for any other radix: the factor, the saved digits and the characters that are
-- left.
unfoldable pub read_chunk : ℕ → List ℕ → ℕ → ℕ → ℕ × ℕ × List ℕ
read_chunk radix [] factor big_digit = (factor, big_digit, [])
read_chunk radix (c ∷ cs) factor big_digit =
    let next =
      read_chunk radix cs (mul_word factor radix)
        (add_word (mul_word radix big_digit) (hex_char_to_digit c)) in
    if fits_in_half_digit factor then next else (factor, big_digit, c ∷ cs)

-- `(*last_digit++) = big_digit`, where it is not 0.
unfoldable pub write_carry : List ℕ × ℕ → List ℕ
write_carry (digits, big_digit) = if big_digit == 0 then digits else digits ++ big_digit ∷ []

-- The outer loop, with the digits up to `last_digit`; every round reads a character, so that as
-- much fuel as there are characters is enough. `none` is also a failed assertion of
-- bignum_digits_destructive_scale_up_with_carry on the carry and on the factor.
unfoldable pub read_chunks : ℕ → ℕ → List ℕ → List ℕ → Option (List ℕ)
read_chunks zero radix str digits = none
read_chunks (suc fuel) radix str digits =
    let (factor, big_digit, rest) = read_chunk radix str radix 0 in
    let digits' = write_carry (scale_up digits (factor / radix) big_digit) in
    if fits_in_half_digit big_digit && fits_in_half_digit (factor / radix)
    then elim rest [ [] ↦ some digits' | c ∷ cs ↦ read_chunks fuel radix (c ∷ cs) digits' ]
    else none

-- The assertion on `last_digit`, and the zeros above it. A write past the end moves `last_digit`
-- beyond `end_digits`, and it never moves back.
unfoldable pub clear_rest : ℕ → List ℕ → Option (List ℕ)
clear_rest size digits =
    if leb (length digits) size then some (digits ++ replicate (size - length digits) 0) else none

-- str_to_bignum, into a bignum of `size` digits; `none` is a failed assertion.
unfoldable pub str_to_bignum : ℕ → Bool → List ℕ → ℕ → Option Integer
str_to_bignum size negp str radix =
    let radix_shift = ilen radix - 1 in
    let digits =
      if 2 ^ radix_shift == radix
      then (read_bits radix_shift (reverse str) 0 0 >>= λ bits.
          if length bits == size then some bits else none)
      else (read_chunks (length str) radix str [] >>= clear_rest size) in
    do ds ← digits; some (bignum_simplify negp ds)

-- The digits that C_s_a_i_digits_to_integer allocates for a text.
unfoldable pub bits_to_digits : ℕ → ℕ → ℕ
bits_to_digits count radix = add_word (mul_word count (ilen (radix - 1))) 63 / 64

-- C_s_a_i_digits_to_integer on the characters from `start` to `end`: `some none` is #f, and `none`
-- a failed assertion, or a radix that is no `int`, with which the loop of str_to_bignum never ends.
unfoldable pub digits_to_integer : List ℕ → ℕ → Bool → Option (Option Integer)
digits_to_integer [] radix negp = some none
digits_to_integer (c ∷ cs) radix negp =
    let size = bits_to_digits (length (c ∷ cs)) radix in
    if ltb 1 radix && fits_in_half_digit radix && ltb radix (2 ^ 31)
    then (do r ← str_to_bignum size negp (c ∷ cs) radix; some (some r))
    else none

-- A character of "0123456789abcdef".
unfoldable pub digit_char : ℕ → ℕ
digit_char d = if ltb d 10 then 48 + d else 87 + d

-- The loops of to_n_nary, which write backwards: the characters before those that are there, and
-- the room that is left. `none` is a write before the buffer.
unfoldable pub write_digits : ℕ → (ℕ → ℕ) → (ℕ → ℕ) → ℕ → List ℕ → Option (ℕ × List ℕ)
write_digits zero digit next num text = none
write_digits (suc room) digit next num text =
    let text' = digit_char (digit num) ∷ text in
    let rest = write_digits room digit next (next num) text' in
    if next num == 0 then some (room, text') else rest

unfoldable write_sign : Bool → ℕ × List ℕ → Option (List ℕ)
write_sign false (room, text) = some text
write_sign true (zero, text) = none
write_sign true (suc room, text) = some (45 ∷ text)

-- to_n_nary, in the 66 bytes of the buffer before the terminator or the fraction `.0`.
unfoldable pub to_n_nary : ℕ → ℕ → Bool → Bool → Option (List ℕ)
unfolding write_sign
to_n_nary num base negp as_flonum =
    let shift = ilen base - 1 in
    let mask = 2 ^ shift - 1 in
    let end = if as_flonum then 46 ∷ 48 ∷ [] else [] in
    do
      written ←
          if mask == base - 1
          then write_digits 66 (λ n. bit_and n mask) (λ n. n / 2 ^ shift) num end
          else write_digits 66 (λ n. n % base) (λ n. n / base) num end
      write_sign negp written

-- The text of a number, an error, or a write before the buffer.
pub data Text : Type 0 where
  bad_base : Text
  overrun : Text
  text : List ℕ → Text

unfoldable text_of : Option (List ℕ) → Text
text_of none = overrun
text_of (some cs) = text cs

-- C_fixnum_to_string; the radix is the number that its argument stands for.
unfoldable pub fixnum_to_string : ℕ → ℕ → Text
unfolding text_of
fixnum_to_string num radix =
    if leb 2 radix && leb radix 16
    then text_of (to_n_nary (if sign_bit num then neg_word num else num) radix (sign_bit num) false)
    else bad_base
