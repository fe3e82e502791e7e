-- ===== src/Shift.antt =====
-- runtime.c: C_s_a_i_arithmetic_shift on exact integers. The amount of the shift is a number and
-- a direction: `shift_left_by` is the call with `y > 0`, `shift_right_by` the call with `y < 0`.
pub mod Left
pub mod Ones
pub mod Floor
use chicken_core_mirror.Prelude.{
  ℕ, zero, suc, ◌+◌, ◌-◌, ◌*◌, ◌/◌, ◌%◌, ◌^◌, ◌<◌, List, [], ◌∷◌, ◌++◌, Bool, true, false, ◌&&◌,
  ◌==◌, ltb, leb, if◌then◌else◌, length, take, drop, replicate,
}
use chicken_core_mirror.Word.{word_base, sign_bit, ilen}
use chicken_core_mirror.Digits.{negate_digits, shift_left, shift_right}
use chicken_core_mirror.Bignum.{Integer, fix, big, fix_to_big, bignum_simplify}

-- `C_unfix(x) >> k` on C_word, for `k` below the word size: the sign is shifted in.
unfoldable pub shift_right_word : ℕ → ℕ → ℕ
shift_right_word n k = n / 2 ^ k + (if sign_bit n then (2 ^ k - 1) * 2 ^ (64 - k) else 0)

-- -1 or 0, where all bits are shifted out
abbrev pub all_out : Bool → Integer
all_out negp = if negp then fix (word_base - 1) else fix 0

-- maybe_negate_bignum_for_bitwise_op on a negative number: its two's complement in `size` digits.
unfoldable pub negated_for_bitwise_op : List ℕ → ℕ → List ℕ
negated_for_bitwise_op ds size = negate_digits (take size ds ++ replicate (size - length ds) 0)

-- The digits of x, with a zero on top, from place `y / 64` on, and shifted by the rest.
unfoldable pub shift_digits_left : List ℕ → ℕ → List ℕ
shift_digits_left ds y =
    let digits = ds ++ 0 ∷ [] in
    let moved = (shift_left digits (y % 64) 0).0 in
    replicate (y / 64) 0 ++ (if ltb 0 (y % 64) then moved else digits)

unfoldable pub shift_digits_right : Bool → List ℕ → ℕ → List ℕ
unfolding negated_for_bitwise_op
shift_digits_right negp ds y =
    let source = if negp then negated_for_bitwise_op ds (length ds + 1) else ds in
    let kept = take (length ds - y / 64) (drop (y / 64) source) in
    let moved = if ltb 0 (y % 64) then (shift_right kept (y % 64) negp).0 else kept in
    if negp then negate_digits moved else moved

unfoldable pub bignum_shift_left : Bool → List ℕ → ℕ → Integer
unfolding shift_digits_left
bignum_shift_left negp ds y = bignum_simplify negp (shift_digits_left ds y)

unfoldable pub bignum_shift_right : Bool → List ℕ → ℕ → Integer
unfolding shift_digits_right
bignum_shift_right negp ds y =
    if leb (length ds * 64) y
    then all_out negp
    else bignum_simplify negp (shift_digits_right negp ds y)

-- The shift to the left by `y > 0`.
unfoldable pub shift_left_by : Integer → ℕ → Integer
unfolding bignum_shift_left
shift_left_by (fix n) y =
    if n == 0
    then fix n
    else if ltb y 62 && ltb (ilen n + y) 62
    then fix (n * 2 ^ y % word_base)
    else bignum_shift_left (fix_to_big n).0 (fix_to_big n).1 y
shift_left_by (big negp ds) y = bignum_shift_left negp ds y

-- The shift to the right by `y > 0`.
unfoldable pub shift_right_by : Integer → ℕ → Integer
unfolding bignum_shift_right shift_right_word
shift_right_by (fix n) y =
    if n == 0 then fix n else if ltb y 64 then fix (shift_right_word n y) else all_out (sign_bit n)
shift_right_by (big negp ds) y = bignum_shift_right negp ds y
