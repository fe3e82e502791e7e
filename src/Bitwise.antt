-- ===== src/Bitwise.antt =====
-- runtime.c: bitwise-and, bitwise-ior, bitwise-xor and bitwise-not on exact integers, on the two's
-- complement of negative numbers, and bit->boolean.
pub mod Bits
pub mod Loops
pub mod Signs
pub mod Operators
pub mod Integers
pub mod Arguments
pub mod BitToBool
pub mod Lengths
use chicken_core_mirror.Prelude.{
  ℕ, ◌+◌, ◌-◌, ◌*◌, ◌/◌, ◌%◌, ◌^◌, List, [], ◌∷◌, ◌++◌, Option, none, some, Bool, true, false, not,
  ◌&&◌, ◌||◌, ◌==◌, ltb, leb, if◌then◌else◌, length, get_elem?, replicate, ◌>>=◌,
}
use chicken_core_mirror.Word.{word_base, sign_bit, bit_at, not_word, ilen}
use chicken_core_mirror.Digits.{negate_digits}
use chicken_core_mirror.Bignum.{Integer, fix, big, to_big, bignum_simplify, integer_minus}
use chicken_core_mirror.Shift.{negated_for_bitwise_op}
use Prim.Native.Nat.{bit_and, bit_or, bit_xor, max, min}

-- maybe_negate_bignum_for_bitwise_op: the digits that the loops read.
unfoldable pub for_bitwise_op : Bool × List ℕ → ℕ → List ℕ
for_bitwise_op x size = if x.0 then negated_for_bitwise_op x.1 size else x.1

-- `while (scans1 < ends1)`, which ends with the shorter array.
unfoldable pub zip_short : (ℕ → ℕ → ℕ) → List ℕ → List ℕ → List ℕ
zip_short op [] ys = []
zip_short op (x ∷ xs) [] = []
zip_short op (x ∷ xs) (y ∷ ys) = op x y ∷ zip_short op xs ys

-- The same and `while (scans2 < ends2)`, which copies the rest of the longer array.
unfoldable pub zip_long : (ℕ → ℕ → ℕ) → List ℕ → List ℕ → List ℕ
zip_long op [] ys = ys
zip_long op (x ∷ xs) [] = x ∷ xs
zip_long op (x ∷ xs) (y ∷ ys) = op x y ∷ zip_long op xs ys

-- The end of each operator: a negative result is negated.
unfoldable pub finish_bitwise : Bool → List ℕ → Integer
finish_bitwise negp ds = bignum_simplify negp (if negp then negate_digits ds else ds)

-- The result array filled with zeros.
unfoldable pub fill_zeros : ℕ → List ℕ → List ℕ
fill_zeros size ds = ds ++ replicate (size - length ds) 0

-- The bignum part of C_s_a_i_bitwise_and
unfoldable pub bignum_and : Bool × List ℕ → Bool × List ℕ → Integer
unfolding for_bitwise_op zip_short finish_bitwise fill_zeros
bignum_and x y =
    let size =
      if x.0 || y.0 then max (length x.1) (length y.1) + 1 else min (length x.1) (length y.1) in
    finish_bitwise (x.0 && y.0)
      (fill_zeros size (zip_short bit_and (for_bitwise_op x size) (for_bitwise_op y size)))

-- C_s_a_i_bitwise_and
unfoldable pub bitwise_and : Integer → Integer → Integer
unfolding bignum_and
bitwise_and (fix x) (fix y) = fix (bit_and x y)
bitwise_and x y = bignum_and (to_big x) (to_big y)

-- The part that C_s_a_i_bitwise_ior and C_s_a_i_bitwise_xor share.
unfoldable pub bignum_combine : (ℕ → ℕ → ℕ) → Bool → Bool × List ℕ → Bool × List ℕ → Integer
unfolding for_bitwise_op zip_long finish_bitwise
bignum_combine op negp x y =
    let size = max (length x.1) (length y.1) + 1 in
    let ds = zip_long op (for_bitwise_op x size) (for_bitwise_op y size) in
    finish_bitwise negp (if ltb (length ds) size then ds ++ 0 ∷ [] else ds)

-- C_s_a_i_bitwise_ior
unfoldable pub bitwise_ior : Integer → Integer → Integer
unfolding bignum_combine
bitwise_ior (fix x) (fix y) = fix (bit_or x y)
bitwise_ior x y = bignum_combine bit_or ((to_big x).0 || (to_big y).0) (to_big x) (to_big y)

-- C_s_a_i_bitwise_xor
unfoldable pub bitwise_xor : Integer → Integer → Integer
unfolding bignum_combine
bitwise_xor (fix x) (fix y) = fix (bit_xor x y)
bitwise_xor x y =
    let negp : Bool = if (to_big x).0 then not (to_big y).0 else (to_big y).0 in
    bignum_combine bit_xor negp (to_big x) (to_big y)

-- C_s_a_i_bitwise_not
unfoldable pub bitwise_not : Integer → Option Integer
bitwise_not x = integer_minus (fix (word_base - 1)) x

-- The loop of C_bitwise_and, C_bitwise_ior and C_bitwise_xor.
unfoldable pub bitwise_loop : (Integer → Integer → Integer) → Integer → List Integer → Integer
bitwise_loop op result [] = result
bitwise_loop op result (x ∷ xs) = bitwise_loop op (op result x) xs

-- C_bitwise_and, C_bitwise_ior and C_bitwise_xor, with the answer for no arguments.
unfoldable pub bitwise_all : (Integer → Integer → Integer) → Integer → List Integer → Integer
unfolding bitwise_loop
bitwise_all op empty [] = empty
bitwise_all op empty (x ∷ xs) = bitwise_loop op x xs

-- The answers of C_i_bit_to_bool; `out_of_bounds` is a read past the end of an array.
pub data BitAnswer : Type 0 where
  bit : Bool → BitAnswer
  bad_index : BitAnswer
  out_of_bounds : BitAnswer

read_bit : Option ℕ → ℕ → BitAnswer
read_bit none i = out_of_bounds
read_bit (some d) i = bit (bit_at d i == 1)

-- The bit at a fixnum index that is not negative.
bit_at_index : Integer → ℕ → BitAnswer
unfolding read_bit for_bitwise_op
bit_at_index (fix n) i = bit (if leb 64 i then sign_bit n else bit_at n i == 1)
bit_at_index (big negp ds) i =
    if leb (length ds) (i / 64)
    then bit negp
    else read_bit (get_elem? (for_bitwise_op (negp, ds) (i / 64)) (i / 64)) (i % 64)

-- C_i_bit_to_bool
unfoldable pub bit_to_bool : Integer → Integer → BitAnswer
unfolding bit_at_index
bit_to_bool n (big true ds) = bad_index
bit_to_bool (fix n) (big false ds) = bit (sign_bit n)
bit_to_bool (big negp es) (big false ds) = bit negp
bit_to_bool n (fix i) = if sign_bit i then bad_index else bit_at_index n i

-- `while (startx < last_digit && *startx == 0)` gets to the last digit.
lower_zeros : List ℕ → Bool
lower_zeros [] = true
lower_zeros (d ∷ []) = true
lower_zeros (d ∷ e ∷ ds) = (d == 0) && lower_zeros (e ∷ ds)

last_digit : List ℕ → ℕ
last_digit [] = 0
last_digit (d ∷ []) = d
last_digit (d ∷ e ∷ ds) = last_digit (e ∷ ds)

-- C_i_integer_length, and C_i_fixnum_length on a fixnum. Where the first part of the sum is 0 and
-- is counted down, the word wraps back in the sum.
unfoldable pub integer_length : Integer → ℕ
unfolding lower_zeros last_digit
integer_length (fix n) = ilen (if sign_bit n then not_word n else n)
integer_length (big negp ds) =
    let length_of_last = ilen (last_digit ds) in
    let whole = (length ds - 1) * 64 + length_of_last in
    if negp && (last_digit ds == 2 ^ (length_of_last - 1)) && lower_zeros ds
    then whole - 1
    else whole
