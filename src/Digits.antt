-- ===== src/Digits.antt =====
-- runtime.c: the loops over the digits of a bignum. A digit array is the list of its digits, the
-- least significant one first; a loop that moves pointers over two arrays recurs on both lists.
-- `none` is a read or a write past the end of an array.
pub mod Sums
pub mod Differences
pub mod Scaling
pub mod Shifts
pub mod Order
pub mod Products
pub mod Arrays
use chicken_core_mirror.Prelude.{
  ℕ, zero, suc, ◌+◌, ◌-◌, ◌*◌, ◌/◌, ◌%◌, ◌^◌, ◌<◌, List, [], ◌∷◌, Option, none, some, Bool, true,
  false, ◌==◌, ltb, leb, if◌then◌else◌, to_nat, length, All, ◌>>=◌, ◌≢◌,
}
use chicken_core_mirror.Word.{
  IsWord, word_base, half_base, add_word, sub_word, mul_word, not_word, lo_half, hi_half, combine,
}
use Prim.Native.Nat.{bit_or, compare, Ordering}
use mathlib.Core.List.{reverse}

-- The number that a digit array stands for.
abbrev pub magnitude : List ℕ → ℕ
magnitude [] = 0
magnitude (d ∷ ds) = d + 2 ^ 64 * magnitude ds

abbrev pub AreDigits : List ℕ → Type 0
AreDigits = All IsWord

-- The most significant digit is not zero.
abbrev pub IsTrimmed : List ℕ → Type 0
IsTrimmed [] = Unit
IsTrimmed (d ∷ []) = d ≢ 0
IsTrimmed (d ∷ e ∷ ds) = IsTrimmed (e ∷ ds)

unfoldable pub push : ℕ → Option (List ℕ) → Option (List ℕ)
push d none = none
push d (some ds) = some (d ∷ ds)

-- The second loop of bignum_plus_unsigned: the carry moves into the rest of x.
propagate_carry : List ℕ → Bool → Option (List ℕ)
propagate_carry r false = some r
propagate_carry [] true = none
propagate_carry (d ∷ r) true = let sum = add_word d 1 in push sum (propagate_carry r (sum == 0))

-- The sum and the new carry of one round.
add_round : ℕ → ℕ → Bool → ℕ × Bool
add_round digit y true = let sum = add_word (add_word digit y) 1 in (sum, leb sum digit)
add_round digit y false = let sum = add_word digit y in (sum, ltb sum digit)

-- The first loop of bignum_plus_unsigned: y is added into r, which holds x.
unfoldable pub add_digits : List ℕ → List ℕ → Bool → Option (List ℕ)
unfolding push propagate_carry add_round
add_digits r [] carry = propagate_carry r carry
add_digits [] (y ∷ ys) carry = none
add_digits (d ∷ r) (y ∷ ys) carry =
    let (sum, carry') = add_round d y carry in push sum (add_digits r ys carry')

-- The second loop of bignum_minus_unsigned.
propagate_borrow : List ℕ → Bool → Option (List ℕ)
propagate_borrow r false = some r
propagate_borrow [] true = none
propagate_borrow (d ∷ r) true =
    let difference = sub_word d 1 in push difference (propagate_borrow r (leb d difference))

subtract_round : ℕ → ℕ → Bool → ℕ × Bool
subtract_round digit y true =
    let difference = sub_word (sub_word digit y) 1 in (difference, leb digit difference)
subtract_round digit y false =
    let difference = sub_word digit y in (difference, ltb digit difference)

-- The first loop of bignum_minus_unsigned: y is subtracted from r, which holds x.
unfoldable pub subtract_digits : List ℕ → List ℕ → Bool → Option (List ℕ)
unfolding push propagate_borrow subtract_round
subtract_digits r [] borrow = propagate_borrow r borrow
subtract_digits [] (y ∷ ys) borrow = none
subtract_digits (d ∷ r) (y ∷ ys) borrow =
    let (difference, borrow') = subtract_round d y borrow in
    push difference (subtract_digits r ys borrow')

unfoldable pub complement : List ℕ → List ℕ
complement [] = []
complement (d ∷ ds) = not_word d ∷ complement ds

-- bignum_digits_destructive_negate: the first loop adds one to the complement until there is no
-- carry, and the second complements the rest.
unfoldable pub negate_digits : List ℕ → List ℕ
unfolding complement
negate_digits [] = []
negate_digits (d ∷ ds) =
    let sum = add_word (not_word d) 1 in
    let carried = negate_digits ds in if sum == 0 then sum ∷ carried else sum ∷ complement ds

-- One round of bignum_digits_destructive_scale_up_with_carry: the new digit and the new carry.
unfoldable pub scale_up_round : ℕ → ℕ → ℕ → ℕ × ℕ
scale_up_round factor digit carry =
    let p = add_word (mul_word factor (lo_half digit)) carry in
    let low = lo_half p in
    let p' = add_word (mul_word factor (hi_half digit)) (hi_half p) in
    (combine (lo_half p') low, hi_half p')

-- bignum_digits_destructive_scale_up_with_carry: the digits and the carry that is returned.
unfoldable pub scale_up : List ℕ → ℕ → ℕ → List ℕ × ℕ
scale_up [] factor carry = ([], carry)
scale_up (d ∷ ds) factor carry =
    let (digit, carry') = scale_up_round factor d carry in
    let (rest, last) = scale_up ds factor carry' in (digit ∷ rest, last)

-- One round of bignum_digits_destructive_scale_down: the new digit and the new k.
unfoldable pub scale_down_round : ℕ → ℕ → ℕ → ℕ × ℕ
scale_down_round denominator digit k =
    let k₁ = combine k (hi_half digit) in
    let q_hi = lo_half (k₁ / denominator) in
    let k₂ = sub_word k₁ (mul_word q_hi denominator) in
    let k₃ = combine k₂ (lo_half digit) in
    let q_lo = lo_half (k₃ / denominator) in
    (combine q_hi q_lo, sub_word k₃ (mul_word q_lo denominator))

-- bignum_digits_destructive_scale_down: from the most significant digit down; the digits and k.
unfoldable pub scale_down : List ℕ → ℕ → List ℕ × ℕ
scale_down [] denominator = ([], 0)
scale_down (d ∷ ds) denominator =
    let (rest, k) = scale_down ds denominator in
    let (digit, k') = scale_down_round denominator d k in (digit ∷ rest, k')

-- bignum_remainder_unsigned_halfdigit
unfoldable pub remainder_halfdigit : List ℕ → ℕ → ℕ
remainder_halfdigit [] y = 0
remainder_halfdigit (d ∷ ds) y =
    let rem = combine (remainder_halfdigit ds y) (hi_half d) % y in combine rem (lo_half d) % y

-- bignum_digits_destructive_shift_left: the digits and the carry that is returned.
unfoldable pub shift_left : List ℕ → ℕ → ℕ → List ℕ × ℕ
shift_left [] shift carry = ([], carry)
shift_left (d ∷ ds) shift carry =
    let (rest, last) = shift_left ds shift (d / 2 ^ (64 - shift)) in
    (bit_or (d * 2 ^ shift % word_base) carry ∷ rest, last)

-- The loop of bignum_digits_destructive_shift_right, from the most significant digit down: the
-- digits and the carry, whose upper bits are the ones shifted out. The shift is by 1 to 63 bits.
shift_right_loop : List ℕ → ℕ → ℕ → List ℕ × ℕ
shift_right_loop [] shift carry = ([], carry)
shift_right_loop (d ∷ ds) shift carry =
    let (rest, c) = shift_right_loop ds shift carry in
    (bit_or (d / 2 ^ shift) c ∷ rest, d * 2 ^ (64 - shift) % word_base)

-- bignum_digits_destructive_shift_right, for a shift by 1 to 63 bits: the digits and the bits that
-- were shifted out. By 0 bits it would shift a word by C_WORD_SIZE, which C leaves undefined.
unfoldable pub shift_right : List ℕ → ℕ → Bool → List ℕ × ℕ
unfolding shift_right_loop
shift_right ds shift negp =
    let carry = if negp then (word_base - 1) * 2 ^ (64 - shift) % word_base else 0 in
    let (rest, c) = shift_right_loop ds shift carry in (rest, c / 2 ^ (64 - shift))

-- The loop of bignum_cmp_unsigned, over the digits from the most significant one down.
compare_digits : List ℕ → List ℕ → Ordering
compare_digits (x ∷ xs) (y ∷ ys) =
    let rest = compare_digits xs ys in
    if ltb x y then Ordering.lt else if ltb y x then Ordering.gt else rest
compare_digits [] ys = Ordering.eq
compare_digits (x ∷ xs) [] = Ordering.eq

-- bignum_cmp_unsigned; -1, 0 and 1 are the three orderings. That x and y are one object is only a
-- shortcut.
unfoldable pub cmp_unsigned : List ℕ → List ℕ → Ordering
unfolding compare_digits
cmp_unsigned x y =
    if ltb (length x) (length y)
    then Ordering.lt
    else if ltb (length y) (length x)
    then Ordering.gt
    else compare_digits (reverse x) (reverse y)

-- A digit array as an array of half digits, as C_uhword_ref reads it.
unfoldable pub to_halves : List ℕ → List ℕ
to_halves [] = []
to_halves (d ∷ ds) = lo_half d ∷ hi_half d ∷ to_halves ds

unfoldable pub from_halves : List ℕ → List ℕ
from_halves (l ∷ h ∷ hs) = (l + half_base * h) ∷ from_halves hs
from_halves [] = []
from_halves (l ∷ []) = l ∷ []

-- The inner loop of bignum_digits_multiply: `r` is the result from place `j` on.
multiply_row : List ℕ → ℕ → ℕ → List ℕ → Option (List ℕ)
unfolding push
multiply_row [] yj carry [] = none
multiply_row [] yj carry (r ∷ rs) = some (carry ∷ rs)
multiply_row (x ∷ xs) yj carry [] = none
multiply_row (x ∷ xs) yj carry (r ∷ rs) =
    let product = add_word (add_word (mul_word x yj) r) carry in
    push (lo_half product) (multiply_row xs yj (hi_half product) rs)

-- The place below `j` is final once row `j` is done.
keep_first : Option (List ℕ) → (List ℕ → Option (List ℕ)) → Option (List ℕ)
unfolding push
keep_first none f = none
keep_first (some []) f = none
keep_first (some (r ∷ rs)) f = push r (f rs)

-- The outer loop, over the half digits of y.
multiply_rows : List ℕ → List ℕ → List ℕ → Option (List ℕ)
unfolding multiply_row keep_first
multiply_rows xs [] rd = some rd
multiply_rows xs (yj ∷ ys) rd =
    keep_first (if yj == 0 then some rd else multiply_row xs yj 0 rd) (multiply_rows xs ys)

-- bignum_digits_multiply, with the result array given.
unfoldable pub multiply_digits : List ℕ → List ℕ → List ℕ → Option (List ℕ)
unfolding multiply_rows
multiply_digits x y result = do
  rd ← multiply_rows (to_halves x) (to_halves y) (to_halves result)
  some (from_halves rd)
