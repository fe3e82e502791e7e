-- ===== src/Overflow/Products.antt =====
-- C_i_o_fixnum_times and C_i_o_fixnum_quotient against the product and the quotient of integers.
use chicken_core_mirror.Prelude.{
  ℕ, zero, suc, ◌*◌, ◌-◌, ◌/◌, ◌%◌, ◌≤◌, ltb, ltb→lt, ◌^◌, ◌<◌, ◌≡◌, ◌==◌, none, Bool, true, false,
  not, ◌&&◌, arith, refl, sym, ◌∙◌, if◌then◌else◌, Bool-cases, inl, inr,
}
use chicken_core_mirror.Prelude.Int.{negsuc, ◌*ℤ◌, signed_magnitude, signs_multiply, sub_ℕ}
use chicken_core_mirror.Word.{
  IsWord, word_base, signed, sign_bit, abs_word, fix_word, fits_in_fixnum,
}
use chicken_core_mirror.Word.Bits.{fix_word_lem}
use chicken_core_mirror.Word.Fixnums.{unfix_word-fix_word}
use chicken_core_mirror.Times.Fixnum.{abs_word_parts}
use chicken_core_mirror.Overflow.{
  IsFixnum, checked, signed_word, signs_differ, times_word, quotient_word, o_fixnum_times,
  o_fixnum_quotient, answer, division_by_zero, fixnum_or_false, truncate,
}
use chicken_core_mirror.Overflow.Sums.{on_fixnums_lem, checked_lem}
use native.Mathlib.Nat.{div-lt_iff_lt-mul, div-le_self, mul-le-mul, div-mul-le_self, zero-div}

-- Up to 2 ^ 63 the word of a magnitude stands for it.
abbrev limit : Bool → ℕ
limit negp = if negp then 2 ^ 63 else 2 ^ 63 - 1

signed_word_lem :
    (negp : Bool) (m : ℕ)
    → m ≤ limit negp
    → IsWord (signed_word negp m) × (signed (signed_word negp m) ≡ signed_magnitude negp m)
unfolding signed_word
signed_word_lem true m h = (ground arith, ground arith)
signed_word_lem false m h = (ground arith, ground arith)

sign_bit-fix_word : (a : ℕ) → IsFixnum a → sign_bit (fix_word a) ≡ sign_bit a
sign_bit-fix_word a (h, f) = rw (fix_word_lem a) (unfold fits_in_fixnum in ground arith)

limit_le : (negp : Bool) → limit negp ≤ 2 ^ 63
limit_le true = omega arith
limit_le false = omega arith

ltb-le : (a b : ℕ) → ltb a b ≡ false → b ≤ a
ltb-le a b h = ground arith

lt→ltb : (a b : ℕ) → a < b → ltb a b ≡ true
lt→ltb a b h = ground arith

le→ltb : (a b : ℕ) → b ≤ a → ltb a b ≡ false
le→ltb a b h = ground arith

-- Beyond the limit there is no fixnum.
beyond : (negp : Bool) (m : ℕ) → limit negp < m → fixnum_or_false (signed_magnitude negp m) ≡ none
beyond true m h = ground arith
beyond false m h = ground arith

product_checked :
    (negp : Bool) (m : ℕ)
    → (if ltb (limit negp) m then none else checked (signed_word negp (m % 2 ^ 64)))
      ≡ fixnum_or_false (signed_magnitude negp m)
product_checked negp m = elim (Bool-cases (ltb (limit negp) m)) [
  | inl e ↦ rw e (sym (beyond negp m (ltb→lt (limit negp) m e)))
  | inr e ↦
      let below = ltb-le (limit negp) m e in
      let whole : m % 2 ^ 64 ≡ m = omega (arith, below, limit_le negp) in
      let (word, same) = signed_word_lem negp m below in
      rw (e, whole, ← same) (checked_lem (signed_word negp m) word)
]

div-bound : (c x y : ℕ) → 0 < y → x ≤ c / y → x * y ≤ c
div-bound c x y p h =
    omega (arith, mul-le-mul {m₁ = y} {n₂ = c / y} {m₂ = y} h (omega arith), div-mul-le_self c y)

-- The test before the multiplication, `x1u > (c / x2u)`.
test_iff : (c x y : ℕ) → (not (y == 0) && ltb (c / y) x) ≡ ltb c (x * y)
test_iff c x y = elim (Bool-cases (y == 0)) [
  | inl e ↦ let nought : y ≡ 0 = ground arith in rw nought (ground arith)
  | inr e ↦
      let y-positive : 0 < y = ground arith in
      elim (Bool-cases (ltb (c / y) x)) [
        | inl e' ↦
            rw (e, e', lt→ltb c (x * y) ((div-lt_iff_lt-mul y-positive).0 (ltb→lt (c / y) x e')))
        | inr e' ↦ rw (e, e', le→ltb c (x * y) (div-bound c x y y-positive (ltb-le (c / y) x e')))
      ]
]

-- C_i_o_fixnum_times on two fixnums gives the fixnum of their product, or #f where the product is
-- no fixnum.
pub o_fixnum_times_lem :
    (a b : ℕ)
    → IsFixnum a
    → IsFixnum b
    → o_fixnum_times (fix_word a) (fix_word b) ≡ fixnum_or_false (signed a *ℤ signed b)
unfolding o_fixnum_times times_word
o_fixnum_times_lem a b ha hb =
    let (small, same) = abs_word_parts a ha.0 ha.1 in
    let (small', same') = abs_word_parts b hb.0 hb.1 in
    let negp = signs_differ a b in
    let m = abs_word a * abs_word b in
    let product : signed a *ℤ signed b ≡ signed_magnitude negp m =
      sym (signs_multiply (sign_bit a) (sign_bit b) (abs_word a) (abs_word b) ∙ rw (same, same')) in
    rw
      (
        on_fixnums_lem a b _ ha hb,
        sign_bit-fix_word a ha,
        sign_bit-fix_word b hb,
        test_iff (limit negp) (abs_word a) (abs_word b),
        product,
      )
      (product_checked negp m)

minus-suc : (m : ℕ) → sub_ℕ 0 (suc m) ≡ negsuc m
minus-suc m = ground arith

limit_ge : (negp : Bool) → 2 ^ 62 ≤ limit negp
limit_ge true = omega arith
limit_ge false = omega arith

-- The integers' quotient, by signs and magnitudes.
pub truncate_signs :
    (m n : Bool) (a b : ℕ)
    → truncate (signed_magnitude m a) (signed_magnitude n b)
      ≡ signed_magnitude (if m then not n else n) (a / b)
truncate_signs true true zero zero = refl
truncate_signs true true zero (suc b) = rw (minus-suc b, zero-div (suc b))
truncate_signs true true (suc a) zero =
    let none_left : suc a / 0 ≡ 0 = omega arith in rw (minus-suc a, none_left)
truncate_signs true true (suc a) (suc b) = rw (minus-suc a, minus-suc b)
truncate_signs true false zero b = rw (zero-div b)
truncate_signs true false (suc a) b = rw (minus-suc a)
truncate_signs false true a zero = let none_left : a / 0 ≡ 0 = omega arith in rw none_left
truncate_signs false true a (suc b) = rw (minus-suc b)
truncate_signs false false a b = refl

-- C_i_o_fixnum_quotient on two fixnums raises the error of a division by zero for the divisor 0,
-- and otherwise gives the fixnum of the quotient rounded towards zero, or #f where that is no
-- fixnum.
pub o_fixnum_quotient_lem :
    (a b : ℕ)
    → IsFixnum a
    → IsFixnum b
    → o_fixnum_quotient (fix_word a) (fix_word b) ≡ (
        if b == 0
        then division_by_zero
        else answer (fixnum_or_false (truncate (signed a) (signed b))))
unfolding o_fixnum_quotient quotient_word
o_fixnum_quotient_lem a b ha hb =
    let (ua, ta, wa) = unfix_word-fix_word a ha.0 ha.1 in
    let (ub, tb, wb) = unfix_word-fix_word b hb.0 hb.1 in
    let (small, same) = abs_word_parts a ha.0 ha.1 in
    let (small', same') = abs_word_parts b hb.0 hb.1 in
    let negp = signs_differ a b in
    let q = abs_word a / abs_word b in
    let below : q ≤ limit negp =
      omega (arith, div-le_self (abs_word a) (abs_word b), limit_ge negp, small) in
    let (word, stands) = signed_word_lem negp q below in
    let not_least : ((a == 2 ^ 63) && (b == word_base - 1)) ≡ false =
      unfold fits_in_fixnum in ground (arith, ha.1) in
    let quotient : truncate (signed a) (signed b) ≡ signed_magnitude negp q =
      rw (← same, ← same') (truncate_signs (sign_bit a) (sign_bit b) (abs_word a) (abs_word b)) in
    rw (ta, tb, ua, ub, not_least, quotient, ← stands, checked_lem (signed_word negp q) word)
