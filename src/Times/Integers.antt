-- ===== src/Times/Integers.antt =====
-- C_s_a_u_i_integer_times, with every amount of room on the stack.
use chicken_core_mirror.Prelude.{
  ℕ, zero, suc, ◌+◌, ◌-◌, ◌*◌, ◌^◌, ◌<◌, ◌≤◌, ◌≡◌, List, [], ◌∷◌, Option, none, some, Bool, true,
  false, not, ◌==◌, ltb, leb, if◌then◌else◌, length, arith, refl, ap, ◌∙◌, inl, inr, Bool-cases,
  ◌⊎◌, ◌&&◌, ◌||◌,
}
use chicken_core_mirror.Prelude.Int.{
  ℤ, pos, negsuc, signed_magnitude, signs_multiply, ◌*ℤ◌, ◌-ℤ◌, pos_part, neg_part,
}
use chicken_core_mirror.Word.{
  IsWord, IsHalf, word_base, sign_bit, signed, fits_in_half_digit, fits_in_fixnum, abs_word, ilen,
}
use chicken_core_mirror.Digits.{magnitude, AreDigits}
use chicken_core_mirror.Bignum.Values.{fix_to_big-one_digit}
use chicken_core_mirror.Bignum.{Integer, fix, big, IsInteger, value, Computes, fix_to_big}
use chicken_core_mirror.Bignum.Negation.{integer_negate_lem}
use chicken_core_mirror.Times.{
  Multiply, karatsuba_threshold, times_ordered, times_unsigned, times_small, times_fixnum,
  times_with, integer_times,
}
use chicken_core_mirror.Times.Karatsuba.{IsMultiply, karatsuba_lem}
use chicken_core_mirror.Times.Fixnum.{fixnum_times_lem}
use chicken_core_mirror.Times.Schoolbook.{schoolbook_lem, times_small_lem}

-- What the products of the parts are left to.
abbrev IsRoom : Option Multiply → Type 0
IsRoom none = Unit
IsRoom (some times) = IsMultiply times

-- The signed digits are an integer as soon as there are many.
abbrev IsLarge : Bool × List ℕ → Type 0
IsLarge x = karatsuba_threshold ≤ length x.1 → IsInteger (big x.0 x.1)

*ℤ_comm : (a b : ℤ) → a *ℤ b ≡ b *ℤ a
unfolding ◌*ℤ◌
*ℤ_comm a b =
    let c : pos_part b * pos_part a + neg_part b * neg_part a
        ≡ pos_part a * pos_part b + neg_part a * neg_part b =
      omega arith in
    let d : pos_part b * neg_part a + neg_part b * pos_part a
        ≡ pos_part a * neg_part b + neg_part a * pos_part b =
      omega arith in
    rw (c, d)

minus_one : (z : ℤ) → z *ℤ negsuc 0 ≡ pos 0 -ℤ z
unfolding ◌*ℤ◌ ◌-ℤ◌
minus_one z = ground arith

one : (z : ℤ) → z *ℤ pos 1 ≡ z
unfolding ◌*ℤ◌
one z = ground arith

nought : (z : ℤ) → z *ℤ pos 0 ≡ pos 0
unfolding ◌*ℤ◌
nought z = ground arith

flip_signs :
    (s n : Bool) (m : ℕ)
    → signed_magnitude (if s then not n else n) m ≡ signed_magnitude (if n then not s else s) m
flip_signs true true m = refl
flip_signs true false m = refl
flip_signs false true m = refl
flip_signs false false m = refl

pub abs_word_small :
    (y : ℕ)
    → IsWord y
    → (y == 0) ≡ false
    → IsWord (abs_word y)
      × (0 < abs_word y)
      × (signed_magnitude (sign_bit y) (abs_word y) ≡ signed y)
unfolding abs_word
abs_word_small y h e = (ground arith, ground arith, ground arith)

pub IsHalf-or_power :
    (a : ℕ)
    → (fits_in_half_digit a || (2 ^ (ilen a - 1) == a && fits_in_fixnum a)) ≡ true
    → IsWord a
    → IsHalf a ⊎ (2 ^ (ilen a - 1) ≡ a)
unfolding fits_in_half_digit
IsHalf-or_power a e h = elim (Bool-cases (fits_in_half_digit a)) [
  | inl e' ↦ inl (ground arith)
  | inr e' ↦ inr (ground arith)
]

times_ordered_lem :
    (rec : Option Multiply) (x y : Bool × List ℕ) (negp : Bool)
    → IsRoom rec
    → AreDigits x.1
    → AreDigits y.1
    → IsLarge x
    → IsLarge y
    → length x.1 ≤ length y.1
    → Computes (times_ordered rec x y negp) (signed_magnitude negp (magnitude x.1 * magnitude y.1))
unfolding times_ordered
times_ordered_lem none x y negp room hx hy lx ly le =
    elim (Bool-cases (leb karatsuba_threshold (length x.1))) [
      | inl e ↦ rw e (schoolbook_lem x.1 y.1 negp hx hy)
      | inr e ↦ rw e (schoolbook_lem x.1 y.1 negp hx hy)
    ]
times_ordered_lem (some times) x y negp room hx hy lx ly le =
    elim (Bool-cases (leb karatsuba_threshold (length x.1))) [
      | inl e ↦
          rw e
            (karatsuba_lem times x.0 y.0 negp x.1 y.1 room (lx (ground arith)) (ly (ground arith)))
      | inr e ↦ rw e (schoolbook_lem x.1 y.1 negp hx hy)
    ]

times_unsigned_lem :
    (rec : Option Multiply) (x y : Bool × List ℕ) (negp : Bool)
    → IsRoom rec
    → AreDigits x.1
    → AreDigits y.1
    → IsLarge x
    → IsLarge y
    → Computes (times_unsigned rec x y negp) (signed_magnitude negp (magnitude x.1 * magnitude y.1))
unfolding times_unsigned
times_unsigned_lem rec x y negp room hx hy lx ly =
    elim (Bool-cases (ltb (length y.1) (length x.1))) [
      | inl e ↦
          let flip : magnitude x.1 * magnitude y.1 ≡ magnitude y.1 * magnitude x.1 = omega arith in
          rw (e, flip) (times_ordered_lem rec y x negp room hy hx ly lx (ground arith))
      | inr e ↦ rw e (times_ordered_lem rec x y negp room hx hy lx ly (ground arith))
    ]

-- A bignum times a fixnum that is not one of 0, 1 and -1.
times_digit :
    (rec : Option Multiply) (n : Bool) (ds : List ℕ) (y : ℕ)
    → IsRoom rec
    → IsInteger (big n ds)
    → IsWord y
    → (y == 0) ≡ false
    → let absy = abs_word y in
      let negp = if sign_bit y then not n else n in
      Computes
        (if fits_in_half_digit absy || (2 ^ (ilen absy - 1) == absy && fits_in_fixnum absy)
          then some (times_small ds absy negp)
          else times_unsigned rec (n, ds) (fix_to_big y) negp)
        (signed_magnitude n (magnitude ds) *ℤ signed y)
times_digit rec n ds y room (h, t, l) hy e =
    let absy = abs_word y in
    let negp = if sign_bit y then not n else n in
    let (word, positive, same) = abs_word_small y hy e in
    let goal : signed_magnitude negp (magnitude ds * absy)
        ≡ signed_magnitude n (magnitude ds) *ℤ signed y =
      flip_signs (sign_bit y) n (magnitude ds * absy)
      ∙ signs_multiply n (sign_bit y) (magnitude ds) absy
      ∙ rw same in
    elim (Bool-cases
      (fits_in_half_digit absy || (2 ^ (ilen absy - 1) == absy && fits_in_fixnum absy))) [
        | inl e' ↦
            rw (e', ← goal)
              (times_small_lem ds absy negp h word positive (IsHalf-or_power absy e' word))
        | inr e' ↦
            let one_digit : magnitude ds * magnitude (absy ∷ []) ≡ magnitude ds * absy =
              ap (λ (k : ℕ). magnitude ds * k) (omega arith) in
            rw (e', ← goal, ← one_digit, fix_to_big-one_digit y e)
              (times_unsigned_lem rec (n, ds) (sign_bit y, abs_word y ∷ []) negp room h (word, tt)
                (λ many. (h, t, l)) (λ many. absurd (omega arith)))
      ]

times_fixnum_lem :
    (rec : Option Multiply) (n : Bool) (ds : List ℕ) (y : ℕ)
    → IsRoom rec
    → IsInteger (big n ds)
    → IsWord y
    → Computes (times_fixnum rec n ds y) (signed_magnitude n (magnitude ds) *ℤ signed y)
unfolding times_fixnum
times_fixnum_lem rec n ds y room h hy = elim (Bool-cases (y == 0)) [
  | inl e ↦
      let zero_word : y ≡ 0 = ground arith in
      rw (zero_word, nought (signed_magnitude n (magnitude ds)))
        (unfold fits_in_fixnum in ((omega arith, refl), refl))
  | inr e ↦ elim (Bool-cases (y == 1)) [
    | inl e' ↦
        let one_word : y ≡ 1 = ground arith in
        rw (one_word, one (signed_magnitude n (magnitude ds))) (h, refl)
    | inr e' ↦ elim (Bool-cases (y == word_base - 1)) [
      | inl e'' ↦
          let last_word : y ≡ word_base - 1 = ground arith in
          rw (last_word, minus_one (signed_magnitude n (magnitude ds)))
            (integer_negate_lem (big n ds) h)
      | inr e'' ↦ rw (e, e', e'') (times_digit rec n ds y room h hy e)
    ]
  ]
]

times_with_lem : (rec : Option Multiply) → IsRoom rec → IsMultiply (times_with rec)
unfolding times_with
times_with_lem rec room (fix x) (fix y) hx hy = fixnum_times_lem x y hx hy
times_with_lem rec room (fix x) (big n y) hx hy =
    rw (*ℤ_comm (signed x) (signed_magnitude n (magnitude y)))
      (times_fixnum_lem rec n y x room hy hx.0)
times_with_lem rec room (big m x) (fix y) hx hy = times_fixnum_lem rec m x y room hx hy.0
times_with_lem rec room (big m x) (big n y) hx hy =
    rw (← signs_multiply m n (magnitude x) (magnitude y)) (
      times_unsigned_lem rec (m, x) (n, y) (if m then not n else n) room hx.0 hy.0 (λ many. hx)
        (λ many. hy))

-- C_s_a_u_i_integer_times on any two well-formed exact integers writes within its arrays and gives
-- the well-formed integer that is their product, however many levels of Karatsuba multiplication
-- the stack has room for.
pub integer_times_lem :
    (stack : ℕ) (x y : Integer)
    → IsInteger x
    → IsInteger y
    → Computes (integer_times stack x y) (value x *ℤ value y)
unfolding integer_times
integer_times_lem zero = times_with_lem none tt
integer_times_lem (suc stack) =
    times_with_lem (some (integer_times stack)) (integer_times_lem stack)
