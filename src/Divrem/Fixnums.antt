-- ===== src/Divrem/Fixnums.antt =====
-- C_a_i_fixnum_quotient_checked and C_i_fixnum_remainder_checked against the division of integers.
use chicken_core_mirror.Prelude.{
  ℕ, ◌+◌, ◌-◌, ◌*◌, ◌/◌, ◌%◌, ◌^◌, ◌<◌, ◌≤◌, ◌≡◌, ◌≢◌, ◌==◌, ◌&&◌, [], ◌∷◌, Bool, true, false, not,
  if◌then◌else◌, ltb, to_nat, arith, refl, ap, ◌∙◌, inl, inr, Bool-cases,
}
use chicken_core_mirror.Prelude.Int.{signed_magnitude}
use chicken_core_mirror.Word.{
  IsWord, word_base, signed, sign_bit, neg_word, sub_word, mul_word, abs_word, fits_in_fixnum,
  most_negative_fixnum,
}
use chicken_core_mirror.Bignum.{fix, big, IsInteger, value}
use chicken_core_mirror.Overflow.{signed_word, signs_differ, quotient_word}
use chicken_core_mirror.Times.Fixnum.{abs_word_parts}
use chicken_core_mirror.Times.Integers.{abs_word_small}
use chicken_core_mirror.Divrem.{and_then, returned, fixnum_quotient, fixnum_remainder}
use chicken_core_mirror.Divrem.Signs.{Returns, AreDivrem, by_signs}
use native.Mathlib.Nat.{div-mul-le_self, div-le_self, mul-le-mul_right, div-add-mod', mod-lt}

signed_word-IsInteger :
    (negp : Bool) (m : ℕ)
    → m < 2 ^ 62 + to_nat negp
    → IsInteger (fix (signed_word negp m))
      × (value (fix (signed_word negp m)) ≡ signed_magnitude negp m)
unfolding signed_word fits_in_fixnum
signed_word-IsInteger true m h = ((ground arith, ground arith), ground arith)
signed_word-IsInteger false m h = ((ground arith, ground arith), ground arith)

word_of_parts : (x : ℕ) → IsWord x → x ≡ signed_word (sign_bit x) (abs_word x)
unfolding signed_word abs_word
word_of_parts x h = ground arith

-- Words multiply like the numbers that they stand for.
product_word :
    (s n : Bool) (q b : ℕ)
    → q * b ≤ 2 ^ 62
    → 0 < q
    → 0 < b
    → q ≤ 2 ^ 62
    → b ≤ 2 ^ 62
    → mul_word (signed_word s q) (signed_word n b) ≡ signed_word (if s then not n else n) (q * b)
unfolding signed_word
product_word false false q b h hq hb lq lb = omega (arith, h)
product_word true false q b h hq hb lq lb =
    let c = 2 ^ 64 - q in
    let whole : c + q ≡ 2 ^ 64 = omega arith in
    let e : neg_word q ≡ c = omega arith in
    let p : (c + q) * b ≡ 2 ^ 64 * b = rw whole in rw e (omega (arith, p, h))
product_word false true q b h hq hb lq lb =
    let c = 2 ^ 64 - b in
    let whole : c + b ≡ 2 ^ 64 = omega arith in
    let e : neg_word b ≡ c = omega arith in
    let p : q * (c + b) ≡ q * 2 ^ 64 = rw whole in rw e (omega (arith, p, h))
product_word true true q b h hq hb lq lb =
    let c = 2 ^ 64 - q in
    let d = 2 ^ 64 - b in
    let whole : c + q ≡ 2 ^ 64 = omega arith in
    let whole' : d + b ≡ 2 ^ 64 = omega arith in
    let e : neg_word q ≡ c = omega arith in
    let e' : neg_word b ≡ d = omega arith in
    let p : (c + q) * b ≡ 2 ^ 64 * b = rw whole in
    let p' : c * (d + b) ≡ c * 2 ^ 64 = rw whole' in rw (e, e') (omega (arith, p, p', h))

difference_word :
    (m : Bool) (a p : ℕ)
    → p ≤ a
    → a ≤ 2 ^ 62
    → sub_word (signed_word m a) (signed_word m p) ≡ signed_word m (a - p)
unfolding signed_word
difference_word true a p h l = ground arith
difference_word false a p h l = ground arith

same_sign : (m n : Bool) → (if (if m then not n else n) then not n else n) ≡ m
same_sign true true = refl
same_sign true false = refl
same_sign false true = refl
same_sign false false = refl

product_nought :
    (s n : Bool) (b : ℕ)
    → mul_word (signed_word s 0) (signed_word n b) ≡ signed_word (if s then not n else n) 0
unfolding signed_word
product_nought true true b = omega arith
product_nought true false b = omega arith
product_nought false true b = omega arith
product_nought false false b = omega arith

-- The product that the remainder is taken from.
quotient_product :
    (m n : Bool) (a b : ℕ)
    → a ≤ 2 ^ 62
    → b ≤ 2 ^ 62
    → 0 < b
    → mul_word (signed_word (if m then not n else n) (a / b)) (signed_word n b)
      ≡ signed_word m (a / b * b)
quotient_product m n a b ha hb p = elim (Bool-cases (a / b == 0)) [
  | inl e ↦
      let nought : a / b ≡ 0 = ground arith in
      let none_left : 0 * b ≡ 0 = omega arith in
      rw (nought, none_left)
        (product_nought (if m then not n else n) n b ∙ ap (λ s. signed_word s 0) (same_sign m n))
  | inr e ↦
      product_word (if m then not n else n) n (a / b) b (omega (arith, div-mul-le_self a b, ha))
        (ground arith) p (omega (arith, div-le_self a b, ha)) hb
      ∙ ap (λ s. signed_word s (a / b * b)) (same_sign m n)
]

remainder_word :
    (x y : ℕ)
    → IsInteger (fix x)
    → IsInteger (fix y)
    → 0 < abs_word y
    → sub_word x (mul_word (quotient_word x y) y)
      ≡ signed_word (sign_bit x) (abs_word x % abs_word y)
unfolding quotient_word
remainder_word x y (hx, fx) (hy, fy) p =
    let (lx, _) = abs_word_parts x hx fx in
    let (ly, _) = abs_word_parts y hy fy in
    let a = abs_word x in
    let b = abs_word y in
    let product : mul_word (signed_word (signs_differ x y) (a / b)) y
        ≡ signed_word (sign_bit x) (a / b * b) =
      ap (λ (t : ℕ). mul_word (signed_word (signs_differ x y) (a / b)) t) (word_of_parts y hy)
      ∙ quotient_product (sign_bit x) (sign_bit y) a b lx ly p in
    let rest : a - a / b * b ≡ a % b = omega (arith, div-add-mod' a b) in
    rw product (
      ap (λ (t : ℕ). sub_word t (signed_word (sign_bit x) (a / b * b))) (word_of_parts x hx)
      ∙ difference_word (sign_bit x) a (a / b * b) (div-mul-le_self a b) lx
      ∙ rw rest)

-- The quotient of the least fixnum by -1 is the only one that is no fixnum.
quotient_fits :
    (x y : ℕ)
    → IsInteger (fix x)
    → IsInteger (fix y)
    → 0 < abs_word y
    → ((x == most_negative_fixnum) && (y == word_base - 1)) ≡ false
    → abs_word x / abs_word y < 2 ^ 62 + to_nat (signs_differ x y)
quotient_fits x y (hx, fx) (hy, fy) p e =
    elim (Bool-cases (ltb (abs_word x / abs_word y) (2 ^ 62))) [
      | inl small ↦
          let below : abs_word x / abs_word y < 2 ^ 62 = ground arith in omega (arith, below)
      | inr large ↦
          let (lx, _) = abs_word_parts x hx fx in
          let (ly, _) = abs_word_parts y hy fy in
          let high : 2 ^ 62 ≤ abs_word x / abs_word y = ground arith in
          let bound = div-le_self (abs_word x) (abs_word y) in
          let least : abs_word x ≡ 2 ^ 62 = omega (arith, high, bound, lx) in
          let part : 2 ^ 62 * abs_word y ≤ abs_word x / abs_word y * abs_word y =
            mul-le-mul_right (abs_word y) high in
          let unit : abs_word y ≡ 1 =
            omega (arith, part, div-mul-le_self (abs_word x) (abs_word y), least, p) in
          let same : x ≡ most_negative_fixnum = unfold abs_word fits_in_fixnum in ground arith in
          let plus : y ≡ 1 = unfold abs_word in ground arith in
          rw (same, plus) (unfold abs_word in omega arith)
    ]

least_by_minus_one :
    let x : ℕ = most_negative_fixnum in
    let y : ℕ = word_base - 1 in
    AreDivrem
      (signed x)
      (signed y)
      (big false (2 ^ 62 ∷ []), fix (sub_word x (mul_word (quotient_word x y) y)))
unfolding quotient_word signed_word abs_word fits_in_fixnum
least_by_minus_one =
    (((omega arith, tt), omega arith, omega arith), (omega arith, refl), refl, refl)

-- C_a_i_fixnum_quotient_checked and C_i_fixnum_remainder_checked on two fixnums, the second not 0,
-- give the quotient and the remainder, the one quotient that is no fixnum included.
pub fixnum_divrem_lem :
    (x y : ℕ)
    → IsInteger (fix x)
    → IsInteger (fix y)
    → y ≢ 0
    → Returns
        (and_then (fixnum_quotient x y) λ q. and_then (fixnum_remainder x y) λ r. returned (q, r))
        (AreDivrem (signed x) (signed y))
unfolding fixnum_quotient fixnum_remainder
fixnum_divrem_lem x y hx hy n =
    let not_nought : (y == 0) ≡ false = ground arith in
    let (word, positive, stands) = abs_word_small y hy.0 not_nought in
    let (_, stands') = abs_word_parts x hx.0 hx.1 in
    let (range', _) = abs_word_parts y hy.0 hy.1 in
    let (range, _) = abs_word_parts x hx.0 hx.1 in
    let a = abs_word x in
    let b = abs_word y in
    let remainder = remainder_word x y hx hy positive in
    elim (Bool-cases ((x == most_negative_fixnum) && (y == word_base - 1))) [
      | inl e ↦
          let least : x ≡ most_negative_fixnum = ground arith in
          let minus : y ≡ word_base - 1 = ground arith in
          rw (not_nought, e, least, minus) least_by_minus_one
      | inr e ↦
          let below : a % b < 2 ^ 62 + to_nat (sign_bit x) =
            omega (arith, mod-lt a positive, range') in
          let (ok, v) =
            signed_word-IsInteger (signs_differ x y) (a / b) (quotient_fits x y hx hy positive e) in
          let (ok', v') = signed_word-IsInteger (sign_bit x) (a % b) below in
          rw (not_nought, e, ← stands, ← stands', remainder)
            (by_signs (sign_bit x) (sign_bit y) a b
              (fix (quotient_word x y), fix (signed_word (sign_bit x) (a % b)))
              (unfold quotient_word in ok) ok' (unfold quotient_word in v) v')
    ]
