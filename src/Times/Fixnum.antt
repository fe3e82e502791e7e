-- ===== src/Times/Fixnum.antt =====
-- C_a_i_fixnum_times: the product of two fixnums.
use chicken_core_mirror.Prelude.{
  ℕ, ◌+◌, ◌*◌, ◌/◌, ◌%◌, ◌^◌, ◌≤◌, ◌≡◌, ◌≢◌, [], ◌∷◌, Bool, true, false, not, ◌||◌, ◌==◌,
  if◌then◌else◌, arith, ap, ◌∙◌, inl, inr, Bool-cases,
}
use chicken_core_mirror.Prelude.Int.{signs_multiply, signed_magnitude, ◌*ℤ◌}
use chicken_core_mirror.Word.{
  IsWord, sign_bit, signed, neg_word, add_word, mul_word, lo_half, hi_half, fits_in_fixnum,
  ufits_in_fixnum, abs_word,
}
use chicken_core_mirror.Word.Bits.{combine_lem}
use chicken_core_mirror.Digits.Scaling.{product_fits, multiply_add}
use chicken_core_mirror.Bignum.{fix, big, IsInteger, value}
use chicken_core_mirror.Times.{fixnum_product, double_product, fixnum_times}
use native.Mathlib.Nat.{mul-le-mul}

-- Four products of half digits make up the product of two words.
four_products :
    (x y : ℕ)
    → x * y
      ≡ 2 ^ 64 * (x / 2 ^ 32 * (y / 2 ^ 32))
        + 2 ^ 32 * (x / 2 ^ 32 * (y % 2 ^ 32) + x % 2 ^ 32 * (y / 2 ^ 32))
        + x % 2 ^ 32 * (y % 2 ^ 32)
four_products x y =
    let ex : x ≡ 2 ^ 32 * (x / 2 ^ 32) + x % 2 ^ 32 = omega arith in
    let ey : y ≡ 2 ^ 32 * (y / 2 ^ 32) + y % 2 ^ 32 = omega arith in
    ap (λ (t : ℕ). t * y) ex
    ∙ ap (λ (t : ℕ). (2 ^ 32 * (x / 2 ^ 32) + x % 2 ^ 32) * t) ey
    ∙ omega arith

-- For numbers up to 2 ^ 62 nothing wraps.
double_product_lem :
    (x y : ℕ)
    → x ≤ 2 ^ 62
    → y ≤ 2 ^ 62
    → let s = double_product x y in (s.0 + 2 ^ 64 * s.1 ≡ x * y) × IsWord s.0 × IsWord s.1
unfolding double_product
double_product_lem x y hx hy =
    let xl = lo_half x in
    let xh = hi_half x in
    let yl = lo_half y in
    let yh = hi_half y in
    let low = product_fits xl yl (omega arith) (omega arith) in
    let p = xl * yl in
    let first : mul_word xl yl ≡ p = omega arith in
    let cross = product_fits xh yl (omega arith) (omega arith) in
    let p' = xh * yl + hi_half p in
    let second : add_word (mul_word xh yl) (hi_half p) ≡ p' =
      multiply_add xh yl (hi_half p) (omega arith) (omega arith) (omega arith) in
    let cross' = product_fits xl yh (omega arith) (omega arith) in
    let p'' = xl * yh + lo_half p' in
    let third : add_word (mul_word xl yh) (lo_half p') ≡ p'' =
      multiply_add xl yh (lo_half p') (omega arith) (omega arith) (omega arith) in
    let high : xh * yh ≤ 2 ^ 30 * 2 ^ 30 =
      mul-le-mul {n₂ = 2 ^ 30} {m₂ = 2 ^ 30} (omega arith) (omega arith) in
    let top = xh * yh + hi_half p'' + hi_half p' in
    let fourth : add_word (add_word (mul_word xh yh) (hi_half p'')) (hi_half p') ≡ top =
      omega arith in
    let xh_same : xh ≡ x / 2 ^ 32 = omega arith in
    let yh_same : yh ≡ y / 2 ^ 32 = omega arith in
    let whole : x * y ≡ 2 ^ 64 * (xh * yh) + 2 ^ 32 * (xh * yl + xl * yh) + xl * yl =
      rw (xh_same, yh_same) (four_products x y) in
    rw
      (
        first,
        second,
        third,
        fourth,
        combine_lem (lo_half p'') (lo_half p) (omega arith) (omega arith),
        whole,
      )
      (omega arith)

two_digit_product :
    (negp : Bool) (lo hi : ℕ)
    → IsWord lo
    → IsWord hi
    → hi ≢ 0
    → IsInteger (big negp (lo ∷ hi ∷ []))
      × (value (big negp (lo ∷ hi ∷ [])) ≡ signed_magnitude negp (lo + 2 ^ 64 * hi))
two_digit_product true lo hi hl hh n = (((hl, (hh, tt)), n, omega arith), ground arith)
two_digit_product false lo hi hl hh n = (((hl, (hh, tt)), n, omega arith), ground arith)

one_digit_product :
    (negp : Bool) (lo : ℕ)
    → IsWord lo
    → IsInteger (fixnum_product negp lo 0)
      × (value (fixnum_product negp lo 0) ≡ signed_magnitude negp lo)
unfolding fixnum_product fits_in_fixnum ufits_in_fixnum
one_digit_product true lo hl =
    elim (Bool-cases (sign_bit lo || not (fits_in_fixnum (neg_word lo)))) [
      | inl e ↦ rw e (((hl, tt), ground arith, ground arith), ground arith)
      | inr e ↦ rw e ((ground arith, ground arith), ground arith)
    ]
one_digit_product false lo hl = elim (Bool-cases (not (ufits_in_fixnum lo))) [
  | inl e ↦ rw e (((hl, tt), ground arith, ground arith), ground arith)
  | inr e ↦ rw e ((hl, ground arith), ground arith)
]

fixnum_product_lem :
    (negp : Bool) (lo hi : ℕ)
    → IsWord lo
    → IsWord hi
    → IsInteger (fixnum_product negp lo hi)
      × (value (fixnum_product negp lo hi) ≡ signed_magnitude negp (lo + 2 ^ 64 * hi))
fixnum_product_lem negp lo hi hl hh = elim (Bool-cases (hi == 0)) [
  | inl e ↦
      let nought : hi ≡ 0 = ground arith in
      let same : lo + 2 ^ 64 * 0 ≡ lo = omega arith in
      rw (nought, same) (one_digit_product negp lo hl)
  | inr e ↦ unfold fixnum_product in rw e (two_digit_product negp lo hi hl hh (ground arith))
]

-- The sign and the magnitude of a fixnum.
pub abs_word_parts :
    (x : ℕ)
    → IsWord x
    → fits_in_fixnum x ≡ true
    → (abs_word x ≤ 2 ^ 62) × (signed_magnitude (sign_bit x) (abs_word x) ≡ signed x)
unfolding abs_word fits_in_fixnum
abs_word_parts x h f = (ground arith, ground arith)

-- C_a_i_fixnum_times gives the exact product of any two fixnums as a well-formed integer.
pub fixnum_times_lem :
    (x y : ℕ)
    → IsInteger (fix x)
    → IsInteger (fix y)
    → IsInteger (fixnum_times x y) × (value (fixnum_times x y) ≡ signed x *ℤ signed y)
unfolding fixnum_times
fixnum_times_lem x y (hx, fx) (hy, fy) =
    let (small_x, same_x) = abs_word_parts x hx fx in
    let (small_y, same_y) = abs_word_parts y hy fy in
    let (product, low, high) = double_product_lem (abs_word x) (abs_word y) small_x small_y in
    let s = double_product (abs_word x) (abs_word y) in
    let (ok, v) =
      fixnum_product_lem (if sign_bit x then not (sign_bit y) else sign_bit y) s.0 s.1 low high in
    (
      ok,
      v
          ∙ rw product (
              signs_multiply (sign_bit x) (sign_bit y) (abs_word x) (abs_word y)
              ∙ rw (same_x, same_y)),
    )
