-- ===== src/Times/Karatsuba.antt =====
-- bignum_times_bignum_karatsuba: the product from three products of the halves.
use chicken_core_mirror.Prelude.{
  ℕ, ◌+◌, ◌-◌, ◌*◌, ◌/◌, ◌^◌, ◌≤◌, ◌≡◌, List, Option, Bool, true, false, ltb, if◌then◌else◌, length,
  ◌>>=◌, arith, refl, sym, ap, ◌∙◌, inl, inr, Bool-cases, Yields-bind,
}
use chicken_core_mirror.Prelude.Int.{
  ℤ, pos, signed_magnitude, signs_multiply, ◌*ℤ◌, ◌-ℤ◌, ◌+ℤ◌, pos_part, neg_part,
}
use chicken_core_mirror.Digits.{magnitude}
use chicken_core_mirror.Bignum.{
  Integer, fix, big, IsInteger, value, Computes, integer_negate, integer_abs,
}
use chicken_core_mirror.Bignum.Negation.{integer_negate_lem, integer_abs_lem}
use chicken_core_mirror.Bignum.Sums.{integer_plus_lem, integer_minus_lem}
use chicken_core_mirror.Shift.{shift_left_by}
use chicken_core_mirror.Shift.Left.{shift_left_by_lem}
use chicken_core_mirror.Word.{fits_in_fixnum}
use chicken_core_mirror.Word.Length.{two_pow_add}
use chicken_core_mirror.Digits.{AreDigits}
use chicken_core_mirror.Times.{Multiply, karatsuba, karatsuba_halves, halves}
use native.Mathlib.Nat.{div-mul-le_self}
use chicken_core_mirror.Times.Halves.{upper_half, lower_half}

-- A correct multiplication.
abbrev pub IsMultiply : Multiply → Type 0
IsMultiply times =
    (x y : Integer) → IsInteger x → IsInteger y → Computes (times x y) (value x *ℤ value y)

cross_same : (p q r s d e : ℕ) → p ≡ q + d → r ≡ s + e → q * s + p * r ≡ p * s + q * r + d * e
cross_same p q r s d e hp hr = rw (hp, hr) (omega arith)

cross_mixed : (p q r s d e : ℕ) → p ≡ q + d → s ≡ r + e → q * s + p * r + d * e ≡ p * s + q * r
cross_mixed p q r s d e hp hs = rw (hp, hs) (omega arith)

same_sign : (a b m d : ℕ) → b + a ≡ m + d → pos b +ℤ (pos a -ℤ signed_magnitude false d) ≡ pos m
unfolding ◌+ℤ◌ ◌-ℤ◌
same_sign a b m d h = ground arith

mixed_sign : (a b m d : ℕ) → b + a + d ≡ m → pos b +ℤ (pos a -ℤ signed_magnitude true d) ≡ pos m
unfolding ◌+ℤ◌ ◌-ℤ◌
mixed_sign a b m d h = ground arith

difference_down :
    (p q : ℕ)
    → ltb p q ≡ true
    → (pos p -ℤ pos q ≡ signed_magnitude true (q - p)) × (q ≡ p + (q - p))
unfolding ◌-ℤ◌
difference_down p q h = (ground arith, ground arith)

difference_up :
    (p q : ℕ)
    → ltb p q ≡ false
    → (pos p -ℤ pos q ≡ signed_magnitude false (p - q)) × (p ≡ q + (p - q))
unfolding ◌-ℤ◌
difference_up p q h = (ground arith, ground arith)

product_pos : (a b : ℕ) → pos a *ℤ pos b ≡ pos (a * b)
product_pos a b = sym (signs_multiply false false a b)

-- The middle part: b + (a - c).
middle :
    (p q r s : ℕ)
    → pos (q * s) +ℤ (pos (p * r) -ℤ (pos p -ℤ pos q) *ℤ (pos r -ℤ pos s)) ≡ pos (p * s + q * r)
middle p q r s = elim (Bool-cases (ltb p q)) [
  | inl e ↦
      let (d, hd) = difference_down p q e in
      elim (Bool-cases (ltb r s)) [
        | inl e' ↦
            let (d', hd') = difference_down r s e' in
            let c = signs_multiply true true (q - p) (s - r) in
            rw (d, d', ← c)
              (same_sign (p * r) (q * s) (p * s + q * r) ((q - p) * (s - r))
                (omega (arith, cross_same q p s r (q - p) (s - r) hd hd')))
        | inr e' ↦
            let (d', hd') = difference_up r s e' in
            let c = signs_multiply true false (q - p) (r - s) in
            rw (d, d', ← c)
              (mixed_sign (p * r) (q * s) (p * s + q * r) ((q - p) * (r - s))
                (omega (arith, cross_mixed q p s r (q - p) (r - s) hd hd')))
      ]
  | inr e ↦
      let (d, hd) = difference_up p q e in
      elim (Bool-cases (ltb r s)) [
        | inl e' ↦
            let (d', hd') = difference_down r s e' in
            let c = signs_multiply false true (p - q) (s - r) in
            rw (d, d', ← c)
              (mixed_sign (p * r) (q * s) (p * s + q * r) ((p - q) * (s - r))
                (omega (arith, cross_mixed p q r s (p - q) (s - r) hd hd')))
        | inr e' ↦
            let (d', hd') = difference_up r s e' in
            let c = signs_multiply false false (p - q) (r - s) in
            rw (d, d', ← c)
              (same_sign (p * r) (q * s) (p * s + q * r) ((p - q) * (r - s))
                (omega (arith, cross_same p q r s (p - q) (r - s) hd hd')))
      ]
]

whole_product :
    (x y w : ℕ) (p q r s : ℕ)
    → x ≡ w * p + q
    → y ≡ w * r + s
    → p * r * (w * w) + ((p * s + q * r) * w + q * s) ≡ x * y
whole_product x y w p q r s hx hy = rw (hx, hy) (omega arith)

finish :
    (negp : Bool) (r : Integer) (m : ℕ)
    → IsInteger r
    → value r ≡ pos m
    → IsInteger (if negp then integer_negate r else r)
      × (value (if negp then integer_negate r else r) ≡ signed_magnitude negp m)
finish false r m ok e = (ok, e)
finish true r m ok e =
    let (ok', v) = integer_negate_lem r ok in (ok', v ∙ rw e (unfold ◌-ℤ◌ in ground arith))

sum_pos : (a b : ℕ) → pos a +ℤ pos b ≡ pos (a + b)
unfolding ◌+ℤ◌
sum_pos a b = ground arith

-- A step that computes an integer, and what is done with it.
step :
    (o : Option Integer) (z : ℤ) (f : Integer → Option Integer) (y : ℤ)
    → Computes o z
    → ((a : Integer) → IsInteger a × (value a ≡ z) → Computes (f a) y)
    → Computes (o >>= f) y
step o z f y =
    Yields-bind o f (λ (a : Integer). IsInteger a × (value a ≡ z))
      (λ (a : Integer). IsInteger a × (value a ≡ y))

-- A half, as a number.
abbrev Is : Integer → ℕ → Type 0
Is x n = IsInteger x × (value x ≡ pos n)

karatsuba_halves_lem :
    (times : Multiply) (bits : ℕ) (xhi xlo yhi ylo : Integer) (p q r s : ℕ) (negp : Bool)
    → IsMultiply times
    → Is xhi p
    → Is xlo q
    → Is yhi r
    → Is ylo s
    → Computes
        (karatsuba_halves times bits (xhi, xlo) (yhi, ylo) negp)
        (signed_magnitude negp ((2 ^ bits * p + q) * (2 ^ bits * r + s)))
unfolding karatsuba_halves
karatsuba_halves_lem times bits xhi xlo yhi ylo p q r s negp ok (hp, vp) (hq, vq) (hr, vr)
      (hs, vs) =
    step _ (value xhi *ℤ value yhi) _ _ (ok xhi yhi hp hr) λ a ha.
      step _ (value xlo *ℤ value ylo) _ _ (ok xlo ylo hq hs) λ b hb.
        step _ (value xhi -ℤ value xlo) _ _ (integer_minus_lem xhi xlo hp hq) λ xmid hx.
          step _ (value yhi -ℤ value ylo) _ _ (integer_minus_lem yhi ylo hr hs) λ ymid hy.
            step _ (value xmid *ℤ value ymid) _ _ (ok xmid ymid hx.0 hy.0) λ c hc.
              step _ (value a -ℤ value c) _ _ (integer_minus_lem a c ha.0 hc.0) λ c' hc'.
                step _ (value b +ℤ value c') _ _ (integer_plus_lem b c' hb.0 hc'.0) λ c'' hc''.
                  let top = shift_left_by_lem a (bits * 2) ha.0 in
                  let mid = shift_left_by_lem c'' bits hc''.0 in
                  step _ (value (shift_left_by c'' bits) +ℤ value b) _ _
                    (integer_plus_lem (shift_left_by c'' bits) b mid.0 hb.0)
                    λ bottom hd.
                      step _ (value (shift_left_by a (bits * 2)) +ℤ value bottom) _ _
                        (integer_plus_lem (shift_left_by a (bits * 2)) bottom top.0 hd.0)
                        λ e he.
                          let va : value a ≡ pos (p * r) = ha.1 ∙ rw (vp, vr) (product_pos p r) in
                          let vb : value b ≡ pos (q * s) = hb.1 ∙ rw (vq, vs) (product_pos q s) in
                          let vc : value c ≡ (pos p -ℤ pos q) *ℤ (pos r -ℤ pos s) =
                            hc.1 ∙ rw (hx.1, hy.1, vp, vq, vr, vs) in
                          let vm : value c'' ≡ pos (p * s + q * r) =
                            hc''.1 ∙ rw (hc'.1, va, vb, vc) (middle p q r s) in
                          let low : value bottom ≡ pos ((p * s + q * r) * 2 ^ bits + q * s) =
                            hd.1
                            ∙ rw (mid.1, vm, vb, product_pos (p * s + q * r) (2 ^ bits))
                                (sum_pos _ _) in
                          let twice : bits * 2 ≡ bits + bits = omega arith in
                          let high : value (shift_left_by a (bits * 2))
                              ≡ pos (p * r * (2 ^ bits * 2 ^ bits)) =
                            top.1
                            ∙ rw (va, twice, two_pow_add bits bits)
                                (product_pos (p * r) (2 ^ bits * 2 ^ bits)) in
                          let total : value e ≡ pos ((2 ^ bits * p + q) * (2 ^ bits * r + s)) =
                            he.1
                            ∙ rw (high, low)
                                (sum_pos _ _
                                  ∙ ap pos (whole_product _ _ (2 ^ bits) p q r s refl refl)) in
                          finish negp e _ he.0 total

-- An integer beyond the fixnums is a bignum.
large_positive :
    (x : Integer) (m : ℕ)
    → IsInteger x
    → value x ≡ pos m
    → 2 ^ 62 ≤ m
    → (ds : List ℕ) × (x ≡ big false ds) × AreDigits ds × (magnitude ds ≡ m)
large_positive (fix n) m (h, f) e l = absurd (unfold fits_in_fixnum in ground arith)
large_positive (big true ds) m (h, t, b) e l = absurd (ground arith)
large_positive (big false ds) m (h, t, b) e l = (ds, refl, h, ground arith)

parts : (m : Bool) (n : ℕ) → pos_part (signed_magnitude m n) + neg_part (signed_magnitude m n) ≡ n
parts true n = ground arith
parts false n = omega arith

magnitude_of_abs :
    (m : Bool) (ds : List ℕ)
    → IsInteger (big m ds)
    → (es : List ℕ) × (integer_abs (big m ds) ≡ big false es)
      × AreDigits es
      × (magnitude es ≡ magnitude ds)
magnitude_of_abs m ds h =
    let (ok, v) = integer_abs_lem (big m ds) h in
    large_positive (integer_abs (big m ds)) (magnitude ds) ok (v ∙ ap pos (parts m (magnitude ds)))
      (omega (arith, h.2))

halves_lem :
    (ds : List ℕ) (n : ℕ)
    → AreDigits ds
    → let s = halves (big false ds) n in
      Is s.0 (magnitude ds / 2 ^ (64 * n))
      × Is s.1 (magnitude ds - 2 ^ (64 * n) * (magnitude ds / 2 ^ (64 * n)))
unfolding halves
halves_lem ds n h = (upper_half ds n h, lower_half ds n h)

whole_of : (m w : ℕ) → w * (m / w) + (m - w * (m / w)) ≡ m
whole_of m w = omega (arith, div-mul-le_self m w)

-- With any correct multiplication for the parts, bignum_times_bignum_karatsuba on two bignums
-- gives the well-formed integer of the product of their magnitudes under the sign asked for.
pub karatsuba_lem :
    (times : Multiply) (m n negp : Bool) (xs ys : List ℕ)
    → IsMultiply times
    → IsInteger (big m xs)
    → IsInteger (big n ys)
    → Computes
        (karatsuba times (big m xs) (big n ys) negp)
        (signed_magnitude negp (magnitude xs * magnitude ys))
unfolding karatsuba
karatsuba_lem times m n negp xs ys ok hx hy =
    let (ds, ex, dx, mx) = magnitude_of_abs m xs hx in
    let (es, ey, dy, my) = magnitude_of_abs n ys hy in
    let k = length es / 2 in
    let (upper, lower) = halves_lem ds k dx in
    let (upper', lower') = halves_lem es k dy in
    let w = 2 ^ (64 * k) in
    let order : k * 64 ≡ 64 * k = omega arith in
    let whole : w * (magnitude ds / w) + (magnitude ds - w * (magnitude ds / w)) ≡ magnitude ds =
      whole_of (magnitude ds) w in
    let whole' : w * (magnitude es / w) + (magnitude es - w * (magnitude es / w)) ≡ magnitude es =
      whole_of (magnitude es) w in
    let hs = halves (big false ds) k in
    let hs' = halves (big false es) k in
    let product =
      karatsuba_halves_lem times (64 * k) hs.0 hs.1 hs'.0 hs'.1 _ _ _ _ negp ok upper lower upper'
        lower' in
    rw (ex, ey, order, ← mx, ← my, ← whole, ← whole') product
