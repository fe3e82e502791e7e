-- ===== src/Divide/Small.antt =====
-- bignum_destructive_divide_unsigned_small against the division of integers.
use chicken_core_mirror.Prelude.{
  ℕ, zero, suc, ◌+◌, ◌-◌, ◌*◌, ◌/◌, ◌%◌, ◌^◌, ◌<◌, ◌≡◌, ◌≢◌, List, Bool, true, false, not, ◌==◌,
  if◌then◌else◌, arith, refl, sym, ap, ◌∙◌, inl, inr, Bool-cases, ==_iff,
}
use chicken_core_mirror.Prelude.Int.{signed_magnitude}
use chicken_core_mirror.Word.{
  IsWord, IsHalf, word_base, signed, sign_bit, fits_in_fixnum, abs_word, ilen,
}
use chicken_core_mirror.Digits.{magnitude, AreDigits}
use chicken_core_mirror.Digits.Scaling.{scale_down_lem}
use chicken_core_mirror.Digits.Shifts.{shift_right_lem}
use chicken_core_mirror.Bignum.{fix, big, IsInteger, value}
use chicken_core_mirror.Bignum.Simplify.{bignum_simplify_lem}
use chicken_core_mirror.Shift.Floor.{quotient_of}
use chicken_core_mirror.Times.Schoolbook.{power_shift}
use chicken_core_mirror.Times.Integers.{abs_word_small, IsHalf-or_power}
use native.Mathlib.Nat.{mul-add-mod_self_right, mod-eq_of_lt, mod-lt}
use chicken_core_mirror.Times.Fixnum.{abs_word_parts}
use chicken_core_mirror.Overflow.{truncate}
use chicken_core_mirror.Overflow.Products.{truncate_signs}
use chicken_core_mirror.Divide.{is_small, signed_remainder, divide_digits, divide_unsigned_small}

-- The remainder that goes with a quotient.
pub remainder_of : (q r p m : ℕ) → q * p + r ≡ m → r < p → m % p ≡ r
remainder_of q r p m e h = rw (← e, mul-add-mod_self_right q p r) (mod-eq_of_lt h)

shift_positive : (a k : ℕ) → 1 < a → 2 ^ k ≡ a → 0 < k
shift_positive a zero h e = absurd (omega arith)
shift_positive a (suc k) h e = omega arith

-- Of the fixnums only 0, 1 and -1 have a magnitude below 2.
pub more_than_one : (y : ℕ) → IsWord y → y ≢ 0 → y ≢ 1 → y ≢ word_base - 1 → 1 < abs_word y
unfolding abs_word
more_than_one y w n₀ n₁ n₂ = ground arith

pub divide_digits_lem :
    (ds : List ℕ) (absy : ℕ)
    → AreDigits ds
    → IsWord absy
    → 1 < absy
    → is_small absy ≡ true
    → let s = divide_digits ds absy in
      (magnitude s.0 ≡ magnitude ds / absy) × (s.1 ≡ magnitude ds % absy) × AreDigits s.0
unfolding divide_digits
divide_digits_lem ds absy h w p small = elim (Bool-cases (2 ^ (ilen absy - 1) == absy)) [
  | inl e ↦
      let power = (==_iff (2 ^ (ilen absy - 1)) absy).0 e in
      let (value, digits, below, len) =
        shift_right_lem ds (ilen absy - 1) h (shift_positive absy (ilen absy - 1) p power)
          (power_shift absy w (omega (arith, p))) in
      let p' = 2 ^ (ilen absy - 1) in
      rw e (
        sym (quotient_of _ _ p' (magnitude ds) value below)
            ∙ ap (λ (t : ℕ). magnitude ds / t) power,
        sym (remainder_of _ _ p' (magnitude ds) value below)
            ∙ ap (λ (t : ℕ). magnitude ds % t) power,
        digits,
      )
  | inr e ↦
      let half : IsHalf absy = elim (IsHalf-or_power absy (unfold is_small in small) w) [
        | inl l ↦ l
        | inr r ↦ absurd (ground arith)
      ] in
      let (value, digits, below, len) = scale_down_lem ds absy h half (omega (arith, p)) in
      rw e (
        sym (quotient_of _ _ absy (magnitude ds) value below),
        sym (remainder_of _ _ absy (magnitude ds) value below),
        digits,
      )
]

signed_remainder_lem :
    (negp : Bool) (rem : ℕ)
    → rem < 2 ^ 62
    → IsInteger (signed_remainder negp rem)
      × (value (signed_remainder negp rem) ≡ signed_magnitude negp rem)
unfolding signed_remainder fits_in_fixnum
signed_remainder_lem true rem h = ((ground arith, ground arith), ground arith)
signed_remainder_lem false rem h = ((ground arith, ground arith), ground arith)

flip_signs : (m n : Bool) → (if n then not m else m) ≡ (if m then not n else n)
flip_signs true true = refl
flip_signs true false = refl
flip_signs false true = refl
flip_signs false false = refl

-- bignum_destructive_divide_unsigned_small on a bignum and a fixnum that is not 0, 1 or -1 and
-- whose magnitude fits a half digit or is a power of two gives two well-formed integers: the
-- quotient rounded towards zero, and the remainder under the sign of the bignum.
pub divide_unsigned_small_lem :
    (negx : Bool) (ds : List ℕ) (y : ℕ)
    → IsInteger (big negx ds)
    → IsInteger (fix y)
    → y ≢ 0
    → y ≢ 1
    → y ≢ word_base - 1
    → is_small (abs_word y) ≡ true
    → let s = divide_unsigned_small negx ds y in
      IsInteger s.0
      × IsInteger s.1
      × (value s.0 ≡ truncate (value (big negx ds)) (signed y))
      × (value s.1 ≡ signed_magnitude negx (magnitude ds % abs_word y))
unfolding divide_unsigned_small
divide_unsigned_small_lem negx ds y (h, t, l) (w, f) n n₁ n₂ small =
    let (word, positive, same) = abs_word_small y w (ground arith) in
    let (range, same') = abs_word_parts y w f in
    let (quotient, remainder, digits) =
      divide_digits_lem ds (abs_word y) h word (more_than_one y w n n₁ n₂) small in
    let q = (divide_digits ds (abs_word y)).0 in
    let (ok, v) = bignum_simplify_lem (if sign_bit y then not negx else negx) q digits in
    let (ok', v') =
      signed_remainder_lem negx (divide_digits ds (abs_word y)).1
        (omega (arith, remainder, mod-lt (magnitude ds) positive, range)) in
    (
      ok,
      ok',
      v
          ∙ rw (quotient, flip_signs negx (sign_bit y), ← same)
              (sym (truncate_signs negx (sign_bit y) (magnitude ds) (abs_word y))),
      v' ∙ ap (λ (r : ℕ). signed_magnitude negx r) remainder,
    )
