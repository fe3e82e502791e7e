-- ===== src/Divide/Remainder.antt =====
-- integer_divrem with only the remainder asked for.
use chicken_core_mirror.Prelude.{
  ℕ, ◌+◌, ◌-◌, ◌*◌, ◌%◌, ◌^◌, ◌<◌, ◌≡◌, ◌≢◌, List, [], ◌∷◌, Bool, true, ◌==◌, arith, refl, sym, ap,
  ◌∙◌, inl, inr, Bool-cases, ==_iff,
}
use chicken_core_mirror.Word.{IsHalf, word_base, abs_word, ilen}
use chicken_core_mirror.Word.Length.{two_pow_add}
use chicken_core_mirror.Word.Bitwise.{bit_and-mask}
use chicken_core_mirror.Digits.{magnitude}
use chicken_core_mirror.Digits.Scaling.{remainder_halfdigit-mod}
use chicken_core_mirror.Bignum.{fix, big, IsInteger}
use chicken_core_mirror.Times.Schoolbook.{power_shift}
use chicken_core_mirror.Times.Integers.{abs_word_small, IsHalf-or_power}
use chicken_core_mirror.Divide.{is_small, divide_unsigned_small, remainder_small, lowest_digit}
use chicken_core_mirror.Divide.Small.{more_than_one, divide_digits_lem}
use Prim.Native.Nat.{bit_and}
use native.Mathlib.Nat.{add-mul-mod_self_left}

-- A power of two below the digit's divides the digits above.
lowest-mod : (ds : List ℕ) (k : ℕ) → k < 64 → lowest_digit ds % 2 ^ k ≡ magnitude ds % 2 ^ k
unfolding lowest_digit
lowest-mod [] k h = refl
lowest-mod (d ∷ ds) k h =
    let e : k + (64 - k) ≡ 64 = omega arith in
    let split : 2 ^ 64 ≡ 2 ^ k * 2 ^ (64 - k) =
      ap (λ (t : ℕ). 2 ^ t) (sym e) ∙ two_pow_add k (64 - k) in
    let multiple : d + 2 ^ 64 * magnitude ds ≡ d + 2 ^ k * (2 ^ (64 - k) * magnitude ds) =
      ap (λ (t : ℕ). d + t * magnitude ds) split ∙ omega arith in
    sym (
      ap (λ (t : ℕ). t % 2 ^ k) multiple
      ∙ add-mul-mod_self_left d (2 ^ k) (2 ^ (64 - k) * magnitude ds))

-- For a divisor that is not 0, 1 or -1 and whose magnitude fits a half digit or is a power of two,
-- integer_divrem gives the same remainder whether the quotient is asked for or not.
pub remainder_small-divide :
    (negx : Bool) (ds : List ℕ) (y : ℕ)
    → IsInteger (big negx ds)
    → IsInteger (fix y)
    → y ≢ 0
    → y ≢ 1
    → y ≢ word_base - 1
    → is_small (abs_word y) ≡ true
    → remainder_small negx ds y ≡ (divide_unsigned_small negx ds y).1
unfolding remainder_small divide_unsigned_small
remainder_small-divide negx ds y (h, t, l) (w, f) n n₁ n₂ small =
    let (word, positive, same) = abs_word_small y w (ground arith) in
    let k = ilen (abs_word y) - 1 in
    let (quotient, remainder, digits) =
      divide_digits_lem ds (abs_word y) h word (more_than_one y w n n₁ n₂) small in
    elim (Bool-cases (2 ^ k == abs_word y)) [
      | inl e ↦
          let power = (==_iff (2 ^ k) (abs_word y)).0 e in
          let rem : bit_and (lowest_digit ds) (2 ^ k - 1) ≡ magnitude ds % abs_word y =
            bit_and-mask k (lowest_digit ds)
            ∙ lowest-mod ds k (power_shift (abs_word y) word positive)
            ∙ ap (λ (t : ℕ). magnitude ds % t) power in
          rw (e, rem, remainder)
      | inr e ↦
          let half : IsHalf (abs_word y) =
            elim (IsHalf-or_power (abs_word y) (unfold is_small in small) word) [
              | inl s ↦ s
              | inr r ↦ absurd (ground arith)
            ] in
          rw (e, remainder_halfdigit-mod ds (abs_word y) h half positive, remainder)
    ]
