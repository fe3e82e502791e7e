-- ===== src/NumberText/Reading.antt =====
-- str_to_bignum and C_s_a_i_digits_to_integer: the integer that they read.
use chicken_core_mirror.Prelude.{
  ℕ, zero, suc, ◌+◌, ◌*◌, ◌/◌, ◌^◌, ◌<◌, ◌≤◌, ◌≡◌, List, [], ◌∷◌, ◌++◌, true, some, length, ◌==◌,
  arith, refl, ap, ◌∙◌, inl, inr, Bool-cases, Yields, length-append,
}
use chicken_core_mirror.Word.{IsWord, IsHalf, fits_in_half_digit}
use chicken_core_mirror.Digits.{magnitude, AreDigits, scale_up}
use chicken_core_mirror.Digits.Scaling.{scale_up_lem}
use chicken_core_mirror.Shift.Ones.{power_suc}
use chicken_core_mirror.NumberText.{number, AreDigitsOf, read_chunk, write_carry, read_chunks}
use chicken_core_mirror.NumberText.Chunks.{half_fits, read_first}
use native.Mathlib.Nat.{mul-div_cancel, mul-le-mul_left, mul-le-mul_right}

magnitude-snoc :
    (ds : List ℕ) (c : ℕ) → magnitude (ds ++ c ∷ []) ≡ magnitude ds + 2 ^ (64 * length ds) * c
magnitude-snoc [] c = omega arith
magnitude-snoc (d ∷ ds) c =
    let scaled = ap (λ (t : ℕ). t * c) (power_suc (length ds)) in
    omega (arith, magnitude-snoc ds c, scaled)

AreDigits-snoc : (ds : List ℕ) (c : ℕ) → AreDigits ds → IsWord c → AreDigits (ds ++ c ∷ [])
AreDigits-snoc [] c h hc = (hc, tt)
AreDigits-snoc (d ∷ ds) c (hd, h) hc = (hd, AreDigits-snoc ds c h hc)

-- The digits up to `last_digit` stand for a number, and the last of them is not 0.
abbrev pub Reads : ℕ → List ℕ → Type 0
Reads n ds = (magnitude ds ≡ n) × AreDigits ds × (2 ^ (64 * length ds) ≤ 2 ^ 64 * magnitude ds + 1)

write_carry_lem :
    (ds : List ℕ) (c : ℕ)
    → AreDigits ds
    → IsWord c
    → 2 ^ (64 * length ds) ≤ 2 ^ 64 * magnitude (ds ++ c ∷ []) + 1
    → Reads (magnitude (ds ++ c ∷ [])) (write_carry (ds, c))
unfolding write_carry
write_carry_lem ds c h hc top = elim (Bool-cases (c == 0)) [
  | inl e ↦
      let nought : c ≡ 0 = ground arith in
      let same : magnitude ds ≡ magnitude (ds ++ c ∷ []) =
        omega (arith, magnitude-snoc ds c, ap (λ (t : ℕ). 2 ^ (64 * length ds) * t) nought) in
      rw e (same, h, omega (arith, top, same))
  | inr e ↦
      let p = 2 ^ (64 * length ds) in
      let some_bit : 0 < c = ground arith in
      let least : p * 1 ≤ p * c = mul-le-mul_left p some_bit in
      let longer : 2 ^ (64 * length (ds ++ c ∷ [])) ≡ 2 ^ 64 * p =
        ap (λ (t : ℕ). 2 ^ (64 * t)) (length-snoc ds c) ∙ power_suc (length ds) in
      rw e (refl, AreDigits-snoc ds c h hc, omega (arith, longer, least, magnitude-snoc ds c))
]
  where
    length-snoc : (xs : List ℕ) (x : ℕ) → length (xs ++ x ∷ []) ≡ suc (length xs)
    length-snoc xs x = omega (arith, length-append xs (x ∷ []))

-- The number is scaled up by the factor, and the saved digits are added.
scale_and_write :
    (ds : List ℕ) (n f big : ℕ)
    → Reads n ds
    → IsHalf f
    → big < f
    → Reads (f * n + big) (write_carry (scale_up ds f big))
scale_and_write ds n f big (e, h, top) hf hb =
    let (value, digits, carry, len) = scale_up_lem ds f big h hf (omega (arith, hf, hb)) in
    let s = scale_up ds f big in
    let grown : 1 * magnitude ds ≤ f * magnitude ds =
      mul-le-mul_right (magnitude ds) (omega arith) in
    let wide : 2 ^ (64 * length s.0) ≤ 2 ^ 64 * magnitude (s.0 ++ s.1 ∷ []) + 1 =
      rw len (omega (arith, value, top, grown)) in
    let (v, d, t) = write_carry_lem s.0 s.1 digits (omega (arith, carry)) wide in
    (v ∙ value ∙ ap (λ (t : ℕ). f * t + big) e, d, t)

module _ (radix : ℕ) (hr : IsHalf radix) (base : 1 < radix) where
  -- What the outer loop does after a round.
  after_round :
      (fuel n : ℕ) (rest ds : List ℕ)
      → Reads n ds
      → AreDigitsOf radix rest
      → length rest ≤ fuel
      → ((c : ℕ) (cs : List ℕ)
          → AreDigitsOf radix (c ∷ cs)
          → length (c ∷ cs) ≤ fuel
          → Yields (read_chunks fuel radix (c ∷ cs) ds) (Reads (number radix n (c ∷ cs))))
      → Yields
          (elim rest [ [] ↦ some ds | c ∷ cs ↦ read_chunks fuel radix (c ∷ cs) ds ])
          (Reads (number radix n rest))
  after_round fuel n [] ds r h len next = r
  after_round fuel n (c ∷ cs) ds r h len next = next c cs h len

  -- The outer loop ends with the digits of the number, for as much fuel as there are characters.
  pub read_chunks_lem :
      (fuel n c : ℕ) (cs ds : List ℕ)
      → Reads n ds
      → AreDigitsOf radix (c ∷ cs)
      → length (c ∷ cs) ≤ fuel
      → Yields (read_chunks fuel radix (c ∷ cs) ds) (Reads (number radix n (c ∷ cs)))
  unfolding read_chunks
  read_chunks_lem zero n c cs ds r h len = absurd (omega (arith, len))
  read_chunks_lem (suc fuel) n c cs ds r h len =
      let (factor, big, rest) = read_chunk radix (c ∷ cs) radix 0 in
      let (f, ef, half, small, chars, shorter, same) = read_first radix hr base n c cs h in
      let back : factor / radix ≡ f =
        ap (λ (t : ℕ). t / radix) (ef ∙ product_comm radix f) ∙ mul-div_cancel f (omega arith) in
      let ds' = write_carry (scale_up ds (factor / radix) big) in
      let round : Reads (f * n + big) ds' = rw back (scale_and_write ds n f big r half small) in
      let rest_read =
        after_round fuel (f * n + big) rest ds' round chars (omega (arith, shorter, len))
          (λ c' cs' h' len'. read_chunks_lem fuel (f * n + big) c' cs' ds' round h' len') in
      let carry_fits : fits_in_half_digit big ≡ true = half_fits big (omega (arith, small, half)) in
      let factor_fits : fits_in_half_digit (factor / radix) ≡ true = rw back (half_fits f half) in
      rw (carry_fits, factor_fits, ← same) rest_read
    where
      product_comm : (a b : ℕ) → a * b ≡ b * a
      product_comm a b = omega arith
