-- ===== src/NumberText/Chunks.antt =====
-- str_to_bignum for a radix that is no power of two: as many characters as fit a half digit are
-- saved, and the number is scaled up for them.
use chicken_core_mirror.Prelude.{
  ℕ, suc, ◌+◌, ◌*◌, ◌^◌, ◌<◌, ◌≤◌, ◌≡◌, List, [], ◌∷◌, length, arith, refl, ap, ◌∙◌, inl, inr,
  Bool-cases, true,
}
use chicken_core_mirror.Word.{IsWord, IsHalf, mul_word, add_word, fits_in_half_digit}
use chicken_core_mirror.Digits.Scaling.{product_fits}
use chicken_core_mirror.NumberText.{hex_char_to_digit, number, AreDigitsOf, read_chunk}
use native.Mathlib.Nat.{mul-le-mul_left}

-- What the inner loop leaves: a factor `f` of the saved digits `big`, with the radix once more, and
-- the text that is left, which goes on from the number `m` scaled up.
abbrev pub Chunk : ℕ → ℕ → ℕ → ℕ → ℕ × ℕ × List ℕ → Type 0
Chunk radix n len m (factor, big, rest) =
    (f : ℕ) × (factor ≡ radix * f)
    × IsHalf f
    × (big < f)
    × AreDigitsOf radix rest
    × (length rest ≤ len)
    × (number radix (f * m + big) rest ≡ n)

pub half_fits : (n : ℕ) → IsHalf n → fits_in_half_digit n ≡ true
unfolding fits_in_half_digit
half_fits n h = ground arith

fits-IsHalf : (n : ℕ) → IsWord n → fits_in_half_digit n ≡ true → IsHalf n
unfolding fits_in_half_digit
fits-IsHalf n w h = ground arith

product-IsWord : (a b : ℕ) → IsHalf a → IsHalf b → a * b + 2 ^ 32 < 2 ^ 64
product-IsWord a b ha hb = omega (arith, product_fits a b ha hb)

module _ (radix : ℕ) (hr : IsHalf radix) (base : 1 < radix) (m : ℕ) where
  -- One character more is saved.
  read_character :
      (f big d : ℕ)
      → IsHalf f
      → big < f
      → d < radix
      → IsHalf (radix * f)
      → (mul_word (radix * f) radix ≡ radix * (radix * f))
        × (add_word (mul_word radix big) d ≡ radix * big + d)
        × (radix * big + d < radix * f)
        × (radix * f * m + (radix * big + d) ≡ radix * (f * m + big) + d)
  read_character f big d hf hb hd hw =
      let wide = product-IsWord (radix * f) radix hw hr in
      let room : radix * suc big ≤ radix * f = mul-le-mul_left radix hb in
      (omega (arith, wide), omega (arith, hw, room), omega (arith, room), omega arith)

  read_chunk_lem :
      (cs : List ℕ) (f big : ℕ)
      → IsHalf f
      → big < f
      → AreDigitsOf radix cs
      → Chunk radix
          (number radix (f * m + big) cs)
          (length cs)
          m
          (read_chunk radix cs (radix * f) big)
  unfolding read_chunk
  read_chunk_lem [] f big hf hb h = (f, refl, hf, hb, tt, omega arith, refl)
  read_chunk_lem (c ∷ cs) f big hf hb (hc, h) =
      let d = hex_char_to_digit c in
      elim (Bool-cases (fits_in_half_digit (radix * f))) [
        | inl e ↦
            let wide = product-IsWord radix f hr hf in
            let hw = fits-IsHalf (radix * f) (omega (arith, wide)) e in
            let (e₁, e₂, below, same) = read_character f big d hf hb hc hw in
            let (f', ef, half, small, chars, len, n) =
              read_chunk_lem cs (radix * f) (radix * big + d) hw below h in
            rw (e, e₁, e₂)
              (
                f',
                ef,
                half,
                small,
                chars,
                omega (arith, len),
                n ∙ ap (λ (t : ℕ). number radix t cs) same,
              )
        | inr e ↦ rw e (f, refl, hf, hb, (hc, h), omega arith, refl)
      ]

  -- The first round always reads a character.
  pub read_first :
      (c : ℕ) (cs : List ℕ)
      → AreDigitsOf radix (c ∷ cs)
      → Chunk radix (number radix m (c ∷ cs)) (length cs) m (read_chunk radix (c ∷ cs) radix 0)
  unfolding read_chunk
  read_first c cs (hc, h) =
      let d = hex_char_to_digit c in
      let one : radix * 1 ≡ radix = omega arith in
      let hw : IsHalf (radix * 1) = omega (arith, hr) in
      let (e₁, e₂, below, same) = read_character 1 0 d (omega arith) (omega arith) hc hw in
      let next = read_chunk_lem cs radix d hr (omega (arith, hc)) h in
      let square : mul_word radix radix ≡ radix * radix = omega (arith, e₁) in
      let saved : add_word (mul_word radix 0) d ≡ d = omega (arith, e₂) in
      rw (half_fits radix hr, square, saved) next
