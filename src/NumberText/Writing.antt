-- ===== src/NumberText/Writing.antt =====
-- to_n_nary and C_fixnum_to_string: the text of a number, and that it reads back.
use chicken_core_mirror.Prelude.{
  ℕ, zero, suc, ◌+◌, ◌*◌, ◌/◌, ◌%◌, ◌^◌, ◌<◌, ◌≤◌, ◌≡◌, ◌≢◌, ◌⊎◌, List, [], ◌∷◌, length, ◌==◌,
  arith, refl, ap, sym, ◌∙◌, inl, inr, Bool-cases, Yields, Yields-map,
}
use chicken_core_mirror.NumberText.{
  hex_char_to_digit, digit_char, number, AreDigitsOf, write_digits,
}
use mathlib.Core.Path.{subst}
use native.Mathlib.Nat.{div-add-mod', mod-lt, div-lt_iff_lt-mul, pow-suc, mul-le-mul_left}

-- A character of to_n_nary is the digit that hex_char_to_digit reads.
hex_char_to_digit-digit_char : (d : ℕ) → d < 16 → hex_char_to_digit (digit_char d) ≡ d
unfolding hex_char_to_digit digit_char
hex_char_to_digit-digit_char d h = ground arith

-- Only the text of 0 starts with a zero.
abbrev pub Starts : ℕ → List ℕ → Type 0
Starts n [] = ⊥
Starts n (c ∷ cs) = (n ≡ 0) ⊎ (hex_char_to_digit c ≢ 0)

-- The text that is written before `after`, with the room that is left.
abbrev pub Writes : ℕ → ℕ → ℕ → List ℕ → ℕ → ℕ × List ℕ → Type 0
Writes b n room after left (r, cs) =
    (number b 0 cs ≡ number b n after)
    × AreDigitsOf b cs
    × Starts n cs
    × (r + length cs ≡ room + length after)
    × (left ≤ r)

Starts-of : (n m : ℕ) (cs : List ℕ) → n ≢ 0 → Starts n cs → Starts m cs
Starts-of n m [] h s = s
Starts-of n m (c ∷ cs) h (inl e) = absurd (h e)
Starts-of n m (c ∷ cs) h (inr e) = inr e

predecessor : (k m : ℕ) → m ≢ 0 → m < 2 ^ k → (j : ℕ) × (k ≡ suc j)
predecessor zero m h l = absurd (omega arith)
predecessor (suc j) m h l = (j, refl)

first_digit : (n d e : ℕ) → e ≡ 0 → e + d ≡ n → (n ≡ 0) ⊎ (d ≢ 0)
first_digit n d e h s = elim (Bool-cases (n == 0)) [
  | inl z ↦ inl (ground arith)
  | inr z ↦ inr (ground arith)
]

module _ (b : ℕ) (low : 2 ≤ b) (high : b ≤ 16) (digit next : ℕ → ℕ)
    (digit_is : (n : ℕ) → digit n ≡ n % b) (next_is : (n : ℕ) → next n ≡ n / b) where
  -- A character and the number that is left after it.
  write_character :
      (n : ℕ)
      → (b * next n + hex_char_to_digit (digit_char (digit n)) ≡ n)
        × (hex_char_to_digit (digit_char (digit n)) < b)
  write_character n =
      let small : n % b < b = mod-lt n (omega arith) in
      let read = hex_char_to_digit-digit_char (n % b) (omega arith) in
      rw (digit_is n, next_is n, read) (omega (arith, div-add-mod' n b), small)

  halved : (n k : ℕ) → n < 2 ^ suc k → next n < 2 ^ k
  halved n k h =
      let p = 2 ^ k in
      let wide : p * 2 ≤ p * b = mul-le-mul_left p low in
      rw (next_is n)
        ((div-lt_iff_lt-mul {k = b} (omega arith)).1 (omega (arith, h, pow-suc 2 k, wide)))

  -- The text of the upper digits is that of the number.
  one_more :
      (n room left : ℕ) (after : List ℕ) (s : ℕ × List ℕ)
      → b * next n + hex_char_to_digit (digit_char (digit n)) ≡ n
      → next n ≢ 0
      → Writes b (next n) room (digit_char (digit n) ∷ after) left s
      → Writes b n (suc room) after left s
  one_more n room left after (r, cs) value more (read, digits, start, count, enough) = (
    read ∙ ap (λ (t : ℕ). number b t after) value,
    digits,
    Starts-of (next n) n cs more start,
    omega (arith, count),
    enough,
  )

  pub write_digits_lem :
      (room n k left : ℕ) (after : List ℕ)
      → n < 2 ^ suc k
      → suc k + left ≤ room
      → AreDigitsOf b after
      → Yields (write_digits room digit next n after) (Writes b n room after left)
  unfolding write_digits
  write_digits_lem zero n k left after hn fits h = absurd (omega arith)
  write_digits_lem (suc room) n k left after hn fits h =
      let c = digit_char (digit n) in
      let (value, small) = write_character n in
      elim (Bool-cases (next n == 0)) [
        | inl e ↦
            let nought : next n ≡ 0 = ground arith in
            let last : b * 0 + hex_char_to_digit c ≡ n =
              ap (λ (t : ℕ). b * t + hex_char_to_digit c) (sym nought) ∙ value in
            let start : (n ≡ 0) ⊎ (hex_char_to_digit c ≢ 0) =
              first_digit n (hex_char_to_digit c) (b * 0) (omega arith) last in
            rw e
              (ap (λ (t : ℕ). number b t after) last, (small, h), start, omega arith, omega arith)
        | inr e ↦
            let more : next n ≢ 0 = ground arith in
            let below : next n < 2 ^ k = halved n k hn in
            let (j, ek) = predecessor k (next n) more below in
            let below' : next n < 2 ^ suc j = subst (λ (t : ℕ). next n < 2 ^ t) ek below in
            let ih =
              write_digits_lem room (next n) j left (c ∷ after) below' (omega (arith, ek))
                (small, h) in
            rw e (
              Yields-map (write_digits room digit next (next n) (c ∷ after))
                (Writes b (next n) room (c ∷ after) left) (Writes b n (suc room) after left) ih
                (λ s w. one_more n room left after s value more w))
      ]
