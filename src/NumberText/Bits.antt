-- ===== src/NumberText/Bits.antt =====
-- str_to_bignum for a power of two: the digits that the loop writes.
use chicken_core_mirror.Prelude.{
  ℕ, suc, ◌+◌, ◌-◌, ◌*◌, ◌/◌, ◌%◌, ◌^◌, ◌<◌, ◌≤◌, ◌≡◌, List, [], ◌∷◌, length, leb, ltb, true,
  Option, none, some, Yields, Yields-map, arith, ap, inl, inr, Bool-cases,
}
use chicken_core_mirror.Word.{IsWord}
use chicken_core_mirror.Word.Bits.{bit_or_comm}
use chicken_core_mirror.Word.Length.{two_pow_add}
use chicken_core_mirror.Digits.{magnitude, AreDigits, push}
use chicken_core_mirror.Digits.Shifts.{shift_left_round}
use chicken_core_mirror.NumberText.{hex_char_to_digit, number_reversed, AreDigitsOf, read_bits}
use Prim.Native.Nat.{bit_or}
use native.Mathlib.Nat.{div-lt_iff_lt-mul, mul-le-mul_right, one-le-pow, pow-le-pow_right}

-- The power of a smaller exponent is no larger.
pub power_mono : (a b : ℕ) → a ≤ b → 2 ^ a ≤ 2 ^ b
power_mono a b h = pow-le-pow_right {n = 2} (omega arith) h

-- A character is put above the bits that are there: the digit, and what does not fit it.
put_character :
    (n d big : ℕ)
    → n < 64
    → IsWord d
    → big < 2 ^ n
    → (bit_or big (d * 2 ^ n % 2 ^ 64) + 2 ^ 64 * (d / 2 ^ (64 - n)) ≡ d * 2 ^ n + big)
      × IsWord (bit_or big (d * 2 ^ n % 2 ^ 64))
put_character n d big small hd hb =
    rw (bit_or_comm big (d * 2 ^ n % 2 ^ 64))
      (shift_left_round n (64 - n) (omega arith) d big hd hb)

module _ (k n d big : ℕ) (narrow : k < 64) (small : n < 64) (hd : d < 2 ^ k)
    (hb : big < 2 ^ n) where
  abbrev filled : ℕ
  filled = bit_or big (d * 2 ^ n % 2 ^ 64)

  character-IsWord : IsWord d
  character-IsWord = omega (arith, hd, power_mono k 63 (omega arith))

  -- A digit is full: what is left of the character starts the next one.
  full_digit :
      64 ≤ n + k
      → (filled + 2 ^ 64 * (d / 2 ^ (k - (n + k - 64))) ≡ d * 2 ^ n + big)
        × IsWord filled
        × (d / 2 ^ (k - (n + k - 64)) < 2 ^ (n + k - 64))
  full_digit h =
      let left : k - (n + k - 64) ≡ 64 - n = omega arith in
      let (e, w) = put_character n d big small character-IsWord hb in
      let parts : 2 ^ (n + k - 64 + (64 - n)) ≡ 2 ^ (n + k - 64) * 2 ^ (64 - n) =
        two_pow_add (n + k - 64) (64 - n) in
      let width : n + k - 64 + (64 - n) ≡ k = omega arith in
      let whole : 2 ^ k ≡ 2 ^ (n + k - 64) * 2 ^ (64 - n) =
        omega (arith, parts, ap (λ (t : ℕ). 2 ^ t) width) in
      let below : d / 2 ^ (64 - n) < 2 ^ (n + k - 64) =
        (div-lt_iff_lt-mul (one-le-pow (64 - n) 2 (omega arith))).1 (omega (arith, hd, whole)) in
      rw left (e, w, below)

  -- The character fits the digit.
  more_bits : n + k < 64 → (filled ≡ d * 2 ^ n + big) × (filled < 2 ^ (n + k))
  more_bits h =
      let (e, w) = put_character n d big small character-IsWord hb in
      let pos : 0 < 2 ^ (64 - n) = one-le-pow (64 - n) 2 (omega arith) in
      let room : d < 2 ^ (64 - n) = omega (arith, hd, power_mono k (64 - n) (omega arith)) in
      let none_left : d / 2 ^ (64 - n) < 1 = (div-lt_iff_lt-mul pos).1 (omega (arith, room)) in
      let same : filled ≡ d * 2 ^ n + big = omega (arith, e, none_left) in
      let top : suc d * 2 ^ n ≤ 2 ^ k * 2 ^ n = mul-le-mul_right (2 ^ n) hd in
      (same, omega (arith, same, top, two_pow_add n k, hb))

-- The digits stand for the bits that are saved and the number above them, and there are as many as
-- the bits need.
abbrev pub ReadsBits : ℕ → List ℕ → ℕ → ℕ → List ℕ → Type 0
ReadsBits k cs big n ds =
    (magnitude ds ≡ big + 2 ^ n * number_reversed (2 ^ k) cs)
    × AreDigits ds
    × (n + length cs * k ≤ 64 * length ds)
    × (64 * length ds < n + length cs * k + 64)

Yields-push :
    (d : ℕ) (o : Option (List ℕ)) (P Q : List ℕ → Type 0)
    → Yields o P
    → ((ds : List ℕ) → P ds → Q (d ∷ ds))
    → Yields (push d o) Q
unfolding push
Yields-push d none P Q h f = h
Yields-push d (some ds) P Q h f = f ds h

pub read_bits_lem :
    (k : ℕ) (cs : List ℕ) (big n : ℕ)
    → k < 64
    → n < 64
    → big < 2 ^ n
    → AreDigitsOf (2 ^ k) cs
    → Yields (read_bits k cs big n) (ReadsBits k cs big n)
unfolding read_bits
read_bits_lem k [] big n narrow small hb h =
    let left : ltb n 64 ≡ true = ground arith in
    elim (Bool-cases (ltb 0 n)) [
      | inl e ↦
          rw (left, e)
            (
              omega arith,
              (omega (arith, hb, power_mono n 63 (omega arith)), tt),
              omega arith,
              ground arith,
            )
      | inr e ↦
          let nought : n ≡ 0 = ground arith in
          let none_left : big < 1 = omega (arith, hb, ap (λ (t : ℕ). 2 ^ t) nought) in
          rw (left, e) (omega arith, tt, omega arith, omega arith)
    ]
read_bits_lem k (c ∷ cs) big n narrow small hb (hc, h) =
    let d = hex_char_to_digit c in
    let r = number_reversed (2 ^ k) cs in
    elim (Bool-cases (leb 64 (n + k))) [
      | inl e ↦
          let over : 64 ≤ n + k = ground arith in
          let (value, word, left) = full_digit k n d big narrow small hc hb over in
          let above = d / 2 ^ (k - (n + k - 64)) in
          let later = read_bits_lem k cs above (n + k - 64) narrow (omega arith) left h in
          let parts : 2 ^ (64 + (n + k - 64)) ≡ 2 ^ 64 * 2 ^ (n + k - 64) =
            two_pow_add 64 (n + k - 64) in
          let width : 64 + (n + k - 64) ≡ n + k = omega arith in
          let both : 2 ^ n * 2 ^ k ≡ 2 ^ 64 * 2 ^ (n + k - 64) =
            omega (arith, two_pow_add n k, parts, ap (λ (t : ℕ). 2 ^ t) width) in
          let scaled = ap (λ (t : ℕ). t * r) both in
          rw e (
            Yields-push (bit_or big (d * 2 ^ n % 2 ^ 64)) (read_bits k cs above (n + k - 64))
              (ReadsBits k cs above (n + k - 64)) (ReadsBits k (c ∷ cs) big n) later
              λ ds (rest, digits, least, most). (
                omega (arith, value, rest, scaled),
                (word, digits),
                omega (arith, least),
                omega (arith, most),
              ))
      | inr e ↦
          let under : n + k < 64 = ground arith in
          let (value, room) = more_bits k n d big narrow small hc hb under in
          let filled = bit_or big (d * 2 ^ n % 2 ^ 64) in
          let later = read_bits_lem k cs filled (n + k) narrow under room h in
          let scaled = ap (λ (t : ℕ). t * r) (two_pow_add n k) in
          rw e (
            Yields-map (read_bits k cs filled (n + k)) (ReadsBits k cs filled (n + k))
              (ReadsBits k (c ∷ cs) big n) later
              λ ds (rest, digits, least, most). (
                omega (arith, value, rest, scaled),
                digits,
                omega (arith, least),
                omega (arith, most),
              ))
    ]
