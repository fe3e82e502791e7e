-- ===== src/Bitwise/Lengths.antt =====
-- C_i_integer_length against the least number of bits.
use chicken_core_mirror.Prelude.{
  ℕ, zero, suc, ◌+◌, ◌-◌, ◌*◌, ◌^◌, ◌<◌, ◌≤◌, ◌≡◌, ◌≢◌, ◌==◌, List, [], ◌∷◌, Bool, true, false,
  ◌&&◌, length, arith, refl, ap, inl, inr, Bool-cases,
}
use chicken_core_mirror.Prelude.Int.{ℤ, pos, negsuc, signed_magnitude}
use chicken_core_mirror.Word.{IsWord, sign_bit, signed, not_word, ilen}
use chicken_core_mirror.Word.Length.{ilen_lem, ilen_bounds, two_pow_add}
use chicken_core_mirror.Digits.{magnitude, AreDigits, IsTrimmed}
use chicken_core_mirror.Bignum.{Integer, fix, big, IsInteger, value}
use chicken_core_mirror.Shift.Ones.{power_suc}
use chicken_core_mirror.Bitwise.{lower_zeros, last_digit, integer_length}
use native.Mathlib.Nat.{pow-suc, mul-le-mul_left}

-- The number whose bits, but for the signs above, are those of the integer or their complement.
abbrev pub bits_below : ℤ → ℕ
bits_below (pos n) = n
bits_below (negsuc n) = n

-- `r` bits are enough, and one less is not.
abbrev pub IsLength : ℕ → ℕ → Type 0
IsLength m r = (m < 2 ^ r) × (2 ^ r ≤ 2 * m + 1)

-- The digits below the last one, as a number.
parts_of_last :
    (d : ℕ) (ds : List ℕ)
    → AreDigits (d ∷ ds)
    → IsTrimmed (d ∷ ds)
    → let l = 2 ^ (64 * length ds) in
      (low : ℕ) × (magnitude (d ∷ ds) ≡ low + l * last_digit (d ∷ ds))
      × (low < l)
      × IsWord (last_digit (d ∷ ds))
      × (0 < last_digit (d ∷ ds))
      × (lower_zeros (d ∷ ds) ≡ (low == 0))
unfolding last_digit lower_zeros
parts_of_last d [] (hd, h) t = (0, omega arith, omega arith, hd, omega (arith, t), refl)
parts_of_last d (e ∷ ds) (hd, h) t =
    let (low, whole, small, word, positive, zeros) = parts_of_last e ds h t in
    let step = power_suc (length ds) in
    (
      d + 2 ^ 64 * low,
      rw step (omega (arith, whole)),
      rw step (omega (arith, small)),
      word,
      positive,
      rw zeros (ground arith),
    )

-- The bounds of a number by its last digit.
whole_bounds :
    (m l low d : ℕ)
    → m ≡ low + l * d
    → low < l
    → IsWord d
    → 0 < d
    → (m < l * 2 ^ ilen d) × (l * 2 ^ ilen d ≤ 2 * m)
whole_bounds m l low d e h w p =
    let (below, above) = ilen_bounds d w in
    let high : l * suc d ≤ l * 2 ^ ilen d = mul-le-mul_left l below in
    let least : l * 2 ^ ilen d ≤ l * (2 * d) = mul-le-mul_left l (above p) in
    (omega (arith, e, h, high), omega (arith, e, least))

half_of : (n : ℕ) → 0 < n → 2 ^ n ≡ 2 * 2 ^ (n - 1)
half_of zero h = absurd (omega arith)
half_of (suc n) h = let e : suc n - 1 ≡ n = omega arith in rw e (omega (arith, pow-suc 2 n))

positive_length : (d : ℕ) → IsWord d → 0 < d → 0 < ilen d
positive_length d w p = elim (Bool-cases (ilen d == 0)) [
  | inl e ↦
      let nought : ilen d ≡ 0 = ground arith in
      let one : 2 ^ ilen d ≡ 1 = rw nought refl in absurd (omega (arith, (ilen_bounds d w).0, one))
  | inr e ↦ ground arith
]

-- Where not only the top bit is set, negation takes no bit away.
more_than_top :
    (m l low d : ℕ)
    → m ≡ low + l * d
    → low < l
    → IsWord d
    → 0 < d
    → ((d == 2 ^ (ilen d - 1)) && (low == 0)) ≡ false
    → l * 2 ^ ilen d < 2 * m
more_than_top m l low d e h w p f =
    let (below, above) = ilen_bounds d w in
    let some_bit = positive_length d w p in
    let twice : 2 ^ ilen d ≡ 2 * 2 ^ (ilen d - 1) = half_of (ilen d) some_bit in
    elim (Bool-cases (low == 0)) [
      | inl z ↦
          let nought : low ≡ 0 = ground arith in
          let other : (d == 2 ^ (ilen d - 1)) ≡ false = ground arith in
          let apart : d ≢ 2 ^ (ilen d - 1) = ground arith in
          let more : 2 ^ (ilen d - 1) < d = omega (arith, above p, twice, apart) in
          let wide : l * suc (2 ^ (ilen d - 1)) ≤ l * d = mul-le-mul_left l more in
          let split : l * 2 ^ ilen d ≡ 2 * (l * 2 ^ (ilen d - 1)) = rw twice (omega arith) in
          omega (arith, e, wide, split, nought, h)
      | inr n ↦
          let some_low : 0 < low = ground arith in
          let least : l * 2 ^ ilen d ≤ l * (2 * d) = mul-le-mul_left l (above p) in
          omega (arith, e, least, some_low)
    ]

only_top :
    (m l low d : ℕ)
    → m ≡ low + l * d
    → IsWord d
    → 0 < d
    → ((d == 2 ^ (ilen d - 1)) && (low == 0)) ≡ true
    → (m ≡ l * 2 ^ (ilen d - 1)) × (0 < ilen d)
only_top m l low d e w p t =
    let top : d ≡ 2 ^ (ilen d - 1) = ground arith in
    let nought : low ≡ 0 = ground arith in
    let split : l * d ≡ l * 2 ^ (ilen d - 1) = ap (λ (n : ℕ). l * n) top in
    (omega (arith, e, nought, split), positive_length d w p)

negative-IsLength :
    (m : ℕ)
    → 0 < m
    → (r : ℕ) → m ≤ 2 ^ r
    → 2 ^ r < 2 * m
    → IsLength (bits_below (signed_magnitude true m)) r
negative-IsLength zero p r h l = absurd (omega arith)
negative-IsLength (suc m) p r h l =
    let minus : signed_magnitude true (suc m) ≡ negsuc m = ground arith in
    rw minus (omega (arith, h), omega (arith, l))

bignum-IsLength :
    (negp : Bool) (d : ℕ) (ds : List ℕ)
    → AreDigits (d ∷ ds)
    → IsTrimmed (d ∷ ds)
    → IsLength (bits_below (value (big negp (d ∷ ds)))) (integer_length (big negp (d ∷ ds)))
unfolding integer_length
bignum-IsLength false d ds h t =
    let (low, whole, small, word, positive, zeros) = parts_of_last d ds h t in
    let l = 2 ^ (64 * length ds) in
    let last = last_digit (d ∷ ds) in
    let (below, above) = whole_bounds (magnitude (d ∷ ds)) l low last whole small word positive in
    let power = two_pow_add (64 * length ds) (ilen last) in
    let places : (suc (length ds) - 1) * 64 + ilen last ≡ 64 * length ds + ilen last =
      omega arith in
    rw places (omega (arith, below, power), omega (arith, above, power))
bignum-IsLength true d ds h t =
    let (low, whole, small, word, positive, zeros) = parts_of_last d ds h t in
    let l = 2 ^ (64 * length ds) in
    let last = last_digit (d ∷ ds) in
    let m = magnitude (d ∷ ds) in
    let (below, above) = whole_bounds m l low last whole small word positive in
    let n = 64 * length ds + ilen last in
    let places : (suc (length ds) - 1) * 64 + ilen last ≡ n = omega arith in
    let power = two_pow_add (64 * length ds) (ilen last) in
    let some_bit : 0 < l * 2 ^ ilen last = omega (arith, below) in
    let some_number : 0 < m = omega (arith, above, some_bit) in
    rw (zeros, places)
      (elim (Bool-cases ((last == 2 ^ (ilen last - 1)) && (low == 0))) [
        | inl e ↦
            let (top, bits) = only_top m l low last whole word positive e in
            let less : n - 1 ≡ 64 * length ds + (ilen last - 1) = omega (arith, bits) in
            let power' = two_pow_add (64 * length ds) (ilen last - 1) in
            rw (e, less)
              (negative-IsLength m some_number (64 * length ds + (ilen last - 1))
                (omega (arith, top, power')) (omega (arith, top, power', some_number)))
        | inr e ↦
            let more = more_than_top m l low last whole small word positive e in
            rw e (
              negative-IsLength m some_number n (omega (arith, below, power))
                (omega (arith, more, power)))
      ])

-- C_i_integer_length on a well-formed integer is the least number of bits that holds the integer,
-- or its complement where it is negative.
pub integer_length_lem :
    (x : Integer) → IsInteger x → IsLength (bits_below (value x)) (integer_length x)
unfolding integer_length
integer_length_lem (fix n) (h, f) = elim (Bool-cases (sign_bit n)) [
  | inl e ↦
      let minus : signed n ≡ negsuc (2 ^ 64 - 1 - n) = ground arith in
      rw (e, minus) (ilen_lem (not_word n) (omega arith))
  | inr e ↦ let plus : signed n ≡ pos n = ground arith in rw (e, plus) (ilen_lem n h)
]
integer_length_lem (big negp []) (h, t, m) = absurd (omega (arith, m))
integer_length_lem (big negp (d ∷ ds)) (h, t, m) = bignum-IsLength negp d ds h t
