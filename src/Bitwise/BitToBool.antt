-- ===== src/Bitwise/BitToBool.antt =====
-- C_i_bit_to_bool against the bits of the integer.
use chicken_core_mirror.Prelude.{
  ℕ, zero, suc, ◌+◌, ◌-◌, ◌*◌, ◌/◌, ◌%◌, ◌<◌, ◌≤◌, ◌≡◌, ◌==◌, List, [], ◌∷◌, ◌++◌, none, Bool, true,
  false, ◌&&◌, leb, ltb, length, get_elem?, take, replicate, if◌then◌else◌, arith, refl, ap, inl,
  inr, Bool-cases,
}
use chicken_core_mirror.Prelude.Int.{signed_magnitude}
use chicken_core_mirror.Word.{bit_at, sign_bit}
use chicken_core_mirror.Digits.{magnitude, AreDigits}
use chicken_core_mirror.Bignum.{Integer, fix, big, IsInteger, value}
use chicken_core_mirror.Digits.{negate_digits}
use chicken_core_mirror.Digits.Differences.{negate_digits_lem}
use chicken_core_mirror.Shift.{negated_for_bitwise_op}
use chicken_core_mirror.Times.Halves.{magnitude-take}
use mathlib.Core.List.{append-nil}
use chicken_core_mirror.Shift.Ones.{magnitude-lt}
use chicken_core_mirror.Bitwise.{
  bit, out_of_bounds, bit_to_bool, bit_at_index, read_bit, for_bitwise_op,
}
use chicken_core_mirror.Bitwise.Bits.{
  bit_of, bit_at-beyond, bit_of-beyond, magnitude_bit-low, magnitude_bit-high,
}
use chicken_core_mirror.Bitwise.Integers.{signed_bits}

-- A digit's bit is the number's.
digit_bit :
    (ds : List ℕ) (d i : ℕ)
    → AreDigits ds
    → i < 64
    → d < length ds
    → read_bit (get_elem? ds d) i ≡ bit (bit_at (magnitude ds) (64 * d + i) == 1)
unfolding read_bit
digit_bit [] d i h hi l = absurd (omega arith)
digit_bit (e ∷ ds) zero i (he, h) hi l =
    let place : 64 * 0 + i ≡ i = omega arith in rw (place, magnitude_bit-low e i ds hi) refl
digit_bit (e ∷ ds) (suc d) i (he, h) hi l =
    let place : 64 * suc d + i ≡ 64 + (64 * d + i) = omega arith in
    rw (place, magnitude_bit-high e (64 * d + i) ds he) (digit_bit ds d i h hi (omega arith))

beyond_array : (xs : List ℕ) (n : ℕ) → length xs ≤ n → get_elem? xs n ≡ none
beyond_array [] n h = refl
beyond_array (x ∷ xs) zero h = absurd (omega arith)
beyond_array (x ∷ xs) (suc n) h = beyond_array xs n (omega arith)

length-take : (n : ℕ) (xs : List ℕ) → n ≤ length xs → length (take n xs) ≡ n
length-take zero xs h = refl
length-take (suc n) [] h = absurd (omega arith)
length-take (suc n) (x ∷ xs) h = ap suc (length-take n xs (omega arith))

-- The negated copy of a bignum ends where the digit that is asked for begins.
negated_too_short :
    (ds : List ℕ) (d i : ℕ)
    → AreDigits ds
    → d < length ds
    → read_bit (get_elem? (for_bitwise_op (true, ds) d) d) i ≡ out_of_bounds
unfolding for_bitwise_op negated_for_bitwise_op read_bit
negated_too_short ds d i h l =
    let (_, digits) = magnitude-take d ds h in
    let none_more : d - length ds ≡ 0 = omega arith in
    let all : take d ds ++ replicate (d - length ds) 0 ≡ take d ds =
      rw none_more (append-nil (take d ds)) in
    let (_, _, len) = negate_digits_lem (take d ds) digits in
    let short : get_elem? (negate_digits (take d ds)) d ≡ none =
      beyond_array (negate_digits (take d ds)) d
        (omega (arith, len, length-take d ds (omega arith))) in
    rw (all, short) refl

-- A negative bignum with the digit.
abbrev pub reads_copy : Integer → ℕ → Bool
reads_copy (fix n) i = false
reads_copy (big negp ds) i = negp && ltb (i / 64) (length ds)

-- Above the digits.
sign_bits :
    (negp : Bool) (ds : List ℕ) (i : ℕ)
    → AreDigits ds
    → 0 < magnitude ds
    → length ds ≤ i / 64
    → negp ≡ (bit_of (signed_magnitude negp (magnitude ds)) i == 1)
sign_bits false ds i h p l =
    rw (bit_at-beyond (64 * length ds) i (magnitude ds) (magnitude-lt ds h) (omega arith)) refl
sign_bits true ds i h p l =
    rw
      (bit_of-beyond (64 * length ds) i (magnitude ds) p (omega (arith, magnitude-lt ds h))
        (omega arith))
      refl

bignum_bit :
    (negp : Bool) (ds : List ℕ) (i : ℕ)
    → AreDigits ds
    → 0 < magnitude ds
    → bit_at_index (big negp ds) i ≡ (
        if negp && ltb (i / 64) (length ds)
        then out_of_bounds
        else bit (bit_of (signed_magnitude negp (magnitude ds)) i == 1))
unfolding bit_at_index
bignum_bit negp ds i h p = elim (Bool-cases (leb (length ds) (i / 64))) [
  | inl e ↦
      let none_there : (negp && ltb (i / 64) (length ds)) ≡ false = never negp (ground arith) in
      rw (e, none_there) (ap bit (sign_bits negp ds i h p (ground arith)))
  | inr e ↦
      let there : ltb (i / 64) (length ds) ≡ true = ground arith in
      rw (e, there) (digit negp (ground arith))
]
  where
    never : (b : Bool) → ltb (i / 64) (length ds) ≡ false → (b && ltb (i / 64) (length ds)) ≡ false
    never b f = rw f (ground arith)

    digit :
        (b : Bool)
        → i / 64 < length ds
        → read_bit (get_elem? (for_bitwise_op (b, ds) (i / 64)) (i / 64)) (i % 64) ≡ (
            if b && true
            then out_of_bounds
            else bit (bit_of (signed_magnitude b (magnitude ds)) i == 1))
    digit true l = negated_too_short ds (i / 64) (i % 64) h l
    digit false l =
        let place : 64 * (i / 64) + i % 64 ≡ i = omega arith in
        rw place at (digit_bit ds (i / 64) (i % 64) h (omega arith) l)

-- C_i_bit_to_bool on a well-formed integer and a fixnum index that is not negative answers that
-- bit of the integer, except on a negative bignum that has the digit of that bit, where it reads
-- past the end of the negated copy.
pub bit_to_bool_lem :
    (n : Integer) (i : ℕ)
    → IsInteger n
    → sign_bit i ≡ false
    → bit_to_bool n (fix i)
      ≡ (if reads_copy n i then out_of_bounds else bit (bit_of (value n) i == 1))
unfolding bit_to_bool bit_at_index for_bitwise_op
bit_to_bool_lem (fix n) i (h, f) hi =
    rw (hi, signed_bits n i h)
      (elim (Bool-cases (leb 64 i)) [
        | inl e ↦ let other : ltb i 64 ≡ false = ground arith in rw (e, other) refl
        | inr e ↦ let other : ltb i 64 ≡ true = ground arith in rw (e, other) refl
      ])
bit_to_bool_lem (big negp ds) i (h, t, m) hi = rw hi (bignum_bit negp ds i h (omega (arith, m)))
