-- ===== src/NumberText/RoundTrip.antt =====
-- C_fixnum_to_string, and C_s_a_i_digits_to_integer on the text that it gives.
use chicken_core_mirror.Prelude.{
  ℕ, zero, suc, ◌-◌, ◌/◌, ◌%◌, ◌^◌, ◌≤◌, ◌≡◌, List, [], ◌∷◌, Option, none, some, Bool, true, false,
  ◌&&◌, if◌then◌else◌, length, leb, ◌==◌, arith, refl, ap, ◌∙◌, inl, inr, Bool-cases, Yields,
  Yields-bind,
}
use chicken_core_mirror.Prelude.Int.{signed_magnitude}
use chicken_core_mirror.Word.{IsWord, ilen, signed, sign_bit, neg_word, abs_word}
use chicken_core_mirror.Word.Bitwise.{bit_and-mask}
use chicken_core_mirror.Bignum.{fix, IsInteger, Computes, value}
use chicken_core_mirror.NumberText.{
  AreDigitsOf, number, write_digits, write_sign, to_n_nary, Text, text, bad_base, text_of,
  digits_to_integer, fixnum_to_string,
}
use chicken_core_mirror.NumberText.Integers.{digits_to_integer_lem}
use chicken_core_mirror.NumberText.Writing.{Starts, Writes, write_digits_lem}
use chicken_core_mirror.Times.Fixnum.{abs_word_parts}
use mathlib.Core.Path.{subst}
use Prim.Native.Nat.{bit_and}

-- The text of the number, with the sign before it.
abbrev IsText : ℕ → ℕ → Bool → List ℕ → Type 0
IsText n b negp cs =
    (ds : List ℕ) × (cs ≡ (if negp then 45 ∷ ds else ds))
    × (number b 0 ds ≡ n)
    × AreDigitsOf b ds
    × Starts n ds
    × (length ds ≤ 66)

write_sign_lem :
    (b n left : ℕ) (negp : Bool) (s : ℕ × List ℕ)
    → Writes b n 66 [] (suc left) s
    → Yields (write_sign negp s) (IsText n b negp)
unfolding write_sign
write_sign_lem b n left false (r, cs) (value, digits, start, count, enough) =
    (cs, refl, value, digits, start, omega (arith, count))
write_sign_lem b n left true (zero, cs) (value, digits, start, count, enough) = absurd (omega arith)
write_sign_lem b n left true (suc r, cs) (value, digits, start, count, enough) =
    (cs, refl, value, digits, start, omega (arith, count))

-- to_n_nary of a word stays in the buffer.
to_n_nary_lem :
    (n b : ℕ) (negp : Bool)
    → IsWord n
    → 2 ≤ b
    → b ≤ 16
    → Yields (to_n_nary n b negp false) (IsText n b negp)
unfolding to_n_nary
to_n_nary_lem n b negp hn low high =
    let k = ilen b - 1 in
    let signs : (s : ℕ × List ℕ)
        → Writes b n 66 [] 1 s
        → Yields (write_sign negp s) (IsText n b negp) =
      write_sign_lem b n 0 negp in
    elim (Bool-cases (2 ^ k - 1 == b - 1)) [
      | inl e ↦
          let power : 2 ^ k ≡ b = ground arith in
          let digit = λ (m : ℕ). bit_and m (2 ^ k - 1) in
          let next = λ (m : ℕ). m / 2 ^ k in
          rw e (
            Yields-bind (write_digits 66 digit next n []) (write_sign negp) (Writes b n 66 [] 1) _
              (write_digits_lem b low high digit next
                (λ m. bit_and-mask k m ∙ ap (λ (t : ℕ). m % t) power)
                (λ m. ap (λ (t : ℕ). m / t) power) 66 n 63 1 [] hn (omega arith) tt)
              signs)
      | inr e ↦
          let digit = λ (m : ℕ). m % b in
          let next = λ (m : ℕ). m / b in
          rw e (
            Yields-bind (write_digits 66 digit next n []) (write_sign negp) (Writes b n 66 [] 1) _
              (write_digits_lem b low high digit next (λ m. refl) (λ m. refl) 66 n 63 1 [] hn
                (omega arith) tt)
              signs)
    ]

-- For a bad radix the error, and otherwise a text of which C_s_a_i_digits_to_integer reads the
-- number back, after the sign.
abbrev pub Prints : Bool → ℕ → ℕ → Text → Type 0
Prints false num radix t = t ≡ bad_base
Prints true num radix t =
    (ds : List ℕ) × (t ≡ text (if sign_bit num then 45 ∷ ds else ds))
    × Starts (abs_word num) ds
    × (length ds ≤ 66)
    × Yields (digits_to_integer ds radix (sign_bit num)) λ o. Computes o (signed num)

-- What the text of a magnitude reads back to.
read_back :
    (n b : ℕ) (negp : Bool) (ds : List ℕ)
    → 2 ≤ b
    → b ≤ 16
    → number b 0 ds ≡ n
    → AreDigitsOf b ds
    → Starts n ds
    → length ds ≤ 66
    → Yields (digits_to_integer ds b negp) λ o. Computes o (signed_magnitude negp n)
read_back n b negp [] low high e h s len = absurd s
read_back n b negp (c ∷ cs) low high e h s len =
    rw (← e) (digits_to_integer_lem (c ∷ cs) b negp (omega arith) (omega arith) (omega arith) h)

-- The text of to_n_nary, as the result of C_fixnum_to_string.
text_of_lem :
    (num radix : ℕ)
    → IsInteger (fix num)
    → 2 ≤ radix
    → radix ≤ 16
    → (o : Option (List ℕ)) → Yields o (IsText (abs_word num) radix (sign_bit num))
    → Prints true num radix (text_of o)
unfolding text_of
text_of_lem num radix (w, f) low high none t = absurd t
text_of_lem num radix (w, f) low high (some cs) (ds, e, v, h, s, len) =
    let (_, same) = abs_word_parts num w f in
    (
      ds,
      ap text e,
      s,
      len,
      rw (← same) (read_back (abs_word num) radix (sign_bit num) ds low high v h s len),
    )

magnitude_of : (n : ℕ) → (if sign_bit n then neg_word n else n) ≡ abs_word n
unfolding abs_word
magnitude_of n = refl

-- C_fixnum_to_string of a fixnum and any radix is the error for a bad base when the radix is not
-- from 2 to 16. Otherwise to_n_nary stays within its buffer, the text is a minus sign for a
-- negative number and then at most 66 digits, only the text of 0 starts with the digit 0, and
-- C_s_a_i_digits_to_integer reads from the digits, the sign given, the fixnum that was printed.
pub fixnum_to_string-digits_to_integer :
    (num radix : ℕ)
    → IsInteger (fix num)
    → Prints (leb 2 radix && leb radix 16) num radix (fixnum_to_string num radix)
unfolding fixnum_to_string
fixnum_to_string-digits_to_integer num radix h = elim (Bool-cases (leb 2 radix && leb radix 16)) [
  | inl e ↦
      let low : 2 ≤ radix = ground arith in
      let high : radix ≤ 16 = ground arith in
      let (w, f) = h in
      let n = if sign_bit num then neg_word num else num in
      let same : n ≡ abs_word num = magnitude_of num in
      let small : IsWord n = rw same (omega (arith, (abs_word_parts num w f).0)) in
      let written = to_n_nary_lem n radix (sign_bit num) small low high in
      let written' : Yields (to_n_nary n radix (sign_bit num) false)
          (IsText (abs_word num) radix (sign_bit num)) =
        subst
          (λ (t : ℕ).
            Yields (to_n_nary n radix (sign_bit num) false) (IsText t radix (sign_bit num)))
          same written in
      rw e (text_of_lem num radix h low high _ written')
  | inr e ↦ rw e refl
]
