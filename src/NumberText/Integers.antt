-- ===== src/NumberText/Integers.antt =====
-- C_s_a_i_digits_to_integer: the integer of a text, whichever way its radix is read.
use chicken_core_mirror.Prelude.{
  ℕ, suc, ◌+◌, ◌-◌, ◌*◌, ◌/◌, ◌^◌, ◌<◌, ◌≤◌, ◌≡◌, List, [], ◌∷◌, ◌++◌, Bool, true, some, none,
  Option, ltb, ◌>>=◌, ==_iff, length, replicate, leb, ◌==◌, arith, refl, ap, sym, ◌∙◌, inl, inr,
  Bool-cases, Yields, Yields-bind, Yields-map, if◌then◌else◌, All-append,
}
use chicken_core_mirror.Prelude.Int.{signed_magnitude}
use chicken_core_mirror.Word.{IsWord, IsHalf, ilen}
use chicken_core_mirror.Word.Length.{ilen_lem, two_pow_add}
use chicken_core_mirror.Digits.{magnitude, AreDigits}
use chicken_core_mirror.Digits.Order.{length-reverse}
use chicken_core_mirror.Bignum.{Integer, Computes, bignum_simplify}
use chicken_core_mirror.Bignum.Simplify.{bignum_simplify_lem}
use chicken_core_mirror.Shift.Ones.{power_suc}
use chicken_core_mirror.Bitwise.Loops.{magnitude-append_zeros, zeros-AreDigits}
use chicken_core_mirror.NumberText.{
  hex_char_to_digit, number, number_reversed, AreDigitsOf, read_bits, read_chunks, clear_rest,
  str_to_bignum, bits_to_digits, digits_to_integer,
}
use chicken_core_mirror.NumberText.Bits.{power_mono, ReadsBits, read_bits_lem}
use chicken_core_mirror.NumberText.Chunks.{half_fits}
use chicken_core_mirror.NumberText.Reading.{Reads, read_chunks_lem}
use mathlib.Core.List.{reverse, reverse-append, append-nil, append_assoc}
use mathlib.Core.Path.{subst}
use native.Mathlib.Nat.{mul-le-mul}

-- Reading backwards gives the same number.
number-reverse :
    (radix : ℕ) (cs zs : List ℕ)
    → number radix (number_reversed radix zs) cs ≡ number_reversed radix (reverse cs ++ zs)
number-reverse radix [] zs = refl
number-reverse radix (c ∷ cs) zs =
    rw (reverse-append (c ∷ []) cs, append_assoc (reverse cs) (c ∷ []) zs)
      (ap (λ (t : ℕ). number radix t cs) (swap (radix * number_reversed radix zs) _)
        ∙ number-reverse radix cs (c ∷ zs))
  where
    swap : (a b : ℕ) → a + b ≡ b + a
    swap a b = omega arith

reverse-AreDigitsOf :
    (radix : ℕ) (cs : List ℕ) → AreDigitsOf radix cs → AreDigitsOf radix (reverse cs)
reverse-AreDigitsOf radix [] h = tt
reverse-AreDigitsOf radix (c ∷ cs) (hc, h) =
    rw (reverse-append (c ∷ []) cs)
      (All-append _ (reverse cs) (c ∷ []) (reverse-AreDigitsOf radix cs h) (hc, tt))

-- `l` bits for each character are enough for the number.
number_bound :
    (radix l : ℕ) (cs : List ℕ) (n e : ℕ)
    → radix ≤ 2 ^ l
    → AreDigitsOf radix cs
    → n < 2 ^ e
    → number radix n cs < 2 ^ (e + length cs * l)
number_bound radix l [] n e hl h hn = let same : e + 0 * l ≡ e = omega arith in rw same hn
number_bound radix l (c ∷ cs) n e hl (hc, h) hn =
    let d = hex_char_to_digit c in
    let top : suc n * radix ≤ 2 ^ e * 2 ^ l = mul-le-mul hn hl in
    let next : radix * n + d < 2 ^ (e + l) = omega (arith, top, two_pow_add e l) in
    let same : e + suc (length cs) * l ≡ e + l + length cs * l = omega arith in
    rw same (number_bound radix l cs (radix * n + d) (e + l) hl h next)

-- The bits of a digit of the radix.
digit_bits :
    (radix : ℕ)
    → 1 < radix
    → IsHalf radix
    → (radix ≤ 2 ^ ilen (radix - 1)) × (ilen (radix - 1) < 33)
digit_bits radix base hr =
    let (below, above) = ilen_lem (radix - 1) (omega (arith, hr)) in
    let l = ilen (radix - 1) in (omega (arith, below, base), ground (arith, power_mono 33 l))

-- For a power of two they are the shift.
power_bits :
    (radix k : ℕ) → 1 < radix → IsHalf radix → 2 ^ k ≡ radix → (ilen (radix - 1) ≡ k) × (k < 32)
power_bits radix k base hr e =
    let (below, above) = ilen_lem (radix - 1) (omega (arith, hr)) in
    let l = ilen (radix - 1) in
    let narrow : k < 32 = ground (arith, power_mono 32 k) in
    (
      ground (arith, power_mono (suc k) l, power_mono (suc l) k, two_pow_add 1 k, two_pow_add 1 l),
      narrow,
    )

-- The digits that are allocated, without overflow.
size_lem :
    (count radix : ℕ)
    → 1 < radix
    → IsHalf radix
    → count < 2 ^ 56
    → bits_to_digits count radix ≡ (count * ilen (radix - 1) + 63) / 64
unfolding bits_to_digits
size_lem count radix base hr hc =
    let (_, narrow) = digit_bits radix base hr in
    let l = ilen (radix - 1) in
    let room : count * l ≤ 2 ^ 56 * 33 =
      mul-le-mul {n₂ = 2 ^ 56} {m₂ = 33} (omega arith) (omega (arith, narrow)) in
    omega (arith, room)

clear_rest_lem :
    (size n : ℕ) (ds : List ℕ)
    → Reads n ds
    → n < 2 ^ (64 * size)
    → Yields (clear_rest size ds) (λ r. (magnitude r ≡ n) × AreDigits r)
unfolding clear_rest
clear_rest_lem size n ds (e, h, top) hn =
    let fits : length ds ≤ size =
      ground (arith, power_mono (64 * suc size) (64 * length ds), power_suc size) in
    let yes : leb (length ds) size ≡ true = ground arith in
    let k = size - length ds in
    rw yes
      (magnitude-append_zeros ds k ∙ e, All-append IsWord ds (replicate k 0) h (zeros-AreDigits k))

-- The digits that are written for a radix that is a power of two fill the bignum.
abbrev ReadsPower : ℕ → List ℕ → List ℕ → Type 0
ReadsPower k cs ds =
    (magnitude ds ≡ number (2 ^ k) 0 cs) × AreDigits ds × (length ds ≡ (length cs * k + 63) / 64)

read_power :
    (k : ℕ) (cs : List ℕ)
    → k < 32
    → AreDigitsOf (2 ^ k) cs
    → Yields (read_bits k (reverse cs) 0 0) (ReadsPower k cs)
read_power k cs narrow h =
    let count = ap (λ (t : ℕ). t * k) (length-reverse cs) in
    let backwards : number (2 ^ k) 0 cs ≡ number_reversed (2 ^ k) (reverse cs) =
      number-reverse (2 ^ k) cs [] ∙ ap (number_reversed (2 ^ k)) (append-nil (reverse cs)) in
    Yields-map (read_bits k (reverse cs) 0 0) (ReadsBits k (reverse cs) 0 0) (ReadsPower k cs)
      (read_bits_lem k (reverse cs) 0 0 (omega arith) (omega arith) (omega arith)
        (reverse-AreDigitsOf (2 ^ k) cs h))
      λ ds (value, digits, least, most).
        (omega (arith, value, backwards), digits, omega (arith, least, most, count))

-- str_to_bignum into as many digits as C_s_a_i_digits_to_integer allocates.
str_to_bignum_lem :
    (c : ℕ) (cs : List ℕ) (radix : ℕ) (negp : Bool)
    → 1 < radix
    → IsHalf radix
    → length (c ∷ cs) < 2 ^ 56
    → AreDigitsOf radix (c ∷ cs)
    → Computes
        (str_to_bignum (bits_to_digits (length (c ∷ cs)) radix) negp (c ∷ cs) radix)
        (signed_magnitude negp (number radix 0 (c ∷ cs)))
unfolding str_to_bignum
str_to_bignum_lem c cs radix negp base hr len h =
    let k = ilen radix - 1 in
    let str = c ∷ cs in
    let size : ℕ = bits_to_digits (length str) radix in
    let n : ℕ = number radix 0 str in
    let l = ilen (radix - 1) in
    let allocated : size ≡ (length str * l + 63) / 64 = size_lem (length str) radix base hr len in
    let simplify : (ds : List ℕ)
        → (magnitude ds ≡ n) × AreDigits ds
        → Computes (some (bignum_simplify negp ds)) (signed_magnitude negp n) =
      λ ds r.
        let (ok, v) = bignum_simplify_lem negp ds r.1 in (ok, v ∙ ap (signed_magnitude negp) r.0) in
    elim (Bool-cases (2 ^ k == radix)) [
      | inl e ↦
          let power : 2 ^ k ≡ radix = ground arith in
          let (bits, narrow) = power_bits radix k base hr power in
          let digits_read =
            read_power k str narrow (subst (λ (t : ℕ). AreDigitsOf t str) (sym power) h) in
          let check : List ℕ → Option (List ℕ) =
            λ ds. if length ds == size then some ds else none in
          rw e (
            Yields-bind (read_bits k (reverse str) 0 0 >>= check)
              (λ ds. some (bignum_simplify negp ds)) (λ ds. (magnitude ds ≡ n) × AreDigits ds) _
              (Yields-bind (read_bits k (reverse str) 0 0) check (ReadsPower k str) _ digits_read
                λ ds (value, digits, count).
                  let fills : length ds ≡ size =
                    count ∙ ap (λ (t : ℕ). (length str * t + 63) / 64) (sym bits) ∙ sym allocated in
                  let filled : (length ds == size) ≡ true = (==_iff (length ds) size).1 fills in
                  rw filled (value ∙ ap (λ (t : ℕ). number t 0 str) power, digits))
              simplify)
      | inr e ↦
          let (wide, _) = digit_bits radix base hr in
          let below = number_bound radix l str 0 0 wide h (omega arith) in
          let room = power_mono (0 + length str * l) (64 * size) (omega (arith, allocated)) in
          let read =
            read_chunks_lem radix hr base (length str) 0 c cs [] (refl, tt, omega arith) h
              (omega arith) in
          rw e (
            Yields-bind (read_chunks (length str) radix str [] >>= clear_rest size)
              (λ ds. some (bignum_simplify negp ds)) (λ ds. (magnitude ds ≡ n) × AreDigits ds) _
              (Yields-bind (read_chunks (length str) radix str []) (clear_rest size) (Reads n) _
                read (λ ds r. clear_rest_lem size n ds r (omega (arith, below, room))))
              simplify)
    ]

-- #f for an empty text, and otherwise the integer of the sign and the number.
abbrev pub TextResult : List ℕ → ℕ → Bool → Option (Option Integer) → Type 0
TextResult [] radix negp o = o ≡ some none
TextResult (c ∷ cs) radix negp o =
    Yields o λ i. Computes i (signed_magnitude negp (number radix 0 (c ∷ cs)))

-- C_s_a_i_digits_to_integer, on a text of digits of the radix that is not empty, for a radix above
-- 1 and below 2^31 and fewer than 2^56 characters, fails no assertion of its own or of the loops
-- that it calls, writes no digit past the bignum that it allocates, and gives the well-formed
-- integer of the sign and of the number that the text stands for, whether the radix is a power of
-- two or not. Of an empty text it gives #f.
pub digits_to_integer_lem :
    (cs : List ℕ) (radix : ℕ) (negp : Bool)
    → 1 < radix
    → radix < 2 ^ 31
    → length cs < 2 ^ 56
    → AreDigitsOf radix cs
    → TextResult cs radix negp (digits_to_integer cs radix negp)
unfolding digits_to_integer
digits_to_integer_lem [] radix negp base hr len h = refl
digits_to_integer_lem (c ∷ cs) radix negp base hr len h =
    let above : ltb 1 radix ≡ true = ground arith in
    let is_int : ltb radix (2 ^ 31) ≡ true = ground arith in
    let half : IsHalf radix = omega arith in
    rw (above, half_fits radix half, is_int)
      (Yields-bind (str_to_bignum (bits_to_digits (length (c ∷ cs)) radix) negp (c ∷ cs) radix)
        (λ r. some (some r)) _ _ (str_to_bignum_lem c cs radix negp base half len h) (λ r ok. ok))
