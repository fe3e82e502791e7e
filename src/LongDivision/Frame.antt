-- ===== src/LongDivision/Frame.antt =====
-- What bignum_destructive_divide_full does around the normalized division: the shifts of both
-- numbers and the array of the quotient.
use chicken_core_mirror.Prelude.{
  ℕ, zero, suc, ◌+◌, ◌-◌, ◌*◌, ◌/◌, ◌^◌, ◌<◌, ◌≤◌, ◌≡◌, ◌⊎◌, List, [], ◌∷◌, ◌++◌, length,
  length-append, length-set, leb, true, refl, Yields, set, drop, All, All-append, arith, ap, sym,
  ◌∙◌, inl, inr,
}
use chicken_core_mirror.Word.{IsHalf}
use chicken_core_mirror.Digits.{magnitude, AreDigits, to_halves, shift_left}
use chicken_core_mirror.Digits.Shifts.{shift_left_lem}
use chicken_core_mirror.Digits.Products.{half_magnitude, to_halves_lem, from_halves_lem}
use chicken_core_mirror.LongDivision.{write_halves}
use chicken_core_mirror.LongDivision.Subtract.{half_power, half_magnitude-append, half_magnitude-lt}
use chicken_core_mirror.LongDivision.Rounds.{nothing_above}
use chicken_core_mirror.LongDivision.Normal.{Fills, half_magnitude-drop}
use chicken_core_mirror.LongDivision.Scale.{
  drop_cleared, half_power-double, half_power-add, digit_power,
}
use chicken_core_mirror.Shift.Floor.{quotient_of}
use native.Mathlib.Nat.{
  lt_of_mul-lt-mul_left, mul-le-mul_left, mul-le-mul_right, pow-le-pow_right, one-le-pow,
}

set-digits : (ds : List ℕ) (i : ℕ) → AreDigits ds → AreDigits (set ds i 0)
set-digits [] i h = h
set-digits (d ∷ ds) zero (hd, h) = (omega arith, h)
set-digits (d ∷ ds) (suc i) (hd, h) = (hd, set-digits ds i h)

length-to_halves : (ds : List ℕ) → length (to_halves ds) ≡ length ds + length ds
unfolding to_halves
length-to_halves [] = refl
length-to_halves (d ∷ ds) = omega (arith, length-to_halves ds)

-- The half digits of the quotient fit its array.
fits_array :
    (q quot : List ℕ)
    → (length q ≡ length quot + length quot) ⊎ (suc (length q) ≡ length quot + length quot)
    → length q ≤ length (to_halves (set quot (length quot - 1) 0))
fits_array q quot fills =
    let size = length-to_halves (set quot (length quot - 1) 0) in
    let same = length-set quot (length quot - 1) 0 in
    elim fills [ inl e ↦ omega (arith, size, same, e) | inr e ↦ omega (arith, size, same, e) ]

-- The quotient in its array.
pub write_halves_lem :
    (q quot : List ℕ)
    → All IsHalf q
    → 1 ≤ length quot
    → (length q ≡ length quot + length quot) ⊎ (suc (length q) ≡ length quot + length quot)
    → Yields
        (write_halves q (set quot (length quot - 1) 0))
        λ s. (magnitude s ≡ half_magnitude q) × AreDigits s × (length s ≡ length quot)
unfolding write_halves
write_halves_lem q quot h l fills =
    let (zeros, halves, len) = drop_cleared quot (length q) l fills in
    let rest = drop (length q) (to_halves (set quot (length quot - 1) 0)) in
    let (value, digits, size) =
      from_halves_lem (length quot) (q ++ rest) (length-append q rest ∙ len)
        (All-append IsHalf q rest h halves) in
    let whole : (length q ≤ length (to_halves (set quot (length quot - 1) 0))) =
      fits_array q quot fills in
    let fits : leb (length q) (length (to_halves (set quot (length quot - 1) 0))) ≡ true =
      ground (arith, whole) in
    rw fits (value ∙ half_magnitude-append q rest ∙ rw zeros (omega arith), digits, size)

-- The room for the first quotient digit.
pub small_at_first :
    (us : List ℕ) (r k x s n v : ℕ)
    → half_magnitude us ≡ x * 2 ^ s
    → x < half_power n
    → r + suc k ≡ n
    → s < 32
    → 2 ^ 31 * half_power (suc k) ≤ v
    → half_magnitude (drop r us) < v
small_at_first us r k x s n v value hx e hs low =
    let part = half_magnitude-drop r us in
    let some_bit : 0 < 2 ^ s = one-le-pow s 2 (omega arith) in
    let bits : 2 ^ s ≤ 2 ^ 31 = pow-le-pow_right (omega arith) {i = s} {j = 31} (omega arith) in
    let split : half_power r * half_power (suc k) ≡ half_power n =
      sym (half_power-add r (suc k)) ∙ rw e in
    let above : suc x * 2 ^ s ≤ half_power n * 2 ^ s = mul-le-mul_right (2 ^ s) hx in
    let split' : half_power n * 2 ^ s ≡ half_power r * (half_power (suc k) * 2 ^ s) =
      rw (← split) (omega arith) in
    let close : half_power r * half_magnitude (drop r us)
        < half_power r * (half_power (suc k) * 2 ^ s) =
      omega (arith, part, value, above, split', some_bit) in
    let place = lt_of_mul-lt-mul_left (half_power r) close in
    let room : half_power (suc k) * 2 ^ s ≤ half_power (suc k) * 2 ^ 31 =
      mul-le-mul_left (half_power (suc k)) bits in
    omega (arith, place, room, low)

-- The remainder shifted back, of a division in which both numbers were shifted.
pub shifted_back :
    (q m x s r out : ℕ)
    → 0 < s
    → q * (m * s) + (r * s + out) ≡ x * s
    → out < s
    → r * s + out < m * s
    → (q * m + r ≡ x) × (r < m)
shifted_back q m x s r out positive e ho hr =
    let one : x * s / s ≡ q * m + r = quotient_of (q * m + r) out s (x * s) (omega (arith, e)) ho in
    let other : x * s / s ≡ x = quotient_of x 0 s (x * s) (omega arith) positive in
    (sym one ∙ other, lt_of_mul-lt-mul_left s (omega (arith, hr)))

magnitude-append_digit :
    (u : List ℕ) (c : ℕ) → magnitude (u ++ c ∷ []) ≡ magnitude u + digit_power (length u) * c
magnitude-append_digit [] c = omega arith
magnitude-append_digit (d ∷ u) c = omega (arith, magnitude-append_digit u c)

-- A shift to the left that keeps within the array.
pub exact_shift :
    (ds : List ℕ) (s : ℕ)
    → AreDigits ds
    → s < 32
    → magnitude ds * 2 ^ s < half_power (length ds + length ds)
    → let t = shift_left ds s 0 in
      (magnitude t.0 ≡ magnitude ds * 2 ^ s) × AreDigits t.0 × (length t.0 ≡ length ds)
exact_shift ds s h hs room =
    let (value, digits, last, len) =
      shift_left_lem ds s 0 h (omega arith) (one-le-pow s 2 (omega arith)) in
    let t = shift_left ds s 0 in
    let split : magnitude t.0 + digit_power (length ds) * t.1 ≡ magnitude ds * 2 ^ s =
      omega (arith, value, magnitude-append_digit t.0 t.1, ap (λ n. digit_power n * t.1) len) in
    let (none_left, same) =
      nothing_above _ _ _ _ split (omega (arith, room, half_power-double (length ds))) in
    (same, digits, len)

pub room_above :
    (ds : List ℕ) (s : ℕ)
    → AreDigits ds
    → s < 32
    → magnitude ds * 2 ^ s < half_power (suc (length ds) + suc (length ds))
room_above ds s h hs =
    let (same, halves, len) = to_halves_lem ds h in
    let n = length ds + length ds in
    let below : magnitude ds < half_power n =
      rw (← same, ← len) (half_magnitude-lt (to_halves ds) halves) in
    let e : suc (length ds) + suc (length ds) ≡ suc (suc n) = omega arith in
    let bits : 2 ^ s ≤ 2 ^ 31 = pow-le-pow_right (omega arith) {i = s} {j = 31} (omega arith) in
    let wide : magnitude ds * 2 ^ s ≤ magnitude ds * 2 ^ 31 = mul-le-mul_left (magnitude ds) bits in
    rw e (omega (arith, wide, below))

pub room_within :
    (ds : List ℕ) (m k : ℕ)
    → Fills ds (suc (suc k))
    → m < half_power (suc (suc k))
    → m < half_power (length ds + length ds)
room_within ds m k (inl e) h = rw (← e) h
room_within ds m k (inr e) h = rw (← e) (omega (arith, h))
