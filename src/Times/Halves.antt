-- ===== src/Times/Halves.antt =====
-- bignum_extract_digits: the two halves into which Karatsuba multiplication splits a number.
use chicken_core_mirror.Prelude.{
  ℕ, zero, suc, ◌+◌, ◌-◌, ◌*◌, ◌/◌, ◌^◌, ◌≤◌, ◌≡◌, List, [], ◌∷◌, none, some, true, false, ◌==◌,
  leb, length, take, drop, ◌||◌, arith, refl, inl, inr, Bool-cases,
}
use chicken_core_mirror.Prelude.Int.{pos}
use chicken_core_mirror.Word.{fits_in_fixnum}
use chicken_core_mirror.Digits.{magnitude, AreDigits}
use chicken_core_mirror.Bignum.{fix, big, IsInteger, value}
use chicken_core_mirror.Bignum.Simplify.{bignum_simplify_lem}
use chicken_core_mirror.Shift.Ones.{power_suc, take_all, magnitude-lt}
use chicken_core_mirror.Shift.Floor.{magnitude-drop}
use chicken_core_mirror.Times.{extract_digits}
use Prim.Native.Nat.{min}
use native.Mathlib.Nat.{div-eq_of_lt, pow-le-pow_right}

pub magnitude-take :
    (n : ℕ) (ds : List ℕ)
    → AreDigits ds
    → (magnitude (take n ds) + 2 ^ (64 * n) * magnitude (drop n ds) ≡ magnitude ds)
      × AreDigits (take n ds)
magnitude-take zero ds h = (omega arith, tt)
magnitude-take (suc n) [] h = (omega arith, tt)
magnitude-take (suc n) (d ∷ ds) (hd, h) =
    let (value, digits) = magnitude-take n ds h in
    (rw (power_suc n, ← value) (omega arith), (hd, digits))

leb→le : (a b : ℕ) → leb a b ≡ true → a ≤ b
leb→le a b h = ground arith

take-past : (n : ℕ) (ds : List ℕ) → take (min n (length ds)) ds ≡ take n ds
take-past zero ds = let low : min 0 (length ds) ≡ 0 = omega arith in rw low
take-past (suc n) [] = let low : min (suc n) 0 ≡ 0 = omega arith in rw low
take-past (suc n) (d ∷ ds) = elim (Bool-cases (leb n (length ds))) [
  | inl e ↦
      let low : min (suc n) (suc (length ds)) ≡ suc n = omega (arith, leb→le n (length ds) e) in
      rw low
  | inr e ↦
      let whole : length ds ≤ n = ground arith in
      let low : min (suc n) (suc (length ds)) ≡ suc (length ds) = omega (arith, whole) in
      rw (low, take_all n ds whole, take_all (length ds) ds (omega arith))
]

nought : IsInteger (fix 0) × (value (fix 0) ≡ pos 0)
nought = unfold fits_in_fixnum in ((omega arith, refl), refl)

pub upper_half :
    (ds : List ℕ) (n : ℕ)
    → AreDigits ds
    → IsInteger (extract_digits (big false ds) n none)
      × (value (extract_digits (big false ds) n none) ≡ pos (magnitude ds / 2 ^ (64 * n)))
unfolding extract_digits
upper_half ds n h =
    let (same, digits, len) = magnitude-drop n ds h in
    elim (Bool-cases (length ds - n == 0 || leb (length ds) n)) [
      | inl e ↦
          let wide : 2 ^ (64 * length ds) ≤ 2 ^ (64 * n) =
            pow-le-pow_right (omega arith) {j = 64 * n} (ground arith) in
          let nothing : magnitude ds / 2 ^ (64 * n) ≡ 0 =
            div-eq_of_lt (omega (arith, magnitude-lt ds h, wide)) in
          rw (e, nothing) nought
      | inr e ↦
          let whole = take_all (length ds - n) (drop n ds) (omega (arith, len)) in
          rw (e, whole, ← same) (bignum_simplify_lem false (drop n ds) digits)
    ]

pub lower_half :
    (ds : List ℕ) (n : ℕ)
    → AreDigits ds
    → IsInteger (extract_digits (big false ds) 0 (some n))
      × (value (extract_digits (big false ds) 0 (some n))
          ≡ pos (magnitude ds - 2 ^ (64 * n) * (magnitude ds / 2 ^ (64 * n))))
unfolding extract_digits
lower_half ds n h =
    let (top, high, len) = magnitude-drop n ds h in
    let (split, digits) = magnitude-take n ds h in
    let rest : magnitude (take n ds) ≡ magnitude ds - 2 ^ (64 * n) * (magnitude ds / 2 ^ (64 * n)) =
      rw (← top, ← split) (omega arith) in
    let end = min n (length ds) in
    elim (Bool-cases (end - 0 == 0 || leb (length ds) 0)) [
      | inl e ↦
          let empty : end ≡ 0 = ground arith in
          let nothing : magnitude (take n ds) ≡ 0 = rw (← take-past n ds, empty) in
          rw (e, ← rest, nothing) nought
      | inr e ↦
          let from_start : end - 0 ≡ end = omega arith in
          rw (e, from_start, take-past n ds, ← rest) (bignum_simplify_lem false (take n ds) digits)
    ]
