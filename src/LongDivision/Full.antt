-- ===== src/LongDivision/Full.antt =====
-- bignum_destructive_divide_full against division with remainder.
use chicken_core_mirror.Prelude.{
  ℕ, suc, ◌+◌, ◌-◌, ◌*◌, ◌^◌, ◌<◌, ◌≤◌, ◌≡◌, ◌⊎◌, ◌==◌, List, [], ◌∷◌, ◌++◌, some, false, length,
  length-append, set, All-append, Yields, Yields-bind, Yields-map, arith, refl, ap, sym, ◌∙◌, inl,
  inr, Bool-cases, ==_iff, ◌>>=◌,
}
use chicken_core_mirror.Word.{IsWord}
use chicken_core_mirror.Digits.{
  magnitude, AreDigits, IsTrimmed, to_halves, from_halves, shift_left, shift_right,
}
use chicken_core_mirror.Digits.Arrays.{magnitude-append_zero}
use chicken_core_mirror.Digits.Shifts.{shift_right_lem}
use chicken_core_mirror.Digits.Products.{half_magnitude, to_halves_lem, from_halves_lem}
use chicken_core_mirror.LongDivision.{write_halves, divide_normalized, divide_full}
use chicken_core_mirror.LongDivision.Subtract.{half_power, half_magnitude-lt}
use chicken_core_mirror.LongDivision.Rounds.{AfterRows}
use chicken_core_mirror.LongDivision.Normal.{Fills, rounds, divide_normalized_lem}
use chicken_core_mirror.LongDivision.Frame.{
  write_halves_lem, small_at_first, shifted_back, exact_shift, room_above, room_within,
}
use chicken_core_mirror.LongDivision.Scale.{Normalizes, normalizing_shift_lem}
use native.Mathlib.Nat.{one-le-pow}

-- The digits of a quotient, in `l` places, and a remainder, in `k` places.
abbrev pub IsDivision : ℕ → ℕ → ℕ → ℕ → List ℕ × List ℕ → Type 0
IsDivision x m l k s =
    (magnitude s.0 * m + magnitude s.1 ≡ x)
    × (magnitude s.1 < m)
    × AreDigits s.0
    × AreDigits s.1
    × (length s.0 ≡ l)
    × (length s.1 ≡ k)

module _ (num den quot : List ℕ) (digits : AreDigits num) (digits' : AreDigits den)
    (shorter : length den ≤ length num) (size : length quot ≡ length num + 1 - length den) (s k : ℕ)
    (normal : Normalizes den s k) (int : suc (length num) < 2 ^ 30) where
  abbrev Divides : List ℕ × List ℕ → Type 0
  Divides = IsDivision (magnitude num) (magnitude den) (length quot) (suc (length num))

  abbrev DividesShifted : List ℕ × List ℕ → Type 0
  DividesShifted =
      IsDivision (magnitude num * 2 ^ s) (magnitude den * 2 ^ s) (length quot) (suc (length num))

  -- The rounds on the shifted numbers, and the places of the quotient that they fill.
  shifted_division :
      (u v : List ℕ)
      → AreDigits u
      → AreDigits v
      → length u ≡ suc (length num)
      → length v ≡ length den
      → magnitude u ≡ magnitude num * 2 ^ s
      → magnitude v ≡ magnitude den * 2 ^ s
      → Yields
          (divide_normalized u v)
          (AfterRows (magnitude u) (magnitude v) (length u + length u) (rounds u (suc (suc k))))
  shifted_division u v hu hv lu lv value value' =
      let (shift, few, fills, (low, high)) = normal in
      let places : suc (suc k) ≤ length den + length den = elim fills [
        | inl e ↦ omega arith
        | inr e ↦ omega arith
      ] in
      let (same, halves, len) = to_halves_lem u hu in
      let (same', _, len') = to_halves_lem num digits in
      let below : magnitude num < half_power (length num + length num) =
        rw (← same', ← len') (half_magnitude-lt (to_halves num) (to_halves_lem num digits).1) in
      let fills' : Fills v (suc (suc k)) = rw lv fills in
      let small =
        small_at_first (to_halves u) (rounds u (suc (suc k))) k (magnitude num) s
          (length num + length num) (magnitude v) (same ∙ value) below (omega arith) few
          (omega (arith, low, value')) in
      divide_normalized_lem u v k hu hv (rw value' (low, high)) fills' small (omega arith)
        (omega (arith, int)) (omega (arith, int))

  fills_quotient :
      (u : List ℕ)
      → length u ≡ suc (length num)
      → (rounds u (suc (suc k)) ≡ length quot + length quot)
        ⊎ (suc (rounds u (suc (suc k))) ≡ length quot + length quot)
  fills_quotient u lu = elim (normal.2) [ inl e ↦ inr (omega arith) | inr e ↦ inl (omega arith) ]

  -- From what the rounds leave to the two results.
  finish :
      (u v : List ℕ)
      → length u ≡ suc (length num)
      → magnitude u ≡ magnitude num * 2 ^ s
      → magnitude v ≡ magnitude den * 2 ^ s
      → (t : List ℕ × List ℕ)
      → AfterRows (magnitude u) (magnitude v) (length u + length u) (rounds u (suc (suc k))) t
      → Yields
          (write_halves t.1 (set quot (length quot - 1) 0))
          λ q. DividesShifted (q, from_halves t.0)
  finish u v lu value value' t ((total, low, halves, len), halves', len') =
      let fills = fills_quotient u lu in
      let filled : (length t.1 ≡ length quot + length quot)
          ⊎ (suc (length t.1) ≡ length quot + length quot) =
        rw len' fills in
      let (same', digits_r, len_r) = from_halves_lem (length u) t.0 len halves in
      Yields-map (write_halves t.1 (set quot (length quot - 1) 0))
        (λ q. (magnitude q ≡ half_magnitude t.1) × AreDigits q × (length q ≡ length quot))
        (λ q. DividesShifted (q, from_halves t.0))
        (write_halves_lem t.1 quot halves' (omega arith) filled)
        λ q (same, digits_q, len_q). (
          rw (same, same', ← value, ← value') total,
          omega (arith, low, same', value'),
          digits_q,
          digits_r,
          len_q,
          len_r ∙ lu,
        )

  longer : AreDigits (num ++ 0 ∷ []) × (length (num ++ 0 ∷ []) ≡ suc (length num))
  longer = (
    All-append IsWord num (0 ∷ []) digits (omega arith, tt),
    omega (arith, length-append num (0 ∷ [])),
  )

  -- The denominator needs no shift.
  unshifted :
      s ≡ 0
      → Yields
          (divide_normalized (num ++ 0 ∷ []) den >>= λ t.
            write_halves t.1 (set quot (length quot - 1) 0) >>= λ q. some (q, from_halves t.0))
          Divides
  unshifted e =
      let (digits_u, len) = longer in
      let u : List ℕ = num ++ 0 ∷ [] in
      let one : 2 ^ s ≡ 1 = rw e in
      let same : magnitude num * 2 ^ s ≡ magnitude num = rw one (omega arith) in
      let same' : magnitude den * 2 ^ s ≡ magnitude den = rw one (omega arith) in
      let value = magnitude-append_zero num ∙ sym same in
      let value' = sym same' in
      Yields-bind _ _
        (AfterRows (magnitude u) (magnitude den) (length u + length u) (rounds u (suc (suc k))))
        Divides (shifted_division u den digits_u digits' len refl value value')
        λ t after.
          Yields-bind (write_halves t.1 (set quot (length quot - 1) 0)) _
            (λ q. DividesShifted (q, from_halves t.0)) Divides
            (finish u den len value value' t after)
            λ q (total, low, digits_q, digits_r, len_q, len_r).
              (rw (same, same') at total, rw same' at low, digits_q, digits_r, len_q, len_r)

  -- Both numbers are shifted, and the remainder is shifted back.
  shifted :
      0 < s
      → Yields
          (divide_normalized (shift_left (num ++ 0 ∷ []) s 0).0 (shift_left den s 0).0 >>= λ t.
            write_halves t.1 (set quot (length quot - 1) 0) >>= λ q.
            some (q, (shift_right (from_halves t.0) s false).0))
          Divides
  shifted some_shift =
      let (digits_u, len) = longer in
      let few = normal.1 in
      let room_u = room_above num s digits few in
      let room_v = room_within den (magnitude den * 2 ^ s) k normal.2 normal.3.1 in
      let plain = magnitude-append_zero num in
      let (same_u, hu, lu) = exact_shift (num ++ 0 ∷ []) s digits_u few (rw (plain, len) room_u) in
      let (same_v, hv, lv) = exact_shift den s digits' few room_v in
      let u = (shift_left (num ++ 0 ∷ []) s 0).0 in
      let v = (shift_left den s 0).0 in
      let value : magnitude u ≡ magnitude num * 2 ^ s = same_u ∙ ap (λ (n : ℕ). n * 2 ^ s) plain in
      Yields-bind _ _
        (AfterRows (magnitude u) (magnitude v) (length u + length u) (rounds u (suc (suc k))))
        Divides (shifted_division u v hu hv (lu ∙ len) lv value same_v)
        λ t after.
          Yields-bind (write_halves t.1 (set quot (length quot - 1) 0)) _
            (λ q. DividesShifted (q, from_halves t.0)) Divides
            (finish u v (lu ∙ len) value same_v t after)
            λ q (total, low, digits_q, digits_r, len_q, len_r).
              let (back, digits_r', out, len_back) =
                shift_right_lem (from_halves t.0) s digits_r some_shift (omega arith) in
              let r = shift_right (from_halves t.0) s false in
              let (quotient, remainder) =
                shifted_back (magnitude q) (magnitude den) (magnitude num) (2 ^ s) (magnitude r.0)
                  r.1 (one-le-pow s 2 (omega arith)) (omega (arith, total, back)) out
                  (omega (arith, low, back)) in
              (quotient, remainder, digits_q, digits_r', len_q, len_back ∙ len_r)

  divide_shifted_lem : Yields (divide_full num den quot) Divides
  unfolding divide_full
  divide_shifted_lem = elim (Bool-cases (s == 0)) [
    | inl e ↦ rw (normal.0, e) (unshifted ((==_iff s 0).0 e))
    | inr e ↦ rw (normal.0, e) (shifted (ground arith))
  ]

-- bignum_destructive_divide_full, on a numerator of fewer than 2^30 - 1 digits and no fewer than
-- the denominator, a trimmed denominator that does not fit a half digit, and an array of as many
-- digits for the quotient as bignum_divide_unsigned allocates, ends without a read or write past
-- an array and without overflow of an int, whatever the array for the quotient held. It leaves
-- there, in as many digits, the quotient, and in the other array, of one digit more than the
-- numerator, the remainder: quotient times denominator plus remainder is the numerator, and the
-- remainder is below the denominator.
pub divide_full_lem :
    (num den quot : List ℕ)
    → AreDigits num
    → AreDigits den
    → IsTrimmed den
    → 2 ^ 32 ≤ magnitude den
    → length den ≤ length num
    → length quot ≡ length num + 1 - length den
    → length num + 1 < 2 ^ 30
    → Yields
        (divide_full num den quot)
        (IsDivision (magnitude num) (magnitude den) (length quot) (length num + 1))
divide_full_lem num den quot h h' t large l size int =
    let (s, k, normal) = normalizing_shift_lem den h' t large in
    let place : suc (length num) ≡ length num + 1 = omega arith in
    rw (← place) (divide_shifted_lem num den quot h h' l size s k normal (omega (arith, int)))
