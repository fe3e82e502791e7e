-- ===== src/LongDivision/Normal.antt =====
-- bignum_destructive_divide_normalized on a divisor whose first significant half digit has its top
-- bit set.
use chicken_core_mirror.Prelude.{
  ℕ, zero, suc, ◌+◌, ◌-◌, ◌*◌, ◌^◌, ◌<◌, ◌≤◌, ◌≡◌, ◌⊎◌, ◌==◌, List, [], ◌∷◌, ◌++◌, some, true,
  false, ltb, length, length-append, get_elem?, take, drop, if◌then◌else◌, All, Yields, arith, refl,
  ap, sym, ◌∙◌, inl, inr,
}
use chicken_core_mirror.Word.{IsHalf}
use chicken_core_mirror.Digits.{magnitude, AreDigits, to_halves}
use chicken_core_mirror.Digits.Products.{half_magnitude, to_halves_lem}
use chicken_core_mirror.LongDivision.{plain_int, divide_normalized}
use chicken_core_mirror.LongDivision.Subtract.{half_power, half_magnitude-append, half_magnitude-lt}
use chicken_core_mirror.LongDivision.Rounds.{
  nothing_above, get_elem?-past, AfterRows, divide_rows_lem,
}
use mathlib.Core.List.{append_assoc}
use native.Mathlib.Nat.{lt_of_mul-lt-mul_left, mul-le-mul_left}

-- `k + 2` half digits hold the number, and the top bit of the last one is set.
abbrev pub IsNormalized : ℕ → ℕ → Type 0
IsNormalized m k = (2 ^ 31 * half_power (suc k) ≤ m) × (m < half_power (suc (suc k)))

-- The half digits of the divisor that the loops use.
pub record Parts (v : List ℕ) (n : ℕ) : Type 0 where
  vs : List ℕ
  v2 : ℕ
  v1 : ℕ
  whole : take n (to_halves v) ≡ vs ++ v2 ∷ v1 ∷ []
  first : get_elem? (to_halves v) (n - 1) ≡ some v1
  second : get_elem? (to_halves v) (n - 2) ≡ some v2
  halves : All IsHalf vs
  half2 : IsHalf v2
  half1 : IsHalf v1
  normal : 2 ^ 31 ≤ v1
  same : half_magnitude (vs ++ v2 ∷ v1 ∷ []) ≡ magnitude v
  size : length vs + 2 ≡ n

take-append : (p z : List ℕ) → take (length p) (p ++ z) ≡ p
take-append [] z = refl
take-append (d ∷ p) z = ap (λ (t : List ℕ). d ∷ t) (take-append p z)

-- The last half digit of a number that nearly fills its places.
first_digit : (p t w m : ℕ) → p < w → p + w * t ≡ m → 2 ^ 31 * w ≤ m → 2 ^ 31 ≤ t
first_digit p t w m hp e l =
    let same : w * suc t ≡ w * t + w = omega arith in
    let over : w * 2 ^ 31 < w * suc t = omega (arith, same) in
    let s = lt_of_mul-lt-mul_left w over in omega arith

split_two :
    (k : ℕ) (hs : List ℕ)
    → All IsHalf hs
    → suc (suc k) ≤ length hs
    → (r : List ℕ) × (s : ℕ) × (t : ℕ) × (z : List ℕ) × (hs ≡ r ++ s ∷ t ∷ z)
      × All IsHalf r
      × IsHalf s
      × IsHalf t
      × (length r ≡ k)
split_two k [] h l = absurd (omega arith)
split_two k (a ∷ []) h l = absurd (omega arith)
split_two zero (a ∷ b ∷ hs) (ha, (hb, h)) l = ([], a, b, hs, refl, tt, ha, hb, refl)
split_two (suc k) (a ∷ b ∷ hs) (ha, h) l =
    let (r, s, t, z, e, hr, hs', ht, len) = split_two k (b ∷ hs) h (omega arith) in
    (a ∷ r, s, t, z, ap (λ (q : List ℕ). a ∷ q) e, (ha, hr), hs', ht, ap suc len)

Parts-of :
    (v r z : List ℕ) (s t k : ℕ)
    → AreDigits v
    → to_halves v ≡ r ++ s ∷ t ∷ z
    → All IsHalf r
    → IsHalf s
    → IsHalf t
    → length r ≡ k
    → IsNormalized (magnitude v) k
    → Parts v (suc (suc k))
Parts-of v r z s t k h e hr hs ht len (low, high) =
    let (value, halves, _) = to_halves_lem v h in
    let p : List ℕ = r ++ s ∷ t ∷ [] in
    let lp : length p ≡ suc (suc k) = omega (arith, length-append r (s ∷ t ∷ [])) in
    let all : to_halves v ≡ p ++ z = e ∙ sym (append_assoc r (s ∷ t ∷ []) z) in
    let total : half_magnitude p + half_power (suc (suc k)) * half_magnitude z ≡ magnitude v =
      ap (λ n. half_magnitude p + half_power n * half_magnitude z) (sym lp)
      ∙ sym (half_magnitude-append p z)
      ∙ ap half_magnitude (sym all)
      ∙ value in
    let (zeros, same) = nothing_above _ _ _ _ total high in
    let below : half_magnitude r + half_power k * s < half_power (suc k) =
      let b : half_magnitude r < half_power k = rw (← len) (half_magnitude-lt r hr) in
      let w : half_power k * suc s ≤ half_power k * 2 ^ 32 = mul-le-mul_left (half_power k) hs in
      omega (arith, b, w) in
    let split : half_magnitude r + half_power k * s + half_power (suc k) * t ≡ magnitude v =
      let b = half_magnitude-append r (s ∷ t ∷ []) in
      let b' =
        b ∙ ap (λ n. half_magnitude r + half_power n * (s + 2 ^ 32 * (t + 2 ^ 32 * 0))) len in
      omega (arith, b', same) in
    let read1 : get_elem? (to_halves v) (1 + k) ≡ some t =
      rw (e, ← len) (get_elem?-past r (s ∷ t ∷ z) 1) in
    let read2 : get_elem? (to_halves v) (0 + k) ≡ some s =
      rw (e, ← len) (get_elem?-past r (s ∷ t ∷ z) 0) in
    record {
      vs = r;
      v2 = s;
      v1 = t;
      whole = rw (all, ← lp) (take-append p z);
      first = let e1 : suc (suc k) - 1 ≡ 1 + k = omega arith in rw e1 read1;
      second = let e2 : suc (suc k) - 2 ≡ 0 + k = omega arith in rw e2 read2;
      halves = hr;
      half2 = hs;
      half1 = ht;
      normal =
          first_digit (half_magnitude r + half_power k * s) t (half_power (suc k)) (magnitude v)
            below split low;
      same = same;
      size = omega arith;
    }

parts_lem :
    (v : List ℕ) (k : ℕ)
    → AreDigits v
    → suc (suc k) ≤ length v + length v
    → IsNormalized (magnitude v) k
    → Parts v (suc (suc k))
parts_lem v k h l normal =
    let (value, halves, len) = to_halves_lem v h in
    let (r, s, t, z, e, hr, hs, ht, lr) = split_two k (to_halves v) halves (omega (arith, len)) in
    Parts-of v r z s t k h e hr hs ht lr normal

-- The half digits of the divisor but for a zero on top.
abbrev pub Fills : List ℕ → ℕ → Type 0
Fills v n = (n ≡ length v + length v) ⊎ (suc n ≡ length v + length v)

zero_on_top :
    (hs : List ℕ) (n : ℕ)
    → half_magnitude hs < half_power n
    → suc n ≡ length hs
    → get_elem? hs n ≡ some 0
zero_on_top [] n h l = absurd (omega arith)
zero_on_top (a ∷ []) zero h l = let nought : a ≡ 0 = omega arith in ap some nought
zero_on_top (a ∷ []) (suc n) h l = absurd (omega arith)
zero_on_top (a ∷ b ∷ hs) zero h l = absurd (omega arith)
zero_on_top (a ∷ b ∷ hs) (suc n) h l = zero_on_top (b ∷ hs) n (omega arith) (omega arith)

-- The top half digit, and the number of half digits that is used for it.
top_read :
    (v : List ℕ) (k : ℕ)
    → AreDigits v
    → IsNormalized (magnitude v) k
    → Parts v (suc (suc k))
    → Fills v (suc (suc k))
    → (h : ℕ) × (get_elem? (to_halves v) (length v * 2 - 1) ≡ some h)
      × ((if h == 0 then length v * 2 - 1 else length v * 2) ≡ suc (suc k))
top_read v k h normal p (inl e) =
    let place : length v * 2 - 1 ≡ suc (suc k) - 1 = omega arith in
    let not_nought : (p.v1 == 0) ≡ false = ground (arith, p.normal) in
    (p.v1, rw place (p.first), rw not_nought (omega arith))
top_read v k h (low, high) p (inr e) =
    let (value, halves, len) = to_halves_lem v h in
    let place : length v * 2 - 1 ≡ suc (suc k) = omega arith in
    (
      0,
      rw place (
          zero_on_top (to_halves v) (suc (suc k)) (omega (arith, value, high))
            (omega (arith, len))),
      place,
    )

abbrev pub rounds : List ℕ → ℕ → ℕ
rounds u n = length u * 2 - 2 + 1 - n

plain_int_lem : (n : ℕ) → n < 2 ^ 31 → plain_int n ≡ some n
unfolding plain_int
plain_int_lem n h = let holds : ltb n (2 ^ 31) ≡ true = ground arith in rw holds

pub divide_normalized_lem :
    (u v : List ℕ) (k : ℕ)
    → AreDigits u
    → AreDigits v
    → IsNormalized (magnitude v) k
    → Fills v (suc (suc k))
    → half_magnitude (drop (rounds u (suc (suc k))) (to_halves u)) < magnitude v
    → suc (suc (suc k)) ≤ length u + length u
    → length v < 2 ^ 30
    → length u < 2 ^ 30
    → Yields
        (divide_normalized u v)
        (AfterRows (magnitude u) (magnitude v) (length u + length u) (rounds u (suc (suc k))))
unfolding divide_normalized
divide_normalized_lem u v k hu hv normal fills small room int_v int_u =
    let below : suc (suc k) ≤ length v + length v = elim fills [
      | inl e ↦ omega arith
      | inr e ↦ omega arith
    ] in
    let p = parts_lem v k hv below normal in
    let (h, top, n) = top_read v k hv normal p fills in
    let (value, halves, len) = to_halves_lem u hu in
    let size : length (p.vs ++ p.v2 ∷ p.v1 ∷ []) ≡ suc (suc k) =
      omega (arith, length-append p.vs (p.v2 ∷ p.v1 ∷ []), p.size) in
    let size_v : plain_int (length v * 2) ≡ some (length v * 2) =
      plain_int_lem (length v * 2) (omega (arith, int_v)) in
    let size_u : plain_int (length u * 2) ≡ some (length u * 2) =
      plain_int_lem (length u * 2) (omega (arith, int_u)) in
    rw (size_v, size_u, top, n, p.first, p.second, p.whole, ← p.same, ← value, ← len)
      (divide_rows_lem p.vs p.v2 p.v1 p.halves p.half2 p.half1 p.normal (rounds u (suc (suc k)))
        (to_halves u) halves (omega (arith, small, p.same)) (omega (arith, size, len)))

pub half_magnitude-drop :
    (n : ℕ) (hs : List ℕ) → half_power n * half_magnitude (drop n hs) ≤ half_magnitude hs
half_magnitude-drop zero hs = omega arith
half_magnitude-drop (suc n) [] = omega arith
half_magnitude-drop (suc n) (h ∷ hs) = omega (arith, half_magnitude-drop n hs)
