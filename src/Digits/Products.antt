-- ===== src/Digits/Products.antt =====
-- bignum_digits_multiply against the product.
use chicken_core_mirror.Prelude.{
  ℕ, zero, suc, ◌+◌, ◌*◌, ◌^◌, ◌≡◌, List, [], ◌∷◌, ◌++◌, Option, none, some, length, length-append,
  replicate, All, All-append, length-replicate, ◌>>=◌, Yields, ◌==◌, if◌then◌else◌, inl, inr,
  Bool-cases, arith, refl, ap, sym, ◌∙◌,
}
use chicken_core_mirror.Word.{IsHalf, lo_half, hi_half, add_word, mul_word}
use chicken_core_mirror.Digits.{
  magnitude, AreDigits, push, to_halves, from_halves, multiply_row, keep_first, multiply_rows,
  multiply_digits,
}
use chicken_core_mirror.Digits.Scaling.{product_fits}
use chicken_core_mirror.Digits.Arrays.{Holds}
use native.Mathlib.Nat.{zero-add}
use mathlib.Core.List.{append_assoc, append-nil}

-- The number that an array of half digits stands for.
abbrev pub half_magnitude : List ℕ → ℕ
half_magnitude [] = 0
half_magnitude (h ∷ hs) = h + 2 ^ 32 * half_magnitude hs

-- `s` begins with a row of `l` half digits that stands for `n`, and goes on with `z`.
abbrev pub IsRow : ℕ → ℕ → List ℕ → List ℕ → Type 0
IsRow n l z s = (q : List ℕ) × (s ≡ q ++ z) × (half_magnitude q ≡ n) × All IsHalf q × (length q ≡ l)

push-IsRow :
    (h : ℕ) (o : Option (List ℕ)) (n l m : ℕ) (z : List ℕ)
    → IsHalf h
    → Yields o (IsRow n l z)
    → h + 2 ^ 32 * n ≡ m
    → Yields (push h o) (IsRow m (suc l) z)
unfolding push
push-IsRow h (some s) n l m z hh (q, e, value, halves, len) eq =
    (h ∷ q, ap (λ (t : List ℕ). h ∷ t) e, omega arith, (hh, halves), omega arith)
push-IsRow h none n l m z hh y eq = y

-- One place of the row: the new half digit and the carry.
place_lem :
    (x y r c : ℕ)
    → IsHalf x
    → IsHalf y
    → IsHalf r
    → IsHalf c
    → let product = add_word (add_word (mul_word x y) r) c in
      (lo_half product + 2 ^ 32 * hi_half product ≡ x * y + r + c)
      × IsHalf (lo_half product)
      × IsHalf (hi_half product)
place_lem x y r c hx hy hr hc = omega (arith, product_fits x y hx hy)

-- The row adds `y` times x to the place; the half digit above it, `top`, is overwritten.
multiply_row_lem :
    (xs p z : List ℕ) (y c top : ℕ)
    → length p ≡ length xs
    → All IsHalf xs
    → All IsHalf p
    → IsHalf y
    → IsHalf c
    → Yields
        (multiply_row xs y c (p ++ top ∷ z))
        (IsRow (half_magnitude p + y * half_magnitude xs + c) (suc (length xs)) z)
unfolding multiply_row
multiply_row_lem [] [] z y c top l hx hp hy hc = (c ∷ [], refl, omega arith, (hc, tt), refl)
multiply_row_lem [] (r ∷ p) z y c top l hx hp hy hc = absurd (omega arith)
multiply_row_lem (x ∷ xs) [] z y c top l hx hp hy hc = absurd (omega arith)
multiply_row_lem (x ∷ xs) (r ∷ p) z y c top l (hx, hxs) (hr, hp) hy hc =
    let product = add_word (add_word (mul_word x y) r) c in
    let (value, low, carry) = place_lem x y r c hx hy hr hc in
    push-IsRow (lo_half product) (multiply_row xs y (hi_half product) (p ++ top ∷ z)) _
      (suc (length xs)) _ z low
      (multiply_row_lem xs p z y (hi_half product) top (omega arith) hxs hp hy carry)
      (omega (arith, value))

half_magnitude-append_zero : (p : List ℕ) → half_magnitude (p ++ 0 ∷ []) ≡ half_magnitude p
half_magnitude-append_zero [] = omega arith
half_magnitude-append_zero (h ∷ p) = omega (arith, half_magnitude-append_zero p)

-- Row `j` of the outer loop, which a zero half digit skips.
row_lem :
    (xs p z : List ℕ) (y : ℕ)
    → length p ≡ length xs
    → All IsHalf xs
    → All IsHalf p
    → IsHalf y
    → Yields
        (if y == 0 then some (p ++ 0 ∷ z) else multiply_row xs y 0 (p ++ 0 ∷ z))
        (IsRow (half_magnitude p + y * half_magnitude xs) (suc (length xs)) z)
row_lem xs p z y l hx hp hy = elim (Bool-cases (y == 0)) [
  | inl e ↦
      let none_left : y ≡ 0 = ground arith in
      rw e (
        p ++ 0 ∷ [],
        sym (append_assoc p (0 ∷ []) z),
        rw none_left (omega (arith, half_magnitude-append_zero p)),
        All-append IsHalf p (0 ∷ []) hp (omega arith, tt),
        omega (arith, length-append p (0 ∷ [])),
      )
  | inr e ↦
      let same : half_magnitude p + y * half_magnitude xs + 0
          ≡ half_magnitude p + y * half_magnitude xs =
        omega arith in
      rw (e, ← same) (multiply_row_lem xs p z y 0 0 l hx hp hy (omega arith))
]

-- `s` is the number `n` in `l` half digits.
abbrev pub HoldsHalves : ℕ → ℕ → List ℕ → Type 0
HoldsHalves n l s = (half_magnitude s ≡ n) × All IsHalf s × (length s ≡ l)

push-HoldsHalves :
    (h : ℕ) (o : Option (List ℕ)) (n l m : ℕ)
    → IsHalf h
    → Yields o (HoldsHalves n l)
    → h + 2 ^ 32 * n ≡ m
    → Yields (push h o) (HoldsHalves m (suc l))
unfolding push
push-HoldsHalves h (some s) n l m hh (value, halves, len) e =
    (omega arith, (hh, halves), omega arith)
push-HoldsHalves h none n l m hh y e = y

-- `keep_first` splits the row that is done from the rows that follow.
keep_first_lem :
    (o : Option (List ℕ)) (f : List ℕ → Option (List ℕ)) (z : List ℕ) (n l k m : ℕ)
    → Yields o (IsRow n (suc l) z)
    → ((q : List ℕ)
        → All IsHalf q
        → length q ≡ l
        → Yields (f (q ++ z)) (HoldsHalves (half_magnitude q + k) m))
    → Yields (keep_first o f) (HoldsHalves (n + 2 ^ 32 * k) (suc m))
unfolding keep_first
keep_first_lem none f z n l k m y g = y
keep_first_lem (some s) f z n l k m ([], e, value, halves, len) g = absurd (omega arith)
keep_first_lem (some s) f z n l k m (h ∷ q, e, value, (hh, halves), len) g =
    rw e (push-HoldsHalves h (f (q ++ z)) _ m _ hh (g q halves (omega arith)) (omega arith))

-- The rows leave p plus the product.
multiply_rows_lem :
    (xs ys p : List ℕ)
    → length p ≡ length xs
    → All IsHalf xs
    → All IsHalf ys
    → All IsHalf p
    → Yields (multiply_rows xs ys (p ++ replicate (length ys) 0)) (
        HoldsHalves
          (half_magnitude p + half_magnitude xs * half_magnitude ys)
          (length xs + length ys))
unfolding multiply_rows
multiply_rows_lem xs [] p l hx hy hp = rw (append-nil p) (omega arith, hp, omega arith)
multiply_rows_lem xs (y ∷ ys) p l hx (hy, hys) hp =
    let z : List ℕ = replicate (length ys) 0 in
    let place = half_magnitude p + y * half_magnitude xs in
    let product = half_magnitude xs * half_magnitude ys in
    let value : half_magnitude p + half_magnitude xs * half_magnitude (y ∷ ys)
        ≡ place + 2 ^ 32 * product =
      omega arith in
    let len : length xs + suc (length ys) ≡ suc (length xs + length ys) = omega arith in
    rw (value, len)
      (keep_first_lem _ (multiply_rows xs ys) z place (length xs) product (length xs + length ys)
        (row_lem xs p z y l hx hp hy)
        (λ q halves same. multiply_rows_lem xs ys q same hx hys halves))

pub to_halves_lem :
    (ds : List ℕ) → AreDigits ds → HoldsHalves (magnitude ds) (length ds + length ds) (to_halves ds)
unfolding to_halves
to_halves_lem [] h = (refl, tt, omega arith)
to_halves_lem (d ∷ ds) (hd, h) =
    let (value, halves, len) = to_halves_lem ds h in
    (omega (arith, value), (omega arith, (omega arith, halves)), omega (arith, len))

to_halves-zeros : (n : ℕ) → to_halves (replicate n 0) ≡ replicate (n + n) 0
unfolding to_halves
to_halves-zeros zero = refl
to_halves-zeros (suc n) =
    let e : suc n + suc n ≡ suc (suc (n + n)) = omega arith in
    rw e (ap (λ (t : List ℕ). 0 ∷ 0 ∷ t) (to_halves-zeros n))

pub from_halves_lem :
    (n : ℕ) (hs : List ℕ)
    → length hs ≡ n + n
    → All IsHalf hs
    → (magnitude (from_halves hs) ≡ half_magnitude hs)
      × AreDigits (from_halves hs)
      × (length (from_halves hs) ≡ n)
unfolding from_halves
from_halves_lem zero [] l h = (refl, tt, refl)
from_halves_lem zero (a ∷ hs) l h = absurd (omega arith)
from_halves_lem (suc n) [] l h = absurd (omega arith)
from_halves_lem (suc n) (a ∷ []) l h = absurd (omega arith)
from_halves_lem (suc n) (a ∷ b ∷ hs) l (ha, (hb, h)) =
    let (value, digits, len) = from_halves_lem n hs (omega arith) h in
    (omega (arith, value), (omega arith, digits), omega (arith, len))

replicate-append {ℓ} :
    {A : Type ℓ} (m n : ℕ) (a : A) → replicate m a ++ replicate n a ≡ replicate (m + n) a
replicate-append zero n a = let e : 0 + n ≡ n = omega arith in rw e
replicate-append (suc m) n a =
    let e : suc m + n ≡ suc (m + n) = omega arith in rw e (ap (λ t. a ∷ t) (replicate-append m n a))

zeros_are_halves : (n : ℕ) → (half_magnitude (replicate n 0) ≡ 0) × All IsHalf (replicate n 0)
zeros_are_halves zero = (refl, tt)
zeros_are_halves (suc n) = let (e, h) = zeros_are_halves n in (omega arith, (omega arith, h))

from_halves-Holds :
    (o : Option (List ℕ)) (v n : ℕ)
    → Yields o (HoldsHalves v (n + n))
    → Yields (o >>= λ rd. some (from_halves rd)) (Holds v n)
from_halves-Holds none v n h = h
from_halves-Holds (some rd) v n (value, halves, len) =
    let (same, digits, size) = from_halves_lem n rd len halves in (same ∙ value, digits, size)

-- bignum_digits_multiply into an array of zeros that is as long as both numbers writes within it
-- the product of the two numbers.
pub multiply_digits_lem :
    (x y : List ℕ)
    → AreDigits x
    → AreDigits y
    → Yields
        (multiply_digits x y (replicate (length x + length y) 0))
        (Holds (magnitude x * magnitude y) (length x + length y))
unfolding multiply_digits
multiply_digits_lem x y hx hy =
    let (value_x, halves_x, len_x) = to_halves_lem x hx in
    let (value_y, halves_y, len_y) = to_halves_lem y hy in
    let n = length x + length y in
    let lx = length (to_halves x) in
    let ly = length (to_halves y) in
    let same : lx + ly ≡ n + n = omega arith in
    let (none_yet, zeros) = zeros_are_halves lx in
    let rows =
      multiply_rows_lem (to_halves x) (to_halves y) (replicate lx 0) (length-replicate lx 0)
        halves_x halves_y zeros in
    let buffer : to_halves (replicate n 0) ≡ replicate lx 0 ++ replicate ly 0 =
      to_halves-zeros n ∙ rw (← same) (sym (replicate-append {A = ℕ} lx ly 0)) in
    rw buffer (
      from_halves-Holds
        (multiply_rows (to_halves x) (to_halves y) (replicate lx 0 ++ replicate ly 0)) _ n
        (rw (none_yet, value_x, value_y, zero-add, same) at rows))
