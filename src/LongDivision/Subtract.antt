-- ===== src/LongDivision/Subtract.antt =====
-- The multiplication and subtraction of a round of the long division, and the loop that adds back.
use chicken_core_mirror.Prelude.{
  ℕ, zero, suc, ◌+◌, ◌*◌, ◌/◌, ◌^◌, ◌<◌, ◌≡◌, List, [], ◌∷◌, ◌++◌, Option, none, some, Bool, to_nat,
  length, All, Yields, arith, refl, ap,
}
use chicken_core_mirror.Word.{
  IsHalf, half_base, sign_bit, add_word, sub_word, mul_word, lo_half, hi_half,
}
use chicken_core_mirror.Digits.{push}
use chicken_core_mirror.Digits.Products.{half_magnitude}
use chicken_core_mirror.Digits.Scaling.{product_fits}
use chicken_core_mirror.LongDivision.{push_half, shift_half, multiply_subtract, add_back}

-- 2 ^ 32 to the power of `n`.
abbrev pub half_power : ℕ → ℕ
half_power zero = 1
half_power (suc n) = 2 ^ 32 * half_power n

-- A row of `l` half digits, followed by `z`, that with `add` stands for `n`, where `over` says
-- whether the row is short of `n` or goes past it.
abbrev pub IsRow : ℕ → List ℕ → List ℕ → List ℕ → Type 0
IsRow l z q s = (s ≡ q ++ z) × All IsHalf q × (length q ≡ l)

-- `q` is `n - m`, short by `2 ^ (32 * l)` where `below`.
abbrev pub Difference : ℕ → ℕ → ℕ → List ℕ → List ℕ × Bool → Type 0
Difference n m l z (s, below) =
    (q : List ℕ) × IsRow l z q s × (half_magnitude q + m ≡ n + to_nat below * half_power l)

push_half-Difference :
    (h : ℕ) (o : Option (List ℕ × Bool)) (n m l n' m' : ℕ) (z : List ℕ)
    → IsHalf h
    → Yields o (Difference n m l z)
    → h + 2 ^ 32 * n + m' ≡ n' + 2 ^ 32 * m
    → Yields (push_half h o) (Difference n' m' (suc l) z)
unfolding push_half
push_half-Difference h none n m l n' m' z hh y e = y
push_half-Difference h (some (s, below)) n m l n' m' z hh (q, (row, halves, len), value) e =
    (h ∷ q, (ap (λ (t : List ℕ). h ∷ t) row, (hh, halves), ap suc len), omega (arith, value, e))

-- One place: the half digit that is left and the borrow.
place_lem :
    (qhat v u k : ℕ)
    → IsHalf qhat
    → IsHalf v
    → IsHalf u
    → IsHalf k
    → let p = mul_word qhat v in
      let t = sub_word (sub_word u k) (lo_half p) in
      let k' = sub_word (hi_half p) (shift_half t) in
      (lo_half t + k + qhat * v ≡ u + 2 ^ 32 * k') × IsHalf (lo_half t) × IsHalf k'
unfolding shift_half
place_lem qhat v u k hq hv hu hk =
    let fits = product_fits qhat v hq hv in
    let whole : mul_word qhat v ≡ qhat * v = omega (arith, fits) in
    let parts : qhat * v ≡ 2 ^ 32 * hi_half (qhat * v) + lo_half (qhat * v) = omega (arith, fits) in
    rw whole (ground (arith, fits, parts))

last_place :
    (u k : ℕ)
    → IsHalf u
    → IsHalf k
    → let t = sub_word u k in
      (lo_half t + k ≡ u + to_nat (sign_bit t) * 2 ^ 32) × IsHalf (lo_half t)
last_place u k hu hk = (ground arith, omega arith)

-- The loop subtracts `qhat` times the divisor and `k` from the place.
pub multiply_subtract_lem :
    (v p z : List ℕ) (qhat k top : ℕ)
    → length p ≡ length v
    → All IsHalf v
    → All IsHalf p
    → IsHalf top
    → IsHalf qhat
    → IsHalf k
    → Yields (multiply_subtract qhat v k (p ++ top ∷ z)) (
        Difference
          (half_magnitude (p ++ top ∷ []))
          (k + qhat * half_magnitude v)
          (suc (length v))
          z)
unfolding multiply_subtract
multiply_subtract_lem [] [] z qhat k top l hv hp ht hq hk =
    let (value, half) = last_place top k ht hk in
    (lo_half (sub_word top k) ∷ [], (refl, (half, tt), refl), omega (arith, value))
multiply_subtract_lem [] (u ∷ p) z qhat k top l hv hp ht hq hk = absurd (omega arith)
multiply_subtract_lem (v ∷ vs) [] z qhat k top l hv hp ht hq hk = absurd (omega arith)
multiply_subtract_lem (v ∷ vs) (u ∷ p) z qhat k top l (hv, hvs) (hu, hp) ht hq hk =
    let product = mul_word qhat v in
    let t = sub_word (sub_word u k) (lo_half product) in
    let k' = sub_word (hi_half product) (shift_half t) in
    let (value, half, carry) = place_lem qhat v u k hq hv hu hk in
    push_half-Difference (lo_half t) (multiply_subtract qhat vs k' (p ++ top ∷ z)) _ _ _ _ _ z half
      (multiply_subtract_lem vs p z qhat k' top (omega arith) hvs hp ht hq carry)
      (omega (arith, value))

-- `q` is `n`, less a carry out of it.
abbrev pub Sum : ℕ → ℕ → List ℕ → List ℕ → Type 0
Sum n l z s = (q : List ℕ) × (c : ℕ) × IsRow l z q s × (half_magnitude q + c * half_power l ≡ n)

push-Sum :
    (h : ℕ) (o : Option (List ℕ)) (n l n' : ℕ) (z : List ℕ)
    → IsHalf h
    → Yields o (Sum n l z)
    → h + 2 ^ 32 * n ≡ n'
    → Yields (push h o) (Sum n' (suc l) z)
unfolding push
push-Sum h none n l n' z hh y e = y
push-Sum h (some s) n l n' z hh (q, c, (row, halves, len), value) e =
    (h ∷ q, c, (ap (λ (t : List ℕ). h ∷ t) row, (hh, halves), ap suc len), omega (arith, value, e))

pub add_back_lem :
    (v p z : List ℕ) (k top : ℕ)
    → length p ≡ length v
    → All IsHalf v
    → All IsHalf p
    → IsHalf top
    → k < 2
    → Yields
        (add_back v k (p ++ top ∷ z))
        (Sum (half_magnitude (p ++ top ∷ []) + k + half_magnitude v) (suc (length v)) z)
unfolding add_back
add_back_lem [] [] z k top l hv hp ht hk = (
  lo_half (add_word top k) ∷ [],
  add_word top k / half_base,
  (refl, (omega arith, tt), refl),
  omega arith,
)
add_back_lem [] (u ∷ p) z k top l hv hp ht hk = absurd (omega arith)
add_back_lem (v ∷ vs) [] z k top l hv hp ht hk = absurd (omega arith)
add_back_lem (v ∷ vs) (u ∷ p) z k top l (hv, hvs) (hu, hp) ht hk =
    let t = add_word (add_word u v) k in
    push-Sum (lo_half t) (add_back vs (t / half_base) (p ++ top ∷ z)) _ _ _ z (omega arith)
      (add_back_lem vs p z (t / half_base) top (omega arith) hvs hp ht (omega arith)) (omega arith)

pub half_magnitude-append :
    (p z : List ℕ)
    → half_magnitude (p ++ z) ≡ half_magnitude p + half_power (length p) * half_magnitude z
half_magnitude-append [] z = omega arith
half_magnitude-append (h ∷ p) z = omega (arith, half_magnitude-append p z)

pub half_magnitude-lt : (p : List ℕ) → All IsHalf p → half_magnitude p < half_power (length p)
half_magnitude-lt [] h = omega arith
half_magnitude-lt (d ∷ p) (hd, h) = omega (arith, half_magnitude-lt p h)
