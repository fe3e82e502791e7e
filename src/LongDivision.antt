-- ===== src/LongDivision.antt =====
-- runtime.c: long division of digit arrays, the loops of bignum_destructive_divide_normalized on
-- half digits. `none` is a read or a write past the end of an array, or a number of half digits that
-- a plain `int` does not hold.
pub mod Estimate
pub mod Subtract
pub mod Corrections
pub mod Rounds
pub mod Normal
pub mod Scale
pub mod Frame
pub mod Full
use chicken_core_mirror.Prelude.{
  ℕ, zero, suc, ◌+◌, ◌-◌, ◌*◌, ◌/◌, ◌%◌, ◌^◌, List, [], ◌∷◌, Option, none, some, Bool, true, false,
  ◌&&◌, ◌==◌, ltb, leb, if◌then◌else◌, length, ◌++◌, get_elem?, set, take, drop, replicate, ◌>>=◌,
}
use chicken_core_mirror.Digits.{push, shift_left, shift_right, to_halves, from_halves}
use chicken_core_mirror.Word.{
  word_base, half_base, ilen, sign_bit, add_word, sub_word, mul_word, lo_half, hi_half, combine,
}

-- `t >> C_BIGNUM_HALF_DIGIT_LENGTH` of a C_word, which keeps the sign.
shift_half : ℕ → ℕ
shift_half t = if sign_bit t then t / half_base + (half_base - 1) * half_base else t / half_base

-- The first loop on the estimate `qhat`, with what it leaves of `hat`.
unfoldable pub reduce_estimate : ℕ → ℕ → ℕ → ℕ × ℕ
reduce_estimate vn_1 zero rhat = (0, rhat)
reduce_estimate vn_1 (suc qhat) rhat = elim (leb half_base (suc qhat)) [
  | true ↦ reduce_estimate vn_1 qhat (add_word rhat vn_1)
  | false ↦ (suc qhat, rhat)
]

-- The second loop on the estimate; `next` is C_uhword_ref(u, j+n-2).
unfoldable pub correct_estimate : ℕ → ℕ → ℕ → ℕ → ℕ → ℕ
correct_estimate vn_1 vn_2 next zero rhat = 0
correct_estimate vn_1 vn_2 next (suc qhat) rhat =
    elim (ltb (combine rhat next) (mul_word (suc qhat) vn_2) && ltb rhat half_base) [
      | true ↦ correct_estimate vn_1 vn_2 next qhat (add_word rhat vn_1)
      | false ↦ suc qhat
    ]

unfoldable pub estimate : ℕ → ℕ → ℕ → ℕ → ℕ
estimate vn_1 vn_2 next hat =
    let s = reduce_estimate vn_1 (hat / vn_1) (hat % vn_1) in
    correct_estimate vn_1 vn_2 next s.0 s.1

unfoldable pub push_half : ℕ → Option (List ℕ × Bool) → Option (List ℕ × Bool)
push_half h none = none
push_half h (some (hs, below)) = some (h ∷ hs, below)

-- Multiply and subtract, with the borrow `k`: `u` from place j on, and `t < 0` for the last `t`.
unfoldable pub multiply_subtract : ℕ → List ℕ → ℕ → List ℕ → Option (List ℕ × Bool)
unfolding push_half shift_half
multiply_subtract qhat v k [] = none
multiply_subtract qhat [] k (u ∷ us) = let t = sub_word u k in some (lo_half t ∷ us, sign_bit t)
multiply_subtract qhat (v ∷ vs) k (u ∷ us) =
    let p = mul_word qhat v in
    let t = sub_word (sub_word u k) (lo_half p) in
    push_half (lo_half t) (multiply_subtract qhat vs (sub_word (hi_half p) (shift_half t)) us)

-- The loop that adds `v` back where too much was subtracted, with the carry `k`.
unfoldable pub add_back : List ℕ → ℕ → List ℕ → Option (List ℕ)
unfolding push
add_back v k [] = none
add_back [] k (u ∷ us) = some (lo_half (add_word u k) ∷ us)
add_back (v ∷ vs) k (u ∷ us) =
    let t = add_word (add_word u v) k in push (lo_half t) (add_back vs (t / half_base) us)

unfoldable pub subtract_estimate : List ℕ → List ℕ → ℕ → Option (List ℕ × ℕ)
subtract_estimate v u qhat = do
  s ← multiply_subtract qhat v 0 u
  if s.1
      then (add_back v 0 s.0 >>= λ w. some (w, lo_half (sub_word qhat 1)))
      else some (s.0, lo_half qhat)

-- One round of the outer loop: `u` from place j on, and the half digit of the quotient.
unfoldable pub divide_round : List ℕ → ℕ → ℕ → List ℕ → Option (List ℕ × ℕ)
unfolding subtract_estimate
divide_round v vn_1 vn_2 u = do
  top ← get_elem? u (length v)
  second ← get_elem? u (length v - 1)
  if combine top second == 0
      then some (u, 0)
      else (get_elem? u (length v - 2) >>= λ next.
          subtract_estimate v u (estimate vn_1 vn_2 next (combine top second)))

-- The outer loop, for `k` places from place j on: the places above come first. What is left of `u`,
-- and the half digits of the quotient.
unfoldable pub divide_rows : List ℕ → ℕ → ℕ → ℕ → List ℕ → Option (List ℕ × List ℕ)
unfolding divide_round
divide_rows v vn_1 vn_2 zero u = some (u, [])
divide_rows v vn_1 vn_2 (suc k) [] = none
divide_rows v vn_1 vn_2 (suc k) (u ∷ us) = do
  s ← divide_rows v vn_1 vn_2 k us
  t ← divide_round v vn_1 vn_2 (u ∷ s.0)
  some (t.0, t.1 ∷ s.1)

-- A number kept in an `int`.
unfoldable pub plain_int : ℕ → Option ℕ
plain_int n = if ltb n (2 ^ 31) then some n else none

-- bignum_destructive_divide_normalized on the digits of `u` and `v`: the half digits that are left
-- of `u`, and those of the quotient. A top half digit 0 of `v` is passed over.
unfoldable pub divide_normalized : List ℕ → List ℕ → Option (List ℕ × List ℕ)
divide_normalized u v = do
  size_v ← plain_int (length v * 2)
  size_u ← plain_int (length u * 2)
  high ← get_elem? (to_halves v) (size_v - 1)
  let n = if high == 0 then size_v - 1 else size_v
  vn_1 ← get_elem? (to_halves v) (n - 1)
  vn_2 ← get_elem? (to_halves v) (n - 2)
  divide_rows (take n (to_halves v)) vn_1 vn_2 (size_u - 2 + 1 - n) (to_halves u)

-- The shift that fills a half digit of the denominator.
unfoldable pub normalizing_shift : List ℕ → Option ℕ
normalizing_shift denominator = do
  d1 ← get_elem? denominator (length denominator - 1)
  let shift = 64 - ilen d1
  some (if leb 32 shift then shift - 32 else shift)

-- The half digits of the quotient written into its array.
unfoldable pub write_halves : List ℕ → List ℕ → Option (List ℕ)
write_halves q quotient =
    if leb (length q) (length (to_halves quotient))
    then some (from_halves (q ++ drop (length q) (to_halves quotient)))
    else none

-- bignum_destructive_divide_full: the quotient, written over the array `quotient`, and the
-- remainder. The shift back of the remainder is left out only where no remainder is asked for.
unfoldable pub divide_full : List ℕ → List ℕ → List ℕ → Option (List ℕ × List ℕ)
divide_full numerator denominator quotient = do
  shift ← normalizing_shift denominator
  let cleared = set quotient (length quotient - 1) 0
  let remainder = numerator ++ 0 ∷ []
  if shift == 0
      then (divide_normalized remainder denominator >>= λ s.
          write_halves s.1 cleared >>= λ q. some (q, from_halves s.0))
      else (divide_normalized (shift_left remainder shift 0).0 (shift_left denominator shift 0).0
          >>= λ s. write_halves s.1 cleared >>= λ q.
              some (q, (shift_right (from_halves s.0) shift false).0))

-- What an array holds that is not initialised: all ones, so that a place that is not written shows.
abbrev pub uninitialized : ℕ → List ℕ
uninitialized n = replicate n (word_base - 1)

-- bignum_divide_unsigned, on the digits: the quotient and the remainder, not simplified.
unfoldable pub divide_unsigned : List ℕ → List ℕ → Option (List ℕ × List ℕ)
unfolding divide_full
divide_unsigned num denom = divide_full num denom (uninitialized (length num + 1 - length denom))
