-- ===== src/Digits/Sums.antt =====
-- The loops of bignum_plus_unsigned against the sum.
use chicken_core_mirror.Prelude.{
  ℕ, suc, ◌+◌, ◌*◌, ◌^◌, ◌≤◌, ◌≡◌, List, [], ◌∷◌, ◌++◌, Bool, true, false, to_nat, ◌==◌, length,
  length-append, All-append, Yields, arith,
}
use chicken_core_mirror.Word.{IsWord, add_word}
use chicken_core_mirror.Digits.{magnitude, AreDigits, push, propagate_carry, add_round, add_digits}
use chicken_core_mirror.Digits.Arrays.{Holds, push-Holds, magnitude-append_zero}

add_round_lem :
    (d y : ℕ) (c : Bool)
    → IsWord d
    → IsWord y
    → ((add_round d y c).0 + 2 ^ 64 * to_nat (add_round d y c).1 ≡ d + y + to_nat c)
      × IsWord (add_round d y c).0
unfolding add_round
add_round_lem d y true hd hy = ground arith
add_round_lem d y false hd hy = ground arith

propagate_carry_lem :
    (x : List ℕ) (c : Bool)
    → AreDigits x
    → Yields (propagate_carry (x ++ 0 ∷ []) c) (Holds (magnitude x + to_nat c) (suc (length x)))
unfolding propagate_carry push
propagate_carry_lem [] false h = omega arith
propagate_carry_lem [] true h = omega arith
propagate_carry_lem (d ∷ x) false (hd, h) =
    let digits = All-append IsWord x (0 ∷ []) h (omega arith, tt) in
    (omega (arith, magnitude-append_zero x), (hd, digits), omega (arith, length-append x (0 ∷ [])))
propagate_carry_lem (d ∷ x) true (hd, h) =
    push-Holds _ (propagate_carry (x ++ 0 ∷ []) (add_word d 1 == 0)) _ (suc (length x)) _
      (ground arith) (propagate_carry_lem x (add_word d 1 == 0) h) (ground arith)

-- The loops of bignum_plus_unsigned, with one more digit for the carry and y no longer than x,
-- never leave the array and write the sum of both numbers and the carry.
pub add_digits_lem :
    (x y : List ℕ) (c : Bool)
    → AreDigits x
    → AreDigits y
    → length y ≤ length x
    → Yields
        (add_digits (x ++ 0 ∷ []) y c)
        (Holds (magnitude x + magnitude y + to_nat c) (suc (length x)))
unfolding add_digits
add_digits_lem x [] c hx hy l =
    let e : magnitude x + magnitude [] + to_nat c ≡ magnitude x + to_nat c = omega arith in
    rw e (propagate_carry_lem x c hx)
add_digits_lem [] (y ∷ ys) c hx hy l = absurd (omega arith)
add_digits_lem (d ∷ x) (y ∷ ys) c (hd, hx) (hy, hys) l =
    let (sum, carry) = add_round d y c in
    push-Holds sum (add_digits (x ++ 0 ∷ []) ys carry) _ (suc (length x)) _
      (add_round_lem d y c hd hy).1 (add_digits_lem x ys carry hx hys (omega arith))
      (omega (arith, add_round_lem d y c hd hy))
