-- ===== src/Digits/Differences.antt =====
-- The loops of bignum_minus_unsigned, and bignum_digits_destructive_negate.
use chicken_core_mirror.Prelude.{
  ℕ, ◌+◌, ◌-◌, ◌*◌, ◌^◌, ◌≤◌, ◌≡◌, List, [], ◌∷◌, Bool, true, false, to_nat, ◌==◌, leb, inl, inr,
  Bool-cases, length, ◌⊎◌, Yields, arith, refl,
}
use chicken_core_mirror.Word.{IsWord, sub_word, add_word, not_word}
use chicken_core_mirror.Digits.{
  magnitude, AreDigits, propagate_borrow, subtract_round, subtract_digits, complement,
  negate_digits,
}
use chicken_core_mirror.Digits.Arrays.{Holds, push-Holds}

subtract_round_lem :
    (d y : ℕ) (b : Bool)
    → IsWord d
    → IsWord y
    → ((subtract_round d y b).0 + y + to_nat b ≡ d + 2 ^ 64 * to_nat (subtract_round d y b).1)
      × IsWord (subtract_round d y b).0
unfolding subtract_round
subtract_round_lem d y true hd hy = ground arith
subtract_round_lem d y false hd hy = ground arith

propagate_borrow_lem :
    (x : List ℕ) (b : Bool)
    → AreDigits x
    → to_nat b ≤ magnitude x
    → Yields (propagate_borrow x b) (Holds (magnitude x - to_nat b) (length x))
unfolding propagate_borrow
propagate_borrow_lem [] false h l = omega arith
propagate_borrow_lem [] true h l = absurd (omega arith)
propagate_borrow_lem (d ∷ x) false (hd, h) l = (omega arith, (hd, h), omega arith)
propagate_borrow_lem (d ∷ x) true (hd, h) l =
    let b = leb d (sub_word d 1) in
    let enough : to_nat b ≤ magnitude x = ground arith in
    push-Holds (sub_word d 1) (propagate_borrow x b) (magnitude x - to_nat b) (length x) _
      (ground arith) (propagate_borrow_lem x b h enough) (ground arith)

-- The loops of bignum_minus_unsigned, where y and the borrow are not above x and y is no longer
-- than x, never leave the array and write the difference.
pub subtract_digits_lem :
    (x y : List ℕ) (b : Bool)
    → AreDigits x
    → AreDigits y
    → length y ≤ length x
    → magnitude y + to_nat b ≤ magnitude x
    → Yields (subtract_digits x y b) (Holds (magnitude x - (magnitude y + to_nat b)) (length x))
unfolding subtract_digits
subtract_digits_lem x [] b hx hy l le =
    let e : magnitude x - (magnitude [] + to_nat b) ≡ magnitude x - to_nat b = omega arith in
    rw e (propagate_borrow_lem x b hx (omega arith))
subtract_digits_lem [] (y ∷ ys) b hx hy l le = absurd (omega arith)
subtract_digits_lem (d ∷ x) (y ∷ ys) b (hd, hx) (hy, hys) l le =
    let (difference, b') = subtract_round d y b in
    let round = subtract_round_lem d y b hd hy in
    let enough : magnitude ys + to_nat b' ≤ magnitude x = omega (arith, round) in
    push-Holds difference (subtract_digits x ys b') (magnitude x - (magnitude ys + to_nat b'))
      (length x) _ round.1 (subtract_digits_lem x ys b' hx hys (omega arith) enough)
      (omega (arith, round))

-- The number one past the largest in `ds`.
abbrev pub capacity : List ℕ → ℕ
capacity [] = 1
capacity (d ∷ ds) = 2 ^ 64 * capacity ds

complement_lem :
    (ds : List ℕ)
    → AreDigits ds
    → (magnitude (complement ds) + magnitude ds + 1 ≡ capacity ds)
      × AreDigits (complement ds)
      × (length (complement ds) ≡ length ds)
unfolding complement
complement_lem [] h = (omega arith, tt, refl)
complement_lem (d ∷ ds) (hd, h) =
    let (sum, digits, len) = complement_lem ds h in
    (omega arith, (omega arith, digits), omega arith)

-- bignum_digits_destructive_negate is the negation in two's complement: the result and the digits
-- add up to the power of the base, or both are zero.
pub negate_digits_lem :
    (ds : List ℕ)
    → AreDigits ds
    → ((magnitude ds ≡ 0) × (magnitude (negate_digits ds) ≡ 0)
        ⊎ (magnitude (negate_digits ds) + magnitude ds ≡ capacity ds))
      × AreDigits (negate_digits ds)
      × (length (negate_digits ds) ≡ length ds)
unfolding negate_digits
negate_digits_lem [] h = (inl (refl, refl), tt, refl)
negate_digits_lem (d ∷ ds) (hd, h) =
    let (sum, digits, len) = complement_lem ds h in
    let (sum', digits', len') = negate_digits_lem ds h in
    elim (Bool-cases (add_word (not_word d) 1 == 0)) [
      | inl e ↦ rw e (ground arith, (ground arith, digits'), omega arith)
      | inr e ↦ rw e (inr (ground arith), (ground arith, digits), omega arith)
    ]
