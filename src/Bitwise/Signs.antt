-- ===== src/Bitwise/Signs.antt =====
-- Negative numbers in the bitwise operators: the two's complement on the way in and out.
use chicken_core_mirror.Prelude.{
  ℕ, ◌+◌, ◌-◌, ◌*◌, ◌^◌, ◌<◌, ◌≤◌, ◌≡◌, List, [], ◌∷◌, ◌++◌, Bool, true, false, ltb, to_nat, take,
  length, replicate, if◌then◌else◌, arith, refl, sym, ◌∙◌, inl, inr, Bool-cases, length-append,
  length-replicate, All-append,
}
use chicken_core_mirror.Prelude.Int.{signed_magnitude}
use chicken_core_mirror.Word.{IsWord, bit_at}
use chicken_core_mirror.Digits.{magnitude, AreDigits, negate_digits}
use chicken_core_mirror.Digits.Differences.{capacity, negate_digits_lem}
use chicken_core_mirror.Bignum.{IsInteger, value}
use chicken_core_mirror.Bignum.Simplify.{bignum_simplify_lem}
use chicken_core_mirror.Shift.{negated_for_bitwise_op}
use chicken_core_mirror.Shift.Ones.{power_suc, take_all, magnitude-lt}
use chicken_core_mirror.Bitwise.{for_bitwise_op, finish_bitwise}
use chicken_core_mirror.Bitwise.Bits.{bit_of, bit_at-beyond, bit_at-negative, bit_of-beyond}
use chicken_core_mirror.Bitwise.Loops.{magnitude-append_zeros, zeros-AreDigits}

capacity_lem : (ds : List ℕ) → capacity ds ≡ 2 ^ (64 * length ds)
capacity_lem [] = refl
capacity_lem (d ∷ ds) = rw (power_suc (length ds), capacity_lem ds) refl

-- What the loops read of a number: its bits, in digits enough for it.
pub record Reads (negp : Bool) (m size len : ℕ) (t : List ℕ) : Type 0 where
  pub digits : AreDigits t
  pub bits : (k : ℕ) → k < 64 * size → bit_at (magnitude t) k ≡ bit_of (signed_magnitude negp m) k
  pub long : length t ≡ (if negp then size else len)

negated :
    (ds : List ℕ) (size : ℕ)
    → AreDigits ds
    → 0 < magnitude ds
    → length ds ≤ size
    → let t = negated_for_bitwise_op ds size in
      (magnitude t + magnitude ds ≡ 2 ^ (64 * size)) × AreDigits t × (length t ≡ size)
unfolding negated_for_bitwise_op
negated ds size h p l =
    let padded : List ℕ = ds ++ replicate (size - length ds) 0 in
    let whole : take size ds ≡ ds = take_all size ds l in
    let digits : AreDigits padded =
      All-append IsWord ds (replicate (size - length ds) 0) h
        (zeros-AreDigits (size - length ds)) in
    let len : length padded ≡ size = omega (
      arith,
      length-append ds (replicate (size - length ds) 0),
      length-replicate {A = ℕ} (size - length ds) 0,
    ) in
    let same = magnitude-append_zeros ds (size - length ds) in
    let (sum, digits', len') = negate_digits_lem padded digits in
    let room : capacity padded ≡ 2 ^ (64 * size) = capacity_lem padded ∙ rw len refl in
    rw whole (
      elim sum [
        | inl s ↦ absurd (omega (arith, s.0, same, p))
        | inr s ↦ omega (arith, s, same, room)
      ],
      digits',
      len' ∙ len,
    )

pub for_bitwise_op_lem :
    (negp : Bool) (ds : List ℕ) (size : ℕ)
    → AreDigits ds
    → (negp ≡ true → 0 < magnitude ds)
    → length ds ≤ size
    → Reads negp (magnitude ds) size (length ds) (for_bitwise_op (negp, ds) size)
unfolding for_bitwise_op
for_bitwise_op_lem false ds size h p l = record { digits = h; bits = λ k hk. refl; long = refl }
for_bitwise_op_lem true ds size h p l =
    let (sum, digits', len) = negated ds size h (p refl) l in
    record {
      digits = digits';
      bits = λ k hk. bit_at-negative (64 * size) k (magnitude ds) _ (p refl) sum hk;
      long = len;
    }

-- The result of an operator: `ds` are its bits, and `negp` what goes on above.
pub finish_bitwise_lem :
    (negp : Bool) (ds : List ℕ)
    → AreDigits ds
    → (negp ≡ true → 0 < magnitude ds)
    → IsInteger (finish_bitwise negp ds)
      × ((k : ℕ)
          → bit_of (value (finish_bitwise negp ds)) k
            ≡ (if ltb k (64 * length ds) then bit_at (magnitude ds) k else to_nat negp))
unfolding finish_bitwise
finish_bitwise_lem false ds h p =
    let (ok, v) = bignum_simplify_lem false ds h in
    (
      ok,
      λ k. rw v (elim (Bool-cases (ltb k (64 * length ds))) [
        | inl e ↦ rw e refl
        | inr e ↦
            rw e
              (bit_at-beyond (64 * length ds) k (magnitude ds) (magnitude-lt ds h) (ground arith))
      ]),
    )
finish_bitwise_lem true ds h p =
    let (sum, digits, len) = negate_digits_lem ds h in
    let (ok, v) = bignum_simplify_lem true (negate_digits ds) digits in
    let n = 64 * length ds in
    let positive = p refl in
    let whole : magnitude ds + magnitude (negate_digits ds) ≡ 2 ^ n = elim sum [
      | inl s ↦ absurd (omega (arith, s.0, positive))
      | inr s ↦ omega (arith, s, capacity_lem ds)
    ] in
    let some_left : 0 < magnitude (negate_digits ds) = omega (arith, whole, magnitude-lt ds h) in
    (
      ok,
      λ k. rw v (elim (Bool-cases (ltb k n)) [
        | inl e ↦ rw e (
            sym (
              bit_at-negative n k (magnitude (negate_digits ds)) (magnitude ds) some_left whole
                (ground arith)))
        | inr e ↦ rw e (
            bit_of-beyond n k (magnitude (negate_digits ds)) some_left (omega (arith, whole))
              (ground arith))
      ]),
    )
