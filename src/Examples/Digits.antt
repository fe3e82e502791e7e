-- ===== src/Examples/Digits.antt =====
-- runtime.c: the loops over digit arrays, on concrete arrays.
use chicken_core_mirror.Prelude.{
  ℕ, ◌-◌, ◌^◌, ◌≡◌, List, [], ◌∷◌, some, false, replicate, arith, refl,
}
use chicken_core_mirror.Digits.{
  AreDigits, add_digits, subtract_digits, cmp_unsigned, multiply_digits, to_halves, from_halves,
}
use Prim.Native.Nat.{Ordering}

abbrev last : ℕ
last = 2 ^ 64 - 1

-- 2 ^ 128 - 1
abbrev full : List ℕ
full = last ∷ last ∷ []

abbrev mixed : List ℕ
mixed = 5 ∷ 0 ∷ 9 ∷ []

full-digits : AreDigits full
full-digits = (omega arith, (omega arith, tt))

mixed-digits : AreDigits mixed
mixed-digits = (omega arith, (omega arith, (omega arith, tt)))

carried : add_digits (last ∷ last ∷ 0 ∷ []) (1 ∷ []) false ≡ some (0 ∷ 0 ∷ 1 ∷ [])
unfolding add_digits
carried = refl

borrowed : subtract_digits (0 ∷ 0 ∷ 1 ∷ []) (1 ∷ []) false ≡ some (last ∷ last ∷ 0 ∷ [])
unfolding subtract_digits
borrowed = refl

multiplied : multiply_digits full full (replicate 4 0) ≡ some (1 ∷ 0 ∷ (last - 1) ∷ last ∷ [])
unfolding multiply_digits to_halves from_halves
multiplied = refl

compared : cmp_unsigned mixed full ≡ Ordering.gt
unfolding cmp_unsigned
compared = refl
