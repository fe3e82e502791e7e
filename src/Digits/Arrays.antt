-- ===== src/Digits/Arrays.antt =====
-- Facts on digit arrays that several proofs share.
use chicken_core_mirror.Prelude.{
  ℕ, suc, ◌+◌, ◌*◌, ◌^◌, ◌≡◌, List, [], ◌∷◌, ◌++◌, Option, none, some, length, Yields, arith,
}
use chicken_core_mirror.Word.{IsWord}
use chicken_core_mirror.Digits.{magnitude, AreDigits, push}

-- `s` is the number `n` in `l` digits.
abbrev pub Holds : ℕ → ℕ → List ℕ → Type 0
Holds n l s = (magnitude s ≡ n) × AreDigits s × (length s ≡ l)

-- A digit in front of an array.
pub push-Holds :
    (d : ℕ) (o : Option (List ℕ)) (n l m : ℕ)
    → IsWord d
    → Yields o (Holds n l)
    → d + 2 ^ 64 * n ≡ m
    → Yields (push d o) (Holds m (suc l))
unfolding push
push-Holds d (some s) n l m hd h e = (omega arith, (hd, h.1), omega arith)
push-Holds d none n l m hd h e = h

-- A zero above the top digit does not change the number.
pub magnitude-append_zero : (ds : List ℕ) → magnitude (ds ++ 0 ∷ []) ≡ magnitude ds
magnitude-append_zero [] = omega arith
magnitude-append_zero (d ∷ ds) = omega (arith, magnitude-append_zero ds)
