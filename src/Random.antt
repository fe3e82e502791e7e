-- ===== src/Random.antt =====
-- runtime.c: the pseudo random numbers of fixnum size (random_word, random_uniform,
-- C_random_fixnum). The global state is passed on.
pub mod Uniform
use chicken_core_mirror.Prelude.{
  ℕ, zero, suc, ◌+◌, ◌-◌, ◌*◌, ◌/◌, ◌%◌, ◌^◌, List, [], ◌∷◌, Option, none, some, Bool, true, false,
  ◌==◌, ltb, if◌then◌else◌, get_elem?, set, ◌>>=◌,
}
use chicken_core_mirror.Word.{word_base, not_word, add_word, sign_bit}
use Prim.Native.Nat.{bit_and, bit_xor}

-- random_state and random_state_index
pub record Generator : Type 0 where
  pub state : List ℕ
  pub index : ℕ

unfoldable pub shift_up : ℕ → ℕ → ℕ
shift_up w k = w * 2 ^ k % word_base

-- random_word: the word and the new state; `none` is an access outside of the state.
unfoldable pub random_word : Generator → Option (ℕ × Generator)
unfolding shift_up
random_word g = do
  a ← get_elem? g.state g.index
  c ← get_elem? g.state (bit_and (g.index + 13) 15)
  let b = bit_xor (bit_xor (bit_xor a c) (shift_up a 16)) (shift_up c 15)
  c₁ ← get_elem? g.state (bit_and (g.index + 9) 15)
  let c₂ = bit_xor c₁ (c₁ / 2 ^ 11)
  let a₁ = bit_xor b c₂
  let s₁ = set g.state g.index a₁
  let d = bit_xor a₁ (bit_and (shift_up a₁ 5) 3661901092)
  let index' = bit_and (g.index + 15) 15
  a₂ ← get_elem? s₁ index'
  let r =
      bit_xor (bit_xor (bit_xor (bit_xor (bit_xor a₂ b) d) (shift_up a₂ 2)) (shift_up b 18))
        (shift_up c₂ 28)
  some (r, record { state = set s₁ index' r; index = index' })

-- `(1U + ~bound) % bound`
unfoldable pub least_word : ℕ → ℕ
least_word bound = add_word 1 (not_word bound) % bound

-- What the loop of random_uniform has come to: a word to answer from, or the state after words
-- that were too small.
pub data Drawn : Type 0 where
  outside : Drawn
  too_small : Generator → Drawn
  drawn : ℕ → Generator → Drawn

-- The loop, for a number of words.
unfoldable pub draw : ℕ → ℕ → Generator → Drawn
draw zero least g = too_small g
draw (suc tries) least g = elim (random_word g) [
  | none ↦ outside
  | some (r, g') ↦ elim (ltb r least) [ true ↦ draw tries least g' | false ↦ drawn r g' ]
]

unfoldable pub modulo : ℕ → Drawn → Drawn
modulo bound outside = outside
modulo bound (too_small g) = too_small g
modulo bound (drawn r g) = drawn (r % bound) g

-- random_uniform, for a number of words.
unfoldable pub random_uniform : ℕ → ℕ → Generator → Drawn
unfolding modulo
random_uniform tries bound g =
    if ltb bound 2 then drawn 0 g else modulo bound (draw tries (least_word bound) g)
