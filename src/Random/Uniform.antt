-- ===== src/Random/Uniform.antt =====
-- random_uniform: its range, that it stays within the state, and the words that it passes over.
use chicken_core_mirror.Prelude.{
  ℕ, zero, suc, ◌+◌, ◌-◌, ◌*◌, ◌/◌, ◌%◌, ◌^◌, ◌<◌, ◌≤◌, ◌≡◌, ◌⊎◌, List, [], ◌∷◌, Option, none, some,
  true, false, ltb, length, get_elem?, set, All, Yields, Yields-bind, length-set, arith, refl, sym,
  inl, inr, Bool-cases,
}
use chicken_core_mirror.Word.{IsWord}
use chicken_core_mirror.Word.Bitwise.{bit_and-mask, bit_and-lt, bit_xor-lt}
use chicken_core_mirror.Random.{
  Generator, Drawn, outside, too_small, drawn, shift_up, random_word, least_word, draw, modulo,
  random_uniform,
}
use Prim.Native.Nat.{bit_and, bit_xor}
use mathlib.Core.Path.{subst}
use native.Mathlib.Nat.{mod-lt, mod-eq-sub-mod, le-div_iff_mul-le, div-add-mod', mul-le-mul_right}

-- 16 words, and an index of one of them.
abbrev pub IsGenerator : Generator → Type 0
IsGenerator g = (length g.state ≡ 16) × All IsWord g.state × (g.index < 16)

get_elem?-IsWord :
    (ds : List ℕ) (i : ℕ) → All IsWord ds → i < length ds → Yields (get_elem? ds i) IsWord
get_elem?-IsWord [] i h l = absurd (omega arith)
get_elem?-IsWord (d ∷ ds) zero (hd, h) l = hd
get_elem?-IsWord (d ∷ ds) (suc i) (hd, h) l = get_elem?-IsWord ds i h (omega arith)

set-AreWords : (ds : List ℕ) (i v : ℕ) → All IsWord ds → IsWord v → All IsWord (set ds i v)
set-AreWords [] i v h hv = tt
set-AreWords (d ∷ ds) zero v (hd, h) hv = (hv, h)
set-AreWords (d ∷ ds) (suc i) v (hd, h) hv = (hd, set-AreWords ds i v h hv)

-- `(i + k) & 15`
masked-lt : (i : ℕ) → bit_and i 15 < 16
masked-lt i = rw (bit_and-mask 4 i) (mod-lt i (omega arith))

xor-IsWord : (a b : ℕ) → IsWord a → IsWord b → IsWord (bit_xor a b)
xor-IsWord a b ha hb = bit_xor-lt 64 a b ha hb

shift_up-IsWord : (w k : ℕ) → IsWord (shift_up w k)
unfolding shift_up
shift_up-IsWord w k = mod-lt (w * 2 ^ k) (omega arith)

-- A word of the generator, and the state after it.
abbrev Gives : ℕ × Generator → Type 0
Gives s = IsWord s.0 × IsGenerator s.1

random_word-Gives : (g : Generator) → IsGenerator g → Yields (random_word g) Gives
unfolding random_word
random_word-Gives g (len, words, i) =
    Yields-bind (get_elem? g.state g.index) _ IsWord Gives
      (get_elem?-IsWord g.state g.index words (omega arith))
      λ a ha.
        Yields-bind (get_elem? g.state (bit_and (g.index + 13) 15)) _ IsWord Gives
          (get_elem?-IsWord g.state _ words (omega (arith, masked-lt (g.index + 13))))
          λ c hc.
            Yields-bind (get_elem? g.state (bit_and (g.index + 9) 15)) _ IsWord Gives
              (get_elem?-IsWord g.state _ words (omega (arith, masked-lt (g.index + 9))))
              λ c₁ hc₁.
                let b = bit_xor (bit_xor (bit_xor a c) (shift_up a 16)) (shift_up c 15) in
                let hb : IsWord b =
                  xor-IsWord _ _ (xor-IsWord _ _ (xor-IsWord a c ha hc) (shift_up-IsWord a 16))
                    (shift_up-IsWord c 15) in
                let c₂ = bit_xor c₁ (c₁ / 2 ^ 11) in
                let hc₂ : IsWord c₂ = xor-IsWord c₁ (c₁ / 2 ^ 11) hc₁ (omega arith) in
                let a₁ = bit_xor b c₂ in
                let ha₁ : IsWord a₁ = xor-IsWord b c₂ hb hc₂ in
                let d = bit_xor a₁ (bit_and (shift_up a₁ 5) 3661901092) in
                let hd : IsWord d =
                  xor-IsWord a₁ _ ha₁ (
                    bit_and-lt 64 (shift_up a₁ 5) 3661901092 (shift_up-IsWord a₁ 5)
                      (omega arith)) in
                let s₁ = set g.state g.index a₁ in
                let words₁ : All IsWord s₁ = set-AreWords g.state g.index a₁ words ha₁ in
                let len₁ : length s₁ ≡ 16 = omega (arith, length-set g.state g.index a₁) in
                let index' = bit_and (g.index + 15) 15 in
                let hi : index' < 16 = masked-lt (g.index + 15) in
                Yields-bind (get_elem? s₁ index') _ IsWord Gives
                  (get_elem?-IsWord s₁ index' words₁ (omega (arith, len₁, hi)))
                  λ a₂ ha₂.
                    let r =
                      bit_xor
                        (bit_xor (bit_xor (bit_xor (bit_xor a₂ b) d) (shift_up a₂ 2))
                          (shift_up b 18))
                        (shift_up c₂ 28) in
                    let hr : IsWord r =
                      xor-IsWord _ _
                        (xor-IsWord _ _
                          (xor-IsWord _ _ (xor-IsWord _ _ (xor-IsWord a₂ b ha₂ hb) hd)
                            (shift_up-IsWord a₂ 2))
                          (shift_up-IsWord b 18))
                        (shift_up-IsWord c₂ 28) in
                    (
                      hr,
                      (
                        omega (arith, len₁, length-set s₁ index' r),
                        set-AreWords s₁ index' r words₁ hr,
                        hi,
                      ),
                    )

-- The first `n` words are all below `least`.
abbrev pub PassesOver : ℕ → ℕ → Generator → Type 0
PassesOver zero least g = Unit
PassesOver (suc n) least g = Yields (random_word g) λ s. (s.0 < least) × PassesOver n least s.1

-- `w` is the first word from `least` on, among the first `n`, and `g'` the state after it.
abbrev pub IsFirstWord : ℕ → ℕ → Generator → ℕ → Generator → Type 0
IsFirstWord zero least g w g' = ⊥
IsFirstWord (suc n) least g w g' =
    Yields (random_word g)
      λ s. ((s.0 < least) × IsFirstWord n least s.1 w g') ⊎ ((least ≤ s.0) × (s.0 ≡ w) × (s.1 ≡ g'))

-- What `tries` words come to.
abbrev Draws : ℕ → ℕ → Generator → Drawn → Type 0
Draws tries least g outside = ⊥
Draws tries least g (too_small g') = IsGenerator g' × PassesOver tries least g
Draws tries least g (drawn r g') = IsGenerator g' × IsFirstWord tries least g r g'

draw_lem :
    (tries least : ℕ) (g : Generator) → IsGenerator g → Draws tries least g (draw tries least g)
unfolding draw
draw_lem zero least g h = (h, tt)
draw_lem (suc tries) least g h =
    after (random_word g) refl (random_word-Gives g h) (draw_lem tries least)
  where
    pass :
        (r : ℕ) (g' : Generator) (o : Drawn)
        → r < least
        → Draws tries least g' o
        → random_word g ≡ some (r, g')
        → Draws (suc tries) least g o
    pass r g' outside small d e = d
    pass r g' (too_small g'') small (k, p) e = (k, rw e (small, p))
    pass r g' (drawn s g'') small (k, p) e = (k, rw e (inl (small, p)))

    after :
        (o : Option (ℕ × Generator))
        → random_word g ≡ o
        → Yields o Gives
        → ((g' : Generator) → IsGenerator g' → Draws tries least g' (draw tries least g'))
        → Draws (suc tries) least g (elim o [
          | none ↦ outside
          | some (r, g') ↦ elim (ltb r least) [ true ↦ draw tries least g' | false ↦ drawn r g' ]
        ])
    after none e y later = y
    after (some (r, g')) e (word, k) later = elim (Bool-cases (ltb r least)) [
      | inl s ↦ rw s (pass r g' (draw tries least g') (ground arith) (later g' k) e)
      | inr s ↦ let large : least ≤ r = ground arith in rw s (k, rw e (inr (large, refl, refl)))
    ]

-- `least_word` is the rest of the number of words, so that the words from it on are as many for
-- every answer, and they are at least half of all.
least_word_lem :
    (bound : ℕ)
    → IsWord bound
    → 2 ≤ bound
    → (least_word bound ≡ 2 ^ 64 % bound) × (2 * least_word bound ≤ 2 ^ 64)
unfolding least_word
least_word_lem bound w two =
    let same : (1 + (2 ^ 64 - 1 - bound)) % 2 ^ 64 ≡ 2 ^ 64 - bound = omega arith in
    let rest : (2 ^ 64 - bound) % bound ≡ 2 ^ 64 % bound =
      sym (mod-eq-sub-mod {n = 2 ^ 64} {m = bound} (omega arith)) in
    let below : 2 ^ 64 % bound < bound = mod-lt (2 ^ 64) (omega arith) in
    let whole : 2 ^ 64 / bound * bound + 2 ^ 64 % bound ≡ 2 ^ 64 = div-add-mod' (2 ^ 64) bound in
    let some_time : 1 ≤ 2 ^ 64 / bound =
      (le-div_iff_mul-le {k = bound} (omega arith)).1 (omega arith) in
    let least : 1 * bound ≤ 2 ^ 64 / bound * bound = mul-le-mul_right bound some_time in
    rw (same, rest) (refl, omega (arith, whole, below, least))

-- The answer of random_uniform: 0, or the remainder of the first word that is not too small.
abbrev pub IsAnswer : ℕ → ℕ → Generator → ℕ → Generator → Type 0
IsAnswer tries bound g r g' =
    ((bound < 2) × (r ≡ 0) × (g' ≡ g))
    ⊎ ((2 ≤ bound) × (w : ℕ) × IsFirstWord tries (2 ^ 64 % bound) g w g' × (r ≡ w % bound))

-- What random_uniform comes to: an answer below the bound, or nothing yet.
abbrev pub Answers : ℕ → ℕ → Generator → Drawn → Type 0
Answers tries bound g outside = ⊥
Answers tries bound g (too_small g') =
    IsGenerator g' × PassesOver tries (2 ^ 64 % bound) g × (2 * (2 ^ 64 % bound) ≤ 2 ^ 64)
Answers tries bound g (drawn r g') = IsGenerator g' × (r ≤ bound - 1) × IsAnswer tries bound g r g'

below_bound :
    (tries bound : ℕ) (g : Generator) (o : Drawn)
    → 2 ≤ bound
    → (least_word bound ≡ 2 ^ 64 % bound) × (2 * least_word bound ≤ 2 ^ 64)
    → Draws tries (least_word bound) g o
    → Answers tries bound g (modulo bound o)
unfolding modulo
below_bound tries bound g outside two l d = d
below_bound tries bound g (too_small g') two (same, half) (k, p) = rw (← same) (k, p, half)
below_bound tries bound g (drawn r g') two (same, half) (k, p) =
    let small : r % bound < bound = mod-lt r (omega arith) in
    (k, omega arith, inr (two, r, subst (λ (l : ℕ). IsFirstWord tries l g r g') same p, refl))

-- random_uniform, on a state of 16 words with an index among them and on a bound that is a word,
-- never reaches outside of the state and leaves such a state. It answers 0 for a bound below 2.
-- For any other bound it passes over the words of random_word that are below 2^64 mod the bound,
-- answers the remainder by the bound of the first word that is not, a number below the bound, and
-- leaves the state after that word. Only when all words so far are below, which are at most half
-- of all words, has it not answered yet.
pub random_uniform_lem :
    (tries bound : ℕ) (g : Generator)
    → IsWord bound
    → IsGenerator g
    → Answers tries bound g (random_uniform tries bound g)
unfolding random_uniform
random_uniform_lem tries bound g w h = elim (Bool-cases (ltb bound 2)) [
  | inl e ↦ rw e (h, omega arith, inl (ground arith, refl, refl))
  | inr e ↦
      let two : 2 ≤ bound = ground arith in
      rw e (
        below_bound tries bound g (draw tries (least_word bound) g) two (least_word_lem bound w two)
          (draw_lem tries (least_word bound) g h))
]
