-- ===== src/Examples/Random.antt =====
-- runtime.c: the random number generator on a state.
use chicken_core_mirror.Prelude.{ℕ, ◌≡◌, List, [], ◌∷◌, All, arith, refl}
use chicken_core_mirror.Word.{IsWord}
use chicken_core_mirror.Random.{
  Generator, too_small, shift_up, random_word, least_word, draw, modulo, random_uniform,
}
use chicken_core_mirror.Random.Uniform.{Answers, random_uniform_lem}

abbrev seeds : List ℕ
seeds =
    18446744073709551615 ∷ 3 ∷ 5 ∷ 7 ∷ 11 ∷ 13 ∷ 17 ∷ 19 ∷ 23 ∷ 29 ∷ 31 ∷ 37 ∷ 41 ∷ 43 ∷ 47 ∷ 53
    ∷ []

abbrev seeded : Generator
seeded = record { state = seeds; index = 0 }

-- A state of zeros gives only zeros, which most bounds pass over.
abbrev zeros : Generator
zeros = record {
  state = 0 ∷ 0 ∷ 0 ∷ 0 ∷ 0 ∷ 0 ∷ 0 ∷ 0 ∷ 0 ∷ 0 ∷ 0 ∷ 0 ∷ 0 ∷ 0 ∷ 0 ∷ 0 ∷ [];
  index = 0;
}

abbrev zeros_later : Generator
zeros_later = record {
  state = 0 ∷ 0 ∷ 0 ∷ 0 ∷ 0 ∷ 0 ∷ 0 ∷ 0 ∷ 0 ∷ 0 ∷ 0 ∷ 0 ∷ 0 ∷ 0 ∷ 0 ∷ 0 ∷ [];
  index = 13;
}

random_uniform-zeros : random_uniform 3 10 zeros ≡ too_small zeros_later
unfolding random_uniform draw random_word least_word modulo shift_up
random_uniform-zeros = refl

seeds-AreWords : All IsWord seeds
seeds-AreWords = ground arith

random_uniform_lem_example : Answers 3 10 seeded (random_uniform 3 10 seeded)
random_uniform_lem_example =
    random_uniform_lem 3 10 seeded (omega arith) (refl, seeds-AreWords, omega arith)
