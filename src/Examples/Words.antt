-- ===== src/Examples/Words.antt =====
-- chicken.h: the tags and tests of words, on concrete words.
use chicken_core_mirror.Prelude.{ℕ, ◌-◌, ◌≡◌, refl}
use chicken_core_mirror.Word.{word_base, fix_word, ilen, ilen_step}

fix_word_seven : fix_word 7 ≡ 15
unfolding fix_word
fix_word_seven = refl

fix_word_minus_one : fix_word (word_base - 1) ≡ word_base - 1
unfolding fix_word
fix_word_minus_one = refl

ilen_256 : ilen 256 ≡ 9
unfolding ilen ilen_step
ilen_256 = refl

-- -2
abbrev minus_two : ℕ
minus_two = word_base - 2
