-- ===== src/Word/Fixnums.antt =====
-- Fixnums as tagged words (chicken.h): the range, the tag, and the tests of the range.
use chicken_core_mirror.Prelude.{ℕ, ◌+◌, ◌^◌, ◌<◌, ◌≤◌, ◌≡◌, ◌↔◌, true, arith}
use chicken_core_mirror.Prelude.Int.{ℤ, pos_part, neg_part}
use chicken_core_mirror.Word.{
  IsWord, signed, fits_in_fixnum, ufits_in_fixnum, fix_word, unfix_word, is_fixnum, abs_word,
}
use chicken_core_mirror.Word.Bits.{fix_word_lem}

-- The numbers from C_MOST_NEGATIVE_FIXNUM to C_MOST_POSITIVE_FIXNUM.
abbrev pub InFixnumRange : ℤ → Type 0
InFixnumRange z = (pos_part z < 2 ^ 62) × (neg_part z ≤ 2 ^ 62)

-- C_fitsinfixnump holds of a word exactly if the number that it stands for is at least -(2 ^ 62)
-- and below 2 ^ 62.
pub fits_in_fixnum_iff : (n : ℕ) → IsWord n → (fits_in_fixnum n ≡ true) ↔ InFixnumRange (signed n)
unfolding fits_in_fixnum
fits_in_fixnum_iff n w = (λ h. ground arith, λ h. ground arith)

pub ufits_in_fixnum_iff : (n : ℕ) → IsWord n → (ufits_in_fixnum n ≡ true) ↔ (n < 2 ^ 62)
unfolding ufits_in_fixnum
ufits_in_fixnum_iff n w = (λ h. ground arith, λ h. ground arith)

-- A number in fixnum range comes back from its tagged word, which is a word and carries the tag.
pub unfix_word-fix_word :
    (n : ℕ)
    → IsWord n
    → fits_in_fixnum n ≡ true
    → (unfix_word (fix_word n) ≡ n) × (is_fixnum (fix_word n) ≡ true) × IsWord (fix_word n)
unfolding fits_in_fixnum unfix_word is_fixnum
unfix_word-fix_word n w h = rw (fix_word_lem n) (ground arith, ground arith, ground arith)

pub abs_word_lem : (n : ℕ) → IsWord n → abs_word n ≡ pos_part (signed n) + neg_part (signed n)
unfolding abs_word
abs_word_lem n w = ground arith
