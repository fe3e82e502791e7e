-- ===== src/Word.antt =====
-- chicken.h: the machine word of the runtime, at 64 bits (C_SIXTY_FOUR). A C_word or C_uword is
-- its bit pattern, a number below `word_base`; `signed` is the number that a C_word stands for.
pub mod Bits
pub mod Length
pub mod Fixnums
pub mod Bitwise
use chicken_core_mirror.Prelude.{
  ℕ, ◌+◌, ◌-◌, ◌*◌, ◌/◌, ◌%◌, ◌^◌, ◌<◌, Bool, not, ◌==◌, ltb, if◌then◌else◌, ◌&&◌,
}
use chicken_core_mirror.Prelude.Int.{ℤ, pos, negsuc}
use Prim.Native.Nat.{bit_or}

-- C_WORD_SIZE bits, and the two halves of C_HALF_WORD_SIZE bits.
abbrev pub word_base : ℕ
word_base = 2 ^ 64

abbrev pub half_base : ℕ
half_base = 2 ^ 32

abbrev pub IsWord : ℕ → Type 0
IsWord w = w < word_base

abbrev pub IsHalf : ℕ → Type 0
IsHalf h = h < half_base

-- Bit `k` of a word, as 0 or 1.
abbrev pub bit_at : ℕ → ℕ → ℕ
bit_at w k = w / 2 ^ k % 2

-- `w & C_INT_SIGN_BIT` as a test.
abbrev pub sign_bit : ℕ → Bool
sign_bit w = bit_at w 63 == 1

abbrev pub signed : ℕ → ℤ
signed w = if ltb w (2 ^ 63) then pos w else negsuc (2 ^ 64 - 1 - w)

-- `-w`, `~w`, and the sum and difference of C_uword.
abbrev pub neg_word : ℕ → ℕ
neg_word w = (word_base - w) % word_base

abbrev pub not_word : ℕ → ℕ
not_word w = word_base - 1 - w

abbrev pub add_word : ℕ → ℕ → ℕ
add_word a b = (a + b) % word_base

abbrev pub sub_word : ℕ → ℕ → ℕ
sub_word a b = (a + word_base - b) % word_base

abbrev pub mul_word : ℕ → ℕ → ℕ
mul_word a b = a * b % word_base

-- C_BIGNUM_DIGIT_LO_HALF: the cast to C_uhword.
abbrev pub lo_half : ℕ → ℕ
lo_half d = d % half_base

-- C_BIGNUM_DIGIT_HI_HALF
abbrev pub hi_half : ℕ → ℕ
hi_half d = d / half_base % half_base

-- C_BIGNUM_DIGIT_COMBINE
unfoldable pub combine : ℕ → ℕ → ℕ
combine h l = bit_or (h * half_base % word_base) (l % half_base)

-- C_fitsinbignumhalfdigitp
unfoldable pub fits_in_half_digit : ℕ → Bool
fits_in_half_digit n = hi_half n == 0

-- C_fitsinfixnump: the two top bits agree.
unfoldable pub fits_in_fixnum : ℕ → Bool
fits_in_fixnum n = bit_at n 63 == bit_at n 62

-- C_ufitsinfixnump: the two top bits are clear.
unfoldable pub ufits_in_fixnum : ℕ → Bool
ufits_in_fixnum n = (bit_at n 63 == 0) && (bit_at n 62 == 0)

-- C_MOST_POSITIVE_FIXNUM
abbrev pub most_positive_fixnum : ℕ
most_positive_fixnum = 2 ^ 62 - 1

-- C_MOST_NEGATIVE_FIXNUM
abbrev pub most_negative_fixnum : ℕ
most_negative_fixnum = neg_word (2 ^ 62)

-- C_fix: the tagged word.
unfoldable pub fix_word : ℕ → ℕ
fix_word n = bit_or (n * 2 % word_base) 1

-- C_unfix: the arithmetic shift by C_FIXNUM_SHIFT.
unfoldable pub unfix_word : ℕ → ℕ
unfix_word x = x / 2 + bit_at x 63 * 2 ^ 63

-- C_fixnump
unfoldable pub is_fixnum : ℕ → Bool
is_fixnum x = x % 2 == 1

-- C_wabs
unfoldable pub abs_word : ℕ → ℕ
abs_word n = if sign_bit n then neg_word n else n

-- One line of C_ilen: `y = x >> k; if (y != 0) { n += k; x = y; }`
unfoldable pub ilen_step : ℕ → ℕ × ℕ → ℕ × ℕ
ilen_step k (n, x) = if x / 2 ^ k == 0 then (n, x) else (n + k, x / 2 ^ k)

-- C_ilen, at 64 bits.
unfoldable pub ilen : ℕ → ℕ
ilen x =
    let s = ilen_step 2 (ilen_step 4 (ilen_step 8 (ilen_step 16 (ilen_step 32 (0, x))))) in
    if s.1 / 2 == 0 then s.0 + s.1 else s.0 + 2
