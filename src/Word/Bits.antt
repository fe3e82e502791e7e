-- ===== src/Word/Bits.antt =====
-- The bit operations of the word macros as arithmetic.
use chicken_core_mirror.Prelude.{ℕ, zero, suc, ◌+◌, ◌*◌, ◌/◌, ◌%◌, ◌^◌, ◌<◌, ◌≡◌, refl, ap, arith}
use chicken_core_mirror.Word.{IsHalf, half_base, combine, fix_word}
use Prim.Native.Nat.{bit_or, bit_or-bitwise}
use chicken_core_mirror.Word.Bitwise.{bit_or_step}
use native.Mathlib.Nat.{pow-suc}

pub zero-bit_or : (b : ℕ) → bit_or 0 b ≡ b
zero-bit_or b = bit_or-bitwise 0 b

bit_or-zero_below : (n a : ℕ) → a < n → bit_or a 0 ≡ a
bit_or-zero_below zero a h = elim h [ ]
bit_or-zero_below (suc n) zero h = refl
bit_or-zero_below (suc n) (suc a) h =
    omega (arith, bit_or_step (suc a) 0, bit_or-zero_below n (suc a / 2) (omega arith))

pub bit_or-zero : (a : ℕ) → bit_or a 0 ≡ a
bit_or-zero a = bit_or-zero_below (suc a) a (omega arith)

-- Fields that do not overlap: their `|` is their sum.
pub bit_or_disjoint : (k q r : ℕ) → r < 2 ^ k → bit_or (q * 2 ^ k) r ≡ q * 2 ^ k + r
bit_or_disjoint zero q zero fits = omega (arith, bit_or-zero (q * 1))
bit_or_disjoint zero q (suc r) fits = absurd (omega arith)
bit_or_disjoint (suc k) q r fits =
    let twice : q * 2 ^ suc k ≡ 2 * (q * 2 ^ k) =
      omega (arith, ap (λ (t : ℕ). q * t) (pow-suc 2 k)) in
    ground (
      arith,
      bit_or_step (q * 2 ^ suc k) r,
      twice,
      pow-suc 2 k,
      bit_or_disjoint k q (r / 2) (omega (arith, pow-suc 2 k)),
    )

-- On two half words C_BIGNUM_DIGIT_COMBINE is positional.
pub combine_lem : (h l : ℕ) → IsHalf h → IsHalf l → combine h l ≡ h * half_base + l
unfolding combine
combine_lem h l hh hl =
    let high : h * half_base % 2 ^ 64 ≡ h * 2 ^ 32 = omega arith in
    let low : l % half_base ≡ l = omega arith in rw (high, low) (bit_or_disjoint 32 h l hl)

pub fix_word_lem : (n : ℕ) → fix_word n ≡ n * 2 % 2 ^ 64 + 1
unfolding fix_word
fix_word_lem n =
    let even : n * 2 % 2 ^ 64 ≡ n % 2 ^ 63 * 2 ^ 1 = omega arith in
    rw even (bit_or_disjoint 1 (n % 2 ^ 63) 1 (omega arith))

bit_or_comm_below : (n a b : ℕ) → a < n → bit_or a b ≡ bit_or b a
bit_or_comm_below zero a b h = elim h [ ]
bit_or_comm_below (suc n) zero b h = omega (arith, zero-bit_or b, bit_or-zero b)
bit_or_comm_below (suc n) (suc a) b h = omega (
  arith,
  bit_or_step (suc a) b,
  bit_or_step b (suc a),
  bit_or_comm_below n (suc a / 2) (b / 2) (omega arith),
)

pub bit_or_comm : (a b : ℕ) → bit_or a b ≡ bit_or b a
bit_or_comm a b = bit_or_comm_below (suc a) a b (omega arith)
