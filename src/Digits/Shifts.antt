-- ===== src/Digits/Shifts.antt =====
-- Shifts of a digit array by less than a digit.
use chicken_core_mirror.Prelude.{
  ℕ, suc, ◌+◌, ◌-◌, ◌*◌, ◌/◌, ◌%◌, ◌^◌, ◌<◌, ◌≤◌, ◌≡◌, List, [], ◌∷◌, ◌++◌, false, length, arith,
  refl, ap, sym, ◌∙◌,
}
use chicken_core_mirror.Word.{IsWord}
use chicken_core_mirror.Word.Bits.{bit_or_disjoint, bit_or_comm}
use chicken_core_mirror.Word.Length.{two_pow_add}
use chicken_core_mirror.Digits.{magnitude, AreDigits, shift_left, shift_right_loop, shift_right}
use Prim.Native.Nat.{bit_or}
use native.Mathlib.Nat.{
  div-add-mod', mod-lt, div-lt_iff_lt-mul, mul-le-mul_right, mul-div_cancel, one-le-pow,
}

module _ (k m : ℕ) (width : k + m ≡ 64) where
  both : 2 ^ k * 2 ^ m ≡ 2 ^ 64
  both = sym (two_pow_add k m) ∙ rw width

  -- The upper bits of a digit leave it, the lower ones move up by `k`.
  upper_part :
      (d : ℕ)
      → IsWord d
      → (d * 2 ^ k % 2 ^ 64 ≡ d % 2 ^ m * 2 ^ k)
        × (d * 2 ^ k ≡ d / 2 ^ m * 2 ^ 64 + d % 2 ^ m * 2 ^ k)
        × (d % 2 ^ m * 2 ^ k + 2 ^ k ≤ 2 ^ 64)
        × (d / 2 ^ m < 2 ^ k)
  upper_part d h =
      let pos : 0 < 2 ^ m = one-le-pow m 2 (omega arith) in
      let split = ap (λ (t : ℕ). t * 2 ^ k) (sym (div-add-mod' d (2 ^ m))) in
      let over = ap (λ (t : ℕ). d / 2 ^ m * t) both in
      let whole : d * 2 ^ k ≡ d / 2 ^ m * 2 ^ 64 + d % 2 ^ m * 2 ^ k = omega (arith, split, over) in
      let below : suc (d % 2 ^ m) * 2 ^ k ≤ 2 ^ m * 2 ^ k =
        mul-le-mul_right (2 ^ k) (mod-lt d pos) in
      let room : d % 2 ^ m * 2 ^ k + 2 ^ k ≤ 2 ^ 64 = omega (arith, both, below) in
      let top : d / 2 ^ m < 2 ^ k = (div-lt_iff_lt-mul pos).1 (omega (arith, both, h)) in
      let some_bit : 0 < 2 ^ k = one-le-pow k 2 (omega arith) in (omega arith, whole, room, top)

  pub shift_left_round :
      (d c : ℕ)
      → IsWord d
      → c < 2 ^ k
      → (bit_or (d * 2 ^ k % 2 ^ 64) c + 2 ^ 64 * (d / 2 ^ m) ≡ d * 2 ^ k + c)
        × IsWord (bit_or (d * 2 ^ k % 2 ^ 64) c)
  shift_left_round d c h hc =
      let (low, whole, room, top) = upper_part d h in
      rw (low, bit_or_disjoint k (d % 2 ^ m) c hc) (omega arith)

-- The digits and the carry that bignum_digits_destructive_shift_left leaves are the number shifted
-- left by fewer bits than a digit has, plus the carry.
pub shift_left_lem :
    (ds : List ℕ) (shift carry : ℕ)
    → AreDigits ds
    → shift < 64
    → carry < 2 ^ shift
    → let s = shift_left ds shift carry in
      (magnitude (s.0 ++ s.1 ∷ []) ≡ magnitude ds * 2 ^ shift + carry)
      × AreDigits s.0
      × (s.1 < 2 ^ shift)
      × (length s.0 ≡ length ds)
unfolding shift_left
shift_left_lem [] shift carry h hs hc = (omega arith, tt, hc, refl)
shift_left_lem (d ∷ ds) shift carry (hd, h) hs hc =
    let width : shift + (64 - shift) ≡ 64 = omega arith in
    let (round, digit) = shift_left_round shift (64 - shift) width d carry hd hc in
    let top = (upper_part shift (64 - shift) width d hd).3 in
    let (value, digits, last, len) = shift_left_lem ds shift (d / 2 ^ (64 - shift)) h hs top in
    (omega (arith, value, round), (digit, digits), last, omega arith)

-- A number `c` whose lower bits are clear, as the carry of the shift to the right.
abbrev IsUpper : ℕ → ℕ → ℕ → Type 0
IsUpper c k r = (c ≡ r * 2 ^ (64 - k)) × (r < 2 ^ k)

shift_right_round :
    (k d c r : ℕ)
    → k < 64
    → IsWord d
    → IsUpper c k r
    → (bit_or (d / 2 ^ k) c * 2 ^ k + d % 2 ^ k ≡ d + r * 2 ^ 64)
      × IsWord (bit_or (d / 2 ^ k) c)
      × IsUpper (d * 2 ^ (64 - k) % 2 ^ 64) k (d % 2 ^ k)
shift_right_round k d c r hk hd (e, hr) =
    let m = 64 - k in
    let width : m + k ≡ 64 = omega arith in
    let (low, whole, room, top) = upper_part m k width d hd in
    let pos : 0 < 2 ^ k = one-le-pow k 2 (omega arith) in
    let split = div-add-mod' d (2 ^ k) in
    let over = ap (λ (t : ℕ). r * t) (both m k width) in
    let below : suc r * 2 ^ m ≤ 2 ^ k * 2 ^ m = mul-le-mul_right (2 ^ m) hr in
    rw (e, bit_or_comm (d / 2 ^ k) (r * 2 ^ m), bit_or_disjoint m r (d / 2 ^ k) top)
      (omega (arith, split, over), omega (arith, below, both m k width), (low, mod-lt d pos))

shift_right_loop_lem :
    (ds : List ℕ) (k : ℕ)
    → AreDigits ds
    → k < 64
    → let s = shift_right_loop ds k 0 in
      (r : ℕ) × IsUpper s.1 k r
      × (magnitude s.0 * 2 ^ k + r ≡ magnitude ds)
      × AreDigits s.0
      × (length s.0 ≡ length ds)
unfolding shift_right_loop
shift_right_loop_lem [] k h hk =
    (0, (omega arith, one-le-pow k 2 (omega arith)), omega arith, tt, refl)
shift_right_loop_lem (d ∷ ds) k (hd, h) hk =
    let (r, upper, value, digits, len) = shift_right_loop_lem ds k h hk in
    let (round, digit, upper') = shift_right_round k d (shift_right_loop ds k 0).1 r hk hd upper in
    (d % 2 ^ k, upper', omega (arith, value, round), (digit, digits), omega arith)

-- bignum_digits_destructive_shift_right of a number that is not negative divides with remainder by
-- a power of two, the remainder being the bits shifted out.
pub shift_right_lem :
    (ds : List ℕ) (shift : ℕ)
    → AreDigits ds
    → 0 < shift
    → shift < 64
    → let s = shift_right ds shift false in
      (magnitude s.0 * 2 ^ shift + s.1 ≡ magnitude ds)
      × AreDigits s.0
      × (s.1 < 2 ^ shift)
      × (length s.0 ≡ length ds)
unfolding shift_right
shift_right_lem ds shift h positive hs =
    let (r, upper, value, digits, len) = shift_right_loop_lem ds shift h hs in
    let pos : 0 < 2 ^ (64 - shift) = one-le-pow (64 - shift) 2 (omega arith) in
    let out : (shift_right_loop ds shift 0).1 / 2 ^ (64 - shift) ≡ r =
      rw upper.0 (mul-div_cancel r pos) in
    rw out (value, digits, upper.1, len)
