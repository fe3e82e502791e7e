-- ===== src/Overflow/Bits.antt =====
-- C_i_o_fixnum_and, C_i_o_fixnum_ior and C_i_o_fixnum_xor, bit by bit.
use chicken_core_mirror.Prelude.{ℕ, ◌≡◌, some, true, false, ==_iff, refl, ◌∙◌, sym}
use chicken_core_mirror.Word.{bit_at, fix_word, fits_in_fixnum}
use chicken_core_mirror.Word.Bitwise.{
  bit_and-bit, bit_and-lt, bit_or-bit, bit_or-lt, bit_xor-bit, bit_xor-lt,
}
use chicken_core_mirror.Overflow.{
  IsFixnum, top_bits_differ, o_fixnum_and, o_fixnum_ior, o_fixnum_xor,
}
use chicken_core_mirror.Overflow.Sums.{on_fixnums_lem}
use Prim.Native.Nat.{bit_and, bit_or, bit_xor}

-- The two top bits of a fixnum agree.
top_bits : (a : ℕ) → IsFixnum a → bit_at a 63 ≡ bit_at a 62
top_bits a (h, f) = (==_iff (bit_at a 63) (bit_at a 62)).0 (unfold fits_in_fixnum in f)

agree :
    (r : ℕ) → bit_at r 63 ≡ bit_at r 62 → (top_bits_differ r ≡ false) × (fits_in_fixnum r ≡ true)
unfolding top_bits_differ fits_in_fixnum
agree r e = let t = (==_iff (bit_at r 63) (bit_at r 62)).1 e in rw t (refl, refl)

o_fixnum_and_lem :
    (a b : ℕ)
    → IsFixnum a
    → IsFixnum b
    → (o_fixnum_and (fix_word a) (fix_word b) ≡ some (fix_word (bit_and a b)))
      × IsFixnum (bit_and a b)
unfolding o_fixnum_and
o_fixnum_and_lem a b ha hb =
    let same : bit_at (bit_and a b) 63 ≡ bit_at (bit_and a b) 62 =
      bit_and-bit 63 a b ∙ rw (top_bits a ha, top_bits b hb) (sym (bit_and-bit 62 a b)) in
    let (passes, fits) = agree (bit_and a b) same in
    rw (on_fixnums_lem a b _ ha hb, passes) (refl, (bit_and-lt 64 a b ha.0 hb.0, fits))

o_fixnum_ior_lem :
    (a b : ℕ)
    → IsFixnum a
    → IsFixnum b
    → (o_fixnum_ior (fix_word a) (fix_word b) ≡ some (fix_word (bit_or a b)))
      × IsFixnum (bit_or a b)
unfolding o_fixnum_ior
o_fixnum_ior_lem a b ha hb =
    let same : bit_at (bit_or a b) 63 ≡ bit_at (bit_or a b) 62 =
      bit_or-bit 63 a b ∙ rw (top_bits a ha, top_bits b hb) (sym (bit_or-bit 62 a b)) in
    let (passes, fits) = agree (bit_or a b) same in
    rw (on_fixnums_lem a b _ ha hb, passes) (refl, (bit_or-lt 64 a b ha.0 hb.0, fits))

o_fixnum_xor_lem :
    (a b : ℕ)
    → IsFixnum a
    → IsFixnum b
    → (o_fixnum_xor (fix_word a) (fix_word b) ≡ some (fix_word (bit_xor a b)))
      × IsFixnum (bit_xor a b)
unfolding o_fixnum_xor
o_fixnum_xor_lem a b ha hb =
    let same : bit_at (bit_xor a b) 63 ≡ bit_at (bit_xor a b) 62 =
      bit_xor-bit 63 a b ∙ rw (top_bits a ha, top_bits b hb) (sym (bit_xor-bit 62 a b)) in
    let (passes, fits) = agree (bit_xor a b) same in
    rw (on_fixnums_lem a b _ ha hb, passes) (refl, (bit_xor-lt 64 a b ha.0 hb.0, fits))

-- C_i_o_fixnum_and, C_i_o_fixnum_ior and C_i_o_fixnum_xor on two fixnums never answer #f: they
-- give the fixnum of the bits that both have, that one has, and that exactly one has.
pub o_fixnum_bitwise_lem :
    (a b : ℕ)
    → IsFixnum a
    → IsFixnum b
    → ((o_fixnum_and (fix_word a) (fix_word b) ≡ some (fix_word (bit_and a b)))
        × IsFixnum (bit_and a b))
      × ((o_fixnum_ior (fix_word a) (fix_word b) ≡ some (fix_word (bit_or a b)))
          × IsFixnum (bit_or a b))
      × ((o_fixnum_xor (fix_word a) (fix_word b) ≡ some (fix_word (bit_xor a b)))
          × IsFixnum (bit_xor a b))
o_fixnum_bitwise_lem a b ha hb =
    (o_fixnum_and_lem a b ha hb, o_fixnum_ior_lem a b ha hb, o_fixnum_xor_lem a b ha hb)
