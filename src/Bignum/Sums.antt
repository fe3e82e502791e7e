-- ===== src/Bignum/Sums.antt =====
-- C_s_a_u_i_integer_plus and C_s_a_u_i_integer_minus against the sum and the difference.
use chicken_core_mirror.Prelude.{ℕ, ◌+◌, ◌≡◌, List, Bool, true, false, arith}
use chicken_core_mirror.Prelude.Int.{sub_ℕ, ◌+ℤ◌, ◌-ℤ◌, signed_magnitude}
use chicken_core_mirror.Word.{add_word, sub_word}
use chicken_core_mirror.Word.Fixnums.{fits_in_fixnum_iff}
use chicken_core_mirror.Digits.{magnitude}
use chicken_core_mirror.Bignum.{
  Integer, fix, big, IsInteger, value, Computes, to_big, add_signed, subtract_signed, integer_plus,
  integer_minus,
}
use chicken_core_mirror.Bignum.Values.{
  IsSigned, signed_value, to_big_lem, fixnum_result_lem, signed-add_word, signed-sub_word,
}
use chicken_core_mirror.Bignum.Unsigned.{bignum_plus_unsigned_lem, bignum_minus_unsigned_lem}

add_signed_lem :
    (x y : Bool × List ℕ)
    → IsSigned x
    → IsSigned y
    → Computes (add_signed x y) (signed_value x +ℤ signed_value y)
unfolding add_signed ◌+ℤ◌
add_signed_lem (true, x) (true, y) (hx, nx) (hy, ny) =
    let z : signed_value (true, x) +ℤ signed_value (true, y)
        ≡ signed_magnitude true (magnitude x + magnitude y) =
      ground arith in
    rw z (bignum_plus_unsigned_lem x y true hx hy)
add_signed_lem (true, x) (false, y) (hx, nx) (hy, ny) =
    let z : signed_value (true, x) +ℤ signed_value (false, y) ≡ sub_ℕ (magnitude y) (magnitude x) =
      ground arith in
    rw z (bignum_minus_unsigned_lem y x hy hx ny nx)
add_signed_lem (false, x) (true, y) (hx, nx) (hy, ny) =
    let z : signed_value (false, x) +ℤ signed_value (true, y) ≡ sub_ℕ (magnitude x) (magnitude y) =
      ground arith in
    rw z (bignum_minus_unsigned_lem x y hx hy nx ny)
add_signed_lem (false, x) (false, y) (hx, nx) (hy, ny) =
    let z : signed_value (false, x) +ℤ signed_value (false, y)
        ≡ signed_magnitude false (magnitude x + magnitude y) =
      ground arith in
    rw z (bignum_plus_unsigned_lem x y false hx hy)

big_plus :
    (x y : Integer)
    → IsInteger x
    → IsInteger y
    → Computes (add_signed (to_big x) (to_big y)) (value x +ℤ value y)
big_plus x y hx hy =
    let (sx, vx) = to_big_lem x hx in
    let (sy, vy) = to_big_lem y hy in rw (← vx, ← vy) (add_signed_lem (to_big x) (to_big y) sx sy)

-- C_s_a_u_i_integer_plus on any two well-formed exact integers reads and writes within its arrays
-- and gives the well-formed integer that is their sum.
pub integer_plus_lem :
    (x y : Integer) → IsInteger x → IsInteger y → Computes (integer_plus x y) (value x +ℤ value y)
unfolding integer_plus
integer_plus_lem (fix x) (fix y) (hx, fx) (hy, fy) =
    let range_x = (fits_in_fixnum_iff x hx).0 fx in
    let range_y = (fits_in_fixnum_iff y hy).0 fy in
    rw (← signed-add_word x y hx hy range_x range_y)
      (fixnum_result_lem (add_word x y) (omega arith))
integer_plus_lem (fix x) (big n y) hx hy = big_plus (fix x) (big n y) hx hy
integer_plus_lem (big m x) (fix y) hx hy = big_plus (big m x) (fix y) hx hy
integer_plus_lem (big m x) (big n y) hx hy = big_plus (big m x) (big n y) hx hy

subtract_signed_lem :
    (x y : Bool × List ℕ)
    → IsSigned x
    → IsSigned y
    → Computes (subtract_signed x y) (signed_value x -ℤ signed_value y)
unfolding subtract_signed ◌-ℤ◌
subtract_signed_lem (true, x) (true, y) (hx, nx) (hy, ny) =
    let z : signed_value (true, x) -ℤ signed_value (true, y) ≡ sub_ℕ (magnitude y) (magnitude x) =
      ground arith in
    rw z (bignum_minus_unsigned_lem y x hy hx ny nx)
subtract_signed_lem (true, x) (false, y) (hx, nx) (hy, ny) =
    let z : signed_value (true, x) -ℤ signed_value (false, y)
        ≡ signed_magnitude true (magnitude x + magnitude y) =
      ground arith in
    rw z (bignum_plus_unsigned_lem x y true hx hy)
subtract_signed_lem (false, x) (true, y) (hx, nx) (hy, ny) =
    let z : signed_value (false, x) -ℤ signed_value (true, y)
        ≡ signed_magnitude false (magnitude x + magnitude y) =
      ground arith in
    rw z (bignum_plus_unsigned_lem x y false hx hy)
subtract_signed_lem (false, x) (false, y) (hx, nx) (hy, ny) =
    let z : signed_value (false, x) -ℤ signed_value (false, y) ≡ sub_ℕ (magnitude x) (magnitude y) =
      ground arith in
    rw z (bignum_minus_unsigned_lem x y hx hy nx ny)

big_minus :
    (x y : Integer)
    → IsInteger x
    → IsInteger y
    → Computes (subtract_signed (to_big x) (to_big y)) (value x -ℤ value y)
big_minus x y hx hy =
    let (sx, vx) = to_big_lem x hx in
    let (sy, vy) = to_big_lem y hy in
    rw (← vx, ← vy) (subtract_signed_lem (to_big x) (to_big y) sx sy)

-- C_s_a_u_i_integer_minus on any two well-formed exact integers reads and writes within its arrays
-- and gives the well-formed integer that is their difference.
pub integer_minus_lem :
    (x y : Integer) → IsInteger x → IsInteger y → Computes (integer_minus x y) (value x -ℤ value y)
unfolding integer_minus
integer_minus_lem (fix x) (fix y) (hx, fx) (hy, fy) =
    let range_x = (fits_in_fixnum_iff x hx).0 fx in
    let range_y = (fits_in_fixnum_iff y hy).0 fy in
    rw (← signed-sub_word x y hx hy range_x range_y)
      (fixnum_result_lem (sub_word x y) (omega arith))
integer_minus_lem (fix x) (big n y) hx hy = big_minus (fix x) (big n y) hx hy
integer_minus_lem (big m x) (fix y) hx hy = big_minus (big m x) (fix y) hx hy
integer_minus_lem (big m x) (big n y) hx hy = big_minus (big m x) (big n y) hx hy
