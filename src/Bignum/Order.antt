-- ===== src/Bignum/Order.antt =====
-- The comparisons of exact integers: C_i_integer_equalp, C_i_integer_greaterp, C_i_integer_lessp.
use chicken_core_mirror.Prelude.{ℕ, ◌≡◌, ◌↔◌, List, Bool, true, false, arith}
use chicken_core_mirror.Prelude.Int.{ltb_ℤ}
use chicken_core_mirror.Word.{fits_in_fixnum}
use chicken_core_mirror.Digits.{magnitude, cmp_unsigned}
use chicken_core_mirror.Digits.Order.{cmp_unsigned-eq-compare}
use chicken_core_mirror.Bignum.{
  Integer, fix, big, IsInteger, value, integer_equalp, integer_greaterp, integer_lessp,
}
use Prim.Native.Nat.{compare}

cmp_lem :
    (x y : List ℕ) (m n : Bool)
    → IsInteger (big m x)
    → IsInteger (big n y)
    → cmp_unsigned x y ≡ compare (magnitude x) (magnitude y)
cmp_lem x y m n (hx, tx, lx) (hy, ty, ly) = cmp_unsigned-eq-compare x y hx hy tx ty

-- C_i_integer_lessp on two well-formed integers is the order of the integers that they stand for.
pub integer_lessp_lem :
    (x y : Integer) → IsInteger x → IsInteger y → integer_lessp x y ≡ ltb_ℤ (value x) (value y)
unfolding integer_lessp fits_in_fixnum
integer_lessp_lem (fix x) (fix y) (hx, fx) (hy, fy) = ground arith
integer_lessp_lem (fix x) (big true y) (hx, fx) (hy, ty, ly) = ground arith
integer_lessp_lem (fix x) (big false y) (hx, fx) (hy, ty, ly) = ground arith
integer_lessp_lem (big true x) (fix y) (hx, tx, lx) (hy, fy) = ground arith
integer_lessp_lem (big false x) (fix y) (hx, tx, lx) (hy, fy) = ground arith
integer_lessp_lem (big true x) (big true y) hx hy = ground (arith, cmp_lem y x true true hy hx)
integer_lessp_lem (big true x) (big false y) hx hy = ground arith
integer_lessp_lem (big false x) (big true y) hx hy = ground arith
integer_lessp_lem (big false x) (big false y) hx hy = ground (arith, cmp_lem x y false false hx hy)

pub integer_greaterp_lem :
    (x y : Integer) → IsInteger x → IsInteger y → integer_greaterp x y ≡ ltb_ℤ (value y) (value x)
unfolding integer_greaterp fits_in_fixnum
integer_greaterp_lem (fix x) (fix y) (hx, fx) (hy, fy) = ground arith
integer_greaterp_lem (fix x) (big true y) (hx, fx) (hy, ty, ly) = ground arith
integer_greaterp_lem (fix x) (big false y) (hx, fx) (hy, ty, ly) = ground arith
integer_greaterp_lem (big true x) (fix y) (hx, tx, lx) (hy, fy) = ground arith
integer_greaterp_lem (big false x) (fix y) (hx, tx, lx) (hy, fy) = ground arith
integer_greaterp_lem (big true x) (big true y) hx hy = ground (arith, cmp_lem y x true true hy hx)
integer_greaterp_lem (big true x) (big false y) hx hy = ground arith
integer_greaterp_lem (big false x) (big true y) hx hy = ground arith
integer_greaterp_lem (big false x) (big false y) hx hy =
    ground (arith, cmp_lem x y false false hx hy)

-- C_i_integer_equalp on two well-formed integers answers true exactly if they stand for the same
-- integer.
pub integer_equalp_iff :
    (x y : Integer) → IsInteger x → IsInteger y → (integer_equalp x y ≡ true) ↔ (value x ≡ value y)
unfolding integer_equalp fits_in_fixnum
integer_equalp_iff (fix x) (fix y) (hx, fx) (hy, fy) = (λ e. ground arith, λ e. ground arith)
integer_equalp_iff (fix x) (big true y) (hx, fx) (hy, ty, ly) =
    (λ e. ground arith, λ e. ground arith)
integer_equalp_iff (fix x) (big false y) (hx, fx) (hy, ty, ly) =
    (λ e. ground arith, λ e. ground arith)
integer_equalp_iff (big true x) (fix y) (hx, tx, lx) (hy, fy) =
    (λ e. ground arith, λ e. ground arith)
integer_equalp_iff (big false x) (fix y) (hx, tx, lx) (hy, fy) =
    (λ e. ground arith, λ e. ground arith)
integer_equalp_iff (big true x) (big true y) hx hy =
    let c = cmp_lem y x true true hy hx in (λ e. ground (arith, c), λ e. ground (arith, c))
integer_equalp_iff (big true x) (big false y) hx hy = (λ e. ground arith, λ e. ground arith)
integer_equalp_iff (big false x) (big true y) hx hy = (λ e. ground arith, λ e. ground arith)
integer_equalp_iff (big false x) (big false y) hx hy =
    let c = cmp_lem x y false false hx hy in (λ e. ground (arith, c), λ e. ground (arith, c))
