-- ===== src/Bignum/Comparisons.antt =====
-- C_i_integer_greater_or_equalp and C_i_integer_less_or_equalp, beside the strict comparisons.
use chicken_core_mirror.Prelude.{◌≡◌, Bool, true, false, not, refl, ◌∙◌, ap}
use chicken_core_mirror.Prelude.Int.{ltb_ℤ}
use chicken_core_mirror.Bignum.{
  Integer, fix, big, IsInteger, value, integer_greaterp, integer_lessp, integer_greater_or_equalp,
  integer_less_or_equalp, at_least, at_most, is_less, is_greater, bignum_cmp,
}
use chicken_core_mirror.Bignum.Order.{integer_lessp_lem, integer_greaterp_lem}
use Prim.Native.Nat.{Ordering}

at_least-is_less : (o : Ordering) → at_least o ≡ not (is_less o)
unfolding at_least is_less
at_least-is_less Ordering.lt = refl
at_least-is_less Ordering.eq = refl
at_least-is_less Ordering.gt = refl

at_most-is_greater : (o : Ordering) → at_most o ≡ not (is_greater o)
unfolding at_most is_greater
at_most-is_greater Ordering.lt = refl
at_most-is_greater Ordering.eq = refl
at_most-is_greater Ordering.gt = refl

twice_not : (b : Bool) → b ≡ not (not b)
twice_not true = refl
twice_not false = refl

greater_or_equalp-lessp : (x y : Integer) → integer_greater_or_equalp x y ≡ not (integer_lessp x y)
unfolding integer_greater_or_equalp integer_lessp
greater_or_equalp-lessp (fix x) (fix y) = refl
greater_or_equalp-lessp (fix x) (big n y) = twice_not n
greater_or_equalp-lessp (big m x) (fix y) = refl
greater_or_equalp-lessp (big m x) (big n y) = at_least-is_less (bignum_cmp (m, x) (n, y))

less_or_equalp-greaterp : (x y : Integer) → integer_less_or_equalp x y ≡ not (integer_greaterp x y)
unfolding integer_less_or_equalp integer_greaterp
less_or_equalp-greaterp (fix x) (fix y) = refl
less_or_equalp-greaterp (fix x) (big n y) = refl
less_or_equalp-greaterp (big m x) (fix y) = twice_not m
less_or_equalp-greaterp (big m x) (big n y) = at_most-is_greater (bignum_cmp (m, x) (n, y))

-- C_i_integer_greaterp, C_i_integer_greater_or_equalp and C_i_integer_less_or_equalp on two well-
-- formed integers are the orders of the integers that they stand for.
pub integer_comparisons_lem :
    (x y : Integer)
    → IsInteger x
    → IsInteger y
    → (integer_greaterp x y ≡ ltb_ℤ (value y) (value x))
      × (integer_greater_or_equalp x y ≡ not (ltb_ℤ (value x) (value y)))
      × (integer_less_or_equalp x y ≡ not (ltb_ℤ (value y) (value x)))
integer_comparisons_lem x y hx hy = (
  integer_greaterp_lem x y hx hy,
  greater_or_equalp-lessp x y ∙ ap not (integer_lessp_lem x y hx hy),
  less_or_equalp-greaterp x y ∙ ap not (integer_greaterp_lem x y hx hy),
)
