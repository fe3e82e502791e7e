-- ===== src/Lists/Search.antt =====
-- The searches in lists against the elements and the end of the list.
use chicken_core_mirror.Prelude.{
  ℕ, zero, suc, ◌≡◌, List, [], ◌∷◌, Option, none, some, Bool, if◌then◌else◌, ◌==◌, Bool-cases, inl,
  inr, refl, ◌∙◌,
}
use chicken_core_mirror.Lists.{
  Object, immediate, block, pair, Answer, found, nothing, bad_argument, end_of_list, at_end,
  member_by,
}

abbrev pub elements : Object → List Object
elements (immediate w) = []
elements (block a) = []
elements (pair a car cdr) = car ∷ elements cdr

abbrev pub last_cdr : Object → Object
last_cdr (immediate w) = immediate w
last_cdr (block a) = block a
last_cdr (pair a car cdr) = last_cdr cdr

-- The list without its first `n` elements.
abbrev pub list_tail : ℕ → Object → Object
list_tail zero lst = lst
list_tail (suc n) (immediate w) = immediate w
list_tail (suc n) (block a) = block a
list_tail (suc n) (pair a car cdr) = list_tail n cdr

-- The place of the first element that passes.
abbrev pub position : (Object → Bool) → List Object → Option ℕ
position same [] = none
position same (x ∷ xs) =
    let rest = position same xs in
    if same x then some 0 else elim rest [ none ↦ none | some n ↦ some (suc n) ]

-- What a search without a match answers for the end of a list: #f for the empty list, and the type
-- error that names anything else.
abbrev pub at_the_end : Object → Answer
at_the_end (immediate w) = if w == end_of_list then nothing else bad_argument (immediate w)
at_the_end (block a) = if a == end_of_list then nothing else bad_argument (block a)
at_the_end (pair a car cdr) = bad_argument (pair a car cdr)

-- What a search answers for a place.
abbrev pub answer_at : (ℕ → Object) → Object → Option ℕ → Answer
answer_at at lst none = at_the_end (last_cdr lst)
answer_at at lst (some n) = found (at n)

shift :
    (a : ℕ) (car cdr : Object) (place : Option ℕ)
    → answer_at (λ n. list_tail n cdr) cdr place
      ≡ answer_at
          (λ n. list_tail n (pair a car cdr))
          (pair a car cdr)
          (elim place [ none ↦ none | some n ↦ some (suc n) ])
shift a car cdr none = refl
shift a car cdr (some n) = refl

-- On any list without cycles and with any comparison, the loop of C_i_memv and C_i_member finds
-- the list from the first element that passes on, and where no element passes it answers #f for a
-- proper list and otherwise the type error that names what ends the list.
pub member_by-position :
    (same : Object → Bool) (lst : Object)
    → member_by same lst ≡ answer_at (λ n. list_tail n lst) lst (position same (elements lst))
unfolding member_by at_end
member_by-position same (immediate w) = refl
member_by-position same (block a) = refl
member_by-position same (pair a car cdr) = elim (Bool-cases (same car)) [
  | inl e ↦ rw e
  | inr e ↦ rw e (member_by-position same cdr ∙ shift a car cdr (position same (elements cdr)))
]
