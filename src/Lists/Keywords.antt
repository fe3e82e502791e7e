-- ===== src/Lists/Keywords.antt =====
-- C_i_get_keyword against the elements and the end of the argument list.
use chicken_core_mirror.Prelude.{
  ℕ, zero, suc, ◌<◌, ◌≡◌, List, [], ◌∷◌, Option, none, some, if◌then◌else◌, ◌==◌, length, arith,
  refl, inl, inr, Bool-cases,
}
use chicken_core_mirror.Lists.{Object, immediate, block, pair, word, keyword_turn, get_keyword}
use chicken_core_mirror.Lists.Search.{elements, last_cdr}

-- The element after the first keyword at an even place that is `kw`. When the elements come in
-- pairs and the keyword is not there, the end decides: `none` is that nothing is ever returned.
abbrev pub keyword_in : Object → Object → List Object → Object → Option Object
keyword_in kw def [] (immediate w) = some def
keyword_in kw def [] (block a) = none
keyword_in kw def [] (pair a car cdr) = none
keyword_in kw def (key ∷ []) end = some def
keyword_in kw def (key ∷ value ∷ rest) end =
    let later = keyword_in kw def rest end in if word kw == word key then some value else later

-- C_i_get_keyword, on any argument list without cycles and for any number of turns above the
-- number of elements, returns the element after the first keyword at an even place that is the one
-- looked for, and the default where there is none. Only when the elements come in pairs, without
-- that keyword, and a block that is no pair ends the list, there is no such number of turns after
-- which it returns.
pub get_keyword-keyword_in :
    (turns : ℕ) (kw args def : Object)
    → length (elements args) < turns
    → get_keyword turns kw args def ≡ keyword_in kw def (elements args) (last_cdr args)
unfolding get_keyword keyword_turn
get_keyword-keyword_in zero kw args def h = absurd (omega arith)
get_keyword-keyword_in (suc n) kw (immediate w) def h = refl
get_keyword-keyword_in (suc n) kw (block a) def h = stays n a
  where
    stays : (m b : ℕ) → get_keyword m kw (block b) def ≡ none
    stays zero b = refl
    stays (suc m) b = stays m b
get_keyword-keyword_in (suc n) kw (pair a car (immediate w)) def h =
    elim (Bool-cases (word kw == word car)) [
      | inl e ↦ rw (get_keyword, e)
      | inr e ↦ rw (get_keyword, e)
    ]
get_keyword-keyword_in (suc n) kw (pair a car (block b)) def h =
    elim (Bool-cases (word kw == word car)) [
      | inl e ↦ rw (get_keyword, e)
      | inr e ↦ rw (get_keyword, e)
    ]
get_keyword-keyword_in (suc n) kw (pair a car (pair b value rest)) def h =
    elim (Bool-cases (word kw == word car)) [
      | inl e ↦ rw (get_keyword, e)
      | inr e ↦ rw (get_keyword, e) (get_keyword-keyword_in n kw rest def (omega arith))
    ]
