-- ===== src/Examples/Lists.antt =====
-- runtime.c: searches in a short list.
use chicken_core_mirror.Prelude.{◌≡◌, ◌==◌, [], ◌∷◌, none, Bool, true, if◌then◌else◌, arith, refl}
use chicken_core_mirror.Lists.{
  Object, immediate, pair, word, found, bad_argument, at_end, member_by, assoc_by, memq, assq,
  end_of_list, block, keyword_turn, get_keyword, Symbol, is_empty, getprop, putprop,
}
use chicken_core_mirror.Lists.Keywords.{keyword_in, get_keyword-keyword_in}
use chicken_core_mirror.Lists.Properties.{IsKept, putprop-getprop}
use chicken_core_mirror.Lists.Search.{
  elements, last_cdr, list_tail, position, answer_at, member_by-position,
}

-- (3 5 7), with the fixnums' tagged words
abbrev three : Object
three =
    pair 800 (immediate 7)
      (pair 816 (immediate 11) (pair 832 (immediate 15) (immediate end_of_list)))

five :
    memq (immediate 11) three
    ≡ found (pair 816 (immediate 11) (pair 832 (immediate 15) (immediate end_of_list)))
unfolding memq member_by
five = refl

improper : memq (immediate 1) (pair 800 (immediate 7) (immediate 9)) ≡ bad_argument (immediate 9)
unfolding memq member_by at_end
improper = refl

not_a_pair : assq (immediate 1) three ≡ bad_argument (immediate 7)
unfolding assq assoc_by
not_a_pair = refl

abbrev is_seven : Object → Bool
is_seven y = word y == 15

member_by-position_example :
    member_by is_seven three
    ≡ answer_at (λ n. list_tail n three) three (position is_seven (elements three))
member_by-position_example = member_by-position is_seven three

-- (1 2 . "x"), of which the loop comes to the string and stays there.
abbrev dotted : Object
dotted = pair 800 (immediate 3) (pair 816 (immediate 5) (block 900))

get_keyword-stays : get_keyword 9 (immediate 7) dotted (immediate 6) ≡ none
unfolding get_keyword keyword_turn
get_keyword-stays = refl

get_keyword-keyword_in_example :
    get_keyword 4 (immediate 7) three (immediate 6)
    ≡ keyword_in (immediate 7) (immediate 6) (elements three) (last_cdr three)
get_keyword-keyword_in_example =
    get_keyword-keyword_in 4 (immediate 7) three (immediate 6) (omega arith)

abbrev two_properties : Symbol
two_properties = record { plist = (11, 3) ∷ (15, 5) ∷ []; persistent = true }

putprop-getprop_example :
    let s = putprop two_properties 15 9 in
    (getprop s.0 11 6 ≡ (if 15 == 11 then 9 else getprop two_properties 11 6))
    × (s.1 ≡ 9)
    × IsKept s.0
putprop-getprop_example = putprop-getprop two_properties 15 9 11 6 (unfold is_empty in refl)
