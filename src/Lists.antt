-- ===== src/Lists.antt =====
-- runtime.c: memq, memv, member, assq, assv and assoc, the keywords of an argument list, and the
-- property list of a symbol, on lists without cycles. A pair has the
-- address by which it is told apart; any other block is its address. The comparison is a parameter
-- of the loops, which memv and assv call with C_i_eqvp, and member and assoc with C_equalp.
pub mod Search
pub mod Keywords
pub mod Properties
use chicken_core_mirror.Prelude.{
  ℕ, zero, suc, List, [], ◌∷◌, Option, none, some, Bool, true, false, ◌==◌, if◌then◌else◌,
}

pub data Object : Type 0 where
  immediate : ℕ → Object
  block : ℕ → Object
  pair : ℕ → Object → Object → Object

-- C_SCHEME_END_OF_LIST
abbrev pub end_of_list : ℕ
end_of_list = 14

-- The word of an object: `==` on C_word compares these.
abbrev pub word : Object → ℕ
word (immediate w) = w
word (block a) = a
word (pair a car cdr) = a

-- The results: what is found, #f, or the type error with the object that it names.
pub data Answer : Type 0 where
  found : Object → Answer
  nothing : Answer
  bad_argument : Object → Answer

-- The test after the loop of every function.
unfoldable pub at_end : Object → Answer
at_end lst = if word lst == end_of_list then nothing else bad_argument lst

-- The loop of C_i_memv and C_i_member.
unfoldable pub member_by : (Object → Bool) → Object → Answer
member_by same (immediate w) = at_end (immediate w)
member_by same (block a) = at_end (block a)
member_by same (pair a car cdr) =
    let rest = member_by same cdr in if same car then found (pair a car cdr) else rest

-- The loop of C_i_assv and C_i_assoc.
unfoldable pub assoc_by : (Object → Bool) → Object → Answer
assoc_by same (immediate w) = at_end (immediate w)
assoc_by same (block a) = at_end (block a)
assoc_by same (pair a (immediate w) cdr) = bad_argument (immediate w)
assoc_by same (pair a (block b) cdr) = bad_argument (block b)
assoc_by same (pair a (pair b key value) cdr) =
    let rest = assoc_by same cdr in if same key then found (pair b key value) else rest

-- C_i_memq and C_i_assq
unfoldable pub memq : Object → Object → Answer
memq x lst = member_by (λ y. word y == word x) lst

unfoldable pub assq : Object → Object → Answer
assq x lst = assoc_by (λ y. word y == word x) lst

-- C_u_i_memq, which does not look at what ends the list.
unfoldable pub u_memq : Object → Object → Answer
u_memq x (immediate w) = nothing
u_memq x (block a) = nothing
u_memq x (pair a car cdr) =
    let rest = u_memq x cdr in if word car == word x then found (pair a car cdr) else rest

-- What one turn of the loop of C_i_get_keyword does: it returns, or goes on with other arguments.
pub data Turn : Type 0 where
  returns : Object → Turn
  goes_on : Object → Turn

-- After a keyword that is the one looked for, and after any other.
keyword_value : Object → Object → Turn
keyword_value def (immediate w) = returns def
keyword_value def (block a) = returns def
keyword_value def (pair a car cdr) = returns car

skip_value : Object → Object → Turn
skip_value def (immediate w) = returns def
skip_value def (block a) = returns def
skip_value def (pair a car cdr) = goes_on cdr

-- One turn; where the arguments are a block that is no pair, nothing changes.
unfoldable pub keyword_turn : Object → Object → Object → Turn
unfolding keyword_value skip_value
keyword_turn kw (immediate w) def = returns def
keyword_turn kw (block a) def = goes_on (block a)
keyword_turn kw (pair a car cdr) def =
    if word kw == word car then keyword_value def cdr else skip_value def cdr

-- C_i_get_keyword, for a number of turns; `none` is that it has not returned yet.
unfoldable pub get_keyword : ℕ → Object → Object → Object → Option Object
unfolding keyword_turn
get_keyword zero kw args def = none
get_keyword (suc turns) kw args def = elim (keyword_turn kw args def) [
  | returns x ↦ some x
  | goes_on rest ↦ get_keyword turns kw rest def
]

-- A symbol: its property list, by the words of the properties, and whether it is kept when nothing
-- refers to it.
pub record Symbol : Type 0 where
  pub plist : List (ℕ × ℕ)
  pub persistent : Bool

-- The loop of C_i_getprop
unfoldable find_property : List (ℕ × ℕ) → ℕ → ℕ → ℕ
find_property [] prop def = def
find_property ((key, value) ∷ pl) prop def =
    let rest = find_property pl prop def in if key == prop then value else rest

-- C_i_getprop
unfoldable pub getprop : Symbol → ℕ → ℕ → ℕ
unfolding find_property
getprop sym prop def = find_property sym.plist prop def

-- The loop of C_putprop, which stores the value in place; `none` is that the property is new.
unfoldable replace_property : List (ℕ × ℕ) → ℕ → ℕ → Option (List (ℕ × ℕ))
replace_property [] prop val = none
replace_property ((key, value) ∷ pl) prop val =
    let rest = replace_property pl prop val in
    if key == prop
    then some ((key, val) ∷ pl)
    else elim rest [ none ↦ none | some new ↦ some ((key, value) ∷ new) ]

unfoldable pub is_empty : List (ℕ × ℕ) → Bool
is_empty [] = true
is_empty (p ∷ pl) = false

-- The stores at the end of C_putprop, and the value that is returned.
unfoldable store_property : Bool → List (ℕ × ℕ) → ℕ → ℕ → Option (List (ℕ × ℕ)) → Symbol × ℕ
store_property kept pl prop val none = (record { plist = (prop, val) ∷ pl; persistent = kept }, val)
store_property kept pl prop val (some new) = (record { plist = new; persistent = kept }, val)

-- C_putprop: the symbol, and the value that is returned.
unfoldable pub putprop : Symbol → ℕ → ℕ → Symbol × ℕ
unfolding replace_property is_empty store_property
putprop sym prop val =
    let kept : Bool = if is_empty sym.plist then true else sym.persistent in
    store_property kept sym.plist prop val (replace_property sym.plist prop val)
