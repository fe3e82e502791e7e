-- ===== src/Examples/Symbols.antt =====
-- runtime.c: a small symbol table.
use chicken_core_mirror.Prelude.{ℕ, ◌≡◌, ◌==◌, List, [], ◌∷◌, some, false, Yields, arith, refl}
use chicken_core_mirror.Symbols.{
  Symbols, IsTable, intern_in, find_symbol, lookup, lookup_chain, hash_string, hash_loop,
  same_string,
}
use chicken_core_mirror.Symbols.Intern.{Interned, intern_in-Interned}
use chicken_core_mirror.Symbols.Twice.{intern_both, intern_both-same_string}

-- "ab" and "b"
abbrev ab : List ℕ
ab = 97 ∷ 98 ∷ []

abbrev b : List ℕ
b = 98 ∷ []

abbrev one_symbol : Symbols
one_symbol = record {
  rand = 7;
  table = (record { symbol = 0; strong = false } ∷ []) ∷ [] ∷ [];
  names = ab ∷ [];
}

one_symbol-IsTable : IsTable one_symbol
one_symbol-IsTable = (omega arith, ((omega arith, tt), (tt, tt)))

hashed : hash_string ab 2 7 ≡ 0
unfolding hash_string hash_loop
hashed = refl

found : find_symbol ab one_symbol ≡ some (some 0)
unfolding find_symbol lookup lookup_chain hash_string hash_loop same_string
found = refl

intern_in-Interned_example : Yields (intern_in b false one_symbol) (Interned b ab one_symbol)
intern_in-Interned_example = intern_in-Interned b ab false one_symbol one_symbol-IsTable

intern_both-same_string_example :
    Yields (intern_both ab b false one_symbol) λ p. (p.0 == p.1) ≡ same_string b ab
intern_both-same_string_example = intern_both-same_string ab b false one_symbol one_symbol-IsTable
