-- ===== src/Symbols/Twice.antt =====
-- Two calls of C_intern_in, one after the other.
use chicken_core_mirror.Prelude.{
  ℕ, ◌≡◌, ◌==◌, List, Option, some, Bool, true, false, Bool-cases, inl, inr, ==_iff, get_elem?,
  ◌>>=◌, Yields, Yields-bind, Yields-map, refl, ◌∙◌,
}
use chicken_core_mirror.Symbols.{Symbols, IsTable, find_symbol, intern_in, same_string}
use chicken_core_mirror.Symbols.Bytes.{same_string-eq, same_string_self}
use chicken_core_mirror.Symbols.Intern.{Interned, intern_in-Interned, find_symbol-name}

-- A name that is there gives its symbol, and the table stays as it is.
intern_in-found :
    (str : List ℕ) (permanent : Bool) (t : Symbols) (s : ℕ)
    → find_symbol str t ≡ some (some s)
    → intern_in str permanent t ≡ some (s, t)
unfolding intern_in find_symbol
intern_in-found str permanent t s e = rw e

-- Both symbols.
abbrev pub intern_both : List ℕ → List ℕ → Bool → Symbols → Option (ℕ × ℕ)
intern_both str m permanent t = do
  r ← intern_in str permanent t
  r' ← intern_in m permanent r.1
  some (r.0, r'.0)

same_string-sym : (s t : List ℕ) → same_string s t ≡ false → same_string t s ≡ false
same_string-sym s t h = elim (Bool-cases (same_string t s)) [
  | inl e ↦
      let back : same_string s t ≡ true = rw (same_string-eq t s e) (same_string_self s) in
      absurd (cc)
  | inr e ↦ e
]

-- A symbol of another name is another symbol.
apart :
    (str m : List ℕ) (s : ℕ) (r : ℕ × Symbols)
    → same_string m str ≡ false
    → IsTable r.1
    → get_elem? r.1.names r.0 ≡ some m
    → find_symbol str r.1 ≡ some (some s)
    → (s == r.0) ≡ false
apart str m s r differ h named e = elim (Bool-cases (s == r.0)) [
  | inl k ↦
      let it : s ≡ r.0 = (==_iff s r.0).0 k in
      let known : get_elem? r.1.names r.0 ≡ some str = rw (← it) (find_symbol-name r.1 str s h e) in
      let equal : m ≡ str = cc in
      let alike : same_string m str ≡ true = rw equal (same_string_self str) in absurd (cc)
  | inr k ↦ k
]

second :
    (str m : List ℕ) (permanent : Bool) (t : Symbols) (s : ℕ)
    → IsTable t
    → find_symbol str t ≡ some (some s)
    → Yields (intern_in m permanent t) λ r. (s == r.0) ≡ same_string m str
second str m permanent t s h e = elim (Bool-cases (same_string m str)) [
  | inl same ↦
      let equal : m ≡ str = same_string-eq m str same in
      rw (same, equal, intern_in-found str permanent t s e) ((==_iff s s).1 refl)
  | inr differ ↦ rw differ (
      Yields-map (intern_in m permanent t) (Interned m str t) _
        (intern_in-Interned m str permanent t h)
        λ r ok. apart str m s r (differ) ok.0 ok.1 (ok.2 ∙ rw (same_string-sym m str differ) e))
]

-- Two calls of C_intern_in one after the other, on a table whose buckets hold symbols that there
-- are, give the same symbol exactly if the two names are the same.
pub intern_both-same_string :
    (str m : List ℕ) (permanent : Bool) (t : Symbols)
    → IsTable t
    → Yields (intern_both str m permanent t) λ p. (p.0 == p.1) ≡ same_string m str
intern_both-same_string str m permanent t h =
    Yields-bind (intern_in str permanent t) _ (Interned str str t) _
      (intern_in-Interned str str permanent t h)
      λ r ok.
        Yields-bind (intern_in m permanent r.1) _
          (λ (r' : ℕ × Symbols). (r.0 == r'.0) ≡ same_string m str) _
          (second str m permanent r.1 r.0 ok.0 (ok.2 ∙ rw (same_string_self str))) λ r' e. e
