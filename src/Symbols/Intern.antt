-- ===== src/Symbols/Intern.antt =====
-- C_intern_in and C_find_symbol: a symbol table as a map from names to symbols.
use chicken_core_mirror.Prelude.{
  ℕ, ◌≡◌, ◌≢◌, ◌==◌, List, [], ◌∷◌, ◌++◌, Option, some, Bool, false, Bool-cases, Option-cases,
  ==_iff, inl, inr, length, get_elem?, set, length-append, length-set, get_elem?-set_self,
  get_elem?-set_ne, if◌then◌else◌, Yields, arith, ap, ◌∙◌, sym,
}
use chicken_core_mirror.Symbols.{
  Bucket, Symbols, IsTable, AreSymbols, lookup_chain, lookup, add_symbol, key_of, find_symbol,
  intern_in, same_string,
}
use chicken_core_mirror.Symbols.Bytes.{same_string-eq, hash_string-lt}
use chicken_core_mirror.Symbols.Chains.{
  get_elem?-in, get_elem?-last, All-get_elem?, All-set, All-weaken, lookup_chain-append,
  lookup_chain-name, lookup_chain-ends,
}

-- The chain of a key, and that it holds symbols that there are.
pub chain_at :
    (t : Symbols) (str : List ℕ)
    → IsTable t
    → (bucket : List Bucket) × (get_elem? t.table (key_of str t) ≡ some bucket)
      × AreSymbols (length t.names) bucket
chain_at t str (size, all) =
    let (bucket, e) =
      get_elem?-in t.table (key_of str t) (hash_string-lt str (length t.table) t.rand size) in
    (bucket, e, All-get_elem? (AreSymbols (length t.names)) t.table (key_of str t) bucket all e)

-- A lookup ends in every table, with an answer.
pub find_symbol-ends :
    (t : Symbols) (str : List ℕ) → IsTable t → (found : Option ℕ) × (find_symbol str t ≡ some found)
unfolding find_symbol lookup
find_symbol-ends t str h =
    let (bucket, e, ok) = chain_at t str h in rw e (lookup_chain-ends t.names bucket str ok)

-- A symbol that is found has the name.
pub find_symbol-name :
    (t : Symbols) (str : List ℕ) (s : ℕ)
    → IsTable t
    → find_symbol str t ≡ some (some s)
    → get_elem? t.names s ≡ some str
unfolding find_symbol lookup
find_symbol-name t str s h found =
    let (bucket, e, ok) = chain_at t str h in
    let same : find_symbol str t ≡ lookup_chain t.names bucket str = rw e in
    lookup_chain-name t.names bucket str s (sym same ∙ found)

-- The table with one more symbol.
abbrev with_symbol : List ℕ → Bool → List Bucket → Symbols → Symbols
with_symbol str permanent b2 t = record {
  rand = t.rand;
  table = set t.table (key_of str t) (record { symbol = length t.names; strong = permanent } ∷ b2);
  names = t.names ++ str ∷ [];
}

with_symbol-IsTable :
    (t : Symbols) (str : List ℕ) (permanent : Bool) (b2 : List Bucket)
    → IsTable t
    → AreSymbols (length t.names) b2
    → IsTable (with_symbol str permanent b2 t)
with_symbol-IsTable t str permanent b2 (size, all) ok =
    let n = length t.names in
    let l = length-append t.names (str ∷ []) in
    let more : (bucket : List Bucket)
        → AreSymbols n bucket
        → AreSymbols (length (t.names ++ str ∷ [])) bucket =
      λ bucket. All-weaken _ _ bucket (λ b h. omega (arith, h, l)) in
    (
      omega (
        arith,
        length-set t.table (key_of str t) (record { symbol = n; strong = permanent } ∷ b2),
      ),
      All-set _ t.table (key_of str t) _ (All-weaken _ _ t.table more all)
          (omega (arith, l), more b2 ok),
    )

-- Strings of different keys differ.
other_string :
    (t : Symbols) (m str : List ℕ)
    → (key_of m t == key_of str t) ≡ false
    → same_string m str ≡ false
other_string t m str k = elim (Bool-cases (same_string m str)) [
  | inl e ↦
      let equal : key_of m t ≡ key_of str t =
        ap (λ (s : List ℕ). key_of s t) (same_string-eq m str e) in
      absurd (ground (arith, equal, k))
  | inr e ↦ e
]

-- What is found in the table with one more symbol.
with_symbol-find :
    (t : Symbols) (str m : List ℕ) (permanent : Bool) (b2 : List Bucket)
    → IsTable t
    → get_elem? t.table (key_of str t) ≡ some b2
    → AreSymbols (length t.names) b2
    → find_symbol m (with_symbol str permanent b2 t)
      ≡ (if same_string m str then some (some (length t.names)) else find_symbol m t)
unfolding find_symbol lookup
with_symbol-find t str m permanent b2 h e ok =
    let new : Bucket = record { symbol = length t.names; strong = permanent } in
    let l = length-set t.table (key_of str t) (new ∷ b2) in
    let near = hash_string-lt str (length t.table) t.rand h.0 in
    elim (Bool-cases (key_of m t == key_of str t)) [
      | inl k ↦
          let same : key_of m t ≡ key_of str t = (==_iff (key_of m t) (key_of str t)).0 k in
          rw (l, same, get_elem?-set_self t.table (key_of str t) (new ∷ b2) near, e)
            (unfold lookup_chain in
              rw (get_elem?-last t.names str, lookup_chain-append t.names (str ∷ []) b2 m ok))
      | inr k ↦
          let differ : key_of str t ≢ key_of m t = ground (arith, k) in
          let (bucket, e', ok') = chain_at t m h in
          rw
            (
              l,
              get_elem?-set_ne t.table (key_of str t) (key_of m t) (new ∷ b2) differ,
              other_string t m str k,
              e',
            )
            (lookup_chain-append t.names (str ∷ []) bucket m ok')
    ]

found_again :
    (t : Symbols) (str m : List ℕ) (s : ℕ)
    → find_symbol str t ≡ some (some s)
    → find_symbol m t ≡ (if same_string m str then some (some s) else find_symbol m t)
found_again t str m s it = elim (Bool-cases (same_string m str)) [
  | inl e ↦ rw (e, same_string-eq m str e, it)
  | inr e ↦ rw e
]

-- The whole effect of C_intern_in.
abbrev pub Interned : List ℕ → List ℕ → Symbols → ℕ × Symbols → Type 0
Interned str m t r =
    IsTable r.1
    × (get_elem? r.1.names r.0 ≡ some str)
    × (find_symbol m r.1 ≡ (if same_string m str then some (some r.0) else find_symbol m t))

-- C_intern_in on a table whose buckets hold symbols that there are reads and writes within the
-- table, leaves such a table, gives a symbol of the name asked for, and afterwards C_find_symbol
-- finds that symbol under that name, and under every other name what it found before.
pub intern_in-Interned :
    (str m : List ℕ) (permanent : Bool) (t : Symbols)
    → IsTable t
    → Yields (intern_in str permanent t) (Interned str m t)
unfolding intern_in
intern_in-Interned str m permanent t h =
    let (found, e) = find_symbol-ends t str h in
    let known : lookup (key_of str t) str t ≡ some found = unfold find_symbol in e in
    elim (Option-cases found) [
      | inl miss ↦
          let (bucket, e', ok) = chain_at t str h in
          rw (known, miss)
            (unfold add_symbol in
              rw e' (
                with_symbol-IsTable t str permanent bucket h ok,
                get_elem?-last t.names str,
                with_symbol-find t str m permanent bucket h e' ok,
              ))
      | inr hit ↦
          let it : find_symbol str t ≡ some (some hit.0) = e ∙ rw hit.1 in
          rw (known, hit.1) (h, find_symbol-name t str hit.0 h it, found_again t str m hit.0 it)
    ]
