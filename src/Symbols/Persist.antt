-- ===== src/Symbols/Persist.antt =====
-- C_i_persist_symbol and the lookups after it.
use chicken_core_mirror.Prelude.{
  ℕ, ◌<◌, ◌≡◌, ◌==◌, List, [], ◌∷◌, some, Bool, true, Bool-cases, inl, inr, ==_iff, length,
  get_elem?, set, length-set, get_elem?-set_self, get_elem?-set_ne, Yields, arith, refl, ◌≢◌,
}
use chicken_core_mirror.Symbols.{
  Bucket, Symbols, IsTable, AreSymbols, lookup_chain, lookup, key_of, find_symbol, mark,
  persist_symbol,
}
use chicken_core_mirror.Symbols.Bytes.{hash_string-lt}
use chicken_core_mirror.Symbols.Chains.{get_elem?-in, All-set}
use chicken_core_mirror.Symbols.Intern.{chain_at}

mark-lookup_chain :
    (names : List (List ℕ)) (s : ℕ) (strong : Bool) (bucket : List Bucket) (str : List ℕ)
    → lookup_chain names (mark s strong bucket) str ≡ lookup_chain names bucket str
unfolding mark lookup_chain
mark-lookup_chain names s strong [] str = refl
mark-lookup_chain names s strong (b ∷ bucket) str = elim (Bool-cases (b.symbol == s)) [
  | inl e ↦ rw e
  | inr e ↦ rw (e, mark-lookup_chain names s strong bucket str)
]

mark-AreSymbols :
    (n s : ℕ) (strong : Bool) (bucket : List Bucket)
    → AreSymbols n bucket
    → AreSymbols n (mark s strong bucket)
unfolding mark
mark-AreSymbols n s strong [] h = tt
mark-AreSymbols n s strong (b ∷ bucket) (hb, h) = elim (Bool-cases (b.symbol == s)) [
  | inl e ↦ rw e (hb, h)
  | inr e ↦ rw e (hb, mark-AreSymbols n s strong bucket h)
]

-- Writing a chain that answers every lookup as the old one does.
set-find :
    (t : Symbols) (key : ℕ) (old new : List Bucket) (m : List ℕ)
    → get_elem? t.table key ≡ some old
    → key < length t.table
    → lookup_chain t.names new m ≡ lookup_chain t.names old m
    → find_symbol m (record t { table = set t.table key new }) ≡ find_symbol m t
unfolding find_symbol lookup
set-find t key old new m e near same =
    let l = length-set t.table key new in
    elim (Bool-cases (key == key_of m t)) [
      | inl k ↦
          let it : key ≡ key_of m t = (==_iff key (key_of m t)).0 k in
          rw (l, ← it, get_elem?-set_self t.table key new near, e) same
      | inr k ↦
          let other : key ≢ key_of m t = ground (arith, k) in
          rw (l, get_elem?-set_ne t.table key (key_of m t) new other)
    ]

pub persist_symbol-find_symbol :
    (s : ℕ) (t : Symbols) (m : List ℕ)
    → IsTable t
    → s < length t.names
    → Yields (persist_symbol s t) λ t'. IsTable t' × (find_symbol m t' ≡ find_symbol m t)
unfolding persist_symbol
persist_symbol-find_symbol s t m h there =
    let (str, named) = get_elem?-in t.names s there in
    let (bucket, e, ok) = chain_at t str h in
    let near = hash_string-lt str (length t.table) t.rand h.0 in
    rw (named, e)
      (
        (
          omega (arith, length-set t.table (key_of str t) (mark s true bucket), h.0),
          All-set _ t.table (key_of str t) _ h.1
              (mark-AreSymbols (length t.names) s true bucket ok),
        ),
        set-find t (key_of str t) bucket (mark s true bucket) m e near
            (mark-lookup_chain t.names s true bucket m),
      )
