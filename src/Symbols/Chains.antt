-- ===== src/Symbols/Chains.antt =====
-- The chains of a symbol table: what lookup finds in them.
use chicken_core_mirror.Prelude.{
  ℕ, zero, suc, ◌<◌, ◌≡◌, List, [], ◌∷◌, ◌++◌, Option, none, some, Option-cases, Bool-cases, inl,
  inr, length, get_elem?, set, All, arith, refl, ◌∙◌, sym,
}
use chicken_core_mirror.Symbols.{Bucket, AreSymbols, lookup_chain, same_string}
use chicken_core_mirror.Symbols.Bytes.{same_string-eq}

module _ {ℓ} {A : Type ℓ} where
  pub get_elem?-in : (xs : List A) (i : ℕ) → i < length xs → (x : A) × (get_elem? xs i ≡ some x)
  get_elem?-in [] i h = absurd (omega arith)
  get_elem?-in (x ∷ xs) zero h = (x, refl)
  get_elem?-in (x ∷ xs) (suc i) h = get_elem?-in xs i (omega arith)

  pub get_elem?-append :
      (xs ys : List A) (i : ℕ) → i < length xs → get_elem? (xs ++ ys) i ≡ get_elem? xs i
  get_elem?-append [] ys i h = absurd (omega arith)
  get_elem?-append (x ∷ xs) ys zero h = refl
  get_elem?-append (x ∷ xs) ys (suc i) h = get_elem?-append xs ys i (omega arith)

  pub get_elem?-last : (xs : List A) (y : A) → get_elem? (xs ++ y ∷ []) (length xs) ≡ some y
  get_elem?-last [] y = refl
  get_elem?-last (x ∷ xs) y = get_elem?-last xs y

  pub All-get_elem? {κ} :
      (P : A → Type κ) (xs : List A) (i : ℕ) (x : A) → All P xs → get_elem? xs i ≡ some x → P x
  All-get_elem? P [] i x h e = absurd (cc)
  All-get_elem? P (y ∷ xs) zero x (py, h) e = let same : y ≡ x = cc in rw (← same) py
  All-get_elem? P (y ∷ xs) (suc i) x (py, h) e = All-get_elem? P xs i x h e

  pub All-set {κ} :
      (P : A → Type κ) (xs : List A) (i : ℕ) (x : A) → All P xs → P x → All P (set xs i x)
  All-set P [] i x h p = tt
  All-set P (y ∷ xs) zero x (py, h) p = (p, h)
  All-set P (y ∷ xs) (suc i) x (py, h) p = (py, All-set P xs i x h p)

  pub All-weaken {κ} :
      (P Q : A → Type κ) (xs : List A) → ((x : A) → P x → Q x) → All P xs → All Q xs
  All-weaken P Q [] f h = tt
  All-weaken P Q (x ∷ xs) f (px, h) = (f x px, All-weaken P Q xs f h)

-- More symbols do not change what is found in a chain.
pub lookup_chain-append :
    (names more : List (List ℕ)) (bucket : List Bucket) (str : List ℕ)
    → AreSymbols (length names) bucket
    → lookup_chain (names ++ more) bucket str ≡ lookup_chain names bucket str
unfolding lookup_chain
lookup_chain-append names more [] str h = refl
lookup_chain-append names more (b ∷ bucket) str (hb, h) =
    rw (get_elem?-append names more b.symbol hb, lookup_chain-append names more bucket str h)

-- What is found has the name that was looked for.
pub lookup_chain-name :
    (names : List (List ℕ)) (bucket : List Bucket) (str : List ℕ) (s : ℕ)
    → lookup_chain names bucket str ≡ some (some s)
    → get_elem? names s ≡ some str
unfolding lookup_chain
lookup_chain-name names [] str s h = absurd (cc)
lookup_chain-name names (b ∷ bucket) str s h = elim (Option-cases (get_elem? names b.symbol)) [
  | inl e ↦ let missing : lookup_chain names (b ∷ bucket) str ≡ none = rw e in absurd (cc)
  | inr e ↦ elim (Bool-cases (same_string str e.0)) [
    | inl same ↦
        let found : lookup_chain names (b ∷ bucket) str ≡ some (some b.symbol) = rw (e.1, same) in
        let it : b.symbol ≡ s = cc in rw (← it, e.1, same_string-eq str e.0 same)
    | inr other ↦
        let further : lookup_chain names (b ∷ bucket) str ≡ lookup_chain names bucket str =
          rw (e.1, other) in
        lookup_chain-name names bucket str s (sym further ∙ h)
  ]
]

-- In a chain of symbols that there are, the lookup reads no further.
pub lookup_chain-ends :
    (names : List (List ℕ)) (bucket : List Bucket) (str : List ℕ)
    → AreSymbols (length names) bucket
    → (found : Option ℕ) × (lookup_chain names bucket str ≡ some found)
unfolding lookup_chain
lookup_chain-ends names [] str h = (none, refl)
lookup_chain-ends names (b ∷ bucket) str (hb, h) =
    let (name, e) = get_elem?-in names b.symbol hb in
    let (found, rest) = lookup_chain-ends names bucket str h in
    elim (Bool-cases (same_string str name)) [
      | inl same ↦ (some b.symbol, rw (e, same))
      | inr other ↦ (found, rw (e, other) rest)
    ]
