-- ===== src/Symbols/Bytes.antt =====
-- Strings compared byte by byte, and the key of a string.
use chicken_core_mirror.Prelude.{
  ℕ, ◌<◌, ◌≡◌, List, [], ◌∷◌, ◌==◌, ==_iff, Bool, true, false, ◌&&◌, refl,
}
use chicken_core_mirror.Symbols.{same_string, hash_string}
use native.Mathlib.Nat.{mod-lt}

and_parts : (a b : Bool) → (a && b) ≡ true → (a ≡ true) × (b ≡ true)
and_parts true b h = (refl, h)
and_parts false b h = absurd (cc)

pub same_string-eq : (s t : List ℕ) → same_string s t ≡ true → s ≡ t
unfolding same_string
same_string-eq [] [] h = refl
same_string-eq [] (d ∷ t) h = absurd (cc)
same_string-eq (c ∷ s) [] h = absurd (cc)
same_string-eq (c ∷ s) (d ∷ t) h =
    let (head, tail) = and_parts (c == d) (same_string s t) h in
    let first : c ≡ d = (==_iff c d).0 head in rw (first, same_string-eq s t tail)

pub same_string_self : (s : List ℕ) → same_string s s ≡ true
unfolding same_string
same_string_self [] = refl
same_string_self (c ∷ s) = rw ((==_iff c c).1 refl, same_string_self s)

pub hash_string-lt : (str : List ℕ) (m r : ℕ) → 0 < m → hash_string str m r < m
unfolding hash_string
hash_string-lt str m r h = mod-lt _ h
