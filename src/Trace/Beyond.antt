-- ===== src/Trace/Beyond.antt =====
-- C_fetch_trace where the start carries the top past the end.
use chicken_core_mirror.Prelude.{
  ℕ, zero, suc, ◌+◌, ◌-◌, ◌*◌, ◌<◌, ◌≤◌, ◌≡◌, ◌≢◌, List, [], ◌∷◌, some, none, length, drop, take,
  get_elem?, Option, true, arith, refl, ap, sym, ◌∙◌,
}
use mathlib.Core.Path.{subst}
use chicken_core_mirror.Trace.{Info, Fetched, fetch_trace, words, panic, outside}
use chicken_core_mirror.Trace.Rings.{IsTrace, contents}
use chicken_core_mirror.Trace.Fetch.{flat, ring, fetch_trace-beyond}

first-take :
    (n : ℕ) (l : List Info) (x : Info)
    → get_elem? l 0 ≡ some x
    → 0 < n
    → get_elem? (take n l) 0 ≡ some x
first-take zero l x e p = absurd (omega arith)
first-take (suc n) [] x e p = e
first-take (suc n) (y ∷ l) x e p = e

get_elem?-take : (n k : ℕ) (l : List Info) → k < n → get_elem? (take n l) k ≡ get_elem? l k
get_elem?-take zero k l p = absurd (omega arith)
get_elem?-take (suc n) zero [] p = refl
get_elem?-take (suc n) (suc k) [] p = refl
get_elem?-take (suc n) zero (x ∷ l) p = refl
get_elem?-take (suc n) (suc k) (x ∷ l) p = get_elem?-take n k l (omega arith)

first-drop : (k : ℕ) (l : List Info) → get_elem? (drop k l) 0 ≡ get_elem? l k
first-drop zero l = refl
first-drop (suc k) [] = refl
first-drop (suc k) (x ∷ l) = first-drop k l

abbrev head_or : ℕ → List ℕ → ℕ
head_or d [] = d
head_or d (x ∷ xs) = x

abbrev tail_of : List ℕ → List ℕ
tail_of [] = []
tail_of (x ∷ xs) = xs

info_of : List ℕ → Info
info_of l = record {
  raw = head_or 0 l;
  cooked1 = head_or 0 (tail_of l);
  cooked2 = head_or 0 (tail_of (tail_of l));
  thread = head_or 0 (tail_of (tail_of (tail_of l)));
}

none_is_not : (x : Info) → none ≡ some x → ⊥
none_is_not x e = subst (λ o. elim o [ none ↦ Unit {0} | some i ↦ ⊥ ]) e tt

fetched_words : Fetched → List ℕ
fetched_words (words ws) = ws
fetched_words panic = []
fetched_words outside = []

-- The words of a list start with those of its first info.
info_of-flat :
    (l : List Info) (x : Info) → get_elem? l 0 ≡ some x → some (info_of (flat l)) ≡ some x
unfolding info_of
info_of-flat [] x e = absurd (none_is_not x e)
info_of-flat (y ∷ l) x e = e

-- Infos whose first one is another have other words.
words-differ :
    (l m : List Info) (x y : Info)
    → get_elem? l 0 ≡ some x
    → get_elem? m 0 ≡ some y
    → x ≢ y
    → words (flat l) ≢ words (flat m)
unfolding fetched_words
words-differ l m x y ex ey n e = n (
    some_inj x y (
      sym (info_of-flat l x ex)
      ∙ ap (λ f. some (info_of (fetched_words f))) e
      ∙ info_of-flat m y ey))
  where
    or_first : Option Info → Info
    or_first none = x
    or_first (some i) = i

    some_inj : (a b : Info) → some a ≡ some b → a ≡ b
    some_inj a b e = ap or_first e

-- Where a start below the number of slots carries the top of a full trace buffer past the end, and
-- the vector has the room, C_fetch_trace writes the infos from the first slot on. When the info in
-- the first slot and the one in the slot by which the end is passed differ, this is not what the
-- buffer holds from the start on.
pub fetch_trace-differs :
    (slots : List Info) (top start room : ℕ) (x y : Info)
    → IsTrace (ring slots top true)
    → length slots < top + start
    → start < length slots
    → (length slots - start) * 4 ≤ room
    → get_elem? slots 0 ≡ some x
    → get_elem? slots (top + start - length slots) ≡ some y
    → x ≢ y
    → (fetch_trace start room (ring slots top true)
        ≡ words (flat (take (length slots - start) slots)))
      × (fetch_trace start room (ring slots top true)
          ≢ words (flat (drop start (contents (ring slots top true)))))
fetch_trace-differs slots top start room x y (p, le) far within fits ex ey n =
    let (read, held) = fetch_trace-beyond slots top start room (p, le) far (omega arith) fits in
    let k = top + start - length slots in
    let first_held : get_elem? (drop k (take top slots)) 0 ≡ some y =
      first-drop k (take top slots) ∙ get_elem?-take top k slots (omega arith) ∙ ey in
    let differ =
      words-differ (take (length slots - start) slots) (drop k (take top slots)) x y
        (first-take (length slots - start) slots x ex (omega arith)) first_held n in
    (read, λ e. differ (sym read ∙ e ∙ ap (λ l. words (flat l)) held))
