-- ===== src/Trace/Rings.antt =====
-- C_trace and C_fetch_trace against the window on the log.
use chicken_core_mirror.Prelude.{
  ℕ, zero, suc, ◌<◌, ◌≤◌, ◌≡◌, List, [], ◌∷◌, ◌++◌, some, length, drop, take, set, get_elem?,
  length-append, length-set, if◌then◌else◌, ==_iff, ◌==◌, leb, Bool, true, false, Bool-cases, inl,
  inr, arith, refl, ap, ◌∙◌, sym,
}
use chicken_core_mirror.Trace.{Info, Trace, emit_trace_info2}
use mathlib.Core.List.{append_assoc}
use chicken_core_mirror.Trace.Window.{drop-append, length-drop, drop-drop, slide}

module _ {ℓ} {A : Type ℓ} where
  -- All elements, from place k on and then from the start.
  abbrev pub turn : ℕ → List A → List A
  turn k xs = drop k xs ++ take k xs

-- What the buffer holds, the oldest info first.
abbrev pub contents : Trace → List Info
contents t = if t.full then turn t.top t.slots else take t.top t.slots

abbrev pub IsTrace : Trace → Type 0
IsTrace t = (0 < length t.slots) × (t.top ≤ length t.slots)

module _ {ℓ} {A : Type ℓ} where
  take-set :
      (k : ℕ) (xs : List A) (x : A)
      → k < length xs
      → take (suc k) (set xs k x) ≡ take k xs ++ x ∷ []
  take-set zero [] x h = absurd (omega arith)
  take-set (suc k) [] x h = absurd (omega arith)
  take-set zero (y ∷ xs) x h = refl
  take-set (suc k) (y ∷ xs) x h = ap (λ (t : List A). y ∷ t) (take-set k xs x (omega arith))

  drop-set : (k : ℕ) (xs : List A) (x : A) → drop (suc k) (set xs k x) ≡ drop (suc k) xs
  drop-set k [] x = refl
  drop-set zero (y ∷ xs) x = refl
  drop-set (suc k) (y ∷ xs) x = drop-set k xs x

  pub length-take : (k : ℕ) (xs : List A) → k ≤ length xs → length (take k xs) ≡ k
  length-take zero xs h = refl
  length-take (suc k) [] h = absurd (omega arith)
  length-take (suc k) (x ∷ xs) h = ap suc (length-take k xs (omega arith))

  take-whole : (xs : List A) → take (length xs) xs ≡ xs
  take-whole [] = refl
  take-whole (x ∷ xs) = ap (λ (t : List A). x ∷ t) (take-whole xs)

  pub drop-whole : (xs : List A) → drop (length xs) xs ≡ []
  drop-whole [] = refl
  drop-whole (x ∷ xs) = drop-whole xs

  pub length-turn : (k : ℕ) (xs : List A) → k ≤ length xs → length (turn k xs) ≡ length xs
  length-turn k xs h =
      omega (arith, length-append (drop k xs) (take k xs), length-drop k xs, length-take k xs h)

  drop-turn :
      (k : ℕ) (xs : List A) → k < length xs → drop 1 (turn k xs) ≡ drop (suc k) xs ++ take k xs
  drop-turn k xs h =
      drop-append 1 (drop k xs) (take k xs) (omega (arith, length-drop k xs)) ∙ rw (drop-drop k xs)

  -- The element at a place, and those from it on.
  pub drop-get_elem? :
      (k : ℕ) (xs : List A)
      → k < length xs
      → (x : A) × (get_elem? xs k ≡ some x) × (drop k xs ≡ x ∷ drop (suc k) xs)
  drop-get_elem? zero [] h = absurd (omega arith)
  drop-get_elem? (suc k) [] h = absurd (omega arith)
  drop-get_elem? zero (x ∷ xs) h = (x, refl, refl)
  drop-get_elem? (suc k) (x ∷ xs) h = drop-get_elem? k xs (omega arith)

pub same : (n : ℕ) → (n == n) ≡ true
same n = (==_iff n n).1 refl

not_same : (m n : ℕ) → m < n → (m == n) ≡ false
not_same m n h = ground arith

-- A write in the middle of the ring.
emit_inside :
    (i : Info) (slots : List Info) (top : ℕ) (full : Bool)
    → top < length slots
    → (if full then turn (suc top) (set slots top i) else take (suc top) (set slots top i))
      ≡ slide (length slots) (if full then turn top slots else take top slots) i
emit_inside i slots top true h =
    rw
      (
        length-turn top slots (omega arith),
        same (length slots),
        drop-turn top slots h,
        drop-set top slots i,
        take-set top slots i h,
      )
      (sym (append_assoc (drop (suc top) slots) (take top slots) (i ∷ [])))
emit_inside i slots top false h =
    rw (length-take top slots (omega arith), not_same top (length slots) h) (take-set top slots i h)

-- At the end of the buffer both forms of the contents are the whole buffer.
contents_at_end :
    (slots : List Info) (full : Bool)
    → (if full then turn (length slots) slots else take (length slots) slots) ≡ slots
contents_at_end slots true = rw (drop-whole slots, take-whole slots)
contents_at_end slots false = take-whole slots

emit_at_start :
    (i : Info) (slots : List Info)
    → 0 < length slots
    → turn 1 (set slots 0 i) ≡ drop 1 slots ++ i ∷ []
emit_at_start i [] h = absurd (omega arith)
emit_at_start i (s ∷ slots) h = refl

pub emit-slide :
    (i : Info) (t : Trace)
    → IsTrace t
    → IsTrace (emit_trace_info2 i t)
      × (length (emit_trace_info2 i t).slots ≡ length t.slots)
      × (contents (emit_trace_info2 i t) ≡ slide (length t.slots) (contents t) i)
unfolding emit_trace_info2
emit-slide i t (p, le) = elim (Bool-cases (leb (length t.slots) t.top)) [
  | inl e ↦
      let at_end : t.top ≡ length t.slots = ground arith in
      let l = length-set t.slots 0 i in
      rw (e, at_end, contents_at_end t.slots t.full, same (length t.slots), l)
        ((p, p), refl, emit_at_start i t.slots p)
  | inr e ↦
      let inside : t.top < length t.slots = ground arith in
      let l = length-set t.slots t.top i in
      rw (e, l) ((p, inside), refl, emit_inside i t.slots t.top t.full inside)
]
