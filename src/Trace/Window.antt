-- ===== src/Trace/Window.antt =====
-- The abstract view of the trace buffer: the last infos of a log of all of them.
use chicken_core_mirror.Prelude.{
  ℕ, zero, suc, ◌-◌, ◌<◌, ◌≤◌, ◌≡◌, List, [], ◌∷◌, ◌++◌, length, drop, length-append, if◌then◌else◌,
  ==_iff, ◌==◌, Bool-cases, inl, inr, arith, refl,
}

module _ {ℓ} {A : Type ℓ} where
  -- The last `n` elements.
  abbrev pub keep_last : ℕ → List A → List A
  keep_last n xs = drop (length xs - n) xs

  -- One more element at the end of a window of at most `n`.
  abbrev pub slide : ℕ → List A → A → List A
  slide n xs x = if length xs == n then drop 1 xs ++ x ∷ [] else xs ++ x ∷ []

  pub length-drop : (k : ℕ) (xs : List A) → length (drop k xs) ≡ length xs - k
  length-drop zero xs = omega arith
  length-drop (suc k) [] = omega arith
  length-drop (suc k) (x ∷ xs) = omega (arith, length-drop k xs)

  pub drop-append : (k : ℕ) (xs ys : List A) → k ≤ length xs → drop k (xs ++ ys) ≡ drop k xs ++ ys
  drop-append zero xs ys h = refl
  drop-append (suc k) [] ys h = absurd (omega arith)
  drop-append (suc k) (x ∷ xs) ys h = drop-append k xs ys (omega arith)

  pub drop-drop : (k : ℕ) (xs : List A) → drop 1 (drop k xs) ≡ drop (suc k) xs
  drop-drop zero xs = refl
  drop-drop (suc k) [] = refl
  drop-drop (suc k) (x ∷ xs) = drop-drop k xs

  pub keep_last-length : (n : ℕ) (xs : List A) → length (keep_last n xs) ≤ n
  keep_last-length n xs = omega (arith, length-drop (length xs - n) xs)

  -- The window of a longer log.
  pub keep_last-append :
      (n : ℕ) (xs : List A) (x : A)
      → 0 < n
      → keep_last n (xs ++ x ∷ []) ≡ slide n (keep_last n xs) x
  keep_last-append n xs x h =
      let l = length-append xs (x ∷ []) in
      let k = length-drop (length xs - n) xs in
      elim (Bool-cases (length (keep_last n xs) == n)) [
        | inl e ↦
            let full : length (keep_last n xs) ≡ n = (==_iff (length (keep_last n xs)) n).0 e in
            let more : length (xs ++ x ∷ []) - n ≡ suc (length xs - n) =
              omega (arith, l, k, full) in
            let room : suc (length xs - n) ≤ length xs = omega (arith, k, full) in
            rw (
              e,
              more,
              drop-append (suc (length xs - n)) xs (x ∷ []) room,
              drop-drop (length xs - n) xs,
            )
        | inr e ↦
            let short : length xs - n ≡ 0 = ground (arith, k) in
            let short' : length (xs ++ x ∷ []) - n ≡ 0 = ground (arith, k, l) in
            rw (e, short, short')
      ]
