-- ===== src/Trace/Fetch.antt =====
-- C_fetch_trace against what the buffer holds.
use chicken_core_mirror.Prelude.{
  ℕ, zero, suc, ◌+◌, ◌-◌, ◌*◌, ◌<◌, ◌≤◌, ◌≡◌, List, [], ◌∷◌, ◌++◌, some, length, drop, take,
  if◌then◌else◌, ◌||◌, ltb, leb, Bool, true, false, arith, refl, ◌∙◌, sym,
}
use chicken_core_mirror.Trace.{Info, Trace, fetch_slots, fetch_trace, words, written}
use chicken_core_mirror.Trace.Window.{drop-append, length-drop}
use chicken_core_mirror.Trace.Rings.{
  IsTrace, contents, turn, drop-get_elem?, length-turn, length-take, drop-whole,
}

-- The four words of every info.
abbrev pub flat : List Info → List ℕ
flat [] = []
flat (i ∷ is) = i.raw ∷ i.cooked1 ∷ i.cooked2 ∷ i.thread ∷ flat is

-- Without a wrap.
straight :
    (slots : List Info) (ptr i : ℕ)
    → ptr + i ≤ length slots
    → fetch_slots slots ptr i ≡ some (flat (take i (drop ptr slots)))
unfolding fetch_slots
straight slots ptr zero h = refl
straight slots ptr (suc i) h =
    let before : leb (length slots) ptr ≡ false = ground arith in
    let (x, found, rest) = drop-get_elem? ptr slots (omega arith) in
    rw (before, found, straight slots (suc ptr) i (omega arith), rest)

-- Past the end the loop goes on at the start.
from_end :
    (slots : List Info) (ptr k : ℕ)
    → length slots ≤ ptr
    → 0 < length slots
    → k ≤ length slots
    → fetch_slots slots ptr k ≡ some (flat (take k slots))
unfolding fetch_slots
from_end slots ptr zero h p l = refl
from_end slots ptr (suc k) h p l =
    let past : leb (length slots) ptr ≡ true = ground arith in
    let before : leb (length slots) 0 ≡ false = ground arith in
    rw past (sym (rw before) ∙ straight slots 0 (suc k) (omega arith))

-- `j` slots up to the end, and `k` from the start.
around :
    (slots : List Info) (j ptr k : ℕ)
    → ptr + j ≡ length slots
    → 0 < length slots
    → k ≤ length slots
    → fetch_slots slots ptr (j + k) ≡ some (flat (drop ptr slots ++ take k slots))
unfolding fetch_slots
around slots zero ptr k h p l =
    let end : ptr ≡ length slots = omega arith in
    let count : 0 + k ≡ k = omega arith in
    rw (count, end, drop-whole slots) (from_end slots (length slots) k (omega arith) p l)
around slots (suc j) ptr k h p l =
    let before : leb (length slots) ptr ≡ false = ground arith in
    let count : suc j + k ≡ suc (j + k) = omega arith in
    let (x, found, rest) = drop-get_elem? ptr slots (omega arith) in
    rw (count, before, found, around slots j (suc ptr) k (omega arith) p l, rest)

module _ {ℓ} {A : Type ℓ} where
  drop-sum : (k j : ℕ) (xs : List A) → drop j (drop k xs) ≡ drop (k + j) xs
  drop-sum zero j xs = let e : 0 + j ≡ j = omega arith in rw e
  drop-sum (suc k) zero [] = let e : suc k + 0 ≡ suc k = omega arith in rw e
  drop-sum (suc k) (suc j) [] = let e : suc k + suc j ≡ suc (k + suc j) = omega arith in rw e
  drop-sum (suc k) j (x ∷ xs) =
      let e : suc k + j ≡ suc (k + j) = omega arith in rw (e, drop-sum k j xs)

  drop-past : (k : ℕ) (xs ys : List A) → length xs ≤ k → drop k (xs ++ ys) ≡ drop (k - length xs) ys
  drop-past k [] ys h = let e : k - 0 ≡ k = omega arith in rw e
  drop-past zero (x ∷ xs) ys h = absurd (omega arith)
  drop-past (suc k) (x ∷ xs) ys h =
      let e : suc k - suc (length xs) ≡ k - length xs = omega arith in
      rw e (drop-past k xs ys (omega arith))

  take_nil : (n : ℕ) → take {A = A} n [] ≡ []
  take_nil zero = refl
  take_nil (suc n) = refl

  drop-take : (k j : ℕ) (xs : List A) → take (k - j) (drop j xs) ≡ drop j (take k xs)
  drop-take k zero xs = let e : k - 0 ≡ k = omega arith in rw e
  drop-take zero (suc j) xs = let e : 0 - suc j ≡ 0 = omega arith in rw e
  drop-take (suc k) (suc j) [] = take_nil (suc k - suc j)
  drop-take (suc k) (suc j) (x ∷ xs) =
      let e : suc k - suc j ≡ k - j = omega arith in rw e (drop-take k j xs)

-- A trace by its fields.
abbrev pub ring : List Info → ℕ → Bool → Trace
ring slots top full = record { slots = slots; top = top; full = full }

fetch_ring :
    (slots : List Info) (top : ℕ) (full : Bool) (start room : ℕ)
    → IsTrace (ring slots top full)
    → (if full then top else 0) + start ≤ length slots
    → start ≤ length (contents (ring slots top full))
    → (length (contents (ring slots top full)) - start) * 4 ≤ room
    → fetch_trace start room (ring slots top full)
      ≡ words (flat (drop start (contents (ring slots top full))))
unfolding fetch_trace written
fetch_ring slots top true start room (p, le) near within fits =
    let whole = length-turn top slots le in
    let filled : (ltb 0 top || true) ≡ true = ground arith in
    let passes : (ltb (length slots) start || ltb room ((length slots - start) * 4)) ≡ false =
      ground (arith, whole) in
    let count : length slots - start ≡ length slots - (top + start) + top = omega arith in
    let read = around slots (length slots - (top + start)) (top + start) top (omega arith) p le in
    let later : drop start (turn top slots) ≡ drop (top + start) slots ++ take top slots =
      drop-append start (drop top slots) (take top slots) (omega (arith, length-drop top slots))
      ∙ rw (drop-sum top start slots) in
    rw (filled, passes, count, read, later)
fetch_ring slots zero false start room (p, le) near within fits =
    let no_start : start ≡ 0 = omega arith in rw no_start
fetch_ring slots (suc top) false start room (p, le) near within fits =
    let whole = length-take (suc top) slots le in
    let filled : (ltb 0 (suc top) || false) ≡ true = ground arith in
    let passes : (ltb (suc top) start || ltb room ((suc top - start) * 4)) ≡ false =
      ground (arith, whole) in
    let from : 0 + start ≡ start = omega arith in
    rw (
      filled,
      passes,
      from,
      straight slots start (suc top - start) (omega (arith, whole)),
      drop-take (suc top) start slots,
    )

-- C_fetch_trace writes the four words of every info that the trace buffer holds from a start on,
-- the oldest first, where the vector has the room, the start is within what the buffer holds and,
-- in a full buffer, the start does not carry the top past the end.
pub fetch_trace-contents :
    (t : Trace) (start room : ℕ)
    → IsTrace t
    → (if t.full then t.top else 0) + start ≤ length t.slots
    → start ≤ length (contents t)
    → (length (contents t) - start) * 4 ≤ room
    → fetch_trace start room t ≡ words (flat (drop start (contents t)))
fetch_trace-contents t = fetch_ring t.slots t.top t.full

-- Where a start within a full trace buffer carries the top past the end, and the vector has the
-- room, C_fetch_trace writes the infos from the first slot on. The infos that the buffer holds from
-- that start on begin at the slot by which the end is passed.
pub fetch_trace-beyond :
    (slots : List Info) (top start room : ℕ)
    → IsTrace (ring slots top true)
    → length slots < top + start
    → start ≤ length slots
    → (length slots - start) * 4 ≤ room
    → (fetch_trace start room (ring slots top true)
        ≡ words (flat (take (length slots - start) slots)))
      × (drop start (contents (ring slots top true))
          ≡ drop (top + start - length slots) (take top slots))
unfolding fetch_trace written
fetch_trace-beyond slots top start room (p, le) far within fits =
    let filled : (ltb 0 top || true) ≡ true = ground arith in
    let passes : (ltb (length slots) start || ltb room ((length slots - start) * 4)) ≡ false =
      ground arith in
    let read = from_end slots (top + start) (length slots - start) (omega arith) p (omega arith) in
    let upper : length (drop top slots) ≡ length slots - top = length-drop top slots in
    let past : drop start (turn top slots)
        ≡ drop (start - length (drop top slots)) (take top slots) =
      drop-past start (drop top slots) (take top slots) (omega (arith, upper)) in
    let count : start - length (drop top slots) ≡ top + start - length slots =
      omega (arith, upper) in
    (rw (filled, passes, read), past ∙ rw count)
