-- ===== src/Interrupts/Drain.antt =====
-- The answers of C_i_pending_interrupt, asked again and again.
use chicken_core_mirror.Prelude.{
  ℕ, zero, suc, ◌≡◌, ◌==◌, List, [], ◌∷◌, Option, none, some, Bool, true, false, not, ◌&&◌, ltb,
  length, arith, refl, ap, Bool-cases, inl, inr, ◌<◌,
}
use chicken_core_mirror.Interrupts.{
  Interrupts, max_pending, is_pending, raise_interrupt, pending_interrupt,
}
use chicken_core_mirror.Interrupts.Queue.{state}

-- So many answers, and the state after them.
unfoldable pub ask_times : ℕ → Interrupts → List (Option ℕ) × Interrupts
ask_times zero s = ([], s)
ask_times (suc n) s =
    let (reason, t) = pending_interrupt s in
    let (reasons, u) = ask_times n t in (reason ∷ reasons, u)

-- The reasons, and #f at the end.
abbrev pub answers : List ℕ → List (Option ℕ)
answers [] = none ∷ []
answers (r ∷ rs) = some r ∷ answers rs

drain-fields :
    (enabled : Bool) (p : List ℕ) (handling forced : Bool)
    → ask_times (suc (length p)) (state enabled p handling forced)
      ≡ (answers p, state enabled [] false forced)
unfolding ask_times pending_interrupt
drain-fields enabled [] handling forced = refl
drain-fields enabled (r ∷ p) handling forced =
    ap (λ (q : List (Option ℕ) × Interrupts). (some r ∷ q.0, q.1))
      (drain-fields enabled p true forced)

-- C_i_pending_interrupt, asked once more than there are pending interrupts, answers every pending
-- reason, the last raised first, and then #f, and leaves no interrupt pending and none being
-- handled.
pub ask_times-answers :
    (s : Interrupts)
    → ask_times (suc (length s.pending)) s
      ≡ (answers s.pending, record s { pending = []; handling = false })
ask_times-answers s = drain-fields s.enabled s.pending s.handling s.forced

same : (n : ℕ) → (n == n) ≡ true
same n = ground arith

raised :
    (reason : ℕ) (p : List ℕ) (handling forced : Bool)
    → length p < max_pending
    → is_pending reason (raise_interrupt reason (state true p handling forced)).pending ≡ true
unfolding raise_interrupt
raised reason p handling forced room =
    let found : is_pending reason (reason ∷ p) ≡ true = unfold is_pending in rw (same reason) in
    elim (Bool-cases ((length p == 0) && not handling)) [
      | inl e ↦ rw e found
      | inr e ↦
          let fits : ltb (length p) max_pending ≡ true = ground arith in
          elim (Bool-cases (is_pending reason p)) [
            | inl e' ↦ rw (e, fits, e') e'
            | inr e' ↦ rw (e, fits, e') found
          ]
    ]

by_fields :
    (reason : ℕ) (enabled : Bool) (p : List ℕ) (handling forced : Bool)
    → enabled ≡ true
    → length p < max_pending
    → is_pending reason (raise_interrupt reason (state enabled p handling forced)).pending ≡ true
by_fields reason true p handling forced on room = raised reason p handling forced room
by_fields reason false p handling forced on room = absurd (cc)

-- With interrupts enabled and fewer pending than the array has room for, a reason is pending after
-- C_raise_interrupt, whether it was before or not.
pub raise_interrupt-is_pending :
    (reason : ℕ) (s : Interrupts)
    → s.enabled ≡ true
    → length s.pending < max_pending
    → is_pending reason (raise_interrupt reason s).pending ≡ true
raise_interrupt-is_pending reason s on room =
    by_fields reason s.enabled s.pending s.handling s.forced on room
