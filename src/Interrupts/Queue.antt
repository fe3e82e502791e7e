-- ===== src/Interrupts/Queue.antt =====
-- The queue of pending interrupts in every state that is reached.
use chicken_core_mirror.Prelude.{
  ℕ, suc, ◌≤◌, ◌≡◌, List, [], ◌∷◌, Bool, true, false, not, ◌&&◌, ◌==◌, ltb, if◌then◌else◌, length,
  Bool-cases, inl, inr, arith, refl,
}
use chicken_core_mirror.Interrupts.{
  Interrupts, max_pending, is_pending, raise_interrupt, pending_interrupt, handle_interrupt,
  set_enabled, Step, raise, ask, handle, switch, Reach, here, next, Unique, IsQueue, at_start,
}

abbrev IsGood : List ℕ → Type 0
IsGood p = Unique p × (length p ≤ max_pending)

-- A state by its fields.
abbrev pub state : Bool → List ℕ → Bool → Bool → Interrupts
state enabled pending handling forced = record {
  enabled = enabled;
  pending = pending;
  handling = handling;
  forced = forced;
}

queue :
    (reason : ℕ) (p : List ℕ) (handling forced : Bool)
    → IsGood p
    → IsQueue (
        if ltb (length p) max_pending
        then (if is_pending reason p
            then state true p handling forced
            else state true (reason ∷ p) handling forced)
        else state true p handling forced)
queue reason p handling forced (u, l) = elim (Bool-cases (ltb (length p) max_pending)) [
  | inl e ↦ elim (Bool-cases (is_pending reason p)) [
    | inl e' ↦ rw (e, e') (u, l)
    | inr e' ↦ rw (e, e') ((e', u), ground arith)
  ]
  | inr e ↦ rw e (u, l)
]

-- Nothing is pending where the first test of C_raise_interrupt passes.
push_first :
    (reason : ℕ) (handling : Bool) (p : List ℕ)
    → ((length p == 0) && not handling) ≡ true
    → IsGood (reason ∷ p)
unfolding is_pending
push_first reason handling [] e = ((refl, tt), omega arith)
push_first reason handling (r ∷ p) e =
    let some_pending : (suc (length p) == 0) ≡ false = ground arith in
    let fails : ((suc (length p) == 0) && not handling) ≡ false = rw some_pending in absurd (cc)

raise-fields :
    (reason : ℕ) (enabled : Bool) (p : List ℕ) (handling forced : Bool)
    → IsGood p
    → IsQueue (raise_interrupt reason (state enabled p handling forced))
unfolding raise_interrupt
raise-fields reason false p handling forced h = h
raise-fields reason true p handling forced h = elim (Bool-cases ((length p == 0) && not handling)) [
  | inl e ↦ rw e (push_first reason handling p e)
  | inr e ↦ rw e (queue reason p handling forced h)
]

tail-IsGood : (r : ℕ) (p : List ℕ) → IsGood (r ∷ p) → IsGood p
tail-IsGood r p ((new, u), l) = (u, omega arith)

ask-fields :
    (enabled : Bool) (p : List ℕ) (handling forced : Bool)
    → IsGood p
    → IsQueue (pending_interrupt (state enabled p handling forced)).1
unfolding pending_interrupt
ask-fields enabled [] handling forced h = h
ask-fields enabled (r ∷ p) handling forced h = tail-IsGood r p h

handle-fields :
    (enabled : Bool) (p : List ℕ) (handling forced : Bool)
    → IsGood p
    → IsQueue (handle_interrupt (state enabled p handling forced)).1
unfolding handle_interrupt
handle-fields false p handling forced h = h
handle-fields true [] handling forced h = h
handle-fields true (r ∷ p) handling forced h = tail-IsGood r p h

Step-IsQueue : (s t : Interrupts) → Step s t → IsQueue s → IsQueue t
unfolding set_enabled
Step-IsQueue _ _ (raise reason s) h = raise-fields reason s.enabled s.pending s.handling s.forced h
Step-IsQueue _ _ (ask s) h = ask-fields s.enabled s.pending s.handling s.forced h
Step-IsQueue _ _ (handle s) h = handle-fields s.enabled s.pending s.handling s.forced h
Step-IsQueue _ _ (switch on s) h = h

Reach-IsQueue : (s t : Interrupts) → Reach s t → IsQueue s → IsQueue t
Reach-IsQueue _ _ (here s) h = h
Reach-IsQueue _ _ (next s t u step rest) h = Reach-IsQueue t u rest (Step-IsQueue s t step h)

-- In every state that raising, asking for, handling, enabling and disabling interrupts reaches
-- from the start, in any order, every pending reason is in the queue once and the queue is within
-- its array.
pub at_start-IsQueue : (s : Interrupts) → Reach at_start s → IsQueue s
at_start-IsQueue s r = Reach-IsQueue at_start s r (tt, omega arith)
