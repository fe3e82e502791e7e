-- ===== src/Interrupts.antt =====
-- runtime.c: the queue of pending interrupts. The array pending_interrupts is the list of its
-- entries below pending_interrupts_count, the last one first. C_stack_limit is a flag: forced low,
-- so that the next stack check fails, or not.
pub mod Queue
pub mod Drain
use chicken_core_mirror.Prelude.{
  ℕ, ◌<◌, ◌≤◌, ◌≡◌, List, [], ◌∷◌, Option, none, some, Bool, true, false, not, ◌&&◌, ◌==◌, ltb,
  if◌then◌else◌, length,
}

pub record Interrupts : Type 0 where
  pub enabled : Bool
  pub pending : List ℕ
  pub handling : Bool
  pub forced : Bool

-- MAX_PENDING_INTERRUPTS
abbrev pub max_pending : ℕ
max_pending = 100

-- The loop that looks for the reason in the queue.
unfoldable pub is_pending : ℕ → List ℕ → Bool
is_pending reason [] = false
is_pending reason (r ∷ rs) = let rest = is_pending reason rs in if r == reason then true else rest

-- C_raise_interrupt
unfoldable pub raise_interrupt : ℕ → Interrupts → Interrupts
raise_interrupt reason s =
    let queued : Interrupts = record s { pending = reason ∷ s.pending } in
    if s.enabled
    then (if (length s.pending == 0) && not s.handling
        then record queued { forced = true }
        else if ltb (length s.pending) max_pending
        then (if is_pending reason s.pending then s else queued)
        else s)
    else s

-- C_i_pending_interrupt: the reason, or #f.
unfoldable pub pending_interrupt : Interrupts → Option ℕ × Interrupts
pending_interrupt s = elim s.pending [
  | [] ↦ (none, record s { handling = false })
  | r ∷ rs ↦ (some r, record s { pending = rs; handling = true })
]

-- The test of save_and_reclaim, and handle_interrupt up to the call of the hook with the reason.
unfoldable pub handle_interrupt : Interrupts → Option ℕ × Interrupts
handle_interrupt s =
    let take : Option ℕ × Interrupts = elim s.pending [
      | [] ↦ (none, s)
      | r ∷ rs ↦ (some r, record s { pending = rs; forced = false })
    ] in
    if s.enabled then take else (none, s)

-- C_enable_interrupts and C_disable_interrupts
unfoldable pub set_enabled : Bool → Interrupts → Interrupts
set_enabled on s = record s { enabled = on }

-- What happens to the queue, one step at a time.
pub data Step : Interrupts → Interrupts → Type 0 where
  raise : (reason : ℕ) (s : Interrupts) → Step s (raise_interrupt reason s)
  ask : (s : Interrupts) → Step s (pending_interrupt s).1
  handle : (s : Interrupts) → Step s (handle_interrupt s).1
  switch : (on : Bool) (s : Interrupts) → Step s (set_enabled on s)

pub data Reach : Interrupts → Interrupts → Type 0 where
  here : (s : Interrupts) → Reach s s
  next : (s t u : Interrupts) → Step s t → Reach t u → Reach s u

-- Every reason is there once, and the array is not overrun.
abbrev pub Unique : List ℕ → Type 0
Unique [] = Unit
Unique (r ∷ rs) = (is_pending r rs ≡ false) × Unique rs

abbrev pub IsQueue : Interrupts → Type 0
IsQueue s = Unique s.pending × (length s.pending ≤ max_pending)

-- CHICKEN_initialize
abbrev pub at_start : Interrupts
at_start = record { enabled = true; pending = []; handling = false; forced = false }
