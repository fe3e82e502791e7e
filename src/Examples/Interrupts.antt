-- ===== src/Examples/Interrupts.antt =====
-- runtime.c: the queue of pending interrupts.
use chicken_core_mirror.Prelude.{◌≡◌, [], ◌∷◌, true, false, arith, refl}
use chicken_core_mirror.Interrupts.{
  Interrupts, is_pending, raise_interrupt, here, next, raise, IsQueue, at_start,
}
use chicken_core_mirror.Interrupts.Queue.{at_start-IsQueue}
use chicken_core_mirror.Interrupts.Drain.{
  ask_times, answers, ask_times-answers, raise_interrupt-is_pending,
}

abbrev two_pending : Interrupts
two_pending = record { enabled = true; pending = 9 ∷ 4 ∷ []; handling = false; forced = true }

-- A reason that is there already is not queued again.
once : (raise_interrupt 4 two_pending).pending ≡ 9 ∷ 4 ∷ []
unfolding raise_interrupt is_pending
once = refl

at_start-IsQueue_example : IsQueue (raise_interrupt 9 (raise_interrupt 4 at_start))
at_start-IsQueue_example = at_start-IsQueue (raise_interrupt 9 (raise_interrupt 4 at_start)) (
    next at_start (raise_interrupt 4 at_start) (raise_interrupt 9 (raise_interrupt 4 at_start))
      (raise 4 at_start)
      (next (raise_interrupt 4 at_start) (raise_interrupt 9 (raise_interrupt 4 at_start))
        (raise_interrupt 9 (raise_interrupt 4 at_start)) (raise 9 (raise_interrupt 4 at_start))
        (here (raise_interrupt 9 (raise_interrupt 4 at_start)))))

ask_times-answers_example :
    ask_times 3 two_pending
    ≡ (answers (9 ∷ 4 ∷ []), record two_pending { pending = []; handling = false })
ask_times-answers_example = ask_times-answers two_pending

raise_interrupt-is_pending_example : is_pending 5 (raise_interrupt 5 two_pending).pending ≡ true
raise_interrupt-is_pending_example = raise_interrupt-is_pending 5 two_pending refl (omega arith)
