-- ===== src/Examples/Trace.antt =====
-- runtime.c: the trace buffer on a few calls.
use chicken_core_mirror.Prelude.{
  ℕ, ◌+◌, ◌≡◌, List, [], ◌∷◌, length, drop, take, true, ap, ◌≢◌, arith, refl,
}
use chicken_core_mirror.Trace.{
  Info, Trace, words, new_trace_buffer, clear_trace_buffer, uncook_all, emit_trace_info2,
  fetch_trace, fetch_slots, written,
}
use chicken_core_mirror.Trace.Window.{keep_last}
use chicken_core_mirror.Trace.Rings.{IsTrace, contents}
use chicken_core_mirror.Trace.Log.{emit_all, emit_all-keep_last}
use chicken_core_mirror.Trace.Fetch.{flat, ring, fetch_trace-contents}
use chicken_core_mirror.Trace.Beyond.{fetch_trace-differs}

abbrev call : ℕ → Info
call n = record { raw = n; cooked1 = 10 + n; cooked2 = 6; thread = 1 }

abbrev three : Trace
three = record { slots = call 0 ∷ call 0 ∷ call 0 ∷ []; top = 2; full = true }

abbrev calls : List Info
calls = call 1 ∷ call 2 ∷ call 3 ∷ call 4 ∷ []

-- Four calls in a buffer of three: the first is gone.
wraps :
    fetch_trace 0 12 (emit_all calls (new_trace_buffer 0 (call 9)))
    ≡ words (2 ∷ 12 ∷ 6 ∷ 1 ∷ 3 ∷ 13 ∷ 6 ∷ 1 ∷ 4 ∷ 14 ∷ 6 ∷ 1 ∷ [])
unfolding emit_all emit_trace_info2 new_trace_buffer clear_trace_buffer uncook_all fetch_trace
    fetch_slots written
wraps = refl

emit_all-keep_last_example :
    let t' = emit_all calls (clear_trace_buffer three) in
    IsTrace t' × (length t'.slots ≡ 3) × (contents t' ≡ keep_last 3 calls)
emit_all-keep_last_example = emit_all-keep_last calls three (omega arith)

abbrev turned : Trace
turned = record { slots = call 4 ∷ call 2 ∷ call 3 ∷ []; top = 1; full = true }

fetch_trace-contents_example : fetch_trace 1 12 turned ≡ words (flat (drop 1 (contents turned)))
fetch_trace-contents_example =
    fetch_trace-contents turned 1 12 (omega arith, omega arith) (omega arith) (omega arith)
      (omega arith)

-- The last three calls are 3, 4 and 5; from the third on, 4 is fetched, and not 5.
fetch_trace-differs_example :
    let last_three : List Info = call 4 ∷ call 5 ∷ call 3 ∷ [] in
    (fetch_trace 2 12 (ring last_three 2 true) ≡ words (flat (take 1 last_three)))
    × (fetch_trace 2 12 (ring last_three 2 true)
        ≢ words (flat (drop 2 (contents (ring last_three 2 true)))))
fetch_trace-differs_example =
    fetch_trace-differs (call 4 ∷ call 5 ∷ call 3 ∷ []) 2 2 12 (call 4) (call 5)
      (omega arith, omega arith) (omega arith) (omega arith) (omega arith) refl refl
      (λ e. absurd (omega (arith, ap (λ (i : Info). i.raw) e)))
