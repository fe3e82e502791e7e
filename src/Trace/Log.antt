-- ===== src/Trace/Log.antt =====
-- The trace buffer after a run of calls.
use chicken_core_mirror.Prelude.{
  ℕ, suc, ◌-◌, ◌<◌, ◌≡◌, List, [], ◌∷◌, ◌++◌, length, arith, refl, ap, ◌∙◌, sym,
}
use chicken_core_mirror.Trace.{Info, Trace, emit_trace_info2, clear_trace_buffer, uncook_all}
use chicken_core_mirror.Trace.Window.{keep_last, keep_last-append}
use chicken_core_mirror.Trace.Rings.{IsTrace, contents, emit-slide}
use mathlib.Core.List.{append_assoc, append-nil}

-- The calls of C_emit_trace_info2, the first one first.
unfoldable pub emit_all : List Info → Trace → Trace
emit_all [] t = t
emit_all (i ∷ is) t = emit_all is (emit_trace_info2 i t)

-- The buffer shows the end of the log.
abbrev pub Shows : Trace → ℕ → List Info → Type 0
Shows t size log = IsTrace t × (length t.slots ≡ size) × (contents t ≡ keep_last size log)

emit_all-Shows :
    (is : List Info) (t : Trace) (size : ℕ) (log : List Info)
    → Shows t size log
    → Shows (emit_all is t) size (log ++ is)
unfolding emit_all
emit_all-Shows [] t size log h = rw (append-nil log) h
emit_all-Shows (i ∷ is) t size log (ok, len, e) =
    let (ok', len', e') = emit-slide i t ok in
    let next : contents (emit_trace_info2 i t) ≡ keep_last size (log ++ i ∷ []) =
      e' ∙ rw (len, e) (sym (keep_last-append size log i (omega (arith, ok, len)))) in
    rw (sym (append_assoc log (i ∷ []) is))
      (emit_all-Shows is (emit_trace_info2 i t) size (log ++ i ∷ []) (ok', len' ∙ len, next))

nothing : (n : ℕ) → keep_last {A = Info} n [] ≡ []
nothing n = let e : 0 - n ≡ 0 = omega arith in rw e

length-uncook_all : (is : List Info) → length (uncook_all is) ≡ length is
unfolding uncook_all
length-uncook_all [] = refl
length-uncook_all (i ∷ is) = ap suc (length-uncook_all is)

-- A cleared buffer shows the empty log.
cleared : (t : Trace) → 0 < length t.slots → Shows (clear_trace_buffer t) (length t.slots) []
unfolding clear_trace_buffer
cleared t h =
    let l = length-uncook_all t.slots in
    ((omega (arith, l), omega arith), l, sym (nothing (length t.slots)))

-- After any run of calls since the trace buffer was cleared, a buffer with a slot or more holds
-- the last infos of the run, the oldest first, as many as it has slots, and its top is within it.
pub emit_all-keep_last :
    (is : List Info) (t : Trace)
    → 0 < length t.slots
    → let t' = emit_all is (clear_trace_buffer t) in
      IsTrace t'
      × (length t'.slots ≡ length t.slots)
      × (contents t' ≡ keep_last (length t.slots) is)
emit_all-keep_last is t h =
    emit_all-Shows is (clear_trace_buffer t) (length t.slots) [] (cleared t h)
