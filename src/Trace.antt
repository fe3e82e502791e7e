-- ===== src/Trace.antt =====
-- runtime.c: the trace buffer, a ring of the last calls. A pointer into the buffer is an index; raw
-- names and cooked values are words, with C_SCHEME_FALSE among them. The debugging output of
-- C_trace and the bucket that it allocates for the profiler are left out.
pub mod Rings
pub mod Window
pub mod Log
pub mod Fetch
pub mod Beyond
use chicken_core_mirror.Prelude.{
  ℕ, zero, suc, ◌+◌, ◌-◌, ◌*◌, List, [], ◌∷◌, Option, none, some, Bool, true, false, ◌||◌, ltb, leb,
  if◌then◌else◌, length, set, replicate, get_elem?, ◌>>=◌,
}

-- TRACE_INFO
pub record Info : Type 0 where
  pub raw : ℕ
  pub cooked1 : ℕ
  pub cooked2 : ℕ
  pub thread : ℕ

-- trace_buffer, trace_buffer_top and trace_buffer_full; C_trace_buffer_size is the buffer's length.
pub record Trace : Type 0 where
  pub slots : List Info
  pub top : ℕ
  pub full : Bool

-- C_SCHEME_FALSE
abbrev pub scheme_false : ℕ
scheme_false = 6

-- MIN_TRACE_BUFFER_SIZE
abbrev pub min_size : ℕ
min_size = 3

-- The write of C_emit_trace_info2, after the wrap to the start of the buffer.
unfoldable pub emit_trace_info2 : Info → Trace → Trace
emit_trace_info2 i t =
    if leb (length t.slots) t.top
    then record { slots = set t.slots 0 i; top = 1; full = true }
    else record { slots = set t.slots t.top i; top = suc t.top; full = t.full }

-- C_trace, with the identity of the current thread.
unfoldable pub trace_call : ℕ → ℕ → Trace → Trace
trace_call name id =
    emit_trace_info2
      (record { raw = name; cooked1 = scheme_false; cooked2 = scheme_false; thread = id })

unfoldable pub uncook_all : List Info → List Info
uncook_all [] = []
uncook_all (i ∷ is) =
    record { raw = i.raw; cooked1 = scheme_false; cooked2 = scheme_false; thread = scheme_false }
    ∷ uncook_all is

-- C_clear_trace_buffer on the buffer that is there.
unfoldable pub clear_trace_buffer : Trace → Trace
clear_trace_buffer t = record { slots = uncook_all t.slots; top = 0; full = false }

-- C_clear_trace_buffer where there is no buffer yet, and C_resize_trace_buffer, which frees the old
-- one first. What malloc leaves in the new slots is `old`.
unfoldable pub new_trace_buffer : ℕ → Info → Trace
new_trace_buffer size old = clear_trace_buffer (record {
  slots = replicate (if ltb size min_size then min_size else size) old;
  top = 0;
  full = false;
})

-- The loop of C_fetch_trace: the words that it writes, four for each of `i` slots.
unfoldable pub fetch_slots : List Info → ℕ → ℕ → Option (List ℕ)
fetch_slots slots ptr zero = some []
fetch_slots slots ptr (suc i) = do
  let ptr = if leb (length slots) ptr then 0 else ptr
  slot ← get_elem? slots ptr
  rest ← fetch_slots slots (suc ptr) i
  some (slot.raw ∷ slot.cooked1 ∷ slot.cooked2 ∷ slot.thread ∷ rest)

-- The result of C_fetch_trace: the words written, or the panic where the buffer is too small. The
-- comparison is of unsigned numbers, so a start beyond the trace is a panic too.
pub data Fetched : Type 0 where
  words : List ℕ → Fetched
  panic : Fetched
  outside : Fetched

unfoldable pub written : Option (List ℕ) → Fetched
written none = outside
written (some ws) = words ws

-- C_fetch_trace, into a vector of `room` words.
unfoldable pub fetch_trace : ℕ → ℕ → Trace → Fetched
fetch_trace start room t =
    let i = if t.full then length t.slots else t.top in
    let ptr = if t.full then t.top else 0 in
    if ltb 0 t.top || t.full
    then (if ltb i start || ltb room ((i - start) * 4)
        then panic
        else written (fetch_slots t.slots (ptr + start) (i - start)))
    else words []
