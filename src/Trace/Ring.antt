-- ===== src/Trace/Ring.antt =====
-- `Trace` of pkg/bass/trace.go. The array of frames is a function of the index; only the indices
-- below `trace_size` are used. A frame (`*Annotate`) is an element of `A`, nil is `none`.
use bass.Prelude.{
  ℕ, zero, suc, ◌+◌, ◌-◌, ◌%◌, Bool, Option, none, some, List, [], ◌∷◌, ◌++◌, ltb, ◌==◌,
  if◌then◌else◌,
}

abbrev pub trace_size : ℕ
trace_size = 1000

pub record Trace (A : Type 0) : Type 0 where
  pub frames : ℕ → Option A
  pub depth : ℕ

abbrev pub new_trace : {A : Type 0} → Trace A
new_trace = record { frames = λ i. none; depth = 0 }

module _ {A : Type 0} where
  abbrev pub update : (ℕ → Option A) → ℕ → Option A → ℕ → Option A
  update f i a j = if i == j then a else f j

  unfoldable pub record_frame : A → Trace A → Trace A
  record_frame frame trace = record {
    frames = update trace.frames (trace.depth % trace_size) (some frame);
    depth = trace.depth + 1;
  }

  unfoldable pub caller : ℕ → Trace A → Option A
  caller offset trace =
      if ltb trace.depth (offset + 1)
      then none
      else trace.frames ((trace.depth - 1 - offset) % trace_size)

  -- One round of the loop of `Pop`.
  unfoldable pub pop_one : Trace A → Trace A
  pop_one trace =
      let depth = trace.depth - 1 in
      record { frames = update trace.frames (depth % trace_size) none; depth = depth }

  unfoldable pub pop_times : ℕ → Trace A → Trace A
  pop_times zero trace = trace
  pop_times (suc n) trace = pop_times n (pop_one trace)

  -- `none` is the panic of a pop that goes too far.
  unfoldable pub pop : ℕ → Trace A → Option (Trace A)
  pop n trace = if ltb trace.depth n then none else some (pop_times n trace)

  unfoldable pub is_empty : Trace A → Bool
  is_empty trace = trace.depth == 0

  abbrev pub keep : Option A → List A → List A
  keep none rest = rest
  keep (some a) rest = a ∷ rest

  -- The frames at the `n` indices from `i` on that are not nil.
  unfoldable pub collect : (ℕ → Option A) → ℕ → ℕ → List A
  collect frames i zero = []
  collect frames i (suc n) = keep (frames i) (collect frames (i + 1) n)

  unfoldable pub frames_of : Trace A → List A
  frames_of trace =
      let offset = trace.depth % trace_size in
      collect trace.frames offset (trace_size - offset) ++ collect trace.frames 0 offset

  unfoldable pub reset : Trace A → Trace A
  reset trace = record trace { depth = 0 }
