-- ===== src/Trace/Reset.antt =====
-- `Reset` of pkg/bass/trace.go sets the depth and leaves the frames in their slots.
use bass.Prelude.{
  ℕ, zero, suc, ◌+◌, ◌-◌, ◌%◌, ◌≤◌, ◌<◌, ◌≡◌, refl, sym, ap, ◌∙◌, true, Option, none, some, List,
  [], ◌++◌, append-nil, arith,
}
use bass.Trace.Ring.{Trace, trace_size, new_trace, keep, collect, frames_of, is_empty, reset}
use bass.Trace.Window.{Shows, Shows-new, get_elem?-ge}
use bass.Trace.Frames.{Op, run, run-Shows, window_of, keep-append}

module _ {A : Type 0} where
  collect-append :
      (frames : ℕ → Option A) (i n m : ℕ)
      → collect frames i n ++ collect frames (i + n) m ≡ collect frames i (n + m)
  unfolding collect
  collect-append frames i zero m =
      let e : i + 0 ≡ i = omega arith in let z : 0 + m ≡ m = omega arith in rw (e, z)
  collect-append frames i (suc n) m =
      let e : i + suc n ≡ i + 1 + n = omega arith in
      let z : suc n + m ≡ suc (n + m) = omega arith in
      rw (e, z)
        (keep-append (frames i) (collect frames (i + 1) n) (collect frames (i + 1 + n) m)
          ∙ ap (keep (frames i)) (collect-append frames (i + 1) n m))

  collect-eq-nil :
      (frames : ℕ → Option A) (i n : ℕ)
      → ((j : ℕ) → i ≤ j → j < i + n → frames j ≡ none)
      → collect frames i n ≡ []
  unfolding collect
  collect-eq-nil frames i zero h = refl
  collect-eq-nil frames i (suc n) h =
      rw (h i (omega arith) (omega arith))
        (collect-eq-nil frames (i + 1) n (λ j p q. h j (omega arith) (omega arith)))

  collect-zero : (frames : ℕ → Option A) (i : ℕ) → collect frames i 0 ≡ []
  unfolding collect
  collect-zero frames i = refl

  frames_of-reset_lem :
      (trace : Trace A) (w : List A)
      → trace.depth < trace_size
      → Shows trace w
      → frames_of (reset trace) ≡ frames_of trace
  unfolding frames_of reset
  frames_of-reset_lem trace w h s =
      let d = trace.depth in
      let e : d % trace_size ≡ d = omega arith in
      let z : 0 % trace_size ≡ 0 = omega arith in
      let sum : d + (trace_size - d) ≡ trace_size = omega arith in
      let start : 0 + d ≡ d = omega arith in
      let blank : collect trace.frames d (trace_size - d) ≡ [] =
        collect-eq-nil trace.frames d (trace_size - d) (λ j p q.
          let i : (d + (trace_size - 1) - (d + (trace_size - 1) - j)) % trace_size ≡ j =
            omega arith in
          rw i at (
            s.slots (d + (trace_size - 1) - j) (omega arith)
            ∙ get_elem?-ge w (d + (trace_size - 1) - j) (omega (arith, s.below)))) in
      let all : collect trace.frames 0 trace_size
          ≡ collect trace.frames 0 d ++ collect trace.frames d (trace_size - d) =
        rw (sum, start) at (sym (collect-append trace.frames 0 d (trace_size - d))) in
      rw e (
        rw blank (
          ap (λ l. collect trace.frames 0 trace_size ++ l) (collect-zero trace.frames 0)
          ∙ append-nil (collect trace.frames 0 trace_size)
          ∙ all
          ∙ ap (λ l. collect trace.frames 0 d ++ l) blank
          ∙ append-nil (collect trace.frames 0 d)))

  -- A reset trace calls itself empty, but as long as fewer calls were live than the ring has slots,
  -- `Frames` still lists after `Reset` exactly what it listed before.
  pub frames_of-reset :
      (ops : List (Op A)) (trace : Trace A)
      → run ops new_trace ≡ some trace
      → trace.depth < trace_size
      → (frames_of (reset trace) ≡ frames_of trace) × (is_empty (reset trace) ≡ true)
  frames_of-reset ops trace h d = (
    frames_of-reset_lem trace (window_of ops []) d (run-Shows ops new_trace trace [] Shows-new h),
    unfold reset is_empty in refl,
  )
