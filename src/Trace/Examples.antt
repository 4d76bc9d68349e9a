-- ===== src/Trace/Examples.antt =====
-- Runs of a small trace.
use bass.Prelude.{ℕ, ◌<◌, ◌≡◌, refl, true, some, List, [], ◌∷◌, get_elem?, arith}
use bass.Trace.Ring.{
  Trace, trace_size, new_trace, record_frame, pop_one, caller, pop_times, pop, frames_of, is_empty,
  reset,
}
use bass.Trace.Frames.{Op, push, pops, run, window_of, frames_of-run}
use bass.Trace.Reset.{frames_of-reset}

-- Three calls, two of which have returned.
abbrev three_calls : List (Op ℕ)
three_calls = push 5 ∷ push 6 ∷ pops 1 ∷ push 7 ∷ []

abbrev after_three : Trace ℕ
after_three = record_frame 7 (pop_times 1 (record_frame 6 (record_frame 5 new_trace)))

run-three_calls : run three_calls new_trace ≡ some after_three
unfolding run pop record_frame
run-three_calls = refl

frames_of-run_example :
    (frames_of after_three ≡ 5 ∷ 7 ∷ [])
    × ((offset : ℕ)
        → offset < trace_size
        → caller offset after_three ≡ get_elem? (7 ∷ 5 ∷ []) offset)
unfolding window_of
frames_of-run_example = frames_of-run three_calls after_three run-three_calls

frames_of-reset_example :
    (frames_of (reset after_three) ≡ frames_of after_three) × (is_empty (reset after_three) ≡ true)
frames_of-reset_example =
    frames_of-reset three_calls after_three run-three_calls
      (unfold record_frame pop_times pop_one in omega arith)
