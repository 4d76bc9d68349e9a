-- ===== src/Trace/Frames.antt =====
-- `Frames` of pkg/bass/trace.go lists the window, the oldest frame first, and `Reset` does not
-- empty it.
use mathlib.Core.List.{reverse, reverse-append}
use mathlib.Core.Path.{ap₂}
use mathlib.Core.Option.{some-injective}
use mathlib.Core.Path.{subst}
use native.Mathlib.Decide.{dec_lt}
use bass.Prelude.{
  ℕ, zero, suc, ◌+◌, ◌-◌, ◌%◌, ◌≤◌, ◌<◌, ◌≡◌, ◌≢◌, refl, sym, ap, ◌∙◌, Option, none, some, List, [],
  ◌∷◌, ◌++◌, length, get_elem?, arith,
}
use bass.Trace.Ring.{
  Trace, trace_size, new_trace, record_frame, caller, pop_times, pop, keep, collect, frames_of,
}
use bass.Trace.Window.{
  Shows, take, drop, Shows-new, Shows-record_frame, Shows-pop_times, caller-eq-get_elem?,
}

module _ {A : Type 0} where
  -- The entries of a list from `age - 1` down to `age - n`, those that are there.
  ages : List A → ℕ → ℕ → List A
  ages w age zero = []
  ages w zero (suc n) = []
  ages w (suc age) (suc n) = keep (get_elem? w age) (ages w age n)

  pub keep-append : (o : Option A) (xs ys : List A) → keep o xs ++ ys ≡ keep o (xs ++ ys)
  keep-append none xs ys = refl
  keep-append (some a) xs ys = refl

  ages-append :
      (w : List A) (age n m : ℕ) → n ≤ age → ages w age n ++ ages w (age - n) m ≡ ages w age (n + m)
  unfolding ages
  ages-append w age zero m h =
      (let e : age - 0 ≡ age = omega arith in let z : 0 + m ≡ m = omega arith in rw (e, z))
  ages-append w zero (suc n) m h = absurd (omega arith)
  ages-append w (suc age) (suc n) m h =
      let e : suc age - suc n ≡ age - n = omega arith in
      let z : suc n + m ≡ suc (n + m) = omega arith in
      rw (e, z)
        (keep-append (get_elem? w age) (ages w age n) (ages w (age - n) m)
          ∙ ap (keep (get_elem? w age)) (ages-append w age n m (omega arith)))

  keep-eq-append : (o : Option A) (xs : List A) → keep o xs ≡ reverse (keep o []) ++ xs
  keep-eq-append none xs = refl
  keep-eq-append (some a) xs = refl

  take-suc : (n : ℕ) (w : List A) → take n w ++ keep (get_elem? w n) [] ≡ take (suc n) w
  take-suc zero [] = refl
  take-suc zero (x ∷ w) = refl
  take-suc (suc n) [] = refl
  take-suc (suc n) (x ∷ w) = ap (λ l. x ∷ l) (take-suc n w)

  take-eq_self : (n : ℕ) (w : List A) → length w ≤ n → take n w ≡ w
  take-eq_self zero [] h = refl
  take-eq_self zero (x ∷ w) h = absurd (omega arith)
  take-eq_self (suc n) [] h = refl
  take-eq_self (suc n) (x ∷ w) h = ap (λ l. x ∷ l) (take-eq_self n w (omega arith))

  ages-eq-reverse : (w : List A) (n : ℕ) → ages w n n ≡ reverse (take n w)
  unfolding ages
  ages-eq-reverse w zero = refl
  ages-eq-reverse w (suc n) =
      ap (keep (get_elem? w n)) (ages-eq-reverse w n)
      ∙ keep-eq-append (get_elem? w n) (reverse (take n w))
      ∙ sym (reverse-append (take n w) (keep (get_elem? w n) []))
      ∙ ap reverse (take-suc n w)

  collect-eq-ages :
      (frames : ℕ → Option A) (w : List A) (i age n : ℕ)
      → n ≤ age
      → ((j : ℕ) → j < n → frames (i + j) ≡ get_elem? w (age - 1 - j))
      → collect frames i n ≡ ages w age n
  unfolding collect ages
  collect-eq-ages frames w i age zero h f = refl
  collect-eq-ages frames w i zero (suc n) h f = absurd (omega arith)
  collect-eq-ages frames w i (suc age) (suc n) h f =
      let z : i + 0 ≡ i = omega arith in
      let a : suc age - 1 - 0 ≡ age = omega arith in
      let first : frames i ≡ get_elem? w age = rw (z, a) at (f 0 (omega arith)) in
      rw first (
        ap (keep (get_elem? w age)) (
          collect-eq-ages frames w (i + 1) age n (omega arith)
            (λ j h'. shift j h' (f (suc j) (omega arith)))))
    where
      shift :
          (j : ℕ)
          → j < n
          → frames (i + suc j) ≡ get_elem? w (suc age - 1 - suc j)
          → frames (i + 1 + j) ≡ get_elem? w (age - 1 - j)
      shift j h' e =
          let l : i + suc j ≡ i + 1 + j = omega arith in
          let r : suc age - 1 - suc j ≡ age - 1 - j = omega arith in rw (l, r) at e

  pub frames_of-eq-reverse :
      (trace : Trace A) (w : List A) → Shows trace w → frames_of trace ≡ reverse w
  unfolding frames_of
  frames_of-eq-reverse trace w s =
      let offset = trace.depth % trace_size in
      ap₂ (λ (xs ys : List A). xs ++ ys)
        (collect-eq-ages trace.frames w offset trace_size (trace_size - offset) (omega arith)
          (λ j h.
            let e : (trace.depth + (trace_size - 1) - (trace_size - 1 - j)) % trace_size
                ≡ trace.depth % trace_size + j =
              omega arith in
            rw e at (s.slots (trace_size - 1 - j) (omega arith))))
        (collect-eq-ages trace.frames w 0 (trace_size - (trace_size - offset)) offset (omega arith)
          (λ j h.
            let a : trace_size - (trace_size - trace.depth % trace_size) - 1 - j
                ≡ trace.depth % trace_size - 1 - j =
              omega arith in
            let e : (trace.depth + (trace_size - 1) - (trace.depth % trace_size - 1 - j))
                  % trace_size
                ≡ 0 + j =
              omega arith in
            rw a (rw e at (s.slots (trace.depth % trace_size - 1 - j) (omega arith)))))
      ∙ ages-append w trace_size (trace_size - offset) offset (omega arith)
      ∙ (let e : trace_size - trace.depth % trace_size + trace.depth % trace_size ≡ trace_size =
            omega arith in
          rw e (ages-eq-reverse w trace_size ∙ ap reverse (take-eq_self trace_size w s.within)))

-- The calls that a program makes on its trace.
pub data Op (A : Type 0) : Type 0 where
  push : A → Op A
  pops : ℕ → Op A

module _ {A : Type 0} where
  -- `none` if a pop panics.
  unfoldable pub run : List (Op A) → Trace A → Option (Trace A)
  run [] trace = some trace
  run (push a ∷ ops) trace = run ops (record_frame a trace)
  run (pops n ∷ ops) trace = elim (pop n trace) [ none ↦ none | some trace' ↦ run ops trace' ]

  -- The specification: a stack that forgets its oldest entries past the trace's size.
  unfoldable pub window_of : List (Op A) → List A → List A
  window_of [] w = w
  window_of (push a ∷ ops) w = window_of ops (take trace_size (a ∷ w))
  window_of (pops n ∷ ops) w = window_of ops (drop n w)

  pop-eq-some : (n : ℕ) (trace : Trace A) → n ≤ trace.depth → pop n trace ≡ some (pop_times n trace)
  unfolding pop
  pop-eq-some n trace h = ground arith

  pop-eq-none : (n : ℕ) (trace : Trace A) → trace.depth < n → pop n trace ≡ none
  unfolding pop
  pop-eq-none n trace h = ground arith

  none_ne_some : {a : Trace A} → none ≢ some a
  none_ne_some h = cc

  pub run-Shows :
      (ops : List (Op A)) (trace trace' : Trace A) (w : List A)
      → Shows trace w
      → run ops trace ≡ some trace'
      → Shows trace' (window_of ops w)
  unfolding run window_of
  run-Shows [] trace trace' w s h = subst (λ t. Shows t w) (some-injective trace trace' h) s
  run-Shows (push a ∷ ops) trace trace' w s h =
      run-Shows ops (record_frame a trace) trace' (take trace_size (a ∷ w))
        (Shows-record_frame trace w a s) h
  run-Shows (pops n ∷ ops) trace trace' w s h = elim (dec_lt trace.depth n) [
    | yes p ↦ absurd (none_ne_some (rw (pop-eq-none n trace p, run) at h))
    | no p ↦
        run-Shows ops (pop_times n trace) trace' (drop n w)
          (Shows-pop_times n trace w (omega arith) s)
          (rw (pop-eq-some n trace (omega arith), run) at h)
  ]

  -- After any calls of `Record` and `Pop` on a new trace, none of which panics, `Frames` lists the
  -- frames that a stack of the last `trace_size` records holds, the oldest first, and `Caller` finds
  -- the frame at each offset below `trace_size`, or nil where the stack has none.
  pub frames_of-run :
      (ops : List (Op A)) (trace : Trace A)
      → run ops new_trace ≡ some trace
      → (frames_of trace ≡ reverse (window_of ops []))
        × ((offset : ℕ)
            → offset < trace_size
            → caller offset trace ≡ get_elem? (window_of ops []) offset)
  frames_of-run ops trace h =
      let s = run-Shows ops new_trace trace [] Shows-new h in
      (
        frames_of-eq-reverse trace (window_of ops []) s,
        λ offset p. caller-eq-get_elem? offset trace (window_of ops []) p s,
      )
