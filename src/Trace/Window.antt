-- ===== src/Trace/Window.antt =====
-- The ring against the window that it stands for: the frames of the live calls, the newest first,
-- of which only the last `trace_size` are kept.
use native.Mathlib.Decide.{dec_lt}
use bass.Prelude.{
  ℕ, zero, suc, ◌+◌, ◌-◌, ◌%◌, ◌≤◌, ◌<◌, ◌≡◌, ◌≢◌, refl, sym, ◌∙◌, Option, none, some, List, [],
  ◌∷◌, length, get_elem?, arith,
}
use bass.Trace.Ring.{Trace, trace_size, new_trace, update, record_frame, caller, pop_one, pop_times}

module _ {A : Type 0} where
  abbrev pub take : ℕ → List A → List A
  take zero xs = []
  take (suc n) [] = []
  take (suc n) (x ∷ xs) = x ∷ take n xs

  abbrev pub tail : List A → List A
  tail [] = []
  tail (x ∷ xs) = xs

  abbrev pub drop : ℕ → List A → List A
  drop zero xs = xs
  drop (suc n) xs = drop n (tail xs)

  -- The slot of the frame with `age` newer frames holds that frame, or nil where there is none.
  pub record Shows (trace : Trace A) (window : List A) : Type 0 where
    pub slots :
        (age : ℕ)
        → age < trace_size
        → trace.frames ((trace.depth + (trace_size - 1) - age) % trace_size) ≡ get_elem? window age
    pub within : length window ≤ trace_size
    pub below : length window ≤ trace.depth

  get_elem?-take : (n i : ℕ) (w : List A) → i < n → get_elem? (take n w) i ≡ get_elem? w i
  get_elem?-take zero i w h = elim h [ ]
  get_elem?-take (suc n) i [] h = refl
  get_elem?-take (suc n) zero (x ∷ w) h = refl
  get_elem?-take (suc n) (suc i) (x ∷ w) h = get_elem?-take n i w (omega arith)

  length-take-le : (n : ℕ) (w : List A) → length (take n w) ≤ n
  length-take-le zero w = omega arith
  length-take-le (suc n) [] = omega arith
  length-take-le (suc n) (x ∷ w) = omega (arith, length-take-le n w)

  length-take-le_length : (n : ℕ) (w : List A) → length (take n w) ≤ length w
  length-take-le_length zero w = omega arith
  length-take-le_length (suc n) [] = omega arith
  length-take-le_length (suc n) (x ∷ w) = omega (arith, length-take-le_length n w)

  pub get_elem?-ge : (w : List A) (i : ℕ) → length w ≤ i → get_elem? w i ≡ none
  get_elem?-ge [] i h = refl
  get_elem?-ge (x ∷ w) zero h = absurd (omega arith)
  get_elem?-ge (x ∷ w) (suc i) h = get_elem?-ge w i (omega arith)

  update_self : (f : ℕ → Option A) (i j : ℕ) (a : Option A) → i ≡ j → update f i a j ≡ a
  update_self f i j a e = ground arith

  update_ne : (f : ℕ → Option A) (i j : ℕ) (a : Option A) → i ≢ j → update f i a j ≡ f j
  update_ne f i j a e = ground arith

  pub Shows-new : Shows new_trace []
  Shows-new = record { slots = λ age h. refl; within = omega arith; below = omega arith }

  pub Shows-record_frame :
      (trace : Trace A) (w : List A) (a : A)
      → Shows trace w
      → Shows (record_frame a trace) (take trace_size (a ∷ w))
  unfolding record_frame
  Shows-record_frame trace w a s = record {
    slots = slots_of;
    within = length-take-le trace_size (a ∷ w);
    below = omega (arith, length-take-le_length trace_size (a ∷ w), s.below);
  }
    where
      slots_of :
          (age : ℕ)
          → age < trace_size
          → update trace.frames
              (trace.depth % trace_size)
              (some a)
              ((trace.depth + 1 + (trace_size - 1) - age) % trace_size)
            ≡ get_elem? (take trace_size (a ∷ w)) age
      slots_of zero h = update_self trace.frames _ _ (some a) (omega arith)
      slots_of (suc b) h =
          let older : (trace.depth + 1 + (trace_size - 1) - suc b) % trace_size
              ≡ (trace.depth + (trace_size - 1) - b) % trace_size =
            omega arith in
          rw older (
            update_ne trace.frames _ _ (some a) (omega arith)
            ∙ s.slots b (omega arith)
            ∙ sym (get_elem?-take (trace_size - 1) b w (omega arith)))

  length-tail : (w : List A) → length (tail w) ≡ length w - 1
  length-tail [] = omega arith
  length-tail (x ∷ w) = omega arith

  get_elem?-tail : (w : List A) (i : ℕ) → get_elem? (tail w) i ≡ get_elem? w (suc i)
  get_elem?-tail [] i = refl
  get_elem?-tail (x ∷ w) i = refl

  Shows-pop_one :
      (trace : Trace A) (w : List A)
      → 0 < trace.depth
      → Shows trace w
      → Shows (pop_one trace) (tail w)
  unfolding pop_one
  Shows-pop_one trace w p s = record {
    slots = slots_of;
    within = omega (arith, length-tail w, s.within);
    below = omega (arith, length-tail w, s.below);
  }
    where
      slots_of :
          (age : ℕ)
          → age < trace_size
          → update trace.frames
              ((trace.depth - 1) % trace_size)
              none
              ((trace.depth - 1 + (trace_size - 1) - age) % trace_size)
            ≡ get_elem? (tail w) age
      slots_of age h = elim (dec_lt age (trace_size - 1)) [
        | yes older ↦
            let same : (trace.depth - 1 + (trace_size - 1) - age) % trace_size
                ≡ (trace.depth + (trace_size - 1) - suc age) % trace_size =
              omega arith in
            rw same (
              update_ne trace.frames _ _ none (omega arith)
              ∙ s.slots (suc age) (omega arith)
              ∙ sym (get_elem?-tail w age))
        | no oldest ↦
            update_self trace.frames _ _ none (omega arith)
            ∙ sym (get_elem?-ge (tail w) age (omega (arith, length-tail w, s.within)))
      ]

  pub Shows-pop_times :
      (n : ℕ) (trace : Trace A) (w : List A)
      → n ≤ trace.depth
      → Shows trace w
      → Shows (pop_times n trace) (drop n w)
  unfolding pop_times
  Shows-pop_times zero trace w h s = s
  Shows-pop_times (suc n) trace w h s =
      Shows-pop_times n (pop_one trace) (tail w) (unfold pop_one in omega arith)
        (Shows-pop_one trace w (omega arith) s)

  -- `Caller` reads the window, unless that many frames were recorded that the ring has wrapped.
  pub caller-eq-get_elem? :
      (offset : ℕ) (trace : Trace A) (w : List A)
      → offset < trace_size
      → Shows trace w
      → caller offset trace ≡ get_elem? w offset
  unfolding caller
  caller-eq-get_elem? offset trace w h s = elim (dec_lt offset trace.depth) [
    | yes p ↦
        let same : (trace.depth - 1 - offset) % trace_size
            ≡ (trace.depth + (trace_size - 1) - offset) % trace_size =
          omega arith in
        ground (arith, same, s.slots offset h)
    | no p ↦ ground (arith, get_elem?-ge w offset, s.below)
  ]
