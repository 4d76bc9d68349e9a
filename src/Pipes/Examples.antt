-- ===== src/Pipes/Examples.antt =====
-- Two sources, `1 2` and `3`, under one schedule.
use bass.Prelude.{ℕ, Bool, false, none, some, List, [], ◌∷◌, ◌≡◌, refl, length, ◌≤◌}
use bass.Pipes.Across.{
  lane, Event, default_case, ready, ended, fill, select_loop, select_case, receive, next, across,
}
use bass.Pipes.Seen.{Shows, drain, never_skipped, length-drain}

abbrev sources : List (List ℕ)
sources = (1 ∷ 2 ∷ []) ∷ (3 ∷ []) ∷ []

-- The first call waits for both sources. In the second one the other source ends, and then the first
-- one gives its second value. In the third one both have ended.
abbrev calls : List (List Bool × List Event)
calls =
    (false ∷ false ∷ [], [])
    ∷ ([], ready 1 ∷ ready 0 ∷ default_case ∷ [])
    ∷ ([], default_case ∷ ready 0 ∷ ready 1 ∷ [])
    ∷ []

two_lists :
    drain calls (across sources) ≡ ((some 1 ∷ some 3 ∷ []) ∷ (some 2 ∷ some 3 ∷ []) ∷ [], ended)
unfolding drain next fill select_loop select_case receive
two_lists = refl

never_skipped_example : Shows {V = ℕ} none (some 1 ∷ some 2 ∷ []) (1 ∷ 2 ∷ [])
never_skipped_example =
    never_skipped sources calls (some 1 ∷ some 3 ∷ []) ((some 2 ∷ some 3 ∷ []) ∷ []) 0 (1 ∷ 2 ∷ [])
      two_lists refl

length-drain_example : length (drain calls (across sources)).0 ≤ 3
length-drain_example = length-drain calls (across sources)

-- Where a source has no value, the first call ends, though it has received a value of another.
first_call_loses :
    next {V = ℕ} (false ∷ false ∷ []) [] (across ((1 ∷ []) ∷ [] ∷ []))
    ≡ (ended, lane [] (some 1) ∷ lane [] none ∷ [])
unfolding next fill
first_call_loses = refl
