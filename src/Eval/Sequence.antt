-- ===== src/Eval/Sequence.antt =====
-- `do` in direct style.
use bass.Prelude.{List, [], ◌∷◌}
use bass.Value.{Value, from_list, Addr}
use bass.Eval.Task.{Store, eval, sequence, then_sequence}
use bass.Eval.Step.{start, start_sequence, resume}
use bass.Eval.Trampoline.{value, Runs, tails, pushes}
use bass.Eval.Application.{EvaluatesAll, no_forms, next_form}

abbrev pub last_of : Value → List Value → Value
last_of v [] = v
last_of v (w ∷ vs) = last_of w vs

-- A sequence of forms that evaluate one after the other, each in the store that the one before it
-- leaves, comes to the value of the last one.
pub Runs-sequence :
    (s : Addr) (form : Value) (forms : List Value) (v : Value) (vs : List Value) (st st' : Store)
    → EvaluatesAll s (form ∷ forms) st (v ∷ vs) st'
    → Runs (start (sequence s (from_list (form ∷ forms))) st) (value (last_of v vs) st')
unfolding start start_sequence resume
Runs-sequence s form [] v [] st st' (next_form _ _ _ _ _ mid _ d (no_forms _)) =
    tails (eval form s) st (value v st') d
Runs-sequence s form [] v (w ∷ vs) st st' (next_form _ _ _ _ _ mid _ d ds) = elim ds [ ]
Runs-sequence s form (f ∷ forms) v [] st st' (next_form _ _ _ _ _ mid _ d ds) = elim ds [ ]
Runs-sequence s form (f ∷ forms) v (w ∷ vs) st st' (next_form _ _ _ _ _ mid _ d ds) =
    pushes (eval form s) (then_sequence s (from_list (f ∷ forms))) st v mid
      (value (last_of w vs) st') d
      (tails (sequence s (from_list (f ∷ forms))) mid (value (last_of w vs) st')
        (Runs-sequence s f forms w vs mid st' ds))
