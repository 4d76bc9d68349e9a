-- ===== src/Eval/Trampoline.antt =====
-- `Trampoline` of pkg/bass/eval.go: the loop that runs an evaluation with its continuations on a list,
-- the next one first; `Identity` is the end of the list. Running out of fuel is the context being
-- cancelled, after which the loop returns `ErrInterrupted`.
use bass.Prelude.{ℕ, zero, suc, Option, none, some, List, [], ◌∷◌}
use bass.Value.{Value}
use bass.Eval.Task.{Err, Store, Task, Frame, Move, answer, raise, tail, push, crash, beyond}
use bass.Eval.Step.{start, resume}

pub data Outcome : Type 0 where
  value : Value → Store → Outcome
  error : Err → Store → Outcome
  crashed : Store → Outcome
  unmodelled : Store → Outcome

-- What an outcome that is no value does to every continuation: the loop returns it.
unfoldable pub trampoline : ℕ → Move → List Frame → Option Outcome
trampoline zero move frames = none
trampoline (suc n) (answer v st) [] = some (value v st)
trampoline (suc n) (answer v st) (frame ∷ frames) = trampoline n (resume frame v st) frames
trampoline (suc n) (raise e st) frames = some (error e st)
trampoline (suc n) (tail task st) frames = trampoline n (start task st) frames
trampoline (suc n) (push task frame st) frames = trampoline n (start task st) (frame ∷ frames)
trampoline (suc n) (crash st) frames = some (crashed st)
trampoline (suc n) (beyond st) frames = some (unmodelled st)

-- Evaluation in direct style, the specification: what a move comes to, where a value that a pushed
-- task comes to goes to its frame, and any other outcome ends the evaluation.
pub data Runs : Move → Outcome → Type 0 where
  answers : (v : Value) (st : Store) → Runs (answer v st) (value v st)
  raises : (e : Err) (st : Store) → Runs (raise e st) (error e st)
  crashes : (st : Store) → Runs (crash st) (crashed st)
  leaves : (st : Store) → Runs (beyond st) (unmodelled st)
  tails : (task : Task) (st : Store) (o : Outcome) → Runs (start task st) o → Runs (tail task st) o
  pushes :
      (task : Task) (frame : Frame) (st : Store) (v : Value) (st' : Store) (o : Outcome)
      → Runs (start task st) (value v st')
      → Runs (resume frame v st') o
      → Runs (push task frame st) o
  push_error :
      (task : Task) (frame : Frame) (st : Store) (e : Err) (st' : Store)
      → Runs (start task st) (error e st')
      → Runs (push task frame st) (error e st')
  push_crash :
      (task : Task) (frame : Frame) (st st' : Store)
      → Runs (start task st) (crashed st')
      → Runs (push task frame st) (crashed st')
  push_unmodelled :
      (task : Task) (frame : Frame) (st st' : Store)
      → Runs (start task st) (unmodelled st')
      → Runs (push task frame st) (unmodelled st')
