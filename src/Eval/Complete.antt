-- ===== src/Eval/Complete.antt =====
-- The trampoline reaches what a derivation in direct style comes to, and a move comes to one outcome.
use mathlib.Core.Option.{some-injective}
use bass.Prelude.{ℕ, zero, suc, ◌+◌, ◌-◌, ◌≤◌, ◌≡◌, refl, sym, ◌∙◌, some, List, [], ◌∷◌, arith}
use bass.Eval.Task.{Err, Store, Frame, Move, answer, raise, crash, beyond}
use bass.Eval.Trampoline.{
  Outcome, value, error, crashed, unmodelled, trampoline, Runs, answers, raises, crashes, leaves,
  tails, pushes, push_error, push_crash, push_unmodelled,
}

-- The rounds that a derivation takes before its outcome.
abbrev cost : {move : Move} {o : Outcome} → Runs move o → ℕ
cost (answers v st) = 0
cost (raises e st) = 0
cost (crashes st) = 0
cost (leaves st) = 0
cost (tails task st o d) = suc (cost d)
cost (pushes task frame st v st' o d d') = suc (cost d + suc (cost d'))
cost (push_error task frame st e st' d) = suc (cost d)
cost (push_crash task frame st st' d) = suc (cost d)
cost (push_unmodelled task frame st st' d) = suc (cost d)

-- The move that an outcome stands for.
abbrev move_of : Outcome → Move
move_of (value v st) = answer v st
move_of (error e st) = raise e st
move_of (crashed st) = crash st
move_of (unmodelled st) = beyond st

raise_skips :
    (n : ℕ) (e : Err) (st : Store) (f : Frame) (fs : List Frame)
    → trampoline n (raise e st) (f ∷ fs) ≡ trampoline n (raise e st) fs
unfolding trampoline
raise_skips zero e st f fs = refl
raise_skips (suc n) e st f fs = refl

crash_skips :
    (n : ℕ) (st : Store) (f : Frame) (fs : List Frame)
    → trampoline n (crash st) (f ∷ fs) ≡ trampoline n (crash st) fs
unfolding trampoline
crash_skips zero st f fs = refl
crash_skips (suc n) st f fs = refl

beyond_skips :
    (n : ℕ) (st : Store) (f : Frame) (fs : List Frame)
    → trampoline n (beyond st) (f ∷ fs) ≡ trampoline n (beyond st) fs
unfolding trampoline
beyond_skips zero st f fs = refl
beyond_skips (suc n) st f fs = refl

-- Before any continuation, a derivation's rounds lead from its move to its outcome.
pub trampoline-Runs :
    {move : Move} {o : Outcome} (d : Runs move o) (m n : ℕ) (fs : List Frame)
    → m ≡ cost d + n
    → trampoline m move fs ≡ trampoline n (move_of o) fs
unfolding trampoline
trampoline-Runs (answers v st) m n fs e = let e' : m ≡ n = omega arith in rw e' refl
trampoline-Runs (raises x st) m n fs e = let e' : m ≡ n = omega arith in rw e' refl
trampoline-Runs (crashes st) m n fs e = let e' : m ≡ n = omega arith in rw e' refl
trampoline-Runs (leaves st) m n fs e = let e' : m ≡ n = omega arith in rw e' refl
trampoline-Runs (tails task st o d) (suc m) n fs e = trampoline-Runs d m n fs (omega arith)
trampoline-Runs (pushes task frame st v st' o d d') (suc m) n fs e =
    trampoline-Runs d m (suc (cost d' + n)) (frame ∷ fs) (omega arith)
    ∙ trampoline-Runs d' (cost d' + n) n fs refl
trampoline-Runs (push_error task frame st x st' d) (suc m) n fs e =
    trampoline-Runs d m n (frame ∷ fs) (omega arith) ∙ raise_skips n x st' frame fs
trampoline-Runs (push_crash task frame st st' d) (suc m) n fs e =
    trampoline-Runs d m n (frame ∷ fs) (omega arith) ∙ crash_skips n st' frame fs
trampoline-Runs (push_unmodelled task frame st st' d) (suc m) n fs e =
    trampoline-Runs d m n (frame ∷ fs) (omega arith) ∙ beyond_skips n st' frame fs
trampoline-Runs _ zero n fs e = absurd (omega arith)

trampoline-move_of : (n : ℕ) (o : Outcome) → trampoline (suc n) (move_of o) [] ≡ some o
unfolding trampoline
trampoline-move_of n (value v st) = refl
trampoline-move_of n (error e st) = refl
trampoline-move_of n (crashed st) = refl
trampoline-move_of n (unmodelled st) = refl

-- Where direct-style evaluation comes to an outcome, the trampoline returns it with every fuel from
-- some number on.
pub trampoline_complete :
    (move : Move) (o : Outcome)
    → Runs move o
    → (enough : ℕ) × ((n : ℕ) → enough ≤ n → trampoline n move [] ≡ some o)
trampoline_complete move o d = (suc (cost d), λ n h. at n (n - suc (cost d)) (omega arith))
  where
    at : (n k : ℕ) → n ≡ cost d + suc k → trampoline n move [] ≡ some o
    at n k e = trampoline-Runs d n (suc k) [] e ∙ trampoline-move_of k o

-- A move comes to at most one outcome.
pub Runs-functional : (move : Move) (o o' : Outcome) → Runs move o → Runs move o' → o ≡ o'
Runs-functional move o o' d d' =
    let (n, h) = trampoline_complete move o d in
    let (n', h') = trampoline_complete move o' d' in
    some-injective o o' (sym (h (n + n') (omega arith)) ∙ h' (n + n') (omega arith))
