-- ===== src/Eval/Sound.antt =====
-- What the trampoline returns is what direct-style evaluation comes to.
use mathlib.Core.Option.{some-injective}
use mathlib.Core.Path.{subst}
use bass.Prelude.{ℕ, zero, suc, ◌≡◌, some, List, [], ◌∷◌}
use bass.Eval.Task.{Store, Task, Frame, Move, answer, raise, tail, push, crash, beyond}
use bass.Eval.Step.{start, resume}
use bass.Eval.Trampoline.{
  Outcome, value, error, crashed, unmodelled, trampoline, Runs, answers, raises, crashes, leaves,
  tails, pushes, push_error, push_crash, push_unmodelled,
}

-- What becomes of an outcome before the frames: a value goes through them, anything else is final.
abbrev Unwinds : Outcome → List Frame → Outcome → Type 0
Unwinds (value v st) [] last = value v st ≡ last
Unwinds (value v st) (frame ∷ frames) last =
    (o : Outcome) × Runs (resume frame v st) o × Unwinds o frames last
Unwinds (error e st) frames last = error e st ≡ last
Unwinds (crashed st) frames last = crashed st ≡ last
Unwinds (unmodelled st) frames last = unmodelled st ≡ last

Runs-push :
    (task : Task) (frame : Frame) (st : Store) (frames : List Frame) (o last : Outcome)
    → Runs (start task st) o
    → Unwinds o (frame ∷ frames) last
    → (o' : Outcome) × Runs (push task frame st) o' × Unwinds o' frames last
Runs-push task frame st frames (value v st') last d (o', d', u) =
    (o', pushes task frame st v st' o' d d', u)
Runs-push task frame st frames (error e st') last d u =
    (error e st', push_error task frame st e st' d, u)
Runs-push task frame st frames (crashed st') last d u =
    (crashed st', push_crash task frame st st' d, u)
Runs-push task frame st frames (unmodelled st') last d u =
    (unmodelled st', push_unmodelled task frame st st' d, u)

pub Runs-trampoline :
    (n : ℕ) (move : Move) (frames : List Frame) (last : Outcome)
    → trampoline n move frames ≡ some last
    → (o : Outcome) × Runs move o × Unwinds o frames last
unfolding trampoline
Runs-trampoline zero move frames last h = cc
Runs-trampoline (suc n) (answer v st) [] last h =
    (value v st, answers v st, some-injective (value v st) last h)
Runs-trampoline (suc n) (answer v st) (frame ∷ frames) last h =
    (value v st, answers v st, Runs-trampoline n (resume frame v st) frames last h)
Runs-trampoline (suc n) (raise e st) frames last h =
    (error e st, raises e st, some-injective (error e st) last h)
Runs-trampoline (suc n) (tail task st) frames last h =
    let (o, d, u) = Runs-trampoline n (start task st) frames last h in (o, tails task st o d, u)
Runs-trampoline (suc n) (push task frame st) frames last h =
    let (o, d, u) = Runs-trampoline n (start task st) (frame ∷ frames) last h in
    Runs-push task frame st frames o last d u
Runs-trampoline (suc n) (crash st) frames last h =
    (crashed st, crashes st, some-injective (crashed st) last h)
Runs-trampoline (suc n) (beyond st) frames last h =
    (unmodelled st, leaves st, some-injective (unmodelled st) last h)

-- What the trampoline returns, with any fuel, is what direct-style evaluation comes to.
pub trampoline_sound :
    (n : ℕ) (move : Move) (o : Outcome) → trampoline n move [] ≡ some o → Runs move o
trampoline_sound n move o h = at (Runs-trampoline n move [] o h)
  where
    at : (first : Outcome) × Runs move first × Unwinds first [] o → Runs move o
    at (value v st, d, u) = subst (Runs move) u d
    at (error e st, d, u) = subst (Runs move) u d
    at (crashed st, d, u) = subst (Runs move) u d
    at (unmodelled st, d, u) = subst (Runs move) u d
