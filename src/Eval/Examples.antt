-- ===== src/Eval/Examples.antt =====
-- Small programs.
use bass.Prelude.{Bool, ℕ, ◌≤◌, ◌≡◌, refl, some, [], ◌∷◌}
use bass.Value.{Value, null, empty, bool, pair, wrapped, builtin, cons_}
use bass.Value.Decode.{decode}
use bass.Value.Lists.{to_slice}
use bass.Eval.Task.{Store, eval, tail}
use bass.Eval.Step.{start, start_eval, start_call, call_wrapped, resume}
use bass.Eval.Builtins.{check_arity, decode_args, decode_rest, run_builtin, call_builtin}
use bass.Eval.Trampoline.{Outcome, value, trampoline, Runs}
use bass.Eval.Complete.{trampoline_complete}
use bass.Eval.Sound.{trampoline_sound}

abbrev one_scope : Store
one_scope = record { heap = record { parents = []; bindings = []; order = [] } ∷ []; next = 0 }

-- `(cons null true)`, with the builtin itself in its place.
abbrev cons_form : Value
cons_form = pair (wrapped (builtin cons_)) (pair null (pair (bool Bool.true) empty))

abbrev cons_result : Outcome
cons_result = value (pair null (bool Bool.true)) one_scope

trampoline-cons_form : trampoline 20 (tail (eval cons_form 0) one_scope) [] ≡ some cons_result
unfolding trampoline start start_eval start_call call_wrapped resume check_arity decode_args
    decode_rest run_builtin call_builtin decode to_slice
trampoline-cons_form = refl

trampoline_sound_example : Runs (tail (eval cons_form 0) one_scope) cons_result
trampoline_sound_example =
    trampoline_sound 20 (tail (eval cons_form 0) one_scope) cons_result trampoline-cons_form

trampoline_complete_example :
    (enough : ℕ) × ((n : ℕ)
      → enough ≤ n
      → trampoline n (tail (eval cons_form 0) one_scope) [] ≡ some cons_result)
trampoline_complete_example =
    trampoline_complete (tail (eval cons_form 0) one_scope) cons_result
      (trampoline_sound 20 (tail (eval cons_form 0) one_scope) cons_result trampoline-cons_form)
