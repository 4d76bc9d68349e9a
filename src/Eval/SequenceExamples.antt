-- ===== src/Eval/SequenceExamples.antt =====
-- Two forms in sequence, and a scope that is its own parent.
use bass.Prelude.{◌≡◌, refl, ◌⊎◌, none, some, false, List, [], ◌∷◌, arith}
use bass.Value.{scope, more, none_left, null, ignore, from_list, cons_, if_, Value}
use bass.Value.Lists.{new_list, to_slice}
use bass.Eval.Task.{Err, arity, build, Store, sequence, raise}
use bass.Eval.Builtins.{check_arity, call_builtin, run_builtin}
use bass.Eval.Arguments.{Fits, IsCall, call_builtin-Fits}
use bass.Value.Decode.{to_value, decode}
use bass.Eval.Step.{start, start_eval}
use bass.Eval.Trampoline.{value, Runs, answers}
use bass.Eval.Application.{no_forms, next_form}
use bass.Scope.Heap.{deref, find, get, overflow}
use bass.Eval.Scopes.{add_parent}
use bass.Eval.SelfParent.{build-self_parent}
use bass.Eval.Sequence.{Runs-sequence}

abbrev no_scope : Store
no_scope = record { heap = []; next = 0 }

Runs-sequence_example :
    Runs (start (sequence 0 (from_list (null ∷ ignore ∷ []))) no_scope) (value ignore no_scope)
unfolding start start_eval
Runs-sequence_example = Runs-sequence 0 null (ignore ∷ []) null (ignore ∷ []) no_scope no_scope (
    next_form null (ignore ∷ []) null (ignore ∷ []) no_scope no_scope no_scope
      (answers null no_scope)
      (next_form ignore [] ignore [] no_scope no_scope no_scope (answers ignore no_scope)
        (no_forms no_scope)))

call_builtin-Fits_example :
    ((vs : List Value) × Fits (to_value ∷ to_value ∷ []) none (null ∷ ignore ∷ []) vs
      × (call_builtin cons_ (new_list (null ∷ ignore ∷ [])) 0 no_scope
          ≡ run_builtin cons_ vs 0 no_scope))
    ⊎ ((¬ IsCall (to_value ∷ to_value ∷ []) none (null ∷ ignore ∷ []))
        × (e : Err) × (call_builtin cons_ (new_list (null ∷ ignore ∷ [])) 0 no_scope
            ≡ raise e no_scope))
call_builtin-Fits_example = call_builtin-Fits cons_ (null ∷ ignore ∷ []) 0 no_scope

-- `(if null)`: the error counts the context, the continuation and the scope.
if_fails :
    call_builtin if_ (new_list (null ∷ [])) 0 no_scope ≡ raise (arity (some if_) 6 4 false) no_scope
unfolding call_builtin check_arity decode new_list to_slice
if_fails = refl

-- The scope at address 0, with nothing in it.
abbrev blank : Store
blank = record { heap = record { parents = []; bindings = []; order = [] } ∷ []; next = 0 }

build-self_parent_example :
    Runs
      (start (build (more (scope 0) none_left) 0) blank)
      (value (scope 0) (record blank { heap = add_parent 0 0 blank.heap }))
    × (get 1000 (add_parent 0 0 blank.heap) 0 [] ≡ overflow)
unfolding deref find
build-self_parent_example = build-self_parent 1000 0 [] blank (omega arith) refl refl
