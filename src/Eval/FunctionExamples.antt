-- ===== src/Eval/FunctionExamples.antt =====
-- The identity function, called.
use bass.Prelude.{Bool, zero, suc, ◌≡◌, refl, Text, text_eq, List, [], ◌∷◌, arith}
use bass.Value.{Value, null, bool, symbol, wrapped, builtin, cons_, pair}
use bass.Value.Lists.{new_list}
use bass.Scope.Heap.{deref, find, insert, set_binding, set, found, first_found, get}
use bass.Scope.Each.{set_all}
use bass.Scope.Agree.{IsClosed}
use bass.Eval.Task.{tail, Store, call, bind}
use bass.Eval.Scopes.{lookup}
use bass.Eval.Step.{start, start_eval, start_call}
use bass.Eval.Builtins.{check_arity, decode_args, decode_rest, run_builtin, call_builtin}
use bass.Value.Decode.{decode}
use bass.Value.Lists.{to_slice}
use bass.Eval.Trampoline.{value, Runs, answers, tails}
use bass.Eval.Application.{EvaluatesAll, no_forms, next_form, Runs-call_wrapped, Runs-bind_symbols}
use bass.Scope.Grows.{Grows}
use bass.Eval.Invariant.{Grows-Runs}
use bass.Eval.Function.{body_heap, function, Runs-call_function, get-body_heap}

abbrev x_name : Text
x_name = 120 ∷ []

-- One scope, which binds x to null.
abbrev x_scope : Store
x_scope = record {
  heap = record { parents = []; bindings = (x_name, null) ∷ []; order = x_name ∷ [] } ∷ [];
  next = 0;
}

abbrev true_value : Value
true_value = bool Bool.true

abbrev two_forms : List Value
two_forms = true_value ∷ symbol x_name ∷ []

abbrev two_values : List Value
two_values = true_value ∷ null ∷ []

EvaluatesAll-two_forms : EvaluatesAll 0 two_forms x_scope two_values x_scope
unfolding start start_eval lookup get find deref first_found text_eq
EvaluatesAll-two_forms =
    next_form true_value (symbol x_name ∷ []) true_value (null ∷ []) x_scope x_scope x_scope
      (answers true_value x_scope)
      (next_form (symbol x_name) [] null [] x_scope x_scope x_scope (answers null x_scope)
        (no_forms x_scope))

Runs-call_wrapped_example :
    Runs
      (start (call (wrapped (builtin cons_)) (new_list two_forms) 0) x_scope)
      (value (pair true_value null) x_scope)
unfolding start start_call call_builtin check_arity decode_args decode_rest run_builtin decode
    to_slice new_list
Runs-call_wrapped_example =
    Runs-call_wrapped (builtin cons_) 0 two_forms two_values x_scope x_scope
      (value (pair true_value null) x_scope) EvaluatesAll-two_forms
      (answers (pair true_value null) x_scope)

Runs-bind_symbols_example :
    Runs (start (bind (new_list (symbol x_name ∷ [])) 0 (new_list (true_value ∷ []))) x_scope) (
      value
        (new_list (symbol x_name ∷ []))
        (record x_scope { heap = set 0 x_name true_value x_scope.heap }))
unfolding set_all
Runs-bind_symbols_example = Runs-bind_symbols 0 (x_name ∷ []) (true_value ∷ []) x_scope refl

abbrev y_name : Text
y_name = 121 ∷ []

abbrev body_store : Store
body_store = record x_scope { heap = body_heap 0 (x_name ∷ y_name ∷ []) two_values x_scope.heap }

Runs-call_function_result :
    Runs
      (start
        (call (function 0 (x_name ∷ y_name ∷ []) (symbol x_name) 0) (new_list two_forms) 0)
        x_scope)
      (value true_value body_store)
unfolding start start_eval lookup get find deref first_found text_eq set_all set set_binding insert
Runs-call_function_result =
    Runs-call_function 0 (x_name ∷ y_name ∷ []) (symbol x_name) 0 0 two_forms two_values x_scope
      x_scope (value true_value body_store) refl EvaluatesAll-two_forms
      (answers true_value body_store)

Runs-call_function_example :
    Runs
      (start
        (call (function 0 (x_name ∷ y_name ∷ []) (symbol x_name) 0) (new_list two_forms) 0)
        x_scope)
      (value true_value body_store)
unfolding start start_eval lookup get find deref first_found text_eq set_all set set_binding insert
Runs-call_function_example =
    Runs-call_function 0 (x_name ∷ y_name ∷ []) (symbol x_name) 0 0 two_forms two_values x_scope
      x_scope (value true_value body_store) refl EvaluatesAll-two_forms
      (answers true_value body_store)

x_scope-IsClosed : IsClosed x_scope.heap
unfolding deref
x_scope-IsClosed zero p = tt
x_scope-IsClosed (suc a) p = absurd (omega arith)

get-body_heap_example :
    get 3 (body_heap 0 (y_name ∷ []) (true_value ∷ []) x_scope.heap) 1 x_name ≡ found null
unfolding find text_eq get deref first_found
get-body_heap_example =
    get-body_heap 2 x_scope.heap 0 (y_name ∷ []) (true_value ∷ []) x_name x_scope-IsClosed
      (omega arith) (refl, tt)

Grows-Runs_example : Grows x_scope.heap body_store.heap
Grows-Runs_example =
    Grows-Runs
      (tail (call (function 0 (x_name ∷ y_name ∷ []) (symbol x_name) 0) (new_list two_forms) 0)
        x_scope)
      (value true_value body_store)
      (tails (call (function 0 (x_name ∷ y_name ∷ []) (symbol x_name) 0) (new_list two_forms) 0)
        x_scope (value true_value body_store) Runs-call_function_result)
