-- ===== src/Eval/Builtins.antt =====
-- `Builtin.Call` of pkg/bass/builtin.go, and the core builtins of pkg/bass/ground.go.
use bass.Prelude.{
  ℕ, suc, ◌+◌, true, false, ltb, ◌==◌, Option, none, some, List, [], ◌∷◌, length, Result, ok, err,
  if◌then◌else◌,
}
use bass.Value.{
  Value, null, scope, symbol, pair, annotated, operative, wrapped, symbol_operative, dir_path,
  file_path, command_path, thunk_path, thunk_operative, extend_operative, from_list, Addr, Builtin,
  def, if_, do_, op, eval as eval_, cons_, wrap, unwrap, make_scope, meta_, with_meta,
}
use bass.Value.Decode.{
  Dest, to_value, to_bindable, to_scope, to_combiner, to_applicative, to_null, to_list, decode,
  decode_annotated,
}
use bass.Value.Lists.{to_slice}
use bass.Scope.Heap.{new_scope}
use bass.Eval.Task.{
  Err, cannot_decode, arity, bad_syntax, bad_arg, bad_variadic_arg, Store, eval, sequence, Move,
  answer, raise, tail, push, define, choose,
}
use bass.Eval.Scopes.{decoded_scope}

-- The type of a builtin's function: the arguments that `Call` adds (context, continuation, scope), the
-- types of the given ones, and the element type of a variadic rest.
pub record Signature : Type 0 where
  pub auto_args : ℕ
  pub params : List Dest
  pub variadic : Option Dest

abbrev pub signature : Builtin → Signature
signature def = record { auto_args = 3; params = to_bindable ∷ to_value ∷ []; variadic = none }
signature if_ = record {
  auto_args = 3;
  params = to_value ∷ to_value ∷ to_value ∷ [];
  variadic = none;
}
signature do_ = record { auto_args = 3; params = []; variadic = some to_value }
signature op = record {
  auto_args = 1;
  params = to_bindable ∷ to_bindable ∷ to_value ∷ [];
  variadic = none;
}
signature eval_ = record { auto_args = 2; params = to_value ∷ to_scope ∷ []; variadic = none }
signature cons_ = record { auto_args = 0; params = to_value ∷ to_value ∷ []; variadic = none }
signature wrap = record { auto_args = 0; params = to_combiner ∷ []; variadic = none }
signature unwrap = record { auto_args = 0; params = to_applicative ∷ []; variadic = none }
signature make_scope = record { auto_args = 0; params = []; variadic = some to_scope }
signature meta_ = record { auto_args = 0; params = to_value ∷ []; variadic = none }
signature with_meta = record { auto_args = 0; params = to_value ∷ to_value ∷ []; variadic = none }

-- The check of the number of arguments; the error counts those that `Call` adds.
unfoldable pub check_arity : Builtin → Signature → ℕ → Option Err
check_arity b sig given =
    let argc = sig.auto_args + given in
    let fargc = sig.auto_args + length sig.params in
    elim sig.variadic [
      | some rest ↦ if ltb argc fargc then some (arity (some b) fargc argc true) else none
      | none ↦ if argc == fargc then none else some (arity (some b) fargc argc false)
    ]

abbrev prepend_arg : Value → Result Err (List Value) → Result Err (List Value)
prepend_arg v (ok vs) = ok (v ∷ vs)
prepend_arg v (err e) = err e

unfoldable pub decode_rest : Builtin → Option Dest → List Value → Result Err (List Value)
decode_rest b variadic [] = ok []
decode_rest b none (arg ∷ rest) = ok []
decode_rest b (some d) (arg ∷ rest) =
    let later = decode_rest b (some d) rest in
    elim (decode d arg) [
      | none ↦ err (bad_variadic_arg b (cannot_decode d))
      | some v ↦ prepend_arg v later
    ]

-- The loop over the given arguments, from argument `i` on.
unfoldable pub decode_args :
    Builtin → ℕ → List Dest → Option Dest → List Value → Result Err (List Value)
unfolding decode_rest
decode_args b i [] variadic given = decode_rest b variadic given
decode_args b i (d ∷ ds) variadic [] = ok []
decode_args b i (d ∷ ds) variadic (arg ∷ rest) =
    let later = decode_args b (i + 1) ds variadic rest in
    elim (decode d arg) [
      | none ↦ err (bad_arg b i (cannot_decode d))
      | some v ↦ prepend_arg v later
    ]

-- `Unwrap` of each kind of applicative.
unfoldable pub unwrap_value : Value → Option Value
unwrap_value (wrapped c) = some c
unwrap_value (symbol s) = some (symbol_operative s)
unwrap_value (dir_path p) = some (extend_operative (dir_path p))
unwrap_value (file_path p) = some (thunk_operative (file_path p))
unwrap_value (command_path p) = some (thunk_operative (command_path p))
unwrap_value (thunk_path t (file_path p)) = some (thunk_operative (thunk_path t (file_path p)))
unwrap_value (thunk_path t p) = some (extend_operative (thunk_path t p))
unwrap_value _ = none

abbrev scopes_of : List Value → List Addr
scopes_of [] = []
scopes_of (scope a ∷ vs) = a ∷ scopes_of vs
scopes_of (_ ∷ vs) = scopes_of vs

-- The functions themselves, on arguments of their signature's types.
unfoldable pub run_builtin : Builtin → List Value → Addr → Store → Move
unfolding unwrap_value
run_builtin def (formals ∷ val ∷ []) s st = push (eval val s) (define formals s) st
run_builtin if_ (cond ∷ on_true ∷ on_false ∷ []) s st =
    push (eval cond s) (choose on_true on_false s) st
run_builtin do_ body s st = tail (sequence s (from_list body)) st
run_builtin op (formals ∷ eformal ∷ body ∷ []) s st =
    answer (operative st.next formals eformal body s) (record st { next = suc st.next })
run_builtin eval_ (val ∷ scope a ∷ []) s st = tail (eval val a) st
run_builtin cons_ (a ∷ d ∷ []) s st = answer (pair a d) st
run_builtin wrap (c ∷ []) s st = answer (wrapped c) st
run_builtin unwrap (app ∷ []) s st = elim (unwrap_value app) [
  | some c ↦ answer c st
  | none ↦ raise (cannot_decode to_applicative) st
]
run_builtin make_scope parents s st =
    let (heap, a) = new_scope (scopes_of parents) st.heap in
    answer (scope a) (record st { heap = heap })
run_builtin meta_ (val ∷ []) s st = elim (decode_annotated val) [
  | some vm ↦ answer (scope vm.1) st
  | none ↦ answer null st
]
run_builtin with_meta (val ∷ meta ∷ []) s st = elim (decode to_null meta) [
  | some v ↦ answer val st
  | none ↦ decoded_scope meta st (λ m. answer (annotated val m) st)
]
run_builtin b vs s st = raise bad_syntax st

-- `Builtin.Call`.
unfoldable pub call_builtin : Builtin → Value → Addr → Store → Move
unfolding decode_args check_arity run_builtin
call_builtin b val s st = elim (decode to_list val) [
  | none ↦ raise bad_syntax st
  | some list ↦ elim (to_slice list) [
    | err e ↦ raise bad_syntax st
    | ok given ↦ elim (check_arity b (signature b) (length given)) [
      | some e ↦ raise e st
      | none ↦ elim (decode_args b 0 (signature b).params (signature b).variadic given) [
        | err e ↦ raise e st
        | ok vs ↦ run_builtin b vs s st
      ]
    ]
  ]
]
