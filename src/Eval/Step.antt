-- ===== src/Eval/Step.antt =====
-- The methods `Eval`, `Call` and `Bind`, up to where they hand over to a continuation, and the closures
-- that they give to `Continue`.
use bass.Prelude.{
  Text, Bool, true, false, not, Option, none, some, List, [], ◌∷◌, length, Result, ok, err,
  if◌then◌else◌,
}
use bass.Value.{
  Value, null, empty, bool, symbol, keyword, pair, cons, bind as bind_, scope, annotate, annotated,
  annotate_binding, operative, wrapped, builtin, symbol_operative, extend_path, thunk, thunk_path,
  thunk_operative, extend_operative, Values, none_left, more, from_list, to_list, Addr,
}
use bass.Value.Decode.{
  to_value, to_combiner, to_list as to_list_, to_empty, to_path, decode, decode_symbol,
  decode_scope, decode_annotated, meta_bind,
}
use bass.Value.Lists.{new_list, new_cons_list, to_slice}
use bass.Path.Clean.{dot}
use bass.Path.Extend.{dir, extend}
use bass.Scope.Heap.{new_scope}
use bass.Eval.Task.{
  Err, unbound, cannot_decode, cannot_decode_slice, not_a_list, arity, bad_syntax, cannot_extend,
  apply_err, subpath_err, call_symbol_err, Store, Task, eval, call, bind, args, build, sequence,
  Frame, apply_to, cons_tail, cons_done, args_tail, args_done, call_with, bind_scope, run_body,
  list_tail, list_done, bind_found, bind_rest, build_in, build_rest, annotate_result, annotate_meta,
  bind_with_meta, extend_child, compare_with, define, choose, then_sequence, Move, answer, raise,
  tail, push,
}
use bass.Eval.Compare.{bind_const}
use bass.Eval.Scopes.{lookup, decoded, decoded_scope, found_or, set_parents, add_parent, to_meta}
use bass.Eval.Builtins.{call_builtin, unwrap_value}
use bass.Eval.Binding.{start_bind, first, rest_of, decoded_binding}
use bass.Eval.Annotation.{start_annotate, attach}

-- `Eval` of each kind of value; what `Annotated` and `AnnotateBinding` embed evaluates in their place.
unfoldable pub start_eval : Value → Addr → Store → Move
start_eval (symbol k) s st = found_or (lookup st s k) st (raise (unbound k s) st) (λ v. answer v st)
start_eval (keyword k) s st = answer (symbol k) st
start_eval (pair a d) s st = push (eval a s) (apply_to d s) st
start_eval (cons a d) s st = push (eval a s) (cons_tail d s) st
start_eval (bind_ vs) s st =
    let (h, a) = new_scope (s ∷ []) st.heap in
    push (eval (new_cons_list (to_list vs)) a) (build_in a) (record st { heap = h })
start_eval (annotate v r c m) s st = start_annotate v r (meta_bind c m) s st
start_eval (annotated v m) s st = tail (eval v s) st
start_eval (annotate_binding b r m) s st = tail (eval b s) st
start_eval (extend_path p c) s st = push (eval p s) (extend_child c s) st
start_eval v s st = answer v st

-- `Wrapped.Call`.
unfoldable pub call_wrapped : Value → Value → Addr → Store → Move
call_wrapped c (pair a d) s st = push (args a d s) (call_with c s) st
call_wrapped c v s st = push (eval v s) (call_with c s) st

-- `list.Equal(Empty{})`.
abbrev pub is_empty : Value → Bool
is_empty empty = true
is_empty v = false

-- `SymbolOperative.Call`.
unfoldable pub call_symbol : Text → Value → Store → Move
call_symbol k val st = elim (decode to_list_ val) [
  | none ↦ raise (call_symbol_err (cannot_decode to_list_)) st
  | some list ↦
      if is_empty list
      then raise (arity none 1 0 true) st
      else decoded_scope (first list) st (λ a.
        found_or (lookup st a k) st
          (decoded to_list_ (rest_of list) st (λ rest. elim (decode to_empty rest) [
            | some e ↦ raise (unbound k a) st
            | none ↦ answer (first rest) st
          ]))
          (λ v. answer v st))
]

-- The elements, each decoded into a value.
unfoldable pub decode_elements : List Value → Result Err (List Value)
decode_elements [] = ok []
decode_elements (v ∷ vs) =
    let later = decode_elements vs in
    elim (decode to_value v) [
      | none ↦ err (cannot_decode to_value)
      | some w ↦ elim later [ ok ws ↦ ok (w ∷ ws) | err e ↦ err e ]
    ]

-- `decodeSlice`.
abbrev elements_of : Value → Result Err (List Value)
elements_of list = elim (to_slice list) [ ok vs ↦ decode_elements vs | err e ↦ err (not_a_list e) ]

-- A value decoded into a slice: pairs and the empty list take `decodeSlice`, and a cons does not.
unfoldable pub decode_slice : Value → Result Err (List Value)
unfolding decode_elements
decode_slice empty = elements_of empty
decode_slice (pair a d) = elements_of (pair a d)
decode_slice (annotate v r c m) = decode_slice v
decode_slice (annotated v m) = decode_slice v
decode_slice (annotate_binding b r m) = decode_slice b
decode_slice v = err cannot_decode_slice

-- `ThunkOperative.Call`.
unfoldable pub call_thunk : Value → Value → Store → Move
unfolding decode_slice
call_thunk cmd val st = elim (decode_slice val) [
  | err e ↦ raise e st
  | ok stdin ↦ answer (thunk (more cmd none_left) (from_list stdin)) st
]

-- `ExtendOperative.Call`.
unfoldable pub call_extend : Value → Value → Store → Move
unfolding decode_slice
call_extend path val st = elim (decode_slice val) [
  | err e ↦ raise e st
  | ok (arg ∷ []) ↦ decoded to_path arg st (λ sub. elim (extend path sub) [
    | some p ↦ answer p st
    | none ↦ raise (cannot_extend path sub) st
  ])
  | ok given ↦ raise (arity none 1 (length given) false) st
]

-- `Wrap(app.Unwrap()).Call` of the applicatives that are no `Wrapped`.
abbrev pub call_unwrapped : Value → Value → Addr → Store → Move
call_unwrapped app v s st = elim (unwrap_value app) [
  | some c ↦ tail (call (wrapped c) v s) st
  | none ↦ raise (cannot_decode to_combiner) st
]

-- `Call` of each kind of combiner.
unfoldable pub start_call : Value → Value → Addr → Store → Move
unfolding call_wrapped call_symbol call_thunk call_extend
start_call (operative n b e body static) v s st =
    let (h, sub) = new_scope (static ∷ []) st.heap in
    push (bind b sub v) (bind_scope e body sub s) (record st { heap = h })
start_call (wrapped c) v s st = call_wrapped c v s st
start_call (builtin b) v s st = call_builtin b v s st
start_call (symbol_operative k) v s st = call_symbol k v st
start_call (thunk_operative cmd) v s st = call_thunk cmd v st
start_call (extend_operative path) v s st = call_extend path v st
start_call (thunk a i) v s st =
    tail (call (wrapped (extend_operative (thunk_path (thunk a i) (dir dot)))) v s) st
start_call app v s st = call_unwrapped app v s st

-- `scopeBuilder.Build`: a symbol takes the value after it, with the symbol's metadata.
abbrev labelled : Option (Value × Addr) → Value → Value
labelled (some (k, m)) val = annotated val m
labelled _ val = val

abbrev pub build_symbol : Text → Value → Values → Addr → Store → Move
build_symbol k v none_left s st = raise bad_syntax st
build_symbol k v (more val rest) s st =
    push (bind (symbol k) s (labelled (decode_annotated v) val)) (build_rest rest s) st

unfoldable pub start_build : Values → Addr → Store → Move
start_build none_left s st = answer (scope s) st
start_build (more v vs) s st = elim (decode_symbol v) [
  | some k ↦ build_symbol k v vs s st
  | none ↦ elim (decode_scope v) [
    | some parent ↦ tail (build vs s) (record st { heap = add_parent s parent st.heap })
    | none ↦ raise bad_syntax st
  ]
]

-- `do`.
unfoldable pub start_sequence : Addr → Values → Store → Move
start_sequence s none_left st = answer null st
start_sequence s (more v none_left) st = tail (eval v s) st
start_sequence s (more v (more w vs)) st = push (eval v s) (then_sequence s (more w vs)) st

unfoldable pub start : Task → Store → Move
unfolding start_eval start_call start_bind start_build start_sequence
start (eval v s) st = start_eval v s st
start (call c v s) st = start_call c v s st
start (bind b s v) st = start_bind b s v st
start (args a d s) st = push (eval a s) (args_tail d s) st
start (build vs s) st = start_build vs s st
start (sequence s vs) st = start_sequence s vs st

-- `res.Decode(&b)` of `if`: everything is true but false and null.
abbrev pub is_false : Value → Bool
is_false (bool b) = not b
is_false null = true
is_false (annotate v r c m) = is_false v
is_false (annotated v m) = is_false v
is_false (annotate_binding b r m) = is_false b
is_false v = false

-- The rest of `EvalPair`.
abbrev pub args_from : Value → Addr → Frame → Store → Move
args_from (pair a d) s next st = push (args a d s) next st
args_from v s next st = push (eval v s) next st

-- The continuation of `Bind.Eval`: the scope loses the parent that it was evaluated in.
abbrev pub build_from : Result Value (List Value) → Addr → Store → Move
build_from (err e) s st = raise (not_a_list e) st
build_from (ok vs) s st =
    tail (build (from_list vs) s) (record st { heap = set_parents s [] st.heap })

abbrev pub apply_result : Option Value → Value → Value → Addr → Store → Move
apply_result (some c) f d s st = tail (call c d s) st
apply_result none f d s st = raise (apply_err f (cannot_decode to_combiner)) st

abbrev pub extend_result : Option Value → Value → Value → Addr → Store → Move
extend_result (some c) p child s st = tail (call c (new_list (child ∷ [])) s) st
extend_result none p child s st = raise (subpath_err p (cannot_decode to_combiner)) st

-- The closure of a frame, on the value that it is called with.
unfoldable pub resume : Frame → Value → Store → Move
resume (apply_to d s) f st = apply_result (decode to_combiner f) f d s st
resume (cons_tail d s) a st = push (eval d s) (cons_done a) st
resume (cons_done a) d st = answer (pair a d) st
resume (args_tail d s) a st = args_from d s (args_done a) st
resume (args_done a) d st = answer (pair a d) st
resume (call_with c s) v st = tail (call c v s) st
resume (bind_scope e body sub s) v st = push (bind e sub (scope s)) (run_body body sub) st
resume (run_body body sub) v st = tail (eval body sub) st
resume (list_tail d s val) f st = decoded_binding d st (λ r. push (bind r s val) (list_done f) st)
resume (list_done f) r st = answer (pair f r) st
resume (bind_found b rest s vs) v st = push (bind b s v) (bind_rest rest s vs) st
resume (bind_rest rest s vs) v st = tail (bind (bind_ rest) s (scope vs)) st
resume (build_in s) vals st = build_from (to_slice vals) s st
resume (build_rest rest s) v st = tail (build rest s) st
resume (annotate_result vs r s) res st = push (eval (bind_ vs) s) (annotate_meta r s res) st
resume (annotate_meta r s res) meta st = attach r s res meta st
resume (bind_with_meta b r s val) meta_val st =
    decoded_scope meta_val st
      (λ meta. tail (bind b s (annotated val meta)) (record st { heap = to_meta r meta st.heap }))
resume (extend_child c s) p st = extend_result (decode to_combiner p) p c s st
resume (compare_with binding val) res st = bind_const binding res val st
resume (define formals s) v st = tail (bind formals s v) st
resume (choose on_true on_false s) v st =
    tail (eval (if is_false v then on_false else on_true) s) st
resume (then_sequence s vs) v st = tail (sequence s vs) st
