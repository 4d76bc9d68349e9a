-- ===== src/Eval/StartKeeps.antt =====
-- No step of an evaluation loses a scope, a binding, or a symbol from a scope's order.
use mathlib.Core.Path.{subst}
use bass.Prelude.{
  ◌≡◌, refl, sym, ◌⊎◌, inl, inr, List, [], ◌∷◌, ◌++◌, length, Result, ok, err, Option-cases, arith,
}
use bass.Value.{
  Value, null, empty, bool, int, string, keyword, command_path, symbol, pair, cons, bind as bind_,
  annotate, annotate_binding, operative, wrapped, builtin, symbol_operative, thunk_operative,
  extend_operative, thunk, Values, none_left, more, Addr, Builtin, def, if_, do_, op, eval as eval_,
  cons_, wrap, unwrap, make_scope, meta_, with_meta,
}
use bass.Value.Decode.{decode, decode_scope, decode_symbol, to_list, meta_bind}
use bass.Value.Lists.{to_slice}
use bass.Scope.Heap.{Heap, deref, new_scope, Found, found, missing, overflow}
use bass.Scope.Grows.{Grows, Grows-refl, Grows-set, Grows-parents, Grows-new_scope}
use bass.Eval.Task.{
  unbound, Store, Task, eval, call, bind, args, build, sequence, Move, answer, raise,
}
use bass.Eval.Scopes.{set_parents, add_parent, lookup, found_or}
use bass.Eval.Builtins.{check_arity, decode_args, run_builtin, call_builtin, signature}
use bass.Eval.Binding.{start_bind}
use bass.Eval.Step.{start, start_eval, start_call, start_build}
use bass.Eval.Keeps.{
  store_of, store-bind_const, store-bind_list, store-bind_scope_to, store-bind_annotated,
  store-call_symbol, store-call_thunk, store-call_extend, store-call_unwrapped, store-call_wrapped,
  store-start_annotate, store-start_sequence, store-build_symbol,
}

abbrev pub Keeps : Store → Move → Type 0
Keeps st move = Grows st.heap (store_of move).heap

pub same_store : (st : Store) (move : Move) → store_of move ≡ st → Keeps st move
same_store st move e = subst (λ t. Grows st.heap t.heap) (sym e) (Grows-refl st.heap)

pub kept : {st st' : Store} → st' ≡ st → Grows st.heap st'.heap
kept {st} e = subst (λ t. Grows st.heap t.heap) (sym e) (Grows-refl st.heap)

pub same_heap :
    (st : Store) (move : Move) (h : Heap)
    → (store_of move).heap ≡ h
    → Grows st.heap h
    → Keeps st move
same_heap st move h e g = subst (Grows st.heap) (sym e) g

heap-run_builtin :
    (b : Builtin) (vs : List Value) (s : Addr) (st : Store)
    → ((store_of (run_builtin b vs s st)).heap ≡ st.heap)
      ⊎ ((ps : List Addr) × ((store_of (run_builtin b vs s st)).heap ≡ (new_scope ps st.heap).0))
unfolding run_builtin
heap-run_builtin make_scope vs s st = inr (_, refl)
heap-run_builtin def vs s st = inl (ground arith)
heap-run_builtin if_ vs s st = inl (ground arith)
heap-run_builtin do_ vs s st = inl (ground arith)
heap-run_builtin op vs s st = inl (ground arith)
heap-run_builtin eval_ vs s st = inl (ground arith)
heap-run_builtin cons_ vs s st = inl (ground arith)
heap-run_builtin wrap vs s st = inl (ground arith)
heap-run_builtin unwrap vs s st = inl (ground arith)
heap-run_builtin meta_ vs s st = inl (ground arith)
heap-run_builtin with_meta vs s st = inl (ground arith)

Keeps-run_builtin :
    (b : Builtin) (vs : List Value) (s : Addr) (st : Store) → Keeps st (run_builtin b vs s st)
Keeps-run_builtin b vs s st = elim (heap-run_builtin b vs s st) [
  | inl e ↦ same_heap st (run_builtin b vs s st) st.heap e (Grows-refl st.heap)
  | inr (ps, e) ↦
      same_heap st (run_builtin b vs s st) (new_scope ps st.heap).0 e (Grows-new_scope st.heap ps)
]

Result-cases : {E A : Type 0} (r : Result E A) → ((e : E) × (r ≡ err e)) ⊎ ((a : A) × (r ≡ ok a))
Result-cases (err e) = inl (e, refl)
Result-cases (ok a) = inr (a, refl)

Keeps-call_builtin :
    (b : Builtin) (val : Value) (s : Addr) (st : Store) → Keeps st (call_builtin b val s st)
unfolding call_builtin
Keeps-call_builtin b val s st = elim (Option-cases (decode to_list val)) [
  | inl e ↦ same_store st (call_builtin b val s st) (ground (arith, e))
  | inr (list, l) ↦ elim (Result-cases (to_slice list)) [
    | inl (x, e) ↦ same_store st (call_builtin b val s st) (ground (arith, l, e))
    | inr (given, g) ↦ elim (Option-cases (check_arity b (signature b) (length given))) [
      | inr (x, e) ↦ same_store st (call_builtin b val s st) (ground (arith, l, g, e))
      | inl c ↦
          elim (Result-cases (decode_args b 0 (signature b).params (signature b).variadic given)) [
            | inl (x, e) ↦ same_store st (call_builtin b val s st) (ground (arith, l, g, c, e))
            | inr (vs, v) ↦
                let e : call_builtin b val s st ≡ run_builtin b vs s st =
                  ground (arith, l, g, c, v) in
                subst (Keeps st) (sym e) (Keeps-run_builtin b vs s st)
          ]
    ]
  ]
]

Keeps-start_bind :
    (b : Value) (s : Addr) (val : Value) (st : Store) → Keeps st (start_bind b s val st)
unfolding start_bind
Keeps-start_bind null s val st = kept (store-bind_const null null val st)
Keeps-start_bind empty s val st = kept (store-bind_const empty empty val st)
Keeps-start_bind (bool b) s val st = kept (store-bind_const (bool b) (bool b) val st)
Keeps-start_bind (int i) s val st = kept (store-bind_const (int i) (int i) val st)
Keeps-start_bind (string t) s val st = kept (store-bind_const (string t) (string t) val st)
Keeps-start_bind (keyword k) s val st = kept (store-bind_const (keyword k) (symbol k) val st)
Keeps-start_bind (command_path c) s val st =
    kept (store-bind_const (command_path c) (command_path c) val st)
Keeps-start_bind (symbol k) s val st = Grows-set st.heap s k val
Keeps-start_bind (pair a d) s val st = kept (store-bind_list (pair a d) a d s val st)
Keeps-start_bind (cons a d) s val st = kept (store-bind_list (cons a d) a d s val st)
Keeps-start_bind (bind_ vs) s val st = kept (store-bind_scope_to vs s val st)
Keeps-start_bind (annotate_binding b r vs) s val st = kept (store-bind_annotated b r vs s val st)
Keeps-start_bind _ s val st = Grows-refl st.heap

Keeps-start_eval : (v : Value) (s : Addr) (st : Store) → Keeps st (start_eval v s st)
unfolding start_eval
Keeps-start_eval (symbol k) s st = kept (found_same (lookup st s k))
  where
    found_same :
        (r : Found) → store_of (found_or r st (raise (unbound k s) st) (λ v. answer v st)) ≡ st
    found_same (found v) = refl
    found_same missing = refl
    found_same overflow = refl
Keeps-start_eval (bind_ vs) s st = Grows-new_scope st.heap (s ∷ [])
Keeps-start_eval (annotate v r c m) s st = kept (store-start_annotate v r (meta_bind c m) s st)
Keeps-start_eval _ s st = Grows-refl st.heap

Keeps-start_call : (c v : Value) (s : Addr) (st : Store) → Keeps st (start_call c v s st)
unfolding start_call
Keeps-start_call (operative n b e body static) v s st = Grows-new_scope st.heap (static ∷ [])
Keeps-start_call (wrapped c) v s st = kept (store-call_wrapped c v s st)
Keeps-start_call (builtin b) v s st = Keeps-call_builtin b v s st
Keeps-start_call (symbol_operative k) v s st = kept (store-call_symbol k v st)
Keeps-start_call (thunk_operative cmd) v s st = kept (store-call_thunk cmd v st)
Keeps-start_call (extend_operative path) v s st = kept (store-call_extend path v st)
Keeps-start_call (thunk a i) v s st = Grows-refl st.heap
Keeps-start_call app v s st = kept (store-call_unwrapped app v s st)

Keeps-start_build : (vs : Values) (s : Addr) (st : Store) → Keeps st (start_build vs s st)
unfolding start_build add_parent set_parents
Keeps-start_build none_left s st = Grows-refl st.heap
Keeps-start_build (more v vs) s st = elim (Option-cases (decode_symbol v)) [
  | inr (k, e) ↦
      same_store st (start_build (more v vs) s st)
        (ground (arith, e, store-build_symbol k v vs s st))
  | inl k ↦ elim (Option-cases (decode_scope v)) [
    | inl e ↦ same_store st (start_build (more v vs) s st) (ground (arith, k, e))
    | inr (parent, e) ↦
        same_heap st (start_build (more v vs) s st) (add_parent s parent st.heap)
          (ground (arith, k, e))
          (Grows-parents st.heap s ((deref st.heap s).parents ++ parent ∷ []))
  ]
]

-- Whatever a method of the evaluator does up to the next continuation, no scope goes away, no scope
-- loses a binding, and every binding stays in its scope's order.
pub Keeps-start : (task : Task) (st : Store) → Keeps st (start task st)
unfolding start
Keeps-start (eval v s) st = Keeps-start_eval v s st
Keeps-start (call c v s) st = Keeps-start_call c v s st
Keeps-start (bind b s v) st = Keeps-start_bind b s v st
Keeps-start (args a d s) st = Grows-refl st.heap
Keeps-start (build vs s) st = Keeps-start_build vs s st
Keeps-start (sequence s vs) st = kept (store-start_sequence s vs st)
