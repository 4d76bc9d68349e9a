-- ===== src/Eval/Invariant.antt =====
-- No continuation, and so no evaluation, loses a scope, a binding, or a symbol of a scope's order.
use bass.Prelude.{refl, List, [], Result, ok, err, inl, inr, Option-cases, arith}
use bass.Value.{Value, Addr}
use bass.Value.Decode.{decode, decode_scope, to_combiner}
use bass.Value.Lists.{to_slice}
use bass.Scope.Grows.{Grows, Grows-refl, Grows-trans, Grows-parents}
use bass.Eval.Task.{
  Store, bind, Frame, apply_to, args_tail, args_done, list_tail, list_done, build_in, annotate_meta,
  bind_with_meta, extend_child, compare_with, Move, push,
}
use bass.Eval.Scopes.{set_parents, to_meta}
use bass.Eval.Step.{resume, build_from}
use bass.Eval.Keeps.{
  store_of, store-bind_const, store-args_from, store-apply_result, store-extend_result,
  store-decoded_binding,
}
use bass.Eval.StartKeeps.{Keeps, same_store, same_heap, kept, Keeps-start}
use bass.Eval.AttachKeeps.{Grows-to_meta, Keeps-attach}
use bass.Eval.Trampoline.{
  Outcome, value, error, crashed, unmodelled, Runs, answers, raises, crashes, leaves, tails, pushes,
  push_error, push_crash, push_unmodelled,
}

Keeps-build_from :
    (r : Result Value (List Value)) (s : Addr) (st : Store) → Keeps st (build_from r s st)
unfolding set_parents
Keeps-build_from (err e) s st = Grows-refl st.heap
Keeps-build_from (ok vs) s st = Grows-parents st.heap s []

-- Whatever a continuation does up to the next one, no scope goes away, no scope loses a binding, and
-- every binding stays in its scope's order.
pub Keeps-resume : (frame : Frame) (v : Value) (st : Store) → Keeps st (resume frame v st)
unfolding resume
Keeps-resume (apply_to d s) f st = kept (store-apply_result (decode to_combiner f) f d s st)
Keeps-resume (args_tail d s) a st = kept (store-args_from d s (args_done a) st)
Keeps-resume (list_tail d s val) f st =
    kept (store-decoded_binding d st (λ r. push (bind r s val) (list_done f) st) (λ r. refl))
Keeps-resume (build_in s) vals st = Keeps-build_from (to_slice vals) s st
Keeps-resume (annotate_meta r s res) meta st = Keeps-attach r s res meta st
Keeps-resume (bind_with_meta b r s val) meta_val st = elim (Option-cases (decode_scope meta_val)) [
  | inl e ↦ same_store st (resume (bind_with_meta b r s val) meta_val st) (ground (arith, e))
  | inr (meta, e) ↦
      same_heap st (resume (bind_with_meta b r s val) meta_val st) (to_meta r meta st.heap)
        (ground (arith, e)) (Grows-to_meta st.heap r meta)
]
Keeps-resume (extend_child c s) p st = kept (store-extend_result (decode to_combiner p) p c s st)
Keeps-resume (compare_with binding val) res st = kept (store-bind_const binding res val st)
Keeps-resume _ v st = Grows-refl st.heap

abbrev pub store_after : Outcome → Store
store_after (value v st) = st
store_after (error e st) = st
store_after (crashed st) = st
store_after (unmodelled st) = st

Grows-move :
    {move : Move} {o : Outcome} → Runs move o → Grows (store_of move).heap (store_after o).heap
Grows-move (answers v st) = Grows-refl st.heap
Grows-move (raises e st) = Grows-refl st.heap
Grows-move (crashes st) = Grows-refl st.heap
Grows-move (leaves st) = Grows-refl st.heap
Grows-move (tails task st o d) = Grows-trans (Keeps-start task st) (Grows-move d)
Grows-move (pushes task frame st v st' o d d') =
    Grows-trans (Keeps-start task st)
      (Grows-trans (Grows-move d) (Grows-trans (Keeps-resume frame v st') (Grows-move d')))
Grows-move (push_error task frame st e st' d) = Grows-trans (Keeps-start task st) (Grows-move d)
Grows-move (push_crash task frame st st' d) = Grows-trans (Keeps-start task st) (Grows-move d)
Grows-move (push_unmodelled task frame st st' d) = Grows-trans (Keeps-start task st) (Grows-move d)

-- An evaluation, whatever it comes to, leaves a heap with every scope and every binding that there
-- was (with its value or another one), and with every binding in its scope's order if that was so
-- before.
pub Grows-Runs :
    (move : Move) (o : Outcome) → Runs move o → Grows (store_of move).heap (store_after o).heap
Grows-Runs move o d = Grows-move d
