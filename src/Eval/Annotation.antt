-- ===== src/Eval/Annotation.antt =====
-- `Annotate.Eval` of pkg/bass/annotated.go, run with no trace in the context, and the metadata that it
-- attaches.
use bass.Prelude.{Text, Option, none, some, List, [], ◌∷◌}
use bass.Value.{Value, annotated, Values, none_left, more, Addr, Range}
use bass.Value.Decode.{decode_annotated}
use bass.Scope.Heap.{Heap, new_scope, set, found, missing, overflow}
use bass.Eval.Task.{Store, eval, Move, answer, crash, tail, push, annotate_result}
use bass.Eval.Scopes.{lookup, decoded_scope, add_parent, to_meta}
use bass.Eval.Binding.{bound_symbols}

-- A value with metadata in place of, or in front of, what it has.
abbrev pub attached : Value → Option (Value × Addr) → Addr → Value
attached res (some (v, m)) meta = annotated v meta
attached res _ meta = annotated res meta

-- The metadata's scope keeps the old metadata as a parent.
abbrev pub inherited : Option (Value × Addr) → Addr → Heap → Heap
inherited (some (v, m)) meta h = add_parent meta m h
inherited _ meta h = h

abbrev pub relabel_found : Option (Value × Addr) → Value → Addr → Heap → Heap × Value
relabel_found (some (v, m)) val bmeta h =
    let (h', c) = new_scope (m ∷ bmeta ∷ []) h in (h', annotated v c)
relabel_found _ val bmeta h = (h, annotated val bmeta)

-- The callback of `EachBinding`: the binding of a symbol gets the definition's metadata.
unfoldable pub relabel : Range → Addr → Addr → Text → Store → Option Store
relabel r s meta k st =
    let (h, bmeta) = new_scope (meta ∷ []) st.heap in
    let st' = record st { heap = to_meta r bmeta h } in
    elim (lookup st' s k) [
      | overflow ↦ none
      | missing ↦ some st'
      | found val ↦
          let (h', ann) = relabel_found (decode_annotated val) val bmeta st'.heap in
          some (record st' { heap = set s k ann h' })
    ]

unfoldable pub relabel_all : Range → Addr → Addr → List Text → Store → Option Store
relabel_all r s meta [] st = some st
relabel_all r s meta (k ∷ ks) st = elim (relabel r s meta k st) [
  | none ↦ none
  | some st' ↦ relabel_all r s meta ks st'
]

-- The continuation of the metadata's form.
unfoldable pub attach : Range → Addr → Value → Value → Store → Move
unfolding relabel_all
attach r s res meta_val st = decoded_scope meta_val st (λ meta.
    let old = decode_annotated res in
    let st' = record st { heap = inherited old meta st.heap } in
    elim (relabel_all r s meta (bound_symbols res).0 st') [
      | none ↦ crash st
      | some st'' ↦ answer (attached res old meta) st''
    ])

unfoldable pub start_annotate : Value → Range → Values → Addr → Store → Move
start_annotate v r none_left s st = tail (eval v s) st
start_annotate v r (more b bs) s st = push (eval v s) (annotate_result (more b bs) r s) st
