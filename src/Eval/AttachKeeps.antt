-- ===== src/Eval/AttachKeeps.antt =====
-- The metadata that `Annotate.Eval` attaches loses no scope, no binding, and no symbol of an order.
use bass.Prelude.{Text, codes, Option, none, some, List, [], ◌∷◌, ◌++◌}
use bass.Prelude.Int.{pos}
use bass.Value.{Value, int, readable, Addr, Range}
use bass.Value.Decode.{decode_scope, decode_annotated, to_scope}
use bass.Scope.Heap.{Heap, deref, set, new_scope, Found, found, missing, overflow}
use bass.Scope.Grows.{Grows, Grows-refl, Grows-trans, Grows-set, Grows-parents, Grows-new_scope}
use bass.Eval.Task.{Store, answer, raise, crash, cannot_decode}
use bass.Eval.Scopes.{set_parents, add_parent, lookup, to_meta}
use bass.Eval.Binding.{bound_symbols}
use bass.Eval.Annotation.{relabel_found, relabel, relabel_all, inherited, attached, attach}
use bass.Eval.StartKeeps.{Keeps}

pub Grows-to_meta : (h : Heap) (r : Range) (meta : Addr) → Grows h (to_meta r meta h)
unfolding to_meta
Grows-to_meta h r meta =
    let h1 = set meta (codes "file") (readable r.file) h in
    let h2 = set meta (codes "line") (int (pos r.start.ln)) h1 in
    Grows-trans (Grows-set h meta (codes "file") (readable r.file)) (
      Grows-trans (Grows-set h1 meta (codes "line") (int (pos r.start.ln)))
        (Grows-set h2 meta (codes "column") (int (pos r.start.col))))

abbrev KeepsSome : Heap → Option Store → Type 0
KeepsSome h none = Unit
KeepsSome h (some st) = Grows h st.heap

Grows-relabel_found :
    (old : Option (Value × Addr)) (val : Value) (bmeta : Addr) (h : Heap)
    → Grows h (relabel_found old val bmeta h).0
Grows-relabel_found none val bmeta h = Grows-refl h
Grows-relabel_found (some (v, m)) val bmeta h = Grows-new_scope h (m ∷ bmeta ∷ [])

KeepsSome-relabel :
    (r : Range) (s meta : Addr) (k : Text) (st : Store) → KeepsSome st.heap (relabel r s meta k st)
unfolding relabel
KeepsSome-relabel r s meta k st =
    let (h, bmeta) = new_scope (meta ∷ []) st.heap in
    let labelled = to_meta r bmeta h in
    by_found labelled bmeta
      (Grows-trans (Grows-new_scope st.heap (meta ∷ [])) (Grows-to_meta h r bmeta))
      (lookup (record st { heap = labelled }) s k)
  where
    by_found :
        (labelled : Heap) (bmeta : Addr)
        → Grows st.heap labelled
        → (f : Found)
        → KeepsSome st.heap (elim f [
          | overflow ↦ none
          | missing ↦ some (record st { heap = labelled })
          | found val ↦
              let (h', ann) = relabel_found (decode_annotated val) val bmeta labelled in
              some (record st { heap = set s k ann h' })
        ])
    by_found labelled bmeta g overflow = tt
    by_found labelled bmeta g missing = g
    by_found labelled bmeta g (found val) =
        let relabelled = relabel_found (decode_annotated val) val bmeta labelled in
        Grows-trans g (
          Grows-trans (Grows-relabel_found (decode_annotated val) val bmeta labelled)
            (Grows-set relabelled.0 s k relabelled.1))

KeepsSome-relabel_all :
    (r : Range) (s meta : Addr) (ks : List Text) (st : Store)
    → KeepsSome st.heap (relabel_all r s meta ks st)
unfolding relabel_all
KeepsSome-relabel_all r s meta [] st = Grows-refl st.heap
KeepsSome-relabel_all r s meta (k ∷ ks) st =
    next (λ st'. KeepsSome-relabel_all r s meta ks st') (relabel r s meta k st)
      (KeepsSome-relabel r s meta k st)
  where
    weaken : (h h' : Heap) (o : Option Store) → Grows h h' → KeepsSome h' o → KeepsSome h o
    weaken h h' none g t = tt
    weaken h h' (some st') g g' = Grows-trans g g'

    next :
        ((st' : Store) → KeepsSome st'.heap (relabel_all r s meta ks st'))
        → (o : Option Store) → KeepsSome st.heap o
        → KeepsSome st.heap (elim o [ none ↦ none | some st' ↦ relabel_all r s meta ks st' ])
    next later none g = tt
    next later (some st') g = weaken st.heap st'.heap (relabel_all r s meta ks st') g (later st')

Grows-inherited :
    (old : Option (Value × Addr)) (meta : Addr) (h : Heap) → Grows h (inherited old meta h)
unfolding add_parent set_parents
Grows-inherited none meta h = Grows-refl h
Grows-inherited (some (v, m)) meta h = Grows-parents h meta ((deref h meta).parents ++ m ∷ [])

pub Keeps-attach :
    (r : Range) (s : Addr) (res meta_val : Value) (st : Store)
    → Keeps st (attach r s res meta_val st)
unfolding attach
Keeps-attach r s res meta_val st = by_scope (decode_scope meta_val)
  where
    by_labels :
        (meta : Addr) (o : Option Store)
        → KeepsSome st.heap o
        → Keeps st (elim o [
          | none ↦ crash st
          | some st'' ↦ answer (attached res (decode_annotated res) meta) st''
        ])
    by_labels meta none g = Grows-refl st.heap
    by_labels meta (some st'') g = g

    all_kept :
        (meta : Addr) (o : Option Store)
        → KeepsSome (inherited (decode_annotated res) meta st.heap) o
        → KeepsSome st.heap o
    all_kept meta none g = tt
    all_kept meta (some st'') g =
        Grows-trans (Grows-inherited (decode_annotated res) meta st.heap) g

    by_scope :
        (o : Option Addr)
        → Keeps st (elim o [
          | none ↦ raise (cannot_decode to_scope) st
          | some meta ↦
              let old = decode_annotated res in
              let st' = record st { heap = inherited old meta st.heap } in
              elim (relabel_all r s meta (bound_symbols res).0 st') [
                | none ↦ crash st
                | some st'' ↦ answer (attached res old meta) st''
              ]
        ])
    by_scope none = Grows-refl st.heap
    by_scope (some meta) =
        let st' : Store = record st { heap = inherited (decode_annotated res) meta st.heap } in
        by_labels meta (relabel_all r s meta (bound_symbols res).0 st') (
          all_kept meta (relabel_all r s meta (bound_symbols res).0 st')
            (KeepsSome-relabel_all r s meta (bound_symbols res).0 st'))
