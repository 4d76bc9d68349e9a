-- ===== src/Eval/Scopes.antt =====
-- The changes that evaluation makes to scopes besides `Set`, and the decoding that ends in an error.
use bass.Prelude.{suc, Text, codes, none, some, List, [], ◌∷◌, ◌++◌, length, set as set_elem}
use bass.Prelude.Int.{pos}
use bass.Value.{Value, int, readable, Addr, Range}
use bass.Value.Decode.{Dest, to_scope, decode, decode_scope}
use bass.Scope.Heap.{Heap, deref, set, Found, found, missing, overflow, get}
use bass.Eval.Task.{Store, Move, raise, crash, cannot_decode}

-- `scope.Parents = parents`.
unfoldable pub set_parents : Addr → List Addr → Heap → Heap
set_parents a parents h = set_elem h a (record (deref h a) { parents = parents })

-- `scope.Parents = append(scope.Parents, parent)`.
unfoldable pub add_parent : Addr → Addr → Heap → Heap
add_parent a parent h = set_parents a ((deref h a).parents ++ parent ∷ []) h

-- `Get` in the current heap. A search with no cycle is no deeper than there are scopes.
unfoldable pub lookup : Store → Addr → Text → Found
lookup st a k = get (suc (length st.heap)) st.heap a k

-- `Range.ToMeta`.
unfoldable pub to_meta : Range → Addr → Heap → Heap
to_meta r meta h =
    set meta (codes "column") (int (pos r.start.col))
      (set meta (codes "line") (int (pos r.start.ln)) (set meta (codes "file") (readable r.file) h))

-- `v.Decode(&x)` whose error is returned.
abbrev pub decoded : Dest → Value → Store → (Value → Move) → Move
decoded d v st next = elim (decode d v) [ none ↦ raise (cannot_decode d) st | some x ↦ next x ]

-- The same for a scope.
abbrev pub decoded_scope : Value → Store → (Addr → Move) → Move
decoded_scope v st next = elim (decode_scope v) [
  | none ↦ raise (cannot_decode to_scope) st
  | some a ↦ next a
]

-- `Get` whose failure is handled.
abbrev pub found_or : Found → Store → Move → (Value → Move) → Move
found_or (found v) st absent next = next v
found_or missing st absent next = absent
found_or overflow st absent next = crash st
