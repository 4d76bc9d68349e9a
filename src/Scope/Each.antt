-- ===== src/Scope/Each.antt =====
-- `eachShadow`, `Each` and `Copy` of pkg/bass/scope.go. The callback is called on the pairs that
-- `each` lists, in their order.
use bass.Prelude.{
  ℕ, zero, suc, Text, text_eq, Bool, false, ◌||◌, Option, none, some, List, [], ◌∷◌, ◌++◌,
  if◌then◌else◌,
}
use bass.Value.{Addr}
use bass.Scope.Heap.{Bindings, Heap, deref, Found, found, missing, overflow, get, new_scope, set}

unfoldable pub contains : Text → List Text → Bool
contains k [] = false
contains k (j ∷ js) = text_eq j k || contains k js

-- What the traversal keeps: the symbols that were called, and the pairs given to the callback.
pub record Visit : Type 0 where
  pub called : List Text
  pub out : Bindings

unfoldable pub visit_key : (Text → Found) → Text → Visit → Option Visit
visit_key top k s = if contains k s.called then some s else elim (top k) [
  | found v ↦ some (record { called = s.called ++ k ∷ []; out = s.out ++ (k, v) ∷ [] })
  | missing ↦ some (record s { called = s.called ++ k ∷ [] })
  | overflow ↦ none
]

-- A loop whose rounds may fail.
unfoldable pub fold_some {ℓ} :
    {A : Type ℓ} → (A → Visit → Option Visit) → List A → Visit → Option Visit
fold_some round [] s = some s
fold_some round (x ∷ xs) s = elim (round x s) [ none ↦ none | some s' ↦ fold_some round xs s' ]

-- `eachShadow`: the parents first, then the scope's own order.
unfoldable pub each_shadow : ℕ → Heap → (Text → Found) → Addr → Visit → Option Visit
each_shadow zero h top a s = none
each_shadow (suc n) h top a s =
    elim (fold_some (λ p s'. each_shadow n h top p s') (deref h a).parents s) [
      | none ↦ none
      | some s' ↦ fold_some (visit_key top) (deref h a).order s'
    ]

abbrev pub start : Visit
start = record { called = []; out = [] }

-- `Each`; `none` if the depth does not suffice.
unfoldable pub each : ℕ → Heap → Addr → Option Bindings
each n h a = elim (each_shadow n h (get n h a) a start) [ none ↦ none | some s ↦ some s.out ]

unfoldable pub set_all : Addr → Bindings → Heap → Heap
set_all a [] h = h
set_all a ((k, v) ∷ m) h = set_all a m (set a k v h)

-- `Copy`: the new heap and the address of the copy.
unfoldable pub copy : ℕ → Addr → Heap → Option (Heap × Addr)
copy n a h =
    let (h', c) = new_scope [] h in
    elim (each n h a) [ none ↦ none | some pairs ↦ some (set_all c pairs h', c) ]
