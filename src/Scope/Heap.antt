-- ===== src/Scope/Heap.antt =====
-- `Scope` of pkg/bass/scope.go. A scope is a pointer to an object that `Set` changes in place, so that
-- scopes live on a heap; a parent is the address of a scope. Recursion into parents takes fuel: the
-- depth that the stack allows.
use bass.Prelude.{
  ℕ, zero, suc, Text, text_eq, Bool, true, false, Option, none, some, List, [], ◌∷◌, ◌++◌, length,
  set as set_elem, if◌then◌else◌,
}
use bass.Value.{Value, Addr}

abbrev pub Bindings : Type 0
Bindings = List (Text × Value)

pub record ScopeObj : Type 0 where
  pub parents : List Addr
  pub bindings : Bindings
  pub order : List Text

abbrev pub Heap : Type 0
Heap = List ScopeObj

abbrev pub empty_scope : List Addr → ScopeObj
empty_scope parents = record { parents = parents; bindings = []; order = [] }

-- The object behind an address; there is always one behind an address that `new_scope` returned.
unfoldable pub deref : Heap → Addr → ScopeObj
deref [] a = empty_scope []
deref (s ∷ h) zero = s
deref (s ∷ h) (suc a) = deref h a

unfoldable pub find : Text → Bindings → Option Value
find k [] = none
find k ((j, v) ∷ m) = if text_eq j k then some v else find k m

unfoldable pub insert : Text → Value → Bindings → Bindings
insert k v [] = (k, v) ∷ []
insert k v ((j, w) ∷ m) = if text_eq j k then (j, v) ∷ m else (j, w) ∷ insert k v m

abbrev pub is_bound : Option Value → Bool
is_bound none = false
is_bound (some v) = true

-- `NewEmptyScope`: the new heap and the address.
unfoldable pub new_scope : List Addr → Heap → Heap × Addr
new_scope parents h = (h ++ empty_scope parents ∷ [], length h)

unfoldable pub set_binding : Text → Value → ScopeObj → ScopeObj
set_binding k v s = record s {
  bindings = insert k v s.bindings;
  order = if is_bound (find k s.bindings) then s.order else s.order ++ k ∷ [];
}

-- `Set` of a value with no docs.
unfoldable pub set : Addr → Text → Value → Heap → Heap
set a k v h = set_elem h a (set_binding k v (deref h a))

-- What `Get` returns, if the stack is deep enough.
pub data Found : Type 0 where
  found : Value → Found
  missing overflow : Found

-- The loop of `Get` over the parents.
unfoldable pub first_found : (Addr → Found) → List Addr → Found
first_found query [] = missing
first_found query (p ∷ ps) =
    let rest = first_found query ps in
    elim (query p) [ found v ↦ found v | missing ↦ rest | overflow ↦ overflow ]

-- `Get`.
unfoldable pub get : ℕ → Heap → Addr → Text → Found
unfolding first_found
get zero h a k = overflow
get (suc n) h a k = elim (find k (deref h a).bindings) [
  | some v ↦ found v
  | none ↦ first_found (λ p. get n h p k) (deref h a).parents
]
