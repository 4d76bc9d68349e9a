-- ===== src/Scope/Acyclic.antt =====
-- The depth that `Get` needs: on an acyclic heap the search ends, and on one with a cycle it may not.
use bass.Prelude.{
  ℕ, zero, suc, ◌<◌, ◌≤◌, ◌≡◌, refl, Text, Option, none, some, List, [], ◌∷◌, ◌++◌, length, arith,
}
use bass.Value.{Addr}
use bass.Scope.Heap.{Heap, empty_scope, deref, find, overflow, first_found, get}
use bass.Scope.Order.{ancestors, gather, search_scopes, get-eq-search}

abbrev pub AllBelow : Addr → List Addr → Type 0
AllBelow a [] = Unit
AllBelow a (p ∷ ps) = (p < a) × AllBelow a ps

-- Every parent in the list has a lower rank.
abbrev pub RanksBelow : (Addr → ℕ) → ℕ → List Addr → Type 0
RanksBelow rank n [] = Unit
RanksBelow rank n (p ∷ ps) = (rank p < n) × RanksBelow rank n ps

-- Scopes have ranks that fall from every scope to its parents: there is no cycle of parents.
abbrev pub IsRanked : (Addr → ℕ) → Heap → Type 0
IsRanked rank h = (a : Addr) → RanksBelow rank (rank a) (deref h a).parents

gather_total :
    (f : Addr → Option (List Addr)) (rank : Addr → ℕ) (n : ℕ) (ps : List Addr)
    → ((p : Addr) → rank p < n → (chain : List Addr) × (f p ≡ some chain))
    → RanksBelow rank n ps
    → (chain : List Addr) × (gather f ps ≡ some chain)
gather_total f rank n [] h b = ([], refl)
gather_total f rank n (p ∷ ps) h b =
    let (first, e) = h p b.0 in
    let (rest, e') = gather_total f rank n ps h b.1 in (first ++ rest, ground (arith, e, e'))

pub deref-ge : (h : Heap) (a : Addr) → length h ≤ a → deref h a ≡ empty_scope []
unfolding deref
deref-ge [] a p = refl
deref-ge (x ∷ h) zero p = absurd (omega arith)
deref-ge (x ∷ h) (suc a) p = deref-ge h a (omega arith)

-- A depth above the rank is enough to list all the ancestors of a scope.
pub ancestors_total :
    (n : ℕ) (rank : Addr → ℕ) (h : Heap) (a : Addr)
    → IsRanked rank h
    → rank a < n
    → (chain : List Addr) × (ancestors n h a ≡ some chain)
unfolding ancestors
ancestors_total zero rank h a ac q = absurd (omega arith)
ancestors_total (suc n) rank h a ac q =
    let (chain, e) =
      gather_total (ancestors n h) rank (rank a) (deref h a).parents
        (λ b lt. ancestors_total n rank h b ac (omega arith)) (ac a) in
    (a ∷ chain, ground (arith, e))

-- Where scopes have ranks that fall from every scope to its parents, which is to say that the parents
-- form no cycle, `Get` ends within a depth above the scope's rank, and returns the binding of the first
-- scope that binds the symbol, in the order of the search.
pub get_total :
    (n : ℕ) (rank : Addr → ℕ) (h : Heap) (a : Addr) (k : Text)
    → IsRanked rank h
    → rank a < n
    → (chain : List Addr) × (ancestors n h a ≡ some chain) × (get n h a k ≡ search_scopes h chain k)
get_total n rank h a k ac q =
    let (chain, e) = ancestors_total n rank h a ac q in (chain, e, get-eq-search n h a chain k e)

-- A scope whose first parent is the scope itself: `Get` of a symbol that it does not bind recurs until
-- the stack overflows, whatever its depth.
pub get-self_parent :
    (n : ℕ) (h : Heap) (a : Addr) (ps : List Addr) (k : Text)
    → (deref h a).parents ≡ a ∷ ps
    → find k (deref h a).bindings ≡ none
    → get n h a k ≡ overflow
unfolding get first_found
get-self_parent zero h a ps k e f = refl
get-self_parent (suc n) h a ps k e f = ground (arith, get-self_parent n h a ps k e f)
