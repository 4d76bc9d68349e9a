-- ===== src/Scope/Agree.antt =====
-- `Get` in two heaps that agree on the scopes that it can reach.
use bass.Prelude.{ℕ, zero, suc, ◌<◌, ◌≡◌, refl, Text, none, some, List, [], ◌∷◌, length, arith}
use bass.Value.{Addr}
use bass.Scope.Heap.{Heap, deref, find, Found, found, missing, overflow, first_found, get}

-- Every address in the list is below the first one.
abbrev AllBelow : Addr → List Addr → Type 0
AllBelow a [] = Unit
AllBelow a (p ∷ ps) = (p < a) × AllBelow a ps

-- No scope has a parent outside the heap.
abbrev pub IsClosed : Heap → Type 0
IsClosed h = (a : Addr) → a < length h → AllBelow (length h) (deref h a).parents

first_found-agree :
    (query query' : Addr → Found) (n : ℕ) (ps : List Addr)
    → ((p : Addr) → p < n → query p ≡ query' p)
    → AllBelow n ps
    → first_found query ps ≡ first_found query' ps
unfolding first_found
first_found-agree query query' n [] h b = refl
first_found-agree query query' n (p ∷ ps) h b =
    ground (arith, h p b.0, first_found-agree query query' n ps h b.1)

-- A heap that keeps the scopes of a closed heap as they are keeps every `Get` in them.
pub get-agree :
    (n : ℕ) (h h' : Heap) (a : Addr) (k : Text)
    → IsClosed h
    → ((b : Addr) → b < length h → deref h' b ≡ deref h b)
    → a < length h
    → get n h' a k ≡ get n h a k
unfolding get
get-agree zero h h' a k closed same p = refl
get-agree (suc n) h h' a k closed same p =
    let parents =
      first_found-agree (λ q. get n h' q k) (λ q. get n h q k) (length h) (deref h a).parents
        (λ q lt. get-agree n h h' q k closed same lt) (closed a p) in
    ground (arith, same a p, parents)

first_found-one : (query : Addr → Found) (p : Addr) → first_found query (p ∷ []) ≡ query p
unfolding first_found
first_found-one query p = one (query p)
  where
    one : (r : Found) → (elim r [ found v ↦ found v | missing ↦ missing | overflow ↦ overflow ]) ≡ r
    one (found v) = refl
    one missing = refl
    one overflow = refl

-- A scope with one parent finds its own bindings, and what its parent finds where it has none.
pub get-one_parent :
    (n : ℕ) (h : Heap) (a p : Addr) (k : Text)
    → (deref h a).parents ≡ p ∷ []
    → get (suc n) h a k
      ≡ (elim (find k (deref h a).bindings) [ some v ↦ found v | none ↦ get n h p k ])
unfolding get
get-one_parent n h a p k e = ground (arith, e, first_found-one (λ q. get n h q k) p)
