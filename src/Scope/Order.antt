-- ===== src/Scope/Order.antt =====
-- The order in which `Get` searches: the scope, then each parent with all of its ancestors, in turn.
use bass.Prelude.{
  ℕ, zero, suc, ◌≡◌, ◌≢◌, refl, Text, Option, none, some, List, [], ◌∷◌, ◌++◌, Option-cases, inl,
  inr, arith,
}
use bass.Value.{Addr}
use bass.Scope.Heap.{Heap, deref, find, Found, found, missing, overflow, first_found, get}

-- All the results of a fallible function, in order.
abbrev pub gather : (Addr → Option (List Addr)) → List Addr → Option (List Addr)
gather f [] = some []
gather f (p ∷ ps) =
    let rest = gather f ps in
    elim (f p) [ none ↦ none | some xs ↦ elim rest [ none ↦ none | some ys ↦ some (xs ++ ys) ] ]

-- The scopes from `a` upwards, the nearest first; `none` if the depth does not suffice.
unfoldable pub ancestors : ℕ → Heap → Addr → Option (List Addr)
ancestors zero h a = none
ancestors (suc n) h a = elim (gather (ancestors n h) (deref h a).parents) [
  | none ↦ none
  | some chain ↦ some (a ∷ chain)
]

-- The specification of `Get`: the first scope of a list that binds the symbol.
unfoldable pub search_scopes : Heap → List Addr → Text → Found
search_scopes h [] k = missing
search_scopes h (a ∷ chain) k = elim (find k (deref h a).bindings) [
  | some v ↦ found v
  | none ↦ search_scopes h chain k
]

none_ne_some {ℓ} : {A : Type ℓ} {a : A} → none ≢ some a
none_ne_some h = cc

search_scopes-append :
    (h : Heap) (chain bs : List Addr) (k : Text)
    → search_scopes h (chain ++ bs) k ≡ (elim (search_scopes h chain k) [
      | found v ↦ found v
      | missing ↦ search_scopes h bs k
      | overflow ↦ overflow
    ])
unfolding search_scopes
search_scopes-append h [] bs k = refl
search_scopes-append h (a ∷ chain) bs k = ground (arith, search_scopes-append h chain bs k)

first_found-eq-search :
    (n : ℕ) (h : Heap) (k : Text) (ps chain : List Addr)
    → ((a : Addr) (bs : List Addr) → ancestors n h a ≡ some bs → get n h a k ≡ search_scopes h bs k)
    → gather (ancestors n h) ps ≡ some chain
    → first_found (λ p. get n h p k) ps ≡ search_scopes h chain k
unfolding first_found search_scopes
first_found-eq-search n h k [] chain ih g = ground arith
first_found-eq-search n h k (p ∷ ps) chain ih g = elim (Option-cases (ancestors n h p)) [
  | inl e ↦ absurd (none_ne_some (rw (e, gather) at g))
  | inr (first, e) ↦ elim (Option-cases (gather (ancestors n h) ps)) [
    | inl e' ↦ absurd (none_ne_some (rw (e, e', gather) at g))
    | inr (rest, e') ↦ ground (
      arith,
      g,
      e,
      e',
      ih p first e,
      first_found-eq-search n h k ps rest ih e',
      search_scopes-append h first rest k,
    )
  ]
]

-- `Get` returns the binding of the first scope in the order of the search that binds the symbol,
-- and nothing if none does, wherever the depth suffices to list the ancestors.
pub get-eq-search :
    (n : ℕ) (h : Heap) (a : Addr) (chain : List Addr) (k : Text)
    → ancestors n h a ≡ some chain
    → get n h a k ≡ search_scopes h chain k
unfolding get ancestors search_scopes
get-eq-search zero h a chain k e = absurd (none_ne_some e)
get-eq-search (suc n) h a chain k e =
    elim (Option-cases (gather (ancestors n h) (deref h a).parents)) [
      | inl g ↦ absurd (none_ne_some (rw (g, ancestors) at e))
      | inr (rest, g) ↦ ground (
        arith,
        e,
        g,
        first_found-eq-search n h k (deref h a).parents rest (λ b bs f. get-eq-search n h b bs k f)
            g,
      )
    ]
