-- ===== src/Scope/Copy.antt =====
-- `Copy`: a scope of its own that binds what the original finds.
use mathlib.Core.Option.{some-injective}
use bass.Prelude.{
  ℕ, suc, ◌<◌, ◌≡◌, ◌≢◌, refl, sym, ap, ◌∙◌, Text, text_eq_iff, Option, none, some, [], ◌∷◌, ◌++◌,
  length, length-append, Option-cases, inl, inr, arith,
}
use bass.Value.{Value, Addr}
use bass.Scope.Heap.{
  Bindings, Heap, empty_scope, deref, find, set, new_scope, Found, found, missing, first_found, get,
}
use bass.Scope.Each.{each, set_all, copy}
use bass.Scope.Deref.{deref-append_self, deref-append_lt, length-set_lem, deref-set_ne}
use bass.Scope.Lookup.{find-deref-set, parents-deref-set}
use bass.Scope.Visit.{value_of, HasDistinctKeys, IsOrdered, none_ne_some}
use bass.Scope.Listing.{each-eq-get}

abbrev pub found_or_missing : Option Value → Found
found_or_missing none = missing
found_or_missing (some v) = found v

pub find-set_all :
    (m : Bindings) (h : Heap) (c : Addr) (k : Text)
    → c < length h
    → HasDistinctKeys m
    → find k (deref (set_all c m h) c).bindings
      ≡ (elim (find k m) [ some v ↦ some v | none ↦ find k (deref h c).bindings ])
unfolding find set_all
find-set_all [] h c k p d = refl
find-set_all ((j, v) ∷ m) h c k p d = ground (
  arith,
  d.0,
  find-set_all m (set c j v h) c k (omega (arith, length-set_lem h c j v)) d.1,
  find-deref-set h c c j k v p,
  text_eq_iff j k,
)

pub parents-set_all :
    (m : Bindings) (h : Heap) (c : Addr)
    → c < length h
    → (deref (set_all c m h) c).parents ≡ (deref h c).parents
unfolding set_all
parents-set_all [] h c p = refl
parents-set_all ((j, v) ∷ m) h c p =
    parents-set_all m (set c j v h) c (omega (arith, length-set_lem h c j v))
    ∙ parents-deref-set h c c j v p

pub deref-set_all_ne :
    (m : Bindings) (h : Heap) (c a : Addr) → c ≢ a → deref (set_all c m h) a ≡ deref h a
unfolding set_all
deref-set_all_ne [] h c a n = refl
deref-set_all_ne ((j, v) ∷ m) h c a n =
    deref-set_all_ne m (set c j v h) c a n ∙ deref-set_ne h c a j v n

module _ (h : Heap) (pairs : Bindings) where
  abbrev fresh : Heap
  fresh = h ++ empty_scope [] ∷ []

  within : length h < length fresh
  within = omega (arith, length-append h (empty_scope [] ∷ []))

  get-set_all :
      (m : ℕ) (k : Text)
      → HasDistinctKeys pairs
      → get (suc m) (set_all (length h) pairs fresh) (length h) k ≡ found_or_missing (find k pairs)
  unfolding get first_found find
  get-set_all m k d =
      let own = find-set_all pairs fresh (length h) k within d in
      let ps = parents-set_all pairs fresh (length h) within in
      let new = deref-append_self h (empty_scope []) in ground (arith, own, ps, new)

-- On a heap where every binding is in its scope's order, if `Copy` ends within the depth, `Get` in the copy
-- finds what `Get` finds in the original, in one step; the copy is a new scope, and every scope that was
-- there is left as it was.
pub get-copy :
    (n m : ℕ) (h h' : Heap) (a c : Addr)
    → IsOrdered h
    → copy n a h ≡ some (h', c)
    → ((k : Text) → get (suc m) h' c k ≡ found_or_missing (value_of (get n h a k)))
      × (c ≡ length h)
      × ((b : Addr) → b < length h → deref h' b ≡ deref h b)
unfolding copy new_scope
get-copy n m h h' a c ordered e = elim (Option-cases (each n h a)) [
  | inl r ↦ absurd (none_ne_some (rw (r, copy) at e))
  | inr (pairs, r) ↦
      let listed = each-eq-get n h a pairs ordered r in
      let same =
        some-injective (set_all (length h) pairs (fresh h pairs), length h) (h', c)
          (rw (r, copy) at e) in
      let heap : set_all (length h) pairs (fresh h pairs) ≡ h' = ap (λ t. t.0) same in
      let addr : length h ≡ c = ap (λ t. t.1) same in
      (
        λ k.
            rw (← heap, ← addr)
              (get-set_all h pairs m k listed.0 ∙ ap found_or_missing (listed.1 k)),
        sym addr,
        λ b lt. rw (← heap) (
            deref-set_all_ne pairs (fresh h pairs) (length h) b (omega arith)
            ∙ deref-append_lt h (empty_scope [] ∷ []) b lt),
      )
]
