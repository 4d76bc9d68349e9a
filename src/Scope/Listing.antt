-- ===== src/Scope/Listing.antt =====
-- What `Each` lists: every symbol that `Get` finds, once, with the value that `Get` finds.
use mathlib.Core.Option.{some-injective}
use bass.Prelude.{
  ℕ, zero, suc, ◌≡◌, refl, Text, true, some, List, [], ◌∷◌, Option-cases, inl, inr, ◌⊎◌, arith,
}
use bass.Value.{Value, Addr}
use bass.Scope.Heap.{Bindings, Heap, deref, find, Found, found, missing, overflow, first_found, get}
use bass.Scope.Each.{contains, Visit, visit_key, fold_some, each_shadow, start, each}
use bass.Scope.Visit.{
  value_of, HasDistinctKeys, IsOrdered, IsFaithful, none_ne_some, missing_ne_found, found-cases,
  fold_some_inv, IsFaithful-visit_key, Calls-visit_key, Calls-fold_some,
}

module _ (h : Heap) (top : Text → Found) where
  IsFaithful-each_shadow :
      (n : ℕ) (a : Addr) (s s' : Visit)
      → IsFaithful top s
      → each_shadow n h top a s ≡ some s'
      → IsFaithful top s'
  unfolding each_shadow
  IsFaithful-each_shadow zero a s s' f e = absurd (none_ne_some e)
  IsFaithful-each_shadow (suc n) a s s' f e =
      elim (Option-cases (fold_some (λ p t. each_shadow n h top p t) (deref h a).parents s)) [
        | inl r ↦ absurd (none_ne_some (rw (r, each_shadow) at e))
        | inr (t, r) ↦
            fold_some_inv (IsFaithful top) (visit_key top) (IsFaithful-visit_key top)
              (deref h a).order t s'
              (fold_some_inv (IsFaithful top) (λ p t'. each_shadow n h top p t')
                (λ p u u' g. IsFaithful-each_shadow n p u u' g) (deref h a).parents s t f r)
              (rw (r, each_shadow) at e)
      ]

  module _ (j : Text) where
    abbrev Called : Visit → Type 0
    Called s = contains j s.called ≡ true

    Called-each_shadow :
        (n : ℕ) (a : Addr) (s s' : Visit) → Called s → each_shadow n h top a s ≡ some s' → Called s'
    unfolding each_shadow
    Called-each_shadow zero a s s' f e = absurd (none_ne_some e)
    Called-each_shadow (suc n) a s s' f e =
        elim (Option-cases (fold_some (λ p t. each_shadow n h top p t) (deref h a).parents s)) [
          | inl r ↦ absurd (none_ne_some (rw (r, each_shadow) at e))
          | inr (t, r) ↦
              fold_some_inv Called (visit_key top)
                (λ k u u' g q. Calls-visit_key top j k u u' q (ground (arith, g))) (deref h a).order
                t s'
                (fold_some_inv Called (λ p t'. each_shadow n h top p t')
                  (λ p u u' g. Called-each_shadow n p u u' g) (deref h a).parents s t f r)
                (rw (r, each_shadow) at e)
        ]

    Called-parents :
        (n : ℕ) (ps : List Addr) (v : Value) (s s' : Visit)
        → ((p : Addr) (w : Value) (t t' : Visit)
            → get n h p j ≡ found w
            → each_shadow n h top p t ≡ some t'
            → Called t')
        → first_found (λ p. get n h p j) ps ≡ found v
        → fold_some (λ p t. each_shadow n h top p t) ps s ≡ some s'
        → Called s'
    unfolding fold_some first_found
    Called-parents n [] v s s' ih g e = absurd (missing_ne_found g)
    Called-parents n (p ∷ ps) v s s' ih g e = elim (Option-cases (each_shadow n h top p s)) [
      | inl r ↦ absurd (none_ne_some (rw (r, fold_some) at e))
      | inr (t, r) ↦ elim (found-cases (get n h p j)) [
        | inl (w, q) ↦
            fold_some_inv Called (λ p' t'. each_shadow n h top p' t')
              (λ p' u u' c. Called-each_shadow n p' u u' c) ps t s' (ih p w s t q r)
              (rw (r, fold_some) at e)
        | inr q ↦ Called-parents n ps v t s' ih (ground (arith, g, q)) (rw (r, fold_some) at e)
      ]
    ]

    -- A symbol that `Get` finds has been called when `eachShadow` returns.
    Called-of_found :
        (ordered : IsOrdered h) (n : ℕ) (a : Addr) (v : Value) (s s' : Visit)
        → get n h a j ≡ found v
        → each_shadow n h top a s ≡ some s'
        → Called s'
    unfolding each_shadow get
    Called-of_found ordered zero a v s s' g e = absurd (none_ne_some e)
    Called-of_found ordered (suc n) a v s s' g e =
        elim (Option-cases (fold_some (λ p t. each_shadow n h top p t) (deref h a).parents s)) [
          | inl r ↦ absurd (none_ne_some (rw (r, each_shadow) at e))
          | inr (t, r) ↦ elim (Option-cases (find j (deref h a).bindings)) [
            | inl own ↦ Calls-fold_some top j (deref h a).order t s' (rw (r, each_shadow) at e) (
                ground (
                  arith,
                  Called-parents n (deref h a).parents v s t (Called-of_found ordered n)
                      (rw (own, get) at g) r,
                ))
            | inr (w, own) ↦
                Calls-fold_some top j (deref h a).order t s' (rw (r, each_shadow) at e)
                  (ground (arith, ordered a j w own))
          ]
        ]

-- On a heap where every binding is in its scope's order, what `Each` lists has no symbol twice and
-- holds, for each symbol, what `Get` finds; if `Each` ends within the depth.
pub each-eq-get :
    (n : ℕ) (h : Heap) (a : Addr) (out : Bindings)
    → IsOrdered h
    → each n h a ≡ some out
    → HasDistinctKeys out × ((k : Text) → find k out ≡ value_of (get n h a k))
unfolding each contains find
each-eq-get n h a out ordered e = elim (Option-cases (each_shadow n h (get n h a) a start)) [
  | inl r ↦ absurd (none_ne_some (rw (r, each) at e))
  | inr (s, r) ↦
      let f : IsFaithful (get n h a) s =
        IsFaithful-each_shadow h (get n h a) n a start s
          (record { lists = λ k. refl; distinct = tt }) r in
      let same : s.out ≡ out = some-injective s.out out (rw (r, each) at e) in
      (rw (← same) f.distinct, λ k. rw (← same) (at_key s f r k (found-cases (get n h a k))))
]
  where
    at_key :
        (s : Visit)
        → IsFaithful (get n h a) s
        → each_shadow n h (get n h a) a start ≡ some s
        → (k : Text)
        → ((v : Value) × (get n h a k ≡ found v))
          ⊎ ((get n h a k ≡ missing) ⊎ (get n h a k ≡ overflow))
        → find k s.out ≡ value_of (get n h a k)
    at_key s f r k (inl (v, q)) =
        ground (arith, f.lists k, Called-of_found h (get n h a) k ordered n a v start s q r)
    at_key s f r k (inr (inl q)) = ground (arith, q, f.lists k)
    at_key s f r k (inr (inr q)) = ground (arith, q, f.lists k)
