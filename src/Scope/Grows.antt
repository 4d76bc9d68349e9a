-- ===== src/Scope/Grows.antt =====
-- What every change of the heap keeps.
use native.Mathlib.Decide.{ℕ_discrete, dec_lt}
use bass.Prelude.{
  zero, suc, ◌≤◌, ◌≡◌, refl, ap, Text, text_eq, text_eq_iff, Bool, true, false, some, List, [], ◌∷◌,
  ◌++◌, length, length-append, length-set, set as set_elem, Option-cases, inl, inr, if◌then◌else◌,
  arith,
}
use bass.Value.{Value, Addr}
use bass.Scope.Heap.{ScopeObj, Heap, empty_scope, deref, find, insert, new_scope, set_binding, set}
use bass.Scope.Each.{contains}
use bass.Scope.Deref.{find-insert, deref-set_elem_self, deref-set_elem_ne, deref-append_lt}
use bass.Scope.Visit.{IsOrdered, contains-append, none_ne_some}
use bass.Scope.Acyclic.{deref-ge}

-- No scope goes away, no scope loses a binding, and every binding stays in its scope's order.
pub record Grows (h h' : Heap) : Type 0 where
  pub longer : length h ≤ length h'
  pub bound :
      (a : Addr) (k : Text) (v : Value)
      → find k (deref h a).bindings ≡ some v
      → (w : Value) × (find k (deref h' a).bindings ≡ some w)
  pub ordered : IsOrdered h → IsOrdered h'

pub Grows-refl : (h : Heap) → Grows h h
Grows-refl h = record { longer = omega arith; bound = λ a k v e. (v, e); ordered = λ o. o }

pub Grows-trans : {h h' h'' : Heap} → Grows h h' → Grows h' h'' → Grows h h''
Grows-trans g g' = record {
  longer = omega (arith, g.longer, g'.longer);
  bound = λ a k v e. let (w, f) = g.bound a k v e in g'.bound a k w f;
  ordered = λ o. g'.ordered (g.ordered o);
}

set_elem-ge : (h : Heap) (a : Addr) (s : ScopeObj) → length h ≤ a → set_elem h a s ≡ h
set_elem-ge [] a s p = refl
set_elem-ge (x ∷ h) zero s p = absurd (omega arith)
set_elem-ge (x ∷ h) (suc a) s p = ap (λ t. x ∷ t) (set_elem-ge h a s (omega arith))

-- A scope may be replaced by one that binds as much, in an order that lists it all.
record Covers (s s' : ScopeObj) : Type 0 where
  bound :
      (k : Text) (v : Value)
      → find k s.bindings ≡ some v
      → (w : Value) × (find k s'.bindings ≡ some w)
  ordered :
      ((k : Text) (v : Value) → find k s.bindings ≡ some v → contains k s.order ≡ true)
      → (k : Text) (v : Value) → find k s'.bindings ≡ some v
      → contains k s'.order ≡ true

Grows-set_elem :
    (h : Heap) (a : Addr) (s : ScopeObj) → Covers (deref h a) s → Grows h (set_elem h a s)
Grows-set_elem h a s c = elim (dec_lt a (length h)) [
  | no ge ↦ rw (set_elem-ge h a s (omega arith)) (Grows-refl h)
  | yes lt ↦ record {
    longer = omega (arith, length-set h a s);
    bound = λ b k v e. elim (ℕ_discrete a b) [
      | yes p ↦ rw (← p, deref-set_elem_self h a s lt) (c.bound k v (rw (← p) at e))
      | no n ↦ (v, rw (deref-set_elem_ne h a b s n) e)
    ];
    ordered = λ o b k v e. elim (ℕ_discrete a b) [
      | yes p ↦
          rw (← p, deref-set_elem_self h a s lt)
            (c.ordered (o a) k v (rw (← p, deref-set_elem_self h a s lt) at e))
      | no n ↦ rw (deref-set_elem_ne h a b s n) (o b k v (rw (deref-set_elem_ne h a b s n) at e))
    ];
  }
]

Covers-set_binding : (s : ScopeObj) (k : Text) (v : Value) → Covers s (set_binding k v s)
unfolding set_binding contains
Covers-set_binding s k v = record {
  bound = λ j w e. bound_at j w e (find-insert k j v s.bindings) (text_eq k j) refl;
  ordered = λ o j w e. elim (Option-cases (find j s.bindings)) [
    | inl unbound ↦ ground (
      arith,
      find-insert k j v s.bindings,
      text_eq_iff k j,
      contains-append j s.order (k ∷ []),
      e,
      unbound,
    )
    | inr (u, some_u) ↦
        ground (arith, text_eq_iff k j, contains-append j s.order (k ∷ []), o j u some_u)
  ];
}
  where
    bound_at :
        (j : Text) (w : Value)
        → find j s.bindings ≡ some w
        → find j (insert k v s.bindings) ≡ (if text_eq k j then some v else find j s.bindings)
        → (b : Bool) → text_eq k j ≡ b
        → (u : Value) × (find j (insert k v s.bindings) ≡ some u)
    bound_at j w e f true t = (v, ground (arith, f, t))
    bound_at j w e f false t = (w, ground (arith, f, t, e))

pub Grows-set : (h : Heap) (a : Addr) (k : Text) (v : Value) → Grows h (set a k v h)
unfolding set
Grows-set h a k v =
    Grows-set_elem h a (set_binding k v (deref h a)) (Covers-set_binding (deref h a) k v)

pub Grows-parents :
    (h : Heap) (a : Addr) (parents : List Addr)
    → Grows h (set_elem h a (record (deref h a) { parents = parents }))
Grows-parents h a parents =
    Grows-set_elem h a (record (deref h a) { parents = parents })
      (record { bound = λ k v e. (v, e); ordered = λ o k v e. o k v e })

deref-append_ge :
    (h : Heap) (parents : List Addr) (a : Addr)
    → length h ≤ a
    → (deref (h ++ empty_scope parents ∷ []) a).bindings ≡ []
unfolding deref
deref-append_ge [] parents zero p = refl
deref-append_ge [] parents (suc a) p = refl
deref-append_ge (x ∷ h) parents zero p = absurd (omega arith)
deref-append_ge (x ∷ h) parents (suc a) p = deref-append_ge h parents a (omega arith)

pub Grows-new_scope : (h : Heap) (parents : List Addr) → Grows h (new_scope parents h).0
unfolding new_scope find contains
Grows-new_scope h parents = record {
  longer = omega (arith, length-append h (empty_scope parents ∷ []));
  bound = λ a k v e. elim (dec_lt a (length h)) [
    | yes lt ↦ (v, rw (deref-append_lt h (empty_scope parents ∷ []) a lt) e)
    | no ge ↦ absurd (none_ne_some (rw (deref-ge h a (omega arith)) at e))
  ];
  ordered = λ o a k v e. elim (dec_lt a (length h)) [
    | yes lt ↦
        rw (deref-append_lt h (empty_scope parents ∷ []) a lt)
          (o a k v (rw (deref-append_lt h (empty_scope parents ∷ []) a lt) at e))
    | no ge ↦ absurd (none_ne_some (rw (deref-append_ge h parents a (omega arith)) at e))
  ];
}
