-- ===== src/Scope/Lookup.antt =====
-- What `Get` finds after `Set`, and in which order it searches.
use mathlib.Core.Path.{fun_ext}
use native.Mathlib.Decide.{ℕ_discrete}
use bass.Prelude.{
  ℕ, zero, suc, ◌<◌, ◌≡◌, ◌≢◌, refl, Text, text_eq, text_eq_iff, text_eq_refl, ◌==◌, ◌&&◌, some,
  length, if◌then◌else◌, arith,
}
use bass.Value.{Value, Addr}
use bass.Scope.Heap.{Heap, deref, find, set_binding, set, found, first_found, get}
use bass.Scope.Deref.{find-insert, deref-set_self, deref-set_ne}

pub find-deref-set :
    (h : Heap) (a b : Addr) (k j : Text) (v : Value)
    → a < length h
    → find j (deref (set a k v h) b).bindings
      ≡ (if a == b && text_eq k j then some v else find j (deref h b).bindings)
unfolding set_binding
find-deref-set h a b k j v p = elim (ℕ_discrete a b) [
  | yes e ↦ ground (arith, deref-set_self h a k v p, find-insert k j v (deref h a).bindings)
  | no n ↦ ground (arith, deref-set_ne h a b k v n)
]

pub parents-deref-set :
    (h : Heap) (a b : Addr) (k : Text) (v : Value)
    → a < length h
    → (deref (set a k v h) b).parents ≡ (deref h b).parents
unfolding set_binding
parents-deref-set h a b k v p = elim (ℕ_discrete a b) [
  | yes e ↦ ground (arith, deref-set_self h a k v p)
  | no n ↦ ground (arith, deref-set_ne h a b k v n)
]

-- `Set` makes `Get` find the new value in the scope that it was called on.
pub get-set_self :
    (n : ℕ) (h : Heap) (a : Addr) (k : Text) (v : Value)
    → a < length h
    → get (suc n) (set a k v h) a k ≡ found v
unfolding get
get-set_self n h a k v p = ground (arith, find-deref-set h a a k k v p, text_eq_refl k)

-- `Set` of one symbol changes no `Get` of another, in any scope.
pub get-set_ne :
    (n : ℕ) (h : Heap) (a b : Addr) (k j : Text) (v : Value)
    → a < length h
    → k ≢ j
    → get n (set a k v h) b j ≡ get n h b j
unfolding get
get-set_ne zero h a b k j v p ne = refl
get-set_ne (suc n) h a b k j v p ne =
    let own : find j (deref (set a k v h) b).bindings ≡ find j (deref h b).bindings =
      ground (arith, find-deref-set h a b k j v p, text_eq_iff k j) in
    let rest : first_found (λ q. get n (set a k v h) q j) (deref (set a k v h) b).parents
        ≡ first_found (λ q. get n h q j) (deref h b).parents =
      rw (parents-deref-set h a b k v p, fun_ext (λ q. get-set_ne n h a q k j v p ne)) refl in
    ground (arith, own, rest)

-- `Set` in one scope changes no `Get` in a scope that binds the symbol itself.
pub get-set_shadowed :
    (n : ℕ) (h : Heap) (a b : Addr) (k : Text) (v w : Value)
    → a < length h
    → a ≢ b
    → find k (deref h b).bindings ≡ some w
    → get (suc n) (set a k v h) b k ≡ found w
unfolding get
get-set_shadowed n h a b k v w p ne own = ground (arith, find-deref-set h a b k k v p)
