-- ===== src/Scope/Deref.antt =====
-- Laws of a scope's bindings and of the heap cells.
use bass.Prelude.{
  zero, suc, ◌<◌, ◌≡◌, ◌≢◌, refl, ap, Text, text_eq, text_eq_iff, some, [], ◌∷◌, ◌++◌, length,
  length-set, set as set_elem, if◌then◌else◌, arith,
}
use bass.Value.{Value, Addr}
use bass.Scope.Heap.{Bindings, ScopeObj, Heap, deref, find, insert, set_binding, set}

pub find-insert :
    (k j : Text) (v : Value) (m : Bindings)
    → find j (insert k v m) ≡ (if text_eq k j then some v else find j m)
unfolding find insert
find-insert k j v [] = ground arith
find-insert k j v ((i, w) ∷ m) =
    ground (arith, text_eq_iff k j, text_eq_iff i k, text_eq_iff i j, find-insert k j v m)

pub deref-set_elem_self :
    (h : Heap) (a : Addr) (s : ScopeObj) → a < length h → deref (set_elem h a s) a ≡ s
unfolding deref
deref-set_elem_self [] a s h = elim h [ ]
deref-set_elem_self (x ∷ h) zero s p = refl
deref-set_elem_self (x ∷ h) (suc a) s p = deref-set_elem_self h a s (omega arith)

pub deref-set_elem_ne :
    (h : Heap) (a b : Addr) (s : ScopeObj) → a ≢ b → deref (set_elem h a s) b ≡ deref h b
unfolding deref
deref-set_elem_ne [] a b s n = refl
deref-set_elem_ne (x ∷ h) zero zero s n = absurd (n refl)
deref-set_elem_ne (x ∷ h) zero (suc b) s n = refl
deref-set_elem_ne (x ∷ h) (suc a) zero s n = refl
deref-set_elem_ne (x ∷ h) (suc a) (suc b) s n = deref-set_elem_ne h a b s (λ e. n (ap suc e))

pub deref-set_self :
    (h : Heap) (a : Addr) (k : Text) (v : Value)
    → a < length h
    → deref (set a k v h) a ≡ set_binding k v (deref h a)
unfolding set
deref-set_self h a k v p = deref-set_elem_self h a (set_binding k v (deref h a)) p

pub deref-set_ne :
    (h : Heap) (a b : Addr) (k : Text) (v : Value) → a ≢ b → deref (set a k v h) b ≡ deref h b
unfolding set
deref-set_ne h a b k v n = deref-set_elem_ne h a b (set_binding k v (deref h a)) n

pub length-set_lem : (h : Heap) (a : Addr) (k : Text) (v : Value) → length (set a k v h) ≡ length h
unfolding set
length-set_lem h a k v = length-set h a (set_binding k v (deref h a))

pub deref-append_lt : (h h' : Heap) (a : Addr) → a < length h → deref (h ++ h') a ≡ deref h a
unfolding deref
deref-append_lt [] h' a p = elim p [ ]
deref-append_lt (x ∷ h) h' zero p = refl
deref-append_lt (x ∷ h) h' (suc a) p = deref-append_lt h h' a (omega arith)

pub deref-append_self : (h : Heap) (s : ScopeObj) → deref (h ++ s ∷ []) (length h) ≡ s
unfolding deref
deref-append_self [] s = refl
deref-append_self (x ∷ h) s = deref-append_self h s
