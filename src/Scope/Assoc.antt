-- ===== src/Scope/Assoc.antt =====
-- `Assoc` of pkg/bass/scope.go and the builtin `scope->list` of pkg/bass/ground.go.
use bass.Prelude.{
  ℕ, suc, ◌<◌, ◌≡◌, refl, ap, ◌∙◌, Text, Option, none, some, List, [], ◌∷◌, ◌++◌, Result, ok, err,
  length, length-append, arith,
}
use bass.Value.{Value, Addr, symbol}
use bass.Value.Decode.{to_value, decode, decode_symbol}
use bass.Scope.Heap.{Bindings, Heap, empty_scope, find, set, new_scope, first_found, get}
use bass.Scope.Each.{each, set_all, copy}
use bass.Scope.Deref.{deref-append_self, length-set_lem}
use bass.Scope.Visit.{HasDistinctKeys, value_of, IsOrdered}
use bass.Scope.Listing.{each-eq-get}
use bass.Scope.Copy.{found_or_missing, find-set_all, parents-set_all}

-- A key that is no symbol, a value that does not decode into one, and a stack that is too deep.
pub data AssocError : Type 0 where
  not_a_symbol not_a_value too_deep : AssocError

abbrev pub alternating : Bindings → List Value
alternating [] = []
alternating ((k, v) ∷ m) = symbol k ∷ v ∷ alternating m

-- `scope->list`.
unfoldable pub scope_to_list : ℕ → Heap → Addr → Option (List Value)
unfolding each
scope_to_list n h a = elim (each n h a) [ none ↦ none | some m ↦ some (alternating m) ]

-- The loop of `Assoc`, two values at a time. A last key without a value is decoded, and is all.
unfoldable pub assoc_pairs : List Value → Addr → Heap → Result AssocError Heap
unfolding decode_symbol decode set
assoc_pairs [] c h = ok h
assoc_pairs (k ∷ []) c h = elim (decode_symbol k) [ none ↦ err not_a_symbol | some s ↦ ok h ]
assoc_pairs (k ∷ v ∷ kv) c h = elim (decode_symbol k) [
  | none ↦ err not_a_symbol
  | some s ↦ elim (decode to_value v) [
    | none ↦ err not_a_value
    | some w ↦ assoc_pairs kv c (set c s w h)
  ]
]

abbrev with_address : Addr → Result AssocError Heap → Result AssocError (Heap × Addr)
with_address c (ok h) = ok (h, c)
with_address c (err e) = err e

-- `Assoc`: the new heap and the address of the clone.
unfoldable pub assoc : ℕ → Addr → List Value → Heap → Result AssocError (Heap × Addr)
unfolding copy assoc_pairs
assoc n a kv h = elim (copy n a h) [
  | none ↦ err too_deep
  | some (h', c) ↦ with_address c (assoc_pairs kv c h')
]

assoc_pairs_step :
    (k : Text) (v : Value) (kv : List Value) (c : Addr) (h : Heap)
    → decode to_value v ≡ some v
    → assoc_pairs (symbol k ∷ v ∷ kv) c h ≡ assoc_pairs kv c (set c k v h)
unfolding assoc_pairs
assoc_pairs_step k v kv c h e =
    let key : decode_symbol (symbol k) ≡ some k = unfold decode_symbol decode in refl in
    ground (arith, key, e)

-- Every value that is bound decodes into a value as it is; the values of extended paths do not.
abbrev pub AreValues : Bindings → Type 0
AreValues [] = Unit
AreValues ((k, v) ∷ m) = (decode to_value v ≡ some v) × AreValues m

assoc_pairs-alternating :
    (m : Bindings) (c : Addr) (h : Heap)
    → AreValues m
    → assoc_pairs (alternating m) c h ≡ ok (set_all c m h)
unfolding assoc_pairs set_all
assoc_pairs-alternating [] c h p = refl
assoc_pairs-alternating ((k, v) ∷ m) c h p =
    assoc_pairs_step k v (alternating m) c h p.0 ∙ (assoc_pairs-alternating m c (set c k v h) p.1)

length-set_all : (m : Bindings) (c : Addr) (h : Heap) → length (set_all c m h) ≡ length h
unfolding set_all
length-set_all [] c h = refl
length-set_all ((k, v) ∷ m) c h = length-set_all m c (set c k v h) ∙ length-set_lem h c k v

abbrev pub first_of : Option Value → Option Value → Option Value
first_of none w = w
first_of (some v) w = some v

module _ (h : Heap) (old new : Bindings) where
  abbrev start : Heap
  start = h ++ empty_scope [] ∷ []

  abbrev clone : Heap
  clone = set_all (length h) old start

  inside : length h < length clone
  inside = omega (arith, length-set_all old (length h) start, length-append h (empty_scope [] ∷ []))

  get-set_all_twice :
      (d : ℕ) (k : Text)
      → HasDistinctKeys old
      → HasDistinctKeys new
      → get (suc d) (set_all (length h) new clone) (length h) k
        ≡ found_or_missing (first_of (find k new) (find k old))
  unfolding get first_found find
  get-set_all_twice d k p q =
      let before =
        find-set_all old start (length h) k (omega (arith, length-append h (empty_scope [] ∷ [])))
          p in
      let after = find-set_all new clone (length h) k inside q in
      let above =
        parents-set_all new clone (length h) inside
        ∙ parents-set_all old start (length h)
            (omega (arith, length-append h (empty_scope [] ∷ []))) in
      let made = deref-append_self h (empty_scope []) in ground (arith, before, after, above, made)

-- On a heap where every binding is in its scope's order, a scope's list is what `Assoc` takes: if `Each`
-- of both scopes ends within the depth, and every value that `Each` visits for the list decodes into a
-- value as it is, then `Assoc` gives a clone, whose address is new. The clone finds what the scope of the
-- list finds, and what is missing there it finds as the first scope does.
pub get-assoc :
    (n d : ℕ) (h : Heap) (a b : Addr) (old new : Bindings)
    → IsOrdered h
    → each n h a ≡ some old
    → each n h b ≡ some new
    → AreValues new
    → (kv : List Value) × (h' : Heap) × (scope_to_list n h b ≡ some kv)
      × (assoc n a kv h ≡ ok (h', length h))
      × ((k : Text)
          → get (suc d) h' (length h) k
            ≡ found_or_missing (first_of (value_of (get n h b k)) (value_of (get n h a k))))
unfolding scope_to_list assoc copy new_scope
get-assoc n d h a b old new ordered e r values =
    let copied : copy n a h ≡ some (clone h old new, length h) = rw (e, copy) refl in
    let first = each-eq-get n h a old ordered e in
    let second = each-eq-get n h b new ordered r in
    (
      alternating new,
      set_all (length h) new (clone h old new),
      rw (r, scope_to_list) refl,
      rw (copied, assoc)
          (ap (with_address (length h))
            (assoc_pairs-alternating new (length h) (clone h old new) values)),
      λ k.
          get-set_all_twice h old new d k first.0 second.0
          ∙ ap (λ o. found_or_missing (first_of o (find k old))) (second.1 k)
          ∙ ap (λ o. found_or_missing (first_of (value_of (get n h b k)) o)) (first.1 k),
    )
