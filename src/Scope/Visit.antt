-- ===== src/Scope/Visit.antt =====
-- The rounds of `eachShadow`, and what they keep.
use mathlib.Core.Path.{subst}
use mathlib.Core.Option.{some-injective}
use bass.Prelude.{
  ◌≡◌, ◌≢◌, refl, Text, text_eq, text_eq_iff, true, false, ◌||◌, Option, none, some, List, [], ◌∷◌,
  ◌++◌, Bool-cases, Option-cases, inl, inr, ◌⊎◌, if◌then◌else◌, arith,
}
use bass.Value.{Value, Addr}
use bass.Scope.Heap.{Bindings, Heap, deref, find, Found, found, missing, overflow}
use bass.Scope.Each.{contains, Visit, visit_key, fold_some}

abbrev pub value_of : Found → Option Value
value_of (found v) = some v
value_of missing = none
value_of overflow = none

pub found-cases : (r : Found) → ((v : Value) × (r ≡ found v)) ⊎ ((r ≡ missing) ⊎ (r ≡ overflow))
found-cases (found v) = inl (v, refl)
found-cases missing = inr (inl refl)
found-cases overflow = inr (inr refl)

-- No symbol is listed twice.
abbrev pub HasDistinctKeys : Bindings → Type 0
HasDistinctKeys [] = Unit
HasDistinctKeys ((k, v) ∷ m) = (find k m ≡ none) × HasDistinctKeys m

-- Every binding of a scope is in its order.
abbrev pub IsOrdered : Heap → Type 0
IsOrdered h =
    (a : Addr) (k : Text) (v : Value)
    → find k (deref h a).bindings ≡ some v
    → contains k (deref h a).order ≡ true

pub none_ne_some {ℓ} : {A : Type ℓ} {a : A} → none ≢ some a
none_ne_some h = cc

pub missing_ne_found : {v : Value} → missing ≢ found v
missing_ne_found h = cc

pub contains-append :
    (k : Text) (xs ys : List Text) → contains k (xs ++ ys) ≡ (contains k xs || contains k ys)
unfolding contains
contains-append k [] ys = refl
contains-append k (x ∷ xs) ys = ground (arith, contains-append k xs ys)

pub find-append :
    (k j : Text) (v : Value) (m : Bindings)
    → find k (m ++ (j, v) ∷ [])
      ≡ (elim (find k m) [ some w ↦ some w | none ↦ if text_eq j k then some v else none ])
unfolding find
find-append k j v [] = refl
find-append k j v ((i, w) ∷ m) = ground (arith, find-append k j v m)

pub HasDistinctKeys-append :
    (m : Bindings) (k : Text) (v : Value)
    → HasDistinctKeys m
    → find k m ≡ none
    → HasDistinctKeys (m ++ (k, v) ∷ [])
unfolding find
HasDistinctKeys-append [] k v d f = (refl, tt)
HasDistinctKeys-append ((j, w) ∷ m) k v d f = (
  ground (arith, d.0, f, find-append j k v m, text_eq_iff j k, text_eq_iff k j),
  HasDistinctKeys-append m k v d.1 (ground (arith, f)),
)

-- What a visit has listed is what `top` finds, for the symbols that were called.
pub record IsFaithful (top : Text → Found) (s : Visit) : Type 0 where
  pub lists : (k : Text) → find k s.out ≡ (if contains k s.called then value_of (top k) else none)
  pub distinct : HasDistinctKeys s.out

-- What every round keeps, the loop keeps.
pub fold_some_inv {ℓ} :
    {A : Type ℓ} (P : Visit → Type 0) (round : A → Visit → Option Visit)
    → ((x : A) (s s' : Visit) → P s → round x s ≡ some s' → P s')
    → (xs : List A) (s s' : Visit) → P s
    → fold_some round xs s ≡ some s'
    → P s'
unfolding fold_some
fold_some_inv P round keep [] s s' p e = subst P (some-injective s s' e) p
fold_some_inv P round keep (x ∷ xs) s s' p e = elim (Option-cases (round x s)) [
  | inl r ↦ absurd (none_ne_some (rw (r, fold_some) at e))
  | inr (t, r) ↦ fold_some_inv P round keep xs t s' (keep x s t p r) (rw (r, fold_some) at e)
]

module _ (top : Text → Found) where
  -- A visit of a symbol that was not called, by what `top` finds.
  pub visited : Text → Visit → Found → Option Visit
  visited k s (found v) = some (record { called = s.called ++ k ∷ []; out = s.out ++ (k, v) ∷ [] })
  visited k s missing = some (record s { called = s.called ++ k ∷ [] })
  visited k s overflow = none

  pub visit_key_lem :
      (k : Text) (s : Visit)
      → visit_key top k s ≡ (if contains k s.called then some s else visited k s (top k))
  unfolding visit_key visited
  visit_key_lem k s = ground arith

  pub IsFaithful-visited :
      (k : Text) (s s' : Visit) (r : Found)
      → IsFaithful top s
      → contains k s.called ≡ false
      → top k ≡ r
      → visited k s r ≡ some s'
      → IsFaithful top s'
  unfolding visited contains
  IsFaithful-visited k s s' (found v) f c t e =
      subst (IsFaithful top) (some-injective _ s' e) (record {
        lists = λ j. ground (
          arith,
          f.lists j,
          find-append j k v s.out,
          contains-append j s.called (k ∷ []),
          text_eq_iff k j,
          t,
        );
        distinct = HasDistinctKeys-append s.out k v f.distinct (ground (arith, f.lists k));
      })
  IsFaithful-visited k s s' missing f c t e =
      subst (IsFaithful top) (some-injective _ s' e) (record {
        lists =
            λ j. ground (arith, f.lists j, contains-append j s.called (k ∷ []), text_eq_iff k j, t);
        distinct = f.distinct;
      })
  IsFaithful-visited k s s' overflow f c t e = absurd (none_ne_some e)

  pub IsFaithful-visit_key :
      (k : Text) (s s' : Visit) → IsFaithful top s → visit_key top k s ≡ some s' → IsFaithful top s'
  IsFaithful-visit_key k s s' f e = elim (Bool-cases (contains k s.called)) [
    | inl c ↦ subst (IsFaithful top) (some-injective s s' (rw (visit_key_lem k s, c) at e)) f
    | inr c ↦ IsFaithful-visited k s s' (top k) f c refl (rw (visit_key_lem k s, c) at e)
  ]

  pub Calls-visit_key :
      (j k : Text) (s s' : Visit)
      → visit_key top k s ≡ some s'
      → (text_eq k j || contains j s.called) ≡ true
      → contains j s'.called ≡ true
  unfolding visited contains
  Calls-visit_key j k s s' e c =
      ground (arith, visit_key_lem k s, text_eq_iff k j, contains-append j s.called (k ∷ []))

  -- Every symbol of the order has been called when the loop over it ends.
  pub Calls-fold_some :
      (j : Text) (ks : List Text) (s s' : Visit)
      → fold_some (visit_key top) ks s ≡ some s'
      → (contains j ks || contains j s.called) ≡ true
      → contains j s'.called ≡ true
  unfolding fold_some contains
  Calls-fold_some j [] s s' e c = subst (λ t. contains j t.called ≡ true) (some-injective s s' e) c
  Calls-fold_some j (k ∷ ks) s s' e c = elim (Option-cases (visit_key top k s)) [
    | inl r ↦ absurd (none_ne_some (rw (r, fold_some) at e))
    | inr (t, r) ↦
        Calls-fold_some j ks t s' (rw (r, fold_some) at e)
          (ground (arith, Calls-visit_key j k s t r))
  ]
