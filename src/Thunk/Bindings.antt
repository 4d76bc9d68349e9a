-- ===== src/Thunk/Bindings.antt =====
-- The bindings of a scope, as `Each` visits them: `Set` (pkg/bass/scope.go), and a scope made with two
-- parents, as `Thunk.WithEnv` makes it (pkg/bass/thunk.go).
use bass.Prelude.{
  Text, text_eq, false, ◌||◌, List, [], ◌∷◌, ◌++◌, ◌≡◌, refl, ap, arith, Bool-cases, inl, inr,
  if◌then◌else◌, append_assoc, append-nil,
}
use mathlib.Core.Path.{subst}
use bass.Scope.Each.{contains}
use bass.Thunk.Types.{Datum, Bindings, no_bindings, binding}

-- `Set`: a symbol that is bound keeps its place.
unfoldable pub set_binding : Text → Datum → Bindings → Bindings
set_binding k v no_bindings = binding k v no_bindings
set_binding k v (binding j w bs) =
    let rest = set_binding k v bs in if text_eq j k then binding j v bs else binding j w rest

abbrev pub keys : Bindings → List Text
keys no_bindings = []
keys (binding k v bs) = k ∷ keys bs

abbrev pub append : Bindings → Bindings → Bindings
append no_bindings cs = cs
append (binding k v bs) cs = binding k v (append bs cs)

unfoldable pub without : List Text → Bindings → Bindings
unfolding contains
without ks no_bindings = no_bindings
without ks (binding j w bs) =
    let rest = without ks bs in if contains j ks then rest else binding j w rest

-- The bindings of an empty scope with two parents: those of the first parent, and those of the second
-- one that the first does not shadow.
unfoldable pub overlay : Bindings → Bindings → Bindings
unfolding without
overlay first second = append first (without (keys first) second)

-- No symbol of the bindings is in the list, or bound twice.
abbrev pub AllNew : List Text → Bindings → Type 0
AllNew ks no_bindings = Unit
AllNew ks (binding k v bs) = (contains k ks ≡ false) × AllNew (ks ++ k ∷ []) bs

pub contains-append :
    (k : Text) (a b : List Text) → contains k (a ++ b) ≡ (contains k a || contains k b)
unfolding contains
contains-append k [] b = refl
contains-append k (j ∷ a) b = ground (arith, contains-append k a b)

pub set_binding_new :
    (k : Text) (v : Datum) (bs : Bindings)
    → contains k (keys bs) ≡ false
    → set_binding k v bs ≡ append bs (binding k v no_bindings)
unfolding set_binding contains
set_binding_new k v no_bindings h = refl
set_binding_new k v (binding j w bs) h = ground (arith, set_binding_new k v bs)

pub append_assoc_binding :
    (bs : Bindings) (k : Text) (v : Datum) (cs : Bindings)
    → append (append bs (binding k v no_bindings)) cs ≡ append bs (binding k v cs)
append_assoc_binding no_bindings k v cs = refl
append_assoc_binding (binding j w bs) k v cs = ap (binding j w) (append_assoc_binding bs k v cs)

pub append_nothing : (bs : Bindings) → append bs no_bindings ≡ bs
append_nothing no_bindings = refl
append_nothing (binding k v bs) = ap (binding k v) (append_nothing bs)

pub keys-append : (bs cs : Bindings) → keys (append bs cs) ≡ keys bs ++ keys cs
keys-append no_bindings cs = refl
keys-append (binding k v bs) cs = ap (λ ks. k ∷ ks) (keys-append bs cs)

-- A new binding at the end.
pub AllNew-snoc :
    (acc : Bindings) (k : Text) (v : Datum) (bs : Bindings)
    → AllNew (keys acc ++ k ∷ []) bs
    → AllNew (keys (append acc (binding k v no_bindings))) bs
AllNew-snoc acc k v bs h = rw (keys-append acc (binding k v no_bindings)) h

-- Fewer symbols forbid less.
pub AllNew-weaken :
    (a b : List Text) (bs : Bindings)
    → ((k : Text) → contains k a ≡ false → contains k b ≡ false)
    → AllNew a bs
    → AllNew b bs
AllNew-weaken a b no_bindings f h = tt
AllNew-weaken a b (binding k v bs) f h = (
  f k h.0,
  AllNew-weaken (a ++ k ∷ []) (b ++ k ∷ []) bs
      (λ j e. ground (arith, f j, contains-append j a (k ∷ []), contains-append j b (k ∷ []), e))
      h.1,
)

pub AllNew-set_binding :
    (ks : List Text) (k : Text) (v : Datum) (bs : Bindings)
    → contains k ks ≡ false
    → AllNew ks bs
    → AllNew ks (set_binding k v bs)
unfolding set_binding contains
AllNew-set_binding ks k v no_bindings e h = (e, tt)
AllNew-set_binding ks k v (binding j w bs) e h = elim (Bool-cases (text_eq j k)) [
  | inl same ↦ rw same h
  | inr other ↦ rw other (
    h.0,
    AllNew-set_binding (ks ++ j ∷ []) k v bs
        (ground (arith, e, other, contains-append k ks (j ∷ []))) h.1,
  )
]

pub AllNew-append :
    (ks : List Text) (bs cs : Bindings)
    → AllNew ks bs
    → AllNew (ks ++ keys bs) cs
    → AllNew ks (append bs cs)
AllNew-append ks no_bindings cs h g = rw (← append-nil ks) g
AllNew-append ks (binding k v bs) cs h g =
    (h.0, AllNew-append (ks ++ k ∷ []) bs cs h.1 (rw (append_assoc ks (k ∷ []) (keys bs)) g))

pub AllNew-without :
    (ks js : List Text) (bs : Bindings) → AllNew js bs → AllNew (ks ++ js) (without ks bs)
unfolding without
AllNew-without ks js no_bindings h = tt
AllNew-without ks js (binding j w bs) h =
    let rest = AllNew-without ks (js ++ j ∷ []) bs h.1 in
    elim (Bool-cases (contains j ks)) [
      | inl e ↦ rw e (
          AllNew-weaken (ks ++ (js ++ j ∷ [])) (ks ++ js) (without ks bs)
            (λ k d. ground (
              arith,
              d,
              contains-append k ks (js ++ j ∷ []),
              contains-append k js (j ∷ []),
              contains-append k ks js,
            ))
            rest)
      | inr e ↦
          rw e
            (ground (arith, e, h.0, contains-append j ks js), rw (append_assoc ks js (j ∷ [])) rest)
    ]

pub AllNew-overlay :
    (first second : Bindings)
    → AllNew [] first
    → AllNew [] second
    → AllNew [] (overlay first second)
unfolding overlay
AllNew-overlay first second h g = AllNew-append [] first (without (keys first) second) h (
    subst (λ ks. AllNew ks (without (keys first) second)) (append-nil (keys first))
      (AllNew-without (keys first) [] second g))
