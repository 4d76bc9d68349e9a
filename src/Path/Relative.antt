-- ===== src/Path/Relative.antt =====
-- Relative paths by their elements: `filepath.Rel` of the standard library, which the test of host
-- paths uses (pkg/bass/host_path.go).
use bass.Prelude.{
  ◌≡◌, ◌≢◌, ◌⊎◌, refl, sym, ap, ◌∙◌, Text, text_eq, text_eq_iff, text_eq_refl, has_prefix, true,
  false, Option, none, some, List, [], ◌∷◌, ◌++◌, Bool-cases, inl, inr, split, join, arith,
}
use bass.Path.Clean.{slash, dot_dot, is_rooted, render, clean}
use bass.Path.Elements.{no_slash, IsElement}
use bass.Path.Idempotent.{Every, IsNormal-push_elements, HasNoSlash-split, IsElement-reverse}
use bass.Path.Escape.{elements, rel_elements, escapes}

pub true_ne_false : true ≢ false
true_ne_false h = cc

pub elements-IsElement : (p : Text) → Every IsElement (elements p)
unfolding elements
elements-IsElement p =
    IsElement-reverse (is_rooted p) _
      (IsNormal-push_elements (is_rooted p) (split slash p) [] (HasNoSlash-split p) tt)

-- A path's elements that do not go up first.
abbrev pub IsBelow : List Text → Type 0
IsBelow [] = Unit
IsBelow (e ∷ es) = text_eq e dot_dot ≡ false

-- A path lies in a directory: its elements are the directory's and then some that do not go up.
abbrev pub IsWithin : Text → Text → Type 0
IsWithin c r =
    (is_rooted r ≡ is_rooted c) × (ds : List Text) × (elements r ≡ elements c ++ ds) × IsBelow ds

-- A relative path goes up if its first element does.
pub escapes-join :
    (e : Text) (es : List Text)
    → no_slash e ≡ true
    → escapes (join (slash ∷ []) (e ∷ es)) ≡ text_eq e dot_dot
unfolding join text_eq has_prefix
escapes-join [] [] h = refl
escapes-join (a ∷ []) [] h = ground (arith, h)
escapes-join (a ∷ b ∷ []) [] h = ground (arith, h)
escapes-join (a ∷ b ∷ c ∷ e) [] h = ground (arith, h)
escapes-join [] (f ∷ es) h = refl
escapes-join (a ∷ []) (f ∷ es) h = ground (arith, h)
escapes-join (a ∷ b ∷ []) (f ∷ es) h = ground (arith, h)
escapes-join (a ∷ b ∷ c ∷ e) (f ∷ es) h = ground (arith, h)

pub rel_elements-append : (bs ds : List Text) → rel_elements bs (bs ++ ds) ≡ some ds
unfolding rel_elements
rel_elements-append [] ds = refl
rel_elements-append (b ∷ bs) ds = rw (text_eq_refl b) (rel_elements-append bs ds)

-- Of a relative path's elements: either nothing of the base is left, or they go up.
abbrev pub IsRelative : List Text → List Text → Option (List Text) → Type 0
IsRelative bs ts none = Unit
IsRelative bs ts (some es) = (ts ≡ bs ++ es) ⊎ ((rest : List Text) × (es ≡ dot_dot ∷ rest))

below_same :
    (b t : Text) (bs ts : List Text) (r : Option (List Text))
    → b ≡ t
    → IsRelative bs ts r
    → IsRelative (b ∷ bs) (t ∷ ts) r
below_same b t bs ts none e h = tt
below_same b t bs ts (some es) e (inl f) = inl (cc)
below_same b t bs ts (some es) e (inr f) = inr f

pub rel_elements-IsRelative : (bs ts : List Text) → IsRelative bs ts (rel_elements bs ts)
unfolding rel_elements
rel_elements-IsRelative [] ts = inl refl
rel_elements-IsRelative (b ∷ bs) [] = elim (Bool-cases (text_eq b dot_dot)) [
  | inl e ↦ rw e tt
  | inr e ↦ rw e (inr (_, refl))
]
rel_elements-IsRelative (b ∷ bs) (t ∷ ts) = elim (Bool-cases (text_eq b t)) [
  | inl e ↦ rw e (below_same b t bs ts _ ((text_eq_iff b t).0 e) (rel_elements-IsRelative bs ts))
  | inr e ↦ elim (Bool-cases (text_eq b dot_dot)) [
    | inl f ↦ rw (e, f) tt
    | inr f ↦ rw (e, f) (inr (_, refl))
  ]
]

pub clean-elements : (p : Text) → clean p ≡ render (is_rooted p) (elements p)
unfolding clean elements
clean-elements p = refl

-- Two cleaned paths with the same elements, both rooted or both not, are the same.
pub same_path :
    (c r : Text) → is_rooted r ≡ is_rooted c → elements r ≡ elements c → clean r ≡ clean c
same_path c r e f =
    clean-elements r
    ∙ ap (λ b. render b (elements r)) e
    ∙ ap (render (is_rooted c)) f
    ∙ sym (clean-elements c)
