-- ===== src/Path/Within.antt =====
-- What the test of host paths accepts (pkg/bass/host_path.go).
use mathlib.Core.Path.{subst}
use bass.Prelude.{
  ◌≡◌, ◌≢◌, ◌↔◌, ◌⊎◌, refl, sym, ap, ◌∙◌, Text, text_eq, text_eq_iff, text_eq_refl, has_prefix,
  Bool, true, false, Option, none, some, List, [], ◌∷◌, ◌++◌, Result, ok, err, Bool-cases, inl, inr,
  append-nil, join, arith,
}
use bass.Path.Clean.{slash, dot, dot_dot, is_rooted, clean}
use bass.Path.Elements.{IsElement}
use bass.Path.Idempotent.{Every, clean_idempotent}
use bass.Proto.HostPaths.{HostPath}
use bass.Path.Escape.{
  elements, rel_elements, targets, rel_path, EscapeError, escapes, fpath, unless_escaping,
  check_escape,
}
use bass.Path.Relative.{
  true_ne_false, elements-IsElement, IsBelow, IsWithin, escapes-join, rel_elements-append,
  IsRelative, rel_elements-IsRelative, same_path,
}

-- No error.
abbrev pub IsAccepted : Result EscapeError (Text × Text) → Type 0
IsAccepted (ok a) = Unit
IsAccepted (err e) = ⊥

accepted_rel : (r rel : Text) → IsAccepted (unless_escaping r (some rel)) → escapes rel ≡ false
accepted_rel r rel h = ground (arith, h)

Every-right : (P : Text → Type 0) (xs ys : List Text) → Every P (xs ++ ys) → Every P ys
Every-right P [] ys h = h
Every-right P (x ∷ xs) ys h = Every-right P xs ys h.1

abbrev is_dot : List Text → Bool
is_dot [] = false
is_dot (e ∷ es) = text_eq e dot

targets_back :
    (rooted : Bool) (es bs ds : List Text)
    → Every IsElement bs
    → targets rooted es ≡ bs ++ ds
    → (es ≡ bs ++ ds) ⊎ ((es ≡ []) × (bs ≡ []))
targets_back true [] bs ds h e = inl e
targets_back false [] [] ds h e = inr (refl, refl)
targets_back false [] (b ∷ bs) ds h e =
    absurd (true_ne_false (sym (text_eq_refl dot) ∙ ap is_dot e ∙ h.0.1))
targets_back rooted (x ∷ es) bs ds h e = inl e

IsBelow-accepted :
    (r : Text) (ds : List Text)
    → Every IsElement ds
    → IsAccepted (unless_escaping r (some (join (slash ∷ []) ds)))
    → IsBelow ds
IsBelow-accepted r [] h a = tt
IsBelow-accepted r (e ∷ ds) h a =
    sym (escapes-join e ds h.0.2) ∙ accepted_rel r (join (slash ∷ []) (e ∷ ds)) a

accepted-IsWithin :
    (c r : Text) (es : List Text)
    → clean r ≢ clean c
    → is_rooted r ≡ is_rooted c
    → IsRelative (elements c) (targets (is_rooted r) (elements r)) (some es)
    → IsAccepted (unless_escaping r (some (join (slash ∷ []) es)))
    → IsWithin c r
unfolding text_eq
accepted-IsWithin c r es ne e (inl f) a =
    elim (targets_back (is_rooted r) (elements r) (elements c) es (elements-IsElement c) f) [
      | inl g ↦ (
        e,
        es,
        g,
        IsBelow-accepted r es
            (Every-right IsElement (elements c) es
              (subst (Every IsElement) g (elements-IsElement r)))
            a,
      )
      | inr g ↦ absurd (ne (same_path c r e (g.0 ∙ sym g.1)))
    ]
accepted-IsWithin c r es ne e (inr (rest, f)) a = absurd (
    true_ne_false (
      sym (escapes-join dot_dot rest refl)
      ∙ ap (λ xs. escapes (join (slash ∷ []) xs)) (sym f)
      ∙ accepted_rel r (join (slash ∷ []) es) a))

abbrev joined : Option (List Text) → Option Text
joined none = none
joined (some es) = some (join (slash ∷ []) es)

accepted_option :
    (c r : Text) (o : Option (List Text))
    → clean r ≢ clean c
    → is_rooted r ≡ is_rooted c
    → IsRelative (elements c) (targets (is_rooted r) (elements r)) o
    → IsAccepted (unless_escaping r (joined o))
    → IsWithin c r
accepted_option c r none ne e h a = absurd a
accepted_option c r (some es) ne e h a = accepted-IsWithin c r es ne e h a

rel_path_same :
    (c r : Text)
    → text_eq (clean r) (clean c) ≡ false
    → is_rooted r ≡ is_rooted c
    → rel_path c r ≡ joined (rel_elements (elements c) (targets (is_rooted r) (elements r)))
unfolding rel_path
rel_path_same c r e f = elim (Bool-cases (is_rooted c)) [
  | inl b ↦ rw (e, f, b) refl
  | inr b ↦ rw (e, f, b) refl
]

rel_path_other :
    (c r : Text)
    → text_eq (clean r) (clean c) ≡ false
    → (rel_path c r ≡ none) ⊎ (is_rooted r ≡ is_rooted c)
unfolding rel_path
rel_path_other c r e = elim (Bool-cases (is_rooted c)) [
  | inl b ↦ elim (Bool-cases (is_rooted r)) [
    | inl d ↦ inr (d ∙ sym b)
    | inr d ↦ inl (rw (e, b, d) refl)
  ]
  | inr b ↦ elim (Bool-cases (is_rooted r)) [
    | inl d ↦ inl (rw (e, b, d) refl)
    | inr d ↦ inr (d ∙ sym b)
  ]
]

rel_path-IsWithin :
    (c r : Text)
    → clean c ≡ c
    → clean r ≡ r
    → IsAccepted (unless_escaping r (rel_path c r))
    → IsWithin c r
rel_path-IsWithin c r p q a = elim (Bool-cases (text_eq (clean r) (clean c))) [
  | inl e ↦
      let same = sym q ∙ (text_eq_iff (clean r) (clean c)).0 e ∙ p in
      (ap is_rooted same, [], ap elements same ∙ sym (append-nil (elements c)), tt)
  | inr e ↦ elim (rel_path_other c r e) [
    | inl f ↦ absurd (subst (λ o. IsAccepted (unless_escaping r o)) f a)
    | inr f ↦
        accepted_option c r _ (λ g. true_ne_false (sym ((text_eq_iff (clean r) (clean c)).1 g) ∙ e))
          f (rel_elements-IsRelative (elements c) (targets (is_rooted r) (elements r)))
          (subst (λ o. IsAccepted (unless_escaping r o)) (rel_path_same c r e f) a)
  ]
]

IsAccepted-join :
    (r : Text) (ds : List Text)
    → Every IsElement ds
    → IsBelow ds
    → IsAccepted (unless_escaping r (some (join (slash ∷ []) ds)))
unfolding join text_eq has_prefix
IsAccepted-join r [] h b = tt
IsAccepted-join r (e ∷ ds) h b = rw (escapes-join e ds h.0.2, b) tt

targets_some : (rooted : Bool) (es : List Text) → es ≢ [] → targets rooted es ≡ es
targets_some rooted [] ne = absurd (ne refl)
targets_some rooted (e ∷ es) ne = refl

left_empty : (xs ys : List Text) → xs ++ ys ≡ [] → xs ≡ []
left_empty [] ys e = refl
left_empty (x ∷ xs) ys e = ground (arith, e)

rel_path_equal : (c r : Text) → text_eq (clean r) (clean c) ≡ true → rel_path c r ≡ some dot
unfolding rel_path
rel_path_equal c r e = rw e refl

IsAccepted-dot : (r : Text) → IsAccepted (unless_escaping r (some dot))
unfolding text_eq has_prefix
IsAccepted-dot r = tt

IsWithin-rel_path : (c r : Text) → IsWithin c r → IsAccepted (unless_escaping r (rel_path c r))
IsWithin-rel_path c r (e, ds, g, below) = elim (Bool-cases (text_eq (clean r) (clean c))) [
  | inl f ↦ rw (rel_path_equal c r f) (IsAccepted-dot r)
  | inr f ↦
      let ne = λ (z : elements r ≡ []). true_ne_false (
        sym (
          (text_eq_iff (clean r) (clean c)).1
            (same_path c r e (z ∙ sym (left_empty (elements c) ds (sym g ∙ z)))))
        ∙ f) in
      subst (λ o. IsAccepted (unless_escaping r o))
        (sym (
          rel_path_same c r f e
          ∙ ap (λ ts. joined (rel_elements (elements c) ts))
              (targets_some (is_rooted r) (elements r) ne ∙ g)
          ∙ ap joined (rel_elements-append (elements c) ds)))
        (IsAccepted-join r ds
          (Every-right IsElement (elements c) ds (subst (Every IsElement) g (elements-IsElement r)))
          below)
]

check_escape_lem :
    (p : HostPath)
    → check_escape p
      ≡ unless_escaping (clean (fpath p)) (rel_path (clean p.context_dir) (clean (fpath p)))
unfolding check_escape
check_escape_lem p = refl

-- `checkEscape` accepts a host path exactly if it lies in its context directory: both are rooted or
-- both are not, and the path's elements are the directory's and then some that do not go up.
pub check_escape_iff :
    (p : HostPath) → IsAccepted (check_escape p) ↔ IsWithin (clean p.context_dir) (clean (fpath p))
check_escape_iff p =
    let c = clean p.context_dir in
    let r = clean (fpath p) in
    (
      λ a.
          rel_path-IsWithin c r (clean_idempotent p.context_dir) (clean_idempotent (fpath p))
            (subst IsAccepted (check_escape_lem p) a),
      λ w. subst IsAccepted (sym (check_escape_lem p)) (IsWithin-rel_path c r w),
    )
