-- ===== src/Path/Slashes.antt =====
-- Slashes at the end of paths, and the clear form of a path (pkg/bass/path.go).
use mathlib.Core.List.{reverse}
use bass.Prelude.{
  ◌≡◌, ℕ, ◌≢◌, ◌⊎◌, refl, ap, ◌∙◌, ◌==◌, Text, text_eq, codes, has_prefix, Bool, true, false, ◌||◌,
  List, [], ◌∷◌, ◌++◌, Bool-cases, inl, inr, append_assoc, cons_first, split, join, arith,
}
use bass.Path.Clean.{slash, dot, is_rooted, render, push_element, push_elements, clean}
use bass.Path.Elements.{no_slash, IsElement}
use bass.Path.Idempotent.{Every}
use bass.Path.Escape.{elements}
use bass.Path.Append.{split_nonempty}
use bass.Path.Relative.{true_ne_false, elements-IsElement, clean-elements}
use bass.Thunk.Plain.{clarify_path}
use bass.Command.Places.{trim_slash}
use bass.Path.Parse.{ends_slash}

clean_dot_slash : (p : Text) → is_rooted p ≡ false → clean (codes "./" ++ p) ≡ clean p
unfolding clean split push_elements push_element text_eq
clean_dot_slash p r = rw r refl

pub clarify_path_cases :
    (p : Text) → (clarify_path p ≡ p) ⊎ ((is_rooted p ≡ false) × (clarify_path p ≡ codes "./" ++ p))
unfolding clarify_path has_prefix
clarify_path_cases [] = inr (refl, refl)
clarify_path_cases (a ∷ p) =
    elim (Bool-cases (
      has_prefix (a ∷ p) (codes "/")
      || has_prefix (a ∷ p) (codes "./")
      || has_prefix (a ∷ p) (codes "../"))) [
        | inl e ↦ inl (rw e refl)
        | inr e ↦ inr (ground (arith, e), rw e refl)
      ]

pub clean-clarify_path : (p : Text) → clean (clarify_path p) ≡ clean p
clean-clarify_path p = elim (clarify_path_cases p) [
  | inl e ↦ ap clean e
  | inr (r, e) ↦ ap clean e ∙ clean_dot_slash p r
]

pub text_eq-clarify_path : (p : Text) → text_eq (clarify_path p) dot ≡ false
unfolding clarify_path has_prefix text_eq
text_eq-clarify_path [] = refl
text_eq-clarify_path (a ∷ []) = ground arith
text_eq-clarify_path (a ∷ b ∷ p) = ground arith

pub ends_slash-clarify_path :
    (a : ℕ) (p : Text) → ends_slash (clarify_path (a ∷ p)) ≡ ends_slash (a ∷ p)
unfolding ends_slash
ends_slash-clarify_path a p = elim (clarify_path_cases (a ∷ p)) [
  | inl e ↦ ap ends_slash e
  | inr (r, e) ↦ ap ends_slash e
]

pub trim_slash_none : (p : Text) → ends_slash p ≡ false → trim_slash p ≡ p
unfolding trim_slash ends_slash
trim_slash_none [] e = refl
trim_slash_none (c ∷ []) e = ground (arith, e)
trim_slash_none (c ∷ d ∷ p) e = ap (λ q. c ∷ q) (trim_slash_none (d ∷ p) e)

pub ends_slash-append : (p : Text) → ends_slash (p ++ slash ∷ []) ≡ true
unfolding ends_slash
ends_slash-append [] = refl
ends_slash-append (c ∷ []) = refl
ends_slash-append (c ∷ d ∷ p) = ends_slash-append (d ∷ p)

put_last :
    (c : ℕ) (x : Text) (xs ys : List Text)
    → cons_first c ((x ∷ xs) ++ ys) ≡ cons_first c (x ∷ xs) ++ ys
put_last c x xs ys = refl

split-slash_end : (p : Text) → split slash (p ++ slash ∷ []) ≡ split slash p ++ [] ∷ []
unfolding split
split-slash_end [] = refl
split-slash_end (c ∷ p) = elim (Bool-cases (c == slash)) [
  | inl e ↦ rw (e, split-slash_end p) refl
  | inr e ↦ let (x, xs, f) = split_nonempty p in rw (e, split-slash_end p, f) refl
]

push_elements-end :
    (rooted : Bool) (stack es : List Text)
    → push_elements rooted stack (es ++ [] ∷ []) ≡ push_elements rooted stack es
unfolding push_elements push_element text_eq
push_elements-end rooted stack [] = refl
push_elements-end rooted stack (e ∷ es) = push_elements-end rooted (push_element rooted stack e) es

pub clean-slash_end : (c : ℕ) (p : Text) → clean ((c ∷ p) ++ slash ∷ []) ≡ clean (c ∷ p)
unfolding clean
clean-slash_end c p =
    ap (λ parts. render (c == slash) (reverse (push_elements (c == slash) [] parts)))
      (split-slash_end (c ∷ p))
    ∙ ap (λ stack. render (c == slash) (reverse stack))
        (push_elements-end (c == slash) [] (split slash (c ∷ p)))

-- No text of elements ends in a slash.
ends_slash-no_slash : (x : Text) → no_slash x ≡ true → ends_slash x ≡ false
unfolding ends_slash
ends_slash-no_slash [] h = refl
ends_slash-no_slash (c ∷ []) h = ground (arith, h)
ends_slash-no_slash (c ∷ d ∷ x) h = ends_slash-no_slash (d ∷ x) (ground (arith, h))

ends_slash-after : (x : Text) (c : ℕ) (t : Text) → ends_slash (x ++ c ∷ t) ≡ ends_slash (c ∷ t)
unfolding ends_slash
ends_slash-after [] c t = refl
ends_slash-after (a ∷ []) c t = refl
ends_slash-after (a ∷ b ∷ x) c t = ends_slash-after (b ∷ x) c t

ends_slash-join :
    (x : Text) (xs : List Text)
    → Every IsElement (x ∷ xs)
    → ends_slash (slash ∷ join (slash ∷ []) (x ∷ xs)) ≡ false
unfolding ends_slash join text_eq
ends_slash-join [] xs h = absurd (true_ne_false h.0.0)
ends_slash-join (c ∷ x) [] h = ends_slash-no_slash (c ∷ x) h.0.2
ends_slash-join (c ∷ x) (y ∷ xs) h =
    ap ends_slash (append_assoc (c ∷ x) (slash ∷ []) (join (slash ∷ []) (y ∷ xs)))
    ∙ ends_slash-after (c ∷ x) slash (join (slash ∷ []) (y ∷ xs))
    ∙ ends_slash-join y xs h.1

ends_slash-rest : (t : Text) → ends_slash (slash ∷ t) ≡ false → ends_slash t ≡ false
unfolding ends_slash
ends_slash-rest [] h = refl
ends_slash-rest (c ∷ t) h = h

-- A cleaned path ends in a slash only if it is the root.
pub ends_slash-clean : (p : Text) → clean p ≢ slash ∷ [] → ends_slash (clean p) ≡ false
ends_slash-clean p ne =
    ap ends_slash (clean-elements p)
    ∙ by_elements (is_rooted p) (elements p) (elements-IsElement p) (λ e. ne (clean-elements p ∙ e))
  where
    by_elements :
        (rooted : Bool) (es : List Text)
        → Every IsElement es
        → render rooted es ≢ slash ∷ []
        → ends_slash (render rooted es) ≡ false
    by_elements true [] h n = absurd (n (unfold render join in refl))
    by_elements false [] h n = unfold render ends_slash in refl
    by_elements true (x ∷ es) h n = unfold render in ends_slash-join x es h
    by_elements false (x ∷ es) h n =
        unfold render in ends_slash-rest (join (slash ∷ []) (x ∷ es)) (ends_slash-join x es h)
