-- ===== src/Path/Elements.antt =====
-- Cleaned paths by their elements: the elements of a cleaned path come through cleaning as they are.
use mathlib.Core.List.{reverse, reverse-append}
use bass.Prelude.{
  ◌≡◌, ◌≢◌, refl, sym, ap, ◌∙◌, Text, text_eq, text_eq_iff, Bool, true, false, not, ◌&&◌, ◌==◌,
  List, [], ◌∷◌, ◌++◌, Bool-cases, inl, inr, arith,
}
use bass.Path.Clean.{slash, dot, dot_dot, up, push_element, push_elements}

abbrev pub no_slash : Text → Bool
no_slash [] = true
no_slash (c ∷ s) = not (c == slash) && no_slash s

-- An element that cleaning keeps.
abbrev pub IsElement : Text → Type 0
IsElement e = (text_eq e [] ≡ false) × (text_eq e dot ≡ false) × (no_slash e ≡ true)

abbrev pub AllDots : List Text → Type 0
AllDots [] = Unit
AllDots (e ∷ stack) = (e ≡ dot_dot) × AllDots stack

-- The output, the last element first: `..` stands only at its front, and only in a relative path.
abbrev pub IsNormal : Bool → List Text → Type 0
IsNormal rooted [] = Unit
IsNormal rooted (e ∷ stack) =
    IsElement e
    × (text_eq e dot_dot ≡ true → (rooted ≡ false) × AllDots stack)
    × IsNormal rooted stack

IsElement-dot_dot : IsElement dot_dot
unfolding text_eq
IsElement-dot_dot = (refl, refl, refl)

IsNormal-up :
    (rooted : Bool) (stack : List Text) → IsNormal rooted stack → IsNormal rooted (up rooted stack)
unfolding up
IsNormal-up true [] n = tt
IsNormal-up false [] n = (IsElement-dot_dot, λ h. (refl, tt), tt)
IsNormal-up rooted (e ∷ stack) n = elim (Bool-cases (text_eq e dot_dot)) [
  | inl h ↦ rw h (IsElement-dot_dot, λ t. ((n.1 h).0, ((text_eq_iff e dot_dot).0 h, (n.1 h).1)), n)
  | inr h ↦ rw h n.2
]

pub IsNormal-push_element :
    (rooted : Bool) (stack : List Text) (e : Text)
    → no_slash e ≡ true
    → IsNormal rooted stack
    → IsNormal rooted (push_element rooted stack e)
unfolding push_element
IsNormal-push_element rooted stack e p n = elim (Bool-cases (text_eq e [])) [
  | inl a ↦ rw a n
  | inr a ↦ elim (Bool-cases (text_eq e dot)) [
    | inl b ↦ rw (a, b) n
    | inr b ↦ elim (Bool-cases (text_eq e dot_dot)) [
      | inl c ↦ rw (a, b, c) (IsNormal-up rooted stack n)
      | inr c ↦ rw (a, b, c) ((a, b, p), (λ t. absurd (true_ne_false (sym t ∙ c))), n)
    ]
  ]
]
  where
    true_ne_false : true ≢ false
    true_ne_false h = cc

-- An element pushed on a stack of which it is the next one stays.
push_element-IsNormal :
    (rooted : Bool) (e : Text) (stack : List Text)
    → IsNormal rooted (e ∷ stack)
    → push_element rooted stack e ≡ e ∷ stack
unfolding push_element
push_element-IsNormal rooted e stack n = elim (Bool-cases (text_eq e dot_dot)) [
  | inr c ↦ ground (arith, n.0.0, n.0.1, c)
  | inl c ↦
      let (r, dots) = n.1 c in
      let e' = (text_eq_iff e dot_dot).0 c in
      ground (arith, n.0.0, n.0.1, c, up_dots stack dots r, e')
]
  where
    up_dots :
        (stack : List Text) → AllDots stack → rooted ≡ false → up rooted stack ≡ dot_dot ∷ stack
    up_dots [] d r = unfold up in ground (arith, r)
    up_dots (f ∷ stack) d r = unfold up in ground (arith, d.0, text_eq_iff f dot_dot)

push_elements-append :
    (rooted : Bool) (stack es : List Text) (e : Text)
    → push_elements rooted stack (es ++ e ∷ [])
      ≡ push_element rooted (push_elements rooted stack es) e
unfolding push_elements
push_elements-append rooted stack [] e = refl
push_elements-append rooted stack (x ∷ es) e =
    push_elements-append rooted (push_element rooted stack x) es e

pub push_elements-reverse :
    (rooted : Bool) (stack : List Text)
    → IsNormal rooted stack
    → push_elements rooted [] (reverse stack) ≡ stack
unfolding push_elements
push_elements-reverse rooted [] n = refl
push_elements-reverse rooted (e ∷ stack) n =
    ap (push_elements rooted []) (reverse-append (e ∷ []) stack)
    ∙ push_elements-append rooted [] (reverse stack) e
    ∙ ap (λ s. push_element rooted s e) (push_elements-reverse rooted stack n.2)
    ∙ push_element-IsNormal rooted e stack n
