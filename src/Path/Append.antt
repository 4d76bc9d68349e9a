-- ===== src/Path/Append.antt =====
-- The elements of a path that is appended to another (pkg/bass/path.go).
use mathlib.Core.List.{reverse, reverse-append}
use bass.Prelude.{
  ℕ, ◌≡◌, ◌≢◌, refl, sym, ap, ◌∙◌, Text, text_eq, Bool, true, false, ◌||◌, ◌==◌, List, [], ◌∷◌,
  ◌++◌, Bool-cases, inl, inr, split, arith,
}
use bass.Path.Clean.{slash, dot_dot, is_rooted, up, push_element, push_elements}
use bass.Path.Escape.{elements}

-- Some element goes up.
abbrev pub has_up : List Text → Bool
has_up [] = false
has_up (e ∷ es) = text_eq e dot_dot || has_up es

true_ne_false : true ≢ false
true_ne_false h = cc

has_up-append : (xs ys : List Text) → has_up (xs ++ ys) ≡ (has_up xs || has_up ys)
has_up-append [] ys = refl
has_up-append (x ∷ xs) ys = ground (arith, has_up-append xs ys)

has_up-reverse : (es : List Text) → has_up (reverse es) ≡ has_up es
has_up-reverse [] = refl
has_up-reverse (e ∷ es) =
    ap has_up (reverse-append (e ∷ []) es)
    ∙ has_up-append (reverse es) (e ∷ [])
    ∙ ground (arith, has_up-reverse es)

-- In a relative path, what goes up is not taken back.
has_up-push_element :
    (stack : List Text) (e : Text)
    → has_up stack ≡ true
    → has_up (push_element false stack e) ≡ true
unfolding push_element up
has_up-push_element [] e h = absurd (true_ne_false (sym h))
has_up-push_element (t ∷ stack) e h = ground (arith, h)

has_up-push_elements :
    (es stack : List Text) → has_up stack ≡ true → has_up (push_elements false stack es) ≡ true
unfolding push_elements
has_up-push_elements [] stack h = h
has_up-push_elements (e ∷ es) stack h =
    has_up-push_elements es (push_element false stack e) (has_up-push_element stack e h)

-- An element that does not go up is pushed on any base alike.
push_element-append :
    (rooted : Bool) (stack base : List Text) (e : Text)
    → has_up stack ≡ false
    → has_up (push_element false stack e) ≡ false
    → push_element rooted (stack ++ base) e ≡ push_element false stack e ++ base
unfolding push_element up text_eq
push_element-append rooted [] base e h g = ground (arith, g)
push_element-append rooted (t ∷ stack) base e h g = ground (arith, h, g)

push_elements-base :
    (rooted : Bool) (es stack base : List Text)
    → has_up stack ≡ false
    → has_up (push_elements false stack es) ≡ false
    → push_elements rooted (stack ++ base) es ≡ push_elements false stack es ++ base
unfolding push_elements
push_elements-base rooted [] stack base h g = refl
push_elements-base rooted (e ∷ es) stack base h g =
    elim (Bool-cases (has_up (push_element false stack e))) [
      | inl f ↦
          absurd (true_ne_false (sym (has_up-push_elements es (push_element false stack e) f) ∙ g))
      | inr f ↦
          ap (λ s. push_elements rooted s es) (push_element-append rooted stack base e h f)
          ∙ push_elements-base rooted es (push_element false stack e) base f g
    ]

pub split_nonempty : (p : Text) → (x : Text) × (xs : List Text) × (split slash p ≡ x ∷ xs)
unfolding split
split_nonempty [] = ([], [], refl)
split_nonempty (c ∷ p) = elim (Bool-cases (c == slash)) [
  | inl e ↦ ([], split slash p, rw e refl)
  | inr e ↦ let (x, xs, f) = split_nonempty p in (c ∷ x, xs, rw (e, f) refl)
]

split-slash_between : (d p : Text) → split slash (d ++ slash ∷ p) ≡ split slash d ++ split slash p
unfolding split
split-slash_between [] p = refl
split-slash_between (c ∷ d) p = elim (Bool-cases (c == slash)) [
  | inl e ↦ rw (e, split-slash_between d p) refl
  | inr e ↦ let (x, xs, f) = split_nonempty d in rw (e, split-slash_between d p, f) refl
]

push_elements-twice :
    (rooted : Bool) (stack es fs : List Text)
    → push_elements rooted stack (es ++ fs)
      ≡ push_elements rooted (push_elements rooted stack es) fs
unfolding push_elements
push_elements-twice rooted stack [] fs = refl
push_elements-twice rooted stack (e ∷ es) fs =
    push_elements-twice rooted (push_element rooted stack e) es fs

-- The elements of a relative path that does not go up come after those of the path before it.
pub elements-append :
    (c : ℕ) (d p : Text)
    → is_rooted p ≡ false
    → has_up (elements p) ≡ false
    → elements ((c ∷ d) ++ slash ∷ p) ≡ elements (c ∷ d) ++ elements p
unfolding elements
elements-append c d p r h =
    let rooted = c == slash in
    let parent = push_elements rooted [] (split slash (c ∷ d)) in
    let child = push_elements false [] (split slash p) in
    let relative : elements p ≡ reverse child =
      ap (λ b. reverse (push_elements b [] (split slash p))) r in
    let level : has_up child ≡ false = sym (has_up-reverse child) ∙ ap has_up (sym relative) ∙ h in
    ap (λ parts. reverse (push_elements rooted [] parts)) (split-slash_between (c ∷ d) p)
    ∙ ap reverse (push_elements-twice rooted [] (split slash (c ∷ d)) (split slash p))
    ∙ ap reverse (push_elements-base rooted (split slash p) [] parent refl level)
    ∙ reverse-append child parent
    ∙ ap (λ es. reverse parent ++ es) (sym relative)
