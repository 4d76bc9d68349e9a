-- ===== src/Path/Idempotent.antt =====
-- Cleaning a path twice is cleaning it once.
use mathlib.Core.Path.{subst}
use mathlib.Core.List.{reverse, reverse-append}
use bass.Prelude.{
  ◌≡◌, ◌≢◌, refl, sym, ap, ◌∙◌, Text, text_eq, Bool, true, false, ◌==◌, List, [], ◌∷◌, ◌++◌,
  if◌then◌else◌, Bool-cases, ◌⊎◌, inl, inr, append_assoc, split, cons_first, join, arith,
}
use bass.Path.Clean.{slash, is_rooted, push_element, push_elements, render, clean}
use bass.Path.Elements.{no_slash, IsElement, IsNormal, IsNormal-push_element, push_elements-reverse}

abbrev pub Every : (Text → Type 0) → List Text → Type 0
Every P [] = Unit
Every P (e ∷ es) = P e × Every P es

true_ne_false : true ≢ false
true_ne_false h = cc

abbrev pub HasNoSlash : Text → Type 0
HasNoSlash e = no_slash e ≡ true

Every-append :
    (P : Text → Type 0) (xs ys : List Text) → Every P xs → Every P ys → Every P (xs ++ ys)
Every-append P [] ys p q = q
Every-append P (x ∷ xs) ys p q = (p.0, Every-append P xs ys p.1 q)

pub HasNoSlash-split : (p : Text) → Every HasNoSlash (split slash p)
unfolding split
HasNoSlash-split [] = (refl, tt)
HasNoSlash-split (c ∷ p) = by_char (split slash p) (HasNoSlash-split p) (Bool-cases (c == slash))
  where
    put :
        (parts : List Text)
        → (c == slash) ≡ false
        → Every HasNoSlash parts
        → Every HasNoSlash (cons_first c parts)
    put [] e h = (ground (arith, e), tt)
    put (q ∷ parts) e h = (ground (arith, e, h.0), h.1)

    by_char :
        (parts : List Text)
        → Every HasNoSlash parts
        → ((c == slash) ≡ true) ⊎ ((c == slash) ≡ false)
        → Every HasNoSlash (if c == slash then [] ∷ parts else cons_first c parts)
    by_char parts h (inl e) = rw e (refl, h)
    by_char parts h (inr e) = rw e (put parts e h)

pub split-no_slash : (e : Text) → no_slash e ≡ true → split slash e ≡ e ∷ []
unfolding split
split-no_slash [] h = refl
split-no_slash (c ∷ e) h = ground (arith, split-no_slash e)

split-append :
    (e rest : Text) → no_slash e ≡ true → split slash (e ++ slash ∷ rest) ≡ e ∷ split slash rest
unfolding split
split-append [] rest h = ground arith
split-append (c ∷ e) rest h = ground (arith, split-append e rest)

pub split-join :
    (e : Text) (es : List Text)
    → Every HasNoSlash (e ∷ es)
    → split slash (join (slash ∷ []) (e ∷ es)) ≡ e ∷ es
unfolding join
split-join e [] h = split-no_slash e h.0
split-join e (f ∷ es) h =
    ap (split slash) (append_assoc e (slash ∷ []) (join (slash ∷ []) (f ∷ es)))
    ∙ split-append e (join (slash ∷ []) (f ∷ es)) h.0
    ∙ ap (λ l. e ∷ l) (split-join f es h.1)

pub IsNormal-push_elements :
    (rooted : Bool) (es stack : List Text)
    → Every HasNoSlash es
    → IsNormal rooted stack
    → IsNormal rooted (push_elements rooted stack es)
unfolding push_elements
IsNormal-push_elements rooted [] stack h n = n
IsNormal-push_elements rooted (e ∷ es) stack h n =
    IsNormal-push_elements rooted es (push_element rooted stack e) h.1
      (IsNormal-push_element rooted stack e h.0 n)

pub IsElement-reverse :
    (rooted : Bool) (stack : List Text) → IsNormal rooted stack → Every IsElement (reverse stack)
IsElement-reverse rooted [] n = tt
IsElement-reverse rooted (e ∷ stack) n =
    subst (Every IsElement) (sym (reverse-append (e ∷ []) stack)) (
      Every-append IsElement (reverse stack) (e ∷ []) (IsElement-reverse rooted stack n.2)
        (n.0, tt))

pub HasNoSlash-elements : (es : List Text) → Every IsElement es → Every HasNoSlash es
HasNoSlash-elements [] h = tt
HasNoSlash-elements (e ∷ es) h = (h.0.2, HasNoSlash-elements es h.1)

pub is_rooted-join :
    (x : Text) (es : List Text) → IsElement x → is_rooted (join (slash ∷ []) (x ∷ es)) ≡ false
unfolding join text_eq
is_rooted-join [] es h = absurd (true_ne_false h.0)
is_rooted-join (c ∷ x) [] h = ground (arith, h.2)
is_rooted-join (c ∷ x) (f ∷ es) h = ground (arith, h.2)

pub clean_lem :
    (p : Text) (rooted : Bool) (parts : List Text)
    → is_rooted p ≡ rooted
    → split slash p ≡ parts
    → clean p ≡ render rooted (reverse (push_elements rooted [] parts))
unfolding clean
clean_lem p rooted parts r e =
    ap (λ ps. render (is_rooted p) (reverse (push_elements (is_rooted p) [] ps))) e
    ∙ ap (λ b. render b (reverse (push_elements b [] parts))) r

-- The text of elements that stay as they are is clean.
clean-render :
    (rooted : Bool) (es : List Text)
    → Every IsElement es
    → reverse (push_elements rooted [] es) ≡ es
    → clean (render rooted es) ≡ render rooted es
unfolding clean render push_elements push_element split text_eq join
clean-render true [] h e = refl
clean-render false [] h e = refl
clean-render true (x ∷ es) h e =
    ap (λ parts. render true (reverse (push_elements true [] ([] ∷ parts))))
      (split-join x es (HasNoSlash-elements (x ∷ es) h))
    ∙ ap (render true) e
clean-render false (x ∷ es) h e =
    clean_lem (join (slash ∷ []) (x ∷ es)) false (x ∷ es) (is_rooted-join x es h.0)
      (split-join x es (HasNoSlash-elements (x ∷ es) h))
    ∙ ap (render false) e

-- `path.Clean` of a cleaned path is the path itself.
pub clean_idempotent : (p : Text) → clean (clean p) ≡ clean p
unfolding clean
clean_idempotent p =
    let rooted = is_rooted p in
    let stack = push_elements rooted [] (split slash p) in
    let normal = IsNormal-push_elements rooted (split slash p) [] (HasNoSlash-split p) tt in
    clean-render rooted (reverse stack) (IsElement-reverse rooted stack normal)
      (ap reverse (push_elements-reverse rooted stack normal))
