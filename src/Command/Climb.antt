-- ===== src/Command/Climb.antt =====
-- `Command.rel` of pkg/runtimes/command.go: its loop ends for a relative working directory, and never
-- for an absolute one.
use mathlib.Core.Path.{subst}
use mathlib.Core.List.{reverse, reverse_aux}
use bass.Prelude.{
  ℕ, zero, suc, ◌+◌, ◌≤◌, Text, text_eq, codes, true, false, ◌==◌, Option, none, some, List, [],
  ◌∷◌, ◌++◌, length, ◌≡◌, ◌≢◌, ◌⊎◌, refl, arith, Bool-cases, inl, inr, if◌then◌else◌, split, err,
}
use bass.Path.Clean.{slash, dot, is_rooted, clean, render, push_element, push_elements, up}
use bass.Path.Elements.{IsElement}
use bass.Path.Idempotent.{
  Every, HasNoSlash, HasNoSlash-split, split-join, IsNormal-push_elements, IsElement-reverse,
  HasNoSlash-elements, is_rooted-join, clean_lem,
}
use bass.Proto.HostPaths.{FileOrDirPath}
use bass.Thunk.Types.{ThunkMountSource}
use bass.Command.Places.{
  new_dir_path, extend_place, from_slash, is_dir, has_slash, up_to_slash, parent_dir, climb, rel,
}
use bass.Command.Resolve.{Command, unended, Maker, mount_place}

is_rooted-parent_dir : (d : Text) → is_rooted d ≡ true → is_rooted (parent_dir d) ≡ true
unfolding parent_dir clean up_to_slash render
is_rooted-parent_dir [] h = cc
is_rooted-parent_dir (c ∷ d) h = elim (Bool-cases (has_slash d)) [
  | inl e ↦ rw (e, h) refl
  | inr e ↦ rw (e, h, h) refl
]

climb_rooted : (n : ℕ) (d p : Text) → is_rooted d ≡ true → climb n d p ≡ none
unfolding climb text_eq
climb_rooted zero d p h = refl
climb_rooted (suc n) [] p h = cc
climb_rooted (suc n) (c ∷ d) p h = ground (
  arith,
  h,
  climb_rooted n (parent_dir (c ∷ d)) (clean (codes "../" ++ p)) (is_rooted-parent_dir (c ∷ d) h),
)

rel_rooted :
    (n : ℕ) (workdir : Option Text) (cwd : Text) (p : FileOrDirPath)
    → is_rooted cwd ≡ true
    → workdir ≡ some cwd
    → rel n workdir p ≡ none
unfolding rel
rel_rooted n workdir cwd p r e =
    rw (e, climb_rooted n (parent_dir cwd) (from_slash p) (is_rooted-parent_dir cwd r), rel) refl

-- From an absolute working directory a value that is mounted is never resolved: however often the loop
-- may turn, it has not ended.
pub rooted_workdir_unended :
    (maker : Maker) (source : ThunkMountSource) (hash cwd : Text) (p : FileOrDirPath)
    (cmd : Command)
    → is_rooted cwd ≡ true
    → cmd.workdir ≡ some cwd
    → mount_place maker source hash p cmd ≡ err unended
unfolding mount_place
rooted_workdir_unended maker source hash cwd p cmd r e =
    rw (rel_rooted maker.fuel cmd.workdir cwd (extend_place (new_dir_path hash) p) r e, mount_place)
      refl

-- A relative working directory.
abbrev but_last : List Text → List Text
but_last [] = []
but_last (e ∷ []) = []
but_last (e ∷ f ∷ es) = e ∷ but_last (f ∷ es)

one_part : (p : Text) → has_slash p ≡ false → split slash p ≡ p ∷ []
unfolding split
one_part [] h = refl
one_part (c ∷ p) h = ground (arith, h, one_part p)

two_parts :
    (p : Text)
    → has_slash p ≡ true
    → (q : Text) × (r : Text) × (rs : List Text) × (split slash p ≡ q ∷ r ∷ rs)
unfolding split
two_parts [] h = cc
two_parts (c ∷ p) h = elim (Bool-cases (has_slash p)) [
  | inl e ↦
      let (q, r, rs, f) = two_parts p e in
      elim (Bool-cases (c == slash)) [
        | inl g ↦ ([], q, r ∷ rs, ground (arith, g, f))
        | inr g ↦ (c ∷ q, r, rs, ground (arith, g, f))
      ]
  | inr e ↦ ([], p, [], ground (arith, h, e, one_part p e))
]

split-up_to_slash : (d : Text) → split slash (up_to_slash d) ≡ but_last (split slash d) ++ [] ∷ []
unfolding split up_to_slash
split-up_to_slash [] = refl
split-up_to_slash (c ∷ d) = elim (Bool-cases (has_slash d)) [
  | inl e ↦
      let (q, r, rs, f) = two_parts d e in
      let later = split-up_to_slash d in
      elim (Bool-cases (c == slash)) [
        | inl g ↦ ground (arith, e, g, f, later)
        | inr g ↦ ground (arith, e, g, f, later)
      ]
  | inr e ↦ ground (arith, e, one_part d e)
]

length-but_last : (es : List Text) → es ≢ [] → length (but_last es) + 1 ≡ length es
length-but_last [] h = absurd (h refl)
length-but_last (e ∷ []) h = omega arith
length-but_last (e ∷ f ∷ es) h = omega (arith, length-but_last (f ∷ es) cc)

length-push_element :
    (stack : List Text) (e : Text) → length (push_element false stack e) ≤ length stack + 1
unfolding push_element up
length-push_element [] e = ground arith
length-push_element (d ∷ stack) e = ground arith

length-push_elements :
    (stack es : List Text)
    → length (push_elements false stack (es ++ [] ∷ [])) ≤ length stack + length es
unfolding push_elements push_element text_eq
length-push_elements stack [] = omega arith
length-push_elements stack (e ∷ es) =
    omega (arith, length-push_elements (push_element false stack e) es, length-push_element stack e)

split_ne : (p : Text) → split slash p ≢ []
split_ne p = elim (Bool-cases (has_slash p)) [
  | inl e ↦ let (q, r, rs, f) = two_parts p e in rw f cc
  | inr e ↦ rw (one_part p e) cc
]

-- The elements of a cleaned relative path, if it is not the current directory.
rendered :
    (es : List Text)
    → Every IsElement es
    → (render false es ≡ dot)
      ⊎ ((split slash (render false es) ≡ es) × (is_rooted (render false es) ≡ false))
unfolding render
rendered [] h = inl refl
rendered (e ∷ es) h =
    inr (split-join e es (HasNoSlash-elements (e ∷ es) h), is_rooted-join e es h.0)

length-reverse_aux : (l r : List Text) → length (reverse_aux l r) ≡ length l + length r
length-reverse_aux [] r = omega arith
length-reverse_aux (x ∷ l) r = omega (arith, length-reverse_aux l (x ∷ r))

unfoldable IsShort : Text → ℕ → Type 0
IsShort p n = (p ≡ dot) ⊎ ((length (split slash p) ≤ n) × (is_rooted p ≡ false))

clean-IsShort :
    (u : Text) (es : List Text)
    → is_rooted u ≡ false
    → split slash u ≡ es ++ [] ∷ []
    → IsShort (clean u) (length es)
unfolding IsShort
clean-IsShort u es r e =
    let stack = push_elements false [] (es ++ [] ∷ []) in
    let normal =
      IsNormal-push_elements false (es ++ [] ∷ []) []
        (subst (Every HasNoSlash) e (HasNoSlash-split u)) tt in
    rw (clean_lem u false (es ++ [] ∷ []) r e)
      (elim (rendered (reverse stack) (IsElement-reverse false stack normal)) [
        | inl f ↦ inl f
        | inr (f, g) ↦
            inr (rw f (omega (arith, length-reverse_aux stack [], length-push_elements [] es)), g)
      ])

up_to_slash_relative : (d : Text) → is_rooted d ≡ false → is_rooted (up_to_slash d) ≡ false
unfolding up_to_slash
up_to_slash_relative [] h = refl
up_to_slash_relative (c ∷ d) h = ground (arith, h)

parent_dir-shorter :
    (d : Text) → is_rooted d ≡ false → IsShort (parent_dir d) (length (but_last (split slash d)))
unfolding parent_dir
parent_dir-shorter d h =
    clean-IsShort (up_to_slash d) (but_last (split slash d)) (up_to_slash_relative d h)
      (split-up_to_slash d)

climb-dot : (n : ℕ) (p : Text) → 1 ≤ n → climb n dot p ≡ some p
unfolding climb text_eq
climb-dot zero p h = absurd (omega (arith, h))
climb-dot (suc n) p h = refl

climb_relative :
    (n : ℕ) (d p : Text)
    → is_rooted d ≡ false
    → length (split slash d) + 1 ≤ n
    → (q : Text) × (climb n d p ≡ some q)
unfolding climb IsShort
climb_relative zero d p r h = absurd (omega (arith, h))
climb_relative (suc n) d p r h = elim (Bool-cases (text_eq d dot)) [
  | inl e ↦ (p, rw e refl)
  | inr e ↦ rw e (elim (parent_dir-shorter d r) [
    | inl f ↦ (
      clean (codes "../" ++ p),
      rw f (
          climb-dot n (clean (codes "../" ++ p))
            (omega (arith, h, length-but_last (split slash d) (split_ne d)))),
    )
    | inr (f, g) ↦
        climb_relative n (parent_dir d) (clean (codes "../" ++ p)) g
          (omega (arith, h, f, length-but_last (split slash d) (split_ne d)))
  ])
]

climb_parent :
    (n : ℕ) (cwd p : Text)
    → is_rooted cwd ≡ false
    → length (split slash cwd) ≤ n
    → (q : Text) × (climb n (parent_dir cwd) p ≡ some q)
unfolding IsShort
climb_parent n cwd p r h = elim (parent_dir-shorter cwd r) [
  | inl f ↦
      (p, rw f (climb-dot n p (omega (arith, h, length-but_last (split slash cwd) (split_ne cwd)))))
  | inr (f, g) ↦
      climb_relative n (parent_dir cwd) p g
        (omega (arith, h, f, length-but_last (split slash cwd) (split_ne cwd)))
]

-- For a relative working directory the loop of `rel` ends: one round more than the directory has
-- slashes is enough.
pub rel_ends :
    (n : ℕ) (cwd : Text) (p : FileOrDirPath)
    → is_rooted cwd ≡ false
    → length (split slash cwd) ≤ n
    → (q : Text) × (rel n (some cwd) p ≡ some q)
unfolding rel
rel_ends n cwd p r h =
    let (q, e) = climb_parent n cwd (from_slash p) r h in
    (if is_dir p then q ++ slash ∷ [] else q, rw (e, rel) refl)
