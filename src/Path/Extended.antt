-- ===== src/Path/Extended.antt =====
-- What `Extend` returns, by the elements of its path.
use mathlib.Core.Path.{subst}
use mathlib.Core.Option.{some-injective}
use bass.Prelude.{
  ◌≡◌, ◌≢◌, refl, ap, ◌∙◌, Text, Bool, true, false, [], Option, none, some, ◌∷◌, ◌++◌,
}
use bass.Value.{Value, DirPath, dir_path, file_path, thunk, thunk_path}
use bass.Path.Clean.{slash, dot, is_rooted, render, clean}
use bass.Path.Extend.{dir, extend_dir, extend_file_or_dir, below_thunk, extend}
use bass.Path.Escape.{elements}
use bass.Path.Relative.{clean-elements}
use bass.Path.Append.{has_up, elements-append}

abbrev pub path_of : Value → Text
path_of (dir_path p) = p.path
path_of (file_path p) = p
path_of (thunk_path t p) = path_of p
path_of v = []

-- The path that is extended: that of a thunk is its working directory.
abbrev pub parent_path : Value → Text
parent_path (thunk a i) = dot
parent_path p = path_of p

abbrev pub is_dir : Value → Bool
is_dir (dir_path p) = true
is_dir (thunk_path t p) = is_dir p
is_dir v = false

none_ne_some {ℓ} : {A : Type ℓ} {a : A} → none ≢ some a
none_ne_some h = cc

-- The parent and the child with a slash between them, cleaned, of the child's kind.
abbrev IsJoined : Text → Value → Value → Type 0
IsJoined d ext q = (path_of q ≡ clean (d ++ slash ∷ path_of ext)) × (is_dir q ≡ is_dir ext)

IsJoined-extend_dir :
    (d : DirPath) (ext q : Value) → extend_dir d ext ≡ some q → IsJoined d.path ext q
unfolding extend_dir
IsJoined-extend_dir d (dir_path p) q e =
    subst (IsJoined d.path (dir_path p)) (some-injective _ q e) (refl, refl)
IsJoined-extend_dir d (file_path p) q e =
    subst (IsJoined d.path (file_path p)) (some-injective _ q e) (refl, refl)
IsJoined-extend_dir d _ q e = absurd (none_ne_some e)

IsJoined-extend_file_or_dir :
    (p ext q : Value) → extend_file_or_dir p ext ≡ some q → IsJoined (path_of p) ext q
unfolding extend_file_or_dir
IsJoined-extend_file_or_dir (dir_path d) ext q e = IsJoined-extend_dir d ext q e
IsJoined-extend_file_or_dir _ ext q e = absurd (none_ne_some e)

IsJoined-below_thunk :
    (t : Value) (d : Text) (ext : Value) (o : Option Value) (q : Value)
    → ((p : Value) → o ≡ some p → IsJoined d ext p)
    → below_thunk t o ≡ some q
    → IsJoined d ext q
IsJoined-below_thunk t d ext none q h e = absurd (none_ne_some e)
IsJoined-below_thunk t d ext (some p) q h e =
    subst (IsJoined d ext) (some-injective (thunk_path t p) q e) (h p refl)

IsJoined-extend : (p ext q : Value) → extend p ext ≡ some q → IsJoined (parent_path p) ext q
unfolding extend
IsJoined-extend (dir_path d) ext q e = IsJoined-extend_dir d ext q e
IsJoined-extend (thunk a i) ext q e =
    IsJoined-below_thunk (thunk a i) dot ext (extend_file_or_dir (dir dot) ext) q
      (λ p f. IsJoined-extend_file_or_dir (dir dot) ext p f) e
IsJoined-extend (thunk_path t p) ext q e =
    IsJoined-below_thunk t (path_of p) ext (extend_file_or_dir p ext) q
      (λ r f. IsJoined-extend_file_or_dir p ext r f) e
IsJoined-extend _ ext q e = absurd (none_ne_some e)

joined_elements :
    (d p : Text)
    → d ≢ []
    → is_rooted p ≡ false
    → has_up (elements p) ≡ false
    → clean (d ++ slash ∷ p) ≡ render (is_rooted d) (elements d ++ elements p)
joined_elements [] p ne r h = absurd (ne refl)
joined_elements (c ∷ d) p ne r h =
    clean-elements ((c ∷ d) ++ slash ∷ p)
    ∙ ap (render (is_rooted (c ∷ d))) (elements-append c d p r h)

-- A directory, a thunk (whose own path is `.`) or a directory in a thunk, whose own path is not the empty
-- text, is extended by a path that is not rooted and of whose elements, once it is cleaned, none is `..`.
-- If `Extend` succeeds, the result is a file or a directory as the extension is, and its path is made of
-- the elements of the parent's path and then those of the extension's, and is rooted if the parent's is.
pub extend-elements :
    (p ext q : Value)
    → extend p ext ≡ some q
    → parent_path p ≢ []
    → is_rooted (path_of ext) ≡ false
    → has_up (elements (path_of ext)) ≡ false
    → (path_of q
        ≡ render (is_rooted (parent_path p)) (elements (parent_path p) ++ elements (path_of ext)))
      × (is_dir q ≡ is_dir ext)
extend-elements p ext q e ne r h =
    let (joined, kind) = IsJoined-extend p ext q e in
    (joined ∙ joined_elements (parent_path p) (path_of ext) ne r h, kind)
