-- ===== src/Path/Escape.antt =====
-- The test of pkg/bass/host_path.go that a host path does not leave its context directory, with
-- `filepath.Rel` of the standard library. The separator of the host is the slash.
use mathlib.Core.List.{reverse}
use bass.Prelude.{
  Text, text_eq, codes, has_prefix, Bool, not, ◌&&◌, ◌||◌, Option, none, some, List, [], ◌∷◌, ◌++◌,
  map, Result, ok, err, if◌then◌else◌, split, join,
}
use bass.Path.Clean.{slash, dot, dot_dot, is_rooted, push_elements, clean}
use bass.Proto.HostPaths.{HostPath}
use bass.Command.Places.{from_slash}

-- The elements of a path when it is cleaned.
unfoldable pub elements : Text → List Text
unfolding push_elements split
elements p = reverse (push_elements (is_rooted p) [] (split slash p))

-- `filepath.Join` of two paths, the second not empty.
unfoldable pub join_paths : Text → Text → Text
unfolding clean
join_paths [] q = clean q
join_paths (c ∷ p) q = clean ((c ∷ p) ++ slash ∷ q)

-- From one path to another by their elements: up from those that differ, unless one of them is `..`.
unfoldable pub rel_elements : List Text → List Text → Option (List Text)
unfolding text_eq
rel_elements [] ts = some ts
rel_elements (b ∷ bs) [] = if text_eq b dot_dot then none else some (map (λ e. dot_dot) (b ∷ bs))
rel_elements (b ∷ bs) (t ∷ ts) =
    let rest = rel_elements bs ts in
    if text_eq b t
    then rest
    else if text_eq b dot_dot
    then none
    else some (map (λ e. dot_dot) (b ∷ bs) ++ t ∷ ts)

-- The empty relative path is `.` as a target, and nothing as a base.
abbrev pub targets : Bool → List Text → List Text
targets rooted [] = if rooted then [] else dot ∷ []
targets rooted (e ∷ es) = e ∷ es

-- `filepath.Rel`; `none` is the error.
unfoldable pub rel_path : Text → Text → Option Text
unfolding rel_elements
rel_path base targ =
    if text_eq (clean targ) (clean base)
    then some dot
    else if is_rooted base && not (is_rooted targ) || not (is_rooted base) && is_rooted targ
    then none
    else (elim (rel_elements (elements base) (targets (is_rooted targ) (elements targ))) [
      | none ↦ none
      | some es ↦ some (join (slash ∷ []) es)
    ])

pub data EscapeError : Type 0 where
  not_relative host_path_escape : EscapeError

abbrev pub escapes : Text → Bool
escapes rel = text_eq rel dot_dot || has_prefix rel (codes "../")

-- `fpath`.
abbrev pub fpath : HostPath → Text
fpath p = join_paths p.context_dir (from_slash p.path)

-- The way that was found has to stay in the context directory.
abbrev pub unless_escaping : Text → Option Text → Result EscapeError (Text × Text)
unless_escaping r none = err not_relative
unless_escaping r (some rel) = if escapes rel then err host_path_escape else ok (r, rel)

-- `checkEscape`.
unfoldable pub check_escape : HostPath → Result EscapeError (Text × Text)
unfolding clean rel_path
check_escape p = let r = clean (fpath p) in unless_escaping r (rel_path (clean p.context_dir) r)
