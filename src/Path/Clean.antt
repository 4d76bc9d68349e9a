-- ===== src/Path/Clean.antt =====
-- `path.Clean` of the standard library, as pkg/bass/path.go uses it: the shortest name of a path, by
-- its elements. The elements are read from the left, and `stack` holds the output, the last element
-- first.
use bass.Prelude.{
  ℕ, Text, text_eq, codes, Bool, true, false, ◌||◌, ◌==◌, List, [], ◌∷◌, if◌then◌else◌, split, join,
}
use mathlib.Core.List.{reverse}

abbrev pub slash : ℕ
slash = b'/'

abbrev pub dot : Text
dot = codes "."

abbrev pub dot_dot : Text
dot_dot = codes ".."

abbrev pub is_rooted : Text → Bool
is_rooted [] = false
is_rooted (c ∷ p) = c == slash

-- `..` takes the last element off, unless there is none to take off.
unfoldable pub up : Bool → List Text → List Text
up rooted [] = if rooted then [] else dot_dot ∷ []
up rooted (e ∷ stack) = if text_eq e dot_dot then dot_dot ∷ e ∷ stack else stack

unfoldable pub push_element : Bool → List Text → Text → List Text
push_element rooted stack e =
    if text_eq e [] || text_eq e dot
    then stack
    else if text_eq e dot_dot
    then up rooted stack
    else e ∷ stack

unfoldable pub push_elements : Bool → List Text → List Text → List Text
push_elements rooted stack [] = stack
push_elements rooted stack (e ∷ es) = push_elements rooted (push_element rooted stack e) es

-- The text of the cleaned elements.
unfoldable pub render : Bool → List Text → Text
render true es = slash ∷ join (slash ∷ []) es
render false [] = dot
render false (e ∷ es) = join (slash ∷ []) (e ∷ es)

unfoldable pub clean : Text → Text
unfolding push_elements push_element up render
clean p =
    let rooted = is_rooted p in render rooted (reverse (push_elements rooted [] (split slash p)))
