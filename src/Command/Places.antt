-- ===== src/Command/Places.antt =====
-- Where the paths of a thunk stand in its container: `FromSlash` and `NewDirPath` of pkg/bass/path.go,
-- and `Command.rel` of pkg/runtimes/command.go. The separator of the host is the slash.
use bass.Prelude.{
  ℕ, zero, suc, Text, text_eq, codes, Bool, true, false, ◌==◌, Option, none, some, [], ◌∷◌, ◌++◌,
  if◌then◌else◌,
}
use bass.Path.Clean.{slash, dot, is_rooted, clean}
use bass.Proto.HostPaths.{FileOrDirPath, file, dir}

-- `strings.TrimSuffix` of a slash.
unfoldable pub trim_slash : Text → Text
trim_slash [] = []
trim_slash (c ∷ []) = if c == slash then [] else c ∷ []
trim_slash (c ∷ d ∷ p) = c ∷ trim_slash (d ∷ p)

-- `NewDirPath`.
unfoldable pub new_dir_path : Text → Text
unfolding clean trim_slash
new_dir_path p = trim_slash (clean p)

-- `DirPath.Extend` with a file or a directory.
unfoldable pub extend_place : Text → FileOrDirPath → FileOrDirPath
unfolding clean
extend_place d (file p) = file (clean (d ++ slash ∷ p))
extend_place d (dir p) =
    dir (record { path = clean (d ++ slash ∷ p.path); include = []; exclude = [] })

-- `FromSlash`.
unfoldable pub from_slash : FileOrDirPath → Text
unfolding clean
from_slash (file p) = let fs = clean p in if is_rooted fs then fs else codes "./" ++ fs
from_slash (dir p) =
    let fs = clean p.path in
    if is_rooted fs
    then fs ++ slash ∷ []
    else if text_eq fs dot
    then codes "./"
    else codes "./" ++ fs ++ slash ∷ []

abbrev pub is_dir : FileOrDirPath → Bool
is_dir (file p) = false
is_dir (dir p) = true

abbrev pub has_slash : Text → Bool
has_slash [] = false
has_slash (c ∷ p) = if c == slash then true else has_slash p

-- A path up to its last slash, and with it.
unfoldable pub up_to_slash : Text → Text
up_to_slash [] = []
up_to_slash (c ∷ p) =
    let rest = up_to_slash p in if has_slash p then c ∷ rest else if c == slash then c ∷ [] else []

-- `filepath.Dir`.
unfoldable pub parent_dir : Text → Text
unfolding clean up_to_slash
parent_dir p = clean (up_to_slash p)

-- The loop of `rel`, at most so many times: each directory of the working directory is left.
unfoldable pub climb : ℕ → Text → Text → Option Text
unfolding parent_dir clean
climb zero d p = none
climb (suc n) d p =
    let rest = climb n (parent_dir d) (clean (codes "../" ++ p)) in
    if text_eq d dot then some p else rest

-- `rel`; `none` if the loop has not ended yet.
unfoldable pub rel : ℕ → Option Text → FileOrDirPath → Option Text
unfolding from_slash parent_dir climb
rel n none p = some (from_slash p)
rel n (some cwd) p = elim (climb n (parent_dir cwd) (from_slash p)) [
  | none ↦ none
  | some q ↦ some (if is_dir p then q ++ slash ∷ [] else q)
]
