-- ===== src/Path/Extend.antt =====
-- `Extend` of the paths of pkg/bass/path.go, filesystem_path.go, thunk.go and thunk_path.go.
use bass.Prelude.{Text, Option, none, some, [], ◌∷◌, ◌++◌}
use bass.Value.{Value, DirPath, dir_path, file_path, thunk, thunk_path}
use bass.Path.Clean.{slash, dot, clean}

abbrev pub dir : Text → Value
dir p = dir_path (record { path = p; include = []; exclude = [] })

-- `DirPath.Extend`; `none` is an `ExtendError`.
unfoldable pub extend_dir : DirPath → Value → Option Value
extend_dir d (dir_path p) = some (dir (clean (d.path ++ slash ∷ p.path)))
extend_dir d (file_path p) = some (file_path (clean (d.path ++ slash ∷ p)))
extend_dir d ext = none

-- `FileOrDirPath.Extend`.
unfoldable pub extend_file_or_dir : Value → Value → Option Value
unfolding extend_dir
extend_file_or_dir (dir_path d) ext = extend_dir d ext
extend_file_or_dir p ext = none

abbrev pub below_thunk : Value → Option Value → Option Value
below_thunk t none = none
below_thunk t (some p) = some (thunk_path t p)

-- `Path.Extend`, by the kind of path.
unfoldable pub extend : Value → Value → Option Value
unfolding extend_file_or_dir
extend (dir_path d) ext = extend_dir d ext
extend (thunk a i) ext = below_thunk (thunk a i) (extend_file_or_dir (dir dot) ext)
extend (thunk_path t p) ext = below_thunk t (extend_file_or_dir p ext)
extend p ext = none
