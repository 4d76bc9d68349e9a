-- ===== src/Path/Parse.antt =====
-- `ParseFileOrDirPath` and `Slash` of pkg/bass/filesystem_path.go and path.go: a path from its text, as
-- `string->fs-path` takes it, and the text of a path.
-- The separator of the host is the slash.
use bass.Prelude.{
  ◌==◌, Text, text_eq, Bool, false, ◌||◌, Option, none, some, [], ◌∷◌, ◌++◌, if◌then◌else◌,
}
use bass.Proto.HostPaths.{FileOrDirPath, file, dir}
use bass.Path.Clean.{slash, dot, clean}
use bass.Thunk.Plain.{clarify_path}
use bass.Command.Places.{new_dir_path}

-- `strings.HasSuffix` of a slash.
unfoldable pub ends_slash : Text → Bool
ends_slash [] = false
ends_slash (c ∷ []) = c == slash
ends_slash (c ∷ d ∷ p) = ends_slash (d ∷ p)

-- The path of a text that is not empty, with `NewDirPath` and `NewFilePath`.
unfoldable pub parse_nonempty : Text → FileOrDirPath
unfolding new_dir_path clean ends_slash
parse_nonempty arg =
    if text_eq arg dot || ends_slash arg
    then dir (record { path = new_dir_path arg; include = []; exclude = [] })
    else file (clean arg)

-- `ParseFileOrDirPath`; `none` is the panic of `NewFilePath` for the empty text.
unfoldable pub parse_path : Text → Option FileOrDirPath
unfolding parse_nonempty
parse_path [] = none
parse_path (c ∷ arg) = some (parse_nonempty (c ∷ arg))

-- `Slash`.
unfoldable pub slash_path : FileOrDirPath → Text
unfolding clarify_path
slash_path (file p) = clarify_path p
slash_path (dir p) = clarify_path (p.path ++ slash ∷ [])
