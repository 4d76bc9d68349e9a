-- ===== src/Path/Examples.antt =====
-- A directory extended by a file above it.
use bass.Prelude.{
  [], arith, ◌≡◌, ◌↔◌, refl, codes, text_eq, ◌++◌, false, has_prefix, split, join, some, ok, err,
}
use bass.Proto.HostPaths.{HostPath, file, dir as a_dir}
use bass.Command.Places.{from_slash, trim_slash, new_dir_path}
use bass.Path.Parse.{ends_slash, parse_nonempty, parse_path, slash_path}
use bass.Path.Parsed.{parse_path-slash_path}
use bass.Path.Escape.{
  elements, join_paths, rel_elements, rel_path, host_path_escape, fpath, check_escape,
}
use bass.Path.Relative.{IsWithin}
use bass.Path.Within.{IsAccepted, check_escape_iff}
use bass.Value.{file_path}
use bass.Path.Clean.{clean, render, push_elements, push_element, up}
use bass.Path.Extend.{dir, extend, extend_dir}
use bass.Path.Extended.{extend-elements}

extends_up :
    extend (dir (codes "./a/b")) (file_path (codes "../../c/./d")) ≡ some (file_path (codes "c/d"))
unfolding extend extend_dir clean render push_elements push_element up split join text_eq
extends_up = refl

extends_down :
    extend (dir (codes "./a/b")) (file_path (codes "c/../d")) ≡ some (file_path (codes "a/b/d"))
unfolding extend extend_dir clean render push_elements push_element up split join text_eq
extends_down = refl

extend-elements_example :
    (codes "a/b/d" ≡ render false (elements (codes "./a/b") ++ elements (codes "c/../d")))
    × (false ≡ false)
unfolding elements push_elements push_element up split text_eq
extend-elements_example =
    extend-elements (dir (codes "./a/b")) (file_path (codes "c/../d")) (file_path (codes "a/b/d"))
      extends_down (λ e. cc) refl refl

-- A host path below its context directory, which goes up once on its way, and one that leaves it.
abbrev inside : HostPath
inside = record { context_dir = codes "/ctx/./dir"; path = file (codes "a/../b") }

abbrev outside : HostPath
outside = record { context_dir = codes "/ctx/dir"; path = file (codes "../dirty") }

check_escape_iff_example :
    IsAccepted (check_escape inside) ↔ IsWithin (clean (codes "/ctx/./dir")) (clean (fpath inside))
check_escape_iff_example = check_escape_iff inside

inside_accepted : check_escape inside ≡ ok (codes "/ctx/dir/b", codes "b")
unfolding check_escape rel_path rel_elements elements join_paths from_slash clean render
    push_elements push_element up split join text_eq has_prefix
inside_accepted = refl

outside_refused : check_escape outside ≡ err host_path_escape
unfolding check_escape rel_path rel_elements elements join_paths from_slash clean render
    push_elements push_element up split join text_eq has_prefix
outside_refused = refl

parse_path-slash_path_example :
    parse_path (slash_path (file (codes "c/d"))) ≡ some (file (codes "c/d"))
unfolding parse_path parse_nonempty clean render push_elements push_element up split join text_eq
    ends_slash
parse_path-slash_path_example =
    parse_path-slash_path (codes "c/x/../d") (file (codes "c/d")) refl (λ e. ground (arith, e))

-- The root as a file: its text is the text of a directory.
root_file :
    (parse_path (codes "/.") ≡ some (file (codes "/")))
    × (parse_path (codes "/") ≡ some (a_dir (record { path = []; include = []; exclude = [] })))
unfolding parse_path parse_nonempty new_dir_path trim_slash clean render push_elements push_element
    up split join text_eq ends_slash
root_file = (refl, refl)
