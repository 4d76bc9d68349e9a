-- ===== src/Command/Examples.antt =====
-- Commands at concrete inputs.
use bass.Prelude.{codes, Text, none, some, [], ◌∷◌, ◌≡◌, refl, ok, err, arith}
use bass.Path.Clean.{clean, render, push_element, push_elements, up}
use bass.Prelude.{split, join, text_eq, has_prefix}
use bass.Prelude.Int.{pos}
use bass.Scope.Each.{contains}
use bass.Proto.HostPaths.{file}
use bass.Thunk.Types.{
  CachePath, command_path, cache_path, no_data, datum, no_scope, Thunk, thunk_of, no_image,
  local_dir, no_mounts, cache_source,
}
use bass.Thunk.Operations.{nothing_set}
use bass.Command.Places.{
  trim_slash, new_dir_path, extend_place, from_slash, up_to_slash, parent_dir, climb, rel,
}
use bass.Command.Resolve.{
  Command, unended, Maker, add_mount, mount_place, mount_cache_path, resolve_place, resolve_text,
  resolve_str, resolve_args,
}
use bass.Command.Build.{
  own_mounts, empty_command, resolve_values, set_workdir, set_scope_env, new_command,
}
use bass.Command.Climb.{rooted_workdir_unended, rel_ends}
use bass.Command.Made.{IsMade, new_command_mounts}

abbrev maker : Maker
maker = record {
  hash_thunk = λ m. codes "T";
  hash_text = λ t. t;
  hash_fs = λ p. ok (codes "F");
  place_fs = λ p. file (codes "f");
  start = λ t. none;
  fuel = 5;
}

abbrev cache : CachePath
cache = record { id = codes "C"; concurrency_mode = pos 0; path = file (codes "x") }

-- `(with-dir ($ ls <cache C>/x <cache C>/x) ./a/b/)`
abbrev ls : Thunk
ls =
    thunk_of no_image
      (datum (command_path (codes "ls"))
        (datum (cache_path cache) (datum (cache_path cache) no_data)))
      no_data no_scope (local_dir (record { path = codes "a/b"; include = []; exclude = [] }))
      no_mounts no_scope nothing_set

abbrev ls_command : Command
ls_command = record {
  args = codes "ls" ∷ codes "../../C/x" ∷ codes "../../C/x" ∷ [];
  stdin = no_data;
  env = [];
  workdir = some (codes "./a/b/");
  mounts = record { source = cache_source cache; target = codes "./C/x" } ∷ [];
  services = [];
  secret_env = [];
  mounted = [];
}

ls_made : new_command maker ls ≡ ok ls_command
unfolding new_command set_workdir set_scope_env resolve_args resolve_str resolve_text resolve_place
    resolve_values mount_cache_path mount_place add_mount contains rel climb parent_dir up_to_slash
    from_slash extend_place new_dir_path trim_slash own_mounts clean render push_elements
    push_element up split join text_eq has_prefix
ls_made = refl

new_command_mounts_example : IsMade maker ls ls_command
new_command_mounts_example = new_command_mounts maker ls ls_command ls_made

abbrev in_root : Command
in_root = record empty_command { workdir = some (codes "/src/") }

rooted_workdir_unended_example :
    mount_place maker (cache_source cache) (codes "C") (file (codes "x")) in_root ≡ err unended
rooted_workdir_unended_example =
    rooted_workdir_unended maker (cache_source cache) (codes "C") (codes "/src/") (file (codes "x"))
      in_root refl refl

rel_ends_example : (q : Text) × (rel 4 (some (codes "./a/b/")) (file (codes "x")) ≡ some q)
unfolding split
rel_ends_example = rel_ends 4 (codes "./a/b/") (file (codes "x")) refl (omega arith)
