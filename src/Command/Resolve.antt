-- ===== src/Command/Resolve.antt =====
-- `resolveValue`, `resolveStr` and `resolveArgs` of pkg/runtimes/command.go.
use bass.Prelude.{
  ℕ, Text, text_eq, Option, none, some, List, [], ◌∷◌, ◌++◌, Result, ok, err, ◌>>=◌, if◌then◌else◌,
}
use bass.Scope.Each.{contains}
use bass.Proto.HostPaths.{FileOrDirPath, file, dir, HostPath}
use bass.Thunk.Types.{
  Failure, FsPath, CachePath, Secret, Datum, string, secret, list, file_path, dir_path,
  command_path, host_path, cache_path, fs_path, thunk_path, thunk_addr, annotated, Data, no_data,
  datum, Bindings, Thunk, ThunkPath, path_of, ThunkAddr, addr_of, ThunkMountSource, thunk_source,
  host_source, fs_source, cache_source,
}
use bass.Thunk.Wire.{ThunkMessage}
use bass.Thunk.Marshal.{marshal_thunk}
use bass.Thunk.Plain.{decode_string}
use bass.Thunk.Render.{render}
use bass.Command.Places.{new_dir_path, extend_place, from_slash, rel}

pub record CommandMount : Type 0 where
  pub source : ThunkMountSource
  pub target : Text

pub record CommandSecretEnv : Type 0 where
  pub name : Text
  pub secret : Secret

-- `Command`, without what the runtime fills in afterwards. Standard input is known by the values that
-- are encoded into it.
pub record Command : Type 0 where
  pub args : List Text
  pub stdin : Data
  pub env : List Text
  pub workdir : Option Text
  pub mounts : List CommandMount
  pub services : List Thunk
  pub secret_env : List CommandSecretEnv
  pub mounted : List Text

-- The errors: one of a thunk's message or of the rendering of an address, one of the runtime that
-- starts a thunk, a path that has no file system's hash, a secret without a value, a port that the
-- started thunk does not have, a value that is no string; and a loop that has not ended.
pub data Failed : Type 0 where
  failed : Failure → Failed
  not_started missing_secret no_port not_text unended : Failed

abbrev pub lifted : {A : Type 0} → Result Failure A → Result Failed A
lifted (ok a) = ok a
lifted (err e) = err (failed e)

unfoldable pub find_port : Text → List (Text × Bindings) → Option Bindings
find_port k [] = none
find_port k ((j, info) ∷ ps) = let rest = find_port k ps in if text_eq j k then some info else rest

abbrev pub as_string : Result Failed (Text × Command) → Result Failed (Datum × Command)
as_string (ok (s, cmd)) = ok (string s, cmd)
as_string (err e) = err e

-- What a command is made with: the hashes of a message and of a text, the hash and the path of a path
-- into a file system, the runtime's `Start`, and a bound on the loop of `rel`.
pub record Maker : Type 0 where
  pub hash_thunk : ThunkMessage → Text
  pub hash_text : Text → Text
  pub hash_fs : FsPath → Result Failure Text
  pub place_fs : FsPath → FileOrDirPath
  pub start : Thunk → Option (List (Text × Bindings))
  pub fuel : ℕ

-- A place is mounted once.
unfoldable pub add_mount : ThunkMountSource → Text → Command → Command
unfolding contains
add_mount source target cmd = if contains target cmd.mounted then cmd else record cmd {
  mounts = cmd.mounts ++ record { source = source; target = target } ∷ [];
  mounted = cmd.mounted ++ target ∷ [];
}

module _ (maker : Maker) where
  -- A path below the directory that is named by a hash: it is mounted, once, and the command reads its
  -- place from the working directory.
  unfoldable pub mount_place :
      ThunkMountSource → Text → FileOrDirPath → Command → Result Failed (Text × Command)
  unfolding extend_place new_dir_path from_slash rel add_mount
  mount_place source hash p cmd =
      let place = extend_place (new_dir_path hash) p in
      elim (rel maker.fuel cmd.workdir place) [
        | none ↦ err unended
        | some s ↦ ok (s, add_mount source (from_slash place) cmd)
      ]

  unfoldable pub mount_thunk_path : ThunkPath → Command → Result Failed (Text × Command)
  unfolding mount_place marshal_thunk
  mount_thunk_path (path_of t p) cmd = do
    m ← lifted (marshal_thunk t)
    mount_place (thunk_source (path_of t p)) (maker.hash_thunk m) p cmd

  unfoldable pub mount_host_path : HostPath → Command → Result Failed (Text × Command)
  unfolding mount_place
  mount_host_path p cmd = mount_place (host_source p) (maker.hash_text p.context_dir) p.path cmd

  unfoldable pub mount_cache_path : CachePath → Command → Result Failed (Text × Command)
  unfolding mount_place
  mount_cache_path p cmd = mount_place (cache_source p) (maker.hash_text p.id) p.path cmd

  unfoldable pub mount_fs_path : FsPath → Command → Result Failed (Text × Command)
  unfolding mount_place
  mount_fs_path p cmd = do
    hash ← lifted (maker.hash_fs p)
    mount_place (fs_source p) hash (maker.place_fs p) cmd

  unfoldable pub reveal : Secret → Result Failed Text
  reveal s = elim s.inner [ none ↦ err missing_secret | some shhhhh ↦ ok shhhhh ]

  -- The thunk of an address is started, and becomes a service of the command.
  unfoldable pub start_addr : ThunkAddr → Command → Result Failed (Text × Command)
  unfolding find_port render
  start_addr (addr_of t port format) cmd = elim (maker.start t) [
    | none ↦ err not_started
    | some ports ↦ elim (find_port port ports) [
      | none ↦ err no_port
      | some info ↦ do
        s ← lifted (render format info)
        ok (s, record cmd { services = cmd.services ++ t ∷ [] })
    ]
  ]

  -- `resolveValue` into a value: `none` is a value that is none of the cases, which is decoded itself.
  unfoldable pub resolve_place : Datum → Command → Option (Result Failed (Text × Command))
  unfolding from_slash mount_thunk_path mount_host_path mount_cache_path mount_fs_path reveal
      start_addr
  resolve_place (file_path p) cmd = some (ok (from_slash (file p), cmd))
  resolve_place (dir_path p) cmd = some (ok (from_slash (dir p), cmd))
  resolve_place (command_path c) cmd = some (ok (c, cmd))
  resolve_place (thunk_path p) cmd = some (mount_thunk_path p cmd)
  resolve_place (host_path p) cmd = some (mount_host_path p cmd)
  resolve_place (cache_path p) cmd = some (mount_cache_path p cmd)
  resolve_place (fs_path p) cmd = some (mount_fs_path p cmd)
  resolve_place (secret s) cmd = some (do shhhhh ← reveal s; ok (shhhhh, cmd))
  resolve_place (thunk_addr a) cmd = some (start_addr a cmd)
  resolve_place (annotated v) cmd = resolve_place v cmd
  resolve_place v cmd = none

  -- `resolveValue` into a value.
  unfoldable pub resolve_value : Datum → Command → Result Failed (Datum × Command)
  unfolding resolve_place
  resolve_value v cmd = elim (resolve_place v cmd) [ none ↦ ok (v, cmd) | some r ↦ as_string r ]

  -- `resolveValue` into a string.
  unfoldable pub resolve_text : Datum → Command → Result Failed (Text × Command)
  unfolding resolve_place decode_string
  resolve_text v cmd = elim (resolve_place v cmd) [
    | none ↦ elim (decode_string v) [ none ↦ err not_text | some s ↦ ok (s, cmd) ]
    | some r ↦ r
  ]

  -- `resolveArg`: the elements of a list make one string.
  unfoldable pub resolve_concat : Data → Command → Result Failed (Text × Command)
  unfolding resolve_text
  resolve_concat no_data cmd = ok ([], cmd)
  resolve_concat (datum v vs) cmd = do
    (s, cmd') ← resolve_text v cmd
    (rest, cmd'') ← resolve_concat vs cmd'
    ok (s ++ rest, cmd'')

  -- `resolveStr`.
  unfoldable pub resolve_str : Datum → Command → Result Failed (Text × Command)
  unfolding resolve_concat resolve_text
  resolve_str (list vs) cmd = resolve_concat vs cmd
  resolve_str (annotated v) cmd = resolve_str v cmd
  resolve_str v cmd = resolve_text v cmd

  -- `resolveArgs`.
  unfoldable pub resolve_args : Data → Command → Result Failed (List Text × Command)
  unfolding resolve_str
  resolve_args no_data cmd = ok ([], cmd)
  resolve_args (datum v vs) cmd = do
    (s, cmd') ← resolve_str v cmd
    (rest, cmd'') ← resolve_args vs cmd'
    ok (s ∷ rest, cmd'')
