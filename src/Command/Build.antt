-- ===== src/Command/Build.antt =====
-- `NewCommand` and `resolveValues` of pkg/runtimes/command.go, and `Resolve` of pkg/bass/value.go.
use bass.Prelude.{
  Text, Bool, true, false, ltb, ◌==◌, Option, none, some, List, [], ◌∷◌, ◌++◌, Result, ok, err,
  ◌>>=◌, if◌then◌else◌,
}
use bass.Thunk.Types.{
  panics, Secret, Datum, null, secret, list, scope, dir_path, host_path, thunk_path, annotated,
  Data, no_data, datum, Bindings, no_bindings, binding, MaybeScope, no_scope, some_scope, Thunk,
  thunk_of, ThunkDir, no_dir, unset_dir, local_dir, thunk_dir, host_dir, Mounts, no_mounts, mount,
}
use bass.Thunk.Bindings.{set_binding}
use bass.Command.Places.{from_slash}
use bass.Command.Resolve.{
  CommandMount, Command, Failed, failed, Maker, resolve_value, resolve_text, resolve_str,
  resolve_args,
}

-- The order of `sort.Strings`.
unfoldable pub text_leb : Text → Text → Bool
text_leb [] t = true
text_leb (a ∷ s) [] = false
text_leb (a ∷ s) (b ∷ t) =
    let rest = text_leb s t in if ltb a b then true else if a == b then rest else false

unfoldable pub insert_text : Text → List Text → List Text
unfolding text_leb
insert_text s [] = s ∷ []
insert_text s (t ∷ ts) =
    let rest = insert_text s ts in if text_leb s t then s ∷ t ∷ ts else t ∷ rest

-- `sort.Strings`.
unfoldable pub sort_texts : List Text → List Text
unfolding insert_text
sort_texts [] = []
sort_texts (s ∷ ss) = insert_text s (sort_texts ss)

-- The `ToValue` of a working directory.
abbrev pub dir_value : ThunkDir → Option Datum
dir_value no_dir = none
dir_value unset_dir = none
dir_value (local_dir p) = some (dir_path p)
dir_value (thunk_dir p) = some (thunk_path p)
dir_value (host_dir p) = some (host_path p)

-- `Decode` into a `Null` and into a `Secret`.
abbrev pub is_null : Datum → Bool
is_null null = true
is_null (annotated v) = is_null v
is_null v = false

abbrev pub as_secret : Datum → Option Secret
as_secret (secret s) = some s
as_secret (annotated v) = as_secret v
as_secret v = none

-- The targets of the thunk's own mounts.
unfoldable pub own_mounts : Mounts → List CommandMount
unfolding from_slash
own_mounts no_mounts = []
own_mounts (mount source target rest) =
    record { source = source; target = from_slash target } ∷ own_mounts rest

abbrev pub empty_command : Command
empty_command = record {
  args = [];
  stdin = no_data;
  env = [];
  workdir = none;
  mounts = [];
  services = [];
  secret_env = [];
  mounted = [];
}

module _ (maker : Maker) where
  abbrev value_of : Datum → Command → Result Failed (Datum × Command)
  value_of v cmd = resolve_value maker v cmd

  -- `bass.Resolve` with the command's `resolveValue`, and `resolveValues`. What is resolved first is no
  -- list or scope unless it was one.
  unfoldable mutual
    -- A value and what is annotated: an annotation stays on a value that is nothing to resolve.
    pub resolve_deep : Datum → Datum → Command → Result Failed (Datum × Command)
    resolve_deep (list vs) outer cmd = do (ws, cmd') ← resolve_values vs cmd; ok (list ws, cmd')
    resolve_deep (scope bs) outer cmd = do
      (cs, cmd') ← resolve_fields bs bs cmd
      ok (scope cs, cmd')
    resolve_deep (annotated v) outer cmd = resolve_deep v outer cmd
    resolve_deep v outer cmd = value_of outer cmd

    pub resolve_values : Data → Command → Result Failed (Data × Command)
    resolve_values no_data cmd = ok (no_data, cmd)
    resolve_values (datum v vs) cmd = do
      (w, cmd') ← resolve_deep v v cmd
      (ws, cmd'') ← resolve_values vs cmd'
      ok (datum w ws, cmd'')

    -- The loop over the bindings of a scope, which sets the resolved values in a copy of it.
    pub resolve_fields : Bindings → Bindings → Command → Result Failed (Bindings × Command)
    resolve_fields no_bindings copy cmd = ok (copy, cmd)
    resolve_fields (binding k v bs) copy cmd = do
      (w, cmd') ← resolve_deep v v cmd
      resolve_fields bs (set_binding k w copy) cmd'

  -- The working directory is resolved before the command has one.
  unfoldable pub set_workdir : ThunkDir → Command → Result Failed Command
  set_workdir no_dir cmd = ok cmd
  set_workdir unset_dir cmd = err (failed panics)
  set_workdir d cmd = elim (dir_value d) [
    | none ↦ ok cmd
    | some v ↦ do (cwd, cmd') ← resolve_text maker v cmd; ok (record cmd' { workdir = some cwd })
  ]

  -- The loop over the environment: a null is a tombstone, and secrets are kept apart.
  unfoldable pub set_env : Bindings → Command → Result Failed Command
  set_env no_bindings cmd = ok cmd
  set_env (binding k v bs) cmd = elim (is_null v) [
    | true ↦ set_env bs cmd
    | false ↦ elim (as_secret v) [
      | some s ↦
          set_env bs
            (record cmd { secret_env = cmd.secret_env ++ record { name = k; secret = s } ∷ [] })
      | none ↦ do
        (s, cmd') ← resolve_str maker v cmd
        set_env bs (record cmd' { env = cmd'.env ++ (k ++ b'=' ∷ s) ∷ [] })
    ]
  ]

  unfoldable pub set_scope_env : MaybeScope → Command → Result Failed Command
  unfolding set_env sort_texts
  set_scope_env no_scope cmd = ok cmd
  set_scope_env (some_scope bs) cmd = do
    cmd' ← set_env bs cmd
    ok (record cmd' { env = sort_texts cmd'.env })

  -- `NewCommand`.
  unfoldable pub new_command : Thunk → Result Failed Command
  unfolding set_workdir set_scope_env own_mounts resolve_args
  new_command (thunk_of image args stdin env workdir mount_list labels settings) = do
    cmd ← set_workdir workdir empty_command
    (resolved, cmd') ← resolve_args maker args cmd
    cmd'' ← set_scope_env env (record cmd' { args = resolved })
    (values, cmd''') ← resolve_values stdin cmd''
    ok (record cmd''' {
      stdin = values;
      mounts = cmd'''.mounts ++ own_mounts mount_list;
      mounted = [];
    })
