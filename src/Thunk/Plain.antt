-- ===== src/Thunk/Plain.antt =====
-- The messages of the parts of a thunk that hold no values of the language, both ways: paths,
-- platforms, build arguments and settings (pkg/bass/proto.go, path.go, filesystem_path.go,
-- host_path.go, cache_path.go, thunk.go, thunk_types.go).
use bass.Prelude.{
  Text, Option, none, some, List, [], ◌∷◌, ◌++◌, map, Result, ok, err, ◌>>=◌, has_prefix, codes,
  if◌then◌else◌, ◌||◌,
}
use bass.Prelude.Words.{to_int32}
use bass.Path.Clean.{clean}
use bass.Proto.HostPaths.{FileOrDirPath, file, dir, HostPath}
use bass.Thunk.Bindings.{set_binding}
use bass.Thunk.Types.{
  Failure, not_a_string, panics, CachePath, Platform, ThunkPort, ThunkTls, Settings, Datum, string,
  annotated, Bindings, no_bindings, binding, MaybeScope, no_scope, some_scope,
}
use bass.Thunk.Wire.{
  PathMessage, unset_path, to_file, to_dir, HostPathMessage, CachePathMessage, PlatformMessage,
  PortMessage, BuildArg, TlsMessage, SettingsMessage,
}

-- `FileOrDirPath.MarshalProto`; one of the two paths is set.
unfoldable pub marshal_path : FileOrDirPath → PathMessage
marshal_path (file p) = to_file p
marshal_path (dir p) = to_dir p

-- `HostPath.MarshalProto`.
unfoldable pub marshal_host_path : HostPath → HostPathMessage
unfolding marshal_path
marshal_host_path p = record { context = p.context_dir; path = marshal_path p.path }

-- `CachePath.MarshalProto`; an enum of a message is an int32.
unfoldable pub marshal_cache_path : CachePath → CachePathMessage
unfolding marshal_path to_int32
marshal_cache_path p = record {
  id = p.id;
  path = marshal_path p.path;
  concurrency = to_int32 p.concurrency_mode;
}

-- The platform that each image sets in its message.
unfoldable pub marshal_platform : Platform → PlatformMessage
marshal_platform p = record { os = p.os; arch = p.architecture }

-- A field of a message that is set only when there is a text.
abbrev pub unless_empty : Text → Option Text
unless_empty [] = none
unless_empty (c ∷ s) = some (c ∷ s)

-- `clarifyPath`.
unfoldable pub clarify_path : Text → Text
clarify_path p =
    if has_prefix p (codes "/") || has_prefix p (codes "./") || has_prefix p (codes "../")
    then p
    else codes "./" ++ p

abbrev pub clarify_option : Option Text → Option Text
clarify_option none = none
clarify_option (some p) = some (clarify_path p)

-- `Decode` into a Go string.
unfoldable pub decode_string : Datum → Option Text
decode_string (string s) = some s
decode_string (annotated v) = decode_string v
decode_string v = none

-- The callback on the arguments of a build.
unfoldable pub marshal_build_args : Bindings → Result Failure (List BuildArg)
unfolding decode_string
marshal_build_args no_bindings = ok []
marshal_build_args (binding k v bs) = elim (decode_string v) [
  | none ↦ err not_a_string
  | some s ↦ marshal_build_args bs >>= λ args. ok (record { name = k; value = s } ∷ args)
]

abbrev pub marshal_args : MaybeScope → Result Failure (List BuildArg)
marshal_args no_scope = ok []
marshal_args (some_scope bs) = marshal_build_args bs

unfoldable pub marshal_port : ThunkPort → PortMessage
unfolding to_int32
marshal_port p = record { name = p.name; port = to_int32 p.port }

abbrev pub marshal_tls : Option ThunkTls → Option TlsMessage
marshal_tls none = none
marshal_tls (some tls) = some (record { cert = some tls.cert; key = some tls.key })

unfoldable pub marshal_settings : Settings → SettingsMessage
unfolding marshal_port
marshal_settings s = record {
  insecure = s.insecure;
  use_entrypoint = s.use_entrypoint;
  ports = map marshal_port s.ports;
  tls = marshal_tls s.tls;
  entrypoint = s.entrypoint;
  clear_entrypoint = s.clear_entrypoint;
  default_args = s.default_args;
  clear_default_args = s.clear_default_args;
}

-- `GetTag` and the like: an absent text reads as the empty one.
abbrev pub or_empty : Option Text → Text
or_empty none = []
or_empty (some s) = s

-- `FileOrDirPath.UnmarshalProto`: without a path it reads a field of a nil `FilePath`.
unfoldable pub unmarshal_path : PathMessage → Result Failure FileOrDirPath
unmarshal_path unset_path = err panics
unmarshal_path (to_file p) = ok (file p)
unmarshal_path (to_dir p) = ok (dir p)

-- `HostPath.UnmarshalProto`.
unfoldable pub unmarshal_host_path : HostPathMessage → Result Failure HostPath
unfolding unmarshal_path
unmarshal_host_path m = do
  p ← unmarshal_path m.path
  ok (record { context_dir = m.context; path = p })

-- `CachePath.UnmarshalProto`.
unfoldable pub unmarshal_cache_path : CachePathMessage → Result Failure CachePath
unfolding unmarshal_path
unmarshal_cache_path m = do
  p ← unmarshal_path m.path
  ok (record { id = m.id; concurrency_mode = m.concurrency; path = p })

-- `fod`: it keeps the path of a directory, and not its globs.
unfoldable pub fod : PathMessage → FileOrDirPath
fod unset_path = file []
fod (to_file p) = file p
fod (to_dir p) = dir (record { path = p.path; include = []; exclude = [] })

-- `Platform.UnmarshalProto`: it reads a field of a platform that may be nil.
unfoldable pub unmarshal_platform : Option PlatformMessage → Result Failure Platform
unmarshal_platform none = err panics
unmarshal_platform (some m) =
    ok
      (record { architecture = m.arch; os = m.os; os_version = []; os_features = []; variant = [] })

unfoldable pub unmarshal_port : PortMessage → ThunkPort
unmarshal_port m = record { name = m.name; port = m.port }

-- The certificate and the key are each read by `FilePath.UnmarshalProto`.
unfoldable pub unmarshal_tls : Option TlsMessage → Result Failure (Option ThunkTls)
unmarshal_tls none = ok none
unmarshal_tls (some m) = elim m.cert [
  | none ↦ err panics
  | some cert ↦ elim m.key [
    | none ↦ err panics
    | some key ↦ ok (some (record { cert = cert; key = key }))
  ]
]

unfoldable pub unmarshal_settings : SettingsMessage → Result Failure Settings
unfolding unmarshal_port unmarshal_tls
unmarshal_settings m = do
  tls ← unmarshal_tls m.tls
  ok (record {
    insecure = m.insecure;
    use_entrypoint = m.use_entrypoint;
    ports = map unmarshal_port m.ports;
    tls = tls;
    entrypoint = m.entrypoint;
    clear_entrypoint = m.clear_entrypoint;
    default_args = m.default_args;
    clear_default_args = m.clear_default_args;
  })

-- The loop of `ImageDockerBuild.UnmarshalProto` over the arguments.
unfoldable pub set_build_args : List BuildArg → Bindings → Bindings
unfolding set_binding
set_build_args [] bs = bs
set_build_args (a ∷ as_) bs = set_build_args as_ (set_binding a.name (string a.value) bs)

-- `NewFilePath` of a Dockerfile that is named.
unfoldable pub unmarshal_dockerfile : Option Text → Option Text
unmarshal_dockerfile none = none
unmarshal_dockerfile (some []) = none
unmarshal_dockerfile (some (c ∷ s)) = some (clean (c ∷ s))
