-- ===== src/Thunk/Operations.antt =====
-- The operations of pkg/bass/thunk.go that make one thunk from another, which pkg/bass/ground.go
-- gives to programs, and the lookups of a thunk's platform and ports. A thunk is passed by value; what
-- its slices share is in Thunk/Slices.
use bass.Prelude.{
  Text, text_eq, codes, Bool, true, false, Option, none, some, List, [], ◌∷◌, ◌++◌, if◌then◌else◌,
}
use bass.Prelude.Int.{ℤ}
use bass.Proto.HostPaths.{FileOrDirPath}
use bass.Thunk.Bindings.{set_binding, overlay}
use bass.Thunk.Types.{
  Platform, ThunkPort, Settings, Datum, Data, no_data, datum, Bindings, no_bindings, binding,
  no_scope, some_scope, Thunk, thunk_of, ThunkAddr, addr_of, ThunkImage, no_image, unset_image, ref,
  thunk_image, archive, docker_build, ImageRef, image_ref, ImageArchive, image_archive,
  ImageDockerBuild, image_docker_build, ThunkDir, no_dir, Mounts, no_mounts, mount,
  ThunkMountSource,
}

abbrev pub nothing_set : Settings
nothing_set = record {
  insecure = false;
  use_entrypoint = false;
  ports = [];
  tls = none;
  entrypoint = [];
  clear_entrypoint = false;
  default_args = [];
  clear_default_args = false;
}

-- `scratch`, the empty thunk.
abbrev pub scratch : Thunk
scratch = thunk_of no_image no_data no_data no_scope no_dir no_mounts no_scope nothing_set

abbrev pub image_of : Thunk → ThunkImage
image_of (thunk_of image args stdin env workdir mount_list labels settings) = image

abbrev pub args_of : Thunk → Data
args_of (thunk_of image args stdin env workdir mount_list labels settings) = args

abbrev pub settings_of : Thunk → Settings
settings_of (thunk_of image args stdin env workdir mount_list labels settings) = settings

-- `WithImage`.
unfoldable pub with_image : Thunk → ThunkImage → Thunk
with_image (thunk_of (thunk_image t) args stdin env workdir mount_list labels settings) image =
    thunk_of (thunk_image (with_image t image)) args stdin env workdir mount_list labels settings
with_image (thunk_of old args stdin env workdir mount_list labels settings) image =
    thunk_of image args stdin env workdir mount_list labels settings

-- `encapsulate`.
unfoldable pub encapsulate : Thunk → Thunk
encapsulate (thunk_of image no_data stdin env workdir mount_list labels settings) =
    thunk_of image no_data stdin env workdir mount_list labels settings
encapsulate (thunk_of image (datum v vs) stdin env workdir mount_list labels settings) =
    thunk_of
      (thunk_image (thunk_of image (datum v vs) stdin env workdir mount_list labels settings))
      no_data no_data no_scope workdir no_mounts labels
      (record {
        insecure = false;
        use_entrypoint = false;
        ports = settings.ports;
        tls = none;
        entrypoint = settings.entrypoint;
        clear_entrypoint = settings.clear_entrypoint;
        default_args = settings.default_args;
        clear_default_args = settings.clear_default_args;
      })

abbrev pub update : (Settings → Settings) → Thunk → Thunk
update f (thunk_of image args stdin env workdir mount_list labels settings) =
    thunk_of image args stdin env workdir mount_list labels (f settings)

abbrev is_empty : List Text → Bool
is_empty [] = true
is_empty (s ∷ ss) = false

-- `WithEntrypoint`.
unfoldable pub with_entrypoint : Thunk → List Text → Thunk
unfolding encapsulate
with_entrypoint t entrypoint =
    update (λ s. record s { entrypoint = entrypoint; clear_entrypoint = is_empty entrypoint })
      (encapsulate t)

-- `WithDefaultArgs`.
unfoldable pub with_default_args : Thunk → List Text → Thunk
unfolding encapsulate
with_default_args t args =
    update (λ s. record s { default_args = args; clear_default_args = is_empty args })
      (encapsulate t)

-- `WithArgs`: the command stays.
unfoldable pub with_args : Thunk → Data → Thunk
with_args (thunk_of image (datum cmd old) stdin env workdir mount_list labels settings) args =
    thunk_of image (datum cmd args) stdin env workdir mount_list labels settings
with_args (thunk_of image no_data stdin env workdir mount_list labels settings) args =
    thunk_of image args stdin env workdir mount_list labels settings

-- `WithCmd`.
unfoldable pub with_cmd : Thunk → Data → Thunk
with_cmd (thunk_of image old stdin env workdir mount_list labels settings) args =
    thunk_of image args stdin env workdir mount_list labels settings

-- `WithEntrypointArgs`.
unfoldable pub with_entrypoint_args : Thunk → Data → Thunk
with_entrypoint_args (thunk_of image old stdin env workdir mount_list labels settings) args =
    thunk_of image args stdin env workdir mount_list labels
      (record settings { use_entrypoint = true })

abbrev pub append_data : Data → Data → Data
append_data no_data ws = ws
append_data (datum v vs) ws = datum v (append_data vs ws)

-- `AppendArgs`.
unfoldable pub append_args : Thunk → Data → Thunk
append_args (thunk_of image old stdin env workdir mount_list labels settings) args =
    thunk_of image (append_data old args) stdin env workdir mount_list labels settings

-- `WithEnv`.
unfoldable pub with_env : Thunk → Bindings → Thunk
unfolding overlay
with_env (thunk_of image args stdin no_scope workdir mount_list labels settings) env =
    thunk_of image args stdin (some_scope env) workdir mount_list labels settings
with_env (thunk_of image args stdin (some_scope old) workdir mount_list labels settings) env =
    thunk_of image args stdin (some_scope (overlay env old)) workdir mount_list labels settings

-- `WithStdin`.
unfoldable pub with_stdin : Thunk → Data → Thunk
with_stdin (thunk_of image args old env workdir mount_list labels settings) stdin =
    thunk_of image args stdin env workdir mount_list labels settings

-- `WithInsecure`.
unfoldable pub with_insecure : Thunk → Bool → Thunk
with_insecure t insecure = update (λ s. record s { insecure = insecure }) t

-- `WithDir`.
unfoldable pub with_dir : Thunk → ThunkDir → Thunk
with_dir (thunk_of image args stdin env old mount_list labels settings) workdir =
    thunk_of image args stdin env workdir mount_list labels settings

abbrev pub append_mount : Mounts → ThunkMountSource → FileOrDirPath → Mounts
append_mount no_mounts source target = mount source target no_mounts
append_mount (mount s t rest) source target = mount s t (append_mount rest source target)

-- `WithMount`.
unfoldable pub with_mount : Thunk → ThunkMountSource → FileOrDirPath → Thunk
with_mount (thunk_of image args stdin env workdir mount_list labels settings) source target =
    thunk_of image args stdin env workdir (append_mount mount_list source target) labels settings

-- `WithLabel`, on a copy of the labels.
unfoldable pub with_label : Thunk → Text → Datum → Thunk
unfolding set_binding
with_label (thunk_of image args stdin env workdir mount_list no_scope settings) k v =
    thunk_of image args stdin env workdir mount_list (some_scope (binding k v no_bindings)) settings
with_label (thunk_of image args stdin env workdir mount_list (some_scope labels) settings) k v =
    thunk_of image args stdin env workdir mount_list (some_scope (set_binding k v labels)) settings

-- `WithPort`.
unfoldable pub with_port : Thunk → Text → ℤ → Thunk
with_port t name port =
    update (λ s. record s { ports = s.ports ++ record { name = name; port = port } ∷ [] }) t

-- `WithTLS`.
unfoldable pub with_tls : Thunk → Text → Text → Thunk
with_tls t cert key = update (λ s. record s { tls = some (record { cert = cert; key = key }) }) t

abbrev pub ref_platform : ImageRef → Platform
ref_platform (image_ref repo platform tag digest) = platform

abbrev pub archive_platform : ImageArchive → Platform
archive_platform (image_archive input platform tag) = platform

abbrev pub build_platform : ImageDockerBuild → Platform
build_platform (image_docker_build platform context dockerfile target args) = platform

-- `Thunk.Platform` and `ThunkImage.Platform`.
unfoldable mutual
  pub thunk_platform : Thunk → Option Platform
  thunk_platform (thunk_of image args stdin env workdir mount_list labels settings) =
      image_platform image

  pub image_platform : ThunkImage → Option Platform
  image_platform no_image = none
  image_platform unset_image = none
  image_platform (ref r) = some (ref_platform r)
  image_platform (thunk_image t) = thunk_platform t
  image_platform (archive a) = some (archive_platform a)
  image_platform (docker_build b) = some (build_platform b)

-- The loop of `Addr` over the ports.
unfoldable pub has_port : Text → List ThunkPort → Bool
has_port name [] = false
has_port name (p ∷ ps) = let rest = has_port name ps in if text_eq p.name name then true else rest

abbrev format_or_default : List Text → Text
format_or_default [] = codes "$host:$port"
format_or_default (format ∷ rest) = format

-- `Addr`; `none` is the error for a port that the thunk does not have.
unfoldable pub thunk_addr_at : Thunk → Text → List Text → Option ThunkAddr
unfolding has_port
thunk_addr_at t name format =
    if has_port name (settings_of t).ports
    then some (addr_of t name (format_or_default format))
    else none
