-- ===== src/Thunk/Images.antt =====
-- The images of thunks as values, and from values: `ToValue` and `FromValue` of pkg/bass/thunk_types.go.
use bass.Prelude.{
  Text, codes, Bool, true, false, Option, none, some, List, [], Result, ok, err, ◌>>=◌,
  if◌then◌else◌,
}
use bass.Thunk.Types.{
  Platform, Datum, scope, file_path, thunk, annotated, Bindings, no_bindings, binding, MaybeScope,
  no_scope, some_scope, ThunkImage, no_image, unset_image, ref, thunk_image, archive, docker_build,
  image_ref, image_archive, image_docker_build,
}
use bass.Thunk.Bindings.{append}
use bass.Thunk.Convert.{
  Undecoded, bare, decode_error, decode_text, text_field, optional, required, decode_file_path,
  decode_scope_field, platform_value, decode_platform, platform_of, repository_value, repository_of,
  input_value, input_of,
}

abbrev pub zero_platform : Platform
zero_platform = record {
  architecture = [];
  os = [];
  os_version = [];
  os_features = [];
  variant = [];
}

-- A field of a struct, which is optional if it is the zero value.
abbrev pub are_empty : Text → Text → Text → List Text → Text → Bool
are_empty [] [] [] [] [] = true
are_empty _ _ _ _ _ = false

-- `IsZero`.
abbrev pub is_zero : Platform → Bool
is_zero p = are_empty p.architecture p.os p.os_version p.os_features p.variant

abbrev pub platform_field : Platform → Bindings
platform_field p =
    if is_zero p
    then no_bindings
    else binding (codes "platform") (scope (platform_value p)) no_bindings

abbrev pub dockerfile_field : Option Text → Bindings
dockerfile_field none = no_bindings
dockerfile_field (some p) = binding (codes "dockerfile") (file_path p) no_bindings

abbrev pub args_field : MaybeScope → Bindings
args_field no_scope = no_bindings
args_field (some_scope bs) = binding (codes "args") (scope bs) no_bindings

abbrev pub to_scope : Option Datum → (Datum → Bindings) → Option Datum
to_scope none fields = none
to_scope (some v) fields = some (scope (fields v))

-- The bindings of the structs, with the value of the repository or the input.
abbrev pub ref_bindings : Platform → Text → Text → Datum → Bindings
ref_bindings platform tag digest v = binding (codes "repository") v (
    append (platform_field platform)
      (append (text_field (codes "tag") tag) (text_field (codes "digest") digest)))

abbrev pub archive_bindings : Platform → Text → Datum → Bindings
archive_bindings platform tag v =
    binding (codes "file") v
      (binding (codes "platform") (scope (platform_value platform)) (text_field (codes "tag") tag))

abbrev pub docker_build_bindings : Platform → Option Text → Text → MaybeScope → Datum → Bindings
docker_build_bindings platform dockerfile target args v =
    binding (codes "platform") (scope (platform_value platform)) (
      binding (codes "docker_build") v (
        append (dockerfile_field dockerfile)
          (append (text_field (codes "target") target) (args_field args))))

-- `ThunkImage.ToValue`; `none` is the panic.
unfoldable pub image_value : ThunkImage → Option Datum
unfolding platform_value
image_value no_image = none
image_value unset_image = none
image_value (ref (image_ref repository platform tag digest)) =
    to_scope (repository_value repository) (ref_bindings platform tag digest)
image_value (thunk_image t) = some (thunk t)
image_value (archive (image_archive input platform tag)) =
    to_scope (input_value input) (archive_bindings platform tag)
image_value (docker_build (image_docker_build platform context dockerfile target args)) =
    to_scope (input_value context) (docker_build_bindings platform dockerfile target args)

module _ (goarch : Text) where
  -- The structs from the bindings of a scope.
  unfoldable pub ref_of : Bindings → Result Undecoded ThunkImage
  unfolding optional required decode_platform
  ref_of bs = do
    repository ← required (λ v. repository_of (bare v)) (codes "repository") bs
    platform ← optional zero_platform (λ v. platform_of goarch (bare v)) (codes "platform") bs
    tag ← optional [] decode_text (codes "tag") bs
    digest ← optional [] decode_text (codes "digest") bs
    ok (ref (image_ref repository platform tag digest))

  unfoldable pub archive_of : Bindings → Result Undecoded ThunkImage
  unfolding optional required decode_platform
  archive_of bs = do
    input ← required (λ v. input_of (bare v)) (codes "file") bs
    platform ← required (λ v. platform_of goarch (bare v)) (codes "platform") bs
    tag ← optional [] decode_text (codes "tag") bs
    ok (archive (image_archive input platform tag))

  unfoldable pub docker_build_of : Bindings → Result Undecoded ThunkImage
  unfolding optional required decode_platform
  docker_build_of bs = do
    platform ← required (λ v. platform_of goarch (bare v)) (codes "platform") bs
    context ← required (λ v. input_of (bare v)) (codes "docker_build") bs
    dockerfile ← optional none (λ v. decode_file_path (bare v)) (codes "dockerfile") bs
    target ← optional [] decode_text (codes "target") bs
    args ← optional no_scope (λ v. decode_scope_field (bare v)) (codes "args") bs
    ok (docker_build (image_docker_build platform context dockerfile target args))

  abbrev pub or_try :
      Result Undecoded ThunkImage → Result Undecoded ThunkImage → Result Undecoded ThunkImage
  or_try (ok i) r = ok i
  or_try (err e) r = r

  -- `ThunkImage.FromValue`.
  unfoldable pub image_of_value : Datum → Result Undecoded ThunkImage
  unfolding ref_of archive_of docker_build_of
  image_of_value (scope bs) = or_try (ref_of bs) (or_try (archive_of bs) (docker_build_of bs))
  image_of_value (thunk t) = ok (thunk_image t)
  image_of_value (annotated v) = image_of_value v
  image_of_value _ = err decode_error
