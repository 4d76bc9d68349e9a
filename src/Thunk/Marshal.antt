-- ===== src/Thunk/Marshal.antt =====
-- `MarshalProto` of a thunk and all that it holds (pkg/bass/proto.go, thunk_types.go, thunk_addr.go,
-- annotated.go). An error loses the words that the callers put before it.
use bass.Prelude.{some, [], ◌∷◌, Result, ok, err, ◌>>=◌}
use bass.Thunk.Plain.{
  unless_empty, clarify_option, marshal_args, marshal_path, marshal_host_path, marshal_cache_path,
  marshal_platform, marshal_settings,
}
use bass.Thunk.Types.{
  Failure, not_a_marshaler, panics, Datum, null, bool, int, string, secret, list, scope, file_path,
  dir_path, command_path, host_path, cache_path, fs_path, thunk, thunk_path, thunk_addr, annotated,
  unmarked, Data, no_data, datum, Bindings, no_bindings, binding, MaybeScope, no_scope, some_scope,
  Thunk, thunk_of, ThunkPath, path_of, ThunkAddr, addr_of, ThunkImage, no_image, unset_image, ref,
  thunk_image, archive, docker_build, ImageRef, image_ref, ImageRepository, static, from_addr,
  ImageArchive, image_archive, ImageDockerBuild, image_docker_build, ImageBuildInput, unset_input,
  thunk_input, host_input, fs_input, ThunkDir, no_dir, unset_dir, local_dir, thunk_dir, host_dir,
  Mounts, no_mounts, mount, ThunkMountSource, unset_source, thunk_source, host_source, fs_source,
  cache_source, secret_source,
}
use bass.Thunk.Wire.{
  ValueMessage, null_value, bool_value, int_value, string_value, secret_value, array_value,
  object_value, thunk_value, command_path_value, file_path_value, dir_path_value, host_path_value,
  thunk_path_value, logical_path_value, thunk_addr_value, cache_path_value, ValueMessages,
  no_values, value_and, BindingMessages, no_binding_messages, binding_and, ThunkMessage,
  thunk_message, ThunkPathMessage, thunk_path_message, ThunkAddrMessage, addr_message, ImageMessage,
  no_image_message, ref_image, thunk_as_image, archive_image, docker_build_image, ImageRefMessage,
  ref_message, RefSource, no_ref_source, repository, addr, ArchiveMessage, archive_message,
  DockerBuildMessage, docker_build_message, InputMessage, unset_input_message, input_thunk,
  input_host, input_logical, DirMessage, no_dir_message, dir_local, dir_thunk, dir_host,
  MountMessages, no_mount_messages, mount_and, SourceMessage, source_thunk, source_host,
  source_logical, source_cache, source_secret,
}

unfoldable mutual
  -- `MarshalProto` of a value.
  pub marshal_value : Datum → Result Failure ValueMessage
  marshal_value null = ok null_value
  marshal_value (bool b) = ok (bool_value b)
  marshal_value (int i) = ok (int_value i)
  marshal_value (string s) = ok (string_value s)
  marshal_value (secret s) = ok (secret_value s.name)
  marshal_value (list vs) = do ms ← marshal_values vs; ok (array_value ms)
  marshal_value (scope bs) = do ms ← marshal_bindings bs; ok (object_value ms)
  marshal_value (file_path p) = ok (file_path_value p)
  marshal_value (dir_path p) = ok (dir_path_value p)
  marshal_value (command_path c) = ok (command_path_value c)
  marshal_value (host_path p) = ok (host_path_value (marshal_host_path p))
  marshal_value (cache_path p) = ok (cache_path_value (marshal_cache_path p))
  marshal_value (fs_path p) = do tree ← p; ok (logical_path_value tree)
  marshal_value (thunk t) = do m ← marshal_thunk t; ok (thunk_value m)
  marshal_value (thunk_path p) = do m ← marshal_thunk_path p; ok (thunk_path_value m)
  marshal_value (thunk_addr a) = do m ← marshal_thunk_addr a; ok (thunk_addr_value m)
  marshal_value (annotated v) = marshal_value v
  marshal_value unmarked = err not_a_marshaler

  pub marshal_values : Data → Result Failure ValueMessages
  marshal_values no_data = ok no_values
  marshal_values (datum v vs) = do m ← marshal_value v; ms ← marshal_values vs; ok (value_and m ms)

  -- The callback on the bindings of a scope.
  pub marshal_bindings : Bindings → Result Failure BindingMessages
  marshal_bindings no_bindings = ok no_binding_messages
  marshal_bindings (binding k v bs) = do
    m ← marshal_value v
    ms ← marshal_bindings bs
    ok (binding_and k m ms)

  pub marshal_scope : MaybeScope → Result Failure BindingMessages
  marshal_scope no_scope = ok no_binding_messages
  marshal_scope (some_scope bs) = marshal_bindings bs

  -- `Thunk.MarshalProto`.
  pub marshal_thunk : Thunk → Result Failure ThunkMessage
  marshal_thunk (thunk_of image args stdin env workdir mounts labels settings) = do
    image_m ← marshal_image image
    args_m ← marshal_values args
    stdin_m ← marshal_values stdin
    env_m ← marshal_scope env
    dir_m ← marshal_dir workdir
    mounts_m ← marshal_mounts mounts
    labels_m ← marshal_scope labels
    ok (
        thunk_message image_m args_m stdin_m env_m dir_m mounts_m labels_m
          (marshal_settings settings))

  -- `ThunkPath.MarshalProto`.
  pub marshal_thunk_path : ThunkPath → Result Failure ThunkPathMessage
  marshal_thunk_path (path_of t p) = do
    m ← marshal_thunk t
    ok (thunk_path_message m (marshal_path p))

  -- `ThunkAddr.MarshalProto`.
  pub marshal_thunk_addr : ThunkAddr → Result Failure ThunkAddrMessage
  marshal_thunk_addr (addr_of t port format) = do
    m ← marshal_thunk t
    ok (addr_message m port format)

  -- `ThunkImage.MarshalProto`; the error for a struct in which nothing is set names the type of its
  -- `ToValue`, which panics.
  pub marshal_image : ThunkImage → Result Failure ImageMessage
  marshal_image no_image = ok no_image_message
  marshal_image unset_image = err panics
  marshal_image (ref r) = do m ← marshal_image_ref r; ok (ref_image m)
  marshal_image (thunk_image t) = do m ← marshal_thunk t; ok (thunk_as_image m)
  marshal_image (archive a) = do m ← marshal_archive a; ok (archive_image m)
  marshal_image (docker_build b) = do m ← marshal_docker_build b; ok (docker_build_image m)

  -- `ImageRef.MarshalProto`.
  pub marshal_image_ref : ImageRef → Result Failure ImageRefMessage
  marshal_image_ref (image_ref repo platform tag digest) = do
    source ← marshal_repository repo
    ok (
        ref_message (some (marshal_platform platform)) source (unless_empty tag)
          (unless_empty digest))

  pub marshal_repository : ImageRepository → Result Failure RefSource
  marshal_repository (static []) = ok no_ref_source
  marshal_repository (static (c ∷ s)) = ok (repository (c ∷ s))
  marshal_repository (from_addr a) = do m ← marshal_thunk_addr a; ok (addr m)

  -- `ImageArchive.MarshalProto`.
  pub marshal_archive : ImageArchive → Result Failure ArchiveMessage
  marshal_archive (image_archive input platform tag) = do
    m ← marshal_input input
    ok (archive_message (some (marshal_platform platform)) m (unless_empty tag))

  -- `ImageDockerBuild.MarshalProto`.
  pub marshal_docker_build : ImageDockerBuild → Result Failure DockerBuildMessage
  marshal_docker_build (image_docker_build platform context dockerfile target args) = do
    m ← marshal_input context
    args_m ← marshal_args args
    ok (
        docker_build_message (some (marshal_platform platform)) m (clarify_option dockerfile)
          (unless_empty target) args_m)

  -- `ImageBuildInput.MarshalProto`.
  pub marshal_input : ImageBuildInput → Result Failure InputMessage
  marshal_input unset_input = ok unset_input_message
  marshal_input (thunk_input p) = do m ← marshal_thunk_path p; ok (input_thunk m)
  marshal_input (host_input p) = ok (input_host (marshal_host_path p))
  marshal_input (fs_input p) = do tree ← p; ok (input_logical tree)

  -- `ThunkDir.MarshalProto`.
  pub marshal_dir : ThunkDir → Result Failure DirMessage
  marshal_dir no_dir = ok no_dir_message
  marshal_dir unset_dir = err panics
  marshal_dir (local_dir p) = ok (dir_local p)
  marshal_dir (thunk_dir p) = do m ← marshal_thunk_path p; ok (dir_thunk m)
  marshal_dir (host_dir p) = ok (dir_host (marshal_host_path p))

  -- `ThunkMount.MarshalProto` of each mount.
  pub marshal_mounts : Mounts → Result Failure MountMessages
  marshal_mounts no_mounts = ok no_mount_messages
  marshal_mounts (mount source target rest) = do
    m ← marshal_source source
    ms ← marshal_mounts rest
    ok (mount_and m (marshal_path target) ms)

  -- `ThunkMountSource.MarshalProto`.
  pub marshal_source : ThunkMountSource → Result Failure SourceMessage
  marshal_source unset_source = err panics
  marshal_source (thunk_source p) = do m ← marshal_thunk_path p; ok (source_thunk m)
  marshal_source (host_source p) = ok (source_host (marshal_host_path p))
  marshal_source (fs_source p) = do tree ← p; ok (source_logical tree)
  marshal_source (cache_source p) = ok (source_cache (marshal_cache_path p))
  marshal_source (secret_source s) = ok (source_secret s.name)
