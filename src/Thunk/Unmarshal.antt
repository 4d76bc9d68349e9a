-- ===== src/Thunk/Unmarshal.antt =====
-- `FromProto` of pkg/bass/proto.go and `UnmarshalProto` of a thunk and all that it holds
-- (pkg/bass/thunk.go, thunk_types.go, thunk_path.go, thunk_addr.go). An error loses the words that the
-- callers put before it.
use bass.Prelude.{Text, Option, none, [], Result, ok, err, ◌>>=◌}
use bass.Thunk.Bindings.{set_binding}
use bass.Thunk.Types.{
  Failure, unknown_type, wrong_message, panics, LogicalPath, FsPath, Datum, null, bool, int, string,
  secret, list, scope, file_path, dir_path, command_path, host_path, cache_path, fs_path, thunk,
  thunk_path, thunk_addr, Data, no_data, datum, Bindings, no_bindings, binding, MaybeScope,
  no_scope, some_scope, Thunk, thunk_of, ThunkPath, path_of, ThunkAddr, addr_of, ThunkImage,
  no_image, unset_image, ref, thunk_image, archive, docker_build, image_ref, static, from_addr,
  ImageArchive, image_archive, ImageDockerBuild, image_docker_build, ImageBuildInput, unset_input,
  thunk_input, host_input, fs_input, ThunkDir, no_dir, local_dir, thunk_dir, host_dir, Mounts,
  no_mounts, mount, ThunkMountSource, thunk_source, host_source, fs_source, cache_source,
  secret_source,
}
use bass.Thunk.Wire.{
  PlatformMessage, ValueMessage, unset_value, null_value, bool_value, int_value, string_value,
  secret_value, array_value, object_value, thunk_value, command_path_value, file_path_value,
  dir_path_value, host_path_value, thunk_path_value, logical_path_value, thunk_addr_value,
  cache_path_value, ValueMessages, no_values, value_and, BindingMessages, no_binding_messages,
  binding_and, ThunkMessage, no_thunk_message, thunk_message, ThunkPathMessage,
  no_thunk_path_message, thunk_path_message, ThunkAddrMessage, no_addr_message, addr_message,
  ImageMessage, no_image_message, unset_image_message, ref_image, thunk_as_image, archive_image,
  docker_build_image, ref_message, RefSource, no_ref_source, repository, file, addr, ArchiveMessage,
  archive_message, DockerBuildMessage, docker_build_message, InputMessage, unset_input_message,
  input_thunk, input_host, input_logical, DirMessage, no_dir_message, unset_dir_message, dir_local,
  dir_thunk, dir_host, MountMessages, no_mount_messages, mount_and, SourceMessage,
  unset_source_message, source_thunk, source_host, source_logical, source_cache, source_secret,
}
use bass.Thunk.Plain.{
  or_empty, unmarshal_path, unmarshal_host_path, unmarshal_cache_path, fod, unmarshal_platform,
  unmarshal_settings, set_build_args, unmarshal_dockerfile,
}

-- `load` is `FSPath.UnmarshalProto`, which loads a tree into an in-memory file system of a library.
module _ (load : LogicalPath → Result Failure FsPath) where
  unfoldable mutual
    -- `FromProto`.
    pub unmarshal_value : ValueMessage → Result Failure Datum
    unmarshal_value unset_value = err unknown_type
    unmarshal_value null_value = ok null
    unmarshal_value (bool_value b) = ok (bool b)
    unmarshal_value (int_value i) = ok (int i)
    unmarshal_value (string_value s) = ok (string s)
    unmarshal_value (secret_value s) = ok (secret (record { name = s; inner = none }))
    unmarshal_value (array_value ms) = do vs ← unmarshal_values ms; ok (list vs)
    unmarshal_value (object_value ms) = do bs ← unmarshal_bindings ms no_bindings; ok (scope bs)
    unmarshal_value (thunk_value m) = do t ← unmarshal_thunk m; ok (thunk t)
    unmarshal_value (command_path_value c) = ok (command_path c)
    unmarshal_value (file_path_value p) = ok (file_path p)
    unmarshal_value (dir_path_value p) = ok (dir_path p)
    unmarshal_value (host_path_value m) =
        ok (host_path (record { context_dir = m.context; path = fod m.path }))
    unmarshal_value (thunk_path_value m) = do p ← unmarshal_thunk_path m; ok (thunk_path p)
    unmarshal_value (logical_path_value tree) = do p ← load tree; ok (fs_path p)
    unmarshal_value (thunk_addr_value m) = do a ← unmarshal_thunk_addr m; ok (thunk_addr a)
    unmarshal_value (cache_path_value m) =
        ok (cache_path (record { id = m.id; concurrency_mode = m.concurrency; path = fod m.path }))

    pub unmarshal_values : ValueMessages → Result Failure Data
    unmarshal_values no_values = ok no_data
    unmarshal_values (value_and m ms) = do
      v ← unmarshal_value m
      vs ← unmarshal_values ms
      ok (datum v vs)

    -- The loop that sets the bindings in the scope that it is given.
    pub unmarshal_bindings : BindingMessages → Bindings → Result Failure Bindings
    unmarshal_bindings no_binding_messages bs = ok bs
    unmarshal_bindings (binding_and k m ms) bs = do
      v ← unmarshal_value m
      unmarshal_bindings ms (set_binding k v bs)

    -- A scope is made only for bindings.
    pub unmarshal_scope : BindingMessages → Result Failure MaybeScope
    unmarshal_scope no_binding_messages = ok no_scope
    unmarshal_scope (binding_and k m ms) = do
      v ← unmarshal_value m
      bs ← unmarshal_bindings ms (binding k v no_bindings)
      ok (some_scope bs)

    -- `Thunk.UnmarshalProto`.
    pub unmarshal_thunk : ThunkMessage → Result Failure Thunk
    unmarshal_thunk no_thunk_message = err panics
    unmarshal_thunk (thunk_message image_m args_m stdin_m env_m dir_m mounts_m labels_m m) = do
      image ← unmarshal_image image_m
      args ← unmarshal_values args_m
      stdin ← unmarshal_values stdin_m
      env ← unmarshal_scope env_m
      workdir ← unmarshal_dir dir_m
      mounts ← unmarshal_mounts mounts_m
      labels ← unmarshal_scope labels_m
      settings ← unmarshal_settings m
      ok (thunk_of image args stdin env workdir mounts labels settings)

    -- `ThunkPath.UnmarshalProto`.
    pub unmarshal_thunk_path : ThunkPathMessage → Result Failure ThunkPath
    unmarshal_thunk_path no_thunk_path_message = err panics
    unmarshal_thunk_path (thunk_path_message m path_m) = do
      t ← unmarshal_thunk m
      p ← unmarshal_path path_m
      ok (path_of t p)

    -- `ThunkAddr.UnmarshalProto`.
    pub unmarshal_thunk_addr : ThunkAddrMessage → Result Failure ThunkAddr
    unmarshal_thunk_addr no_addr_message = err panics
    unmarshal_thunk_addr (addr_message m port format) = do
      t ← unmarshal_thunk m
      ok (addr_of t port format)

    -- `ThunkImage.UnmarshalProto`. For a deprecated file it gives `ImageBuildInput.UnmarshalProto` the
    -- message of a thunk path, which is none of a build input.
    pub unmarshal_image : ImageMessage → Result Failure ThunkImage
    unmarshal_image no_image_message = ok no_image
    unmarshal_image unset_image_message = ok unset_image
    unmarshal_image (ref_image (ref_message platform_m source tag digest)) =
        unmarshal_ref_image platform_m source tag digest
    unmarshal_image (thunk_as_image m) = do t ← unmarshal_thunk m; ok (thunk_image t)
    unmarshal_image (archive_image m) = do a ← unmarshal_archive m; ok (archive a)
    unmarshal_image (docker_build_image m) = do b ← unmarshal_docker_build m; ok (docker_build b)

    pub unmarshal_ref_image :
        Option PlatformMessage → RefSource → Option Text → Option Text → Result Failure ThunkImage
    unmarshal_ref_image platform_m (file m) tag digest = err wrong_message
    unmarshal_ref_image platform_m no_ref_source tag digest = do
      platform ← unmarshal_platform platform_m
      ok (ref (image_ref (static []) platform (or_empty tag) (or_empty digest)))
    unmarshal_ref_image platform_m (repository s) tag digest = do
      platform ← unmarshal_platform platform_m
      ok (ref (image_ref (static s) platform (or_empty tag) (or_empty digest)))
    unmarshal_ref_image platform_m (addr m) tag digest = do
      a ← unmarshal_thunk_addr m
      platform ← unmarshal_platform platform_m
      ok (ref (image_ref (from_addr a) platform (or_empty tag) (or_empty digest)))

    -- `ImageArchive.UnmarshalProto`.
    pub unmarshal_archive : ArchiveMessage → Result Failure ImageArchive
    unmarshal_archive (archive_message platform_m input_m tag) = do
      input ← unmarshal_input input_m
      platform ← unmarshal_platform platform_m
      ok (image_archive input platform (or_empty tag))

    -- `ImageDockerBuild.UnmarshalProto`.
    pub unmarshal_docker_build : DockerBuildMessage → Result Failure ImageDockerBuild
    unmarshal_docker_build (docker_build_message platform_m context_m dockerfile target args) = do
      platform ← unmarshal_platform platform_m
      context ← unmarshal_input context_m
      ok (
          image_docker_build platform context (unmarshal_dockerfile dockerfile) (or_empty target)
            (some_scope (set_build_args args no_bindings)))

    -- `ImageBuildInput.UnmarshalProto`.
    pub unmarshal_input : InputMessage → Result Failure ImageBuildInput
    unmarshal_input unset_input_message = ok unset_input
    unmarshal_input (input_thunk m) = do p ← unmarshal_thunk_path m; ok (thunk_input p)
    unmarshal_input (input_host m) = do p ← unmarshal_host_path m; ok (host_input p)
    unmarshal_input (input_logical tree) = do p ← load tree; ok (fs_input p)

    -- `ThunkDir.UnmarshalProto`.
    pub unmarshal_dir : DirMessage → Result Failure ThunkDir
    unmarshal_dir no_dir_message = ok no_dir
    unmarshal_dir unset_dir_message = err unknown_type
    unmarshal_dir (dir_local p) = ok (local_dir p)
    unmarshal_dir (dir_thunk m) = do p ← unmarshal_thunk_path m; ok (thunk_dir p)
    unmarshal_dir (dir_host m) = do p ← unmarshal_host_path m; ok (host_dir p)

    -- `ThunkMount.UnmarshalProto` of each mount.
    pub unmarshal_mounts : MountMessages → Result Failure Mounts
    unmarshal_mounts no_mount_messages = ok no_mounts
    unmarshal_mounts (mount_and source_m target_m ms) = do
      source ← unmarshal_source source_m
      target ← unmarshal_path target_m
      rest ← unmarshal_mounts ms
      ok (mount source target rest)

    -- `ThunkMountSource.UnmarshalProto`.
    pub unmarshal_source : SourceMessage → Result Failure ThunkMountSource
    unmarshal_source unset_source_message = err unknown_type
    unmarshal_source (source_thunk m) = do p ← unmarshal_thunk_path m; ok (thunk_source p)
    unmarshal_source (source_host m) = do p ← unmarshal_host_path m; ok (host_source p)
    unmarshal_source (source_logical tree) = do p ← load tree; ok (fs_source p)
    unmarshal_source (source_cache m) = do p ← unmarshal_cache_path m; ok (cache_source p)
    unmarshal_source (source_secret s) = ok (secret_source (record { name = s; inner = none }))
