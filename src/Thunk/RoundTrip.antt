-- ===== src/Thunk/RoundTrip.antt =====
-- Thunks come back from their messages.
use bass.Prelude.{some, [], ◌∷◌, ◌≡◌, refl, ap, sym, Result, ok, err, ◌>>=◌}
use bass.Prelude.Words.{to_int32_of_Fits}
use bass.Thunk.Bindings.{
  keys, append, AllNew, set_binding_new, append_assoc_binding, append_nothing, AllNew-snoc,
}
use bass.Thunk.Types.{
  Failure, LogicalPath, FsPath, Datum, null, bool, int, string, secret, list, scope, file_path,
  dir_path, command_path, host_path, cache_path, fs_path, thunk, thunk_path, thunk_addr, annotated,
  unmarked, Data, no_data, datum, Bindings, no_bindings, binding, MaybeScope, no_scope, some_scope,
  Thunk, thunk_of, ThunkPath, path_of, ThunkAddr, addr_of, ThunkImage, no_image, unset_image, ref,
  thunk_image, archive, docker_build, image_ref, static, from_addr, image_archive,
  image_docker_build, ImageBuildInput, unset_input, thunk_input, host_input, fs_input, ThunkDir,
  no_dir, unset_dir, local_dir, thunk_dir, host_dir, Mounts, no_mounts, mount, ThunkMountSource,
  unset_source, thunk_source, host_source, fs_source, cache_source, secret_source,
}
use bass.Thunk.Wire.{
  null_value, bool_value, int_value, string_value, secret_value, array_value, object_value,
  thunk_value, command_path_value, file_path_value, dir_path_value, host_path_value,
  thunk_path_value, logical_path_value, thunk_addr_value, cache_path_value, no_values, value_and,
  BindingMessages, no_binding_messages, binding_and, thunk_message, thunk_path_message,
  addr_message, no_image_message, ref_image, thunk_as_image, archive_image, docker_build_image,
  ref_message, no_ref_source, repository, addr, archive_message, docker_build_message,
  unset_input_message, input_thunk, input_host, input_logical, no_dir_message, dir_local, dir_thunk,
  dir_host, no_mount_messages, mount_and, source_thunk, source_host, source_logical, source_cache,
  source_secret,
}
use bass.Thunk.Plain.{
  marshal_path, marshal_host_path, marshal_cache_path, marshal_platform, unless_empty,
  clarify_option, marshal_settings,
}
use bass.Thunk.Portable.{
  IsPortableValue, ArePortable, AreBound, IsPortableScope, IsPortable, IsPortablePath,
  IsPortableAddr, IsPortableImage, IsPortableInput, IsPortableDir, ArePortableMounts,
  IsPortableSource,
}
use bass.Thunk.PlainRoundTrip.{
  unmarshal_path-marshal_path, unmarshal_host_path-marshal_host_path,
  unmarshal_cache_path-marshal_cache_path, fod-marshal_path, unmarshal_platform-marshal_platform,
  or_empty-unless_empty, unmarshal_settings-marshal_settings, set_build_args-marshal_args,
  dockerfile_back,
}
use bass.Thunk.Marshal.{
  marshal_value, marshal_values, marshal_bindings, marshal_scope, marshal_thunk, marshal_thunk_path,
  marshal_thunk_addr, marshal_image, marshal_input, marshal_dir, marshal_mounts, marshal_source,
}
use bass.Thunk.Unmarshal.{
  unmarshal_value, unmarshal_values, unmarshal_bindings, unmarshal_scope, unmarshal_thunk,
  unmarshal_thunk_path, unmarshal_thunk_addr, unmarshal_image, unmarshal_input, unmarshal_dir,
  unmarshal_mounts, unmarshal_source,
}

-- A part goes into a message and comes back from it.
abbrev Returns : {M A : Type 0} → Result Failure M → (M → Result Failure A) → A → Type 0
Returns {M} {A} sent receive x = (m : M) × (sent ≡ ok m) × (receive m ≡ ok x)

module _ (load : LogicalPath → Result Failure FsPath) where
  mutual
    unfolding marshal_value unmarshal_value marshal_host_path marshal_cache_path

    value_back :
        (v : Datum) → IsPortableValue load v → Returns (marshal_value v) (unmarshal_value load) v
    value_back null h = (null_value, refl, refl)
    value_back (bool b) h = (bool_value b, refl, refl)
    value_back (int i) h = (int_value i, refl, refl)
    value_back (string s) h = (string_value s, refl, refl)
    value_back (secret s) h = (secret_value s.name, refl, cc)
    value_back (list vs) h = let (m, e, f) = values_back vs h in (array_value m, simp e, simp f)
    value_back (scope bs) h =
        let (m, e, f) = bindings_back no_bindings bs h.0 h.1 in (object_value m, simp e, simp f)
    value_back (file_path p) h = (file_path_value p, refl, refl)
    value_back (dir_path p) h = (dir_path_value p, refl, refl)
    value_back (command_path c) h = (command_path_value c, refl, refl)
    value_back (host_path p) h =
        (host_path_value (marshal_host_path p), refl, simp (fod-marshal_path p.path h))
    value_back (cache_path p) h = (
      cache_path_value (marshal_cache_path p),
      refl,
      simp (fod-marshal_path p.path h.1, to_int32_of_Fits p.concurrency_mode h.0),
    )
    value_back (fs_path (ok tree)) h = (logical_path_value tree, refl, simp h)
    value_back (fs_path (err e)) h = elim h [ ]
    value_back (thunk t) h = let (m, e, f) = thunk_back t h in (thunk_value m, simp e, simp f)
    value_back (thunk_path p) h =
        let (m, e, f) = thunk_path_back p h in (thunk_path_value m, simp e, simp f)
    value_back (thunk_addr a) h =
        let (m, e, f) = thunk_addr_back a h in (thunk_addr_value m, simp e, simp f)
    value_back (annotated v) h = elim h [ ]
    value_back unmarked h = elim h [ ]

    values_back :
        (vs : Data) → ArePortable load vs → Returns (marshal_values vs) (unmarshal_values load) vs
    values_back no_data h = (no_values, refl, refl)
    values_back (datum v vs) h =
        let (m, e, f) = value_back v h.0 in
        let (ms, es, fs) = values_back vs h.1 in (value_and m ms, simp (e, es), simp (f, fs))

    bindings_back :
        (acc bs : Bindings)
        → AreBound load bs
        → AllNew (keys acc) bs
        → (m : BindingMessages) × (marshal_bindings bs ≡ ok m)
          × (unmarshal_bindings load m acc ≡ ok (append acc bs))
    bindings_back acc no_bindings h n =
        (no_binding_messages, refl, ap ok (sym (append_nothing acc)))
    bindings_back acc (binding k v bs) h n =
        let (m, e, f) = value_back v h.0 in
        let (ms, es, fs) =
          bindings_back (append acc (binding k v no_bindings)) bs h.1
            (AllNew-snoc acc k v bs n.1) in
        (
          binding_and k m ms,
          simp (e, es),
          simp (f, set_binding_new k v acc n.0, fs, append_assoc_binding acc k v bs),
        )

    scope_back :
        (s : MaybeScope)
        → IsPortableScope load s
        → Returns (marshal_scope s) (unmarshal_scope load) s
    scope_back no_scope h = (no_binding_messages, refl, refl)
    scope_back (some_scope no_bindings) h = elim h [ ]
    scope_back (some_scope (binding k v bs)) h =
        let (m, e, f) = value_back v h.0 in
        let (ms, es, fs) = bindings_back (binding k v no_bindings) bs h.1 h.2 in
        (binding_and k m ms, simp (e, es), simp (f, fs))

    thunk_back :
        (t : Thunk) → IsPortable load t → Returns (marshal_thunk t) (unmarshal_thunk load) t
    thunk_back (thunk_of image args stdin env workdir mounts labels settings) h =
        let (a, ea, fa) = image_back image h.0 in
        let (b, eb, fb) = values_back args h.1 in
        let (c, ec, fc) = values_back stdin h.2 in
        let (d, ed, fd) = scope_back env h.3 in
        let (g, eg, fg) = dir_back workdir h.4 in
        let (i, ei, fi) = mounts_back mounts h.5 in
        let (j, ej, fj) = scope_back labels h.6 in
        (
          thunk_message a b c d g i j (marshal_settings settings),
          simp (ea, eb, ec, ed, eg, ei, ej),
          simp (fa, fb, fc, fd, fg, fi, fj, unmarshal_settings-marshal_settings settings h.7),
        )

    thunk_path_back :
        (p : ThunkPath)
        → IsPortablePath load p
        → Returns (marshal_thunk_path p) (unmarshal_thunk_path load) p
    thunk_path_back (path_of t p) h =
        let (m, e, f) = thunk_back t h in
        (thunk_path_message m (marshal_path p), simp e, simp (f, unmarshal_path-marshal_path p))

    thunk_addr_back :
        (a : ThunkAddr)
        → IsPortableAddr load a
        → Returns (marshal_thunk_addr a) (unmarshal_thunk_addr load) a
    thunk_addr_back (addr_of t port format) h =
        let (m, e, f) = thunk_back t h in (addr_message m port format, simp e, simp f)

    image_back :
        (i : ThunkImage)
        → IsPortableImage load i
        → Returns (marshal_image i) (unmarshal_image load) i
    image_back no_image h = (no_image_message, refl, refl)
    image_back unset_image h = elim h [ ]
    image_back (ref (image_ref (static []) platform tag digest)) h = (
      ref_image (
          ref_message (some (marshal_platform platform)) no_ref_source (unless_empty tag)
            (unless_empty digest)),
      refl,
      simp (
        unmarshal_platform-marshal_platform platform h.1,
        or_empty-unless_empty tag,
        or_empty-unless_empty digest,
      ),
    )
    image_back (ref (image_ref (static (c ∷ s)) platform tag digest)) h = (
      ref_image (
          ref_message (some (marshal_platform platform)) (repository (c ∷ s)) (unless_empty tag)
            (unless_empty digest)),
      refl,
      simp (
        unmarshal_platform-marshal_platform platform h.1,
        or_empty-unless_empty tag,
        or_empty-unless_empty digest,
      ),
    )
    image_back (ref (image_ref (from_addr a) platform tag digest)) h =
        let (m, e, f) = thunk_addr_back a h.0 in
        (
          ref_image (
              ref_message (some (marshal_platform platform)) (addr m) (unless_empty tag)
                (unless_empty digest)),
          simp e,
          simp (
            f,
            unmarshal_platform-marshal_platform platform h.1,
            or_empty-unless_empty tag,
            or_empty-unless_empty digest,
          ),
        )
    image_back (thunk_image t) h =
        let (m, e, f) = thunk_back t h in (thunk_as_image m, simp e, simp f)
    image_back (archive (image_archive input platform tag)) h =
        let (m, e, f) = input_back input h.0 in
        (
          archive_image (archive_message (some (marshal_platform platform)) m (unless_empty tag)),
          simp e,
          simp (f, unmarshal_platform-marshal_platform platform h.1, or_empty-unless_empty tag),
        )
    image_back (docker_build (image_docker_build platform context dockerfile target args)) h =
        let (m, e, f) = input_back context h.1 in
        let (as_m, es, fs) = set_build_args-marshal_args args h.3 in
        (
          docker_build_image (
              docker_build_message (some (marshal_platform platform)) m (clarify_option dockerfile)
                (unless_empty target) as_m),
          simp (e, es),
          simp (
            unmarshal_platform-marshal_platform platform h.0,
            f,
            dockerfile_back dockerfile h.2,
            or_empty-unless_empty target,
            fs,
          ),
        )

    input_back :
        (i : ImageBuildInput)
        → IsPortableInput load i
        → Returns (marshal_input i) (unmarshal_input load) i
    input_back unset_input h = (unset_input_message, refl, refl)
    input_back (thunk_input p) h =
        let (m, e, f) = thunk_path_back p h in (input_thunk m, simp e, simp f)
    input_back (host_input p) h =
        (input_host (marshal_host_path p), refl, simp (unmarshal_host_path-marshal_host_path p))
    input_back (fs_input (ok tree)) h = (input_logical tree, refl, simp h)
    input_back (fs_input (err e)) h = elim h [ ]

    dir_back :
        (d : ThunkDir) → IsPortableDir load d → Returns (marshal_dir d) (unmarshal_dir load) d
    dir_back no_dir h = (no_dir_message, refl, refl)
    dir_back unset_dir h = elim h [ ]
    dir_back (local_dir p) h = (dir_local p, refl, refl)
    dir_back (thunk_dir p) h = let (m, e, f) = thunk_path_back p h in (dir_thunk m, simp e, simp f)
    dir_back (host_dir p) h =
        (dir_host (marshal_host_path p), refl, simp (unmarshal_host_path-marshal_host_path p))

    mounts_back :
        (ms : Mounts)
        → ArePortableMounts load ms
        → Returns (marshal_mounts ms) (unmarshal_mounts load) ms
    mounts_back no_mounts h = (no_mount_messages, refl, refl)
    mounts_back (mount source target rest) h =
        let (m, e, f) = source_back source h.0 in
        let (ms, es, fs) = mounts_back rest h.1 in
        (
          mount_and m (marshal_path target) ms,
          simp (e, es),
          simp (f, unmarshal_path-marshal_path target, fs),
        )

    source_back :
        (s : ThunkMountSource)
        → IsPortableSource load s
        → Returns (marshal_source s) (unmarshal_source load) s
    source_back unset_source h = elim h [ ]
    source_back (thunk_source p) h =
        let (m, e, f) = thunk_path_back p h in (source_thunk m, simp e, simp f)
    source_back (host_source p) h =
        (source_host (marshal_host_path p), refl, simp (unmarshal_host_path-marshal_host_path p))
    source_back (fs_source (ok tree)) h = (source_logical tree, refl, simp h)
    source_back (fs_source (err e)) h = elim h [ ]
    source_back (cache_source p) h = (
      source_cache (marshal_cache_path p),
      refl,
      simp (unmarshal_cache_path-marshal_cache_path p h),
    )
    source_back (secret_source s) h = (source_secret s.name, refl, cc)

  -- A thunk comes back whole from its message, and neither step fails, if it is portable, with all
  -- that it holds: there is no secret's bytes, no annotation and no function; no empty scope for the
  -- environment or the labels, and no symbol that a scope binds twice; no image, directory or mount
  -- source that is there but unset; no platform with more than an operating system and an architecture;
  -- no port and no concurrency mode beyond 32 bits; no host or cache path with globs among the values;
  -- no Docker build whose path of a Dockerfile is not clean, which has no scope of arguments, or an
  -- argument that is no string; and the tree of every path into a file system can be read and loads into
  -- the same path.
  pub unmarshal_thunk-marshal_thunk :
      (t : Thunk) → IsPortable load t → (marshal_thunk t >>= unmarshal_thunk load) ≡ ok t
  unmarshal_thunk-marshal_thunk t h = let (m, e, f) = thunk_back t h in simp (e, f)
