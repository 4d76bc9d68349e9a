-- ===== src/Thunk/Portable.antt =====
-- The thunks that a message can carry: what is lost in a message, or refused, is not there.
use bass.Prelude.{◌^◌, Text, Option, none, some, List, [], ◌∷◌, ◌≡◌, Result, ok, err}
use bass.Prelude.Words.{Fits}
use bass.Path.Clean.{clean}
use bass.Proto.HostPaths.{HasNoGlobs}
use bass.Thunk.Bindings.{AllNew}
use bass.Thunk.Types.{
  Failure, LogicalPath, FsPath, CachePath, Secret, Platform, ThunkPort, Datum, null, bool, int,
  string, secret, list, scope, file_path, dir_path, command_path, host_path, cache_path, fs_path,
  thunk, thunk_path, thunk_addr, annotated, unmarked, Data, no_data, datum, Bindings, no_bindings,
  binding, MaybeScope, no_scope, some_scope, Thunk, thunk_of, ThunkPath, path_of, ThunkAddr,
  addr_of, ThunkImage, no_image, unset_image, ref, thunk_image, archive, docker_build, ImageRef,
  image_ref, ImageRepository, static, from_addr, ImageArchive, image_archive, ImageDockerBuild,
  image_docker_build, ImageBuildInput, unset_input, thunk_input, host_input, fs_input, ThunkDir,
  no_dir, unset_dir, local_dir, thunk_dir, host_dir, Mounts, no_mounts, mount, ThunkMountSource,
  unset_source, thunk_source, host_source, fs_source, cache_source, secret_source,
}

-- Of a platform, the operating system and the architecture are sent.
abbrev pub IsPortablePlatform : Platform → Type 0
IsPortablePlatform p = (p.os_version ≡ []) × (p.os_features ≡ []) × (p.variant ≡ [])

abbrev pub IsPortableSecret : Secret → Type 0
IsPortableSecret s = s.inner ≡ none

abbrev pub IsPortableCachePath : CachePath → Type 0
IsPortableCachePath p = Fits (2 ^ 31) p.concurrency_mode

abbrev pub PortsFit : List ThunkPort → Type 0
PortsFit [] = Unit
PortsFit (p ∷ ps) = Fits (2 ^ 31) p.port × PortsFit ps

abbrev pub IsCleanFile : Option Text → Type 0
IsCleanFile none = Unit
IsCleanFile (some p) = clean p ≡ p

abbrev pub AllStrings : Bindings → Type 0
AllStrings no_bindings = Unit
AllStrings (binding k (string s) bs) = AllStrings bs
AllStrings (binding k v bs) = ⊥

-- A build has arguments, if none.
abbrev pub ArePortableArgs : MaybeScope → Type 0
ArePortableArgs no_scope = ⊥
ArePortableArgs (some_scope bs) = AllStrings bs × AllNew [] bs

module _ (load : LogicalPath → Result Failure FsPath) where
  -- The tree of a file system's path can be read, and loads into the same path.
  abbrev pub IsPortableFsPath : FsPath → Type 0
  IsPortableFsPath (ok tree) = load tree ≡ ok (ok tree)
  IsPortableFsPath (err e) = ⊥

  abbrev mutual
    pub IsPortableValue : Datum → Type 0
    IsPortableValue null = Unit
    IsPortableValue (bool b) = Unit
    IsPortableValue (int i) = Unit
    IsPortableValue (string s) = Unit
    IsPortableValue (secret s) = IsPortableSecret s
    IsPortableValue (list vs) = ArePortable vs
    IsPortableValue (scope bs) = AreBound bs × AllNew [] bs
    IsPortableValue (file_path p) = Unit
    IsPortableValue (dir_path p) = Unit
    IsPortableValue (command_path c) = Unit
    IsPortableValue (host_path p) = HasNoGlobs p.path
    IsPortableValue (cache_path p) = IsPortableCachePath p × HasNoGlobs p.path
    IsPortableValue (fs_path p) = IsPortableFsPath p
    IsPortableValue (thunk t) = IsPortable t
    IsPortableValue (thunk_path p) = IsPortablePath p
    IsPortableValue (thunk_addr a) = IsPortableAddr a
    IsPortableValue (annotated v) = ⊥
    IsPortableValue unmarked = ⊥

    pub ArePortable : Data → Type 0
    ArePortable no_data = Unit
    ArePortable (datum v vs) = IsPortableValue v × ArePortable vs

    pub AreBound : Bindings → Type 0
    AreBound no_bindings = Unit
    AreBound (binding k v bs) = IsPortableValue v × AreBound bs

    -- A scope without bindings is not sent.
    pub IsPortableScope : MaybeScope → Type 0
    IsPortableScope no_scope = Unit
    IsPortableScope (some_scope no_bindings) = ⊥
    IsPortableScope (some_scope (binding k v bs)) =
        IsPortableValue v × AreBound bs × AllNew (k ∷ []) bs

    pub IsPortable : Thunk → Type 0
    IsPortable (thunk_of image args stdin env workdir mounts labels settings) =
        IsPortableImage image
        × ArePortable args
        × ArePortable stdin
        × IsPortableScope env
        × IsPortableDir workdir
        × ArePortableMounts mounts
        × IsPortableScope labels
        × PortsFit settings.ports

    pub IsPortablePath : ThunkPath → Type 0
    IsPortablePath (path_of t p) = IsPortable t

    pub IsPortableAddr : ThunkAddr → Type 0
    IsPortableAddr (addr_of t port format) = IsPortable t

    pub IsPortableImage : ThunkImage → Type 0
    IsPortableImage no_image = Unit
    IsPortableImage unset_image = ⊥
    IsPortableImage (ref r) = IsPortableRef r
    IsPortableImage (thunk_image t) = IsPortable t
    IsPortableImage (archive a) = IsPortableArchive a
    IsPortableImage (docker_build b) = IsPortableBuild b

    pub IsPortableRef : ImageRef → Type 0
    IsPortableRef (image_ref repo platform tag digest) =
        IsPortableRepository repo × IsPortablePlatform platform

    pub IsPortableRepository : ImageRepository → Type 0
    IsPortableRepository (static s) = Unit
    IsPortableRepository (from_addr a) = IsPortableAddr a

    pub IsPortableArchive : ImageArchive → Type 0
    IsPortableArchive (image_archive input platform tag) =
        IsPortableInput input × IsPortablePlatform platform

    pub IsPortableBuild : ImageDockerBuild → Type 0
    IsPortableBuild (image_docker_build platform context dockerfile target args) =
        IsPortablePlatform platform
        × IsPortableInput context
        × IsCleanFile dockerfile
        × ArePortableArgs args

    pub IsPortableInput : ImageBuildInput → Type 0
    IsPortableInput unset_input = Unit
    IsPortableInput (thunk_input p) = IsPortablePath p
    IsPortableInput (host_input p) = Unit
    IsPortableInput (fs_input p) = IsPortableFsPath p

    pub IsPortableDir : ThunkDir → Type 0
    IsPortableDir no_dir = Unit
    IsPortableDir unset_dir = ⊥
    IsPortableDir (local_dir p) = Unit
    IsPortableDir (thunk_dir p) = IsPortablePath p
    IsPortableDir (host_dir p) = Unit

    pub ArePortableMounts : Mounts → Type 0
    ArePortableMounts no_mounts = Unit
    ArePortableMounts (mount source target rest) = IsPortableSource source × ArePortableMounts rest

    pub IsPortableSource : ThunkMountSource → Type 0
    IsPortableSource unset_source = ⊥
    IsPortableSource (thunk_source p) = IsPortablePath p
    IsPortableSource (host_source p) = Unit
    IsPortableSource (fs_source p) = IsPortableFsPath p
    IsPortableSource (cache_source p) = IsPortableCachePath p
    IsPortableSource (secret_source s) = IsPortableSecret s
