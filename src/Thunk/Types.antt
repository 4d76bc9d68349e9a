-- ===== src/Thunk/Types.antt =====
-- `Thunk` of pkg/bass/thunk.go, the types of pkg/bass/thunk_types.go, and the values that a thunk may
-- hold. A scope is known by the bindings that its `Each` visits, in their order.
use bass.Prelude.{Text, Bool, Option, List, Result}
use bass.Prelude.Int.{ℤ}
use bass.Value.{DirPath}
use bass.Proto.HostPaths.{FileOrDirPath, HostPath}

-- What goes wrong: a value that has no `MarshalProto`, an enum of which nothing or something unknown
-- is set, a message of the wrong type, a build argument that is no string, a file system that cannot be
-- read or loaded, the dereference of a nil pointer, and a value whose printing is not modelled.
pub data Failure : Type 0 where
  not_a_marshaler unknown_type wrong_message not_a_string file_system panics unprinted : Failure

-- The tree that a `LogicalPath` message holds.
mutual
  pub data LogicalPath : Type 0 where
    logical_file : Text → Text → LogicalPath
    logical_dir : Text → LogicalPaths → LogicalPath

  pub data LogicalPaths : Type 0 where
    no_entries : LogicalPaths
    entry : LogicalPath → LogicalPaths → LogicalPaths

-- An `FSPath` is known by what its `MarshalProto` reads off the file system that it is a path of.
abbrev pub FsPath : Type 0
FsPath = Result Failure LogicalPath

-- The mode is a Go int.
pub record CachePath : Type 0 where
  pub id : Text
  pub concurrency_mode : ℤ
  pub path : FileOrDirPath

-- The secret's bytes are not set in a secret that comes from a message.
pub record Secret : Type 0 where
  pub name : Text
  pub inner : Option Text

-- `ocispecs.Platform`.
pub record Platform : Type 0 where
  pub architecture : Text
  pub os : Text
  pub os_version : Text
  pub os_features : List Text
  pub variant : Text

-- The port is a Go int.
pub record ThunkPort : Type 0 where
  pub name : Text
  pub port : ℤ

-- The paths of two files.
pub record ThunkTls : Type 0 where
  pub cert : Text
  pub key : Text

-- The fields of a thunk that hold no values of the language.
pub record Settings : Type 0 where
  pub insecure : Bool
  pub use_entrypoint : Bool
  pub ports : List ThunkPort
  pub tls : Option ThunkTls
  pub entrypoint : List Text
  pub clear_entrypoint : Bool
  pub default_args : List Text
  pub clear_default_args : Bool

mutual
  -- `unmarked` is a value without a message, such as a function.
  pub data Datum : Type 0 where
    null : Datum
    bool : Bool → Datum
    int : ℤ → Datum
    string : Text → Datum
    secret : Secret → Datum
    list : Data → Datum
    scope : Bindings → Datum
    file_path : Text → Datum
    dir_path : DirPath → Datum
    command_path : Text → Datum
    host_path : HostPath → Datum
    cache_path : CachePath → Datum
    fs_path : FsPath → Datum
    thunk : Thunk → Datum
    thunk_path : ThunkPath → Datum
    thunk_addr : ThunkAddr → Datum
    annotated : Datum → Datum
    unmarked : Datum

  -- `[]Value`.
  pub data Data : Type 0 where
    no_data : Data
    datum : Datum → Data → Data

  pub data Bindings : Type 0 where
    no_bindings : Bindings
    binding : Text → Datum → Bindings → Bindings

  -- `*Scope`, which may be nil.
  pub data MaybeScope : Type 0 where
    no_scope : MaybeScope
    some_scope : Bindings → MaybeScope

  -- The image, the arguments, stdin, the environment, the working directory, the mounts, the labels
  -- and the other fields.
  pub data Thunk : Type 0 where
    thunk_of :
        ThunkImage → Data → Data → MaybeScope → ThunkDir → Mounts → MaybeScope → Settings → Thunk

  pub data ThunkPath : Type 0 where
    path_of : Thunk → FileOrDirPath → ThunkPath

  -- The thunk, its port and the format.
  pub data ThunkAddr : Type 0 where
    addr_of : Thunk → Text → Text → ThunkAddr

  -- `*ThunkImage`: nil, a struct in which nothing is set, or one of the kinds of image.
  pub data ThunkImage : Type 0 where
    no_image unset_image : ThunkImage
    ref : ImageRef → ThunkImage
    thunk_image : Thunk → ThunkImage
    archive : ImageArchive → ThunkImage
    docker_build : ImageDockerBuild → ThunkImage

  -- The repository, the platform, the tag and the digest.
  pub data ImageRef : Type 0 where
    image_ref : ImageRepository → Platform → Text → Text → ImageRef

  -- A static repository with the empty name is one that is not set.
  pub data ImageRepository : Type 0 where
    static : Text → ImageRepository
    from_addr : ThunkAddr → ImageRepository

  -- The file, the platform and the tag.
  pub data ImageArchive : Type 0 where
    image_archive : ImageBuildInput → Platform → Text → ImageArchive

  -- The platform, the context, the Dockerfile, the target and the arguments.
  pub data ImageDockerBuild : Type 0 where
    image_docker_build :
        Platform → ImageBuildInput → Option Text → Text → MaybeScope → ImageDockerBuild

  pub data ImageBuildInput : Type 0 where
    unset_input : ImageBuildInput
    thunk_input : ThunkPath → ImageBuildInput
    host_input : HostPath → ImageBuildInput
    fs_input : FsPath → ImageBuildInput

  -- `*ThunkDir`: nil, a struct in which nothing is set, or one of the kinds of directory.
  pub data ThunkDir : Type 0 where
    no_dir unset_dir : ThunkDir
    local_dir : DirPath → ThunkDir
    thunk_dir : ThunkPath → ThunkDir
    host_dir : HostPath → ThunkDir

  -- `[]ThunkMount`: the source and the target of each mount.
  pub data Mounts : Type 0 where
    no_mounts : Mounts
    mount : ThunkMountSource → FileOrDirPath → Mounts → Mounts

  pub data ThunkMountSource : Type 0 where
    unset_source : ThunkMountSource
    thunk_source : ThunkPath → ThunkMountSource
    host_source : HostPath → ThunkMountSource
    fs_source : FsPath → ThunkMountSource
    cache_source : CachePath → ThunkMountSource
    secret_source : Secret → ThunkMountSource
