-- ===== src/Thunk/Wire.antt =====
-- The messages of proto/bass.proto that a thunk is sent as. A field that is a message may be absent:
-- in Go it is a nil pointer.
use bass.Prelude.{Text, Bool, Option, List}
use bass.Prelude.Int.{ℤ}
use bass.Value.{DirPath}
use bass.Thunk.Types.{LogicalPath}

-- `FilesystemPath`; a nil one and one that holds no path read the same.
pub data PathMessage : Type 0 where
  unset_path : PathMessage
  to_file : Text → PathMessage
  to_dir : DirPath → PathMessage

pub record HostPathMessage : Type 0 where
  pub context : Text
  pub path : PathMessage

pub record CachePathMessage : Type 0 where
  pub id : Text
  pub path : PathMessage
  pub concurrency : ℤ

pub record PlatformMessage : Type 0 where
  pub os : Text
  pub arch : Text

-- The port is an int32.
pub record PortMessage : Type 0 where
  pub name : Text
  pub port : ℤ

pub record BuildArg : Type 0 where
  pub name : Text
  pub value : Text

-- The certificate and the key, each a `FilePath` that may be absent.
pub record TlsMessage : Type 0 where
  pub cert : Option Text
  pub key : Option Text

pub record SettingsMessage : Type 0 where
  pub insecure : Bool
  pub use_entrypoint : Bool
  pub ports : List PortMessage
  pub tls : Option TlsMessage
  pub entrypoint : List Text
  pub clear_entrypoint : Bool
  pub default_args : List Text
  pub clear_default_args : Bool

mutual
  pub data ValueMessage : Type 0 where
    unset_value : ValueMessage
    null_value : ValueMessage
    bool_value : Bool → ValueMessage
    int_value : ℤ → ValueMessage
    string_value : Text → ValueMessage
    secret_value : Text → ValueMessage
    array_value : ValueMessages → ValueMessage
    object_value : BindingMessages → ValueMessage
    thunk_value : ThunkMessage → ValueMessage
    command_path_value : Text → ValueMessage
    file_path_value : Text → ValueMessage
    dir_path_value : DirPath → ValueMessage
    host_path_value : HostPathMessage → ValueMessage
    thunk_path_value : ThunkPathMessage → ValueMessage
    logical_path_value : LogicalPath → ValueMessage
    thunk_addr_value : ThunkAddrMessage → ValueMessage
    cache_path_value : CachePathMessage → ValueMessage

  pub data ValueMessages : Type 0 where
    no_values : ValueMessages
    value_and : ValueMessage → ValueMessages → ValueMessages

  pub data BindingMessages : Type 0 where
    no_binding_messages : BindingMessages
    binding_and : Text → ValueMessage → BindingMessages → BindingMessages

  -- The fields of the model's `thunk_of`, in its order.
  pub data ThunkMessage : Type 0 where
    no_thunk_message : ThunkMessage
    thunk_message :
        ImageMessage
        → ValueMessages
        → ValueMessages
        → BindingMessages
        → DirMessage
        → MountMessages
        → BindingMessages
        → SettingsMessage
        → ThunkMessage

  pub data ThunkPathMessage : Type 0 where
    no_thunk_path_message : ThunkPathMessage
    thunk_path_message : ThunkMessage → PathMessage → ThunkPathMessage

  pub data ThunkAddrMessage : Type 0 where
    no_addr_message : ThunkAddrMessage
    addr_message : ThunkMessage → Text → Text → ThunkAddrMessage

  pub data ImageMessage : Type 0 where
    no_image_message unset_image_message : ImageMessage
    ref_image : ImageRefMessage → ImageMessage
    thunk_as_image : ThunkMessage → ImageMessage
    archive_image : ArchiveMessage → ImageMessage
    docker_build_image : DockerBuildMessage → ImageMessage

  -- The platform, the source, the tag and the digest.
  pub data ImageRefMessage : Type 0 where
    ref_message : Option PlatformMessage → RefSource → Option Text → Option Text → ImageRefMessage

  -- `file` is deprecated.
  pub data RefSource : Type 0 where
    no_ref_source : RefSource
    repository : Text → RefSource
    file : ThunkPathMessage → RefSource
    addr : ThunkAddrMessage → RefSource

  -- The platform, the file and the tag.
  pub data ArchiveMessage : Type 0 where
    archive_message : Option PlatformMessage → InputMessage → Option Text → ArchiveMessage

  -- The platform, the context, the Dockerfile, the target and the arguments.
  pub data DockerBuildMessage : Type 0 where
    docker_build_message :
        Option PlatformMessage
        → InputMessage
        → Option Text
        → Option Text
        → List BuildArg
        → DockerBuildMessage

  pub data InputMessage : Type 0 where
    unset_input_message : InputMessage
    input_thunk : ThunkPathMessage → InputMessage
    input_host : HostPathMessage → InputMessage
    input_logical : LogicalPath → InputMessage

  pub data DirMessage : Type 0 where
    no_dir_message unset_dir_message : DirMessage
    dir_local : DirPath → DirMessage
    dir_thunk : ThunkPathMessage → DirMessage
    dir_host : HostPathMessage → DirMessage

  pub data MountMessages : Type 0 where
    no_mount_messages : MountMessages
    mount_and : SourceMessage → PathMessage → MountMessages → MountMessages

  pub data SourceMessage : Type 0 where
    unset_source_message : SourceMessage
    source_thunk : ThunkPathMessage → SourceMessage
    source_host : HostPathMessage → SourceMessage
    source_logical : LogicalPath → SourceMessage
    source_cache : CachePathMessage → SourceMessage
    source_secret : Text → SourceMessage
