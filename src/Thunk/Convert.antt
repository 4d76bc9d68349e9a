-- ===== src/Thunk/Convert.antt =====
-- Images, directories, mount sources and platforms as values, and from values: `ToValue` and
-- `FromValue` of pkg/bass/thunk_types.go, with `valueOfStruct` of pkg/bass/value.go and `decodeStruct`
-- of pkg/bass/scope.go for the structs that they hold.
use bass.Prelude.{
  Text, codes, Bool, true, false, Option, none, some, List, [], ◌∷◌, Result, ok, err, ◌>>=◌,
  if◌then◌else◌,
}
use bass.Proto.HostPaths.{FileOrDirPath, file, dir}
use bass.Thunk.Types.{
  Platform, Datum, string, secret, list, scope, file_path, dir_path, host_path, cache_path, fs_path,
  thunk_path, thunk_addr, annotated, Data, no_data, datum, Bindings, no_bindings, binding,
  MaybeScope, some_scope, path_of, ImageRepository, static, from_addr, ImageBuildInput, unset_input,
  thunk_input, host_input, fs_input, ThunkDir, no_dir, unset_dir, local_dir, thunk_dir, host_dir,
  ThunkMountSource, unset_source, thunk_source, host_source, fs_source, cache_source, secret_source,
}
use bass.Thunk.Bindings.{append}
use bass.Thunk.Plain.{decode_string}
use bass.Thunk.Render.{find_binding}

-- An annotated value decodes as the value itself.
abbrev pub bare : Datum → Datum
bare (annotated v) = bare v
bare v = v

-- A required key that is missing, a value that does not decode, and a path to a file where a directory
-- is needed.
pub data Undecoded : Type 0 where
  missing_key decode_error not_a_directory : Undecoded

-- An optional field is written only if it is not empty.
abbrev pub text_field : Text → Text → Bindings
text_field k [] = no_bindings
text_field k (c ∷ s) = binding k (string (c ∷ s)) no_bindings

abbrev pub texts : List Text → Data
texts [] = no_data
texts (s ∷ ss) = datum (string s) (texts ss)

abbrev pub texts_field : Text → List Text → Bindings
texts_field k [] = no_bindings
texts_field k (s ∷ ss) = binding k (list (texts (s ∷ ss))) no_bindings

abbrev pub decode_text : Datum → Result Undecoded Text
decode_text v = elim (decode_string v) [ none ↦ err decode_error | some s ↦ ok s ]

-- An optional key that is missing leaves the field as it is.
unfoldable pub optional {ℓ} :
    {A : Type ℓ} → A → (Datum → Result Undecoded A) → Text → Bindings → Result Undecoded A
unfolding find_binding
optional default decode k bs = elim (find_binding k bs) [ none ↦ ok default | some v ↦ decode v ]

unfoldable pub required {ℓ} :
    {A : Type ℓ} → (Datum → Result Undecoded A) → Text → Bindings → Result Undecoded A
unfolding find_binding
required decode k bs = elim (find_binding k bs) [ none ↦ err missing_key | some v ↦ decode v ]

abbrev pub decode_texts : Data → Result Undecoded (List Text)
decode_texts no_data = ok []
decode_texts (datum v vs) = do s ← decode_text v; ss ← decode_texts vs; ok (s ∷ ss)

abbrev pub decode_text_list : Datum → Result Undecoded (List Text)
decode_text_list (list vs) = decode_texts vs
decode_text_list _ = err decode_error

abbrev pub decode_file_path : Datum → Result Undecoded (Option Text)
decode_file_path (file_path p) = ok (some p)
decode_file_path _ = err decode_error

abbrev pub decode_scope_field : Datum → Result Undecoded MaybeScope
decode_scope_field (scope bs) = ok (some_scope bs)
decode_scope_field _ = err decode_error

-- A platform.
unfoldable pub platform_value : Platform → Bindings
platform_value p = binding (codes "architecture") (string p.architecture) (
    binding (codes "os") (string p.os) (
      append (text_field (codes "os.version") p.os_version) (
        append (texts_field (codes "os.features") p.os_features)
          (text_field (codes "variant") p.variant))))

-- `goarch` is the architecture that the program was built for, which is not empty.
module _ (goarch : Text) where
  unfoldable pub decode_platform : Bindings → Result Undecoded Platform
  unfolding optional required
  decode_platform bs = do
    architecture ← optional goarch decode_text (codes "architecture") bs
    os ← required decode_text (codes "os") bs
    version ← optional [] decode_text (codes "os.version") bs
    features ← optional [] (λ v. decode_text_list (bare v)) (codes "os.features") bs
    variant ← optional [] decode_text (codes "variant") bs
    ok (record {
      architecture = architecture;
      os = os;
      os_version = version;
      os_features = features;
      variant = variant;
    })

  -- `Platform.FromValue`.
  abbrev pub platform_of : Datum → Result Undecoded Platform
  platform_of (scope bs) = decode_platform bs
  platform_of _ = err decode_error

-- `ImageRepository`; `none` is a nil pointer that is dereferenced.
abbrev pub repository_value : ImageRepository → Option Datum
repository_value (static []) = none
repository_value (static (c ∷ s)) = some (string (c ∷ s))
repository_value (from_addr a) = some (thunk_addr a)

abbrev pub repository_of : Datum → Result Undecoded ImageRepository
repository_of (string s) = ok (static s)
repository_of (thunk_addr a) = ok (from_addr a)
repository_of _ = err decode_error

-- `ImageBuildInput`; `none` is the panic.
abbrev pub input_value : ImageBuildInput → Option Datum
input_value unset_input = none
input_value (thunk_input p) = some (thunk_path p)
input_value (host_input p) = some (host_path p)
input_value (fs_input p) = some (fs_path p)

abbrev pub input_of : Datum → Result Undecoded ImageBuildInput
input_of (host_path p) = ok (host_input p)
input_of (fs_path p) = ok (fs_input p)
input_of (thunk_path p) = ok (thunk_input p)
input_of _ = err decode_error

-- `ThunkMountSource`.
abbrev pub source_value : ThunkMountSource → Option Datum
source_value unset_source = none
source_value (fs_source p) = some (fs_path p)
source_value (host_source p) = some (host_path p)
source_value (cache_source p) = some (cache_path p)
source_value (secret_source s) = some (secret s)
source_value (thunk_source p) = some (thunk_path p)

abbrev pub source_of : Datum → Result Undecoded ThunkMountSource
source_of (host_path p) = ok (host_source p)
source_of (fs_path p) = ok (fs_source p)
source_of (thunk_path p) = ok (thunk_source p)
source_of (cache_path p) = ok (cache_source p)
source_of (secret s) = ok (secret_source s)
source_of _ = err decode_error

-- `ThunkDir`.
abbrev pub workdir_value : ThunkDir → Option Datum
workdir_value no_dir = none
workdir_value unset_dir = none
workdir_value (thunk_dir p) = some (thunk_path p)
workdir_value (local_dir p) = some (dir_path p)
workdir_value (host_dir p) = some (host_path p)

abbrev pub is_directory : FileOrDirPath → Bool
is_directory (file p) = false
is_directory (dir p) = true

abbrev pub workdir_of : Datum → Result Undecoded ThunkDir
workdir_of (dir_path p) = ok (local_dir p)
workdir_of (thunk_path (path_of t p)) =
    if is_directory p then ok (thunk_dir (path_of t p)) else err not_a_directory
workdir_of (host_path p) = if is_directory p.path then ok (host_dir p) else err not_a_directory
workdir_of _ = err decode_error
