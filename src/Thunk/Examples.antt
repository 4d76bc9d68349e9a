-- ===== src/Thunk/Examples.antt =====
-- Thunks at concrete inputs: `(from {:repository "alpine"} ($ sh "a"))` and what is made of it.
use bass.Prelude.{
  text_eq, arith, codes, Text, none, some, List, [], ◌∷◌, ◌≡◌, refl, Result, ok, ◌>>=◌,
}
use bass.Prelude.Int.{pos, negsuc}
use bass.Prelude.Words.{to_int32}
use bass.Proto.HostPaths.{file}
use bass.Thunk.Types.{
  Datum, scope, Failure, LogicalPath, FsPath, Platform, int, string, secret, command_path,
  thunk_path, no_data, datum, no_bindings, binding, no_scope, some_scope, Thunk, thunk_of, path_of,
  ThunkImage, ref, thunk_image, image_ref, static, local_dir, no_mounts, mount, cache_source,
}
use bass.Thunk.Convert.{optional, required, decode_platform}
use bass.Thunk.Images.{image_value, image_of_value, ref_of}
use bass.Thunk.Converted.{image_of_value-image_value}
use bass.Thunk.Render.{find_binding}
use bass.Thunk.Plain.{decode_string}
use bass.Thunk.Operations.{nothing_set, scratch, with_image, with_stdin}
use bass.Thunk.Wire.{file}
use bass.Thunk.Plain.{marshal_port}
use bass.Thunk.Marshal.{marshal_value, marshal_thunk}
use bass.Thunk.Unmarshal.{unmarshal_value, unmarshal_thunk}
use bass.Thunk.RoundTrip.{unmarshal_thunk-marshal_thunk}
use bass.Thunk.Built.{
  Change, image, cmd, entrypoint, env, label, port, apply_all, unmarshal_thunk-apply_all,
}
use bass.Thunk.Slices.{Slice, read, with_args}
use bass.Thunk.Sharing.{read-with_args_receiver}

abbrev load_tree : LogicalPath → Result Failure FsPath
load_tree tree = ok (ok tree)

abbrev linux : Platform
linux = record {
  architecture = codes "amd64";
  os = codes "linux";
  os_version = [];
  os_features = [];
  variant = [];
}

abbrev alpine : ThunkImage
alpine = ref (image_ref (static (codes "alpine")) linux [] [])

abbrev golang : ThunkImage
golang = ref (image_ref (static (codes "golang")) linux (codes "1.20") [])

abbrev shell : Thunk
shell =
    thunk_of alpine (datum (command_path (codes "sh")) (datum (string (codes "a")) no_data)) no_data
      (some_scope (binding (codes "FOO") (string (codes "x")) no_bindings))
      (local_dir (record { path = codes "src"; include = codes "*.go" ∷ []; exclude = [] }))
      (mount
        (cache_source
          (record { id = codes "c"; concurrency_mode = pos 2; path = file (codes "f") }))
        (file (codes "m")) no_mounts)
      no_scope nothing_set

-- A thunk whose image is the shell's thunk.
abbrev chained : Thunk
chained =
    with_stdin (with_image scratch (thunk_image shell))
      (datum (thunk_path (path_of shell (file (codes "out")))) no_data)

unmarshal_thunk-marshal_thunk_example :
    (marshal_thunk shell >>= unmarshal_thunk load_tree) ≡ ok shell
unmarshal_thunk-marshal_thunk_example =
    unmarshal_thunk-marshal_thunk load_tree shell
      ((tt, (refl, refl, refl)), (tt, (tt, tt)), tt, (tt, tt, tt), tt, (omega arith, tt), tt, tt)

-- A secret's bytes do not come back.
secret_lost :
    (marshal_value (secret (record { name = codes "s"; inner = some (codes "pw") }))
      >>= unmarshal_value load_tree)
    ≡ ok (secret (record { name = codes "s"; inner = none }))
unfolding marshal_value unmarshal_value
secret_lost = refl

-- A port that no int32 holds is sent as another one.
port_wraps :
    marshal_port (record { name = codes "p"; port = pos 4_294_967_376 })
    ≡ record { name = codes "p"; port = pos 80 }
unfolding marshal_port to_int32
port_wraps = refl

abbrev changes : List Change
changes =
    image alpine
    ∷ cmd (datum (command_path (codes "sh")) no_data)
    ∷ env (binding (codes "FOO") (string (codes "x")) no_bindings)
    ∷ env (binding (codes "FOO") (string (codes "y")) no_bindings)
    ∷ port (codes "http") (pos 80)
    ∷ entrypoint (codes "sh" ∷ [])
    ∷ image golang
    ∷ label (codes "at") (int (negsuc 0))
    ∷ []

unmarshal_thunk-apply_all_example :
    (marshal_thunk (apply_all scratch changes) >>= unmarshal_thunk load_tree)
    ≡ ok (apply_all scratch changes)
unmarshal_thunk-apply_all_example = unmarshal_thunk-apply_all load_tree changes (
  (tt, (refl, refl, refl)),
  (
    (tt, tt),
    ((tt, tt, tt), ((tt, tt, tt), (omega arith, (tt, ((tt, (refl, refl, refl)), (tt, tt)))))),
  ),
)

-- The arguments `["go" "a" "b"]` in an array with one more place, and `["x"]`.
abbrev arrays : List (List Text)
arrays = (codes "go" ∷ codes "a" ∷ codes "b" ∷ [] ∷ []) ∷ (codes "x" ∷ []) ∷ []

abbrev go_args : Slice
go_args = record { array = 0; len = 3 }

abbrev x_args : Slice
x_args = record { array = 1; len = 1 }

-- `with-args` on a thunk changes the arguments of that thunk itself.
read-with_args_receiver_example :
    let (after, result) = with_args [] (λ c n. n) go_args x_args arrays in
    read after go_args ≡ codes "go" ∷ codes "x" ∷ codes "b" ∷ []
read-with_args_receiver_example =
    read-with_args_receiver [] (λ c n. n) go_args x_args arrays (omega arith) (omega arith)
      (omega arith)

image_of_value-image_value_example :
    (v : Datum) × (image_value golang ≡ some v) × (image_of_value (codes "arm64") v ≡ ok golang)
image_of_value-image_value_example = image_of_value-image_value (codes "arm64") golang tt

-- `{:repository "alpine" :platform {:os "linux"}}`, on a computer of another architecture.
architecture_default :
    image_of_value (codes "arm64") (
      scope (
        binding (codes "repository") (string (codes "alpine")) (
          binding
            (codes "platform")
            (scope (binding (codes "os") (string (codes "linux")) no_bindings))
            no_bindings)))
    ≡ ok (
        ref (
          image_ref
            (static (codes "alpine"))
            (record linux { architecture = codes "arm64" })
            []
            []))
unfolding image_of_value ref_of optional required decode_platform find_binding text_eq decode_string
architecture_default = refl
