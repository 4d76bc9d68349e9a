-- ===== src/Thunk/Converted.antt =====
-- Images, directories and mount sources come back from the values that they are made into
-- (pkg/bass/thunk_types.go).
use bass.Prelude.{
  Text, text_eq, Bool, true, false, Option, none, some, List, [], ◌∷◌, Result, ok, ◌≡◌, refl, sym,
  ap, arith,
}
use bass.Thunk.Types.{
  Platform, Datum, scope, MaybeScope, no_scope, some_scope, path_of, ThunkImage, no_image,
  unset_image, ref, thunk_image, archive, docker_build, image_ref, ImageRepository, static,
  from_addr, image_archive, image_docker_build, ImageBuildInput, unset_input, thunk_input,
  host_input, fs_input, ThunkDir, no_dir, unset_dir, local_dir, thunk_dir, host_dir,
}
use bass.Thunk.Plain.{decode_string}
use bass.Thunk.Render.{find_binding}
use bass.Thunk.Convert.{
  Undecoded, bare, repository_value, repository_of, input_of, workdir_value, workdir_of,
  is_directory, texts, decode_texts, optional, required, platform_value, decode_platform,
  input_value,
}
use bass.Thunk.Images.{
  zero_platform, are_empty, is_zero, ref_bindings, archive_bindings, docker_build_bindings,
  to_scope, image_value, ref_of, archive_of, docker_build_of, image_of_value,
}

decode_texts-texts : (ss : List Text) → decode_texts (texts ss) ≡ ok ss
unfolding decode_string
decode_texts-texts [] = refl
decode_texts-texts (s ∷ ss) = rw (decode_texts-texts ss) refl

zero_of :
    (architecture os version : Text) (features : List Text) (variant : Text)
    → are_empty architecture os version features variant ≡ true
    → (◌≡◌ {A = Platform}
        (record {
          architecture = architecture;
          os = os;
          os_version = version;
          os_features = features;
          variant = variant;
        })
        zero_platform)
zero_of [] [] [] [] [] e = refl
zero_of _ _ _ _ _ e = ground (arith, e)

module _ (goarch : Text) where
  platform_back :
      (architecture os version : Text) (features : List Text) (variant : Text)
      → (let p : Platform = record {
        architecture = architecture;
        os = os;
        os_version = version;
        os_features = features;
        variant = variant;
      } in
          decode_platform goarch (platform_value p) ≡ ok p)
  unfolding decode_platform platform_value optional required find_binding text_eq decode_string
  platform_back architecture os [] [] [] = refl
  platform_back architecture os [] [] (c ∷ s) = refl
  platform_back architecture os (d ∷ t) [] [] = refl
  platform_back architecture os (d ∷ t) [] (c ∷ s) = refl
  platform_back architecture os [] (f ∷ fs) [] = rw (decode_texts-texts fs) refl
  platform_back architecture os [] (f ∷ fs) (c ∷ s) = rw (decode_texts-texts fs) refl
  platform_back architecture os (d ∷ t) (f ∷ fs) [] = rw (decode_texts-texts fs) refl
  platform_back architecture os (d ∷ t) (f ∷ fs) (c ∷ s) = rw (decode_texts-texts fs) refl

  decode_platform-platform_value : (p : Platform) → decode_platform goarch (platform_value p) ≡ ok p
  decode_platform-platform_value p =
      platform_back p.architecture p.os p.os_version p.os_features p.variant

  -- An image of which something is set, a repository and an input too.
  abbrev pub IsSetRepository : ImageRepository → Type 0
  IsSetRepository (static []) = ⊥
  IsSetRepository _ = Unit

  abbrev pub IsSetInput : ImageBuildInput → Type 0
  IsSetInput unset_input = ⊥
  IsSetInput _ = Unit

  abbrev pub IsSetImage : ThunkImage → Type 0
  IsSetImage no_image = ⊥
  IsSetImage unset_image = ⊥
  IsSetImage (ref (image_ref repository platform tag digest)) = IsSetRepository repository
  IsSetImage (thunk_image t) = Unit
  IsSetImage (archive (image_archive input platform tag)) = IsSetInput input
  IsSetImage (docker_build (image_docker_build platform context dockerfile target args)) =
      IsSetInput context

  same_ref :
      (r : ImageRepository) (p : Platform) (tag digest : Text)
      → is_zero p ≡ true
      → (◌≡◌ {A = Result Undecoded ThunkImage}
          (ok (ref (image_ref r zero_platform tag digest)))
          (ok (ref (image_ref r p tag digest))))
  same_ref r p tag digest e =
      ap (λ q. ok (ref (image_ref r q tag digest)))
        (sym (zero_of p.architecture p.os p.os_version p.os_features p.variant e))

  ref_fields :
      (v : Datum) (r : ImageRepository) (p : Platform) (zero : Bool) (tag digest : Text)
      → repository_of (bare v) ≡ ok r
      → is_zero p ≡ zero
      → ref_of goarch (ref_bindings p tag digest v) ≡ ok (ref (image_ref r p tag digest))
  unfolding ref_of optional required find_binding text_eq decode_string
  ref_fields v r p true [] [] h e = rw (h, e) (same_ref r p [] [] e)
  ref_fields v r p true [] (d ∷ ds) h e = rw (h, e) (same_ref r p [] (d ∷ ds) e)
  ref_fields v r p true (c ∷ cs) [] h e = rw (h, e) (same_ref r p (c ∷ cs) [] e)
  ref_fields v r p true (c ∷ cs) (d ∷ ds) h e = rw (h, e) (same_ref r p (c ∷ cs) (d ∷ ds) e)
  ref_fields v r p false [] [] h e = rw (h, e, decode_platform-platform_value p) refl
  ref_fields v r p false [] (d ∷ ds) h e = rw (h, e, decode_platform-platform_value p) refl
  ref_fields v r p false (c ∷ cs) [] h e = rw (h, e, decode_platform-platform_value p) refl
  ref_fields v r p false (c ∷ cs) (d ∷ ds) h e = rw (h, e, decode_platform-platform_value p) refl

  archive_fields :
      (v : Datum) (input : ImageBuildInput) (p : Platform) (tag : Text)
      → input_of (bare v) ≡ ok input
      → image_of_value goarch (scope (archive_bindings p tag v))
        ≡ ok (archive (image_archive input p tag))
  unfolding image_of_value ref_of archive_of optional required find_binding text_eq decode_string
  archive_fields v input p [] h = rw (h, decode_platform-platform_value p) refl
  archive_fields v input p (c ∷ cs) h = rw (h, decode_platform-platform_value p) refl

  docker_build_fields :
      (v : Datum) (input : ImageBuildInput) (p : Platform) (dockerfile : Option Text)
      (target : Text) (args : MaybeScope)
      → input_of (bare v) ≡ ok input
      → image_of_value goarch (scope (docker_build_bindings p dockerfile target args v))
        ≡ ok (docker_build (image_docker_build p input dockerfile target args))
  unfolding image_of_value ref_of archive_of docker_build_of optional required find_binding text_eq
      decode_string
  docker_build_fields v input p none [] no_scope h = rw (h, decode_platform-platform_value p) refl
  docker_build_fields v input p none [] (some_scope bs) h =
      rw (h, decode_platform-platform_value p) refl
  docker_build_fields v input p none (c ∷ cs) no_scope h =
      rw (h, decode_platform-platform_value p) refl
  docker_build_fields v input p none (c ∷ cs) (some_scope bs) h =
      rw (h, decode_platform-platform_value p) refl
  docker_build_fields v input p (some f) [] no_scope h =
      rw (h, decode_platform-platform_value p) refl
  docker_build_fields v input p (some f) [] (some_scope bs) h =
      rw (h, decode_platform-platform_value p) refl
  docker_build_fields v input p (some f) (c ∷ cs) no_scope h =
      rw (h, decode_platform-platform_value p) refl
  docker_build_fields v input p (some f) (c ∷ cs) (some_scope bs) h =
      rw (h, decode_platform-platform_value p) refl

  repository_back :
      (r : ImageRepository)
      → IsSetRepository r
      → (v : Datum) × (repository_value r ≡ some v) × (repository_of (bare v) ≡ ok r)
  repository_back (static []) h = absurd h
  repository_back (static (c ∷ s)) h = (_, refl, refl)
  repository_back (from_addr a) h = (_, refl, refl)

  input_back :
      (input : ImageBuildInput)
      → IsSetInput input
      → (v : Datum) × (input_value input ≡ some v) × (input_of (bare v) ≡ ok input)
  input_back unset_input h = absurd h
  input_back (thunk_input q) h = (_, refl, refl)
  input_back (host_input q) h = (_, refl, refl)
  input_back (fs_input q) h = (_, refl, refl)

  -- An image that is made into a value, by which programs see it, comes back whole from the value,
  -- whatever the architecture of the program is.
  pub image_of_value-image_value :
      (i : ThunkImage)
      → IsSetImage i
      → (v : Datum) × (image_value i ≡ some v) × (image_of_value goarch v ≡ ok i)
  unfolding image_value image_of_value
  image_of_value-image_value no_image h = absurd h
  image_of_value-image_value unset_image h = absurd h
  image_of_value-image_value (ref (image_ref r p tag digest)) h =
      let (v, e, f) = repository_back r h in
      (
        scope (ref_bindings p tag digest v),
        ap (λ o. to_scope o (ref_bindings p tag digest)) e,
        rw (ref_fields v r p (is_zero p) tag digest f refl) refl,
      )
  image_of_value-image_value (thunk_image t) h = (_, refl, refl)
  image_of_value-image_value (archive (image_archive input p tag)) h =
      let (v, e, f) = input_back input h in
      (
        scope (archive_bindings p tag v),
        ap (λ o. to_scope o (archive_bindings p tag)) e,
        archive_fields v input p tag f,
      )
  image_of_value-image_value (docker_build (image_docker_build p input dockerfile target args)) h =
      let (v, e, f) = input_back input h in
      (
        scope (docker_build_bindings p dockerfile target args v),
        ap (λ o. to_scope o (docker_build_bindings p dockerfile target args)) e,
        docker_build_fields v input p dockerfile target args f,
      )

-- A working directory, if it is no path to a file.
abbrev pub IsDirectory : ThunkDir → Type 0
IsDirectory no_dir = ⊥
IsDirectory unset_dir = ⊥
IsDirectory (local_dir p) = Unit
IsDirectory (thunk_dir (path_of t p)) = is_directory p ≡ true
IsDirectory (host_dir p) = is_directory p.path ≡ true

pub workdir_of-workdir_value :
    (d : ThunkDir)
    → IsDirectory d
    → (v : Datum) × (workdir_value d ≡ some v) × (workdir_of v ≡ ok d)
workdir_of-workdir_value no_dir h = absurd h
workdir_of-workdir_value unset_dir h = absurd h
workdir_of-workdir_value (local_dir p) h = (_, refl, refl)
workdir_of-workdir_value (thunk_dir (path_of t p)) h = (_, refl, rw h refl)
workdir_of-workdir_value (host_dir p) h = (_, refl, rw h refl)
