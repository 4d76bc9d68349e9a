-- ===== src/Thunk/Rebase.antt =====
-- What the operations on thunks keep and change.
use bass.Prelude.{Text, List, ◌≡◌, refl, ap}
use bass.Thunk.Types.{
  Settings, Data, no_data, datum, MaybeScope, Thunk, thunk_of, ThunkImage, thunk_image, ThunkDir,
  Mounts,
}
use bass.Thunk.Operations.{
  with_image, encapsulate, with_entrypoint, with_default_args, thunk_platform, image_platform,
}

-- The image that a rebase leaves under an image that it set before.
abbrev rebased : ThunkImage → ThunkImage → ThunkImage
rebased (thunk_image t) image = thunk_image (with_image t image)
rebased first image = image

settled :
    (first second : ThunkImage) (args stdin : Data) (env : MaybeScope) (workdir : ThunkDir)
    (mount_list : Mounts) (labels : MaybeScope) (settings : Settings)
    → with_image (thunk_of first args stdin env workdir mount_list labels settings) second
      ≡ thunk_of (rebased first second) args stdin env workdir mount_list labels settings
unfolding with_image
settled (thunk_image t) second args stdin env workdir mount_list labels settings = refl
settled _ second args stdin env workdir mount_list labels settings = refl

-- A thunk that is rebased twice is one rebased once: onto the second image, unless the first one is a
-- thunk, which stays between and is itself rebased.
pub with_image-with_image :
    (t : Thunk) (first second : ThunkImage)
    → with_image (with_image t first) second ≡ with_image t (rebased first second)
unfolding with_image
with_image-with_image (thunk_of (thunk_image t) args stdin env workdir mount_list labels settings)
      first second =
    ap (λ u. thunk_of (thunk_image u) args stdin env workdir mount_list labels settings)
      (with_image-with_image t first second)
with_image-with_image (thunk_of old args stdin env workdir mount_list labels settings) first
      second =
    settled first second args stdin env workdir mount_list labels settings

-- The platform of a rebased thunk, which selects its runtime, is the platform of the image that it is
-- rebased onto.
pub thunk_platform-with_image :
    (t : Thunk) (image : ThunkImage) → thunk_platform (with_image t image) ≡ image_platform image
unfolding with_image thunk_platform
thunk_platform-with_image
      (thunk_of (thunk_image t) args stdin env workdir mount_list labels settings) image =
    thunk_platform-with_image t image
thunk_platform-with_image (thunk_of old args stdin env workdir mount_list labels settings) image =
    refl

pub encapsulate_idempotent : (t : Thunk) → encapsulate (encapsulate t) ≡ encapsulate t
unfolding encapsulate
encapsulate_idempotent (thunk_of image no_data stdin env workdir mount_list labels settings) = refl
encapsulate_idempotent (thunk_of image (datum v vs) stdin env workdir mount_list labels settings) =
    refl

-- The entrypoint and the default arguments can be set in either order.
pub with_default_args-with_entrypoint :
    (t : Thunk) (entrypoint args : List Text)
    → with_default_args (with_entrypoint t entrypoint) args
      ≡ with_entrypoint (with_default_args t args) entrypoint
unfolding with_default_args with_entrypoint encapsulate
with_default_args-with_entrypoint
      (thunk_of image no_data stdin env workdir mount_list labels settings) entrypoint args =
    refl
with_default_args-with_entrypoint
      (thunk_of image (datum v vs) stdin env workdir mount_list labels settings) entrypoint args =
    refl
