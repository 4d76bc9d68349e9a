-- ===== src/Thunk/Built.antt =====
-- The thunks that programs build: from the empty one, by the operations that pkg/bass/ground.go gives
-- them.
use bass.Prelude.{◌^◌, Text, Bool, List, [], ◌∷◌, ◌≡◌, Result, ok, ◌>>=◌}
use bass.Prelude.Int.{ℤ}
use bass.Prelude.Words.{Fits}
use bass.Proto.HostPaths.{FileOrDirPath}
use bass.Thunk.Types.{
  Failure, LogicalPath, FsPath, Datum, Data, no_data, datum, Bindings, no_scope, some_scope, Thunk,
  thunk_of, ThunkImage, ThunkDir, ThunkMountSource,
}
use bass.Thunk.Operations.{
  scratch, with_image, encapsulate, with_entrypoint, with_default_args, with_args, with_cmd,
  with_entrypoint_args, with_env, with_stdin, with_insecure, with_dir, with_mount, with_label,
  with_port, with_tls,
}
use bass.Thunk.Portable.{
  IsPortableValue, ArePortable, IsPortableScope, IsPortable, IsPortableImage, IsPortableDir,
  IsPortableSource,
}
use bass.Thunk.Kept.{
  rebase-IsPortable, encapsulate-IsPortable, update-IsPortable, mounts_portable, ports_fit,
  overlay_portable, label_portable,
}
use bass.Thunk.Marshal.{marshal_thunk}
use bass.Thunk.Unmarshal.{unmarshal_thunk}
use bass.Thunk.RoundTrip.{unmarshal_thunk-marshal_thunk}

-- The builtins `with-image` to `with-mount`, with their arguments after the thunk.
pub data Change : Type 0 where
  image : ThunkImage → Change
  workdir : ThunkDir → Change
  cmd args entrypoint_args stdin : Data → Change
  entrypoint default_args : List Text → Change
  env : Bindings → Change
  insecure : Bool → Change
  label : Text → Datum → Change
  port : Text → ℤ → Change
  tls : Text → Text → Change
  mounted : ThunkMountSource → FileOrDirPath → Change

unfoldable pub apply : Thunk → Change → Thunk
unfolding with_image with_dir with_cmd with_args with_entrypoint_args with_stdin with_entrypoint
    with_default_args with_env with_insecure with_label with_port with_tls with_mount
apply t (image i) = with_image t i
apply t (workdir d) = with_dir t d
apply t (cmd vs) = with_cmd t vs
apply t (args vs) = with_args t vs
apply t (entrypoint_args vs) = with_entrypoint_args t vs
apply t (stdin vs) = with_stdin t vs
apply t (entrypoint ss) = with_entrypoint t ss
apply t (default_args ss) = with_default_args t ss
apply t (env bs) = with_env t bs
apply t (insecure b) = with_insecure t b
apply t (label k v) = with_label t k v
apply t (port name p) = with_port t name p
apply t (tls cert key) = with_tls t cert key
apply t (mounted source target) = with_mount t source target

unfoldable pub apply_all : Thunk → List Change → Thunk
unfolding apply
apply_all t [] = t
apply_all t (c ∷ cs) = apply_all (apply t c) cs

module _ (load : LogicalPath → Result Failure FsPath) where
  -- What the arguments of a change have to be: portable themselves, an environment with a binding at
  -- least, and a port that an int32 holds.
  abbrev pub IsPortableChange : Change → Type 0
  IsPortableChange (image i) = IsPortableImage load i
  IsPortableChange (workdir d) = IsPortableDir load d
  IsPortableChange (cmd vs) = ArePortable load vs
  IsPortableChange (args vs) = ArePortable load vs
  IsPortableChange (entrypoint_args vs) = ArePortable load vs
  IsPortableChange (stdin vs) = ArePortable load vs
  IsPortableChange (entrypoint ss) = Unit
  IsPortableChange (default_args ss) = Unit
  IsPortableChange (env bs) = IsPortableScope load (some_scope bs)
  IsPortableChange (insecure b) = Unit
  IsPortableChange (label k v) = IsPortableValue load v
  IsPortableChange (port name p) = Fits (2 ^ 31) p
  IsPortableChange (tls cert key) = Unit
  IsPortableChange (mounted source target) = IsPortableSource load source

  abbrev pub ArePortableChanges : List Change → Type 0
  ArePortableChanges [] = Unit
  ArePortableChanges (c ∷ cs) = IsPortableChange c × ArePortableChanges cs

  -- Each operation keeps a thunk portable, given portable arguments.
  pub IsPortable-apply :
      (t : Thunk) (c : Change)
      → IsPortable load t
      → IsPortableChange c
      → IsPortable load (apply t c)
  unfolding apply with_dir with_cmd with_args with_entrypoint_args with_stdin with_entrypoint
      with_default_args with_env with_insecure with_label with_port with_tls with_mount
  IsPortable-apply t (image i) h g = rebase-IsPortable load t i h g
  IsPortable-apply (thunk_of i as_ ins e d ms ls s) (workdir w) h g =
      (h.0, h.1, h.2, h.3, g, h.5, h.6, h.7)
  IsPortable-apply (thunk_of i as_ ins e d ms ls s) (cmd vs) h g =
      (h.0, g, h.2, h.3, h.4, h.5, h.6, h.7)
  IsPortable-apply (thunk_of i no_data ins e d ms ls s) (args vs) h g =
      (h.0, g, h.2, h.3, h.4, h.5, h.6, h.7)
  IsPortable-apply (thunk_of i (datum v as_) ins e d ms ls s) (args vs) h g =
      (h.0, (h.1.0, g), h.2, h.3, h.4, h.5, h.6, h.7)
  IsPortable-apply (thunk_of i as_ ins e d ms ls s) (entrypoint_args vs) h g =
      (h.0, g, h.2, h.3, h.4, h.5, h.6, h.7)
  IsPortable-apply (thunk_of i as_ ins e d ms ls s) (stdin vs) h g =
      (h.0, h.1, g, h.3, h.4, h.5, h.6, h.7)
  IsPortable-apply t (entrypoint ss) h g =
      update-IsPortable load _ (encapsulate t) (λ s k. k) (encapsulate-IsPortable load t h)
  IsPortable-apply t (default_args ss) h g =
      update-IsPortable load _ (encapsulate t) (λ s k. k) (encapsulate-IsPortable load t h)
  IsPortable-apply (thunk_of i as_ ins no_scope d ms ls s) (env bs) h g =
      (h.0, h.1, h.2, g, h.4, h.5, h.6, h.7)
  IsPortable-apply (thunk_of i as_ ins (some_scope old) d ms ls s) (env bs) h g =
      (h.0, h.1, h.2, overlay_portable load bs old g h.3, h.4, h.5, h.6, h.7)
  IsPortable-apply t (insecure b) h g = update-IsPortable load _ t (λ s k. k) h
  IsPortable-apply (thunk_of i as_ ins e d ms no_scope s) (label k v) h g =
      (h.0, h.1, h.2, h.3, h.4, h.5, (g, tt, tt), h.7)
  IsPortable-apply (thunk_of i as_ ins e d ms (some_scope ls) s) (label k v) h g =
      (h.0, h.1, h.2, h.3, h.4, h.5, label_portable load k v ls h.6 g, h.7)
  IsPortable-apply t (port name p) h g =
      update-IsPortable load _ t (λ s k. ports_fit load s.ports _ k g) h
  IsPortable-apply t (tls cert key) h g = update-IsPortable load _ t (λ s k. k) h
  IsPortable-apply (thunk_of i as_ ins e d ms ls s) (mounted source target) h g =
      (h.0, h.1, h.2, h.3, h.4, mounts_portable load ms source target h.5 g, h.6, h.7)

  IsPortable-apply_all :
      (t : Thunk) (cs : List Change)
      → IsPortable load t
      → ArePortableChanges cs
      → IsPortable load (apply_all t cs)
  unfolding apply_all
  IsPortable-apply_all t [] h g = h
  IsPortable-apply_all t (c ∷ cs) h g =
      IsPortable-apply_all (apply t c) cs (IsPortable-apply t c h g.0) g.1

  -- A thunk that is built from the empty one by any operations with portable arguments comes back
  -- whole from its message.
  pub unmarshal_thunk-apply_all :
      (cs : List Change)
      → ArePortableChanges cs
      → (marshal_thunk (apply_all scratch cs) >>= unmarshal_thunk load) ≡ ok (apply_all scratch cs)
  unmarshal_thunk-apply_all cs h =
      unmarshal_thunk-marshal_thunk load (apply_all scratch cs)
        (IsPortable-apply_all scratch cs (tt, tt, tt, tt, tt, tt, tt, tt) h)
