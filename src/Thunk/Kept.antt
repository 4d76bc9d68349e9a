-- ===== src/Thunk/Kept.antt =====
-- What the operations on thunks do to the parts of a portable thunk.
use bass.Prelude.{
  text_eq, Bool-cases, inl, inr, ◌^◌, Text, List, [], ◌∷◌, ◌++◌, refl, Result, arith,
}
use bass.Prelude.Words.{Fits}
use bass.Proto.HostPaths.{FileOrDirPath}
use bass.Scope.Each.{contains}
use bass.Thunk.Bindings.{
  set_binding, keys, append, without, overlay, AllNew, AllNew-set_binding, AllNew-overlay,
}
use bass.Thunk.Types.{
  Failure, LogicalPath, FsPath, ThunkPort, Settings, Datum, no_data, datum, Bindings, no_bindings,
  binding, some_scope, Thunk, thunk_of, ThunkImage, thunk_image, Mounts, no_mounts, mount,
  ThunkMountSource,
}
use bass.Thunk.Operations.{with_image, encapsulate, update, append_mount}
use bass.Thunk.Portable.{
  PortsFit, IsPortableValue, AreBound, IsPortableScope, IsPortable, IsPortableImage,
  ArePortableMounts, IsPortableSource,
}

module _ (load : LogicalPath → Result Failure FsPath) where
  pub rebase-IsPortable :
      (t : Thunk) (i : ThunkImage)
      → IsPortable load t
      → IsPortableImage load i
      → IsPortable load (with_image t i)
  unfolding with_image
  rebase-IsPortable (thunk_of (thunk_image t) as_ ins e d ms ls s) i h g =
      (rebase-IsPortable t i h.0 g, h.1, h.2, h.3, h.4, h.5, h.6, h.7)
  rebase-IsPortable (thunk_of _ as_ ins e d ms ls s) i h g = (g, h.1, h.2, h.3, h.4, h.5, h.6, h.7)

  pub encapsulate-IsPortable : (t : Thunk) → IsPortable load t → IsPortable load (encapsulate t)
  unfolding encapsulate
  encapsulate-IsPortable (thunk_of i no_data ins e d ms ls s) h = h
  encapsulate-IsPortable (thunk_of i (datum v vs) ins e d ms ls s) h =
      (h, tt, tt, tt, h.4, tt, h.6, h.7)

  pub update-IsPortable :
      (f : Settings → Settings) (t : Thunk)
      → ((s : Settings) → PortsFit s.ports → PortsFit (f s).ports)
      → IsPortable load t
      → IsPortable load (update f t)
  update-IsPortable f (thunk_of i as_ ins e d ms ls s) k h =
      (h.0, h.1, h.2, h.3, h.4, h.5, h.6, k s h.7)

  pub mounts_portable :
      (ms : Mounts) (source : ThunkMountSource) (target : FileOrDirPath)
      → ArePortableMounts load ms
      → IsPortableSource load source
      → ArePortableMounts load (append_mount ms source target)
  mounts_portable no_mounts source target h g = (g, tt)
  mounts_portable (mount s t rest) source target h g =
      (h.0, mounts_portable rest source target h.1 g)

  pub ports_fit :
      (ps : List ThunkPort) (p : ThunkPort)
      → PortsFit ps
      → Fits (2 ^ 31) p.port
      → PortsFit (ps ++ p ∷ [])
  ports_fit [] p h g = (g, tt)
  ports_fit (q ∷ ps) p h g = (h.0, ports_fit ps p h.1 g)

  bound_set :
      (k : Text) (v : Datum) (bs : Bindings)
      → AreBound load bs
      → IsPortableValue load v
      → AreBound load (set_binding k v bs)
  unfolding set_binding
  bound_set k v no_bindings h g = (g, tt)
  bound_set k v (binding j w bs) h g = elim (Bool-cases (text_eq j k)) [
    | inl same ↦ rw same (g, h.1)
    | inr other ↦ rw other (h.0, bound_set k v bs h.1 g)
  ]

  bound_append :
      (bs cs : Bindings) → AreBound load bs → AreBound load cs → AreBound load (append bs cs)
  bound_append no_bindings cs h g = g
  bound_append (binding k v bs) cs h g = (h.0, bound_append bs cs h.1 g)

  bound_without :
      (ks : List Text) (bs : Bindings) → AreBound load bs → AreBound load (without ks bs)
  unfolding without
  bound_without ks no_bindings h = tt
  bound_without ks (binding j w bs) h = elim (Bool-cases (contains j ks)) [
    | inl e ↦ rw e (bound_without ks bs h.1)
    | inr e ↦ rw e (h.0, bound_without ks bs h.1)
  ]

  scope_parts :
      (bs : Bindings) → IsPortableScope load (some_scope bs) → AreBound load bs × AllNew [] bs
  unfolding contains
  scope_parts no_bindings h = elim h [ ]
  scope_parts (binding k v bs) h = ((h.0, h.1), (refl, h.2))

  pub overlay_portable :
      (first second : Bindings)
      → IsPortableScope load (some_scope first)
      → IsPortableScope load (some_scope second)
      → IsPortableScope load (some_scope (overlay first second))
  unfolding overlay
  overlay_portable no_bindings second h g = elim h [ ]
  overlay_portable (binding k v bs) second h g =
      let (b, n) = scope_parts (binding k v bs) h in
      let (c, m) = scope_parts second g in
      (
        h.0,
        bound_append bs (without (k ∷ keys bs) second) h.1 (bound_without (k ∷ keys bs) second c),
        (AllNew-overlay (binding k v bs) second n m).1,
      )

  pub label_portable :
      (k : Text) (v : Datum) (bs : Bindings)
      → IsPortableScope load (some_scope bs)
      → IsPortableValue load v
      → IsPortableScope load (some_scope (set_binding k v bs))
  unfolding set_binding contains
  label_portable k v no_bindings h g = elim h [ ]
  label_portable k v (binding j w bs) h g = elim (Bool-cases (text_eq j k)) [
    | inl same ↦ rw same (g, h.1, h.2)
    | inr other ↦ rw other (
      h.0,
      bound_set k v bs h.1 g,
      AllNew-set_binding (j ∷ []) k v bs (ground (arith, other)) h.2,
    )
  ]
