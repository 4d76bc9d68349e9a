-- ===== src/Proto/HostPaths.antt =====
-- Paths into the host as messages: `HostPath.MarshalProto`, and `FromProto` with its `fod`.
use mathlib.Core.Path.{ap₂}
use bass.Prelude.{Text, List, [], ◌≡◌, ◌↔◌, refl, ap, sym}
use bass.Value.{DirPath}

pub data FileOrDirPath : Type 0 where
  file : Text → FileOrDirPath
  dir : DirPath → FileOrDirPath

pub record HostPath : Type 0 where
  pub context_dir : Text
  pub path : FileOrDirPath

-- The message has the same fields; a file or directory is marshalled whole.
pub record HostMessage : Type 0 where
  pub context : Text
  pub path : FileOrDirPath

unfoldable pub marshal_host : HostPath → HostMessage
marshal_host p = record { context = p.context_dir; path = p.path }

unfoldable pub fod : FileOrDirPath → FileOrDirPath
fod (dir p) = dir (record { path = p.path; include = []; exclude = [] })
fod (file p) = file p

unfoldable pub from_host : HostMessage → HostPath
from_host m = record { context_dir = m.context; path = fod m.path }

abbrev pub HasNoGlobs : FileOrDirPath → Type 0
HasNoGlobs (file p) = Unit
HasNoGlobs (dir p) = (p.include ≡ []) × (p.exclude ≡ [])

abbrev include_of : FileOrDirPath → List Text
include_of (file p) = []
include_of (dir p) = p.include

abbrev exclude_of : FileOrDirPath → List Text
exclude_of (file p) = []
exclude_of (dir p) = p.exclude

-- A path into the host comes back from its message only if it has no globs: the patterns that a
-- directory includes and excludes are lost.
pub from_host-marshal_host : (p : HostPath) → (from_host (marshal_host p) ≡ p) ↔ HasNoGlobs p.path
unfolding from_host marshal_host fod
from_host-marshal_host p = at p.context_dir p.path
  where
    host : Text → FileOrDirPath → HostPath
    host c q = record { context_dir = c; path = q }

    at : (c : Text) (q : FileOrDirPath) → (host c (fod q) ≡ host c q) ↔ HasNoGlobs q
    at c (file q) = (λ h. tt, λ h. refl)
    at c (dir q) = (
      λ h. (sym (ap (λ r. include_of r.path) h), sym (ap (λ r. exclude_of r.path) h)),
      λ h. ap (host c) (
          ap₂ (λ i e. dir (record { path = q.path; include = i; exclude = e })) (sym h.0)
            (sym h.1)),
    )
