-- ===== src/Thunk/PlainRoundTrip.antt =====
-- The parts of a thunk that hold no values of the language come back from their messages.
use mathlib.Core.Path.{ap₂}
use bass.Prelude.{
  split, Text, codes, text_eq, false, has_prefix, Option, none, some, List, [], ◌∷◌, ◌++◌, map, ◌≡◌,
  ◌≢◌, refl, sym, ap, ◌∙◌, ok, arith, Bool-cases, inl, inr,
}
use bass.Prelude.Words.{to_int32_of_Fits}
use bass.Path.Clean.{clean, push_elements, push_element}
use bass.Proto.HostPaths.{FileOrDirPath, file, dir, HostPath, HasNoGlobs}
use bass.Thunk.Bindings.{
  keys, append, AllNew, set_binding_new, append_assoc_binding, append_nothing, AllNew-snoc,
}
use bass.Thunk.Types.{
  CachePath, Platform, ThunkPort, ThunkTls, Settings, string, Bindings, no_bindings, binding,
  MaybeScope, no_scope, some_scope,
}
use bass.Thunk.Wire.{BuildArg, file}
use bass.Thunk.Plain.{
  marshal_path, marshal_host_path, marshal_cache_path, marshal_platform, unless_empty, clarify_path,
  clarify_option, marshal_build_args, marshal_args, marshal_port, marshal_tls, marshal_settings,
  or_empty, unmarshal_path, unmarshal_host_path, unmarshal_cache_path, fod, unmarshal_platform,
  unmarshal_port, unmarshal_tls, unmarshal_settings, set_build_args, unmarshal_dockerfile,
}
use bass.Thunk.Portable.{
  IsPortablePlatform, IsPortableCachePath, PortsFit, IsCleanFile, AllStrings, ArePortableArgs,
}

pub unmarshal_path-marshal_path : (p : FileOrDirPath) → unmarshal_path (marshal_path p) ≡ ok p
unfolding unmarshal_path marshal_path
unmarshal_path-marshal_path (file p) = refl
unmarshal_path-marshal_path (dir p) = refl

pub unmarshal_host_path-marshal_host_path :
    (p : HostPath) → unmarshal_host_path (marshal_host_path p) ≡ ok p
unfolding unmarshal_host_path marshal_host_path
unmarshal_host_path-marshal_host_path p = simp (unmarshal_path-marshal_path p.path)

pub unmarshal_cache_path-marshal_cache_path :
    (p : CachePath) → IsPortableCachePath p → unmarshal_cache_path (marshal_cache_path p) ≡ ok p
unfolding unmarshal_cache_path marshal_cache_path
unmarshal_cache_path-marshal_cache_path p h =
    simp (unmarshal_path-marshal_path p.path, to_int32_of_Fits p.concurrency_mode h)

pub fod-marshal_path : (p : FileOrDirPath) → HasNoGlobs p → fod (marshal_path p) ≡ p
unfolding fod marshal_path
fod-marshal_path (file p) h = refl
fod-marshal_path (dir p) h =
    ap₂ (λ i e. dir (record { path = p.path; include = i; exclude = e })) (sym h.0) (sym h.1)

pub unmarshal_platform-marshal_platform :
    (p : Platform) → IsPortablePlatform p → unmarshal_platform (some (marshal_platform p)) ≡ ok p
unfolding unmarshal_platform marshal_platform
unmarshal_platform-marshal_platform p h = cc

pub or_empty-unless_empty : (s : Text) → or_empty (unless_empty s) ≡ s
or_empty-unless_empty [] = refl
or_empty-unless_empty (c ∷ s) = refl

ports_back : (ps : List ThunkPort) → PortsFit ps → map unmarshal_port (map marshal_port ps) ≡ ps
unfolding unmarshal_port marshal_port
ports_back [] h = refl
ports_back (p ∷ ps) h = simp (to_int32_of_Fits p.port h.0, ports_back ps h.1)

tls_back : (tls : Option ThunkTls) → unmarshal_tls (marshal_tls tls) ≡ ok tls
unfolding unmarshal_tls
tls_back none = refl
tls_back (some tls) = refl

pub unmarshal_settings-marshal_settings :
    (s : Settings) → PortsFit s.ports → unmarshal_settings (marshal_settings s) ≡ ok s
unfolding unmarshal_settings marshal_settings
unmarshal_settings-marshal_settings s h = simp (ports_back s.ports h, tls_back s.tls)

args_back :
    (bs cs : Bindings)
    → AllStrings cs
    → AllNew (keys bs) cs
    → (as_m : List BuildArg) × (marshal_build_args cs ≡ ok as_m)
      × (set_build_args as_m bs ≡ append bs cs)
unfolding marshal_build_args set_build_args
args_back bs no_bindings h n = ([], refl, sym (append_nothing bs))
args_back bs (binding k (string s) cs) h n =
    let (as_m, e, f) =
      args_back (append bs (binding k (string s) no_bindings)) cs h
        (AllNew-snoc bs k (string s) cs n.1) in
    (
      record { name = k; value = s } ∷ as_m,
      simp e,
      ap (set_build_args as_m) (set_binding_new k (string s) bs n.0)
          ∙ f
          ∙ append_assoc_binding bs k (string s) cs,
    )
args_back bs (binding k _ cs) h n = elim h [ ]

pub set_build_args-marshal_args :
    (args : MaybeScope)
    → ArePortableArgs args
    → (as_m : List BuildArg) × (marshal_args args ≡ ok as_m)
      × (some_scope (set_build_args as_m no_bindings) ≡ args)
set_build_args-marshal_args no_scope h = elim h [ ]
set_build_args-marshal_args (some_scope bs) h =
    let (as_m, e, f) = args_back no_bindings bs h.0 h.1 in (as_m, e, ap some_scope f)

clean_dotted : (p : Text) → has_prefix p (codes "/") ≡ false → clean (codes "./" ++ p) ≡ clean p
unfolding clean push_elements push_element has_prefix split text_eq
clean_dotted [] h = refl
clean_dotted (c ∷ p) h = ground (arith, h)

-- The name under which a file is sent is cleaned to the same path.
pub clean-clarify_path : (p : Text) → clean (clarify_path p) ≡ clean p
unfolding clarify_path
clean-clarify_path p = elim (Bool-cases (has_prefix p (codes "/"))) [
  | inl e ↦ simp e
  | inr e ↦ ground (arith, e, clean_dotted p e)
]

pub clarify_path_ne : (p : Text) → clarify_path p ≢ []
unfolding clarify_path has_prefix
clarify_path_ne [] = cc
clarify_path_ne (c ∷ p) = ground arith

pub dockerfile_back :
    (dockerfile : Option Text)
    → IsCleanFile dockerfile
    → unmarshal_dockerfile (clarify_option dockerfile) ≡ dockerfile
unfolding unmarshal_dockerfile
dockerfile_back none h = refl
dockerfile_back (some p) h = named (clarify_path p) (clarify_path_ne p) (clean-clarify_path p ∙ h)
  where
    named : (q : Text) → q ≢ [] → clean q ≡ p → unmarshal_dockerfile (some q) ≡ some p
    named [] n e = absurd (n refl)
    named (c ∷ q) n e = ap some e
