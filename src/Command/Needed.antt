-- ===== src/Command/Needed.antt =====
-- The mounts that the values of a thunk need, in the order in which `NewCommand` of
-- pkg/runtimes/command.go comes to the values.
use mathlib.Core.List.{append-nil}
use mathlib.Core.Path.{subst}
use bass.Prelude.{
  Text, text_eq, text_eq_refl, true, false, none, some, List, [], ◌∷◌, ◌++◌, ◌≡◌, refl, sym, ap,
  ◌∙◌, ok, err, arith, Bool-cases, inl, inr, append_assoc,
}
use bass.Scope.Each.{contains}
use bass.Proto.HostPaths.{FileOrDirPath}
use bass.Thunk.Types.{
  Datum, list, scope, host_path, cache_path, fs_path, thunk_path, annotated, Data, no_data, datum,
  Bindings, no_bindings, binding, MaybeScope, no_scope, some_scope, Thunk, thunk_of, path_of,
  ThunkDir, ThunkMountSource, thunk_source, host_source, fs_source, cache_source,
}
use bass.Thunk.Marshal.{marshal_thunk}
use bass.Thunk.Bindings.{contains-append}
use bass.Command.Places.{new_dir_path, extend_place, from_slash}
use bass.Command.Resolve.{CommandMount, Maker}
use bass.Command.Build.{dir_value, is_null, as_secret}

module _ (maker : Maker) where
  -- The place of a path below the directory of a hash.
  abbrev pub place_below : ThunkMountSource → Text → FileOrDirPath → CommandMount
  place_below source hash p = record {
    source = source;
    target = from_slash (extend_place (new_dir_path hash) p);
  }

  -- A path that is not on the command's own disk needs one mount.
  abbrev pub value_mounts : Datum → List CommandMount
  value_mounts (thunk_path (path_of t p)) = elim (marshal_thunk t) [
    | ok m ↦ place_below (thunk_source (path_of t p)) (maker.hash_thunk m) p ∷ []
    | err e ↦ []
  ]
  value_mounts (host_path p) =
      place_below (host_source p) (maker.hash_text p.context_dir) p.path ∷ []
  value_mounts (cache_path p) = place_below (cache_source p) (maker.hash_text p.id) p.path ∷ []
  value_mounts (fs_path p) = elim (maker.hash_fs p) [
    | ok hash ↦ place_below (fs_source p) hash (maker.place_fs p) ∷ []
    | err e ↦ []
  ]
  value_mounts (annotated v) = value_mounts v
  value_mounts _ = []

  abbrev pub concat_mounts : Data → List CommandMount
  concat_mounts no_data = []
  concat_mounts (datum v vs) = value_mounts v ++ concat_mounts vs

  -- An argument, or a list of values that makes one.
  abbrev pub arg_mounts : Datum → List CommandMount
  arg_mounts (list vs) = concat_mounts vs
  arg_mounts (annotated v) = arg_mounts v
  arg_mounts v = value_mounts v

  abbrev pub args_mounts : Data → List CommandMount
  args_mounts no_data = []
  args_mounts (datum v vs) = arg_mounts v ++ args_mounts vs

  -- Standard input, with all that is in its lists and scopes.
  abbrev mutual
    pub deep_mounts : Datum → Datum → List CommandMount
    deep_mounts (list vs) outer = stdin_mounts vs
    deep_mounts (scope bs) outer = field_mounts bs
    deep_mounts (annotated v) outer = deep_mounts v outer
    deep_mounts v outer = value_mounts outer

    pub stdin_mounts : Data → List CommandMount
    stdin_mounts no_data = []
    stdin_mounts (datum v vs) = deep_mounts v v ++ stdin_mounts vs

    pub field_mounts : Bindings → List CommandMount
    field_mounts no_bindings = []
    field_mounts (binding k v bs) = deep_mounts v v ++ field_mounts bs

  -- The environment, less its tombstones and secrets.
  abbrev pub env_mounts : Bindings → List CommandMount
  env_mounts no_bindings = []
  env_mounts (binding k v bs) = elim (is_null v) [
    | true ↦ env_mounts bs
    | false ↦ elim (as_secret v) [ some s ↦ env_mounts bs | none ↦ arg_mounts v ++ env_mounts bs ]
  ]

  abbrev pub scope_env_mounts : MaybeScope → List CommandMount
  scope_env_mounts no_scope = []
  scope_env_mounts (some_scope bs) = env_mounts bs

  abbrev pub dir_mounts : ThunkDir → List CommandMount
  dir_mounts d = elim (dir_value d) [ none ↦ [] | some v ↦ value_mounts v ]

  -- The working directory, the arguments, the environment and standard input.
  abbrev pub thunk_mounts : Thunk → List CommandMount
  thunk_mounts (thunk_of image args stdin env workdir mount_list labels settings) =
      dir_mounts workdir ++ args_mounts args ++ scope_env_mounts env ++ stdin_mounts stdin

abbrev pub targets : List CommandMount → List Text
targets [] = []
targets (m ∷ ms) = m.target ∷ targets ms

-- The first mount at each place that is not seen already.
unfoldable pub firsts : List Text → List CommandMount → List CommandMount
unfolding contains
firsts seen [] = []
firsts seen (m ∷ ms) = elim (contains m.target seen) [
  | true ↦ firsts seen ms
  | false ↦ m ∷ firsts (seen ++ m.target ∷ []) ms
]

pub targets-append : (ms ns : List CommandMount) → targets (ms ++ ns) ≡ targets ms ++ targets ns
targets-append [] ns = refl
targets-append (m ∷ ms) ns = ap (λ ts. m.target ∷ ts) (targets-append ms ns)

pub firsts-append :
    (seen : List Text) (ms ns : List CommandMount)
    → firsts seen (ms ++ ns) ≡ firsts seen ms ++ firsts (seen ++ targets (firsts seen ms)) ns
unfolding firsts
firsts-append seen [] ns = ap (λ s. firsts s ns) (sym (append-nil seen))
firsts-append seen (m ∷ ms) ns = elim (Bool-cases (contains m.target seen)) [
  | inl e ↦ rw (e, firsts) (firsts-append seen ms ns)
  | inr e ↦
      rw (e, firsts)
        (ap (λ l. m ∷ l)
          (firsts-append (seen ++ m.target ∷ []) ms ns
            ∙ ap (λ s. firsts (seen ++ m.target ∷ []) ms ++ firsts s ns)
                (append_assoc seen (m.target ∷ []) (targets (firsts (seen ++ m.target ∷ []) ms)))))
]

abbrev pub Unique : List Text → Type 0
Unique [] = Unit
Unique (t ∷ ts) = (contains t ts ≡ false) × Unique ts

-- Every mount's place is in the list.
abbrev pub AllIn : List CommandMount → List Text → Type 0
AllIn [] ts = Unit
AllIn (m ∷ ms) ts = (contains m.target ts ≡ true) × AllIn ms ts

text_eq_sym : (s t : Text) → text_eq s t ≡ text_eq t s
unfolding text_eq
text_eq_sym [] [] = refl
text_eq_sym [] (b ∷ t) = refl
text_eq_sym (a ∷ s) [] = refl
text_eq_sym (a ∷ s) (b ∷ t) = ground (arith, text_eq_sym s t)

Unique-snoc :
    (ts : List Text) (t : Text) → contains t ts ≡ false → Unique ts → Unique (ts ++ t ∷ [])
unfolding contains
Unique-snoc [] t h u = (refl, tt)
Unique-snoc (s ∷ ts) t h u = (
  ground (arith, h, u.0, contains-append s ts (t ∷ []), text_eq_sym s t),
  Unique-snoc ts t (ground (arith, h)) u.1,
)

-- No place is listed twice.
pub firsts-Unique :
    (seen : List Text) (ms : List CommandMount)
    → Unique seen
    → Unique (seen ++ targets (firsts seen ms))
unfolding firsts
firsts-Unique seen [] u = subst Unique (sym (append-nil seen)) u
firsts-Unique seen (m ∷ ms) u = elim (Bool-cases (contains m.target seen)) [
  | inl e ↦ rw (e, firsts) (firsts-Unique seen ms u)
  | inr e ↦
      let rest = targets (firsts (seen ++ m.target ∷ []) ms) in
      rw (e, firsts)
        (subst Unique (append_assoc seen (m.target ∷ []) rest)
          (firsts-Unique (seen ++ m.target ∷ []) ms (Unique-snoc seen m.target e u)))
]

contains_self : (t : Text) (ts : List Text) → contains t (t ∷ ts) ≡ true
unfolding contains
contains_self t ts = ground (arith, text_eq_refl t)

-- Every place is listed.
pub firsts-AllIn :
    (seen : List Text) (ms : List CommandMount) → AllIn ms (seen ++ targets (firsts seen ms))
unfolding firsts
firsts-AllIn seen [] = tt
firsts-AllIn seen (m ∷ ms) = elim (Bool-cases (contains m.target seen)) [
  | inl e ↦
      rw (e, firsts)
        (
          ground (arith, e, contains-append m.target seen (targets (firsts seen ms))),
          firsts-AllIn seen ms,
        )
  | inr e ↦
      let rest = targets (firsts (seen ++ m.target ∷ []) ms) in
      rw (e, firsts)
        (
          ground
              (arith, contains-append m.target seen (m.target ∷ rest), contains_self m.target rest),
          subst (AllIn ms) (append_assoc seen (m.target ∷ []) rest)
              (firsts-AllIn (seen ++ m.target ∷ []) ms),
        )
]
