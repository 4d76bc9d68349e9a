-- ===== src/Command/Made.antt =====
-- What `NewCommand` of pkg/runtimes/command.go mounts.
use mathlib.Core.Path.{subst}
use bass.Prelude.{
  Text, Bool, true, false, Option, none, some, List, [], ◌++◌, ap, ◌≡◌, Result, ok, err, ◌>>=◌,
}
use bass.Thunk.Types.{
  Secret, Datum, list, scope, dir_path, host_path, thunk_path, annotated, Data, no_data, datum,
  Bindings, no_bindings, binding, MaybeScope, no_scope, some_scope, Thunk, thunk_of, ThunkDir,
  no_dir, unset_dir, local_dir, thunk_dir, host_dir, Mounts,
}
use bass.Command.Resolve.{
  CommandMount, Command, Failed, Maker, resolve_text, resolve_str, resolve_args,
}
use bass.Command.Build.{
  is_null, as_secret, own_mounts, empty_command, resolve_deep, resolve_values, resolve_fields,
  set_workdir, set_env, set_scope_env, new_command,
}
use bass.Command.Needed.{
  value_mounts, arg_mounts, args_mounts, deep_mounts, stdin_mounts, field_mounts, env_mounts,
  scope_env_mounts, dir_mounts, thunk_mounts, targets, firsts, Unique, AllIn, firsts-Unique,
  firsts-AllIn,
}
use bass.Command.Adds.{Adds, Adds-none, Adds-trans, after, Ends, Ends-chain, Ends-last}
use bass.Command.Mounted.{
  resolve_text-Ends, resolve_value-Ends, resolve_str-Ends, resolve_args-Ends,
}

abbrev Holds : {A : Type 0} → (A → Type 0) → Result Failed A → Type 0
Holds P (ok a) = P a
Holds P (err e) = Unit

Holds-chain :
    {A B : Type 0} (P : A → Type 0) (Q : B → Type 0) (r : Result Failed A) (f : A → Result Failed B)
    → Holds P r
    → ((a : A) → P a → Holds Q (f a))
    → Holds Q (r >>= f)
Holds-chain P Q (err e) f h g = tt
Holds-chain P Q (ok a) f h g = g a h

Holds-of_Ends :
    {A : Type 0} (needed : List CommandMount) (cmd : Command) (r : Result Failed (A × Command))
    → Ends needed cmd r
    → Holds (λ p. Adds needed cmd p.1) r
Holds-of_Ends needed cmd (ok (x, cmd')) h = h
Holds-of_Ends needed cmd (err e) h = tt

Holds-extend :
    (xs ys : List CommandMount) (a b : Command) (r : Result Failed Command)
    → Adds xs a b
    → Holds (Adds ys b) r
    → Holds (Adds (xs ++ ys) a) r
Holds-extend xs ys a b (ok c) h g = Adds-trans xs ys a b c h g
Holds-extend xs ys a b (err e) h g = tt

Holds-if :
    (cmd : Command) (b : Bool) (xs ys : List CommandMount) (r r' : Result Failed Command)
    → Holds (Adds xs cmd) r
    → Holds (Adds ys cmd) r'
    → Holds (Adds (elim b [ true ↦ xs | false ↦ ys ]) cmd) (elim b [ true ↦ r | false ↦ r' ])
Holds-if cmd true xs ys r r' h g = h
Holds-if cmd false xs ys r r' h g = g

Holds-either :
    (cmd : Command) (o : Option Secret) (xs ys : List CommandMount)
    (f : Secret → Result Failed Command) (r : Result Failed Command)
    → Holds (Adds ys cmd) r
    → ((s : Secret) → Holds (Adds xs cmd) (f s))
    → Holds (Adds (elim o [ some s ↦ xs | none ↦ ys ]) cmd) (elim o [ some s ↦ f s | none ↦ r ])
Holds-either cmd none xs ys f r h g = h
Holds-either cmd (some s) xs ys f r h g = g s

abbrev pub mounts_of : Thunk → Mounts
mounts_of (thunk_of image args stdin env workdir mount_list labels settings) = mount_list

-- The mounts of a finished command: the first one at each place that the values need, each place once
-- and every place, and the thunk's own.
abbrev pub IsMade : Maker → Thunk → Command → Type 0
IsMade maker t cmd =
    let needed = thunk_mounts maker t in
    (cmd.mounts ≡ firsts [] needed ++ own_mounts (mounts_of t))
    × Unique (targets (firsts [] needed))
    × AllIn needed (targets (firsts [] needed))

module _ (maker : Maker) where
  mutual
    unfolding resolve_deep

    deep-Ends :
        (v outer : Datum) (cmd : Command)
        → Ends (deep_mounts maker v outer) cmd (resolve_deep maker v outer cmd)
    deep-Ends (list vs) outer cmd =
        Ends-last (stdin_mounts maker vs) cmd (resolve_values maker vs cmd) _ (values-Ends vs cmd)
          (λ ws cmd'. Adds-none cmd')
    deep-Ends (scope bs) outer cmd =
        Ends-last (field_mounts maker bs) cmd (resolve_fields maker bs bs cmd) _
          (fields-Ends bs bs cmd) (λ cs cmd'. Adds-none cmd')
    deep-Ends (annotated v) outer cmd = deep-Ends v outer cmd
    deep-Ends _ outer cmd = resolve_value-Ends maker outer cmd

    values-Ends :
        (vs : Data) (cmd : Command) → Ends (stdin_mounts maker vs) cmd (resolve_values maker vs cmd)
    values-Ends no_data cmd = Adds-none cmd
    values-Ends (datum v vs) cmd =
        Ends-chain (deep_mounts maker v v) (stdin_mounts maker vs) cmd (resolve_deep maker v v cmd)
          _ (deep-Ends v v cmd)
          (λ w cmd'.
            Ends-last (stdin_mounts maker vs) cmd' (resolve_values maker vs cmd') _
              (values-Ends vs cmd') (λ ws cmd''. Adds-none cmd''))

    fields-Ends :
        (bs copy : Bindings) (cmd : Command)
        → Ends (field_mounts maker bs) cmd (resolve_fields maker bs copy cmd)
    fields-Ends no_bindings copy cmd = Adds-none cmd
    fields-Ends (binding k v bs) copy cmd =
        Ends-chain (deep_mounts maker v v) (field_mounts maker bs) cmd (resolve_deep maker v v cmd)
          _ (deep-Ends v v cmd) (λ w cmd'. fields-Ends bs _ cmd')

  env_str :
      (v : Datum) (bs : Bindings) (cmd : Command) (f : Text × Command → Result Failed Command)
      → ((s : Text) (cmd' : Command) → Holds (Adds (env_mounts maker bs) cmd') (f (s, cmd')))
      → Holds (Adds (arg_mounts maker v ++ env_mounts maker bs) cmd) (resolve_str maker v cmd >>= f)
  env_str v bs cmd f h =
      Holds-chain (λ p. Adds (arg_mounts maker v) cmd p.1) _ (resolve_str maker v cmd) f
        (Holds-of_Ends (arg_mounts maker v) cmd _ (resolve_str-Ends maker v cmd))
        (λ p g. Holds-extend (arg_mounts maker v) (env_mounts maker bs) cmd p.1 (f p) g (h p.0 p.1))

  env-Holds :
      (bs : Bindings) (cmd : Command)
      → Holds (Adds (env_mounts maker bs) cmd) (set_env maker bs cmd)
  unfolding set_env
  env-Holds no_bindings cmd = Adds-none cmd
  env-Holds (binding k v bs) cmd = Holds-if cmd (is_null v) _ _ _ _ (env-Holds bs cmd) (
      Holds-either cmd (as_secret v) _ _ _ _ (env_str v bs cmd _ (λ s cmd'. env-Holds bs _))
        (λ s. env-Holds bs _))

  dir_text :
      (v : Datum) (cmd : Command)
      → Holds
          (Adds (value_mounts maker v) cmd)
          (resolve_text maker v cmd >>= λ (cwd, cmd'). ok (record cmd' { workdir = some cwd }))
  dir_text v cmd =
      Holds-chain (λ p. Adds (value_mounts maker v) cmd p.1) _ (resolve_text maker v cmd) _
        (Holds-of_Ends (value_mounts maker v) cmd _ (resolve_text-Ends maker v cmd)) (λ p h. h)

  workdir-Holds :
      (d : ThunkDir) (cmd : Command)
      → Holds (Adds (dir_mounts maker d) cmd) (set_workdir maker d cmd)
  unfolding set_workdir
  workdir-Holds no_dir cmd = Adds-none cmd
  workdir-Holds unset_dir cmd = tt
  workdir-Holds (local_dir p) cmd = dir_text (dir_path p) cmd
  workdir-Holds (thunk_dir p) cmd = dir_text (thunk_path p) cmd
  workdir-Holds (host_dir p) cmd = dir_text (host_path p) cmd

  scope_env-Holds :
      (s : MaybeScope) (cmd : Command)
      → Holds (Adds (scope_env_mounts maker s) cmd) (set_scope_env maker s cmd)
  unfolding set_scope_env
  scope_env-Holds no_scope cmd = Adds-none cmd
  scope_env-Holds (some_scope bs) cmd =
      Holds-chain (Adds (env_mounts maker bs) cmd) _ (set_env maker bs cmd) _ (env-Holds bs cmd)
        (λ c h. h)

  made : (t : Thunk) → Holds (IsMade maker t) (new_command maker t)
  unfolding new_command
  made (thunk_of image args stdin env workdir mount_list labels settings) =
      let d = dir_mounts maker workdir in
      let a = args_mounts maker args in
      let e = scope_env_mounts maker env in
      let i = stdin_mounts maker stdin in
      let start = empty_command in
      Holds-chain (Adds d start) _ (set_workdir maker workdir start) _ (workdir-Holds workdir start)
        (λ cmd h.
          Holds-chain (λ p. Adds (d ++ a) start p.1) _ (resolve_args maker args cmd) _
            (Holds-of_Ends (d ++ a) start _
              (after d a start cmd _ h (resolve_args-Ends maker args cmd)))
            (λ p h'.
              Holds-chain (Adds (d ++ a ++ e) start) _ (set_scope_env maker env _) _
                (Holds-extend (d ++ a) e start (record p.1 { args = p.0 }) _ h'
                  (scope_env-Holds env _))
                (λ cmd'' h''.
                  Holds-chain (λ q. Adds (d ++ a ++ e ++ i) start q.1) _
                    (resolve_values maker stdin cmd'') _
                    (Holds-of_Ends (d ++ a ++ e ++ i) start _
                      (after (d ++ a ++ e) i start cmd'' _ h'' (values-Ends stdin cmd'')))
                    (λ q last. (
                      ap (λ ms. ms ++ own_mounts mount_list) last.0,
                      firsts-Unique [] (d ++ a ++ e ++ i) tt,
                      firsts-AllIn [] (d ++ a ++ e ++ i),
                    )))))

  -- The mounts of a command are, in order, the first mount at each place that the values of the thunk
  -- need (those of the working directory, the arguments, the environment and standard input), and after
  -- them the mounts of the thunk itself. Each place that the values need is mounted, and none twice for
  -- them.
  pub new_command_mounts :
      (t : Thunk) (cmd : Command) → new_command maker t ≡ ok cmd → IsMade maker t cmd
  new_command_mounts t cmd e = subst (Holds (IsMade maker t)) e (made t)
