-- ===== src/Command/Mounted.antt =====
-- The mounts of a command (pkg/runtimes/command.go): what resolving a value adds to them.
use bass.Prelude.{Text, [], ◌∷◌, refl, ok}
use bass.Proto.HostPaths.{FileOrDirPath}
use bass.Thunk.Types.{
  Datum, secret, list, file_path, dir_path, command_path, host_path, cache_path, fs_path,
  thunk_path, thunk_addr, annotated, Data, no_data, datum, path_of, ThunkAddr, addr_of,
  ThunkMountSource, thunk_source, host_source, fs_source, cache_source,
}
use bass.Thunk.Marshal.{marshal_thunk}
use bass.Thunk.Plain.{decode_string}
use bass.Thunk.Render.{render}
use bass.Command.Places.{new_dir_path, extend_place, from_slash, rel}
use bass.Command.Needed.{place_below, value_mounts, concat_mounts, arg_mounts, args_mounts}
use bass.Command.Resolve.{
  Command, not_started, no_port, not_text, unended, find_port, Maker, mount_place, mount_thunk_path,
  mount_host_path, mount_cache_path, mount_fs_path, reveal, start_addr, resolve_place,
  resolve_value, resolve_text, resolve_concat, resolve_str, resolve_args,
}
use bass.Command.Adds.{
  Adds-none, Adds-add_mount, Ends, Ends-chain, Ends-last, Ends-lifted, Ends-lifted_none,
  Ends-option, MayEnd, Ends-or_else, Ends-string_or, Ends-pure,
}

module _ (maker : Maker) where
  mount_place-Ends :
      (source : ThunkMountSource) (hash : Text) (p : FileOrDirPath) (cmd : Command)
      → Ends (place_below maker source hash p ∷ []) cmd (mount_place maker source hash p cmd)
  unfolding mount_place
  mount_place-Ends source hash p cmd =
      let place = extend_place (new_dir_path hash) p in
      Ends-option (place_below maker source hash p ∷ []) cmd (rel maker.fuel cmd.workdir place)
        unended _ (λ s. Adds-add_mount source (from_slash place) cmd)

  start_addr-Ends : (a : ThunkAddr) (cmd : Command) → Ends [] cmd (start_addr maker a cmd)
  unfolding start_addr
  start_addr-Ends (addr_of t port format) cmd =
      Ends-option [] cmd (maker.start t) not_started _ (λ ports.
        Ends-option [] cmd (find_port port ports) no_port _
          (λ info. Ends-lifted_none (render format info) _ cmd (λ s. Adds-none cmd)))

  resolve_place_ends :
      (v : Datum) (cmd : Command) → MayEnd (value_mounts maker v) cmd (resolve_place maker v cmd)
  unfolding resolve_place mount_thunk_path mount_host_path mount_cache_path mount_fs_path
  resolve_place_ends (file_path p) cmd = Adds-none cmd
  resolve_place_ends (dir_path p) cmd = Adds-none cmd
  resolve_place_ends (command_path c) cmd = Adds-none cmd
  resolve_place_ends (thunk_path (path_of t p)) cmd =
      let source = thunk_source (path_of t p) in
      Ends-lifted (λ m. place_below maker source (maker.hash_thunk m) p ∷ []) cmd (marshal_thunk t)
        _ (λ m. mount_place-Ends source (maker.hash_thunk m) p cmd)
  resolve_place_ends (host_path p) cmd =
      mount_place-Ends (host_source p) (maker.hash_text p.context_dir) p.path cmd
  resolve_place_ends (cache_path p) cmd =
      mount_place-Ends (cache_source p) (maker.hash_text p.id) p.path cmd
  resolve_place_ends (fs_path p) cmd =
      Ends-lifted (λ hash. place_below maker (fs_source p) hash (maker.place_fs p) ∷ []) cmd
        (maker.hash_fs p) _ (λ hash. mount_place-Ends (fs_source p) hash (maker.place_fs p) cmd)
  resolve_place_ends (secret s) cmd = Ends-pure (reveal maker s) cmd
  resolve_place_ends (thunk_addr a) cmd = start_addr-Ends a cmd
  resolve_place_ends (annotated v) cmd = resolve_place_ends v cmd
  resolve_place_ends _ cmd = refl

  pub resolve_text-Ends :
      (v : Datum) (cmd : Command) → Ends (value_mounts maker v) cmd (resolve_text maker v cmd)
  unfolding resolve_text
  resolve_text-Ends v cmd =
      Ends-or_else (value_mounts maker v) cmd (resolve_place maker v cmd) _
        (resolve_place_ends v cmd)
        (Ends-option [] cmd (decode_string v) not_text _ (λ s. Adds-none cmd))

  pub resolve_value-Ends :
      (v : Datum) (cmd : Command) → Ends (value_mounts maker v) cmd (resolve_value maker v cmd)
  unfolding resolve_value
  resolve_value-Ends v cmd =
      Ends-string_or (value_mounts maker v) cmd (resolve_place maker v cmd) (ok (v, cmd))
        (resolve_place_ends v cmd) (Adds-none cmd)

  resolve_concat-Ends :
      (vs : Data) (cmd : Command) → Ends (concat_mounts maker vs) cmd (resolve_concat maker vs cmd)
  unfolding resolve_concat
  resolve_concat-Ends no_data cmd = Adds-none cmd
  resolve_concat-Ends (datum v vs) cmd =
      Ends-chain (value_mounts maker v) (concat_mounts maker vs) cmd (resolve_text maker v cmd) _
        (resolve_text-Ends v cmd)
        (λ s cmd'.
          Ends-last (concat_mounts maker vs) cmd' (resolve_concat maker vs cmd') _
            (resolve_concat-Ends vs cmd') (λ rest cmd''. Adds-none cmd''))

  pub resolve_str-Ends :
      (v : Datum) (cmd : Command) → Ends (arg_mounts maker v) cmd (resolve_str maker v cmd)
  unfolding resolve_str
  resolve_str-Ends (list vs) cmd = resolve_concat-Ends vs cmd
  resolve_str-Ends (annotated v) cmd = resolve_str-Ends v cmd
  resolve_str-Ends v cmd = resolve_text-Ends v cmd

  pub resolve_args-Ends :
      (vs : Data) (cmd : Command) → Ends (args_mounts maker vs) cmd (resolve_args maker vs cmd)
  unfolding resolve_args
  resolve_args-Ends no_data cmd = Adds-none cmd
  resolve_args-Ends (datum v vs) cmd =
      Ends-chain (arg_mounts maker v) (args_mounts maker vs) cmd (resolve_str maker v cmd) _
        (resolve_str-Ends v cmd)
        (λ s cmd'.
          Ends-last (args_mounts maker vs) cmd' (resolve_args maker vs cmd') _
            (resolve_args-Ends vs cmd') (λ rest cmd''. Adds-none cmd''))
