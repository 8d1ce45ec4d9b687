-- ===== src/CommandLine/Files.antt =====
-- cmd/knode/main.go: what the commands do to the files.

use knode.Prelude.{
  ℕ, ◌≡◌, refl, ap, sym, ◌∙◌, Bool, true, false, ◌||◌, if◌then◌else◌, List, [], ◌∷◌, ok, arith, inl,
  inr,
}
use knode.Text.{Str, lit, str_eq}
use knode.Config.File.{
  FileSystem, write_sample, parent_dir, default_config_directory, default_config_file_mode,
}
use knode.Config.File.Laws.{starts_up, goes_up_later, goes_up}
use knode.Config.Sample.{sample_json}
use knode.CommandLine.FlagSet.{Parsed, parse_flags, Parsed-cases}
use knode.CommandLine.{
  World, BuildInfo, open_first, open_manager_menu, run_server, check_config, check_all_upstreams,
  create_sample, init_config, generate_keys, run_command, dispatch,
}

-- Which paths name a regular file, and what package os promises of its calls, devices aside. `Stat` sees
-- every file. `MkdirAll` keeps every file; and what it makes are new, empty directories, so that a
-- path without `..`, for whose directory it was called, names a file after it only if it did before.
-- (With `..`, a path such as `new/../file` may name a file only when `new` has been made.) `WriteFile`
-- touches no file but the one that it is given, if there is one.
pub record FileLaws (fs : FileSystem) : Type 0 where
  pub is_file : fs.State → Str → Bool
  pub exists-file : (s : fs.State) (path : Str) → fs.exists s path ≡ false → is_file s path ≡ false
  pub is_file-mkdir_all :
      (s : fs.State) (dir path : Str) (mode : ℕ)
      → is_file s path ≡ true
      → is_file (fs.mkdir_all s dir mode).0 path ≡ true
  pub is_file-mkdir_parent :
      (s : fs.State) (path : Str) (mode : ℕ)
      → goes_up path ≡ false
      → is_file s path ≡ false
      → is_file (fs.mkdir_all s (parent_dir path) mode).0 path ≡ false
  pub read_file-mkdir_all :
      (s : fs.State) (dir path : Str) (mode : ℕ)
      → is_file s path ≡ true
      → fs.read_file (fs.mkdir_all s dir mode).0 path ≡ fs.read_file s path
  pub read_file-write_new :
      (s : fs.State) (new path text : Str) (mode : ℕ)
      → is_file s new ≡ false
      → is_file s path ≡ true
      → fs.read_file (fs.write_file s new text mode).0 path ≡ fs.read_file s path
  pub read_file-write_file :
      (s : fs.State) (path text : Str) (mode : ℕ)
      → (fs.write_file s path text mode).1 ≡ ok tt
      → fs.read_file (fs.write_file s path text mode).0 path ≡ ok text

-- The path of a parsed flag set; none when the parser ends the program.
abbrev pub path_of : Parsed → Str
path_of (Parsed.exits code) = []
path_of (Parsed.parsed flags) = flags.config

-- The path at which `init` with these arguments would write.
abbrev pub sample_path : List Str → Str
sample_path args = path_of (parse_flags false args)

-- The path at which the command line would write: only `init` does.
abbrev pub written_path : List Str → Str
written_path [] = []
written_path (arg ∷ args) =
    if str_eq arg (lit "init") || str_eq arg (lit "init-config") then sample_path args else []

module _ (w : World) (laws : FileLaws w.fs) where
  open w use {fs}
  open laws use {
    is_file, exists-file, is_file-mkdir_all, is_file-mkdir_parent, read_file-mkdir_all,
    read_file-write_new,
  }

  -- A file is as before.
  abbrev Keeps : fs.State → Str → fs.State → Type 0
  Keeps s path s' = fs.read_file s' path ≡ fs.read_file s path

  open_first-state : (s : fs.State) (paths : List Str) → (open_first w s paths).state ≡ s
  unfolding open_first
  open_first-state s [] = refl
  open_first-state s (path ∷ paths) = ground (arith, open_first-state s paths)

  run_server-state :
      (build : BuildInfo) (s : fs.State) (args : List Str) → (run_server w build s args).state ≡ s
  unfolding run_server
  run_server-state build s args = ground arith

  check_config-state : (s : fs.State) (args : List Str) → (check_config w s args).state ≡ s
  unfolding check_config
  check_config-state s args = ground arith

  check_all_upstreams-state :
      (s : fs.State) (args : List Str) → (check_all_upstreams w s args).state ≡ s
  unfolding check_all_upstreams
  check_all_upstreams-state s args = ground arith

  generate_keys-state : (s : fs.State) → (generate_keys w s).state ≡ s
  unfolding generate_keys
  generate_keys-state s = ground arith

  write_sample-Keeps :
      (s : fs.State) (new path : Str)
      → goes_up new ≡ false
      → fs.exists s new ≡ false
      → is_file s path ≡ true
      → Keeps s path (write_sample fs s new).0
  unfolding write_sample
  write_sample-Keeps s new path plain absent file = ground (
    arith,
    exists-file s new,
    is_file-mkdir_parent s new default_config_directory,
    is_file-mkdir_all s (parent_dir new) path default_config_directory,
    read_file-mkdir_all s (parent_dir new) path default_config_directory,
    read_file-write_new (fs.mkdir_all s (parent_dir new) default_config_directory).0 new path
        sample_json default_config_file_mode,
  )

  create_sample-Keeps :
      (s : fs.State) (new path : Str)
      → goes_up new ≡ false
      → is_file s path ≡ true
      → Keeps s path (create_sample w s new).state
  unfolding create_sample
  create_sample-Keeps s new path plain file = ground (arith, write_sample-Keeps s new path)

  init_config-Keeps :
      (s : fs.State) (args : List Str) (path : Str)
      → goes_up (sample_path args) ≡ false
      → is_file s path ≡ true
      → Keeps s path (init_config w s args).state
  unfolding init_config
  init_config-Keeps s args path plain file = elim (Parsed-cases (parse_flags false args)) [
    | inl (code, e) ↦ rw (e, init_config) refl
    | inr (flags, e) ↦
        rw (e, init_config)
          (create_sample-Keeps s flags.config path (ap (λ x. goes_up (path_of x)) (sym e) ∙ plain)
            file)
  ]

  run_command-Keeps :
      (build : BuildInfo) (s : fs.State) (command : Str) (args : List Str) (path : Str)
      → goes_up (written_path (command ∷ args)) ≡ false
      → is_file s path ≡ true
      → Keeps s path (run_command w build s command args).state
  unfolding run_command open_manager_menu
  run_command-Keeps build s command args path plain file = ground (
    arith,
    run_server-state build s args,
    check_config-state s args,
    check_all_upstreams-state s args,
    generate_keys-state s,
    init_config-Keeps s args path,
    open_first-state s (w.manager_path ∷ (lit "/usr/local/bin/knode-manager" ∷ [])),
  )

  -- No command changes a file that exists: not even `init`, with any arguments and whether it succeeds
  -- or fails, if the path that it is given has no element `..`, between slashes or backslashes. This is
  -- about knode itself, not about the manager that the menu runs.
  pub dispatch-keeps_files :
      (build : BuildInfo) (s : fs.State) (args : List Str) (path : Str)
      → goes_up (written_path args) ≡ false
      → is_file s path ≡ true
      → fs.read_file (dispatch w build s args).state path ≡ fs.read_file s path
  unfolding dispatch open_manager_menu str_eq goes_up goes_up_later starts_up
  dispatch-keeps_files build s [] path plain file =
      ap (λ t. fs.read_file t path)
        (open_first-state s (w.manager_path ∷ (lit "/usr/local/bin/knode-manager" ∷ [])))
  dispatch-keeps_files build s (arg ∷ args) path plain file = ground (
    arith,
    run_command-Keeps build s (lit "run") (arg ∷ args) path refl file,
    run_command-Keeps build s arg args path plain file,
  )
