-- ===== src/CommandLine/Root.antt =====
-- cmd/knode/main.go and internal/config/config.go: `knode init` for a path of the form `/name`.
use knode.Prelude.{◌≡◌, ap, ◌∙◌, false, [], ◌∷◌, ◌++◌, All, Error, err}
use knode.Text.{Str, lit, str_eq, has_prefix}
use knode.Config.File.{write_sample, parent_dir, default_config_directory}
use knode.Config.File.Laws.{IsNameChar, parent_dir-append}
use knode.CommandLine.{
  World, BuildInfo, create_sample, init_config, run_command, dispatch, ends, with_flags,
}
use knode.CommandLine.FlagSet.Spellings.{Spelling, spelled}
use knode.CommandLine.Serve.{parse_flags-spelled}

module _ (w : World) where
  open w use {fs}

  write_sample-fails :
      (s : fs.State) (name : Str) {e : Error}
      → All IsNameChar name
      → fs.mkdir_all s [] default_config_directory ≡ (s, err e)
      → write_sample fs s (lit "/" ++ name) ≡ (s, err e)
  unfolding write_sample
  write_sample-fails s name {e} plain fails =
      let made : fs.mkdir_all s (parent_dir (lit "/" ++ name)) default_config_directory
          ≡ fs.mkdir_all s [] default_config_directory =
        ap (λ d. fs.mkdir_all s d default_config_directory) (parent_dir-append [] name plain).0 in
      rw (made, fails, write_sample) (ap (λ m. (m.0, err e)) (made ∙ fails))

  -- `knode init` does not create a missing file that is given as `/name`, a slash and a name with no
  -- further separator, in any spelling of the flag: `parentDir` gives the empty path for it, and where
  -- `MkdirAll` fails for the empty path and changes nothing, the command fails with its error, without
  -- a write to the file. (Another path to the same file, such as `//name`, has another parent.)
  pub init-fails_at_root :
      (build : BuildInfo) (s : fs.State) (way : Spelling) (name : Str) {e : Error}
      → All IsNameChar name
      → fs.mkdir_all s [] default_config_directory ≡ (s, err e)
      → fs.exists s (lit "/" ++ name) ≡ false
      → dispatch w build s (lit "init" ∷ spelled way (lit "/" ++ name) []) ≡ ends s [] (err e)
  unfolding dispatch run_command init_config create_sample str_eq has_prefix
  init-fails_at_root build s way name {e} plain fails absent =
      let failed = write_sample-fails s name plain fails in
      rw (parse_flags-spelled false way (lit "/" ++ name), with_flags)
        (rw (absent, failed) (ap (λ m. ends m.0 [] (err e)) failed))
