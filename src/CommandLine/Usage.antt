-- ===== src/CommandLine/Usage.antt =====
-- cmd/knode/main.go: when the usage is printed.
use mathlib.Core.Path.{subst}
use knode.Prelude.{
  ◌≡◌, ◌⊎◌, refl, ◌∙◌, sym, Bool, true, false, ◌||◌, List, [], ◌∷◌, arith, Bool-cases, inl, inr,
}
use knode.Text.{Str, lit, str_eq, has_prefix}
use knode.Text.Equality.{str_eq_iff, str_eq_cases}
use knode.CommandLine.{
  World, BuildInfo, Output, open_first, open_manager_menu, run_server, check_config,
  check_all_upstreams, create_sample, init_config, generate_keys, run_command, dispatch,
}

-- The usage is among the outputs.
abbrev pub has_usage : List Output → Bool
has_usage [] = false
has_usage (Output.usage ∷ out) = true
has_usage (Output.version_line build ∷ out) = has_usage out
has_usage (Output.config_ok ∷ out) = has_usage out
has_usage (Output.created path ∷ out) = has_usage out
has_usage (Output.keys public private secret ∷ out) = has_usage out

-- The first argument is the word `help`.
abbrev pub asks_help : List Str → Bool
asks_help [] = false
asks_help (arg ∷ args) = str_eq arg (lit "help")

module _ (w : World) where
  open w use {fs}

  open_first-usage :
      (s : fs.State) (paths : List Str) → has_usage (open_first w s paths).output ≡ false
  unfolding open_first
  open_first-usage s [] = refl
  open_first-usage s (path ∷ paths) = ground (arith, open_first-usage s paths)

  open_manager_menu-usage : (s : fs.State) → has_usage (open_manager_menu w s).output ≡ false
  unfolding open_manager_menu
  open_manager_menu-usage s = open_first-usage s _

  run_server-usage :
      (build : BuildInfo) (s : fs.State) (args : List Str)
      → has_usage (run_server w build s args).output ≡ false
  unfolding run_server
  run_server-usage build s args = ground arith

  check_config-usage :
      (s : fs.State) (args : List Str) → has_usage (check_config w s args).output ≡ false
  unfolding check_config
  check_config-usage s args = ground arith

  check_all_upstreams-usage :
      (s : fs.State) (args : List Str) → has_usage (check_all_upstreams w s args).output ≡ false
  unfolding check_all_upstreams
  check_all_upstreams-usage s args = ground arith

  init_config-usage :
      (s : fs.State) (args : List Str) → has_usage (init_config w s args).output ≡ false
  unfolding init_config create_sample
  init_config-usage s args = ground arith

  generate_keys-usage : (s : fs.State) → has_usage (generate_keys w s).output ≡ false
  unfolding generate_keys
  generate_keys-usage s = ground arith

  abbrev is_help : Str → Bool
  is_help command =
      str_eq command (lit "help") || (str_eq command (lit "-h") || str_eq command (lit "--help"))

  help-cases :
      (command : Str)
      → is_help command ≡ true
      → (command ≡ lit "help") ⊎ ((command ≡ lit "-h") ⊎ (command ≡ lit "--help"))
  help-cases command h = elim (str_eq_cases command (lit "help")) [
    | inl (e, word) ↦ inl word
    | inr (e, n) ↦ elim (str_eq_cases command (lit "-h")) [
      | inl (d, short) ↦ inr (inl short)
      | inr (d, n') ↦ inr (inr ((str_eq_iff command (lit "--help")).0 (ground arith)))
    ]
  ]

  PrintsUsage : BuildInfo → fs.State → List Str → Str → Type 0
  PrintsUsage build s args command =
      has_usage (run_command w build s command args).output ≡ is_help command

  help-PrintsUsage :
      (build : BuildInfo) (s : fs.State) (args : List Str)
      → PrintsUsage build s args (lit "help")
        × PrintsUsage build s args (lit "-h")
        × PrintsUsage build s args (lit "--help")
  unfolding PrintsUsage run_command str_eq
  help-PrintsUsage build s args = (refl, refl, refl)

  run_command-PrintsUsage :
      (build : BuildInfo) (s : fs.State) (command : Str) (args : List Str)
      → PrintsUsage build s args command
  unfolding PrintsUsage run_command
  run_command-PrintsUsage build s command args = elim (Bool-cases (is_help command)) [
    | inl help ↦
        let (word, short, long) = help-PrintsUsage build s args in
        let P = PrintsUsage build s args in
        elim (help-cases command help) [
          | inl e ↦ subst P (sym e) word
          | inr (inl e) ↦ subst P (sym e) short
          | inr (inr e) ↦ subst P (sym e) long
        ]
    | inr other ↦ ground (
      arith,
      run_server-usage build s args,
      check_config-usage s args,
      check_all_upstreams-usage s args,
      init_config-usage s args,
      generate_keys-usage s,
      open_manager_menu-usage s,
    )
  ]

  run_command-usage :
      (build : BuildInfo) (s : fs.State) (command : Str) (args : List Str)
      → has_usage (run_command w build s command args).output ≡ is_help command
  unfolding PrintsUsage
  run_command-usage build s command args = run_command-PrintsUsage build s command args

  -- An argument that begins with a dash is no name of a command.
  dash-is_help :
      (arg : Str) → has_prefix arg (lit "-") ≡ false → is_help arg ≡ str_eq arg (lit "help")
  unfolding has_prefix str_eq
  dash-is_help [] h = refl
  dash-is_help (c ∷ arg) h = ground arith

  dash-help :
      (arg : Str) → has_prefix arg (lit "-") ≡ true → str_eq arg (lit "help") ≡ is_help (lit "run")
  unfolding has_prefix str_eq
  dash-help [] h = refl
  dash-help (c ∷ arg) h = ground arith

  -- The usage is printed for the command `help`, whatever follows it, and for nothing else: not for
  -- `-h` and `--help`, which the `switch` of the commands names too.
  pub has_usage-dispatch :
      (build : BuildInfo) (s : fs.State) (args : List Str)
      → has_usage (dispatch w build s args).output ≡ asks_help args
  unfolding dispatch
  has_usage-dispatch build s [] = open_manager_menu-usage s
  has_usage-dispatch build s (arg ∷ args) = elim (Bool-cases (has_prefix arg (lit "-"))) [
    | inl dash ↦
        rw (dash, dispatch)
          (run_command-usage build s (lit "run") (arg ∷ args) ∙ sym (dash-help arg dash))
    | inr plain ↦ rw (plain, dispatch) (run_command-usage build s arg args ∙ dash-is_help arg plain)
  ]
