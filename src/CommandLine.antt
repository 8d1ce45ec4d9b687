-- ===== src/CommandLine.antt =====
-- cmd/knode/main.go: the commands. Signals, the terminal and the other packages outside the repository
-- are parameters.
pub mod FlagSet
pub mod Printing
pub mod Root
pub mod Init
pub mod Files
pub mod Usage
pub mod Serve
use knode.Prelude.{
  ℕ, true, false, not, ◌||◌, Option, none, some, List, [], ◌∷◌, Error, Result, ok, err, ◌>>=◌, ◌>>◌,
  if◌then◌else◌,
}
use knode.Text.{Str, lit, str_eq, has_prefix}
use knode.Base64.{Bytes}
use knode.Build.{set_build_info}
use knode.Check.{check_upstreams}
use knode.Config.{Config}
use knode.Config.File.{FileSystem, load, write_sample}
use knode.Config.System.{System}
use knode.Dialer.{Network}
use knode.Service.{new_service}
use knode.Service.Run.{Listen, Stop, run_service}
use FlagSet.{Flags, Parsed, parse_flags}

-- The variables that the build sets.
pub record BuildInfo : Type 0 where
  pub version : Str
  pub commit : Str
  pub date : Str

-- A line, or several, of the standard output.
pub data Output : Type 0 where
  version_line : BuildInfo → Output
  config_ok usage : Output
  created : Str → Output
  keys : Str → Str → Str → Output

-- What the program asks of the world: the files, the decoder of the configuration, the network, the
-- clock, `KNODE_MANAGER_PATH`, the run of a manager, kray's keys, the listeners and what ends `Run`.
pub record World : Type 1 where
  pub sys : System
  pub fs : FileSystem
  pub decode : Str → Result Config
  pub net : Network
  pub now : ℕ
  pub manager_path : Str
  pub run_manager : Str → Result (Unit {0})
  pub server_identity : Result (Bytes × Bytes)
  pub client_secret : Result Bytes
  pub encode_key : Bytes → Str
  pub listen : Listen
  pub stop : Stop
  pub finish : Option ℕ

-- A command returns, or ends the program by `os.Exit`.
pub data Ending : Type 0 where
  returned : Result (Unit {0}) → Ending
  exited : ℕ → Ending

-- A command, in the files that are left. `launched` is the manager that it ran.
pub record Outcome (S : Type 0) : Type 0 where
  pub ending : Ending
  pub output : List Output
  pub launched : Option Str
  pub state : S

unfoldable pub manager_missing : Error
manager_missing =
    Error.text
      "knode-manager not found; install or update it with: curl -fsSL https://raw.githubusercontent.com/kexue-aihao/Knode/master/install.sh | sudo bash -s -- update-script"

unfoldable pub service_result : Option Error → Result (Unit {0})
service_result none = ok tt
service_result (some e) = err e

module _ {S : Type 0} where
  -- A command that returns, in the files that it leaves.
  abbrev pub ends : S → List Output → Result (Unit {0}) → Outcome S
  ends s out r = record { ending = Ending.returned r; output = out; launched = none; state = s }

  -- A command with a flag set: its arguments may end the program.
  abbrev pub with_flags : S → Parsed → (Flags → Outcome S) → Outcome S
  with_flags s (Parsed.exits code) command = record {
    ending = Ending.exited code;
    output = [];
    launched = none;
    state = s;
  }
  with_flags s (Parsed.parsed flags) command = command flags

module _ (w : World) where
  open w use {fs}

  -- The loop of `openManagerMenu` over the paths.
  unfoldable pub open_first : fs.State → List Str → Outcome fs.State
  open_first s [] = ends s [] (err manager_missing)
  open_first s (path ∷ paths) =
      let next = open_first s paths in
      if str_eq path [] then next else if not (fs.exists s path) then next else record {
        ending = Ending.returned (w.run_manager path);
        output = [];
        launched = some path;
        state = s;
      }

  unfoldable pub open_manager_menu : fs.State → Outcome fs.State
  open_manager_menu s = open_first s (w.manager_path ∷ (lit "/usr/local/bin/knode-manager" ∷ []))

  -- `runServer` past its flags.
  unfoldable pub serve : fs.State → Str → Result (Unit {0})
  serve s path = do
    cfg ← load fs w.sys w.decode s path
    svc ← new_service w.sys w.now cfg
    service_result (run_service w.sys w.listen w.stop w.finish svc).error

  unfoldable pub run_server : BuildInfo → fs.State → List Str → Outcome fs.State
  run_server build s args = with_flags s (parse_flags true args) (λ flags.
      if flags.show_version
      then ends s (Output.version_line build ∷ []) (ok tt)
      else ends s [] (serve s flags.config))

  unfoldable pub check_config : fs.State → List Str → Outcome fs.State
  check_config s args = with_flags s (parse_flags false args) (λ flags.
      elim (load fs w.sys w.decode s flags.config) [
        | err e ↦ ends s [] (err e)
        | ok cfg ↦ ends s (Output.config_ok ∷ []) (ok tt)
      ])

  unfoldable pub check_all_upstreams : fs.State → List Str → Outcome fs.State
  check_all_upstreams s args = with_flags s (parse_flags false args) (λ flags.
      ends s [] (do cfg ← load fs w.sys w.decode s flags.config; check_upstreams w.sys w.net cfg))

  unfoldable pub create_sample : fs.State → Str → Outcome fs.State
  create_sample s path =
      if fs.exists s path
      then ends s [] (err (Error.about "already exists" path))
      else let (s1, written) = write_sample fs s path in
        elim written [
          | err e ↦ ends s1 [] (err e)
          | ok done ↦ ends s1 (Output.created path ∷ []) (ok tt)
        ]

  unfoldable pub init_config : fs.State → List Str → Outcome fs.State
  init_config s args = with_flags s (parse_flags false args) (λ flags. create_sample s flags.config)

  unfoldable pub generated_keys : Result (Bytes × Bytes × Bytes)
  generated_keys = do
    (public, private) ← w.server_identity
    secret ← w.client_secret
    ok (public, private, secret)

  unfoldable pub generate_keys : fs.State → Outcome fs.State
  generate_keys s = elim generated_keys [
    | err e ↦ ends s [] (err e)
    | ok (public, private, secret) ↦
        ends s (Output.keys (w.encode_key public) (w.encode_key private) (w.encode_key secret) ∷ [])
          (ok tt)
  ]

  -- The `switch` of `run`.
  unfoldable pub run_command : BuildInfo → fs.State → Str → List Str → Outcome fs.State
  run_command build s command args =
      if str_eq command (lit "run")
        || (str_eq command (lit "serve") || str_eq command (lit "start"))
      then run_server build s args
      else if str_eq command (lit "check") || str_eq command (lit "validate")
      then check_config s args
      else if str_eq command (lit "check-upstreams")
      then check_all_upstreams s args
      else if str_eq command (lit "init") || str_eq command (lit "init-config")
      then init_config s args
      else if str_eq command (lit "gen-keys") || str_eq command (lit "keys")
      then generate_keys s
      else if str_eq command (lit "menu") || str_eq command (lit "manage")
      then open_manager_menu s
      else if str_eq command (lit "version")
      then ends s (Output.version_line build ∷ []) (ok tt)
      else if str_eq command (lit "help")
          || (str_eq command (lit "-h") || str_eq command (lit "--help"))
      then ends s (Output.usage ∷ []) (ok tt)
      else ends s [] (err (Error.about "unknown command" command))

  -- `run` past the call of `SetBuildInfo`.
  unfoldable pub dispatch : BuildInfo → fs.State → List Str → Outcome fs.State
  dispatch build s [] = open_manager_menu s
  dispatch build s (arg ∷ args) =
      if has_prefix arg (lit "-")
      then run_command build s (lit "run") (arg ∷ args)
      else run_command build s arg args

  -- `run`: the version that package node keeps, and the outcome.
  unfoldable pub run : BuildInfo → fs.State → List Str → Str × Outcome fs.State
  run build s args = (set_build_info build.version, dispatch build s args)

-- The exit code of `main`.
unfoldable pub exit_code : Ending → ℕ
exit_code (Ending.returned (ok done)) = 0
exit_code (Ending.returned (err e)) = 1
exit_code (Ending.exited code) = code
