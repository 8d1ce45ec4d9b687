-- ===== src/CommandLine/Serve.antt =====
-- cmd/knode/main.go: `knode run` and `knode check` over the configuration and the service.
use knode.Prelude.{◌≡◌, refl, ap, ◌∙◌, true, false, Bool, [], ◌∷◌, ok}
use knode.Text.{Str, lit, str_eq, has_prefix}
use knode.Text.Lower.{UnicodeLaws}
use knode.Config.{Config}
use knode.Config.File.{load}
use knode.Config.Stable.{KboardIsSettled, validate-stable, validate-KboardIsSettled}
use knode.Config.Validate.{validate}
use knode.Service.{Service}
use knode.Service.New.{new_service-total}
use knode.Service.Run.{run_service}
use knode.CommandLine.{
  World, BuildInfo, service_result, serve, run_server, run_command, dispatch, ends,
}
use knode.CommandLine.FlagSet.{Parsed, parse_flags, parse_loop}
use knode.CommandLine.FlagSet.Spellings.{Spelling, spelled, parse_loop-spelled}

pub parse_flags-spelled :
    (has_version : Bool) (way : Spelling) (path : Str)
    → parse_flags has_version (spelled way path [])
      ≡ Parsed.parsed (record { config = path; show_version = false })
unfolding parse_flags parse_loop
parse_flags-spelled has_version way path = parse_loop-spelled has_version way _ path []

module _ (w : World) where
  open w use {sys, fs}

  run_server-spelled :
      (build : BuildInfo) (s : fs.State) (way : Spelling) (path : Str)
      → run_server w build s (spelled way path []) ≡ ends s [] (serve w s path)
  unfolding run_server
  run_server-spelled build s way path = rw (parse_flags-spelled true way path, run_server)

  -- Without a command, the flags are those of `run`.
  pub dispatch-run :
      (build : BuildInfo) (s : fs.State) (way : Spelling) (path : Str)
      → (dispatch w build s (lit "run" ∷ spelled way path []) ≡ ends s [] (serve w s path))
        × (dispatch w build s (spelled way path []) ≡ ends s [] (serve w s path))
  unfolding dispatch run_command str_eq has_prefix
  dispatch-run build s Spelling.separate path = (
    run_server-spelled build s Spelling.separate path,
    run_server-spelled build s Spelling.separate path,
  )
  dispatch-run build s way path =
      (run_server-spelled build s way path, run_server-spelled build s way path)

  -- `knode run -config`, in any spelling of the flag and also without the word `run`, starts the service
  -- of the file whenever the file can be read and decoded and its configuration validates, where the
  -- lower case table of Unicode has its two properties and the Kboard URL has no white space in front of
  -- the slashes that end it: `New`, which validates once more, cannot fail, the service has the
  -- validated configuration, and the command ends as `Run` does.
  pub dispatch-serves :
      (laws : UnicodeLaws sys.unicode) (build : BuildInfo) (s : fs.State) (way : Spelling)
      (path : Str) {text : Str} {raw c : Config}
      → KboardIsSettled sys laws raw.kboard
      → fs.read_file s path ≡ ok text
      → w.decode text ≡ ok raw
      → validate sys raw ≡ ok c
      → (svc : Service) × (svc.cfg ≡ c)
        × (dispatch w build s (lit "run" ∷ spelled way path [])
            ≡ ends s [] (service_result (run_service sys w.listen w.stop w.finish svc).error))
        × (dispatch w build s (spelled way path [])
            ≡ ends s [] (service_result (run_service sys w.listen w.stop w.finish svc).error))
  unfolding serve load
  dispatch-serves laws build s way path {raw} {c} settled read decoded valid =
      let again = (validate-stable sys laws raw settled valid).1 in
      let (svc, made, same) =
        new_service-total sys laws w.now c {c = c}
          (validate-KboardIsSettled sys laws raw settled valid) again in
      let served : serve w s path
          ≡ service_result (run_service sys w.listen w.stop w.finish svc).error =
        rw (read, decoded, valid, made) refl in
      let (named, bare) = dispatch-run build s way path in
      (svc, same, named ∙ ap (ends s []) served, bare ∙ ap (ends s []) served)
