-- ===== src/CommandLine/Init.antt =====
-- cmd/knode/main.go: what `knode init` leaves is not a configuration yet.
use knode.Prelude.{
  ◌≡◌, refl, ap, ◌∙◌, sym, Bool, true, false, ok_or, List, [], ◌∷◌, length, Error, ok, err, ltb,
  arith, map, Result-cases, inl, inr, ◌>>=◌,
}
use knode.Text.{Str, lit, str_eq, has_prefix}
use knode.Keys.{decode_key}
use knode.Config.{KlessConfig, UpstreamConfig, Config}
use knode.Config.Defaults.{upstream_defaults, config_defaults}
use knode.Config.File.{
  load, write_sample, parent_dir, default_config_directory, default_config_file_mode,
}
use knode.Config.Sample.{sample_upstream, sample_json, sample_config}
use knode.Config.System.{System}
use knode.Config.Validate.{validate_upstreams, validate}
use knode.Config.Validate.Kless.{validate_kless}
use knode.Config.Validate.Invert.{validate-IsValidation, validate_upstreams-cons}
use knode.Config.Validate.Parts.{validate_upstream, check_upstream}
use knode.Base64.{
  char_value, quantum_2, quantum_3, quantum_4, decode_quanta, skip_breaks, decode_string,
}
use knode.Keys.{strip_blanks, try_encodings}
use knode.Text.{is_space, trim_left, trim_right, trim_space}
use knode.Config.Sample.{sample_upstream}
use knode.CommandLine.FlagSet.Spellings.{Spelling, spelled}
use knode.CommandLine.Serve.{parse_flags-spelled, dispatch-run}
use knode.CommandLine.Files.{FileLaws}
use knode.CommandLine.{
  World, BuildInfo, Output, Outcome, check_config, create_sample, init_config, run_command,
  dispatch, ends, with_flags, exit_code, serve,
}

-- A secret of fewer than 32 bytes.
abbrev pub has_short_secret : UpstreamConfig → Bool
has_short_secret u = ltb (length (ok_or (decode_key u.kless.client_secret) [])) 32

module _ (sys : System) where
  validate_kless-secret :
      (k : KlessConfig) (transport : Str)
      → validate_kless sys k transport ≡ ok tt
      → ltb (length (ok_or (decode_key k.client_secret) [])) 32 ≡ false
  unfolding validate_kless
  validate_kless-secret k transport h = ground arith

  check_upstream-secret :
      (u : UpstreamConfig) {u' : UpstreamConfig}
      → check_upstream sys u ≡ ok u'
      → has_short_secret u ≡ false
  unfolding check_upstream
  check_upstream-secret u h = ground (arith, validate_kless-secret u.kless u.transport)

  upstream_defaults-secret :
      (u : UpstreamConfig) → has_short_secret (upstream_defaults sys u) ≡ has_short_secret u
  unfolding upstream_defaults
  upstream_defaults-secret u = refl

  -- A configuration with such a secret in its first upstream is refused.
  pub validate-short_secret :
      (raw : Config) (u : UpstreamConfig) (us : List UpstreamConfig) {c : Config}
      → raw.upstreams ≡ u ∷ us
      → validate sys raw ≡ ok c
      → has_short_secret u ≡ false
  unfolding config_defaults validate_upstream
  validate-short_secret raw u us {c} is_first h =
      let v = validate-IsValidation sys raw h in
      let d = upstream_defaults sys u in
      let (u', more, first, fresh, others, e) =
        validate_upstreams-cons sys 0 [] d (map (upstream_defaults sys) us) {all = v.names}
          {us = c.upstreams}
          (ap (λ l. validate_upstreams sys 0 [] (map (upstream_defaults sys) l)) (sym is_first)
            ∙ v.upstreams) in
      sym (upstream_defaults-secret d ∙ upstream_defaults-secret u)
      ∙ check_upstream-secret (upstream_defaults sys d) first

-- The placeholder decodes to 27 bytes.
sample_secret : has_short_secret sample_upstream ≡ true
unfolding decode_key strip_blanks try_encodings decode_string decode_quanta quantum_2 quantum_3
    quantum_4 char_value skip_breaks trim_space trim_left trim_right is_space
sample_secret = refl

sample_upstreams : sample_config.upstreams ≡ sample_upstream ∷ []
unfolding sample_config
sample_upstreams = refl

sample-is_refused : (sys : System) → (e : Error) × (validate sys sample_config ≡ err e)
sample-is_refused sys = elim (Result-cases (validate sys sample_config)) [
  | inl refused ↦ refused
  | inr (c, valid) ↦ cc (
    validate-short_secret sys sample_config sample_upstream [] sample_upstreams valid,
    sample_secret,
  )
]

module _ (w : World) (laws : FileLaws w.fs) where
  open w use {sys, fs}

  -- `WriteSample` succeeds at the path.
  abbrev pub CanWrite : fs.State → Str → Type 0
  CanWrite s path =
      ((fs.mkdir_all s (parent_dir path) default_config_directory).1 ≡ ok tt)
      × ((fs.write_file (fs.mkdir_all s (parent_dir path) default_config_directory).0 path
            sample_json default_config_file_mode).1
          ≡ ok tt)

  write_sample-reads :
      (s : fs.State) (path : Str)
      → CanWrite s path
      → ((write_sample fs s path).1 ≡ ok tt)
        × (fs.read_file (write_sample fs s path).0 path ≡ ok sample_json)
  unfolding write_sample
  write_sample-reads s path (made, written) =
      let s1 = (fs.mkdir_all s (parent_dir path) default_config_directory).0 in
      rw (made, write_sample)
        (written, laws.read_file-write_file s1 path sample_json default_config_file_mode written)

  init-creates :
      (build : BuildInfo) (s : fs.State) (way : Spelling) (path : Str)
      → fs.exists s path ≡ false
      → CanWrite s path
      → dispatch w build s (lit "init" ∷ spelled way path [])
        ≡ ends (write_sample fs s path).0 (Output.created path ∷ []) (ok tt)
  unfolding dispatch run_command init_config create_sample str_eq has_prefix
  init-creates build s way path absent can =
      let (written, reads) = write_sample-reads s path can in
      rw (parse_flags-spelled false way path) (rw (absent, written) refl)

  -- The sample can be read and decoded, and then it is refused.
  load-sample :
      (s : fs.State) (path : Str)
      → fs.read_file s path ≡ ok sample_json
      → w.decode sample_json ≡ ok sample_config
      → (e : Error) × (load fs sys w.decode s path ≡ err e)
  unfolding load
  load-sample s path reads decodes =
      let (e, refused) = sample-is_refused sys in (e, rw (reads, decodes, refused) refl)

  check-refuses :
      (build : BuildInfo) (s : fs.State) (way : Spelling) (path : Str) {e : Error}
      → load fs sys w.decode s path ≡ err e
      → dispatch w build s (lit "check" ∷ spelled way path []) ≡ ends s [] (err e)
  unfolding dispatch run_command check_config str_eq has_prefix
  check-refuses build s way path failed =
      rw (parse_flags-spelled false way path, with_flags) (rw (failed, with_flags))

  serve-refuses :
      (s : fs.State) (path : Str) {e : Error}
      → load fs sys w.decode s path ≡ err e
      → serve w s path ≡ err e
  unfolding serve
  serve-refuses s path failed = rw (failed, ◌>>=◌)

  -- `knode init` creates the sample where nothing is at the path, if the directory and the file can be
  -- written, and then neither `knode check` nor `knode run` accepts it: the placeholder of the client
  -- secret is too short to be one. So it is for any spelling of the flag, if the decoder reads the
  -- sample as the values that it shows.
  pub dispatch-init_refused :
      (build : BuildInfo) (s : fs.State) (way later : Spelling) (path : Str)
      → fs.exists s path ≡ false
      → CanWrite s path
      → w.decode sample_json ≡ ok sample_config
      → let made = dispatch w build s (lit "init" ∷ spelled way path []) in
        (exit_code made.ending ≡ 0)
        × (exit_code (dispatch w build made.state (lit "check" ∷ spelled later path [])).ending ≡ 1)
        × (exit_code (dispatch w build made.state (lit "run" ∷ spelled later path [])).ending ≡ 1)
  unfolding exit_code serve
  dispatch-init_refused build s way later path absent can decodes =
      let (written, reads) = write_sample-reads s path can in
      let s' = (write_sample fs s path).0 in
      let (e, refused) = load-sample s' path reads decodes in
      rw (init-creates build s way path absent can) (
        refl,
        ap (λ (o : Outcome fs.State). exit_code o.ending)
            (check-refuses build s' later path refused),
        ap (λ (o : Outcome fs.State). exit_code o.ending)
            ((dispatch-run w build s' later path).0
              ∙ ap (ends s' []) (serve-refuses s' path refused)),
      )
