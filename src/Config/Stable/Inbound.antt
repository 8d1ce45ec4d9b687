-- ===== src/Config/Stable/Inbound.antt =====
-- internal/config/config.go: an inbound that passed its `Validate` passes it again, unchanged.
use mathlib.Core.Path.{ap₂}
use knode.Prelude.{List, ◌≡◌, ap, ◌∙◌, sym, Bool, arith, ok}
use knode.Text.Trim.{trim_space_idem}
use knode.Text.Lower.{UnicodeLaws}
use knode.Config.{ServerKlessConfig, ServerKlessClientConfig, InboundConfig}
use knode.Config.System.{System}
use knode.Config.Defaults.{server_kless_defaults, trim_inbound, inbound_defaults}
use knode.Config.Fixed.{if_empty_idem, normalize_inbound_mode_idem}
use knode.Config.Validate.Server.{check_server_kless, validate_server_kless}
use knode.Config.Validate.Parts.{NameSet, check_mode, check_inbound, validate_inbound}
use knode.Config.Stable.Parts.{check_server_kless-clients, check_server_kless-again}

module _ (sys : System) (laws : UnicodeLaws sys.unicode) where
  defaults-clients :
      (raw : ServerKlessConfig) (cs : List ServerKlessClientConfig)
      → server_kless_defaults sys (record (server_kless_defaults sys raw) { clients = cs })
        ≡ record (server_kless_defaults sys raw) { clients = cs }
  unfolding server_kless_defaults
  defaults-clients raw cs = simp (trim_space_idem, if_empty_idem)

  validate_server_kless-again :
      (raw : ServerKlessConfig) (dynamic : Bool) {k : ServerKlessConfig}
      → validate_server_kless sys raw dynamic ≡ ok k
      → (server_kless_defaults sys k ≡ k) × (validate_server_kless sys k dynamic ≡ ok k)
  unfolding validate_server_kless
  validate_server_kless-again raw dynamic {k} h =
      let d = server_kless_defaults sys raw in
      let (cs, clients, same) = check_server_kless-clients sys d dynamic h in
      let again = check_server_kless-again sys d cs dynamic clients (h ∙ ap ok same) in
      let fixed : server_kless_defaults sys k ≡ k =
        ap (server_kless_defaults sys) same ∙ (defaults-clients raw cs ∙ sym same) in
      (
        fixed,
        ap (λ x. check_server_kless sys x dynamic) (fixed ∙ same) ∙ (again ∙ sym (ap ok same)),
      )

  check_mode-again :
      (i : InboundConfig) (upstreams : NameSet) (dynamic : Bool) {j : InboundConfig}
      → server_kless_defaults sys i.kless ≡ i.kless
      → check_mode sys i upstreams dynamic ≡ ok j
      → (j ≡ record i { kless = j.kless })
        × (server_kless_defaults sys j.kless ≡ j.kless)
        × (check_mode sys j upstreams dynamic ≡ ok j)
  unfolding check_mode
  check_mode-again i upstreams dynamic {j} fixed h =
      ground (arith, validate_server_kless-again i.kless dynamic {k = j.kless})

  check_inbound-mode :
      (i : InboundConfig) (upstreams : NameSet) (dynamic : Bool) {b : InboundConfig}
      → check_inbound sys i upstreams dynamic ≡ ok b
      → check_mode sys i upstreams dynamic ≡ ok b
  unfolding check_inbound
  check_inbound-mode i upstreams dynamic h = ground arith

  check_inbound-again :
      (i : InboundConfig) (upstreams : NameSet) (dynamic : Bool) {b : InboundConfig}
      → check_inbound sys i upstreams dynamic ≡ ok b
      → b ≡ record i { kless = b.kless }
      → check_mode sys b upstreams dynamic ≡ ok b
      → check_inbound sys b upstreams dynamic ≡ ok b
  unfolding check_inbound
  check_inbound-again i upstreams dynamic h same mode = ground arith

  trim_inbound-kless :
      (raw : InboundConfig) (k : ServerKlessConfig)
      → trim_inbound sys (record (trim_inbound sys raw) { kless = k })
        ≡ record (trim_inbound sys raw) { kless = k }
  unfolding trim_inbound
  trim_inbound-kless raw k = simp (trim_space_idem, normalize_inbound_mode_idem sys laws)

  -- A checked inbound whose kless part had its defaults has all its defaults, and passes again.
  pub validate_inbound-again :
      (raw : InboundConfig) (upstreams : NameSet) (dynamic : Bool) {b : InboundConfig}
      → server_kless_defaults sys raw.kless ≡ raw.kless
      → validate_inbound sys raw upstreams dynamic ≡ ok b
      → (inbound_defaults sys b ≡ b) × (validate_inbound sys b upstreams dynamic ≡ ok b)
  unfolding validate_inbound inbound_defaults
  validate_inbound-again raw upstreams dynamic {b} fixed h =
      let t = trim_inbound sys raw in
      let (same, kless, mode) =
        check_mode-again t upstreams dynamic fixed (check_inbound-mode t upstreams dynamic h) in
      let trimmed : trim_inbound sys b ≡ b =
        ap (trim_inbound sys) same ∙ (trim_inbound-kless raw b.kless ∙ sym same) in
      (
        ap₂ (λ (x : InboundConfig) (k : ServerKlessConfig). record x { kless = k }) trimmed kless,
        ap (λ x. check_inbound sys x upstreams dynamic) trimmed
            ∙ check_inbound-again t upstreams dynamic h same mode,
      )
