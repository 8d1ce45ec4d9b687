-- ===== src/Config/Validate/Parts.antt =====
-- internal/config/config.go: the `Validate` methods of Kboard, an upstream and an inbound.
use knode.Prelude.{
  Bool, not, ◌||◌, ◌&&◌, List, [], ◌∷◌, if◌then◌else◌, is_empty, is_negative, Error, Result, ok,
  err, ◌>>=◌, ◌>>◌, refuse_if, map_err, drop_value,
}
use knode.Text.{Str, lit, str_eq}
use knode.Config.{KboardConfig, UpstreamConfig, InboundConfig}
use knode.Config.System.{System}
use knode.Config.Duration.{parse_duration, default_dial_timeout, default_report_interval}
use knode.Config.Capability.{is_supported_transport, transport_uses_address, transport_uses_url}
use knode.Config.Defaults.{kboard_defaults, upstream_defaults, trim_inbound}
use knode.Config.Validate.Kless.{validate_kless}
use knode.Config.Validate.Server.{validate_server_kless}

-- A `map[string]struct{}` of names.
abbrev pub NameSet : Type 0
NameSet = List Str

unfoldable pub has_name : Str → NameSet → Bool
has_name n [] = Bool.false
has_name n (m ∷ names) = str_eq m n || has_name n names

-- `names[n] = struct{}{}`.
unfoldable pub add_name : Str → NameSet → NameSet
add_name n names = if has_name n names then names else n ∷ names

module _ (sys : System) where
  -- `KboardConfig.Validate` after its call of `applyDefaults`.
  unfoldable pub check_kboard : KboardConfig → Result KboardConfig
  check_kboard k = do
    refuse_if (str_eq k.public_url []) (Error.text "public_url is required")
    refuse_if (str_eq k.node_id []) (Error.text "node_id is required")
    refuse_if (str_eq k.node_shared_secret []) (Error.text "node_shared_secret is required")
    refuse_if (str_eq k.alive_endpoint []) (Error.text "alive_endpoint is required")
    map_err (Error.wrap "public_url") (drop_value (sys.parse_request_uri k.public_url))
    map_err (Error.wrap "report_interval")
        (drop_value (parse_duration sys k.report_interval default_report_interval))
    ok k

  unfoldable pub validate_kboard : KboardConfig → Result KboardConfig
  validate_kboard raw = check_kboard (kboard_defaults raw)

  -- `if transportUsesURL(u.Transport) { … }`.
  unfoldable pub check_url : UpstreamConfig → Result (Unit {0})
  check_url u =
      if not (transport_uses_url u.transport)
      then ok tt
      else if str_eq u.url []
      then err (Error.about "url is required for transport" u.transport)
      else elim (sys.parse_url u.url) [
        | err e ↦ err (Error.about "invalid url" u.url)
        | ok parsed ↦
            refuse_if (str_eq parsed.scheme [] || str_eq parsed.host [])
              (Error.about "invalid url" u.url)
      ]

  -- `if u.CAFile != "" { … }`.
  unfoldable pub check_ca_file : UpstreamConfig → Result (Unit {0})
  check_ca_file u =
      if str_eq u.ca_file [] then ok tt else map_err (Error.wrap "ca_file") (sys.stat u.ca_file)

  -- `UpstreamConfig.Validate` after its call of `applyDefaults`.
  unfoldable pub check_upstream : UpstreamConfig → Result UpstreamConfig
  check_upstream u = do
    refuse_if (str_eq u.name []) (Error.text "name is required")
    refuse_if (not (is_supported_transport sys u.transport))
        (Error.about "unsupported transport" u.transport)
    refuse_if (transport_uses_address u.transport && str_eq u.address [])
        (Error.text "address is required for tcp/tls transport")
    check_url u
    map_err (Error.wrap "dial_timeout")
        (drop_value (parse_duration sys u.dial_timeout default_dial_timeout))
    map_err (Error.wrap "kless") (validate_kless sys u.kless u.transport)
    check_ca_file u
    ok u

  unfoldable pub validate_upstream : UpstreamConfig → Result UpstreamConfig
  validate_upstream raw = check_upstream (upstream_defaults sys raw)

  -- The `switch i.Mode`: the inbound with its kless part checked, if it has one.
  unfoldable pub check_mode : InboundConfig → NameSet → Bool → Result InboundConfig
  check_mode i upstreams dynamic =
      if str_eq i.mode (lit "tcp")
      then (do
        refuse_if (is_empty upstreams)
            (Error.text "at least one upstream is required for tcp inbound")
        refuse_if (str_eq i.upstream []) (Error.text "upstream is required")
        refuse_if (not (has_name i.upstream upstreams)) (Error.about "unknown upstream" i.upstream)
        ok i)
      else if str_eq i.mode (lit "kless-server")
      then (do
        kless ← map_err (Error.wrap "kless") (validate_server_kless sys i.kless dynamic)
        ok (record i { kless = kless }))
      else err (Error.about "unsupported inbound mode" i.mode)

  -- `InboundConfig.Validate` after its four assignments.
  unfoldable pub check_inbound : InboundConfig → NameSet → Bool → Result InboundConfig
  check_inbound i upstreams dynamic = do
    refuse_if (str_eq i.name []) (Error.text "name is required")
    refuse_if (str_eq i.listen []) (Error.text "listen is required")
    checked ← check_mode i upstreams dynamic
    refuse_if (is_negative i.max_connections) (Error.text "max_connections cannot be negative")
    ok checked

  unfoldable pub validate_inbound : InboundConfig → NameSet → Bool → Result InboundConfig
  validate_inbound raw upstreams dynamic = check_inbound (trim_inbound sys raw) upstreams dynamic
