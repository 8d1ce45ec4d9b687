-- ===== src/Dialer.antt =====
-- internal/node/dialer.go: the client side of an upstream. The transports and the handshake of kray
-- are parameters; a connection is an abstract value.
pub mod Stages
pub mod Headers
use knode.Prelude.{
  String, Bool, not, ◌||◌, Option, none, some, List, [], ◌∷◌, if◌then◌else◌, ℤ, Error, Result, ok,
  err, ◌>>=◌, ◌>>◌, refuse_if, drop,
}
use knode.Text.{Str, lit, str_eq, trim_space, has_prefix}
use knode.Dict.{Dict}
use knode.Base64.{Bytes}
use knode.Config.{UpstreamConfig}
use knode.Config.System.{System}
use knode.Config.Duration.{dial_timeout_duration}
use knode.Config.Validate.Parts.{validate_upstream}
use Headers.{header_from_map}
use knode.Config.Validate.Kless.{ClientConfig, client_config}

pub data Stage : Type 0 where
  transport handshake : Stage

pub record DialError : Type 0 where
  pub stage : Stage
  pub error : Error

unfoldable pub stage_text : Stage → String
stage_text Stage.transport = "transport"
stage_text Stage.handshake = "handshake"

-- A `*DialError` as an error: the error that `Unwrap` gives, behind the stage.
unfoldable pub dial_error : DialError → Error
dial_error e = Error.wrap (stage_text e.stage) e.error

pub record UpstreamDialer : Type 0 where
  pub cfg : UpstreamConfig

unfoldable pub new_upstream_dialer : System → UpstreamConfig → Result UpstreamDialer
new_upstream_dialer sys cfg = do checked ← validate_upstream sys cfg; ok (record { cfg = checked })

-- `strings.TrimSuffix(s, "]")`.
unfoldable pub trim_suffix_bracket : Str → Str
trim_suffix_bracket [] = []
trim_suffix_bracket (c ∷ []) = if str_eq (c ∷ []) (lit "]") then [] else c ∷ []
trim_suffix_bracket (c ∷ d ∷ s) = c ∷ trim_suffix_bracket (d ∷ s)

-- `strings.TrimPrefix(s, "[")`.
unfoldable pub trim_prefix_bracket : Str → Str
trim_prefix_bracket s = if has_prefix s (lit "[") then drop 1 s else s

unfoldable pub trim_brackets : Str → Str
trim_brackets host = trim_suffix_bracket (trim_prefix_bracket (trim_space host))

-- The library's default client, or one with a TLS configuration.
pub data HttpClient (T : Type 0) : Type 0 where
  default_client : HttpClient T
  tls_client : T → HttpClient T

-- `httpClient`.
unfoldable pub http_client : {T : Type 0} → Option T → HttpClient T
http_client none = HttpClient.default_client
http_client (some tls) = HttpClient.tls_client tls

-- What the dialer asks of packages outside the repository.
pub record Network : Type 1 where
  pub Conn : Type 0
  pub TlsConfig : Type 0
  pub split_host_port : Str → Result Str
  pub request_hostname : Str → Result Str
  -- A TLS 1.3 configuration by server name, whether to skip verification, and root certificates.
  pub tls_client : Str → Bool → Option Bytes → TlsConfig
  pub read_file : Str → Result Bytes
  pub has_certificate : Bytes → Bool
  -- The dialers, with a timeout where the code sets one.
  pub dial_tcp : ℤ → Str → Result Conn
  pub dial_tls : ℤ → Str → Option TlsConfig → Result Conn
  pub dial_http_upgrade : ℤ → Str → Dict Str → Option TlsConfig → Result Conn
  pub dial_web_socket : ℤ → Str → Dict Str → Option TlsConfig → Result Conn
  pub dial_http_stream : HttpClient TlsConfig → Str → Dict Str → Result Conn
  pub dial_grpc : HttpClient TlsConfig → Str → Dict Str → Result Conn
  pub dial_xhttp : HttpClient TlsConfig → Str → Dict Str → Result Conn
  pub err_unsupported : Error
  pub client_handshake : Conn → ClientConfig → Result Conn

module _ (sys : System) (net : Network) where
  open net use {Conn, TlsConfig}

  -- The URL branch of `serverName`.
  unfoldable pub url_host : Str → Str
  url_host url = elim (net.request_hostname url) [
    | ok hostname ↦ if not (str_eq hostname []) then hostname else url
    | err e ↦ url
  ]

  -- The address branch of `serverName`.
  unfoldable pub address_host : Str → Str
  address_host address = elim (net.split_host_port address) [
    | ok host ↦ trim_brackets host
    | err e ↦ trim_brackets address
  ]

  unfoldable pub server_name : UpstreamConfig → Str
  server_name cfg =
      if not (str_eq cfg.server_name [])
      then cfg.server_name
      else if not (str_eq cfg.address [])
      then address_host cfg.address
      else if not (str_eq cfg.url [])
      then trim_brackets (url_host cfg.url)
      else []

  -- `if d.cfg.CAFile != "" { … }`: the root certificates.
  unfoldable pub root_certificates : UpstreamConfig → Result (Option Bytes)
  root_certificates cfg = if str_eq cfg.ca_file [] then ok none else (do
    cert ← net.read_file cfg.ca_file
    refuse_if (not (net.has_certificate cert))
        (Error.text "ca_file does not contain a valid PEM certificate")
    ok (some cert))

  unfoldable pub tls_config : UpstreamConfig → Result (Option TlsConfig)
  tls_config cfg = if str_eq cfg.transport (lit "tcp") then ok none else (do
    roots ← root_certificates cfg
    ok (some (net.tls_client (server_name cfg) cfg.insecure_skip_verify roots)))

  -- The `switch` of `dialRaw`.
  unfoldable pub dial_transport : UpstreamConfig → Option TlsConfig → Dict Str → Result Conn
  dial_transport cfg tls headers =
      let t = cfg.transport in
      let timeout = dial_timeout_duration sys cfg in
      if str_eq t (lit "tcp")
      then net.dial_tcp timeout cfg.address
      else if str_eq t (lit "tls")
      then net.dial_tls timeout cfg.address tls
      else if str_eq t (lit "httpupgrade") || str_eq t (lit "httpupdate")
      then net.dial_http_upgrade timeout cfg.url headers tls
      else if str_eq t (lit "websocket")
      then net.dial_web_socket timeout cfg.url headers tls
      else if str_eq t (lit "httpstream")
      then net.dial_http_stream (http_client tls) cfg.url headers
      else if str_eq t (lit "grpc")
      then net.dial_grpc (http_client tls) cfg.url headers
      else if str_eq t (lit "xhttp")
      then net.dial_xhttp (http_client tls) cfg.url headers
      else if str_eq t (lit "http3")
      then err net.err_unsupported
      else err (Error.about "unsupported transport" t)

  unfoldable pub dial_raw : UpstreamDialer → Result Conn
  dial_raw d = do tls ← tls_config d.cfg; dial_transport d.cfg tls (header_from_map d.cfg.headers)

  -- The result of `Dial`, and the raw connections that it closed.
  pub data Dialed : Type 0 where
    connected : Conn → Dialed
    failed : DialError → List Conn → Dialed

  unfoldable pub dial : UpstreamDialer → Dialed
  dial d = elim (dial_raw d) [
    | err e ↦ failed (record { stage = transport; error = e }) []
    | ok raw ↦ elim (client_config sys d.cfg.kless d.cfg.transport) [
      | err e ↦ failed (record { stage = handshake; error = e }) (raw ∷ [])
      | ok cfg ↦ elim (net.client_handshake raw cfg) [
        | err e ↦ failed (record { stage = handshake; error = e }) (raw ∷ [])
        | ok secure ↦ connected secure
      ]
    ]
  ]
