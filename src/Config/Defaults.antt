-- ===== src/Config/Defaults.antt =====
-- internal/config/config.go: the `applyDefaults` methods and the normalisations that they call.
use mathlib.Core.Option
use knode.Prelude.{Bool, ◌||◌, not, [], ◌++◌, ◌==◌, if◌then◌else◌, map}
use knode.Text.{Str, lit, str_eq, trim_space, trim_right, has_prefix, to_lower}
use knode.Config.{KboardConfig, UpstreamConfig, ServerKlessConfig, InboundConfig, Config}
use knode.Config.System.{System}

-- `if s == "" { s = d }`.
unfoldable pub if_empty : Str → Str → Str
if_empty s d = if str_eq s [] then d else s

-- The tests of `normalizeEndpoint`, on the trimmed endpoint.
unfoldable pub complete_endpoint : Str → Str
complete_endpoint endpoint =
    if str_eq endpoint []
    then []
    else if has_prefix endpoint (lit "http://") || has_prefix endpoint (lit "https://")
    then endpoint
    else if not (has_prefix endpoint (lit "/"))
    then lit "/" ++ endpoint
    else endpoint

unfoldable pub normalize_endpoint : Str → Str
unfolding complete_endpoint
normalize_endpoint endpoint = complete_endpoint (trim_space endpoint)

-- `strings.TrimRight(s, "/")`.
abbrev pub trim_slashes : Str → Str
trim_slashes = trim_right (λ c. c == b'/')

unfoldable pub kboard_defaults : KboardConfig → KboardConfig
unfolding normalize_endpoint
kboard_defaults k = record {
  public_url = trim_slashes (trim_space k.public_url);
  node_id = trim_space k.node_id;
  node_shared_secret = trim_space k.node_shared_secret;
  config_endpoint = normalize_endpoint k.config_endpoint;
  users_endpoint = normalize_endpoint k.users_endpoint;
  traffic_endpoint = normalize_endpoint k.traffic_endpoint;
  alive_endpoint = normalize_endpoint k.alive_endpoint;
  access_logs_endpoint = normalize_endpoint k.access_logs_endpoint;
  report_interval = if_empty k.report_interval (lit "30s");
}

-- The two cases of the `switch` in `normalizeInboundMode`.
unfoldable pub names_tcp : Str → Bool
names_tcp mode =
    str_eq mode []
    || str_eq mode (lit "tcp")
    || str_eq mode (lit "client")
    || str_eq mode (lit "client-forward")
    || str_eq mode (lit "forward")

unfoldable pub names_server : Str → Bool
names_server mode =
    str_eq mode (lit "kless-server")
    || str_eq mode (lit "kless_server")
    || str_eq mode (lit "server")
    || str_eq mode (lit "relay")
    || str_eq mode (lit "server-relay")

unfoldable pub mode_by_name : Str → Str
unfolding names_tcp names_server
mode_by_name mode =
    if names_tcp mode then lit "tcp" else if names_server mode then lit "kless-server" else mode

module _ (sys : System) where
  unfoldable pub upstream_defaults : UpstreamConfig → UpstreamConfig
  upstream_defaults u = record u {
    name = trim_space u.name;
    transport = to_lower sys.unicode (trim_space u.transport);
    address = trim_space u.address;
    url = trim_space u.url;
    server_name = trim_space u.server_name;
    ca_file = trim_space u.ca_file;
    dial_timeout = if_empty u.dial_timeout (lit "10s");
    kless = record u.kless { handshake_timeout = if_empty u.kless.handshake_timeout (lit "10s") };
  }

  unfoldable pub server_kless_defaults : ServerKlessConfig → ServerKlessConfig
  server_kless_defaults k = record k {
    client_id = trim_space k.client_id;
    client_secret = trim_space k.client_secret;
    server_signing_key = trim_space k.server_signing_key;
    server_signing_private = trim_space k.server_signing_private;
    handshake_timeout = if_empty k.handshake_timeout (lit "10s");
    max_handshake_skew = if_empty k.max_handshake_skew sys.kless.default_handshake_skew_text;
    users_refresh_interval = if_empty k.users_refresh_interval (lit "5m0s");
  }

  unfoldable pub normalize_inbound_mode : Str → Str
  unfolding mode_by_name
  normalize_inbound_mode mode = mode_by_name (to_lower sys.unicode (trim_space mode))

  -- The four assignments that `applyDefaults` and `Validate` of an inbound share.
  unfoldable pub trim_inbound : InboundConfig → InboundConfig
  unfolding normalize_inbound_mode
  trim_inbound i = record i {
    name = trim_space i.name;
    listen = trim_space i.listen;
    mode = normalize_inbound_mode i.mode;
    upstream = trim_space i.upstream;
  }

  unfoldable pub inbound_defaults : InboundConfig → InboundConfig
  unfolding trim_inbound
  inbound_defaults i = record (trim_inbound i) { kless = server_kless_defaults i.kless }

  unfoldable pub config_defaults : Config → Config
  unfolding upstream_defaults inbound_defaults kboard_defaults
  config_defaults c = record c {
    node_id = trim_space c.node_id;
    admin = record { address = if_empty c.admin.address (lit "127.0.0.1:8080") };
    shutdown_grace = if_empty c.shutdown_grace (lit "10s");
    upstreams = map upstream_defaults c.upstreams;
    inbounds = map inbound_defaults c.inbounds;
    kboard = Option.map kboard_defaults c.kboard;
  }
