-- ===== src/Tests/Fixtures.antt =====
-- A concrete system, and a small configuration with an upstream, a tcp inbound and a server inbound.
use knode.Prelude.{refl, false, some, [], ◌∷◌, pos, ok, arith}
use knode.Text.{Str, lit, Unicode, lower_rune}
use knode.Text.Lower.{UnicodeLaws}
use knode.Config.{
  KboardConfig, KlessConfig, UpstreamConfig, ServerKlessConfig, InboundConfig, Config,
}
use knode.Config.System.{System, Url}

-- A table that lowers nothing outside ASCII.
abbrev pub plain_unicode : Unicode
plain_unicode = record { to_lower = λ c. c }

pub plain_laws : UnicodeLaws plain_unicode
unfolding lower_rune
plain_laws = record { lower_idem = λ c h. ground arith; lower_space = λ c h. refl }

abbrev api_url : Url
api_url = record {
  scheme = lit "https";
  host = lit "k.example";
  hostname = lit "k.example";
  escaped_path = lit "/api";
  raw_query = [];
}

abbrev pub system : System
system = record {
  unicode = plain_unicode;
  parse_duration = λ s. ok (pos 1_000_000_000);
  parse_url = λ s. ok api_url;
  parse_request_uri = λ s. ok api_url;
  stat = λ s. ok tt;
  kless = record {
    capability_tcp = 1;
    capability_tls = 2;
    capability_http_upgrade = 4;
    capability_web_socket = 8;
    capability_http = 16;
    capability_grpc = 32;
    capability_xhttp = 64;
    capability_http3 = 128;
    capability_all = 255;
    max_handshake_padding = pos 1024;
    default_max_frame_payload = pos 16384;
    default_handshake_skew = pos 120_000_000_000;
    default_handshake_skew_text = lit "2m0s";
  };
}

abbrev pub secret_text : Str
secret_text = lit "AAAAAAAAAAAAAAAAAAAAAAAAAAAAAAAAAAAAAAAAAAA"

abbrev key_text : Str
key_text = lit "BAAAAAAAAAAAAAAAAAAAAAAAAAAAAAAAAAAAAAAAAAA"

abbrev private_text : Str
private_text =
    lit "AAAAAAAAAAAAAAAAAAAAAAAAAAAAAAAAAAAAAAAAAAAAAAAAAAAAAAAAAAAAAAAAAAAAAAAAAAAAAAAAAAAAAA"

abbrev pub client_kless : KlessConfig
client_kless = record {
  client_id = lit "alice";
  client_secret = secret_text;
  server_signing_key = key_text;
  server_signing_private = [];
  capabilities = [];
  max_frame_payload = pos 0;
  padding_min = pos 0;
  padding_max = pos 16;
  handshake_timeout = [];
}

abbrev pub upstream : UpstreamConfig
upstream = record {
  name = lit "up";
  transport = lit "tcp";
  address = lit "node:443";
  url = [];
  server_name = [];
  ca_file = [];
  insecure_skip_verify = false;
  headers = [];
  dial_timeout = [];
  kless = client_kless;
}

abbrev pub server_kless : ServerKlessConfig
server_kless = record {
  client_id = lit "alice";
  client_secret = secret_text;
  server_signing_key = [];
  server_signing_private = private_text;
  clients = [];
  capabilities = [];
  max_frame_payload = pos 0;
  padding_min = pos 0;
  padding_max = pos 0;
  handshake_timeout = [];
  max_handshake_skew = [];
  users_refresh_interval = [];
}

abbrev no_kless : ServerKlessConfig
no_kless = record server_kless { client_id = []; client_secret = []; server_signing_private = [] }

abbrev local : InboundConfig
local = record {
  name = lit "local";
  listen = lit ":1080";
  mode = lit "tcp";
  upstream = lit "up";
  max_connections = pos 0;
  kless = no_kless;
}

abbrev server : InboundConfig
server = record {
  name = lit "server";
  listen = lit ":443";
  mode = lit "kless-server";
  upstream = [];
  max_connections = pos 2;
  kless = server_kless;
}

abbrev pub kboard : KboardConfig
kboard = record {
  public_url = lit "https://k.example/";
  node_id = lit "7";
  node_shared_secret = lit "shared";
  config_endpoint = [];
  users_endpoint = lit "/users";
  traffic_endpoint = [];
  alive_endpoint = lit "/alive";
  access_logs_endpoint = lit "/logs";
  report_interval = [];
}

abbrev pub config : Config
config = record {
  node_id = lit " n1 ";
  admin = record { address = [] };
  shutdown_grace = [];
  kboard = some kboard;
  upstreams = upstream ∷ [];
  inbounds = local ∷ (server ∷ []);
}
