-- ===== src/Config/Sample.antt =====
-- internal/config/sample.go: the sample configuration.
use knode.Prelude.{false, none, [], ◌∷◌, pos}
use knode.Text.{Str, lit, lines}
use knode.Config.{UpstreamConfig, ServerKlessConfig, InboundConfig, Config}

-- `SampleJSON`.
unfoldable pub sample_json : Str
sample_json = lines (
    "{" ∷ "  \"node_id\": \"knode-a\"," ∷ "  \"admin\": {" ∷ "    \"address\": \"127.0.0.1:8080\""
    ∷ "  }," ∷ "  \"shutdown_grace\": \"10s\"," ∷ "  \"upstreams\": [" ∷ "    {"
    ∷ "      \"name\": \"kray-primary\"," ∷ "      \"transport\": \"tcp\","
    ∷ "      \"address\": \"127.0.0.1:9000\"," ∷ "      \"dial_timeout\": \"10s\","
    ∷ "      \"kless\": {" ∷ "        \"client_id\": \"knode-a\","
    ∷ "        \"client_secret\": \"replace-with-base64url-client-secret\","
    ∷ "        \"server_signing_key\": \"replace-with-base64url-ed25519-public-key\","
    ∷ "        \"max_frame_payload\": 16384," ∷ "        \"handshake_timeout\": \"10s\"" ∷ "      }"
    ∷ "    }" ∷ "  ]," ∷ "  \"inbounds\": [" ∷ "    {" ∷ "      \"name\": \"local-tcp\","
    ∷ "      \"listen\": \"127.0.0.1:7000\"," ∷ "      \"mode\": \"tcp\","
    ∷ "      \"upstream\": \"kray-primary\"," ∷ "      \"max_connections\": 1024" ∷ "    },"
    ∷ "    {" ∷ "      \"name\": \"public-kless\"," ∷ "      \"listen\": \"0.0.0.0:443\","
    ∷ "      \"mode\": \"kless-server\"," ∷ "      \"max_connections\": 1024,"
    ∷ "      \"kless\": {" ∷ "        \"client_id\": \"replace-with-krayn-client-id\","
    ∷ "        \"client_secret\": \"replace-with-base64url-client-secret\","
    ∷ "        \"server_signing_key\": \"replace-with-base64url-ed25519-public-key\","
    ∷ "        \"server_signing_private\": \"replace-with-base64url-ed25519-private-key\","
    ∷ "        \"max_frame_payload\": 16384," ∷ "        \"handshake_timeout\": \"10s\"" ∷ "      }"
    ∷ "    }" ∷ "  ]" ∷ "}" ∷ [])

-- The values that the sample stands for; an omitted field is a zero value.
abbrev pub placeholder_secret : Str
placeholder_secret = lit "replace-with-base64url-client-secret"

abbrev pub placeholder_public : Str
placeholder_public = lit "replace-with-base64url-ed25519-public-key"

abbrev pub sample_upstream : UpstreamConfig
sample_upstream = record {
  name = lit "kray-primary";
  transport = lit "tcp";
  address = lit "127.0.0.1:9000";
  url = [];
  server_name = [];
  ca_file = [];
  insecure_skip_verify = false;
  headers = [];
  dial_timeout = lit "10s";
  kless = record {
    client_id = lit "knode-a";
    client_secret = placeholder_secret;
    server_signing_key = placeholder_public;
    server_signing_private = [];
    capabilities = [];
    max_frame_payload = pos 16384;
    padding_min = pos 0;
    padding_max = pos 0;
    handshake_timeout = lit "10s";
  };
}

abbrev no_server_kless : ServerKlessConfig
no_server_kless = record {
  client_id = [];
  client_secret = [];
  server_signing_key = [];
  server_signing_private = [];
  clients = [];
  capabilities = [];
  max_frame_payload = pos 0;
  padding_min = pos 0;
  padding_max = pos 0;
  handshake_timeout = [];
  max_handshake_skew = [];
  users_refresh_interval = [];
}

abbrev sample_tcp : InboundConfig
sample_tcp = record {
  name = lit "local-tcp";
  listen = lit "127.0.0.1:7000";
  mode = lit "tcp";
  upstream = lit "kray-primary";
  max_connections = pos 1024;
  kless = no_server_kless;
}

abbrev sample_server : InboundConfig
sample_server = record {
  name = lit "public-kless";
  listen = lit "0.0.0.0:443";
  mode = lit "kless-server";
  upstream = [];
  max_connections = pos 1024;
  kless = record no_server_kless {
    client_id = lit "replace-with-krayn-client-id";
    client_secret = placeholder_secret;
    server_signing_key = placeholder_public;
    server_signing_private = lit "replace-with-base64url-ed25519-private-key";
    max_frame_payload = pos 16384;
    handshake_timeout = lit "10s";
  };
}

unfoldable pub sample_config : Config
sample_config = record {
  node_id = lit "knode-a";
  admin = record { address = lit "127.0.0.1:8080" };
  shutdown_grace = lit "10s";
  kboard = none;
  upstreams = sample_upstream ∷ [];
  inbounds = sample_tcp ∷ (sample_server ∷ []);
}
