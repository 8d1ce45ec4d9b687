-- ===== src/Tests/Protocols.antt =====
-- The relay protocol, the batches, the upstream check and the configuration of a relay at small inputs.
use knode.Prelude.{
  ◌≡◌, refl, false, ◌⊎◌, inl, inr, ◌↔◌, ℕ, [], All, Error, Result, ok, err, if◌then◌else◌,
}
use knode.Text.{lit, str_eq}
use knode.AccessLog.Item.{RelayTarget}
use knode.ClientStore.{new_store}
use knode.Relay.Effects.{Command, Request, Response}
use knode.Relay.ServerConfig.{IsServerConfig, server_config, server_config-IsServerConfig}
use knode.RelayProtocol.{
  Codec, CodecLaws, write_connect_request, read_connect_request, write_connect_response,
  read_connect_response, read_connect_request-write, read_connect_response-write,
}
use knode.Kboard.Batches.{IsSafe, traffic_batch_id, traffic_batch_id_lem}
use knode.Check.{check_upstreams}
use knode.Check.Outcome.{IsReachable, check_upstreams-ok_iff}
use knode.Tests.Fixtures.{system, config, plain_laws, server_kless}
use knode.Tests.Configs.{checked, config-valid, config_settled, relay, relay-valid}
use knode.Tests.Services.{network}

abbrev Message : Type 0
Message = Request ⊎ Response

abbrev request_of : Message → Result Request
request_of (inl r) = ok r
request_of (inr r) = err (Error.text "no request")

abbrev response_of : Message → Result Response
response_of (inl r) = err (Error.text "no response")
response_of (inr r) = ok r

-- A codec whose messages are the values themselves.
abbrev codec : Codec
codec = record {
  Wire = Message;
  tcp_connect = λ host port. record {
    command = Command.tcp_connect;
    address = record { host = host; port = port };
  };
  write_request = λ r. inl r;
  read_request = request_of;
  write_response = λ r. inr r;
  read_response = response_of;
}

codec_laws : CodecLaws codec
codec_laws = record {
  request = λ r. refl;
  response = λ r. refl;
  command = λ host port. refl;
  address = λ host port. refl;
}

abbrev target : RelayTarget
target = record { host = lit "a"; port = 443 }

read_connect_request-write_test :
    read_connect_request codec (write_connect_request codec target) ≡ ok target
read_connect_request-write_test = read_connect_request-write codec target codec_laws

read_connect_response-write_test :
    read_connect_response codec (write_connect_response codec (lit "refused"))
    ≡ (if str_eq (lit "refused") [] then ok tt else err (Error.about "" (lit "refused")))
read_connect_response-write_test = read_connect_response-write codec (lit "refused") codec_laws

traffic_batch_id_lem_test :
    IsSafe (traffic_batch_id (lit "n 1/x") 7)
    × ((traffic_batch_id (lit "n 1/x") 7 ≡ traffic_batch_id (lit "n 1/x") 8) ↔ ◌≡◌ {A = ℕ} 7 8)
traffic_batch_id_lem_test = traffic_batch_id_lem (lit "n 1/x") 7 8

check_upstreams-ok_iff_example :
    (check_upstreams system network config ≡ ok tt)
    ↔ All (IsReachable system network) checked.upstreams
check_upstreams-ok_iff_example =
    check_upstreams-ok_iff system network plain_laws config {c = checked} config_settled
      config-valid

server_config-IsServerConfig_example :
    IsServerConfig system relay (server_config system relay new_store)
server_config-IsServerConfig_example =
    server_config-IsServerConfig system relay new_store server_kless false relay-valid
