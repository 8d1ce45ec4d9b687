-- ===== src/Config/System.antt =====
-- What internal/config asks of packages outside the repository: time, net/url, os, unicode and
-- kray's kless constants.
use knode.Prelude.{ℕ, ℤ, Result}
use knode.Text.{Str, Unicode}

-- The parts of a `url.URL` that the program reads.
pub record Url : Type 0 where
  pub scheme : Str
  pub host : Str
  pub hostname : Str
  pub escaped_path : Str
  pub raw_query : Str

-- kray's `kless.Capability…` bits and limits.
pub record KlessConstants : Type 0 where
  pub capability_tcp : ℕ
  pub capability_tls : ℕ
  pub capability_http_upgrade : ℕ
  pub capability_web_socket : ℕ
  pub capability_http : ℕ
  pub capability_grpc : ℕ
  pub capability_xhttp : ℕ
  pub capability_http3 : ℕ
  pub capability_all : ℕ
  pub max_handshake_padding : ℤ
  pub default_max_frame_payload : ℤ
  pub default_handshake_skew : ℤ
  pub default_handshake_skew_text : Str

pub record System : Type 0 where
  pub unicode : Unicode
  pub parse_duration : Str → Result ℤ
  pub parse_url : Str → Result Url
  pub parse_request_uri : Str → Result Url
  pub stat : Str → Result (Unit {0})
  pub kless : KlessConstants
