-- ===== src/Config.antt =====
-- internal/config/config.go: the configuration. This file has its types; JSON decoding is not
-- modelled, so an omitted field is a zero value.
pub mod System
pub mod Capability
pub mod Duration
pub mod Defaults
pub mod Validate
pub mod Fixed
pub mod Handshake
pub mod Stable
pub mod Sample
pub mod File
use knode.Prelude.{Option, List, ℤ, Bool}
use knode.Text.{Str}
use knode.Dict.{Dict}

pub record AdminConfig : Type 0 where
  pub address : Str

pub record KboardConfig : Type 0 where
  pub public_url : Str
  pub node_id : Str
  pub node_shared_secret : Str
  pub config_endpoint : Str
  pub users_endpoint : Str
  pub traffic_endpoint : Str
  pub alive_endpoint : Str
  pub access_logs_endpoint : Str
  pub report_interval : Str

pub record KlessConfig : Type 0 where
  pub client_id : Str
  pub client_secret : Str
  pub server_signing_key : Str
  pub server_signing_private : Str
  pub capabilities : List Str
  pub max_frame_payload : ℤ
  pub padding_min : ℤ
  pub padding_max : ℤ
  pub handshake_timeout : Str

pub record UpstreamConfig : Type 0 where
  pub name : Str
  pub transport : Str
  pub address : Str
  pub url : Str
  pub server_name : Str
  pub ca_file : Str
  pub insecure_skip_verify : Bool
  pub headers : Dict Str
  pub dial_timeout : Str
  pub kless : KlessConfig

pub record ServerKlessClientConfig : Type 0 where
  pub client_id : Str
  pub client_secret : Str

pub record ServerKlessConfig : Type 0 where
  pub client_id : Str
  pub client_secret : Str
  pub server_signing_key : Str
  pub server_signing_private : Str
  pub clients : List ServerKlessClientConfig
  pub capabilities : List Str
  pub max_frame_payload : ℤ
  pub padding_min : ℤ
  pub padding_max : ℤ
  pub handshake_timeout : Str
  pub max_handshake_skew : Str
  pub users_refresh_interval : Str

pub record InboundConfig : Type 0 where
  pub name : Str
  pub listen : Str
  pub mode : Str
  pub upstream : Str
  pub max_connections : ℤ
  pub kless : ServerKlessConfig

pub record Config : Type 0 where
  pub node_id : Str
  pub admin : AdminConfig
  pub shutdown_grace : Str
  pub kboard : Option KboardConfig
  pub upstreams : List UpstreamConfig
  pub inbounds : List InboundConfig
