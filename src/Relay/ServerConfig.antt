-- ===== src/Relay/ServerConfig.antt =====
-- internal/node/server_relay.go: `serverConfig`, which drops the errors that reading the settings can
-- give.
use knode.Prelude.{ℕ, ◌≡◌, refl, Bool, true, false, ℤ, is_positive, Result, ok, err, arith}
use knode.Base64.{Bytes}
use knode.ClientStore.{DynamicClientStore}
use knode.Config.{ServerKlessConfig}
use knode.Config.System.{System}
use knode.Config.Capability.{capability_mask_for_names}
use knode.Config.Defaults.{server_kless_defaults}
use knode.Config.Duration.{
  parse_duration, value_or_zero, handshake_timeout_duration, max_handshake_skew_duration,
  default_handshake_timeout,
}
use knode.Config.Handshake.{parse_duration-positive}
use knode.Config.Validate.Kless.{default_int, padding_is_bad}
use knode.Config.Validate.Server.{check_limits, check_server_kless, validate_server_kless}
use knode.Relay.{ServerRelay}

-- kray's `kless.ServerConfig`, as far as the program fills it in.
pub record ServerConfig : Type 0 where
  pub signing_key : Bytes
  pub client_store : DynamicClientStore
  pub capabilities : ℕ
  pub max_frame_payload : ℤ
  pub padding_min : ℤ
  pub padding_max : ℤ
  pub max_handshake_skew : ℤ
  pub handshake_timeout : ℤ

-- `caps, _ := …`: the value that comes with an error is 0.
abbrev mask_or_zero : Result ℕ → ℕ
mask_or_zero (ok mask) = mask
mask_or_zero (err e) = 0

module _ (sys : System) where
  -- `CapabilityMask` of the server part.
  unfoldable pub server_capability_mask : ServerKlessConfig → Result ℕ
  server_capability_mask k = capability_mask_for_names sys k.capabilities

  unfoldable pub server_config : ServerRelay → DynamicClientStore → ServerConfig
  unfolding server_capability_mask
  server_config r store = record {
    signing_key = r.signing;
    client_store = store;
    capabilities = mask_or_zero (server_capability_mask r.cfg);
    max_frame_payload = default_int r.cfg.max_frame_payload sys.kless.default_max_frame_payload;
    padding_min = r.cfg.padding_min;
    padding_max = r.cfg.padding_max;
    max_handshake_skew = max_handshake_skew_duration sys r.cfg;
    handshake_timeout = handshake_timeout_duration sys r.cfg;
  }

  -- None of the dropped errors occurred, and the bounds of the handshake hold.
  pub record IsServerConfig (r : ServerRelay) (c : ServerConfig) : Type 0 where
    pub capabilities : server_capability_mask r.cfg ≡ ok c.capabilities
    pub skew :
        parse_duration sys r.cfg.max_handshake_skew sys.kless.default_handshake_skew
        ≡ ok c.max_handshake_skew
    pub timeout :
        parse_duration sys r.cfg.handshake_timeout default_handshake_timeout
        ≡ ok c.handshake_timeout
    pub timeout_positive : is_positive c.handshake_timeout ≡ true
    pub padding : padding_is_bad sys c.padding_min c.padding_max ≡ false

  check_limits-IsServerConfig :
      (r : ServerRelay) (store : DynamicClientStore)
      → check_limits sys r.cfg ≡ ok tt
      → IsServerConfig r (server_config r store)
  unfolding check_limits server_config handshake_timeout_duration max_handshake_skew_duration
      server_capability_mask
  check_limits-IsServerConfig r store h =
      let timeout =
        value_or_zero (parse_duration sys r.cfg.handshake_timeout default_handshake_timeout) in
      record {
        capabilities = ground arith;
        skew = ground arith;
        timeout = ground arith;
        timeout_positive = ground (
          arith,
          parse_duration-positive sys r.cfg.handshake_timeout default_handshake_timeout
              {d = timeout} refl,
        );
        padding = ground arith;
      }

  check_server_kless-limits :
      (k : ServerKlessConfig) (dynamic : Bool) {out : ServerKlessConfig}
      → check_server_kless sys k dynamic ≡ ok out
      → check_limits sys out ≡ ok tt
  unfolding check_server_kless check_limits
  check_server_kless-limits k dynamic h = ground arith

  -- A relay whose settings passed `Validate` gives a configuration of the handshake for which none of
  -- the errors that `serverConfig` drops occurred: its capabilities and durations are those of the
  -- settings, its timeout is positive and its padding keeps its bounds.
  pub server_config-IsServerConfig :
      (r : ServerRelay) (store : DynamicClientStore) (raw : ServerKlessConfig) (dynamic : Bool)
      → validate_server_kless sys raw dynamic ≡ ok r.cfg
      → IsServerConfig r (server_config r store)
  unfolding validate_server_kless
  server_config-IsServerConfig r store raw dynamic h =
      check_limits-IsServerConfig r store
        (check_server_kless-limits (server_kless_defaults sys raw) dynamic h)
