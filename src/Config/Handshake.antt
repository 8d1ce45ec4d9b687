-- ===== src/Config/Handshake.antt =====
-- internal/config/config.go: what `ClientConfig` gives for settings that passed `Validate`.
use knode.Prelude.{◌≤◌, ◌≡◌, refl, true, false, ok_or, [], length, ℤ, pos, ok, arith, is_positive}
use knode.Text.{Str}
use knode.Keys.{decode_key, bytes_equal}
use knode.Config.{KlessConfig}
use knode.Config.System.{System}
use knode.Config.Duration.{parse_duration, default_handshake_timeout}
use knode.Config.Capability.{capability_mask}
use knode.Config.Validate.Kless.{
  ClientConfig, client_config, validate_kless, padding_is_bad, default_int,
}

-- The bounds that the handshake relies on.
pub record IsHandshakeConfig (sys : System) (c : ClientConfig) : Type 0 where
  pub secret_size : 32 ≤ length c.client_secret
  pub key_size : length c.server_signing_key ≡ 32
  pub different : bytes_equal c.client_secret c.server_signing_key ≡ false
  pub padding : padding_is_bad sys c.padding_min c.padding_max ≡ false
  pub timeout : is_positive c.handshake_timeout ≡ true

module _ (sys : System) where
  -- A duration that was read is positive, if its fallback is.
  pub parse_duration-positive :
      (text : Str) (fallback : ℤ) {d : ℤ}
      → is_positive fallback ≡ true
      → parse_duration sys text fallback ≡ ok d
      → is_positive d ≡ true
  unfolding parse_duration
  parse_duration-positive text fallback p h = ground arith

  -- Settings of an upstream that pass `Validate` give a client configuration, whose secret has at
  -- least 32 bytes, whose key has 32 bytes and is not the secret, whose padding keeps its bounds and
  -- whose timeout is positive.
  pub validate_kless-IsHandshakeConfig :
      (k : KlessConfig) (transport : Str)
      → validate_kless sys k transport ≡ ok tt
      → (c : ClientConfig) × (client_config sys k transport ≡ ok c) × IsHandshakeConfig sys c
  unfolding validate_kless client_config
  validate_kless-IsHandshakeConfig k transport h =
      let secret = ok_or (decode_key k.client_secret) [] in
      let key = ok_or (decode_key k.server_signing_key) [] in
      let caps = ok_or (capability_mask sys transport k.capabilities) 0 in
      let timeout =
        ok_or (parse_duration sys k.handshake_timeout default_handshake_timeout) (pos 0) in
      let c : ClientConfig = record {
        client_id = k.client_id;
        client_secret = secret;
        server_signing_key = key;
        capabilities = caps;
        max_frame_payload = default_int k.max_frame_payload sys.kless.default_max_frame_payload;
        padding_min = k.padding_min;
        padding_max = k.padding_max;
        handshake_timeout = timeout;
      } in
      (
        c,
        ground arith,
        record {
          secret_size = ground arith;
          key_size = ground arith;
          different = ground arith;
          padding = ground arith;
          timeout = ground (
            arith,
            parse_duration-positive k.handshake_timeout default_handshake_timeout {d = timeout}
                refl,
          );
        },
      )
