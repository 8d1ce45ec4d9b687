-- ===== src/Config/Validate/Kless.antt =====
-- internal/config/config.go: `KLESSConfig.Validate` and `ClientConfig`.
use knode.Prelude.{
  ℕ, Bool, not, ◌||◌, ◌&&◌, [], if◌then◌else◌, length, ltb, ltb_ℤ, is_negative, is_zero, ℤ, ◌==◌,
  Error, Result, ok, ◌>>=◌, ◌>>◌, refuse_if, map_err, drop_value,
}
use knode.Text.{Str, str_eq, trim_space}
use knode.Base64.{Bytes}
use knode.Keys.{decode_key, bytes_equal, public_key_size, private_key_size, public_matches_private}
use knode.Config.{KlessConfig}
use knode.Config.System.{System}
use knode.Config.Duration.{parse_duration, default_handshake_timeout}
use knode.Config.Capability.{capability_mask}

unfoldable pub same_non_empty_secret : Str → Str → Bool
same_non_empty_secret a b =
    let a' = trim_space a in
    let b' = trim_space b in not (str_eq a' []) && not (str_eq b' []) && str_eq a' b'

-- `ServerSigningPrivateBytes`, of both configurations.
unfoldable pub signing_private_bytes : Str → Result Bytes
signing_private_bytes text = do
  key ← decode_key text
  refuse_if (not (length key == private_key_size)) (Error.text "must decode to 64 bytes")
  ok key

unfoldable pub default_int : ℤ → ℤ → ℤ
default_int value fallback = if is_zero value then fallback else value

-- kray's `kless.ClientConfig`, as far as the program fills it in.
pub record ClientConfig : Type 0 where
  pub client_id : Str
  pub client_secret : Bytes
  pub server_signing_key : Bytes
  pub capabilities : ℕ
  pub max_frame_payload : ℤ
  pub padding_min : ℤ
  pub padding_max : ℤ
  pub handshake_timeout : ℤ

module _ (sys : System) where
  -- The test of the padding bounds, which must satisfy 0 <= min <= max <= the limit.
  unfoldable pub padding_is_bad : ℤ → ℤ → Bool
  padding_is_bad lo hi =
      is_negative lo || is_negative hi || ltb_ℤ hi lo || ltb_ℤ sys.kless.max_handshake_padding hi

  abbrev pub padding_error : Error
  padding_error = Error.text "padding must satisfy 0 <= min <= max <= the handshake limit"

  -- `if k.ServerSigningPrivate != "" { … }`.
  unfoldable pub check_private : KlessConfig → Bytes → Result (Unit {0})
  check_private k signing_key =
      if str_eq k.server_signing_private []
      then ok tt
      else map_err (Error.wrap "server_signing_private")
          (signing_private_bytes k.server_signing_private)
        >>= λ private.
            refuse_if (not (public_matches_private signing_key private))
              (Error.text "server_signing_private does not match server_signing_key")

  unfoldable pub validate_kless : KlessConfig → Str → Result (Unit {0})
  validate_kless k transport = do
    refuse_if (str_eq k.client_id []) (Error.text "client_id is required")
    refuse_if (same_non_empty_secret k.client_secret k.server_signing_key)
        (Error.text "client_secret must not equal server_signing_key")
    secret ← map_err (Error.wrap "client_secret") (decode_key k.client_secret)
    refuse_if (ltb (length secret) 32) (Error.text "client_secret must decode to at least 32 bytes")
    signing_key ← map_err (Error.wrap "server_signing_key") (decode_key k.server_signing_key)
    refuse_if (bytes_equal secret signing_key)
        (Error.text "client_secret must not decode to server_signing_key")
    refuse_if (not (length signing_key == public_key_size))
        (Error.text "server_signing_key must decode to 32 bytes")
    check_private k signing_key
    refuse_if (is_negative k.max_frame_payload) (Error.text "max_frame_payload cannot be negative")
    refuse_if (padding_is_bad k.padding_min k.padding_max) padding_error
    map_err (Error.wrap "handshake_timeout")
        (drop_value (parse_duration sys k.handshake_timeout default_handshake_timeout))
    drop_value (capability_mask sys transport k.capabilities)

  -- `KLESSConfig.ClientConfig`.
  unfoldable pub client_config : KlessConfig → Str → Result ClientConfig
  client_config k transport = do
    secret ← decode_key k.client_secret
    signing_key ← decode_key k.server_signing_key
    caps ← capability_mask sys transport k.capabilities
    timeout ← parse_duration sys k.handshake_timeout default_handshake_timeout
    ok (record {
      client_id = k.client_id;
      client_secret = secret;
      server_signing_key = signing_key;
      capabilities = caps;
      max_frame_payload = default_int k.max_frame_payload sys.kless.default_max_frame_payload;
      padding_min = k.padding_min;
      padding_max = k.padding_max;
      handshake_timeout = timeout;
    })
