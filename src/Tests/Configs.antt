-- ===== src/Tests/Configs.antt =====
-- Validation at the small configuration.
use mathlib.Core.Option
use knode.Relay.{ServerRelay}
use knode.Prelude.{Option, none, some, Bool, false, [], ◌≡◌, refl, true, ok, is_ok, ok_or, is_ok-eq}
use knode.Config.{KboardConfig, Config}
use knode.Config.Validate.{validate_kboard_pointer, validate, validate_upstreams, validate_inbounds}
use knode.Config.Validate.Kless.{
  ClientConfig, client_config, validate_kless, same_non_empty_secret, signing_private_bytes,
  check_private, padding_is_bad,
}
use knode.Config.Validate.Server.{
  server_signing_key_bytes, validate_client, validate_clients, check_signing_key,
  check_secret_differs, has_client_secret, has_static_client, check_client_secret, check_limits,
  check_server_kless, validate_server_kless,
}
use knode.Config.Validate.Parts.{
  has_name, add_name, check_kboard, validate_kboard, check_url, check_ca_file, check_upstream,
  validate_upstream, check_mode, check_inbound, validate_inbound,
}
use knode.Config.Capability.{
  capability_for_transport, capability_mask_from, capability_mask, mask_for_names_from,
  capability_mask_for_names, is_supported_transport, transport_uses_address, transport_uses_url,
}
use knode.Config.Defaults.{
  if_empty, complete_endpoint, normalize_endpoint, kboard_defaults, names_tcp, names_server,
  mode_by_name, upstream_defaults, server_kless_defaults, normalize_inbound_mode, trim_inbound,
  inbound_defaults, config_defaults,
}
use knode.Config.Duration.{parse_duration}
use knode.Config.Stable.{validate-stable, KboardIsSettled}
use knode.Kboard.Start.{has_server}
use knode.Text.{
  lit, str_eq, is_space, trim_left, trim_right, trim_space, has_prefix, lower_rune, to_lower,
}
use knode.Base64.{
  char_value, quantum_2, quantum_3, quantum_4, decode_quanta, skip_breaks, decode_string,
}
use knode.Keys.{strip_blanks, try_encodings, decode_key, public_matches_private}
use knode.Dialer.{UpstreamDialer, new_upstream_dialer}
use knode.Tests.Fixtures.{kboard, system, config, plain_laws, client_kless, server_kless, upstream}
use knode.Config.Handshake.{IsHandshakeConfig, validate_kless-IsHandshakeConfig}
use knode.Config.Fixed.{upstream_defaults_idem}

-- The configuration that validation gives.
abbrev pub checked : Config
checked = ok_or (validate system config) config

abbrev pub has_kboard : Option KboardConfig → Bool
has_kboard none = false
has_kboard (some k) = true

checked_facts :
    (is_ok (validate system config) ≡ true)
    × (has_kboard checked.kboard ≡ true)
    × (has_server checked.inbounds ≡ true)
unfolding validate validate_upstreams validate_inbounds validate_kless same_non_empty_secret
    signing_private_bytes check_private padding_is_bad server_signing_key_bytes validate_client
    validate_clients check_signing_key check_secret_differs has_client_secret has_static_client
    check_client_secret check_limits check_server_kless validate_server_kless has_name add_name
    check_kboard validate_kboard check_url check_ca_file check_upstream validate_upstream check_mode
    check_inbound validate_inbound capability_for_transport capability_mask_from capability_mask
    mask_for_names_from capability_mask_for_names is_supported_transport transport_uses_address
    transport_uses_url if_empty complete_endpoint normalize_endpoint kboard_defaults names_tcp
    names_server mode_by_name upstream_defaults server_kless_defaults normalize_inbound_mode
    trim_inbound inbound_defaults config_defaults parse_duration str_eq is_space trim_left
    trim_right trim_space has_prefix lower_rune to_lower char_value quantum_2 quantum_3 quantum_4
    decode_quanta skip_breaks decode_string strip_blanks try_encodings decode_key
    public_matches_private
checked_facts = (refl, refl, refl)

pub config-valid : validate system config ≡ ok checked
config-valid = is_ok-eq (validate system config) config checked_facts.0

pub checked_kboard : has_kboard checked.kboard ≡ true
checked_kboard = checked_facts.1

pub checked_has_server : has_server checked.inbounds ≡ true
checked_has_server = checked_facts.2

pub kless-valid : validate_kless system client_kless (lit "tcp") ≡ ok tt
unfolding validate_kless same_non_empty_secret check_private padding_is_bad capability_for_transport
    capability_mask_from capability_mask parse_duration str_eq is_space trim_left trim_right
    trim_space to_lower lower_rune char_value quantum_2 quantum_3 quantum_4 decode_quanta
    skip_breaks decode_string strip_blanks try_encodings decode_key
kless-valid = refl

pub config_settled : KboardIsSettled system plain_laws config.kboard
unfolding trim_space trim_left trim_right is_space
config_settled = refl

upstream_is_valid : is_ok (new_upstream_dialer system upstream) ≡ true
unfolding new_upstream_dialer validate_upstream check_upstream upstream_defaults check_url
    check_ca_file transport_uses_address transport_uses_url is_supported_transport if_empty
    has_prefix validate_kless same_non_empty_secret check_private padding_is_bad
    capability_for_transport capability_mask_from capability_mask parse_duration str_eq is_space
    trim_left trim_right trim_space to_lower lower_rune char_value quantum_2 quantum_3 quantum_4
    decode_quanta skip_breaks decode_string strip_blanks try_encodings decode_key
upstream_is_valid = refl

server_is_valid : is_ok (validate_server_kless system server_kless false) ≡ true
unfolding validate_server_kless server_kless_defaults check_server_kless signing_private_bytes
    check_limits server_signing_key_bytes validate_client validate_clients check_signing_key
    check_secret_differs has_client_secret has_static_client check_client_secret
    same_non_empty_secret padding_is_bad mask_for_names_from capability_mask_for_names if_empty
    parse_duration str_eq is_space trim_left trim_right trim_space char_value quantum_2 quantum_3
    quantum_4 decode_quanta skip_breaks decode_string strip_blanks try_encodings decode_key
server_is_valid = refl

-- A relay with the settings of the server inbound.
abbrev pub relay : ServerRelay
relay = record {
  cfg = ok_or (validate_server_kless system server_kless false) server_kless;
  signing = [];
  listen_id = lit "server";
  store = 0;
  access = none;
}

pub relay-valid : validate_server_kless system server_kless false ≡ ok relay.cfg
relay-valid =
    is_ok-eq (validate_server_kless system server_kless false) server_kless server_is_valid

abbrev pub dialer : UpstreamDialer
dialer = ok_or (new_upstream_dialer system upstream) (record { cfg = upstream })

pub dialer-valid : new_upstream_dialer system upstream ≡ ok dialer
dialer-valid =
    is_ok-eq (new_upstream_dialer system upstream) (record { cfg = upstream }) upstream_is_valid

validate-stable_example :
    (config_defaults system checked ≡ checked) × (validate system checked ≡ ok checked)
validate-stable_example =
    validate-stable system plain_laws config {c = checked} config_settled config-valid

validate_kless-IsHandshakeConfig_example :
    (c : ClientConfig) × (client_config system client_kless (lit "tcp") ≡ ok c)
    × IsHandshakeConfig system c
validate_kless-IsHandshakeConfig_example =
    validate_kless-IsHandshakeConfig system client_kless (lit "tcp") kless-valid

upstream_defaults_idem_test :
    upstream_defaults system (upstream_defaults system upstream) ≡ upstream_defaults system upstream
upstream_defaults_idem_test = upstream_defaults_idem system plain_laws upstream

-- A Kboard section whose URL passes validation once and not a second time: two of its slashes go in
-- each round.
abbrev slashes : Option KboardConfig
slashes = some (record kboard { public_url = lit "/ / /" })

abbrev validated_slashes : Option KboardConfig
validated_slashes = ok_or (validate_kboard_pointer system (Option.map kboard_defaults slashes)) none

validate_kboard_pointer-slashes_test :
    (is_ok (validate_kboard_pointer system (Option.map kboard_defaults slashes)) ≡ true)
    × (is_ok (validate_kboard_pointer system (Option.map kboard_defaults validated_slashes))
        ≡ false)
unfolding validate_kboard check_kboard kboard_defaults normalize_endpoint complete_endpoint if_empty
    parse_duration str_eq trim_space trim_left trim_right is_space has_prefix
validate_kboard_pointer-slashes_test = (refl, refl)
