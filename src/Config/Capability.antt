-- ===== src/Config/Capability.antt =====
-- internal/config/config.go: transports and the capability masks that stand for them.
use Prim.Native.Nat.{bit_or}
use knode.Prelude.{
  ℕ, Bool, ◌||◌, not, List, [], ◌∷◌, ◌==◌, if◌then◌else◌, is_empty, Error, Result, ok, err, is_ok,
}
use knode.Text.{Str, lit, str_eq, trim_space, to_lower}
use knode.Config.System.{System}

module _ (sys : System) where
  open sys use {kless, unicode}

  unfoldable pub capability_for_transport : Str → Result ℕ
  capability_for_transport t =
      if str_eq t (lit "tcp")
      then ok kless.capability_tcp
      else if str_eq t (lit "tls")
      then ok kless.capability_tls
      else if str_eq t (lit "httpupgrade") || str_eq t (lit "httpupdate")
      then ok kless.capability_http_upgrade
      else if str_eq t (lit "websocket")
      then ok kless.capability_web_socket
      else if str_eq t (lit "httpstream")
      then ok kless.capability_http
      else if str_eq t (lit "grpc")
      then ok kless.capability_grpc
      else if str_eq t (lit "xhttp")
      then ok kless.capability_xhttp
      else if str_eq t (lit "http3")
      then ok kless.capability_http3
      else err (Error.about "unsupported capability" t)

  -- The loop of `capabilityMask`.
  unfoldable pub capability_mask_from : ℕ → List Str → Result ℕ
  capability_mask_from caps [] = ok caps
  capability_mask_from caps (name ∷ names) =
      elim (capability_for_transport (to_lower unicode (trim_space name))) [
        | err e ↦ err e
        | ok capability ↦ capability_mask_from (bit_or caps capability) names
      ]

  unfoldable pub capability_mask : Str → List Str → Result ℕ
  capability_mask transport names =
      if is_empty names then capability_for_transport transport else capability_mask_from 0 names

  -- The loop of `capabilityMaskForNames`.
  unfoldable pub mask_for_names_from : ℕ → List Str → Result ℕ
  mask_for_names_from caps [] = ok caps
  mask_for_names_from caps (raw ∷ names) =
      let name = to_lower unicode (trim_space raw) in
      let skip = mask_for_names_from caps names in
      let all = mask_for_names_from (bit_or caps kless.capability_all) names in
      let one : Result ℕ = elim (capability_for_transport name) [
        | err e ↦ err e
        | ok capability ↦ mask_for_names_from (bit_or caps capability) names
      ] in
      if str_eq name [] then skip else if str_eq name (lit "all") then all else one

  unfoldable pub capability_mask_for_names : List Str → Result ℕ
  capability_mask_for_names names =
      if is_empty names then ok kless.capability_all else elim (mask_for_names_from 0 names) [
        | err e ↦ err e
        | ok caps ↦
            if caps == 0 then err (Error.text "at least one capability is required") else ok caps
      ]

  unfoldable pub is_supported_transport : Str → Bool
  is_supported_transport transport = is_ok (capability_for_transport transport)

-- `transportUsesAddress` and `transportUsesURL`.
unfoldable pub transport_uses_address : Str → Bool
transport_uses_address transport = str_eq transport (lit "tcp") || str_eq transport (lit "tls")

unfoldable pub transport_uses_url : Str → Bool
transport_uses_url transport = not (transport_uses_address transport)
