-- ===== src/Config/Validate.antt =====
-- internal/config/config.go: the `Validate` methods. A method that changes its receiver returns the
-- changed value on success; on an error every caller drops the receiver, so it is left out there.
pub mod Kless
pub mod Server
pub mod Parts
pub mod Invert
use mathlib.Core.Option
use knode.Prelude.{
  ℕ, suc, Bool, false, not, Option, none, some, List, [], ◌∷◌, is_empty, Error, Result, ok, ◌>>=◌,
  ◌>>◌, refuse_if, map_err, drop_value,
}
use knode.Text.{str_eq}
use knode.Config.{KboardConfig, UpstreamConfig, InboundConfig, Config}
use knode.Config.System.{System}
use knode.Config.Duration.{parse_duration, default_shutdown_grace}
use knode.Config.Defaults.{config_defaults}
use Parts.{validate_kboard, validate_upstream, validate_inbound, NameSet, has_name, add_name}

module _ (sys : System) where
  -- The loop over the upstreams: index, names seen so far, and the checked upstreams.
  unfoldable pub validate_upstreams :
      ℕ → NameSet → List UpstreamConfig → Result (NameSet × List UpstreamConfig)
  validate_upstreams i names [] = ok (names, [])
  validate_upstreams i names (raw ∷ rest) = do
    u ← map_err (Error.wrap_at "upstreams" i) (validate_upstream sys raw)
    refuse_if (has_name u.name names)
        (Error.wrap_at "upstreams" i (Error.about "duplicate upstream name" u.name))
    (all, us) ← validate_upstreams (suc i) (add_name u.name names) rest
    ok (all, u ∷ us)

  -- The loop over the inbounds.
  unfoldable pub validate_inbounds :
      NameSet → Bool → ℕ → NameSet → List InboundConfig → Result (List InboundConfig)
  validate_inbounds upstreams dynamic i names [] = ok []
  validate_inbounds upstreams dynamic i names (raw ∷ rest) = do
    b ← map_err (Error.wrap_at "inbounds" i) (validate_inbound sys raw upstreams dynamic)
    refuse_if (has_name b.name names)
        (Error.wrap_at "inbounds" i (Error.about "duplicate inbound name" b.name))
    bs ← validate_inbounds upstreams dynamic (suc i) (add_name b.name names) rest
    ok (b ∷ bs)

  -- `if c.Kboard != nil { … }`.
  abbrev pub validate_kboard_pointer : Option KboardConfig → Result (Option KboardConfig)
  validate_kboard_pointer none = ok none
  validate_kboard_pointer (some k) = do
    k' ← map_err (Error.wrap "kboard") (validate_kboard sys k)
    ok (some k')

  -- `c.Kboard != nil && c.Kboard.UsersEndpoint != ""`.
  abbrev pub allow_dynamic_users : Option KboardConfig → Bool
  allow_dynamic_users none = false
  allow_dynamic_users (some k) = not (str_eq k.users_endpoint [])

  -- `Config.Validate`.
  unfoldable pub validate : Config → Result Config
  validate raw = do
    let c = config_defaults sys raw
    refuse_if (str_eq c.node_id []) (Error.text "node_id is required")
    refuse_if (is_empty c.inbounds) (Error.text "at least one inbound is required")
    map_err (Error.wrap "shutdown_grace")
        (drop_value (parse_duration sys c.shutdown_grace default_shutdown_grace))
    kboard ← validate_kboard_pointer c.kboard
    (names, upstreams) ← validate_upstreams 0 [] c.upstreams
    inbounds ← validate_inbounds names (allow_dynamic_users kboard) 0 [] c.inbounds
    ok (record c { kboard = kboard; upstreams = upstreams; inbounds = inbounds })
