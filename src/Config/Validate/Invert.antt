-- ===== src/Config/Validate/Invert.antt =====
-- internal/config/config.go: what a successful round of the two loops of `Config.Validate` did, and
-- what a successful validation did.
use knode.Prelude.{
  ap, ok_or, ℕ, suc, ◌≡◌, Bool, false, List, [], ◌∷◌, arith, ok, is_empty, drop_value,
}
use knode.Text.{str_eq}
use knode.Config.{UpstreamConfig, InboundConfig, Config}
use knode.Config.System.{System}
use knode.Config.Duration.{parse_duration, default_shutdown_grace}
use knode.Config.Defaults.{config_defaults}
use knode.Config.Validate.{
  validate_upstreams, validate_inbounds, validate_kboard_pointer, allow_dynamic_users, validate,
}
use knode.Config.Validate.Parts.{NameSet, add_name, has_name, validate_upstream, validate_inbound}

module _ (sys : System) where
  pub validate_upstreams-cons :
      (i : ℕ) (names : NameSet) (raw : UpstreamConfig) (rest : List UpstreamConfig) {all : NameSet}
      {us : List UpstreamConfig}
      → validate_upstreams sys i names (raw ∷ rest) ≡ ok (all, us)
      → (u : UpstreamConfig) × (more : List UpstreamConfig) × (validate_upstream sys raw ≡ ok u)
        × (has_name u.name names ≡ false)
        × (validate_upstreams sys (suc i) (add_name u.name names) rest ≡ ok (all, more))
        × (us ≡ u ∷ more)
  unfolding validate_upstreams
  validate_upstreams-cons i names raw rest {us} h =
      let u = ok_or (validate_upstream sys raw) raw in
      let more = (ok_or (validate_upstreams sys (suc i) (add_name u.name names) rest) ([], [])).1 in
      (u, more, ground arith, ground arith, ground arith, ground arith)

  pub validate_inbounds-cons :
      (upstreams : NameSet) (dynamic : Bool) (i : ℕ) (names : NameSet) (raw : InboundConfig)
      (rest : List InboundConfig) {bs : List InboundConfig}
      → validate_inbounds sys upstreams dynamic i names (raw ∷ rest) ≡ ok bs
      → (b : InboundConfig) × (more : List InboundConfig) × (validate_inbound sys raw upstreams
            dynamic
          ≡ ok b)
        × (has_name b.name names ≡ false)
        × (validate_inbounds sys upstreams dynamic (suc i) (add_name b.name names) rest ≡ ok more)
        × (bs ≡ b ∷ more)
  unfolding validate_inbounds
  validate_inbounds-cons upstreams dynamic i names raw rest h =
      let b = ok_or (validate_inbound sys raw upstreams dynamic) raw in
      let more =
        ok_or (validate_inbounds sys upstreams dynamic (suc i) (add_name b.name names) rest) [] in
      (b, more, ground arith, ground arith, ground arith, ground arith)

  pub validate_inbounds-is_empty :
      (upstreams : NameSet) (dynamic : Bool) (i : ℕ) (names : NameSet) (raws : List InboundConfig)
      {bs : List InboundConfig}
      → validate_inbounds sys upstreams dynamic i names raws ≡ ok bs
      → is_empty bs ≡ is_empty raws
  unfolding validate_inbounds
  validate_inbounds-is_empty upstreams dynamic i names [] h = ground arith
  validate_inbounds-is_empty upstreams dynamic i names (raw ∷ rest) h =
      let (b, more, first, fresh, others, e) =
        validate_inbounds-cons upstreams dynamic i names raw rest h in
      ap is_empty e

  -- The parts of a successful validation, `d` being the configuration with its defaults.
  pub record IsValidation (d c : Config) : Type 0 where
    pub names : NameSet
    pub node_id : str_eq d.node_id [] ≡ false
    pub has_inbound : is_empty d.inbounds ≡ false
    pub grace : drop_value (parse_duration sys d.shutdown_grace default_shutdown_grace) ≡ ok tt
    pub kboard : validate_kboard_pointer sys d.kboard ≡ ok c.kboard
    pub upstreams : validate_upstreams sys 0 [] d.upstreams ≡ ok (names, c.upstreams)
    pub inbounds :
        validate_inbounds sys names (allow_dynamic_users sys c.kboard) 0 [] d.inbounds
        ≡ ok c.inbounds
    pub rest : c ≡ record d { kboard = c.kboard; upstreams = c.upstreams; inbounds = c.inbounds }

  pub validate-IsValidation :
      (raw : Config) {c : Config}
      → validate sys raw ≡ ok c
      → IsValidation (config_defaults sys raw) c
  unfolding validate
  validate-IsValidation raw {c} h = record {
    names = (ok_or (validate_upstreams sys 0 [] (config_defaults sys raw).upstreams) ([], [])).0;
    node_id = ground arith;
    has_inbound = ground arith;
    grace = ground arith;
    kboard = ground arith;
    upstreams = ground arith;
    inbounds = ground arith;
    rest = ground arith;
  }

  pub IsValidation-validate :
      (raw c : Config) → IsValidation (config_defaults sys raw) c → validate sys raw ≡ ok c
  unfolding validate
  IsValidation-validate raw c v = ground arith
