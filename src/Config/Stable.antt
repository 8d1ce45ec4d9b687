-- ===== src/Config/Stable.antt =====
-- internal/config/config.go: validating a validated configuration again changes nothing. `New`,
-- `NewUpstreamDialer` and `CheckUpstreams` do so with what `Load` validated.
mod Parts
mod Inbound
use mathlib.Core.Option
use mathlib.Core.Path.{ap₂, subst}
use knode.Prelude.{
  ◌==◌, ℕ, suc, ◌≡◌, refl, ap, ◌∙◌, sym, Bool, Option, none, some, List, [], ◌∷◌, map, arith, ok,
  Error, map_err, All, >>=-eq-ok, ◌>>=◌, ◌>>◌, drop_value,
}
use knode.Text.{Str, str_eq, lit, trim_space}
use knode.Text.Trim.{trim_space_idem, trim_right_idem}
use knode.Text.Lower.{UnicodeLaws}
use knode.Config.{KboardConfig, UpstreamConfig, InboundConfig, Config}
use knode.Config.System.{System}
use knode.Config.Duration.{parse_duration, default_shutdown_grace}
use knode.Config.Defaults.{
  trim_slashes, if_empty, kboard_defaults, upstream_defaults, server_kless_defaults,
  inbound_defaults, config_defaults,
}
use knode.Config.Fixed.{
  IsSettled, kboard_defaults_idem, upstream_defaults_idem, server_kless_defaults_idem,
  if_empty_idem,
}
use knode.Config.Validate.{
  validate_upstreams, validate_inbounds, validate_kboard_pointer, allow_dynamic_users, validate,
}
use knode.Config.Validate.Invert.{
  IsValidation, validate-IsValidation, IsValidation-validate, validate_upstreams-cons,
  validate_inbounds-is_empty, validate_inbounds-cons,
}
use knode.Config.Validate.Parts.{NameSet, add_name, validate_kboard}
use Parts.{validate_upstream-again, validate_kboard-again}
use Inbound.{validate_inbound-again}

-- A text that is a default or not empty keeps it.
if_empty_fixed : (s d : Str) {t : Str} → t ≡ if_empty s d → if_empty t d ≡ t
if_empty_fixed s d h = ap (λ x. if_empty x d) h ∙ (if_empty_idem s d ∙ sym h)

module _ (sys : System) (laws : UnicodeLaws sys.unicode) where
  validate_upstreams-again :
      (i : ℕ) (names : NameSet) (raws : List UpstreamConfig) {all : NameSet}
      {us : List UpstreamConfig}
      → validate_upstreams sys i names raws ≡ ok (all, us)
      → (map (upstream_defaults sys) us ≡ us) × (validate_upstreams sys i names us ≡ ok (all, us))
  unfolding validate_upstreams
  validate_upstreams-again i names [] h = ground arith
  validate_upstreams-again i names (raw ∷ rest) h =
      let (u, more, first, fresh, others, e) = validate_upstreams-cons sys i names raw rest h in
      let (same, again) = validate_upstream-again sys laws raw first in
      let (mapped, repeated) =
        validate_upstreams-again (suc i) (add_name u.name names) rest others in
      let fixed : upstream_defaults sys u ≡ u =
        ap (upstream_defaults sys) same ∙ (upstream_defaults_idem sys laws raw ∙ sym same) in
      (rw e (ap₂ ◌∷◌ fixed mapped), ground arith)

  abbrev HasKlessDefaults : InboundConfig → Type 0
  HasKlessDefaults i = server_kless_defaults sys i.kless ≡ i.kless

  validate_inbounds-again :
      (upstreams : NameSet) (dynamic : Bool) (i : ℕ) (names : NameSet) (raws : List InboundConfig)
      {bs : List InboundConfig}
      → All HasKlessDefaults raws
      → validate_inbounds sys upstreams dynamic i names raws ≡ ok bs
      → (map (inbound_defaults sys) bs ≡ bs)
        × (validate_inbounds sys upstreams dynamic i names bs ≡ ok bs)
  unfolding validate_inbounds
  validate_inbounds-again upstreams dynamic i names [] k h = ground arith
  validate_inbounds-again upstreams dynamic i names (raw ∷ rest) (k, ks) h =
      let (b, more, first, fresh, others, e) =
        validate_inbounds-cons sys upstreams dynamic i names raw rest h in
      let (fixed, again) = validate_inbound-again sys laws raw upstreams dynamic k first in
      let (mapped, repeated) =
        validate_inbounds-again upstreams dynamic (suc i) (add_name b.name names) rest ks others in
      (rw e (ap₂ ◌∷◌ fixed mapped), ground arith)

  inbounds-HasKlessDefaults :
      (raws : List InboundConfig) → All HasKlessDefaults (map (inbound_defaults sys) raws)
  unfolding inbound_defaults
  inbounds-HasKlessDefaults [] = tt
  inbounds-HasKlessDefaults (raw ∷ raws) =
      (server_kless_defaults_idem sys laws raw.kless, inbounds-HasKlessDefaults raws)

  -- A missing Kboard section, or one whose URL is settled.
  abbrev pub KboardIsSettled : Option KboardConfig → Type 0
  KboardIsSettled none = Unit
  KboardIsSettled (some k) = IsSettled k

  IsSettled-again : (k : KboardConfig) → IsSettled k → IsSettled (kboard_defaults k)
  unfolding kboard_defaults
  IsSettled-again k h =
      let p = trim_slashes (trim_space k.public_url) in
      let cut : trim_slashes (trim_space p) ≡ p =
        ap trim_slashes h ∙ trim_right_idem (λ c. c == b'/') (trim_space k.public_url) in
      ap trim_space cut ∙ (h ∙ sym cut)

  kboard-again :
      (raw : Option KboardConfig) {k : Option KboardConfig}
      → KboardIsSettled raw
      → validate_kboard_pointer sys (Option.map kboard_defaults raw) ≡ ok k
      → (Option.map kboard_defaults k ≡ k) × (validate_kboard_pointer sys k ≡ ok k)
  kboard-again none h e = ground arith
  kboard-again (some raw) {k} h e =
      let d = kboard_defaults raw in
      let (k', valid, out) =
        >>=-eq-ok (map_err (Error.wrap "kboard") (validate_kboard sys d)) _ e in
      let (same, again) =
        validate_kboard-again sys d {k = k'} (IsSettled-again raw h) (ground arith) in
      let fixed : kboard_defaults k' ≡ k' =
        ap kboard_defaults same ∙ (kboard_defaults_idem d (IsSettled-again raw h) ∙ sym same) in
      ground arith

  kboard-KboardIsSettled :
      (raw : Option KboardConfig) {k : Option KboardConfig}
      → KboardIsSettled raw
      → validate_kboard_pointer sys (Option.map kboard_defaults raw) ≡ ok k
      → KboardIsSettled k
  kboard-KboardIsSettled none {k} h e =
      let same : k ≡ none = ground arith in subst KboardIsSettled (sym same) tt
  kboard-KboardIsSettled (some raw) {k} h e =
      let d = kboard_defaults raw in
      let (k', valid, out) =
        >>=-eq-ok (map_err (Error.wrap "kboard") (validate_kboard sys d)) _ e in
      let settled = IsSettled-again raw h in
      let same = (validate_kboard-again sys d {k = k'} settled (ground arith)).0 in
      let is_k : k ≡ some k' = ground arith in
      subst KboardIsSettled (sym is_k) (subst IsSettled (sym same) (IsSettled-again d settled))

-- The URL of a validated configuration is settled as that of the given one is.
pub validate-KboardIsSettled :
    (sys : System) (laws : UnicodeLaws sys.unicode) (raw : Config) {c : Config}
    → KboardIsSettled sys laws raw.kboard
    → validate sys raw ≡ ok c
    → KboardIsSettled sys laws c.kboard
unfolding config_defaults
validate-KboardIsSettled sys laws raw settled h =
    kboard-KboardIsSettled sys laws raw.kboard settled (validate-IsValidation sys raw h).kboard

-- If a configuration validates, the result has all its defaults already, and validating it once
-- more succeeds and gives the same configuration, where the lower case table of Unicode has its
-- two properties and the Kboard URL has no white space in front of the slashes that end it.
pub validate-stable :
    (sys : System) (laws : UnicodeLaws sys.unicode) (raw : Config) {c : Config}
    → KboardIsSettled sys laws raw.kboard
    → validate sys raw ≡ ok c
    → (config_defaults sys c ≡ c) × (validate sys c ≡ ok c)
unfolding config_defaults
validate-stable sys laws raw {c} settled h =
    let v = validate-IsValidation sys raw h in
    let node_id : c.node_id ≡ trim_space raw.node_id = ap (λ (x : Config). x.node_id) v.rest in
    let address : c.admin.address ≡ if_empty raw.admin.address (lit "127.0.0.1:8080") =
      ap (λ (x : Config). x.admin.address) v.rest in
    let grace : c.shutdown_grace ≡ if_empty raw.shutdown_grace (lit "10s") =
      ap (λ (x : Config). x.shutdown_grace) v.rest in
    let kboard = kboard-again sys laws raw.kboard settled v.kboard in
    let upstreams =
      validate_upstreams-again sys laws 0 [] (map (upstream_defaults sys) raw.upstreams)
        v.upstreams in
    let inbounds =
      validate_inbounds-again sys laws v.names (allow_dynamic_users sys c.kboard) 0 []
        (map (inbound_defaults sys) raw.inbounds) (inbounds-HasKlessDefaults sys laws raw.inbounds)
        v.inbounds in
    let fixed : config_defaults sys c ≡ c = λ i. record {
      node_id = (ap trim_space node_id ∙ (trim_space_idem raw.node_id ∙ sym node_id)) i;
      admin = record {
        address = if_empty_fixed raw.admin.address (lit "127.0.0.1:8080") address i;
      };
      shutdown_grace = if_empty_fixed raw.shutdown_grace (lit "10s") grace i;
      kboard = kboard.0 i;
      upstreams = upstreams.0 i;
      inbounds = inbounds.0 i;
    } in
    let again : IsValidation sys c c = record {
      names = v.names;
      node_id = ap (λ x. str_eq x []) node_id ∙ v.node_id;
      has_inbound =
          validate_inbounds-is_empty sys v.names (allow_dynamic_users sys c.kboard) 0 []
            (map (inbound_defaults sys) raw.inbounds) v.inbounds
          ∙ v.has_inbound;
      grace = ap (λ x. drop_value (parse_duration sys x default_shutdown_grace)) grace ∙ v.grace;
      kboard = kboard.1;
      upstreams = upstreams.1;
      inbounds = inbounds.1;
      rest = refl;
    } in
    (fixed, IsValidation-validate sys c c (subst (λ d. IsValidation sys d c) (sym fixed) again))
