-- ===== src/Service/New.antt =====
-- internal/node/service.go: `New` fails only where `Validate` fails.
use mathlib.Core.Path.{subst}
use knode.Metrics.{new_metrics}
use knode.Text.Equality.{str_eq_iff}
use knode.Prelude.{
  ◌+◌, Option, map, ℕ, suc, ◌≡◌, refl, ap, ◌∙◌, sym, Bool, true, false, List, [], ◌∷◌, arith, ok,
  All, Bool-cases, inl, inr,
}
use knode.Text.{Str, lit, str_eq}
use knode.Text.Lower.{UnicodeLaws}
use knode.Dict.{Dict, insert}
use knode.ClientStore.{add_static, DynamicClientStore}
use knode.Config.{UpstreamConfig, InboundConfig, Config}
use knode.Config.System.{System}
use knode.Config.Defaults.{config_defaults, server_kless_defaults, trim_inbound, inbound_defaults}
use knode.Config.Stable.{KboardIsSettled, validate-stable}
use knode.Config.Validate.{validate, validate_upstreams, validate_inbounds, allow_dynamic_users}
use knode.Config.Validate.Invert.{
  IsValidation, validate-IsValidation, validate_upstreams-cons, validate_inbounds-cons,
}
use knode.Config.Validate.Server.{validate_server_kless}
use knode.Config.Validate.Parts.{
  NameSet, add_name, validate_upstream, validate_inbound, check_mode, check_inbound,
}
use knode.Relay.{ServerRelay}
use knode.Relay.Setup.{
  IsServable, validate_server_kless-IsServable, new_server_relay-ok, require_kless_server_relay-ok,
}
use knode.Dialer.{UpstreamDialer, new_upstream_dialer}
use knode.Service.{
  access_logs, pointer_to, user_store_object, Shared, Service, make_dialers, make_relays,
  new_service,
}

abbrev pub is_server : InboundConfig → Bool
is_server i = str_eq i.mode (lit "kless-server")

-- The dialers and the relays that `New` makes.
unfoldable pub dialers_of : Dict UpstreamDialer → List UpstreamConfig → Dict UpstreamDialer
dialers_of dialers [] = dialers
dialers_of dialers (u ∷ us) = dialers_of (insert u.name (record { cfg = u }) dialers) us

-- The parts of a validated configuration pass their own validation.
abbrev pub IsValidUpstream : System → UpstreamConfig → Type 0
IsValidUpstream sys u = validate_upstream sys u ≡ ok u

abbrev pub IsValidInbound : InboundConfig → Type 0
IsValidInbound i = is_server i ≡ true → IsServable i.kless

server-ne-tcp : (m : Str) → str_eq m (lit "kless-server") ≡ true → str_eq m (lit "tcp") ≡ false
unfolding str_eq
server-ne-tcp m h = ap (λ x. str_eq x (lit "tcp")) ((str_eq_iff m (lit "kless-server")).0 h)

module _ (sys : System) where
  validate_upstreams-All :
      (i : ℕ) (names : NameSet) (us : List UpstreamConfig) {all : NameSet}
      → validate_upstreams sys i names us ≡ ok (all, us)
      → All (IsValidUpstream sys) us
  validate_upstreams-All i names [] h = tt
  validate_upstreams-All i names (u ∷ us) {all} h =
      let (u', more, first, fresh, others, e) = validate_upstreams-cons sys i names u us h in
      (
        ground arith,
        validate_upstreams-All (suc i) (add_name u'.name names) us {all = all} (ground arith),
      )

  trim_inbound-fixed : (i : InboundConfig) → inbound_defaults sys i ≡ i → trim_inbound sys i ≡ i
  unfolding inbound_defaults trim_inbound
  trim_inbound-fixed i fixed = λ j. record (fixed j) { kless = i.kless }

  kless-fixed :
      (i : InboundConfig) → inbound_defaults sys i ≡ i → server_kless_defaults sys i.kless ≡ i.kless
  unfolding inbound_defaults
  kless-fixed i fixed = ap (λ (x : InboundConfig). x.kless) fixed

  check_inbound-kless :
      (i : InboundConfig) (upstreams : NameSet) (dynamic : Bool)
      → str_eq i.mode (lit "tcp") ≡ false
      → is_server i ≡ true
      → check_inbound sys i upstreams dynamic ≡ ok i
      → validate_server_kless sys i.kless dynamic ≡ ok i.kless
  unfolding check_inbound check_mode
  check_inbound-kless i upstreams dynamic other server h = ground arith

  validate_inbound-IsServable :
      (i : InboundConfig) (upstreams : NameSet) (dynamic : Bool)
      → inbound_defaults sys i ≡ i
      → validate_inbound sys i upstreams dynamic ≡ ok i
      → IsValidInbound i
  unfolding validate_inbound
  validate_inbound-IsServable i upstreams dynamic fixed h server =
      validate_server_kless-IsServable sys i.kless dynamic (kless-fixed i fixed) (
        check_inbound-kless i upstreams dynamic (server-ne-tcp i.mode server) server
          (ap (λ x. check_inbound sys x upstreams dynamic) (sym (trim_inbound-fixed i fixed)) ∙ h))

  validate_inbounds-All :
      (upstreams : NameSet) (dynamic : Bool) (i : ℕ) (names : NameSet) (bs : List InboundConfig)
      → map (inbound_defaults sys) bs ≡ bs
      → validate_inbounds sys upstreams dynamic i names bs ≡ ok bs
      → All IsValidInbound bs
  validate_inbounds-All upstreams dynamic i names [] m h = tt
  validate_inbounds-All upstreams dynamic i names (b ∷ bs) m h =
      let (b', more, first, fresh, others, e) =
        validate_inbounds-cons sys upstreams dynamic i names b bs h in
      (
        validate_inbound-IsServable b upstreams dynamic (ground arith) (ground arith),
        validate_inbounds-All upstreams dynamic (suc i) (add_name b'.name names) bs (ground arith)
            (ground arith),
      )

  pub make_dialers-ok :
      (dialers : Dict UpstreamDialer) (us : List UpstreamConfig)
      → All (IsValidUpstream sys) us
      → make_dialers sys dialers us ≡ ok (dialers_of dialers us)
  unfolding make_dialers dialers_of new_upstream_dialer
  make_dialers-ok dialers [] h = refl
  make_dialers-ok dialers (u ∷ us) (p, h) =
      ground (arith, make_dialers-ok (insert u.name (record { cfg = u }) dialers) us h)

-- The loop over the inbounds ends without an error, too.
pub make_relays-ok :
    (relays : Dict ServerRelay) (store : Shared DynamicClientStore) (access : Option ℕ)
    (bs : List InboundConfig)
    → All IsValidInbound bs
    → (rs : Dict ServerRelay) × (st : Shared DynamicClientStore) × (make_relays relays store access
          bs
        ≡ ok (rs, st))
unfolding make_relays
make_relays-ok relays store access [] h = (relays, store, refl)
make_relays-ok relays store access (b ∷ bs) (p, h) = elim (Bool-cases (is_server b)) [
  | inr other ↦ let (rs, st, e) = make_relays-ok relays store access bs h in (rs, st, ground arith)
  | inl server ↦
      let s = p server in
      let relay : ServerRelay = record {
        cfg = b.kless;
        signing = s.private;
        listen_id = b.name;
        store = store.address;
        access = access;
      } in
      let (rs, st, e) =
        make_relays-ok (insert b.name relay relays)
          (record { address = store.address; content = add_static store.content s.credentials })
          access bs h in
      (
        rs,
        st,
        ground (
          arith,
          require_kless_server_relay-ok b server s,
          new_server_relay-ok (store.address + 1) b.name b.kless store access s,
        ),
      )
]

-- A validated configuration, with what its two loops established.
pub record IsChecked (sys : System) (c : Config) : Type 0 where
  pub names : NameSet
  pub upstreams : validate_upstreams sys 0 [] c.upstreams ≡ ok (names, c.upstreams)
  pub inbounds :
      validate_inbounds sys names (allow_dynamic_users sys c.kboard) 0 [] c.inbounds ≡ ok c.inbounds
  pub upstreams_valid : All (IsValidUpstream sys) c.upstreams
  pub inbounds_valid : All IsValidInbound c.inbounds
  pub inbounds_fixed : map (inbound_defaults sys) c.inbounds ≡ c.inbounds

pub validate-IsChecked :
    (sys : System) (laws : UnicodeLaws sys.unicode) (raw : Config) {c : Config}
    → KboardIsSettled sys laws raw.kboard
    → validate sys raw ≡ ok c
    → IsChecked sys c
unfolding config_defaults
validate-IsChecked sys laws raw {c} settled h =
    let (fixed, again) = validate-stable sys laws raw settled h in
    let v = subst (λ d. IsValidation sys d c) fixed (validate-IsValidation sys c again) in
    let defaults = ap (λ (x : Config). x.inbounds) fixed in
    record {
      names = v.names;
      upstreams = v.upstreams;
      inbounds = v.inbounds;
      upstreams_valid = validate_upstreams-All sys 0 [] c.upstreams v.upstreams;
      inbounds_valid =
          validate_inbounds-All sys v.names (allow_dynamic_users sys c.kboard) 0 [] c.inbounds
            defaults v.inbounds;
      inbounds_fixed = defaults;
    }

-- A configuration that validates gives a service, which keeps the validated configuration, where
-- the lower case table of Unicode has its two properties and the Kboard URL has no white space in
-- front of the slashes that end it: none of the later checks of `New`, the second validation of
-- each upstream and the decoding of keys and static clients, can fail.
pub new_service-total :
    (sys : System) (laws : UnicodeLaws sys.unicode) (now : ℕ) (raw : Config) {c : Config}
    → KboardIsSettled sys laws raw.kboard
    → validate sys raw ≡ ok c
    → (s : Service) × (new_service sys now raw ≡ ok s) × (s.cfg ≡ c)
unfolding new_service
new_service-total sys laws now raw {c} settled h =
    let v = validate-IsChecked sys laws raw settled h in
    let (rs, st, relays) =
      make_relays-ok [] user_store_object (pointer_to access_logs) c.inbounds v.inbounds_valid in
    (
      record {
        cfg = c;
        metrics = new_metrics now;
        dialers = dialers_of [] c.upstreams;
        relays = rs;
        store = st;
        access = access_logs;
        admin_addr = [];
        inbound_addrs = [];
        started_listeners = 0;
      },
      ground (arith, make_dialers-ok sys [] c.upstreams v.upstreams_valid),
      refl,
    )
