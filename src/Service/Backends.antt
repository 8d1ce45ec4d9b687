-- ===== src/Service/Backends.antt =====
-- internal/node/service.go: every inbound of a service has the dialer or the relay that
-- `handleConnection` looks up for it.
use knode.Prelude.{
  ℕ, ◌≡◌, refl, true, ◌⊎◌, Option, none, some, List, [], ◌∷◌, arith, ok, All, Bool-cases, inl, inr,
}
use knode.Text.{Str, lit, str_eq}
use knode.Text.Lower.{UnicodeLaws}
use knode.Dict.{Dict, lookup}
use knode.Config.{InboundConfig, Config}
use knode.Config.System.{System}
use knode.Config.Stable.{KboardIsSettled}
use knode.Config.Validate.{validate, allow_dynamic_users}
use knode.Config.Validate.Parts.{NameSet, has_name}
use knode.Relay.{ServerRelay}
use knode.Dialer.{UpstreamDialer}
use knode.Service.{
  access_logs, pointer_to, user_store_object, make_dialers, Service, make_relays, new_service,
}
use knode.Service.New.{is_server, make_dialers-ok, validate-IsChecked}
use knode.Service.Dialers.{
  is_found, lookup-dialers_of, validate_upstreams-names, IsBacked, validate_inbounds-IsBacked,
}
use knode.Service.Relays.{HasRelay, make_relays-HasRelay, validate_inbounds-IsFresh}

-- What `handleConnection` finds for an inbound: a dialer, or a relay with the inbound's key and ID.
abbrev pub IsServed : Dict UpstreamDialer → Dict ServerRelay → InboundConfig → Type 0
IsServed ds rs b =
    (str_eq b.mode (lit "tcp") ≡ true) × ((d : UpstreamDialer) × (lookup b.upstream ds ≡ some d))
    ⊎ (is_server b ≡ true)
      × ((r : ServerRelay) × (lookup b.name rs ≡ some r)
          × (r.cfg ≡ b.kless)
          × (r.listen_id ≡ b.name))

is_found-some :
    (o : Option UpstreamDialer) → is_found o ≡ true → (d : UpstreamDialer) × (o ≡ some d)
is_found-some none h = cc
is_found-some (some d) h = (d, refl)

IsServed-of :
    (ds : Dict UpstreamDialer) (rs : Dict ServerRelay) (names : NameSet)
    → ((n : Str) → has_name n names ≡ true → is_found (lookup n ds) ≡ true)
    → (bs : List InboundConfig) → All (IsBacked names) bs
    → All (HasRelay rs) bs
    → All (IsServed ds rs) bs
IsServed-of ds rs names found [] p q = tt
IsServed-of ds rs names found (b ∷ bs) (p, ps) (q, qs) = (
  elim (Bool-cases (is_server b)) [
    | inl server ↦ inr (server, q server)
    | inr other ↦
        let (tcp, known) = p other in
        inl (tcp, is_found-some (lookup b.upstream ds) (found b.upstream known))
  ],
  IsServed-of ds rs names found bs ps qs,
)

-- The three stages of `New`.
pub new_service-parts :
    (sys : System) (now : ℕ) (raw : Config) {s : Service}
    → new_service sys now raw ≡ ok s
    → (validate sys raw ≡ ok s.cfg)
      × (make_dialers sys [] s.cfg.upstreams ≡ ok s.dialers)
      × (make_relays [] user_store_object (pointer_to access_logs) s.cfg.inbounds
          ≡ ok (s.relays, s.store))
unfolding new_service
new_service-parts sys now raw h = ground arith

-- In a service that `New` makes from a configuration, every inbound is either a tcp inbound whose
-- upstream has a dialer, or a server inbound that has a relay with its settings and its name,
-- where the lower case table of Unicode has its two properties and the Kboard URL has no white
-- space in front of the slashes that end it: the two lookups of `handleConnection` never fail.
pub new_service-IsServed :
    (sys : System) (laws : UnicodeLaws sys.unicode) (now : ℕ) (raw : Config) {s : Service}
    → KboardIsSettled sys laws raw.kboard
    → new_service sys now raw ≡ ok s
    → All (IsServed s.dialers s.relays) s.cfg.inbounds
unfolding lookup has_name
new_service-IsServed sys laws now raw {s} settled h =
    let (valid, dialers, relays) = new_service-parts sys now raw h in
    let v = validate-IsChecked sys laws raw settled valid in
    IsServed-of s.dialers s.relays v.names
      (λ n known. ground (
        arith,
        dialers,
        make_dialers-ok sys [] s.cfg.upstreams v.upstreams_valid,
        lookup-dialers_of n [] s.cfg.upstreams
            (validate_upstreams-names sys n 0 [] s.cfg.upstreams v.upstreams known),
      ))
      s.cfg.inbounds
      (validate_inbounds-IsBacked sys v.names (allow_dynamic_users sys s.cfg.kboard) 0 []
        s.cfg.inbounds v.inbounds)
      (make_relays-HasRelay [] user_store_object (pointer_to access_logs) s.cfg.inbounds
        {st = s.store} relays
        (validate_inbounds-IsFresh sys v.names (allow_dynamic_users sys s.cfg.kboard) 0 []
          s.cfg.inbounds v.inbounds))
