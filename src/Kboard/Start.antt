-- ===== src/Kboard/Start.antt =====
-- internal/node/service.go: the reporter that `Run` starts for a service.
use knode.Prelude.{
  ℕ, ◌≡◌, refl, ap, sym, ◌∙◌, Bool, true, false, ◌||◌, Option, none, some, List, [], ◌∷◌, ok, inl,
  inr, All, arith,
}
use knode.Text.{Str}
use knode.Text.Lower.{UnicodeLaws}
use knode.Dict.{Dict, lookup}
use knode.AccessLog.{new_buffer}
use knode.ClientStore.{DynamicClientStore}
use knode.Config.{KboardConfig, InboundConfig, Config}
use knode.Config.System.{System}
use knode.Config.Stable.{KboardIsSettled}
use knode.Dialer.{UpstreamDialer}
use knode.Relay.{ServerRelay}
use knode.Service.{Service, new_service, user_store_object, access_logs}
use knode.Service.New.{is_server}
use knode.Service.Backends.{IsServed, new_service-IsServed, new_service-parts}
use knode.Service.Relays.{PointsTo, make_relays-PointsTo}
use knode.Shared.{Shared, deref, pointer_to, content_of}
use knode.Dict.Distinct.{Entries}
use knode.Service.Connection.{tcp-ne-server}
use knode.Kboard.Reporter.{Reporter, new_reporter}

-- The loop that takes the store of the first relay that the map gives.
unfoldable pub user_store :
    Dict ServerRelay → Shared DynamicClientStore → Option (Shared DynamicClientStore)
user_store [] store = none
user_store ((name, relay) ∷ relays) store = deref store relay.store

-- The reporter, if there is a Kboard section.
unfoldable pub start_reporter : Service → Str → Str → Option Reporter
start_reporter s hostname runtime_info = elim s.cfg.kboard [
  | none ↦ none
  | some k ↦
      some
        (new_reporter k s.cfg.node_id hostname runtime_info (user_store s.relays s.store) s.access)
]

-- Some inbound serves KLESS clients.
abbrev pub has_server : List InboundConfig → Bool
has_server [] = false
has_server (b ∷ bs) = is_server b || has_server bs

-- The store of the relays is found, if there is one.
server_relay-found :
    (n : Str) (relays : Dict ServerRelay) (store : Shared DynamicClientStore) (access : Option ℕ)
    {r : ServerRelay}
    → lookup n relays ≡ some r
    → Entries (PointsTo store.address access) relays
    → user_store relays store ≡ some store
unfolding user_store lookup deref
server_relay-found n [] store access h points = cc
server_relay-found n ((name, relay) ∷ relays) store access h ((at_store, at_queue), points) =
    ground (arith, at_store)

has_server-user_store :
    (ds : Dict UpstreamDialer) (rs : Dict ServerRelay) (store : Shared DynamicClientStore)
    (access : Option ℕ) (bs : List InboundConfig)
    → All (IsServed ds rs) bs
    → has_server bs ≡ true
    → Entries (PointsTo store.address access) rs
    → user_store rs store ≡ some store
has_server-user_store ds rs store access [] h e points = cc
has_server-user_store ds rs store access (b ∷ bs) (inr (server, (r, found, key, name)), hs) e
      points =
    server_relay-found b.name rs store access found points
has_server-user_store ds rs store access (b ∷ bs) (inl (tcp, found), hs) e points =
    has_server-user_store ds rs store access bs hs (ground (arith, tcp-ne-server b.mode)) points

new_service-access :
    (sys : System) (now : ℕ) (raw : Config) {s : Service}
    → new_service sys now raw ≡ ok s
    → s.access ≡ access_logs
unfolding new_service
new_service-access sys now raw h = ground arith

-- The pointers of a relay are those of a reporter.
abbrev pub SharesWith : Reporter → Str → ServerRelay → Type 0
SharesWith r name relay = (r.store_at ≡ some relay.store) × (r.access_at ≡ relay.access)

SharesWith-PointsTo :
    (r : Reporter) (rs : Dict ServerRelay) {store : ℕ} {access : Option ℕ}
    → r.store_at ≡ some store
    → r.access_at ≡ access
    → Entries (PointsTo store access) rs
    → Entries (SharesWith r) rs
SharesWith-PointsTo r [] s a h = tt
SharesWith-PointsTo r ((name, relay) ∷ rs) s a ((at_store, at_queue), h) =
    ((s ∙ ap some (sym at_store), a ∙ sym at_queue), SharesWith-PointsTo r rs s a h)

-- Run starts a reporter for a service with a Kboard section. Where an inbound serves KLESS clients, the
-- reporter points to the client store and to the access log queue that every relay of the service
-- points to: what a sync loads is what a handshake looks up, and what a relay records is what the
-- reporter sends. It starts with the store that has the static clients, and with the new queue. The
-- service is one that `New` made, where the lower case table of Unicode has its two properties and the
-- Kboard URL has no white space in front of the slashes that end it.
pub start_reporter-shares :
    (sys : System) (laws : UnicodeLaws sys.unicode) (now : ℕ) (raw : Config) {s : Service}
    {k : KboardConfig} (hostname runtime_info : Str)
    → KboardIsSettled sys laws raw.kboard
    → new_service sys now raw ≡ ok s
    → s.cfg.kboard ≡ some k
    → has_server s.cfg.inbounds ≡ true
    → (r : Reporter) × (start_reporter s hostname runtime_info ≡ some r)
      × Entries (SharesWith r) s.relays
      × (r.store ≡ some s.store.content)
      × (r.access ≡ new_buffer)
      × (r.cfg ≡ k)
unfolding start_reporter new_reporter
start_reporter-shares sys laws now raw {s} {k} hostname runtime_info settled made has server =
    let served = new_service-IsServed sys laws now raw settled made in
    let (valid, dialers, relays) = new_service-parts sys now raw made in
    let (points, kept) =
      make_relays-PointsTo [] user_store_object (pointer_to access_logs) s.cfg.inbounds
        {st = s.store} relays tt in
    let found =
      has_server-user_store s.dialers s.relays s.store (pointer_to access_logs) s.cfg.inbounds
        served server points in
    let logs = new_service-access sys now raw made in
    let r =
      new_reporter k s.cfg.node_id hostname runtime_info (user_store s.relays s.store) s.access in
    (
      r,
      rw (has, start_reporter) refl,
      SharesWith-PointsTo r s.relays (ap pointer_to found) (ap pointer_to logs) points,
      ap content_of found,
      ap content_of logs,
      refl,
    )
