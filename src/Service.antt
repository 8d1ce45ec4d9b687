-- ===== src/Service.antt =====
-- internal/node/service.go: the service, and how `New` builds it. The logger is left out.
pub mod New
pub mod Dialers
pub mod Relays
pub mod Backends
pub mod Counts
pub mod Connection
pub mod Run
pub mod Admin
use mathlib.Core.Option
use knode.Prelude.{
  ℕ, ◌+◌, not, Option, some, List, [], ◌∷◌, ◌==◌, if◌then◌else◌, length, map, Error, Result, ok,
  ◌>>=◌, ◌>>◌, map_err,
}
use knode.Shared.{Shared, allocate, pointer_to}
use knode.Text.{Str, lit, str_eq}
use knode.Dict.{Dict, lookup, insert}
use knode.Metrics.{Metrics, MetricsSnapshot, new_metrics, snapshot}
use knode.AccessLog.{AccessLogBuffer, new_buffer}
use knode.ClientStore.{DynamicClientStore, new_store}
use knode.Config.{UpstreamConfig, InboundConfig, Config}
use knode.Config.System.{System}
use knode.Config.Validate.{validate}
use knode.Relay.{ServerRelay, new_server_relay, require_kless_server_relay}
use knode.Dialer.{UpstreamDialer, new_upstream_dialer}

-- `store` is the client store that `New` made.
pub record Service : Type 0 where
  pub cfg : Config
  pub metrics : Metrics
  pub dialers : Dict UpstreamDialer
  pub relays : Dict ServerRelay
  pub store : Shared DynamicClientStore
  pub access : Option (Shared AccessLogBuffer)
  pub admin_addr : Str
  pub inbound_addrs : Dict Str
  pub started_listeners : ℕ

pub record Status : Type 0 where
  pub node_id : Str
  pub admin : Str
  pub inbounds : Dict Str
  pub upstreams : List Str
  pub metrics : MetricsSnapshot

module _ (sys : System) where
  -- The loop over the upstreams.
  unfoldable pub make_dialers :
      Dict UpstreamDialer → List UpstreamConfig → Result (Dict UpstreamDialer)
  make_dialers dialers [] = ok dialers
  make_dialers dialers (u ∷ us) = do
    dialer ← map_err (Error.wrap_name "upstream" u.name) (new_upstream_dialer sys u)
    make_dialers (insert u.name dialer dialers) us

-- The loop over the inbounds, with the relays so far, the store that they are given and the pointer to
-- the queue.
unfoldable pub make_relays :
    Dict ServerRelay
    → Shared DynamicClientStore
    → Option ℕ
    → List InboundConfig
    → Result (Dict ServerRelay × Shared DynamicClientStore)
make_relays relays store access [] = ok (relays, store)
make_relays relays store access (inbound ∷ rest) =
    let skip = make_relays relays store access rest in
    let serve : Result (Dict ServerRelay × Shared DynamicClientStore) = do
      require_kless_server_relay inbound
      (relay, store') ←
          map_err (Error.wrap_name "inbound" inbound.name)
            (new_server_relay (store.address + 1) inbound.name inbound.kless (some store) access)
      make_relays (insert inbound.name relay relays) store' access rest
    in if not (str_eq inbound.mode (lit "kless-server")) then skip else serve

-- The client store and the queue that `New` makes, at an address each.
abbrev pub user_store_object : Shared DynamicClientStore
user_store_object = record { address = 0; content = new_store }

abbrev pub access_logs : Option (Shared AccessLogBuffer)
access_logs = allocate 0 new_buffer

-- `New`, at a time of the clock.
unfoldable pub new_service : System → ℕ → Config → Result Service
new_service sys now raw = do
  cfg ← validate sys raw
  dialers ← make_dialers sys [] cfg.upstreams
  (relays, store) ← make_relays [] user_store_object (pointer_to access_logs) cfg.inbounds
  ok (record {
    cfg = cfg;
    metrics = new_metrics now;
    dialers = dialers;
    relays = relays;
    store = store;
    access = access_logs;
    admin_addr = [];
    inbound_addrs = [];
    started_listeners = 0;
  })

unfoldable pub set_inbound_address : Service → Str → Str → Service
set_inbound_address s name address = record s {
  inbound_addrs = insert name address s.inbound_addrs;
  started_listeners = s.started_listeners + 1;
}

unfoldable pub set_admin_address : Service → Str → Service
set_admin_address s address = record s { admin_addr = address }

-- `InboundAddress`: a missing name reads as the empty string.
unfoldable pub inbound_address : Service → Str → Str
inbound_address s name = Option.get_or (lookup name s.inbound_addrs) []

-- `handleReady`: the status code.
unfoldable pub handle_ready : Service → ℕ
handle_ready s = if not (s.started_listeners == length s.cfg.inbounds) then 503 else 200

unfoldable pub status : Service → ℕ → Status
status s now = record {
  node_id = s.cfg.node_id;
  admin = s.admin_addr;
  inbounds = s.inbound_addrs;
  upstreams = map (λ (u : UpstreamConfig). u.name) s.cfg.upstreams;
  metrics = snapshot s.metrics now;
}
