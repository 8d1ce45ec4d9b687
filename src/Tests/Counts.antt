-- ===== src/Tests/Counts.antt =====
-- The counters of a service with one connection to each of its inbounds.
use mathlib.Core.List.Perm
use mathlib.Core.List.{Memᴰ}
use knode.Prelude.{◌+◌, ◌≤◌, refl, List, [], ◌∷◌, All, length, map}
use knode.Config.{InboundConfig}
use knode.Metrics.{new_metrics, snapshot}
use knode.Metrics.Counters.{Counter, apply_all}
use knode.Service.Counts.{Visit, all_calls, IsConfigured, snapshot-errors_bound}
use knode.Tests.Fixtures.{system, config, plain_laws}
use knode.Tests.Configs.{config_settled}
use knode.Tests.Services.{service, built, network, address_text, resolve, invalid_address}
use knode.Tests.Connections.{client, peer}

abbrev visit : InboundConfig → Visit
visit b = record { inbound = b; client = client; peer = peer }

abbrev visits : List Visit
visits = map visit service.cfg.inbounds

map-visit-IsConfigured :
    (bs : List InboundConfig)
    → ((b : InboundConfig) → Memᴰ b bs → Memᴰ b service.cfg.inbounds)
    → All (IsConfigured system network address_text resolve invalid_address service) (map visit bs)
map-visit-IsConfigured [] within = tt
map-visit-IsConfigured (b ∷ bs) within =
    (within b (Memᴰ.head refl), map-visit-IsConfigured bs (λ x m. within x (Memᴰ.tail m)))

abbrev calls : List Counter
calls = all_calls system network address_text resolve invalid_address service visits

snapshot-errors_bound_example :
    let shown = snapshot (apply_all calls (new_metrics 0)) 60 in
    shown.transport_errors + (shown.handshake_errors + shown.proxy_errors) ≤ length visits
snapshot-errors_bound_example =
    snapshot-errors_bound system network address_text resolve invalid_address plain_laws 0 config
      {s = service} visits {cs = calls} 0 60 config_settled built.1
      (map-visit-IsConfigured service.cfg.inbounds (λ b m. m)) (Perm.refl calls)
