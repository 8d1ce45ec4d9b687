-- ===== src/Service/Counts.antt =====
-- internal/node/service.go and metrics.go: the counters of a node over all of its connections.
use mathlib.Core.Option
use mathlib.Core.Path.{subst}
use mathlib.Core.List.{Memᴰ, Perm}
use knode.Prelude.{ℕ, ◌+◌, ◌≤◌, ◌≡◌, refl, sym, List, [], ◌∷◌, ◌++◌, ◌⊎◌, All, ok, length, arith}
use knode.Text.{Str}
use knode.Text.Lower.{UnicodeLaws}
use knode.AccessLog.Item.{RelayTarget}
use knode.Config.{Config, InboundConfig}
use knode.Config.System.{System}
use knode.Config.Stable.{KboardIsSettled}
use knode.Dialer.{Network}
use knode.Metrics.{new_metrics, snapshot}
use knode.Metrics.Counters.{Counter, apply_all}
use knode.Metrics.Totals.{
  sum_of, transport_failures, handshake_failures, proxy_failures, apply_all-IsTally,
}
use knode.Metrics.Order.{apply_all-perm}
use knode.Relay.Effects.{Effect, CopyError}
use knode.Relay.Udp.{Client}
use knode.Relay.Handle.{Peer}
use knode.Relay.Handle.Reports.{failures, failure_weight}
use knode.Service.{Service, new_service}
use knode.Service.Connection.{handle_connection, IsHandled, handle_connection-total}

-- The calls on the counters that stand in a list of effects.
abbrev pub counters_of : List Effect → List Counter
counters_of [] = []
counters_of (Effect.counted c ∷ es) = c ∷ counters_of es
counters_of (_ ∷ es) = counters_of es

-- A goroutine of a connection: `beginConnection`, the handler, and the deferred `endConnection`.
abbrev pub connection_calls : List Effect → List Counter
connection_calls es = Counter.begin ∷ (counters_of es ++ (Counter.end ∷ []))

-- A connection: where it came in, and what its client and its peers do.
pub record Visit : Type 0 where
  pub inbound : InboundConfig
  pub client : Client
  pub peer : Peer

sum_of-append :
    (w : Counter → ℕ) (cs ds : List Counter) → sum_of w (cs ++ ds) ≡ sum_of w cs + sum_of w ds
sum_of-append w [] ds = omega arith
sum_of-append w (c ∷ cs) ds = ground (arith, sum_of-append w cs ds)

-- The calls that count a failure.
abbrev failed_calls : List Counter → ℕ
failed_calls cs =
    sum_of transport_failures cs + (sum_of handshake_failures cs + sum_of proxy_failures cs)

failed_calls-append :
    (cs ds : List Counter) → failed_calls (cs ++ ds) ≡ failed_calls cs + failed_calls ds
failed_calls-append cs ds = omega (
  arith,
  sum_of-append transport_failures cs ds,
  sum_of-append handshake_failures cs ds,
  sum_of-append proxy_failures cs ds,
)

failed_calls-single : (c : Counter) → failed_calls (c ∷ []) ≡ failure_weight (Effect.counted c)
failed_calls-single Counter.begin = refl
failed_calls-single Counter.end = refl
failed_calls-single Counter.rejected = refl
failed_calls-single Counter.transport_error = refl
failed_calls-single Counter.handshake_error = refl
failed_calls-single Counter.proxy_error = refl
failed_calls-single (Counter.up_bytes n) = refl
failed_calls-single (Counter.down_bytes n) = refl

failed_calls-counters_of : (es : List Effect) → failed_calls (counters_of es) ≡ failures es
failed_calls-counters_of [] = refl
failed_calls-counters_of (Effect.recorded item ∷ es) = omega (arith, failed_calls-counters_of es)
failed_calls-counters_of (Effect.responded r ∷ es) = omega (arith, failed_calls-counters_of es)
failed_calls-counters_of (Effect.closed e ∷ es) = omega (arith, failed_calls-counters_of es)
failed_calls-counters_of (Effect.counted c ∷ es) =
    omega (arith, failed_calls-counters_of es, failed_calls-single c)

failed_calls-connection : (es : List Effect) → failed_calls (connection_calls es) ≡ failures es
failed_calls-connection es =
    omega
      (arith, failed_calls-append (counters_of es) (Counter.end ∷ []), failed_calls-counters_of es)

-- What holds of all elements holds of a member.
All-at : {A : Type 0} (P : A → Type 0) {x : A} {xs : List A} → All P xs → Memᴰ x xs → P x
All-at P {xs = []} h m = elim m [ ]
All-at P {xs = y ∷ ys} (p, h) (Memᴰ.head e) = subst P (sym e) p
All-at P {xs = y ∷ ys} (p, h) (Memᴰ.tail m) = All-at P h m

module _ (sys : System) (net : Network) {Addr : Type 0} (address_text : RelayTarget → Str)
    (resolve : Str → CopyError ⊎ Addr) (invalid_address : CopyError) where
  -- What a connection does; one that panicked would do nothing here.
  abbrev visit_effects : Service → Visit → List Effect
  visit_effects s v =
      Option.get_or
        (handle_connection sys net address_text resolve invalid_address s v.inbound v.client v.peer)
        []

  -- The calls of the goroutines of some connections, one goroutine behind the other.
  abbrev pub all_calls : Service → List Visit → List Counter
  all_calls s [] = []
  all_calls s (v ∷ vs) = connection_calls (visit_effects s v) ++ all_calls s vs

  abbrev pub IsConfigured : Service → Visit → Type 0
  IsConfigured s v = Memᴰ v.inbound s.cfg.inbounds

  failures-visit :
      (s : Service) (v : Visit)
      → IsHandled sys net address_text resolve invalid_address s v.inbound
      → failures (visit_effects s v) ≤ 1
  unfolding IsHandled
  failures-visit s v h =
      let (es, handled, few) = h v.client v.peer in
      subst (λ o. failures (Option.get_or o []) ≤ 1) (sym handled) few

  failed_calls-all_calls :
      (s : Service) (vs : List Visit)
      → All (IsHandled sys net address_text resolve invalid_address s) s.cfg.inbounds
      → All (IsConfigured s) vs
      → failed_calls (all_calls s vs) ≤ length vs
  failed_calls-all_calls s [] handled configured = omega arith
  failed_calls-all_calls s (v ∷ vs) handled (here, configured) = omega (
    arith,
    failed_calls-append (connection_calls (visit_effects s v)) (all_calls s vs),
    failed_calls-connection (visit_effects s v),
    failures-visit s v
        (All-at (IsHandled sys net address_text resolve invalid_address s) handled here),
    failed_calls-all_calls s vs handled configured,
  )

  -- Take a service that `New` made from a configuration, where the lower case table of Unicode has its
  -- two properties and the Kboard URL has no white space in front of the slashes that end it, and
  -- any number of connections to its inbounds, whatever their clients and peers do. If all of their
  -- goroutines, in any order among each other, made their calls on fresh counters, a snapshot shows
  -- at most as many transport, handshake and proxy errors together as there were connections.
  pub snapshot-errors_bound :
      (laws : UnicodeLaws sys.unicode) (now : ℕ) (raw : Config) {s : Service} (vs : List Visit)
      {cs : List Counter} (start at : ℕ)
      → KboardIsSettled sys laws raw.kboard
      → new_service sys now raw ≡ ok s
      → All (IsConfigured s) vs
      → Perm cs (all_calls s vs)
      → let shown = snapshot (apply_all cs (new_metrics start)) at in
        shown.transport_errors + (shown.handshake_errors + shown.proxy_errors) ≤ length vs
  unfolding snapshot
  snapshot-errors_bound laws now raw {s} vs {cs} start at settled made configured order =
      let calls = all_calls s vs in
      let same = (apply_all-perm order (new_metrics start) at).0 in
      let tally = apply_all-IsTally calls start in
      let bound =
        failed_calls-all_calls s vs
          (handle_connection-total sys net address_text resolve invalid_address laws now raw settled
            made)
          configured in
      subst (λ m. m.transport_errs + (m.handshake_errs + m.proxy_errs) ≤ length vs) (sym same)
        (omega (arith, tally.transport_errs, tally.handshake_errs, tally.proxy_errs, bound))
