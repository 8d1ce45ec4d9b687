-- ===== src/Tests/Reporters.antt =====
-- A run of the reporter, the counters of two connections, and the end of a service.
use mathlib.Core.List.Perm
use mathlib.Core.Option
use knode.Prelude.{
  Option, ap, ◌∙◌, false, ◌≤◌, ◌≡◌, ◌↔◌, refl, ◌&&◌, true, none, some, List, [], ◌∷◌, ◌++◌, Error,
  Result, ok, err, length, arith,
}
use knode.Text.{lit, str_eq, has_prefix}
use knode.Decimal.{decimal}
use knode.Base64.{Bytes}
use knode.AccessLog.{max_queue_size, new_buffer}
use knode.AccessLog.Fifo.{valid_items}
use knode.AccessLog.Delivery.{Delivers}
use knode.Config.{KboardConfig, Config}
use knode.Metrics.{new_metrics, snapshot}
use knode.Metrics.Counters.{Counter, apply_all}
use knode.Metrics.Order.{apply_all-perm}
use knode.Kboard.{SignedRequest, HttpAnswer, post_json, sign, check_status, endpoint_url}
use knode.Kboard.Reporter.{Reporter}
use knode.Kboard.Loop.{Exchange, Flush, Round, Event, run, loop}
use knode.Kboard.Loop.Delivery.{run_records, run-Delivers}
use knode.Kboard.Loop.Shutdown.{loop-flushes}
use knode.Dict.Distinct.{Entries}
use knode.Kboard.Start.{has_server, start_reporter, SharesWith, start_reporter-shares}
use knode.Service.{status}
use knode.Service.Run.{Stop, run_service}
use knode.Service.Run.Closing.{opened, all_open, ends_by_context, run_service-closes}
use knode.Tests.Fixtures.{system, config, plain_laws, kboard}
use knode.Tests.Configs.{config_settled, has_kboard, checked, checked_kboard, checked_has_server}
use knode.Tests.Services.{service, built, listen}
use knode.Tests.Queues.{queue_fits, queue, later, hmac, reporter, unavailable}

abbrev sum : Bytes → Bytes
sum message = message

abbrev accepting : SignedRequest → Result HttpAnswer
accepting request = ok (record {
  status = 200;
  etag = [];
  plain = err (Error.text "no JSON");
  wrapped = err (Error.text "no JSON");
})

abbrev failing : Exchange
failing = record { unix = 1700000000; nanos = 1700000000_000000000; send = unavailable }

abbrev working : Exchange
working = record { unix = 1700000060; nanos = 1700000060_000000000; send = accepting }

abbrev pub first : Round
first = record {
  users = failing;
  status = status service 0;
  alive = failing;
  traffic = failing;
  flush = record { before = later; during = []; exchange = failing };
}

abbrev last : Flush
last = record { before = []; during = later; exchange = working }

abbrev pub events : List Event
events = Event.access_tick last ∷ (Event.cancelled last ∷ [])

run-Delivers_example :
    let (r', sent) = run system hmac sum (lit "1.2") (lit "amd64") reporter first events in
    Delivers queue (run_records first events) sent.items r'.access
run-Delivers_example =
    run-Delivers system hmac sum (lit "1.2") (lit "amd64") reporter queue first events refl
      queue_fits

during_fits : length last.during ≤ max_queue_size
unfolding max_queue_size
during_fits = omega arith

logs_endpoint_is_set : str_eq kboard.access_logs_endpoint [] ≡ false
unfolding str_eq
logs_endpoint_is_set = refl

report_accepted :
    post_json system hmac kboard kboard.access_logs_endpoint (decimal 1700000060) accepting ≡ ok tt
unfolding post_json sign check_status str_eq has_prefix endpoint_url
report_accepted = refl

loop-flushes_example :
    let (r', sent) =
      loop system hmac sum (lit "1.2") (lit "amd64") reporter (Event.cancelled last ∷ []) in
    (sent.items ≡ queue.items ++ valid_items [])
    × (r'.access ≡ some (record { items = valid_items later }))
loop-flushes_example =
    loop-flushes system hmac sum (lit "1.2") (lit "amd64") reporter queue last [] refl (omega arith)
      during_fits logs_endpoint_is_set report_accepted

apply_all-perm_test :
    let cs = Counter.begin ∷ (Counter.up_bytes 7 ∷ []) in
    let ds = Counter.up_bytes 7 ∷ (Counter.begin ∷ []) in
    (apply_all cs (new_metrics 0) ≡ apply_all ds (new_metrics 0))
    × (snapshot (apply_all cs (new_metrics 0)) 5 ≡ snapshot (apply_all ds (new_metrics 0)) 5)
apply_all-perm_test =
    apply_all-perm (Perm.swap (Counter.up_bytes 7) Counter.begin []) (new_metrics 0) 5

run_service-closes_example :
    let out = run_service system listen Stop.cancelled none service in
    (out.closed ≡ opened listen service.cfg)
    × ((out.error ≡ none)
        ↔ ((all_open listen service.cfg && ends_by_context Stop.cancelled) ≡ true))
run_service-closes_example = run_service-closes listen system Stop.cancelled none service

abbrev section : KboardConfig
section = Option.get_or checked.kboard kboard

kboard_of : (k : Option KboardConfig) → has_kboard k ≡ true → k ≡ some (Option.get_or k kboard)
kboard_of none h = cc
kboard_of (some k) h = refl

service_kboard : service.cfg.kboard ≡ some section
service_kboard = ap (λ (c : Config). c.kboard) built.2 ∙ kboard_of checked.kboard checked_kboard

service_has_server : has_server service.cfg.inbounds ≡ true
service_has_server = ap (λ (c : Config). has_server c.inbounds) built.2 ∙ checked_has_server

start_reporter-shares_example :
    (r : Reporter) × (start_reporter service (lit "host") (lit "go1.22/linux-amd64") ≡ some r)
    × Entries (SharesWith r) service.relays
    × (r.store ≡ some service.store.content)
    × (r.access ≡ new_buffer)
    × (r.cfg ≡ section)
start_reporter-shares_example =
    start_reporter-shares system plain_laws 0 config {s = service} {k = section} (lit "host")
      (lit "go1.22/linux-amd64") config_settled built.1 service_kboard service_has_server
