-- ===== src/Tests/Queues.antt =====
-- The access log queue and its reports at small queues.
use knode.Prelude.{
  ◌≡◌, refl, ◌≤◌, ◌-◌, min, none, some, List, [], ◌∷◌, ◌++◌, pos, Error, Result, ok, err, length,
  take, arith,
}
use knode.Text.{Str, lit}
use knode.Base64.{Bytes}
use knode.AccessLog.{AccessLogBuffer, max_queue_size, drain, restore}
use knode.AccessLog.Item.{AccessLogItem}
use knode.AccessLog.Bounds.{IsBounded, run, run-IsBounded}
use knode.AccessLog.Bounds
use knode.AccessLog.Fifo.{
  record_all, valid_items, record_all-eq-append, drain-splits, restore-record_all-drain,
}
use knode.Kboard.{SignedRequest, HttpAnswer}
use knode.Kboard.Reporter.{Reporter, report_access_logs}
use knode.Kboard.Reports.{IsReported, report_access_logs-IsReported}
use knode.Kboard.Signature.{signature_base-injective}
use knode.Tests.Fixtures.{system, kboard}

abbrev pub item : Str → AccessLogItem
item domain = record {
  user_id = none;
  client_id = lit "alice";
  kless_client_id = lit "alice";
  domain = domain;
  host = domain;
  uri = domain;
  protocol = lit "tcp";
  remote_addr = lit "1.2.3.4:5";
  accessed_at = pos 1;
}

abbrev pub queue : AccessLogBuffer
queue = record { items = item (lit "a") ∷ (item (lit "b") ∷ []) }

abbrev pub later : List AccessLogItem
later = item (lit "c") ∷ (item [] ∷ [])

pub queue_fits : length queue.items ≤ max_queue_size
unfolding max_queue_size
queue_fits = omega arith

record_all-eq-append_test :
    record_all (some queue) later
    ≡ some (record {
      items = queue.items ++ take (max_queue_size - length queue.items) (valid_items later);
    })
record_all-eq-append_test = record_all-eq-append queue.items later queue_fits

drain-splits_test :
    (b' : AccessLogBuffer) × ((drain (some queue) (pos 1)).0 ≡ some b')
    × ((drain (some queue) (pos 1)).1 ++ b'.items ≡ queue.items)
    × (length (drain (some queue) (pos 1)).1 ≡ min 1 (length queue.items))
drain-splits_test = drain-splits queue 1 (omega arith)

restore-record_all-drain_example :
    restore (record_all (drain (some queue) (pos 1)).0 later) (drain (some queue) (pos 1)).1
    ≡ record_all (some queue) later
restore-record_all-drain_example = restore-record_all-drain queue 1 later queue_fits

abbrev calls : List Bounds.Call
calls =
    Bounds.records (item (lit "d")) ∷ (Bounds.drains (pos 2) ∷ (Bounds.restores queue.items ∷ []))

run-IsBounded_example : IsBounded (run (some queue) calls)
run-IsBounded_example = run-IsBounded (some queue) calls queue_fits

-- A text for a sum that shows the message.
abbrev pub hmac : Bytes → Bytes → Str
hmac key message = message

abbrev pub reporter : Reporter
reporter = record {
  cfg = kboard;
  node_id = lit "n1";
  store_at = none;
  store = none;
  users_etag = [];
  access_at = some 0;
  access = some queue;
  hostname = lit "host";
  runtime_info = lit "go1.22/linux-amd64";
}

abbrev pub unavailable : SignedRequest → Result HttpAnswer
unavailable request = ok (record {
  status = 503;
  etag = [];
  plain = err (Error.text "no JSON");
  wrapped = err (Error.text "no JSON");
})

report_access_logs-IsReported_example :
    let (r', sent) = report_access_logs system hmac reporter (lit "1700000000") later unavailable in
    IsReported queue later sent r'.access
report_access_logs-IsReported_example =
    report_access_logs-IsReported system hmac reporter queue (lit "1700000000") later unavailable
      refl queue_fits

signature_base-injective_example :
    (lit "GET" ≡ lit "GET")
    × (lit "/api" ≡ lit "/api")
    × (lit "a=1" ≡ lit "a=1")
    × (lit "7" ≡ lit "7")
    × (lit "1700000000" ≡ lit "1700000000")
signature_base-injective_example =
    signature_base-injective (lit "GET") (lit "/api") (lit "a=1") (lit "7") (lit "1700000000")
      (lit "GET") (lit "/api") (lit "a=1") (lit "7") (lit "1700000000") refl refl refl
