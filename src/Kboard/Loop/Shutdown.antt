-- ===== src/Kboard/Loop/Shutdown.antt =====
-- internal/node/kboard.go: the report of access logs that ends the loop of a reporter.
use knode.Prelude.{
  ℕ, ◌+◌, ◌≤◌, ◌≡◌, refl, ap, ◌∙◌, List, [], ◌∷◌, ◌++◌, some, arith, length, pos, Result, ok,
  is_empty, false, length-append,
}
use knode.Text.{Str, str_eq}
use knode.Base64.{Bytes}
use knode.Decimal.{decimal}
use knode.AccessLog.{drain_some, AccessLogBuffer, max_queue_size, drain, max_batch_size}
use knode.AccessLog.Item.{AccessLogItem}
use knode.AccessLog.Fifo.{record_all, valid_items}
use knode.AccessLog.Delivery.{record_all-room, length-valid_items}
use knode.Config.System.{System}
use knode.Kboard.{true, SignedRequest, HttpAnswer, post_json}
use knode.Kboard.Reporter.{Reporter, report_access_logs}
use knode.Kboard.Loop.{Flush, Event, flush, loop}

is_empty-nil : (q : List AccessLogItem) → is_empty q ≡ true → q ≡ []
is_empty-nil [] h = refl
is_empty-nil (i ∷ q) h = cc

drain_some-all :
    (b : AccessLogBuffer) (n : ℕ)
    → length b.items ≤ n
    → drain_some b n ≡ (record { items = [] }, b.items)
unfolding drain_some
drain_some-all b n h = ground (arith, is_empty-nil b.items)

-- A short queue is drained as a whole.
drain_all :
    (b : AccessLogBuffer)
    → length b.items ≤ 5000
    → drain (some b) (pos max_batch_size) ≡ (some (record { items = [] }), b.items)
unfolding drain max_batch_size
drain_all b h = ap (λ d. (some d.0, d.1)) (drain_some-all b 5000 h)

module _ (sys : System) (hmac : Bytes → Bytes → Str) where
  report-sends_all :
      (r : Reporter) (b : AccessLogBuffer) (now : Str) (during : List AccessLogItem)
      (send : SignedRequest → Result HttpAnswer)
      → r.access ≡ some b
      → length b.items ≤ 5000
      → str_eq r.cfg.access_logs_endpoint [] ≡ false
      → post_json sys hmac r.cfg r.cfg.access_logs_endpoint now send ≡ ok tt
      → let (r', sent) = report_access_logs sys hmac r now during send in
        (sent ≡ b.items) × (r'.access ≡ record_all (some (record { items = [] })) during)
  unfolding report_access_logs
  report-sends_all r b now during send has short on accepted =
      let drained : drain r.access (pos max_batch_size) ≡ (some (record { items = [] }), b.items) =
        ap (λ a. drain a (pos max_batch_size)) has ∙ drain_all b short in
      let d0 = ap (λ d. d.0) drained in
      let d1 = ap (λ d. d.1) drained in ground (arith, is_empty-nil b.items)

module _ (sys : System) (hmac : Bytes → Bytes → Str) (sha256 : Bytes → Bytes)
    (version arch : Str) where
  -- The end of a run sends all that is queued, if it is at most 5000 items, the ones without a domain
  -- counted too, the endpoint for access logs is set and Kboard accepts the request: only the items
  -- that others record during the request stay behind.
  pub loop-flushes :
      (r : Reporter) (b : AccessLogBuffer) (f : Flush) (events : List Event)
      → r.access ≡ some b
      → length b.items + length f.before ≤ 5000
      → length f.during ≤ max_queue_size
      → str_eq r.cfg.access_logs_endpoint [] ≡ false
      → post_json sys hmac r.cfg r.cfg.access_logs_endpoint
          (decimal f.exchange.unix)
          f.exchange.send
        ≡ ok tt
      → let (r', sent) = loop sys hmac sha256 version arch r (Event.cancelled f ∷ events) in
        (sent.items ≡ b.items ++ valid_items f.before)
        × (r'.access ≡ some (record { items = valid_items f.during }))
  unfolding loop flush
  loop-flushes r b f events has short few on accepted =
      let r0 = record r { access = record_all r.access f.before } in
      let b0 : AccessLogBuffer = record { items = b.items ++ valid_items f.before } in
      let room : length b.items + length f.before ≤ max_queue_size =
        unfold max_queue_size in omega arith in
      let size : length b0.items ≤ 5000 =
        omega (arith, length-append b.items (valid_items f.before), length-valid_items f.before) in
      let (sent, queue) =
        report-sends_all sys hmac r0 b0 (decimal f.exchange.unix) f.during f.exchange.send
          (ap (λ a. record_all a f.before) has ∙ record_all-room b f.before room) size on
          accepted in
      (sent, queue ∙ record_all-room (record { items = [] }) f.during (omega arith))
