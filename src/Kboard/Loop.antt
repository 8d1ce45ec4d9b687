-- ===== src/Kboard/Loop.antt =====
-- internal/node/kboard.go: the reports of a reporter, and its loop over the ticks.
pub mod Delivery
pub mod Secrets
pub mod Shutdown
use knode.Prelude.{ℕ, List, [], ◌∷◌, ◌++◌, Result, pos, is_empty, if◌then◌else◌}
use knode.Text.{Str, str_eq}
use knode.Decimal.{decimal}
use knode.Base64.{Bytes}
use knode.AccessLog.{drain, max_batch_size}
use knode.AccessLog.Fifo.{record_all}
use knode.AccessLog.Item.{AccessLogItem}
use knode.Build.{backend_version}
use knode.Config.System.{System}
use knode.Service.{Status}
use knode.Kboard.{SignedRequest, HttpAnswer, post_json}
use knode.Kboard.Reporter.{Reporter, sync_users, report_access_logs}
use knode.Kboard.Batches.{AlivePayload, alive_payload, traffic_batch_id, access_batch_id}

-- The time of a request in seconds, its time in nanoseconds, and how the HTTP client answers it.
pub record Exchange : Type 0 where
  pub unix : ℕ
  pub nanos : ℕ
  pub send : SignedRequest → Result HttpAnswer

-- A report of access logs. The other goroutines record `before` it drains the queue, and `during` its
-- request.
pub record Flush : Type 0 where
  pub before : List AccessLogItem
  pub during : List AccessLogItem
  pub exchange : Exchange

-- What one call of `report` meets.
pub record Round : Type 0 where
  pub users : Exchange
  pub status : Status
  pub alive : Exchange
  pub traffic : Exchange
  pub flush : Flush

-- What the `select` of the loop receives.
pub data Event : Type 0 where
  tick : Round → Event
  access_tick : Flush → Event
  cancelled : Flush → Event

pub data Payload : Type 0 where
  alive : AlivePayload → Payload
  traffic : Str → Payload
  access_logs : Str → List AccessLogItem → Payload

-- What a reporter did: the payloads that it posted, with the result, and the items that Kboard
-- accepted.
pub record Sent : Type 0 where
  pub posts : List (Payload × Result (Unit {0}))
  pub items : List AccessLogItem

abbrev pub nothing_sent : Sent
nothing_sent = record { posts = []; items = [] }

abbrev pub then_sent : Sent → Sent → Sent
then_sent s t = record { posts = s.posts ++ t.posts; items = s.items ++ t.items }

-- `version` is the value of `buildVersion`, and `arch` that of `runtime.GOARCH`.
module _ (sys : System) (hmac : Bytes → Bytes → Str) (sha256 : Bytes → Bytes)
    (version arch : Str) where
  unfoldable pub report_alive : Reporter → Status → Exchange → List (Payload × Result (Unit {0}))
  report_alive r status x =
      if str_eq r.cfg.alive_endpoint []
      then []
      else let payload =
          alive_payload status x.unix (backend_version version) r.runtime_info r.hostname arch in
        (
          Payload.alive payload,
          post_json sys hmac r.cfg r.cfg.alive_endpoint (decimal x.unix) x.send,
        )
        ∷ []

  unfoldable pub report_traffic : Reporter → Exchange → List (Payload × Result (Unit {0}))
  report_traffic r x =
      if str_eq r.cfg.traffic_endpoint []
      then []
      else (
        Payload.traffic (traffic_batch_id r.node_id x.nanos),
        post_json sys hmac r.cfg r.cfg.traffic_endpoint (decimal x.unix) x.send,
      )
        ∷ []

  -- The payload of `reportAccessLogs`, of the items that it drains.
  unfoldable pub access_posts : Reporter → Exchange → List (Payload × Result (Unit {0}))
  access_posts r x =
      let (drained, items) = drain r.access (pos max_batch_size) in
      if str_eq r.cfg.access_logs_endpoint []
      then []
      else if is_empty items
      then []
      else (
        Payload.access_logs (access_batch_id r.node_id x.nanos) items,
        post_json sys hmac r.cfg r.cfg.access_logs_endpoint (decimal x.unix) x.send,
      )
        ∷ []

  -- `reportAccessLogs`, behind what is recorded before it.
  unfoldable pub flush : Reporter → Flush → Reporter × Sent
  flush r f =
      let r0 = record r { access = record_all r.access f.before } in
      let (r', items) =
        report_access_logs sys hmac r0 (decimal f.exchange.unix) f.during f.exchange.send in
      (r', record { posts = access_posts r0 f.exchange; items = items })

  unfoldable pub report : Reporter → Round → Reporter × Sent
  report r round =
      let r1 = sync_users sys hmac sha256 r (decimal round.users.unix) round.users.send in
      let posts = report_alive r1 round.status round.alive ++ report_traffic r1 round.traffic in
      let (r2, sent) = flush r1 round.flush in (r2, record sent { posts = posts ++ sent.posts })

  -- The loop, as far as events are given: it ends by the cancellation.
  unfoldable pub loop : Reporter → List Event → Reporter × Sent
  loop r [] = (r, nothing_sent)
  loop r (Event.tick round ∷ events) =
      let (r1, sent) = report r round in
      let (r2, more) = loop r1 events in (r2, then_sent sent more)
  loop r (Event.access_tick f ∷ events) =
      let (r1, sent) = flush r f in let (r2, more) = loop r1 events in (r2, then_sent sent more)
  loop r (Event.cancelled f ∷ events) = flush r f

  -- `run`: a report, and the loop.
  unfoldable pub run : Reporter → Round → List Event → Reporter × Sent
  run r first events =
      let (r1, sent) = report r first in
      let (r2, more) = loop r1 events in (r2, then_sent sent more)
