-- ===== src/Kboard/Loop/Delivery.antt =====
-- internal/node/kboard.go: what the loop of a reporter delivers of the access logs.

use mathlib.Core.Path.{subst}
use mathlib.Core.List.{Sublistᴰ}
use mathlib.Core.List.Sublistᴰ
use knode.Prelude.{
  ◌+◌, ◌≤◌, ◌≡◌, ap, sym, ◌∙◌, List, [], ◌∷◌, ◌++◌, Option, some, arith, length, length-append,
  append_assoc, Result, append-nil,
}
use knode.Text.{Str}
use knode.Base64.{Bytes}
use knode.Decimal.{decimal}
use knode.AccessLog.{AccessLogBuffer, max_queue_size}
use knode.AccessLog.Item.{AccessLogItem}
use knode.AccessLog.Fifo.{record_all, valid_items}
use knode.AccessLog.Delivery.{Delivers, Delivers-recorded, Delivers-trans}
use knode.Config.System.{System}
use knode.Kboard.{SignedRequest, HttpAnswer}
use knode.Kboard.Reporter.{Reporter, sync_users, take_users, report_access_logs}
use knode.Kboard.Reports.{IsReported, report_access_logs-IsReported}
use knode.Kboard.Loop.{Flush, Round, Event, flush, report, loop, run}

-- All that is recorded up to the end of the loop.
abbrev pub flush_records : Flush → List AccessLogItem
flush_records f = f.before ++ f.during

abbrev pub loop_records : List Event → List AccessLogItem
loop_records [] = []
loop_records (Event.tick round ∷ events) = flush_records round.flush ++ loop_records events
loop_records (Event.access_tick f ∷ events) = flush_records f ++ loop_records events
loop_records (Event.cancelled f ∷ events) = flush_records f

abbrev pub run_records : Round → List Event → List AccessLogItem
run_records first events = flush_records first.flush ++ loop_records events

IsReported-Delivers :
    (b : AccessLogBuffer) (during sent : List AccessLogItem) {after : Option AccessLogBuffer}
    → length b.items ≤ max_queue_size
    → IsReported b during sent after
    → Delivers b during sent after
IsReported-Delivers b during sent {after} bound r =
    let sizes : length sent + length r.kept.items ≡ length b.items =
      sym (length-append sent r.kept.items) ∙ ap length r.split in
    let later = Delivers-recorded r.kept during (omega arith) in
    let cut = λ (l : List AccessLogItem).
      sym (append_assoc sent r.kept.items l) ∙ ap (λ front. front ++ l) r.split in
    record {
      left = later.left;
      queue = r.queue ∙ later.queue;
      bounded = later.bounded;
      in_order =
          subst (Sublistᴰ (sent ++ later.left.items)) (cut (valid_items during))
            (Sublistᴰ.append (Sublistᴰ.refl sent) later.in_order);
      complete =
          λ fits. ap (λ l. sent ++ l) (later.complete (omega arith)) ∙ cut (valid_items during);
    }

module _ (sys : System) (hmac : Bytes → Bytes → Str) (sha256 : Bytes → Bytes)
    (version arch : Str) where
  -- The sync of the users leaves the queue alone.
  sync_users-access :
      (r : Reporter) (now : Str) (send : SignedRequest → Result HttpAnswer)
      → (sync_users sys hmac sha256 r now send).access ≡ r.access
  unfolding sync_users take_users
  sync_users-access r now send = ground arith

  flush-Delivers :
      (r : Reporter) (b : AccessLogBuffer) (f : Flush)
      → r.access ≡ some b
      → length b.items ≤ max_queue_size
      → let (r', sent) = flush sys hmac sha256 version arch r f in
        Delivers b (flush_records f) sent.items r'.access
  unfolding flush
  flush-Delivers r b f has bound =
      let d = Delivers-recorded b f.before bound in
      let r0 = record r { access = record_all r.access f.before } in
      let (r', items) =
        report_access_logs sys hmac r0 (decimal f.exchange.unix) f.during f.exchange.send in
      Delivers-trans d (
        IsReported-Delivers d.left f.during items {after = r'.access} d.bounded (
          report_access_logs-IsReported sys hmac r0 d.left (decimal f.exchange.unix) f.during
            f.exchange.send (ap (λ a. record_all a f.before) has ∙ d.queue) d.bounded))

  report-Delivers :
      (r : Reporter) (b : AccessLogBuffer) (round : Round)
      → r.access ≡ some b
      → length b.items ≤ max_queue_size
      → let (r', sent) = report sys hmac sha256 version arch r round in
        Delivers b (flush_records round.flush) sent.items r'.access
  unfolding report
  report-Delivers r b round has bound =
      flush-Delivers (sync_users sys hmac sha256 r (decimal round.users.unix) round.users.send) b
        round.flush (sync_users-access r (decimal round.users.unix) round.users.send ∙ has) bound

  loop-Delivers :
      (r : Reporter) (b : AccessLogBuffer) (events : List Event)
      → r.access ≡ some b
      → length b.items ≤ max_queue_size
      → let (r', sent) = loop sys hmac sha256 version arch r events in
        Delivers b (loop_records events) sent.items r'.access
  unfolding loop valid_items
  loop-Delivers r b [] has bound = record {
    left = b;
    queue = has;
    bounded = bound;
    in_order = subst (Sublistᴰ b.items) (sym (append-nil b.items)) (Sublistᴰ.refl b.items);
    complete = λ fits. sym (append-nil b.items);
  }
  loop-Delivers r b (Event.tick round ∷ events) has bound =
      let d = report-Delivers r b round has bound in
      Delivers-trans d (
        loop-Delivers (report sys hmac sha256 version arch r round).0 d.left events d.queue
          d.bounded)
  loop-Delivers r b (Event.access_tick f ∷ events) has bound =
      let d = flush-Delivers r b f has bound in
      Delivers-trans d
        (loop-Delivers (flush sys hmac sha256 version arch r f).0 d.left events d.queue d.bounded)
  loop-Delivers r b (Event.cancelled f ∷ events) has bound = flush-Delivers r b f has bound

  -- Over a whole run of the reporter with a queue of at most 10000 items, whose reports fail or succeed
  -- in any pattern while others record: the items that Kboard accepted and those that are still queued
  -- are together, in order and each of them once, some of the items queued before and of those with
  -- a domain that were recorded since, and the queue keeps its limit. They are all of these where no
  -- more than 10000 items, the ones without a domain counted too, were queued and recorded.
  pub run-Delivers :
      (r : Reporter) (b : AccessLogBuffer) (first : Round) (events : List Event)
      → r.access ≡ some b
      → length b.items ≤ max_queue_size
      → let (r', sent) = run sys hmac sha256 version arch r first events in
        Delivers b (run_records first events) sent.items r'.access
  unfolding run
  run-Delivers r b first events has bound =
      let d = report-Delivers r b first has bound in
      Delivers-trans d (
        loop-Delivers (report sys hmac sha256 version arch r first).0 d.left events d.queue
          d.bounded)
