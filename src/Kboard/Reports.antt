-- ===== src/Kboard/Reports.antt =====
-- internal/node/kboard.go: a report of access logs loses nothing.
use mathlib.Core.Path.{subst}
use knode.Prelude.{
  ◌≤◌, ◌≡◌, refl, sym, ap, ◌∙◌, true, Option, some, List, [], ◌∷◌, ◌++◌, length, pos, Result, ok,
  err, arith, is_empty, Bool-cases, inl, inr, ◌⊎◌, Error,
}
use knode.Text.{Str, str_eq}
use knode.Base64.{Bytes}
use knode.AccessLog.{AccessLogBuffer, drain, restore, max_batch_size, max_queue_size}
use knode.AccessLog.Item.{AccessLogItem}
use knode.AccessLog.Fifo.{record_all, drain-splits, restore-record_all-drain}
use knode.Config.System.{System}
use knode.Kboard.{SignedRequest, HttpAnswer, post_json}
use knode.Kboard.Reporter.{Reporter, report_access_logs}

-- The queue before is what Kboard accepted, in front of what is still to be sent.
pub record IsReported (b : AccessLogBuffer) (between sent : List AccessLogItem)
    (after : Option AccessLogBuffer) : Type 0 where
  pub kept : AccessLogBuffer
  pub split : sent ++ kept.items ≡ b.items
  pub batch : length sent ≤ 5000
  pub queue : after ≡ record_all (some kept) between

kept_IsReported :
    (b : AccessLogBuffer) (between : List AccessLogItem) (after : Option AccessLogBuffer)
    → after ≡ record_all (some b) between
    → IsReported b between [] after
kept_IsReported b between after e = record {
  kept = b;
  split = refl;
  batch = omega arith;
  queue = e;
}

drained_IsReported :
    (b : AccessLogBuffer) (between : List AccessLogItem) (after : Option AccessLogBuffer)
    → after ≡ record_all (drain (some b) (pos 5000)).0 between
    → IsReported b between (drain (some b) (pos 5000)).1 after
drained_IsReported b between after e =
    let (b', left, splits, size) = drain-splits b 5000 (omega arith) in
    record {
      kept = b';
      split = splits;
      batch = omega arith;
      queue = e ∙ ap (λ a. record_all a between) left;
    }

empty-nil : (is : List AccessLogItem) → is_empty is ≡ true → is ≡ []
empty-nil [] h = refl
empty-nil (i ∷ is) h = cc

sent-cases : (m : Result (Unit {0})) → ((e : Error) × (m ≡ err e)) ⊎ (m ≡ ok tt)
sent-cases (err e) = inl (e, refl)
sent-cases (ok done) = inr refl

module _ (sys : System) (hmac : Bytes → Bytes → Str) where
  -- A report of access logs, with a queue of at most 10000 items, takes nothing out of it but what
  -- Kboard accepted, at most 5000 items from its front: the queue is as if the others had been
  -- recorded behind the rest, in order. So it is when the report fails, too, which then takes
  -- nothing.
  pub report_access_logs-IsReported :
      (r : Reporter) (b : AccessLogBuffer) (now : Str) (between : List AccessLogItem)
      (send : SignedRequest → Result HttpAnswer)
      → r.access ≡ some b
      → length b.items ≤ max_queue_size
      → let (r', sent) = report_access_logs sys hmac r now between send in
        IsReported b between sent r'.access
  unfolding report_access_logs max_batch_size
  report_access_logs-IsReported r b now between send has bound =
      let drained : drain r.access (pos 5000) ≡ drain (some b) (pos 5000) =
        ap (λ a. drain a (pos 5000)) has in
      let recorded = record_all (drain r.access (pos 5000)).0 between in
      let again = restore-record_all-drain b 5000 between bound in
      elim (Bool-cases (str_eq r.cfg.access_logs_endpoint [])) [
        | inl off ↦ rw off (
            kept_IsReported b between (record_all r.access between)
              (ap (λ a. record_all a between) has))
        | inr on ↦ elim (Bool-cases (is_empty (drain r.access (pos 5000)).1)) [
          | inl nothing ↦
              rw (on, nothing)
                (subst (λ sent. IsReported b between sent recorded)
                  (ap (λ d. d.1) (sym drained) ∙ empty-nil (drain r.access (pos 5000)).1 nothing)
                  (drained_IsReported b between recorded
                    (ap (λ d. record_all d.0 between) drained)))
          | inr some_items ↦
              elim (sent-cases (post_json sys hmac r.cfg r.cfg.access_logs_endpoint now send)) [
                | inl (e, failed) ↦
                    rw (on, some_items, failed)
                      (kept_IsReported b between (restore recorded (drain r.access (pos 5000)).1)
                        (ap (λ d. restore (record_all d.0 between) d.1) drained ∙ again))
                | inr done ↦
                    rw (on, some_items, done, drained)
                      (drained_IsReported b between
                        (record_all (drain (some b) (pos 5000)).0 between) refl)
              ]
        ]
      ]
