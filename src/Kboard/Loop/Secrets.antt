-- ===== src/Kboard/Loop/Secrets.antt =====
-- internal/node/kboard.go and client_store.go: what a run of the reporter leaves in the client store.
use mathlib.Core.Option
use knode.Prelude.{
  ◌≤◌, ◌≡◌, refl, ◌∙◌, Bool, true, false, Option, none, some, List, [], ◌∷◌, length, Result, ok,
  err, arith, All, if◌then◌else◌,
}
use knode.Text.{Str, str_eq}
use knode.Decimal.{decimal}
use knode.Base64.{Bytes}
use knode.Dict.Distinct.{Entries}
use knode.ClientStore.{ClientCredential, DynamicClientStore, replace_dynamic}
use knode.ClientStore.Maps.{credential_maps-secrets}
use knode.Config.System.{System}
use knode.Kboard.{UsersResponse, SignedRequest, HttpAnswer, get_json}
use knode.Kboard.Reporter.{Reporter, user_credentials, take_users, sync_users, report_access_logs}
use knode.Kboard.Users.{IsStrong, user_credentials-IsStrong}
use knode.Kboard.Loop.{Flush, Round, Event, flush, report, loop, run}

abbrev pub IsLong : Str → Bytes → Type 0
IsLong k secret = 32 ≤ length secret

-- A reporter that had a store still has one: with the same static half, and in the dynamic half only
-- secrets of at least 32 bytes.
pub record Keeps (s : DynamicClientStore) (after : Option DynamicClientStore) : Type 0 where
  pub left : DynamicClientStore
  pub store : after ≡ some left
  pub static_secrets : left.static_secrets ≡ s.static_secrets
  pub static_users : left.static_users ≡ s.static_users
  pub long : Entries IsLong left.dynamic_secrets

Keeps-trans :
    {s : DynamicClientStore} {a b : Option DynamicClientStore} (h : Keeps s a)
    → Keeps h.left b
    → Keeps s b
Keeps-trans h k = record {
  left = k.left;
  store = k.store;
  static_secrets = k.static_secrets ∙ h.static_secrets;
  static_users = k.static_users ∙ h.static_users;
  long = k.long;
}

unchanged-Keeps :
    (s : DynamicClientStore) (after : Option DynamicClientStore)
    → after ≡ some s
    → Entries IsLong s.dynamic_secrets
    → Keeps s after
unchanged-Keeps s after e long = record {
  left = s;
  store = e;
  static_secrets = refl;
  static_users = refl;
  long = long;
}

All-secrets : (es : List ClientCredential) → All IsStrong es → All (λ c. 32 ≤ length c.secret) es
All-secrets [] h = tt
All-secrets (e ∷ es) (h, hs) = (h.1, All-secrets es hs)

module _ (sys : System) (hmac : Bytes → Bytes → Str) (sha256 : Bytes → Bytes)
    (sum : (m : Bytes) → length (sha256 m) ≡ 32) where
  take_users-Keeps :
      (r : Reporter) (s : DynamicClientStore) (answer : Str × Option UsersResponse)
      → r.store ≡ some s
      → Entries IsLong s.dynamic_secrets
      → Keeps s (take_users sys hmac sha256 r s answer).store
  unfolding take_users replace_dynamic
  take_users-Keeps r s (etag, none) has long = unchanged-Keeps s r.store has long
  take_users-Keeps r s (etag, some response) has long =
      let users = user_credentials sha256 r.cfg (Option.get_or response.users []) in
      record {
        left = replace_dynamic s users;
        store = refl;
        static_secrets = refl;
        static_users = refl;
        long =
            credential_maps-secrets (λ secret. 32 ≤ length secret) users
              (All-secrets users
                (user_credentials-IsStrong sha256 r.cfg (Option.get_or response.users []) sum));
      }

  -- `syncUsers` behind its guards, for any answer.
  answered-Keeps :
      (off : Bool) (r : Reporter) (s : DynamicClientStore)
      (answer : Result (Str × Option UsersResponse))
      → r.store ≡ some s
      → Entries IsLong s.dynamic_secrets
      → Keeps s
          (if off
            then r
            else elim answer [ err e ↦ r | ok found ↦ take_users sys hmac sha256 r s found ]).store
  answered-Keeps true r s answer has long = unchanged-Keeps s r.store has long
  answered-Keeps false r s (err e) has long = unchanged-Keeps s r.store has long
  answered-Keeps false r s (ok found) has long = take_users-Keeps r s found has long

  sync_users-Keeps :
      (r : Reporter) (s : DynamicClientStore) (now : Str) (send : SignedRequest → Result HttpAnswer)
      → r.store ≡ some s
      → Entries IsLong s.dynamic_secrets
      → Keeps s (sync_users sys hmac sha256 r now send).store
  unfolding sync_users
  sync_users-Keeps r s now send has long = simp has (
      answered-Keeps (str_eq r.cfg.users_endpoint []) r s
        (get_json sys hmac r.cfg r.cfg.users_endpoint r.users_etag now send) has long)

  module _ (version arch : Str) where
    -- A report of access logs leaves the store alone.
    flush-store :
        (r : Reporter) (f : Flush) → (flush sys hmac sha256 version arch r f).0.store ≡ r.store
    unfolding flush report_access_logs
    flush-store r f = ground arith

    report-Keeps :
        (r : Reporter) (s : DynamicClientStore) (round : Round)
        → r.store ≡ some s
        → Entries IsLong s.dynamic_secrets
        → Keeps s (report sys hmac sha256 version arch r round).0.store
    unfolding report
    report-Keeps r s round has long =
        let h = sync_users-Keeps r s (decimal round.users.unix) round.users.send has long in
        let r1 = sync_users sys hmac sha256 r (decimal round.users.unix) round.users.send in
        Keeps-trans h (
          unchanged-Keeps h.left (flush sys hmac sha256 version arch r1 round.flush).0.store
            (flush-store r1 round.flush ∙ h.store) h.long)

    loop-Keeps :
        (r : Reporter) (s : DynamicClientStore) (events : List Event)
        → r.store ≡ some s
        → Entries IsLong s.dynamic_secrets
        → Keeps s (loop sys hmac sha256 version arch r events).0.store
    unfolding loop
    loop-Keeps r s [] has long = unchanged-Keeps s r.store has long
    loop-Keeps r s (Event.tick round ∷ events) has long =
        let h = report-Keeps r s round has long in
        Keeps-trans h
          (loop-Keeps (report sys hmac sha256 version arch r round).0 h.left events h.store h.long)
    loop-Keeps r s (Event.access_tick f ∷ events) has long =
        loop-Keeps (flush sys hmac sha256 version arch r f).0 s events (flush-store r f ∙ has) long
    loop-Keeps r s (Event.cancelled f ∷ events) has long =
        unchanged-Keeps s (flush sys hmac sha256 version arch r f).0.store (flush-store r f ∙ has)
          long

    -- Take a reporter whose store has only secrets of at least 32 bytes in its dynamic half, as a
    -- new one, and a SHA-256 whose sums have 32 bytes. At every point of its run, whatever Kboard
    -- answers to each of the requests, the reporter still has a store, the static half is the one it
    -- started with, and the dynamic half has only secrets of at least 32 bytes.
    pub run-Keeps :
        (r : Reporter) (s : DynamicClientStore) (first : Round) (events : List Event)
        → r.store ≡ some s
        → Entries IsLong s.dynamic_secrets
        → Keeps s (run sys hmac sha256 version arch r first events).0.store
    unfolding run
    run-Keeps r s first events has long =
        let h = report-Keeps r s first has long in
        Keeps-trans h
          (loop-Keeps (report sys hmac sha256 version arch r first).0 h.left events h.store h.long)
