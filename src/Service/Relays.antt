-- ===== src/Service/Relays.antt =====
-- internal/node/service.go: the relay of a server inbound is there.
use knode.Prelude.{
  ℕ, suc, ◌≡◌, refl, ap, sym, ◌∙◌, Bool, true, false, ◌||◌, Option, some, List, [], ◌∷◌, arith, ok,
  All, Bool-cases, inl, inr, ok_or,
}
use knode.Shared.{Shared}
use knode.Text.{Str, str_eq}
use knode.Text.Equality.{str_eq_refl, str_eq_cases}
use knode.Dict.{Dict, insert, lookup}
use knode.Dict.Lookup.{lookup-insert}
use knode.Dict.Distinct.{Entries, insert-Entries}
use knode.ClientStore.{add_static, DynamicClientStore}
use knode.Config.{InboundConfig}
use knode.Config.System.{System}
use mathlib.Core.Path.{subst, subst₂}
use knode.Config.Validate.Kless.{signing_private_bytes}
use knode.Config.Validate.{validate_inbounds}
use knode.Config.Validate.Invert.{validate_inbounds-cons}
use knode.Config.Validate.Parts.{NameSet, add_name, has_name}
use knode.Relay.{static_client_credentials, ServerRelay, new_server_relay}
use knode.Service.{make_relays}
use knode.Service.New.{is_server}
use knode.Service.Dialers.{has_name-add_name, validate_inbounds-nil}

-- An inbound with the name is in the list.
abbrev pub names_inbound : Str → List InboundConfig → Bool
names_inbound n [] = false
names_inbound n (b ∷ bs) = str_eq b.name n || names_inbound n bs

module _ (sys : System) (upstreams : NameSet) (dynamic : Bool) where
  -- A name that the loop knows is not met again.
  validate_inbounds-fresh :
      (n : Str) (i : ℕ) (names : NameSet) (raws : List InboundConfig) {bs : List InboundConfig}
      → validate_inbounds sys upstreams dynamic i names raws ≡ ok bs
      → has_name n names ≡ true
      → names_inbound n bs ≡ false
  unfolding validate_inbounds
  validate_inbounds-fresh n i names [] h known = ground arith
  validate_inbounds-fresh n i names (raw ∷ rest) h known =
      let (b, more, first, fresh, others, e) =
        validate_inbounds-cons sys upstreams dynamic i names raw rest h in
      let later =
        validate_inbounds-fresh n (suc i) (add_name b.name names) rest others
          (ground (arith, has_name-add_name n b.name names)) in
      elim (str_eq_cases b.name n) [
        | inl (same, p) ↦ cc (known, fresh, ap (λ x. has_name x names) p)
        | inr (other, p) ↦ ground arith
      ]

-- One round of the loop over the inbounds.
make_relays-server :
    (relays : Dict ServerRelay) (store : Shared DynamicClientStore) (access : Option ℕ)
    (b : InboundConfig) (bs : List InboundConfig) {rs : Dict ServerRelay}
    {st : Shared DynamicClientStore}
    → make_relays relays store access (b ∷ bs) ≡ ok (rs, st)
    → is_server b ≡ true
    → (r : ServerRelay) × (store' : Shared DynamicClientStore) × (r.cfg ≡ b.kless)
      × (r.listen_id ≡ b.name)
      × (r.store ≡ store.address)
      × (r.access ≡ access)
      × (store'.address ≡ store.address)
      × (make_relays (insert b.name r relays) store' access bs ≡ ok (rs, st))
unfolding make_relays new_server_relay
make_relays-server relays store access b bs h server =
    let private = ok_or (signing_private_bytes b.kless.server_signing_private) [] in
    let credentials = ok_or (static_client_credentials b.kless) [] in
    let r : ServerRelay = record {
      cfg = b.kless;
      signing = private;
      listen_id = b.name;
      store = store.address;
      access = access;
    } in
    (
      r,
      record { address = store.address; content = add_static store.content credentials },
      refl,
      refl,
      refl,
      refl,
      refl,
      ground arith,
    )

make_relays-other :
    (relays : Dict ServerRelay) (store : Shared DynamicClientStore) (access : Option ℕ)
    (b : InboundConfig) (bs : List InboundConfig) {rs : Dict ServerRelay}
    {st : Shared DynamicClientStore}
    → make_relays relays store access (b ∷ bs) ≡ ok (rs, st)
    → is_server b ≡ false
    → make_relays relays store access bs ≡ ok (rs, st)
unfolding make_relays
make_relays-other relays store access b bs h other = ground arith

-- A relay of an earlier inbound stays, as no later one has its name.
make_relays-keeps :
    (n : Str) (relays : Dict ServerRelay) (store : Shared DynamicClientStore) (access : Option ℕ)
    (bs : List InboundConfig) {rs : Dict ServerRelay} {st : Shared DynamicClientStore}
    → make_relays relays store access bs ≡ ok (rs, st)
    → names_inbound n bs ≡ false
    → lookup n rs ≡ lookup n relays
unfolding make_relays
make_relays-keeps n relays store access [] h absent = ground arith
make_relays-keeps n relays store access (b ∷ bs) {rs} {st} h absent =
    elim (Bool-cases (is_server b)) [
      | inr other ↦
          make_relays-keeps n relays store access bs {st = st}
            (make_relays-other relays store access b bs h other) (ground arith)
      | inl server ↦
          let (r, store', cfg, id, points, logs, same_store, rest) =
            make_relays-server relays store access b bs h server in
          ground (
            arith,
            make_relays-keeps n (insert b.name r relays) store' access bs rest,
            lookup-insert b.name n r relays,
          )
    ]

-- A server inbound has a relay with its settings and its ID.
abbrev pub HasRelay : Dict ServerRelay → InboundConfig → Type 0
HasRelay rs b =
    is_server b ≡ true
    → (r : ServerRelay) × (lookup b.name rs ≡ some r) × (r.cfg ≡ b.kless) × (r.listen_id ≡ b.name)

-- No inbound has the name of a later one.
abbrev pub IsFresh : List InboundConfig → Type 0
IsFresh [] = Unit
IsFresh (b ∷ bs) = (names_inbound b.name bs ≡ false) × IsFresh bs

pub make_relays-HasRelay :
    (relays : Dict ServerRelay) (store : Shared DynamicClientStore) (access : Option ℕ)
    (bs : List InboundConfig) {rs : Dict ServerRelay} {st : Shared DynamicClientStore}
    → make_relays relays store access bs ≡ ok (rs, st)
    → IsFresh bs
    → All (HasRelay rs) bs
make_relays-HasRelay relays store access [] h f = tt
make_relays-HasRelay relays store access (b ∷ bs) {rs} {st} h (fresh, f) =
    elim (Bool-cases (is_server b)) [
      | inr other ↦ (
        λ server. cc,
        make_relays-HasRelay relays store access bs {st = st}
            (make_relays-other relays store access b bs h other) f,
      )
      | inl server ↦
          let (r, store', cfg, id, points, logs, same_store, rest) =
            make_relays-server relays store access b bs h server in
          (
            λ s. (
              r,
              ground (
                arith,
                make_relays-keeps b.name (insert b.name r relays) store' access bs rest fresh,
                lookup-insert b.name b.name r relays,
                str_eq_refl b.name,
              ),
              cfg,
              id,
            ),
            make_relays-HasRelay (insert b.name r relays) store' access bs {st = st} rest f,
          )
    ]

-- A relay has the pointers to a store and a queue.
abbrev pub PointsTo : ℕ → Option ℕ → Str → ServerRelay → Type 0
PointsTo store access name r = (r.store ≡ store) × (r.access ≡ access)

-- All relays have the pointers that the loop was given, and the store stays where it is.
pub make_relays-PointsTo :
    (relays : Dict ServerRelay) (store : Shared DynamicClientStore) (access : Option ℕ)
    (bs : List InboundConfig) {rs : Dict ServerRelay} {st : Shared DynamicClientStore}
    → make_relays relays store access bs ≡ ok (rs, st)
    → Entries (PointsTo store.address access) relays
    → Entries (PointsTo st.address access) rs × (st.address ≡ store.address)
unfolding make_relays
make_relays-PointsTo relays store access [] {rs} {st} h points =
    let same_relays : relays ≡ rs = ground arith in
    let same_store : store ≡ st = ground arith in
    (
      subst₂
          (λ (d : Dict ServerRelay) (x : Shared DynamicClientStore).
            Entries (PointsTo x.address access) d)
          same_relays same_store points,
      ap (λ (x : Shared DynamicClientStore). x.address) (sym same_store),
    )
make_relays-PointsTo relays store access (b ∷ bs) {rs} {st} h points =
    elim (Bool-cases (is_server b)) [
      | inr other ↦
          make_relays-PointsTo relays store access bs {st = st}
            (make_relays-other relays store access b bs h other) points
      | inl server ↦
          let (r, store', cfg, id, at_store, at_queue, same, rest) =
            make_relays-server relays store access b bs h server in
          let kept =
            insert-Entries (PointsTo store.address access) b.name r relays (at_store, at_queue)
              points in
          let (all, moved) =
            make_relays-PointsTo (insert b.name r relays) store' access bs {st = st} rest
              (subst (λ a. Entries (PointsTo a access) (insert b.name r relays)) (sym same) kept) in
          (all, moved ∙ same)
    ]

pub validate_inbounds-IsFresh :
    (sys : System) (upstreams : NameSet) (dynamic : Bool) (i : ℕ) (names : NameSet)
    (raws : List InboundConfig) {bs : List InboundConfig}
    → validate_inbounds sys upstreams dynamic i names raws ≡ ok bs
    → IsFresh bs
unfolding validate_inbounds
validate_inbounds-IsFresh sys upstreams dynamic i names [] h =
    subst IsFresh (validate_inbounds-nil sys upstreams dynamic i names h) tt
validate_inbounds-IsFresh sys upstreams dynamic i names (raw ∷ rest) h =
    let (b, more, first, fresh, others, e) =
      validate_inbounds-cons sys upstreams dynamic i names raw rest h in
    subst IsFresh (sym e) (
      validate_inbounds-fresh sys upstreams dynamic b.name (suc i) (add_name b.name names) rest
          others (ground (arith, has_name-add_name b.name b.name names, str_eq_refl b.name)),
      validate_inbounds-IsFresh sys upstreams dynamic (suc i) (add_name b.name names) rest others,
    )
