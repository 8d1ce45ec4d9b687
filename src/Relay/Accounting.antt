-- ===== src/Relay/Accounting.antt =====
-- internal/node/server_relay.go: properties of the items that a relay records.
pub mod Connections
pub mod Users
use knode.Prelude.{
  ltb, ℕ, ◌≡◌, refl, Option, none, some, List, [], ◌∷◌, ◌++◌, ◌⊎◌, inl, inr, All, All-append,
  if◌then◌else◌, Bool-cases, Option-cases,
}
use knode.AccessLog.Item.{AccessLogItem}
use knode.Metrics.Counters.{Counter}
use knode.Relay.Effects.{Endpoint, Effect, CopyError, proxy_error_of, Piped, pipe}
use knode.Relay.Udp.{relay_address_from_udp_addr, Packet, down_loop}
use knode.Relay.Handle.{Peer, serve_tcp, dial_target}

-- Every item that is recorded has the property; other effects are free.
abbrev pub OfItem : (AccessLogItem → Type 0) → Effect → Type 0
OfItem Q (Effect.recorded item) = Q item
OfItem Q (Effect.counted c) = Unit
OfItem Q (Effect.responded r) = Unit
OfItem Q (Effect.closed e) = Unit

pub sum-cases : {A B : Type 0} (x : A ⊎ B) → ((a : A) × (x ≡ inl a)) ⊎ ((b : B) × (x ≡ inr b))
sum-cases (inl a) = inl (a, refl)
sum-cases (inr b) = inr (b, refl)

module _ (Q : AccessLogItem → Type 0) where
  abbrev pub OfItems : List Effect → Type 0
  OfItems = All (OfItem Q)

  pub OfItems-append : (xs ys : List Effect) → OfItems xs → OfItems ys → OfItems (xs ++ ys)
  OfItems-append = All-append (OfItem Q)

  OfItems-pipe : (p : Piped) (near : Endpoint) → OfItems (pipe p near).0
  unfolding pipe
  OfItems-pipe p near = elim (Bool-cases p.up_first) [
    | inl up ↦ rw up (tt, (tt, (tt, (tt, tt))))
    | inr down ↦ rw down (tt, (tt, (tt, (tt, tt))))
  ]

  pub OfItems-proxy_error_of : (e : Option CopyError) → OfItems (proxy_error_of e)
  unfolding proxy_error_of
  OfItems-proxy_error_of none = tt
  OfItems-proxy_error_of (some e) = (tt, tt)

  OfItems-serve_tcp : (peer : Peer) → OfItems (serve_tcp peer)
  unfolding serve_tcp
  OfItems-serve_tcp peer = elim (Bool-cases peer.response_fails) [
    | inl fails ↦ rw fails (tt, tt)
    | inr answered ↦
        let (effects, error) = pipe peer.piped Endpoint.secure in
        rw answered (
          OfItems-append effects (proxy_error_of error) (OfItems-pipe peer.piped Endpoint.secure)
            (OfItems-proxy_error_of error))
  ]

  pub OfItems-dial_target : (peer : Peer) → OfItems (dial_target peer)
  unfolding dial_target
  OfItems-dial_target peer = elim (Option-cases peer.dial_error) [
    | inl dialled ↦
        rw (dialled, dial_target)
          (
            tt,
            OfItems-append (serve_tcp peer) (Effect.closed Endpoint.upstream ∷ [])
                (OfItems-serve_tcp peer) (tt, tt),
          )
    | inr (text, failed) ↦ rw (failed, dial_target) (tt, (tt, tt))
  ]

  -- The bytes that a loop counts, if any.
  pub OfItems-counted :
      (counter : ℕ → Counter) (n : ℕ) (more : List Effect)
      → OfItems more
      → OfItems ((if ltb 0 n then Effect.counted (counter n) ∷ [] else []) ++ more)
  OfItems-counted counter n more h = elim (Bool-cases (ltb 0 n)) [
    | inl some_bytes ↦ rw some_bytes (tt, h)
    | inr no_bytes ↦ rw no_bytes h
  ]

  pub OfItems-down_loop : (ps : List Packet) → OfItems (down_loop ps).0
  unfolding down_loop
  OfItems-down_loop [] = tt
  OfItems-down_loop (Packet.unreadable e ∷ rest) = tt
  OfItems-down_loop (Packet.packet sender n (some e) ∷ rest) =
      elim (Option-cases (relay_address_from_udp_addr sender)) [
        | inl other ↦ rw (other, down_loop) (OfItems-down_loop rest)
        | inr (target, is_udp) ↦ rw (is_udp, down_loop) (OfItems-counted Counter.down_bytes n [] tt)
      ]
  OfItems-down_loop (Packet.packet sender n none ∷ rest) =
      elim (Option-cases (relay_address_from_udp_addr sender)) [
        | inl other ↦ rw (other, down_loop) (OfItems-down_loop rest)
        | inr (target, is_udp) ↦
            rw (is_udp, down_loop)
              (OfItems-counted Counter.down_bytes n (down_loop rest).0 (OfItems-down_loop rest))
      ]
