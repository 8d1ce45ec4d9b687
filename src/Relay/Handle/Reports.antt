-- ===== src/Relay/Handle/Reports.antt =====
-- internal/node/server_relay.go: what a connection of a relay counts.
use knode.Prelude.{
  ℕ, ◌+◌, ◌≤◌, Option-cases, Option, none, some, List, [], ◌∷◌, ◌++◌, ◌⊎◌, inl, inr, ◌≡◌, refl,
  arith,
}
use knode.Text.{Str}
use knode.Metrics.Counters.{Counter}
use knode.AccessLog.Item.{RelayTarget}
use knode.Relay.Effects.{Request, Endpoint, Effect, CopyError, proxy_error_of, Piped, pipe}
use knode.Relay.Udp.{Moment, Client, Incoming, Packet, up_loop, down_loop, record_udp_access}
use knode.Relay.Handle.{
  dial_target, serve, serve_udp, tcp_access, serve_tcp, Peer, handle_tcp_connect,
  pipe_udp_associate, handle_udp_associate, handle_command, handle,
}
use knode.Config.Validate.Parts.{NameSet}

-- The failures that are counted.
abbrev pub failure_weight : Effect → ℕ
failure_weight (Effect.counted Counter.transport_error) = 1
failure_weight (Effect.counted Counter.handshake_error) = 1
failure_weight (Effect.counted Counter.proxy_error) = 1
failure_weight _ = 0

abbrev pub failures : List Effect → ℕ
failures [] = 0
failures (e ∷ es) = failure_weight e + failures es

pub failures-append : (xs ys : List Effect) → failures (xs ++ ys) ≡ failures xs + failures ys
failures-append [] ys = omega arith
failures-append (x ∷ xs) ys = ground (arith, failures-append xs ys)

pub failures-pipe : (p : Piped) (near : Endpoint) → failures (pipe p near).0 ≡ 0
unfolding pipe
failures-pipe p near = ground arith

pub failures-proxy_error_of : (e : Option CopyError) → failures (proxy_error_of e) ≤ 1
unfolding proxy_error_of
failures-proxy_error_of none = omega arith
failures-proxy_error_of (some e) = omega arith

failures-serve_tcp : (peer : Peer) → failures (serve_tcp peer) ≤ 1
unfolding serve_tcp
failures-serve_tcp peer =
    let (effects, error) = pipe peer.piped Endpoint.secure in
    ground (
      arith,
      failures-append effects (proxy_error_of error),
      failures-pipe peer.piped Endpoint.secure,
      failures-proxy_error_of error,
    )

failures-tcp :
    (c : Client) (peer : Peer) (target : RelayTarget)
    → failures (handle_tcp_connect c peer target) ≤ 1
unfolding handle_tcp_connect tcp_access dial_target
failures-tcp c peer target = ground (
  arith,
  failures-append (tcp_access c peer target) (dial_target peer),
  failures-append (serve_tcp peer) (Effect.closed Endpoint.upstream ∷ []),
  failures-serve_tcp peer,
)

failures-down_loop : (ps : List Packet) → failures (down_loop ps).0 ≡ 0
unfolding down_loop
failures-down_loop [] = refl
failures-down_loop (Packet.unreadable e ∷ rest) = refl
failures-down_loop (Packet.packet sender n error ∷ rest) = ground (arith, failures-down_loop rest)

module _ {Addr : Type 0} (address_text : RelayTarget → Str) (resolve : Str → CopyError ⊎ Addr)
    (invalid_address : CopyError) where
  failures-record_udp_access :
      (c : Client) (moment : Moment) (target : RelayTarget) (seen : NameSet)
      → failures (record_udp_access address_text c moment target seen).1 ≡ 0
  unfolding record_udp_access
  failures-record_udp_access c moment target seen = ground arith

  failures-up_loop :
      (c : Client) (seen : NameSet) (ds : List Incoming)
      → failures (up_loop address_text resolve invalid_address c seen ds).0 ≡ 0
  unfolding up_loop
  failures-up_loop c seen [] = refl
  failures-up_loop c seen (Incoming.unreadable e ∷ rest) = refl
  failures-up_loop c seen (Incoming.datagram target moment n error ∷ rest) = ground (
    arith,
    failures-record_udp_access c moment target seen,
    failures-up_loop c (record_udp_access address_text c moment target seen).0 rest,
    failures-append (record_udp_access address_text c moment target seen).1
        (up_loop address_text resolve invalid_address c
          (record_udp_access address_text c moment target seen).0 rest).0,
  )

  failures-pipe_udp :
      (c : Client) (peer : Peer)
      → failures (pipe_udp_associate address_text resolve invalid_address c peer).0 ≡ 0
  unfolding pipe_udp_associate
  failures-pipe_udp c peer =
      let closes = Effect.closed Endpoint.udp ∷ (Effect.closed Endpoint.secure ∷ []) in
      let up = (up_loop address_text resolve invalid_address c [] peer.incoming).0 in
      let down = (down_loop peer.packets).0 in
      ground (
        arith,
        failures-append up (down ++ closes),
        failures-append down closes,
        failures-up_loop c [] peer.incoming,
        failures-down_loop peer.packets,
      )

  failures-udp :
      (c : Client) (peer : Peer)
      → failures (handle_udp_associate address_text resolve invalid_address c peer) ≤ 1
  unfolding handle_udp_associate serve_udp
  failures-udp c peer =
      let (effects, error) = pipe_udp_associate address_text resolve invalid_address c peer in
      ground (
        arith,
        failures-append effects (proxy_error_of error),
        failures-pipe_udp c peer,
        failures-proxy_error_of error,
        failures-append (serve_udp address_text resolve invalid_address c peer)
            (Effect.closed Endpoint.udp ∷ []),
      )

  failures-command :
      (c : Client) (peer : Peer) (r : Request)
      → failures (handle_command address_text resolve invalid_address c peer r) ≤ 1
  unfolding handle_command
  failures-command c peer r = ground (arith, failures-udp c peer, failures-tcp c peer r.address)

  failures-serve :
      (c : Client) (peer : Peer) → failures (serve address_text resolve invalid_address c peer) ≤ 1
  unfolding serve
  failures-serve c peer = elim (Option-cases peer.request) [
    | inl none_came ↦ ground arith
    | inr (r, came) ↦ ground (arith, failures-command c peer r)
  ]

  -- A connection of a relay counts at most one failure, whatever its peers do.
  pub handle-failures :
      (c : Client) (peer : Peer) → failures (handle address_text resolve invalid_address c peer) ≤ 1
  unfolding handle
  handle-failures c peer = elim (Option-cases peer.handshake) [
    | inl none_came ↦ ground arith
    | inr (id, came) ↦
        let c' : Client = record c { client_id = id } in
        ground (
          arith,
          failures-serve c' peer,
          failures-append (serve address_text resolve invalid_address c' peer)
              (Effect.closed Endpoint.secure ∷ []),
        )
  ]
