-- ===== src/Relay/Accounting/Connections.antt =====
-- internal/node/server_relay.go: what holds of the items that can be made during a connection holds
-- of those that are recorded.
use knode.Prelude.{
  not, Bool, true, false, none, some, List, [], ◌∷◌, ◌++◌, ◌⊎◌, inl, inr, All, if◌then◌else◌,
  Bool-cases, Option-cases,
}
use knode.Text.{Str, lit}
use knode.Metrics.Counters.{Counter}
use knode.AccessLog.Item.{AccessLogItem, RelayTarget}
use knode.Config.Validate.Parts.{add_name, has_name, NameSet}
use knode.Relay.Effects.{Command, Endpoint, Effect, CopyError, proxy_error_of}
use knode.Relay.Udp.{
  Moment, resolve_udp_address, target_key, Client, client_item, Incoming, up_loop, down_loop,
  record_udp_access,
}
use knode.Relay.Handle.{
  Peer, tcp_access, dial_target, handle_tcp_connect, pipe_udp_associate, serve_udp,
  handle_udp_associate, handle_command, serve,
}
use knode.Relay.Accounting.{
  sum-cases, OfItems, OfItems-append, OfItems-proxy_error_of, OfItems-dial_target, OfItems-counted,
  OfItems-down_loop,
}

-- The moments at which the items of a connection can be made: that of its TCP command, and those of
-- its datagrams.
abbrev pub moments_of : List Incoming → List Moment
moments_of [] = []
moments_of (Incoming.unreadable e ∷ rest) = moments_of rest
moments_of (Incoming.datagram target moment n error ∷ rest) = moment ∷ moments_of rest

abbrev pub moments : Peer → List Moment
moments peer = peer.moment ∷ moments_of peer.incoming

module _ (Q : AccessLogItem → Type 0) (c : Client) where
  -- The items that can be made at a moment have the property.
  abbrev Holds : Moment → Type 0
  Holds m = (target : RelayTarget) (network : Str) → Q (client_item c m target network)

  tcp_access-OfItems :
      (peer : Peer) (target : RelayTarget)
      → Holds peer.moment
      → OfItems Q (tcp_access c peer target)
  unfolding tcp_access
  tcp_access-OfItems peer target h = elim (Bool-cases c.has_access) [
    | inl logs ↦ simp logs (h target (lit "tcp"), tt)
    | inr silent ↦ simp silent tt
  ]

  tcp_connect-OfItems :
      (peer : Peer) (target : RelayTarget)
      → Holds peer.moment
      → OfItems Q (handle_tcp_connect c peer target)
  unfolding handle_tcp_connect
  tcp_connect-OfItems peer target h =
      OfItems-append Q (tcp_access c peer target) (dial_target peer)
        (tcp_access-OfItems peer target h) (OfItems-dial_target Q peer)

  -- A branch of a step that also passes the set of targets on.
  branch-OfItems :
      (b : Bool) (x y : NameSet × List Effect)
      → OfItems Q x.1
      → OfItems Q y.1
      → OfItems Q (if b then x else y).1
  branch-OfItems true x y hx hy = hx
  branch-OfItems false x y hx hy = hy

  module _ {Addr : Type 0} (address_text : RelayTarget → Str) (resolve : Str → CopyError ⊎ Addr)
      (invalid_address : CopyError) where
    udp_access-OfItems :
        (moment : Moment) (target : RelayTarget) (seen : NameSet)
        → Holds moment
        → OfItems Q (record_udp_access address_text c moment target seen).1
    unfolding record_udp_access
    udp_access-OfItems moment target seen h =
        let key = target_key address_text c target in
        branch-OfItems (not c.has_access) (seen, []) _ tt
          (branch-OfItems (has_name key seen) (seen, [])
            (add_name key seen, Effect.recorded (client_item c moment target (lit "udp")) ∷ []) tt
            (h target (lit "udp"), tt))

    up_loop-OfItems :
        (seen : NameSet) (ds : List Incoming)
        → All Holds (moments_of ds)
        → OfItems Q (up_loop address_text resolve invalid_address c seen ds).0
    unfolding up_loop
    up_loop-OfItems seen [] hs = tt
    up_loop-OfItems seen (Incoming.unreadable e ∷ rest) hs = tt
    up_loop-OfItems seen (Incoming.datagram target moment n (some e) ∷ rest) hs =
        elim (sum-cases (resolve_udp_address address_text resolve invalid_address target)) [
          | inl (e', unresolved) ↦ rw (unresolved, up_loop) tt
          | inr (to, resolved) ↦ rw (resolved, up_loop) (OfItems-counted Q Counter.up_bytes n [] tt)
        ]
    up_loop-OfItems seen (Incoming.datagram target moment n none ∷ rest) (h, hs) =
        let next = record_udp_access address_text c moment target seen in
        let more = up_loop-OfItems next.0 rest hs in
        elim (sum-cases (resolve_udp_address address_text resolve invalid_address target)) [
          | inl (e', unresolved) ↦ rw (unresolved, up_loop) tt
          | inr (to, resolved) ↦
              rw (resolved, up_loop)
                (OfItems-counted Q Counter.up_bytes n
                  (next.1 ++ (up_loop address_text resolve invalid_address c next.0 rest).0)
                  (OfItems-append Q next.1
                    (up_loop address_text resolve invalid_address c next.0 rest).0
                    (udp_access-OfItems moment target seen h) more))
        ]

    pipe_udp-OfItems :
        (peer : Peer)
        → All Holds (moments peer)
        → OfItems Q (pipe_udp_associate address_text resolve invalid_address c peer).0
    unfolding pipe_udp_associate
    pipe_udp-OfItems peer hs =
        let closes = Effect.closed Endpoint.udp ∷ (Effect.closed Endpoint.secure ∷ []) in
        let up = (up_loop address_text resolve invalid_address c [] peer.incoming).0 in
        let down = (down_loop peer.packets).0 in
        OfItems-append Q up (down ++ closes) (up_loop-OfItems [] peer.incoming hs.1)
          (OfItems-append Q down closes (OfItems-down_loop Q peer.packets) (tt, (tt, tt)))

    serve_udp-OfItems :
        (peer : Peer)
        → All Holds (moments peer)
        → OfItems Q (serve_udp address_text resolve invalid_address c peer)
    unfolding serve_udp pipe_udp_associate
    serve_udp-OfItems peer hs = elim (Bool-cases peer.response_fails) [
      | inl fails ↦ rw fails (tt, tt)
      | inr answered ↦
          let (effects, error) = pipe_udp_associate address_text resolve invalid_address c peer in
          rw answered (
            OfItems-append Q effects (proxy_error_of error) (pipe_udp-OfItems peer hs)
              (OfItems-proxy_error_of Q error))
    ]

    udp_associate-OfItems :
        (peer : Peer)
        → All Holds (moments peer)
        → OfItems Q (handle_udp_associate address_text resolve invalid_address c peer)
    unfolding handle_udp_associate
    udp_associate-OfItems peer hs = elim (Option-cases peer.listen_error) [
      | inl listens ↦
          rw (listens, handle_udp_associate)
            (
              tt,
              OfItems-append Q (serve_udp address_text resolve invalid_address c peer)
                  (Effect.closed Endpoint.udp ∷ []) (serve_udp-OfItems peer hs) (tt, tt),
            )
      | inr (text, failed) ↦ rw (failed, handle_udp_associate) (tt, (tt, tt))
    ]

    command-OfItems :
        (peer : Peer) (command : Command) (address : RelayTarget)
        → All Holds (moments peer)
        → OfItems Q (
            handle_command address_text resolve invalid_address c peer
              (record { command = command; address = address }))
    unfolding handle_command
    command-OfItems peer Command.tcp_connect address hs = tcp_connect-OfItems peer address hs.0
    command-OfItems peer Command.udp_associate address hs = udp_associate-OfItems peer hs
    command-OfItems peer (Command.other n) address hs = (tt, (tt, tt))

    pub serve-OfItems :
        (peer : Peer)
        → All Holds (moments peer)
        → OfItems Q (serve address_text resolve invalid_address c peer)
    unfolding serve
    serve-OfItems peer hs = elim (Option-cases peer.request) [
      | inl none_came ↦ rw (none_came, serve) (tt, tt)
      | inr (r, came) ↦ rw (came, serve) (command-OfItems peer r.command r.address hs)
    ]
