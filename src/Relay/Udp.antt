-- ===== src/Relay/Udp.antt =====
-- internal/node/server_relay.go: the two loops of a UDP association.
pub mod Access
use knode.Prelude.{
  ℕ, ◌+◌, Bool, not, ◌||◌, Option, none, some, List, [], ◌∷◌, ◌++◌, ltb, leb, ◌==◌, if◌then◌else◌,
  ℤ, pos, negsuc, ◌⊎◌, inl, inr,
}
use knode.Text.{Str, lit, str_eq, trim_space, to_lower, Unicode}
use knode.Metrics.Counters.{Counter}
use knode.AccessLog.Item.{RelayTarget, AccessLogItem, access_log_item}
use knode.ClientStore.{DynamicClientStore, user_id}
use knode.Config.Validate.Parts.{NameSet, has_name, add_name}
use knode.Relay.Effects.{Effect, CopyError, normalize_copy_error}

-- The sender of a packet: the address if it is a UDP one with an IP, and its port.
pub record UdpAddr : Type 0 where
  pub ip : Str
  pub port : ℤ

-- `relayAddressFromUDPAddr`: `none` is any address that is no UDP address with an IP.
unfoldable pub relay_address_from_udp_addr : Option UdpAddr → Option RelayTarget
relay_address_from_udp_addr none = none
relay_address_from_udp_addr (some a) = elim a.port [
  | negsuc n ↦ none
  | pos n ↦ if leb n 0 || ltb 65535 n then none else some (record { host = a.ip; port = n })
]

-- What `UserID` and `time.Now` read when an item is made: the store, whose dynamic half a
-- synchronisation may have replaced since the handshake, and the clock.
pub record Moment : Type 0 where
  pub store : DynamicClientStore
  pub now : ℤ

-- What the handler knows of its client, whether it has an access log, and the table for letter case.
pub record Client : Type 0 where
  pub client_id : Str
  pub remote_addr : Str
  pub has_access : Bool
  pub unicode : Unicode

unfoldable pub client_item : Client → Moment → RelayTarget → Str → AccessLogItem
client_item c moment target network =
    access_log_item c.unicode c.client_id (user_id moment.store c.client_id) target network
      c.remote_addr moment.now

-- What the client sends: a datagram with the moment after its write, the bytes that were written of
-- it and the error of the write, or the error of the read.
pub data Incoming : Type 0 where
  unreadable : CopyError → Incoming
  datagram : RelayTarget → Moment → ℕ → Option CopyError → Incoming

-- What comes back: a packet with its sender, its length and the error of passing it on, or the error
-- of the read.
pub data Packet : Type 0 where
  unreadable : CopyError → Packet
  packet : Option UdpAddr → ℕ → Option CopyError → Packet

-- A loop that goes on, or ended with an error or without one.
pub data Ended : Type 0 where
  running : Ended
  ended : Option CopyError → Ended

-- `if n > 0 { … }`.
abbrev counted_if : (ℕ → Counter) → ℕ → List Effect
counted_if counter n = if ltb 0 n then Effect.counted (counter n) ∷ [] else []

abbrev pub Log : Type 0
Log = List Effect × Ended

abbrev pub after : List Effect → Log → Log
after effects (more, end) = (effects ++ more, end)

-- kray's text of an address.
module _ (address_text : RelayTarget → Str) where
  -- The key of a target in the set of those seen.
  unfoldable pub target_key : Client → RelayTarget → Str
  target_key c target = to_lower c.unicode (address_text target)

  -- `recordUDPAccess`: the set after it, and its effects.
  unfoldable pub record_udp_access : Client → Moment → RelayTarget → NameSet → NameSet × List Effect
  unfolding has_name add_name client_item target_key
  record_udp_access c moment target seen =
      if not c.has_access
      then (seen, [])
      else let key = target_key c target in
        if has_name key seen
        then (seen, [])
        else (add_name key seen, Effect.recorded (client_item c moment target (lit "udp")) ∷ [])

-- kray's text of an address, the resolver of the net package, and kray's error for a bad address.
module _ {Addr : Type 0} (address_text : RelayTarget → Str) (resolve : Str → CopyError ⊎ Addr)
    (invalid_address : CopyError) where
  -- `resolveUDPAddress`.
  unfoldable pub resolve_udp_address : RelayTarget → CopyError ⊎ Addr
  resolve_udp_address address =
      if str_eq (trim_space address.host) [] || (address.port == 0)
      then inl invalid_address
      else resolve (address_text address)

  -- The goroutine from the client to the network, over what the client sent so far.
  unfoldable pub up_loop : Client → NameSet → List Incoming → Log
  up_loop c seen [] = ([], Ended.running)
  up_loop c seen (Incoming.unreadable e ∷ rest) = ([], Ended.ended (normalize_copy_error (some e)))
  up_loop c seen (Incoming.datagram target moment n error ∷ rest) =
      let next = record_udp_access address_text c moment target seen in
      let more = up_loop c next.0 rest in
      elim (resolve_udp_address target) [
        | inl e ↦ ([], Ended.ended (some e))
        | inr to ↦ after (counted_if Counter.up_bytes n) (elim error [
          | some e ↦ ([], Ended.ended (normalize_copy_error (some e)))
          | none ↦ after next.1 more
        ])
      ]

-- The goroutine from the network to the client.
unfoldable pub down_loop : List Packet → Log
down_loop [] = ([], Ended.running)
down_loop (Packet.unreadable e ∷ rest) = ([], Ended.ended (normalize_copy_error (some e)))
down_loop (Packet.packet sender n error ∷ rest) =
    let more = down_loop rest in
    elim (relay_address_from_udp_addr sender) [
      | none ↦ more
      | some target ↦
          after (counted_if Counter.down_bytes n) (elim error [
            | some e ↦ ([], Ended.ended (normalize_copy_error (some e)))
            | none ↦ more
          ])
    ]
