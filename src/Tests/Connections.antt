-- ===== src/Tests/Connections.antt =====
-- Connections, their counters and the accept loops at small inputs.
use knode.Prelude.{
  negsuc, if◌then◌else◌, All, ◌≡◌, refl, ◌≤◌, ◌<◌, ◌-◌, true, false, ◌&&◌, ◌==◌, none, some, List,
  [], ◌∷◌, ◌⊎◌, ℕ, ℤ, pos, arith,
}
use knode.Text.{lit}
use knode.Metrics.{new_metrics, snapshot, add_rejected}
use knode.Metrics.Counters.{Counter, apply_all}
use knode.Metrics.Totals.{IsTally, sum_of, begins, ends, apply_all-IsTally, snapshot-active}
use knode.ClientStore.{new_store}
use knode.Relay.Effects.{Command, CopyError, Copied}
use knode.Relay.Udp.{Moment, Client, Incoming, up_loop}
use knode.Relay.Udp.Access.{records, distinct_outside, written_keys, up_loop-records_once}
use knode.Relay.Handle.{Peer, UdpEnd, handle}
use knode.Relay.Handle.Reports.{failures, handle-failures}
use knode.ClientStore.{ClientCredential}
use knode.Relay.Accounting.{OfItem}
use knode.Relay.Accounting.Connections.{moments}
use knode.Relay.Accounting.Users.{IsAccounted, handle-IsAccounted}
use knode.ClientStore.Calls.{Call, run}
use knode.Accept.{Phase, Node, new_node, spawn, accept, advance, capacity, Step, Reaches}
use knode.Accept.Gates.{IsSound, Reaches-IsSound, count_if, is_serving, occupies, at}
use knode.Accept.Limits.{Reaches-limit, accept-by_room, idle-of_waiting}
use knode.Accept.Drain.{Moves, work, Moves-bound, Reaches-drains}
use knode.Tests.Fixtures.{plain_unicode}
use knode.Tests.Services.{address_text, resolve, invalid_address}

abbrev first : Moment
first = record { store = new_store; now = pos 1 }

abbrev pub client : Client
client = record {
  client_id = lit "alice";
  remote_addr = lit "1.2.3.4:5";
  has_access = true;
  unicode = plain_unicode;
}

-- Two datagrams to one host, in different letter case, and one to another.
abbrev traffic : List Incoming
traffic =
    Incoming.datagram (record { host = lit "A"; port = 53 }) first 10 none
    ∷ (Incoming.datagram (record { host = lit "a"; port = 53 }) first 10 none
        ∷ (Incoming.datagram (record { host = lit "b"; port = 53 }) first 10 none ∷ []))

abbrev copied : Copied
copied = record { bytes = 3; error = some CopyError.eof }

abbrev pub peer : Peer
peer = record {
  handshake = some (lit "alice");
  request =
      some
        (record { command = Command.tcp_connect; address = record { host = lit "a"; port = 443 } });
  moment = first;
  dial_error = none;
  listen_error = none;
  response_fails = false;
  piped = record {
    up = copied;
    down = record { bytes = 5; error = some (CopyError.other 2) };
    up_first = true;
  };
  incoming = traffic;
  packets = [];
  udp_end = UdpEnd.up_ended;
}

up_loop-records_once_example :
    records (up_loop address_text resolve invalid_address client [] traffic).0
    ≡ distinct_outside [] (written_keys address_text resolve invalid_address client traffic)
up_loop-records_once_example =
    up_loop-records_once address_text resolve invalid_address client traffic refl

handle-failures_test : failures (handle address_text resolve invalid_address client peer) ≤ 1
handle-failures_test = handle-failures address_text resolve invalid_address client peer

abbrev alice : List ClientCredential
alice = record { client_id = lit "alice"; secret = 7 ∷ []; user_id = pos 5 } ∷ []

-- Kboard knows alice from the second moment on.
abbrev second : Moment
second = record { store = run new_store (Call.replaces alice ∷ []); now = pos 2 }

abbrev history : Moment → List Call
history m = elim m.now [ negsuc n ↦ [] | pos n ↦ if n == 1 then [] else (Call.replaces alice ∷ []) ]

abbrev udp_peer : Peer
udp_peer = record peer {
  request =
      some (record {
        command = Command.udp_associate;
        address = record { host = lit "a"; port = 443 };
      });
  incoming =
      Incoming.datagram (record { host = lit "A"; port = 53 }) first 10 none
      ∷ (Incoming.datagram (record { host = lit "b"; port = 53 }) second 10 none ∷ []);
}

handle-IsAccounted_example :
    All
      (OfItem (IsAccounted (lit "alice") (moments udp_peer) history))
      (handle address_text resolve invalid_address client udp_peer)
unfolding run
handle-IsAccounted_example =
    handle-IsAccounted address_text resolve invalid_address client udp_peer history (lit "alice")
      (refl, (refl, (refl, tt))) refl

abbrev counters : List Counter
counters = Counter.end ∷ (Counter.up_bytes 3 ∷ (Counter.begin ∷ (Counter.begin ∷ [])))

apply_all-IsTally_example : IsTally counters (apply_all counters (new_metrics 0))
apply_all-IsTally_example = apply_all-IsTally counters 0

snapshot-active_example :
    (snapshot (apply_all counters (new_metrics 0)) 9).active
    ≡ pos (sum_of begins counters - sum_of ends counters)
snapshot-active_example = snapshot-active counters 0 9 (omega arith) (omega arith)

-- Every inbound takes one connection.
abbrev limits : ℕ → ℤ
limits i = pos 1

abbrev start : Node
start = new_node 0

abbrev taken : Node
taken = accept limits 0 start

abbrev taken_path : Reaches limits start taken
taken_path = Reaches.step start start taken (Reaches.here start) (Step.accepted 0 start)

Reaches-IsSound_example : IsSound limits taken
Reaches-IsSound_example = Reaches-IsSound limits 0 taken taken_path

Reaches-limit_example :
    count_if (λ c. (c.inbound == 0) && is_serving c) taken.conns ≤ capacity (limits 0)
Reaches-limit_example = Reaches-limit limits 0 taken 0 taken_path refl

accept-by_room_example :
    ((count_if (occupies 0) taken.conns < capacity (limits 0))
      × ((accept limits 0 taken).conns ≡ at 0 Phase.spawned ∷ taken.conns)
      × ((accept limits 0 taken).metrics ≡ taken.metrics))
    ⊎ (count_if (occupies 0) taken.conns ≡ capacity (limits 0))
      × (accept limits 0 taken ≡ record taken { metrics = add_rejected taken.metrics })
accept-by_room_example = accept-by_room limits 0 taken 0 taken_path refl

start_has_none : start.waiting ≡ 0
unfolding new_node
start_has_none = refl

idle-of_waiting_test :
    (start.conns ≡ []) × (start.metrics.active ≡ 0) × ((i : ℕ) → start.held i ≡ 0)
idle-of_waiting_test = idle-of_waiting limits 0 start (Reaches.here start) start_has_none

Reaches-drains_example :
    (m : Node) × Moves limits (work taken.conns) taken m
    × (m.waiting ≡ 0)
    × (m.metrics.active ≡ 0)
    × ((i : ℕ) → m.held i ≡ 0)
Reaches-drains_example = Reaches-drains limits 0 taken taken_path

taken-conns : taken.conns ≡ at 0 Phase.spawned ∷ []
unfolding accept spawn new_node capacity
taken-conns = refl

one_move : Moves limits 1 taken (advance limits taken [] (at 0 Phase.spawned) [])
one_move =
    let next = advance limits taken [] (at 0 Phase.spawned) [] in
    Moves.move 0 taken [] (at 0 Phase.spawned) [] next taken-conns (Moves.none_left next)

Moves-bound_test : 1 ≤ work taken.conns
Moves-bound_test =
    Moves-bound limits 1 taken (advance limits taken [] (at 0 Phase.spawned) []) one_move
