-- ===== src/Relay/Accounting/Users.antt =====
-- internal/node/server_relay.go and client_store.go: the users of the items of a connection, for what
-- the writers of the store have entered.
use mathlib.Core.List.{Memᴰ}
use knode.Prelude.{
  ◌≡◌, refl, ap, ◌∙◌, Option, none, some, List, [], ◌∷◌, ◌⊎◌, All, ℤ, is_positive, if◌then◌else◌,
}
use knode.Text.{Str, trim_space}
use knode.AccessLog.Item.{AccessLogItem, RelayTarget, access_log_item}
use knode.ClientStore.{new_store, user_id}
use knode.ClientStore.Calls.{Call, run}
use knode.ClientStore.Contract.{enter_all, no_entries, entered_user_id}
use knode.ClientStore.Refinement.{run-refines}
use knode.Relay.Effects.{Endpoint, Effect, CopyError}
use knode.Relay.Udp.{Moment, Client, client_item}
use knode.Relay.Handle.{Peer, serve, handle}
use knode.Relay.Accounting.{OfItem, OfItems-append}
use knode.Relay.Accounting.Connections.{moments, serve-OfItems}

-- The user of an item: a positive id, or none.
abbrev pub positive_user : ℤ → Option ℤ
positive_user user = if is_positive user then some user else none

-- An item of a client that was made at one of the moments: its user is the one that the entries
-- written to the store before that moment name.
pub record IsAccounted (id : Str) (ms : List Moment) (history : Moment → List Call)
    (item : AccessLogItem) : Type 0 where
  pub moment : Moment
  pub during : Memᴰ moment ms
  pub client : item.client_id ≡ trim_space id
  pub kless_client : item.kless_client_id ≡ trim_space id
  pub time : item.accessed_at ≡ moment.now
  pub user :
      item.user_id ≡ positive_user (entered_user_id (enter_all no_entries (history moment)) id)

abbrev pub WasRun : (Moment → List Call) → Moment → Type 0
WasRun history m = m.store ≡ run new_store (history m)

client_item-IsAccounted :
    (ms : List Moment) (history : Moment → List Call) (c : Client) (m : Moment)
    → Memᴰ m ms
    → WasRun history m
    → (target : RelayTarget) (network : Str)
    → IsAccounted c.client_id ms history (client_item c m target network)
unfolding client_item access_log_item
client_item-IsAccounted ms history c m during was target network = record {
  moment = m;
  during = during;
  client = refl;
  kless_client = refl;
  time = refl;
  user =
      ap positive_user
        (ap (λ s. user_id s c.client_id) was ∙ (run-refines (history m) c.client_id).1);
}

-- A property of the members of a list, which may use that they are members.
All-of_members :
    {A : Type 0} {P Q : A → Type 0} (xs : List A)
    → ((x : A) → Memᴰ x xs → P x → Q x)
    → All P xs
    → All Q xs
All-of_members [] f hs = tt
All-of_members (x ∷ xs) f (h, hs) =
    (f x (Memᴰ.head refl) h, All-of_members xs (λ y m. f y (Memᴰ.tail m)) hs)

-- Take a connection whose handshake named a client, and a store that at each of its moments is a
-- new one after some calls of the writers, which may go on meanwhile. Whatever the peers do, every item
-- that the connection records, for TCP or UDP, has this client, the time of one of the moments and
-- the user that the abstract view of the store had for the client at that moment, if positive, else
-- none.
pub handle-IsAccounted :
    {Addr : Type 0} (address_text : RelayTarget → Str) (resolve : Str → CopyError ⊎ Addr)
    (invalid_address : CopyError) (c : Client) (peer : Peer) (history : Moment → List Call)
    (id : Str)
    → All (WasRun history) (moments peer)
    → peer.handshake ≡ some id
    → All
        (OfItem (IsAccounted id (moments peer) history))
        (handle address_text resolve invalid_address c peer)
unfolding handle
handle-IsAccounted address_text resolve invalid_address c peer history id was came =
    let c' : Client = record c { client_id = id } in
    let Q = IsAccounted id (moments peer) history in
    let made =
      All-of_members (moments peer)
        (λ m during h. client_item-IsAccounted (moments peer) history c' m during h) was in
    rw (came, handle)
      (OfItems-append Q (serve address_text resolve invalid_address c' peer)
        (Effect.closed Endpoint.secure ∷ [])
        (serve-OfItems Q c' address_text resolve invalid_address peer made) (tt, tt))
