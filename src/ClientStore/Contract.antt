-- ===== src/ClientStore/Contract.antt =====
-- internal/node/client_store.go: what its clients, the relays and the reporter, rely on of the store.
use mathlib.Core.Option
use knode.Prelude.{◌≡◌, Option, List, [], ◌∷◌, ◌++◌, ℤ, pos, is_positive, if◌then◌else◌}
use knode.Text.{Str}
use knode.Dict.Lookup.{or_else}
use knode.ClientStore.{Bytes, ClientCredential}
use knode.ClientStore.Maps.{last_entry, secret_of, user_of}
use knode.ClientStore.Calls.{Call, sets, adds, replaces}

-- The abstract view: the static entries in the order of their arrival, and the last dynamic list.
pub record Entered : Type 0 where
  pub static : List ClientCredential
  pub dynamic : List ClientCredential

abbrev pub no_entries : Entered
no_entries = record { static = []; dynamic = [] }

unfoldable pub enter : Entered → Call → Entered
enter e (sets es) = record e { static = es }
enter e (adds es) = record e { static = e.static ++ es }
enter e (replaces es) = record e { dynamic = es }

pub enter_all : Entered → List Call → Entered
enter_all e [] = e
enter_all e (c ∷ cs) = enter_all (enter e c) cs

-- The secret of the abstract view: the dynamic entry's, else the static one's.
abbrev pub entered_secret : Entered → Str → Option Bytes
entered_secret e k =
    or_else (secret_of (last_entry k e.dynamic)) (secret_of (last_entry k e.static))

-- The user id of the abstract view: the dynamic entry's if it is positive, else the static one's.
unfoldable pub entered_user_id : Entered → Str → ℤ
entered_user_id e k =
    let dynamic = Option.get_or (user_of (last_entry k e.dynamic)) (pos 0) in
    if is_positive dynamic then dynamic else Option.get_or (user_of (last_entry k e.static)) (pos 0)

-- A store of clients: its operations, the views that it shows, and that it answers as they do.
pub record StoreContract : Type 1 where
  pub Store : Type 0
  pub empty : Store
  pub write : Store → Call → Store
  pub find_secret : Store → Str → Option Bytes
  pub find_user : Store → Str → ℤ
  pub Shows : Store → Entered → Type 0
  pub empty_shows : Shows empty no_entries
  pub write_shows : {s : Store} {e : Entered} (c : Call) → Shows s e → Shows (write s c) (enter e c)
  pub secret_shown :
      {s : Store} {e : Entered} (k : Str) → Shows s e → find_secret s k ≡ entered_secret e k
  pub user_shown :
      {s : Store} {e : Entered} (k : Str) → Shows s e → find_user s k ≡ entered_user_id e k

module _ (C : StoreContract) where
  open C use {Store, empty, write, find_secret, find_user, Shows}

  unfoldable pub write_all : Store → List Call → Store
  write_all s [] = s
  write_all s (c ∷ cs) = write_all (write s c) cs

  write_all-Shows :
      (cs : List Call) {s : Store} {e : Entered}
      → Shows s e
      → Shows (write_all s cs) (enter_all e cs)
  unfolding write_all enter_all
  write_all-Shows [] h = h
  write_all-Shows (c ∷ cs) h = write_all-Shows cs (C.write_shows c h)

  -- After any calls on the empty store, it answers as the abstract view.
  pub write_all-answers :
      (cs : List Call) (k : Str)
      → (find_secret (write_all empty cs) k ≡ entered_secret (enter_all no_entries cs) k)
        × (find_user (write_all empty cs) k ≡ entered_user_id (enter_all no_entries cs) k)
  write_all-answers cs k =
      let shown = write_all-Shows cs C.empty_shows in (C.secret_shown k shown, C.user_shown k shown)
