-- ===== src/Tests/Syncs.antt =====
-- The client store over a run of the reporter, at small inputs.
use mathlib.Core.List.Perm
use knode.Prelude.{◌≡◌, ◌≤◌, refl, [], ◌∷◌, pos, arith}
use knode.Text.{is_space, trim_left, trim_right, trim_space, str_eq, lit}
use knode.ClientStore.{is_skipped, ClientCredential, lookup_client_secret, user_id, replace_dynamic}
use knode.ClientStore.Maps.{names_client}
use knode.ClientStore.Order.{entry_count, replace_dynamic-perm}
use knode.Kboard.Loop.{Round, run}
use knode.Kboard.Loop.Secrets.{Keeps, run-Keeps}
use knode.Tests.Fixtures.{system}
use knode.Tests.Clients.{hmac, sum, reporter, available, small_store}
use knode.Tests.Reporters.{first, events}

-- The first round loads bob.
abbrev loads : Round
loads = record first {
  users = record { unix = 1700000000; nanos = 1700000000_000000000; send = available };
}

run-Keeps_example :
    Keeps small_store (run system hmac sum (lit "1.2") (lit "amd64") reporter loads events).0.store
run-Keeps_example =
    run-Keeps system hmac sum (λ m. refl) (lit "1.2") (lit "amd64") reporter small_store loads
      events refl tt

abbrev carol : ClientCredential
carol = record { client_id = lit "carol"; secret = 1 ∷ []; user_id = pos 1 }

abbrev dave : ClientCredential
dave = record { client_id = lit "dave"; secret = 2 ∷ []; user_id = pos 2 }

one_carol : entry_count (lit "carol") (carol ∷ (dave ∷ [])) ≤ 1
unfolding names_client is_skipped str_eq trim_space trim_right trim_left is_space
one_carol = omega arith

replace_dynamic-perm_example :
    (lookup_client_secret (replace_dynamic small_store (carol ∷ (dave ∷ []))) (lit "carol")
      ≡ lookup_client_secret (replace_dynamic small_store (dave ∷ (carol ∷ []))) (lit "carol"))
    × (user_id (replace_dynamic small_store (carol ∷ (dave ∷ []))) (lit "carol")
        ≡ user_id (replace_dynamic small_store (dave ∷ (carol ∷ []))) (lit "carol"))
replace_dynamic-perm_example =
    replace_dynamic-perm (Perm.swap dave carol []) small_store (lit "carol") one_carol
