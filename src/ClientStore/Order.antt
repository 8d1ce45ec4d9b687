-- ===== src/ClientStore/Order.antt =====
-- internal/node/client_store.go: when the order of a list of credentials does not matter.
use mathlib.Core.Logic.{∥∥₁_elim}
use mathlib.Core.List.{Perm, Permᴰ}
use knode.Prelude.{
  ℕ, ◌+◌, ◌≤◌, ◌≡◌, refl, ◌∙◌, Option, none, some, List, [], ◌∷◌, arith, if◌then◌else◌,
}
use knode.Text.{Str}
use knode.ClientStore.{
  ClientCredential, DynamicClientStore, lookup_client_secret, user_id, replace_dynamic,
}
use knode.ClientStore.Maps.{names_client, last_entry, lookup-credential_maps}
use knode.Dict.Lookup.{or_else}

-- How many usable credentials of a list belong to a client.
abbrev pub entry_count : Str → List ClientCredential → ℕ
entry_count k [] = 0
entry_count k (e ∷ es) = (if names_client k e then 1 else 0) + entry_count k es

entry_count-swap :
    (k : Str) (a b : ClientCredential) (l : List ClientCredential)
    → entry_count k (a ∷ (b ∷ l)) ≡ entry_count k (b ∷ (a ∷ l))
entry_count-swap k a b l = ground arith

entry_count-perm :
    {es fs : List ClientCredential} (k : Str) → Permᴰ es fs → entry_count k es ≡ entry_count k fs
entry_count-perm k Permᴰ.nil = refl
entry_count-perm k (Permᴰ.cons e p) =
    λ i. (if names_client k (e i) then 1 else 0) + entry_count-perm k p i
entry_count-perm k (Permᴰ.swap {a} {b} {l = l} e f) =
    entry_count-swap k a b l ∙ (λ i. entry_count k (f i ∷ (e i ∷ l)))
entry_count-perm k (Permᴰ.trans p q) = entry_count-perm k p ∙ entry_count-perm k q

last_entry-swap :
    (k : Str) (a b : ClientCredential) (l : List ClientCredential)
    → entry_count k (a ∷ (b ∷ l)) ≤ 1
    → last_entry k (a ∷ (b ∷ l)) ≡ last_entry k (b ∷ (a ∷ l))
unfolding last_entry
last_entry-swap k a b l h = ground arith

last_entry-perm :
    {es fs : List ClientCredential} (k : Str)
    → Permᴰ es fs
    → entry_count k es ≤ 1
    → last_entry k es ≡ last_entry k fs
unfolding last_entry
last_entry-perm k Permᴰ.nil h = refl
last_entry-perm k (Permᴰ.cons {a} e p) h = λ i.
    or_else (last_entry-perm k p (omega arith) i)
      (if names_client k (e i) then some (e i) else none)
last_entry-perm k (Permᴰ.swap {a} {b} {l = l} e f) h =
    last_entry-swap k a b l h ∙ (λ i. last_entry k (f i ∷ (e i ∷ l)))
last_entry-perm k (Permᴰ.trans {l₁} {l₂} p q) h =
    last_entry-perm k p h ∙ last_entry-perm k q (ground (arith, entry_count-perm k p))

entry-set : IsSet (Option ClientCredential)
entry-set = hlevel

-- What the store answers for a client after a replacement of its dynamic half does not depend on the
-- order of the list, as long as at most one of the usable credentials in it belongs to the client.
pub replace_dynamic-perm :
    {es fs : List ClientCredential}
    → Perm es fs
    → (s : DynamicClientStore) (k : Str) → entry_count k es ≤ 1
    → (lookup_client_secret (replace_dynamic s es) k
        ≡ lookup_client_secret (replace_dynamic s fs) k)
      × (user_id (replace_dynamic s es) k ≡ user_id (replace_dynamic s fs) k)
unfolding lookup_client_secret user_id replace_dynamic
replace_dynamic-perm {es} {fs} p s k one =
    let same = ∥∥₁_elim p (entry-set _ _) (λ d. last_entry-perm k d one) in
    let (secret, user) = lookup-credential_maps k es in
    let (secret', user') = lookup-credential_maps k fs in
    (ground (arith, secret, secret', same), ground (arith, user, user', same))
