-- ===== src/ClientStore/Calls.antt =====
-- internal/node/client_store.go: sequences of calls of the three writers.
use knode.Prelude.{List, [], ◌∷◌}
use knode.ClientStore.{
  ClientCredential, DynamicClientStore, set_static, add_static, replace_dynamic,
}

-- A call of one of the three writers.
pub data Call : Type 0 where
  sets adds replaces : List ClientCredential → Call

unfoldable pub step : DynamicClientStore → Call → DynamicClientStore
step s (sets es) = set_static s es
step s (adds es) = add_static s es
step s (replaces es) = replace_dynamic s es

unfoldable pub run : DynamicClientStore → List Call → DynamicClientStore
run s [] = s
run s (c ∷ cs) = run (step s c) cs
