-- ===== src/Shared.antt =====
-- Objects of the node that several of its parts point to: an object at an address, and a pointer to it.
use knode.Prelude.{ℕ, Option, none, some, ◌==◌, if◌then◌else◌}

pub record Shared (A : Type 0) : Type 0 where
  pub address : ℕ
  pub content : A

-- The object that a pointer leads to, where there is one object of the type.
unfoldable pub deref : {A : Type 0} → Shared A → ℕ → Option (Shared A)
deref object pointer = if pointer == object.address then some object else none

abbrev pub pointer_to : {A : Type 0} → Option (Shared A) → Option ℕ
pointer_to none = none
pointer_to (some object) = some object.address

abbrev pub content_of : {A : Type 0} → Option (Shared A) → Option A
content_of none = none
content_of (some object) = some object.content

-- A new object, where there is one.
abbrev pub allocate : {A : Type 0} → ℕ → Option A → Option (Shared A)
allocate address none = none
allocate address (some content) = some (record { address = address; content = content })
