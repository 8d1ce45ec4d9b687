-- ===== src/Relay/Udp/Access.antt =====
-- internal/node/server_relay.go: a UDP association records each target once.
use knode.Prelude.{
  ap, ℕ, ◌+◌, ◌≡◌, refl, true, false, ◌||◌, none, some, List, [], ◌∷◌, ◌++◌, if◌then◌else◌, ◌⊎◌,
  inl, inr, arith, Bool-cases,
}
use knode.Text.{Str, str_eq}
use knode.Text.Equality.{str_eq_iff, str_eq_cases}
use knode.AccessLog.Item.{RelayTarget}
use knode.Config.Validate.Parts.{NameSet, has_name, add_name}
use knode.Relay.Effects.{Effect, CopyError}
use knode.Relay.Udp.{
  Moment, Client, Incoming, target_key, record_udp_access, resolve_udp_address, up_loop,
}

-- The items that were recorded.
abbrev is_record : Effect → ℕ
is_record (Effect.recorded item) = 1
is_record _ = 0

abbrev pub records : List Effect → ℕ
records [] = 0
records (e ∷ es) = is_record e + records es

records-append : (xs ys : List Effect) → records (xs ++ ys) ≡ records xs + records ys
records-append [] ys = omega arith
records-append (x ∷ xs) ys = ground (arith, records-append xs ys)

-- The number of different texts of a list that are not in a set: of several equal ones, the last
-- counts.
abbrev pub distinct_outside : NameSet → List Str → ℕ
distinct_outside seen [] = 0
distinct_outside seen (k ∷ ks) =
    (if has_name k seen || has_name k ks then 0 else 1) + distinct_outside seen ks

has_name-same :
    (j k : Str) (names : NameSet) → str_eq j k ≡ true → has_name j names ≡ has_name k names
has_name-same j k names h = ap (λ x. has_name x names) ((str_eq_iff j k).0 h)

-- A text that joins the set takes itself out of the count.
distinct_outside-add :
    (k : Str) (seen : NameSet) (ks : List Str)
    → has_name k seen ≡ false
    → distinct_outside seen ks ≡ (if has_name k ks then 1 else 0) + distinct_outside (k ∷ seen) ks
unfolding has_name
distinct_outside-add k seen [] new = omega arith
distinct_outside-add k seen (j ∷ ks) new = elim (str_eq_cases j k) [
  | inl (same, p) ↦ ground (
    arith,
    has_name-same j k seen same,
    has_name-same j k ks same,
    str_eq_iff k j,
    distinct_outside-add k seen ks new,
  )
  | inr (other, p) ↦ ground (arith, str_eq_iff k j, distinct_outside-add k seen ks new)
]

module _ {Addr : Type 0} (address_text : RelayTarget → Str) (resolve : Str → CopyError ⊎ Addr)
    (invalid_address : CopyError) where
  -- The keys of the datagrams that were written before the loop ended.
  unfoldable pub written_keys : Client → List Incoming → List Str
  written_keys c [] = []
  written_keys c (Incoming.unreadable e ∷ rest) = []
  written_keys c (Incoming.datagram target moment n error ∷ rest) =
      let more = written_keys c rest in
      elim (resolve_udp_address address_text resolve invalid_address target) [
        | inl e ↦ []
        | inr to ↦ elim error [ some e ↦ [] | none ↦ target_key address_text c target ∷ more ]
      ]

  records-record_udp_access :
      (c : Client) (moment : Moment) (target : RelayTarget) (seen : NameSet) (ks : List Str)
      → c.has_access ≡ true
      → let key = target_key address_text c target in
        let next = record_udp_access address_text c moment target seen in
        records next.1 + distinct_outside next.0 ks ≡ distinct_outside seen (key ∷ ks)
  unfolding record_udp_access add_name
  records-record_udp_access c moment target seen ks on =
      let key = target_key address_text c target in
      elim (Bool-cases (has_name key seen)) [
        | inl known ↦ ground arith
        | inr new ↦ ground (arith, distinct_outside-add key seen ks new)
      ]

  records-up_loop :
      (c : Client) (seen : NameSet) (ds : List Incoming)
      → c.has_access ≡ true
      → records (up_loop address_text resolve invalid_address c seen ds).0
        ≡ distinct_outside seen (written_keys c ds)
  unfolding up_loop written_keys
  records-up_loop c seen [] on = refl
  records-up_loop c seen (Incoming.unreadable e ∷ rest) on = refl
  records-up_loop c seen (Incoming.datagram target moment n error ∷ rest) on =
      let next = record_udp_access address_text c moment target seen in
      let more = up_loop address_text resolve invalid_address c next.0 rest in
      ground (
        arith,
        records-record_udp_access c moment target seen (written_keys c rest) on,
        records-up_loop c next.0 rest on,
        records-append next.1 more.0,
      )

  -- A UDP association whose relay has an access log records one item for each different target, up
  -- to letter case, among the datagrams that it wrote before its loop ended.
  pub up_loop-records_once :
      (c : Client) (ds : List Incoming)
      → c.has_access ≡ true
      → records (up_loop address_text resolve invalid_address c [] ds).0
        ≡ distinct_outside [] (written_keys c ds)
  up_loop-records_once c ds on = records-up_loop c [] ds on
