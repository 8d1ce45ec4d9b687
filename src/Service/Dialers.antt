-- ===== src/Service/Dialers.antt =====
-- internal/node/service.go: the dialer of a tcp inbound is there.
use knode.Prelude.{
  ℕ, suc, ◌≡◌, ap, sym, Bool, true, false, ◌||◌, Option, none, some, List, [], ◌∷◌, arith, ok, All,
  Bool-cases, inl, inr,
}
use knode.Text.{Str, lit, str_eq}
use knode.Text.Equality.{str_eq_cases}
use knode.Dict.{Dict, insert, lookup}
use knode.Dict.Lookup.{lookup-insert}
use knode.Config.{UpstreamConfig, InboundConfig}
use knode.Config.System.{System}
use mathlib.Core.Path.{subst}
use knode.Config.Defaults.{trim_inbound}
use knode.Config.Validate.{validate_upstreams, validate_inbounds}
use knode.Config.Validate.Invert.{validate_upstreams-cons, validate_inbounds-cons}
use knode.Config.Validate.Parts.{
  NameSet, add_name, has_name, validate_inbound, check_mode, check_inbound,
}
use knode.Dialer.{UpstreamDialer}
use knode.Service.New.{is_server, dialers_of}

-- An upstream with the name is in the list.
abbrev names_upstream : Str → List UpstreamConfig → Bool
names_upstream n [] = false
names_upstream n (u ∷ us) = str_eq u.name n || names_upstream n us

abbrev pub is_found : Option UpstreamDialer → Bool
is_found none = false
is_found (some d) = true

pub has_name-add_name :
    (n m : Str) (names : NameSet) → has_name n (add_name m names) ≡ (str_eq m n || has_name n names)
unfolding has_name add_name
has_name-add_name n m names = elim (Bool-cases (has_name m names)) [
  | inl known ↦ elim (str_eq_cases m n) [
    | inl (same, p) ↦
        ground (arith, ap (λ x. has_name x (add_name m names)) p, ap (λ x. has_name x names) p)
    | inr (other, p) ↦ ground arith
  ]
  | inr new ↦ ground arith
]

pub validate_inbounds-nil :
    (sys : System) (upstreams : NameSet) (dynamic : Bool) (i : ℕ) (names : NameSet)
    {bs : List InboundConfig}
    → validate_inbounds sys upstreams dynamic i names [] ≡ ok bs
    → [] ≡ bs
unfolding validate_inbounds
validate_inbounds-nil sys upstreams dynamic i names h = ground arith

-- The names that the loop over the upstreams collects are theirs.
pub validate_upstreams-names :
    (sys : System) (n : Str) (i : ℕ) (names : NameSet) (raws : List UpstreamConfig) {all : NameSet}
    {us : List UpstreamConfig}
    → validate_upstreams sys i names raws ≡ ok (all, us)
    → has_name n all ≡ true
    → (has_name n names || names_upstream n us) ≡ true
unfolding validate_upstreams
validate_upstreams-names sys n i names [] {all} {us} h t = ground arith
validate_upstreams-names sys n i names (raw ∷ rest) {all} {us} h t =
    let (u, more, first, fresh, others, e) = validate_upstreams-cons sys i names raw rest h in
    ground (
      arith,
      validate_upstreams-names sys n (suc i) (add_name u.name names) rest {all = all} {us = more}
          others t,
      has_name-add_name n u.name names,
    )

pub lookup-dialers_of :
    (n : Str) (ds : Dict UpstreamDialer) (us : List UpstreamConfig)
    → (is_found (lookup n ds) || names_upstream n us) ≡ true
    → is_found (lookup n (dialers_of ds us)) ≡ true
unfolding dialers_of
lookup-dialers_of n ds [] h = ground arith
lookup-dialers_of n ds (u ∷ us) h = ground (
  arith,
  lookup-insert u.name n (record { cfg = u }) ds,
  lookup-dialers_of n (insert u.name (record { cfg = u }) ds) us,
)

-- An inbound that is no server is a tcp inbound with a known upstream.
abbrev pub IsBacked : NameSet → InboundConfig → Type 0
IsBacked names b =
    is_server b ≡ false → (str_eq b.mode (lit "tcp") ≡ true) × (has_name b.upstream names ≡ true)

module _ (sys : System) (upstreams : NameSet) (dynamic : Bool) where
  check_inbound-IsBacked :
      (i : InboundConfig) {b : InboundConfig}
      → check_inbound sys i upstreams dynamic ≡ ok b
      → IsBacked upstreams b
  unfolding check_inbound check_mode
  check_inbound-IsBacked i h other = ground arith

  pub validate_inbounds-IsBacked :
      (i : ℕ) (names : NameSet) (raws : List InboundConfig) {bs : List InboundConfig}
      → validate_inbounds sys upstreams dynamic i names raws ≡ ok bs
      → All (IsBacked upstreams) bs
  unfolding validate_inbounds validate_inbound
  validate_inbounds-IsBacked i names [] h =
      subst (All (IsBacked upstreams)) (validate_inbounds-nil sys upstreams dynamic i names h) tt
  validate_inbounds-IsBacked i names (raw ∷ rest) h =
      let (b, more, first, fresh, others, e) =
        validate_inbounds-cons sys upstreams dynamic i names raw rest h in
      subst (All (IsBacked upstreams)) (sym e) (
        check_inbound-IsBacked (trim_inbound sys raw) first,
        validate_inbounds-IsBacked (suc i) (add_name b.name names) rest others,
      )
