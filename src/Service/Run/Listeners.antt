-- ===== src/Service/Run/Listeners.antt =====
-- internal/node/service.go: what the loop of `Run` over the inbounds leaves.
use mathlib.Core.Option
use knode.Prelude.{
  Result-cases, ◌+◌, ◌≡◌, refl, ap, ◌∙◌, sym, false, List, [], ◌∷◌, ◌++◌, length, length-append,
  Error, ok, arith, inl, inr,
}
use knode.Text.{Str, str_eq}
use knode.Text.Equality.{str_eq_refl}
use knode.Dict.{lookup}
use knode.Dict.Lookup.{lookup-insert}
use knode.Config.{InboundConfig}
use knode.Service.{Service, set_inbound_address, inbound_address}
use knode.Service.Relays.{names_inbound, IsFresh}
use knode.Service.Run.{Listen, Closer, Listened, listen_all}

set_inbound_address-same :
    (s : Service) (n address : Str) → inbound_address (set_inbound_address s n address) n ≡ address
unfolding inbound_address set_inbound_address
set_inbound_address-same s n address =
    ground (arith, lookup-insert n n address s.inbound_addrs, str_eq_refl n)

set_inbound_address-other :
    (s : Service) (m n address : Str)
    → str_eq m n ≡ false
    → inbound_address (set_inbound_address s m address) n ≡ inbound_address s n
unfolding inbound_address set_inbound_address
set_inbound_address-other s m n address other =
    ground (arith, lookup-insert m n address s.inbound_addrs)

set_inbound_address-counts :
    (s : Service) (n address : Str)
    → ((set_inbound_address s n address).started_listeners ≡ s.started_listeners + 1)
      × ((set_inbound_address s n address).cfg ≡ s.cfg)
unfolding set_inbound_address
set_inbound_address-counts s n address = (refl, refl)

module _ (listen : Listen) where
  -- A round of the loop whose listener opens.
  listen_all-cons :
      (s : Service) (closers : List Closer) (i : InboundConfig) (rest : List InboundConfig)
      {s' : Service} {out : List Closer}
      → listen_all listen s closers (i ∷ rest) ≡ Listened.listening s' out
      → (address : Str) × (listen closers i.listen ≡ ok address)
        × (listen_all listen
              (set_inbound_address s i.name address)
              (closers ++ (Closer.inbound i.name ∷ []))
              rest
            ≡ Listened.listening s' out)
  unfolding listen_all
  listen_all-cons s closers i rest h = elim (Result-cases (listen closers i.listen)) [
    | inl (e, failed) ↦
        let stopped : listen_all listen s closers (i ∷ rest)
            ≡ Listened.failed (Error.wrap_name "listen inbound" i.name e) closers =
          ground arith in
        cc (stopped, h)
    | inr (address, opened) ↦ (address, opened, ground arith)
  ]

  listen_all-keeps :
      (n : Str) (s : Service) (closers : List Closer) (bs : List InboundConfig) {s' : Service}
      {out : List Closer}
      → listen_all listen s closers bs ≡ Listened.listening s' out
      → names_inbound n bs ≡ false
      → inbound_address s' n ≡ inbound_address s n
  unfolding listen_all
  listen_all-keeps n s closers [] h absent = ground arith
  listen_all-keeps n s closers (i ∷ rest) {s'} {out} h absent =
      let (address, opened, more) = listen_all-cons s closers i rest h in
      let later =
        listen_all-keeps n (set_inbound_address s i.name address)
          (closers ++ (Closer.inbound i.name ∷ [])) rest more (ground arith) in
      later ∙ set_inbound_address-other s i.name n address (ground arith)

  -- Every inbound has the address that its listener gave, opened behind those of `closers`.
  abbrev pub HaveAddresses : Service → List Closer → List InboundConfig → Type 0
  HaveAddresses s closers [] = Unit
  HaveAddresses s closers (i ∷ rest) =
      (listen closers i.listen ≡ ok (inbound_address s i.name))
      × HaveAddresses s (closers ++ (Closer.inbound i.name ∷ [])) rest

  pub HaveAddresses-same :
      (s s' : Service) (closers : List Closer) (bs : List InboundConfig)
      → s'.inbound_addrs ≡ s.inbound_addrs
      → HaveAddresses s closers bs
      → HaveAddresses s' closers bs
  unfolding inbound_address
  HaveAddresses-same s s' closers [] e h = tt
  HaveAddresses-same s s' closers (b ∷ bs) e (p, h) = (
    p ∙ ap (λ m. ok (Option.get_or (lookup b.name m) [])) (sym e),
    HaveAddresses-same s s' (closers ++ (Closer.inbound b.name ∷ [])) bs e h,
  )

  pub listen_all-HaveAddresses :
      (s : Service) (closers : List Closer) (bs : List InboundConfig) {s' : Service}
      {out : List Closer}
      → IsFresh bs
      → listen_all listen s closers bs ≡ Listened.listening s' out
      → HaveAddresses s' closers bs
  listen_all-HaveAddresses s closers [] f h = tt
  listen_all-HaveAddresses s closers (i ∷ rest) {s'} {out} (fresh, f) h =
      let (address, opened, more) = listen_all-cons s closers i rest h in
      let s1 = set_inbound_address s i.name address in
      let cs = closers ++ (Closer.inbound i.name ∷ []) in
      let same = listen_all-keeps i.name s1 cs rest more fresh in
      (
        opened ∙ ap ok (sym (same ∙ set_inbound_address-same s i.name address)),
        listen_all-HaveAddresses s1 cs rest f more,
      )

  pub listen_all-counts :
      (s : Service) (closers : List Closer) (bs : List InboundConfig) {s' : Service}
      {out : List Closer}
      → listen_all listen s closers bs ≡ Listened.listening s' out
      → (s'.started_listeners ≡ s.started_listeners + length bs)
        × (s'.cfg ≡ s.cfg)
        × (length out ≡ length closers + length bs)
  unfolding listen_all
  listen_all-counts s closers [] h = (ground arith, ground arith, ground arith)
  listen_all-counts s closers (i ∷ rest) {s'} {out} h =
      let (address, opened, more) = listen_all-cons s closers i rest h in
      ground (
        arith,
        listen_all-counts (set_inbound_address s i.name address)
            (closers ++ (Closer.inbound i.name ∷ [])) rest {s' = s'} {out = out} more,
        set_inbound_address-counts s i.name address,
        length-append closers (Closer.inbound i.name ∷ []),
      )
