-- ===== src/Service/Run/Ready.antt =====
-- internal/node/service.go: a node is ready when every inbound listens.
use knode.Prelude.{ℕ, ◌≡◌, refl, ap, ◌∙◌, List, [], length, Error, ok, arith, ◌⊎◌, inl, inr}
use knode.Text.Lower.{UnicodeLaws}
use knode.Config.{Config}
use knode.Config.System.{System}
use knode.Config.Stable.{KboardIsSettled}
use knode.Config.Validate.{allow_dynamic_users}
use knode.Service.{Service, new_service, set_admin_address, handle_ready}
use knode.Service.New.{validate-IsChecked}
use knode.Service.Backends.{new_service-parts}
use knode.Service.Relays.{validate_inbounds-IsFresh}
use knode.Service.Run.{Listen, Closer, Listened, listen_all, start_admin, start}
use knode.Service.Run.Listeners.{
  HaveAddresses, HaveAddresses-same, listen_all-HaveAddresses, listen_all-counts,
}

pub Listened-cases :
    (l : Listened)
    → ((e : Error) × (cs : List Closer) × (l ≡ Listened.failed e cs))
      ⊎ ((s : Service) × (cs : List Closer) × (l ≡ Listened.listening s cs))
Listened-cases (Listened.failed e cs) = inl (e, cs, refl)
Listened-cases (Listened.listening s cs) = inr (s, cs, refl)

-- A new service has no listeners.
pub new_service-listeners :
    (sys : System) (now : ℕ) (raw : Config) {s : Service}
    → new_service sys now raw ≡ ok s
    → s.started_listeners ≡ 0
unfolding new_service
new_service-listeners sys now raw h = ground arith

module _ (listen : Listen) where
  -- The listener of the admin address changes nothing of the inbounds.
  start_admin-keeps :
      (s : Service) (closers : List Closer) {s' : Service} {out : List Closer}
      → start_admin listen s closers ≡ Listened.listening s' out
      → (s'.started_listeners ≡ s.started_listeners)
        × (s'.cfg ≡ s.cfg)
        × (s'.inbound_addrs ≡ s.inbound_addrs)
  unfolding start_admin set_admin_address
  start_admin-keeps s closers h = (ground arith, ground arith, ground arith)

  start-split :
      (s : Service) {s' : Service} {out : List Closer}
      → start listen s ≡ Listened.listening s' out
      → (s1 : Service) × (cs : List Closer) × (listen_all listen s [] s.cfg.inbounds
          ≡ Listened.listening s1 cs)
        × (start_admin listen s1 cs ≡ Listened.listening s' out)
  unfolding start
  start-split s {s'} {out} h = elim (Listened-cases (listen_all listen s [] s.cfg.inbounds)) [
    | inl (e, cs, failed) ↦
        let stopped : start listen s ≡ Listened.failed e cs = ground arith in cc (stopped, h)
    | inr (s1, cs, listening) ↦ (s1, cs, listening, ground arith)
  ]

  -- Once `Run` has opened the listeners of a service that `New` made from a configuration, the node is
  -- ready, and the address of every inbound is the one that its listener gave, where the lower case
  -- table of Unicode has its two properties and the Kboard URL has no white space in front of the
  -- slashes that end it.
  pub start-ready :
      (sys : System) (laws : UnicodeLaws sys.unicode) (now : ℕ) (raw : Config) {s s' : Service}
      {closers : List Closer}
      → KboardIsSettled sys laws raw.kboard
      → new_service sys now raw ≡ ok s
      → start listen s ≡ Listened.listening s' closers
      → (handle_ready s' ≡ 200) × HaveAddresses listen s' [] s.cfg.inbounds
  unfolding handle_ready
  start-ready sys laws now raw {s} {s'} {closers} settled h up =
      let (valid, dialers, relays) = new_service-parts sys now raw h in
      let v = validate-IsChecked sys laws raw settled valid in
      let fresh =
        validate_inbounds-IsFresh sys v.names (allow_dynamic_users sys s.cfg.kboard) 0 []
          s.cfg.inbounds v.inbounds in
      let (s1, cs, listened, admin) = start-split s up in
      let (count, cfg, addresses) = start_admin-keeps s1 cs admin in
      let (count1, cfg1, closed) = listen_all-counts listen s [] s.cfg.inbounds listened in
      let none_before : s.started_listeners ≡ 0 = new_service-listeners sys now raw h in
      let ready : s'.started_listeners ≡ length s'.cfg.inbounds =
        (let same : length s'.cfg.inbounds ≡ length s.cfg.inbounds =
            ap (λ (c : Config). length c.inbounds) (cfg ∙ cfg1) in
          omega arith) in
      (
        ground (arith, ready),
        HaveAddresses-same listen s1 s' [] s.cfg.inbounds addresses
            (listen_all-HaveAddresses listen s [] s.cfg.inbounds fresh listened),
      )
