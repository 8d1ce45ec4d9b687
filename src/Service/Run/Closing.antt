-- ===== src/Service/Run/Closing.antt =====
-- internal/node/service.go: what `Run` closes, and when it returns an error.
use mathlib.Core.Path.{subst, ap₂}
use knode.Prelude.{
  ℕ, ◌≡◌, ◌↔◌, refl, ap, sym, ◌∙◌, Bool, true, false, ◌&&◌, Option, none, List, [], ◌∷◌, ◌++◌,
  is_ok, arith, append_assoc, append-nil, if◌then◌else◌, Result-cases, Bool-cases, inl, inr,
}
use knode.Text.{str_eq}
use knode.Config.{InboundConfig, Config}
use knode.Config.System.{System}
use knode.Service.{Service, set_inbound_address}
use knode.Service.Run.{
  Listen, Closer, Listened, listen_all, start_admin, start, Stop, run_error, run_service,
}
use knode.Service.Run.Ready.{Listened-cases}

-- The end of the context, which is no error of the service.
abbrev pub ends_by_context : Stop → Bool
ends_by_context Stop.cancelled = true
ends_by_context Stop.deadline_exceeded = true
ends_by_context (Stop.broken e) = false

run_error_iff :
    (stop : Stop) (up : Bool)
    → up ≡ true
    → (run_error stop ≡ none) ↔ ((up && ends_by_context stop) ≡ true)
unfolding run_error
run_error_iff Stop.cancelled up h = (λ e. ground arith, λ e. refl)
run_error_iff Stop.deadline_exceeded up h = (λ e. ground arith, λ e. refl)
run_error_iff (Stop.broken e) up h = (λ e. cc, λ e. ground arith)

module _ (listen : Listen) where
  -- The inbounds in front of the first that cannot listen, behind the open ones.
  abbrev pub opened_inbounds : List Closer → List InboundConfig → List Closer
  opened_inbounds cs [] = []
  opened_inbounds cs (i ∷ is) =
      if is_ok (listen cs i.listen)
      then Closer.inbound i.name ∷ opened_inbounds (cs ++ (Closer.inbound i.name ∷ [])) is
      else []

  abbrev pub all_listen : List Closer → List InboundConfig → Bool
  all_listen cs [] = true
  all_listen cs (i ∷ is) =
      is_ok (listen cs i.listen) && all_listen (cs ++ (Closer.inbound i.name ∷ [])) is

  -- The admin address is not set, or can be listened on behind the open listeners.
  abbrev admin_opens : List Closer → Config → Bool
  admin_opens cs c = if str_eq c.admin.address [] then true else is_ok (listen cs c.admin.address)

  abbrev admin_closers : List Closer → Config → List Closer
  admin_closers cs c =
      if str_eq c.admin.address []
      then []
      else if is_ok (listen cs c.admin.address)
      then Closer.admin ∷ []
      else []

  -- All listeners open.
  abbrev pub all_open : Config → Bool
  all_open c = all_listen [] c.inbounds && admin_opens (opened_inbounds [] c.inbounds) c

  -- All listeners that a start of the configuration opens.
  abbrev pub opened : Config → List Closer
  opened c =
      opened_inbounds [] c.inbounds
      ++ (if all_listen [] c.inbounds then admin_closers (opened_inbounds [] c.inbounds) c else [])

  abbrev closers_of : Listened → List Closer
  closers_of (Listened.listening s cs) = cs
  closers_of (Listened.failed e cs) = cs

  abbrev is_listening : Listened → Bool
  is_listening (Listened.listening s cs) = true
  is_listening (Listened.failed e cs) = false

  abbrev KeepsConfig : Config → Listened → Type 0
  KeepsConfig c (Listened.listening s cs) = s.cfg ≡ c
  KeepsConfig c (Listened.failed e cs) = Unit

  listen_all-opened :
      (s : Service) (cs : List Closer) (is : List InboundConfig)
      → (closers_of (listen_all listen s cs is) ≡ cs ++ opened_inbounds cs is)
        × (is_listening (listen_all listen s cs is) ≡ all_listen cs is)
        × KeepsConfig s.cfg (listen_all listen s cs is)
  unfolding listen_all set_inbound_address
  listen_all-opened s cs [] = (sym (append-nil cs), refl, refl)
  listen_all-opened s cs (i ∷ is) = elim (Result-cases (listen cs i.listen)) [
    | inl (e, failed) ↦ rw (failed, listen_all) (sym (append-nil cs), refl, tt)
    | inr (address, up) ↦
        let (closers, listening, keeps) =
          listen_all-opened (set_inbound_address s i.name address)
            (cs ++ (Closer.inbound i.name ∷ [])) is in
        rw (up, listen_all)
          (
            closers
                ∙ append_assoc cs (Closer.inbound i.name ∷ [])
                    (opened_inbounds (cs ++ (Closer.inbound i.name ∷ [])) is),
            listening,
            keeps,
          )
  ]

  start_admin-opened :
      (s : Service) (cs : List Closer)
      → (closers_of (start_admin listen s cs) ≡ cs ++ admin_closers cs s.cfg)
        × (is_listening (start_admin listen s cs) ≡ admin_opens cs s.cfg)
  unfolding start_admin
  start_admin-opened s cs = elim (Bool-cases (str_eq s.cfg.admin.address [])) [
    | inl unset ↦ rw (unset, start_admin) (sym (append-nil cs), refl)
    | inr set ↦ elim (Result-cases (listen cs s.cfg.admin.address)) [
      | inl (e, failed) ↦ rw (set, failed, start_admin) (sym (append-nil cs), refl)
      | inr (address, up) ↦ rw (set, up, start_admin) (refl, refl)
    ]
  ]

  start-opened :
      (s : Service)
      → (closers_of (start listen s) ≡ opened s.cfg)
        × (is_listening (start listen s) ≡ all_open s.cfg)
  unfolding start
  start-opened s =
      let (closers, listening, keeps) = listen_all-opened s [] s.cfg.inbounds in
      elim (Listened-cases (listen_all listen s [] s.cfg.inbounds)) [
        | inl (e, cs, failed) ↦
            let down : all_listen [] s.cfg.inbounds ≡ false =
              sym listening ∙ ap is_listening failed in
            rw (failed, start)
              (rw down (
                ap closers_of (sym failed)
                    ∙ closers
                    ∙ sym (append-nil (opened_inbounds [] s.cfg.inbounds)),
                refl,
              ))
        | inr (s', cs, up) ↦
            let all_up : all_listen [] s.cfg.inbounds ≡ true = sym listening ∙ ap is_listening up in
            let same : s'.cfg ≡ s.cfg = subst (KeepsConfig s.cfg) up keeps in
            let front : cs ≡ opened_inbounds [] s.cfg.inbounds = ap closers_of (sym up) ∙ closers in
            let (closed, listens) = start_admin-opened s' cs in
            rw (up, start)
              (rw all_up (
                closed ∙ ap₂ ◌++◌ front (ap₂ admin_closers front same),
                listens ∙ ap₂ admin_opens front same,
              ))
      ]

  -- `Run` closes the listeners that it opened, each of them and in the order of the configuration, on
  -- every path: those of the inbounds in front of the first that cannot listen, and that of the admin
  -- address when all inbounds listen. It returns no error exactly when all of the listeners could be
  -- opened and the end of its context ended it.
  pub run_service-closes :
      (sys : System) (stop : Stop) (finish : Option ℕ) (s : Service)
      → let out = run_service sys listen stop finish s in
        (out.closed ≡ opened s.cfg)
        × ((out.error ≡ none) ↔ ((all_open s.cfg && ends_by_context stop) ≡ true))
  unfolding run_service run_error
  run_service-closes sys stop finish s =
      let (closed, listening) = start-opened s in
      elim (Listened-cases (start listen s)) [
        | inl (e, cs, failed) ↦
            let down = sym listening ∙ ap is_listening failed in
            rw (failed, run_service)
              (ap closers_of (sym failed) ∙ closed, (λ h. cc, λ h. ground arith))
        | inr (s', cs, up) ↦
            let all_up = sym listening ∙ ap is_listening up in
            rw (up, run_service)
              (ap closers_of (sym up) ∙ closed, run_error_iff stop (all_open s.cfg) all_up)
      ]
