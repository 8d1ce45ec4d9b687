-- ===== src/Config/Fixed.antt =====
-- internal/config/config.go: `applyDefaults` applied to its own result.
use knode.Prelude.{◌⊎◌, ◌≡◌, refl, ap, ◌∙◌, [], ◌∷◌, arith, inl, inr, sym}
use knode.Text.{
  lower_rune, Str, lit, str_eq, is_space, trim_space, trim_left, trim_right, has_prefix, to_lower,
}
use knode.Text.Trim.{trim_space_idem, trim_right_idem}
use knode.Text.Lower.{UnicodeLaws, to_lower_idem, trim_space-to_lower}
use knode.Config.{KboardConfig, UpstreamConfig, ServerKlessConfig, InboundConfig}
use knode.Config.System.{System}
use knode.Config.Defaults.{
  complete_endpoint, mode_by_name, if_empty, normalize_endpoint, trim_slashes, kboard_defaults,
  upstream_defaults, server_kless_defaults, normalize_inbound_mode, trim_inbound,
}

pub if_empty_idem : (s d : Str) → if_empty (if_empty s d) d ≡ if_empty s d
unfolding if_empty
if_empty_idem s d = ground arith

-- A trimmed text keeps its end under a slash in front.
slash-trim_space : (e : Str) → trim_space e ≡ e → trim_space (b'/' ∷ e) ≡ b'/' ∷ e
unfolding trim_space trim_left trim_right is_space
slash-trim_space e h =
    let t = trim_left is_space e in
    ap (λ x. b'/' ∷ x) (ap (trim_right is_space) (sym h) ∙ (trim_right_idem is_space t ∙ h))

trim_nil : trim_space [] ≡ []
unfolding trim_space trim_left trim_right
trim_nil = refl

complete_endpoint-trim_space :
    (e : Str) → trim_space e ≡ e → trim_space (complete_endpoint e) ≡ complete_endpoint e
unfolding complete_endpoint
complete_endpoint-trim_space e h = ground (arith, slash-trim_space e h, trim_nil)

complete_endpoint_idem : (e : Str) → complete_endpoint (complete_endpoint e) ≡ complete_endpoint e
unfolding complete_endpoint str_eq has_prefix
complete_endpoint_idem [] = refl
complete_endpoint_idem (c ∷ e) = ground arith

normalize_endpoint_idem :
    (s : Str) → normalize_endpoint (normalize_endpoint s) ≡ normalize_endpoint s
unfolding normalize_endpoint
normalize_endpoint_idem s =
    ap complete_endpoint (complete_endpoint-trim_space (trim_space s) (trim_space_idem s))
    ∙ complete_endpoint_idem (trim_space s)

-- No white space is uncovered when the slashes at the end of the URL are cut.
abbrev pub IsSettled : KboardConfig → Type 0
IsSettled k =
    trim_space (trim_slashes (trim_space k.public_url)) ≡ trim_slashes (trim_space k.public_url)

pub kboard_defaults_idem :
    (k : KboardConfig) → IsSettled k → kboard_defaults (kboard_defaults k) ≡ kboard_defaults k
unfolding kboard_defaults
kboard_defaults_idem k h =
    rw (h, trim_right_idem) (simp (trim_space_idem, normalize_endpoint_idem, if_empty_idem))

mode_tcp : mode_by_name (lit "tcp") ≡ lit "tcp"
unfolding mode_by_name str_eq
mode_tcp = refl

mode_server : mode_by_name (lit "kless-server") ≡ lit "kless-server"
unfolding mode_by_name str_eq
mode_server = refl

mode_by_name_cases :
    (m : Str)
    → (mode_by_name m ≡ lit "tcp") ⊎ (mode_by_name m ≡ lit "kless-server") ⊎ (mode_by_name m ≡ m)
unfolding mode_by_name
mode_by_name_cases m = ground arith

mode_by_name_idem : (m : Str) → mode_by_name (mode_by_name m) ≡ mode_by_name m
mode_by_name_idem m = elim (mode_by_name_cases m) [
  | inl tcp ↦ rw tcp mode_tcp
  | inr (inl server) ↦ rw server mode_server
  | inr (inr same) ↦ ap mode_by_name same
]

module _ (sys : System) (laws : UnicodeLaws sys.unicode) where
  lower_trim_idem :
      (s : Str)
      → to_lower sys.unicode (trim_space (to_lower sys.unicode (trim_space s)))
        ≡ to_lower sys.unicode (trim_space s)
  lower_trim_idem s =
      rw (trim_space-to_lower laws (trim_space s), trim_space_idem s)
        (to_lower_idem laws (trim_space s))

  -- Filling in the defaults of an upstream twice is the same as doing it once, if the table of lower
  -- case letters has its two properties.
  pub upstream_defaults_idem :
      (u : UpstreamConfig)
      → upstream_defaults sys (upstream_defaults sys u) ≡ upstream_defaults sys u
  unfolding upstream_defaults
  upstream_defaults_idem u = simp (trim_space_idem, lower_trim_idem, if_empty_idem)

  pub server_kless_defaults_idem :
      (k : ServerKlessConfig)
      → server_kless_defaults sys (server_kless_defaults sys k) ≡ server_kless_defaults sys k
  unfolding server_kless_defaults
  server_kless_defaults_idem k = simp (trim_space_idem, if_empty_idem)

  lower_tcp : to_lower sys.unicode (trim_space (lit "tcp")) ≡ lit "tcp"
  unfolding to_lower trim_space trim_left trim_right is_space lower_rune
  lower_tcp = refl

  lower_server : to_lower sys.unicode (trim_space (lit "kless-server")) ≡ lit "kless-server"
  unfolding to_lower trim_space trim_left trim_right is_space lower_rune
  lower_server = refl

  mode_by_name-lower :
      (m : Str)
      → to_lower sys.unicode (trim_space m) ≡ m
      → to_lower sys.unicode (trim_space (mode_by_name m)) ≡ mode_by_name m
  unfolding mode_by_name
  mode_by_name-lower m h = ground (arith, lower_tcp, lower_server)

  pub normalize_inbound_mode_idem :
      (s : Str)
      → normalize_inbound_mode sys (normalize_inbound_mode sys s) ≡ normalize_inbound_mode sys s
  unfolding normalize_inbound_mode
  normalize_inbound_mode_idem s =
      ap mode_by_name (mode_by_name-lower (to_lower sys.unicode (trim_space s)) (lower_trim_idem s))
      ∙ mode_by_name_idem (to_lower sys.unicode (trim_space s))

  pub trim_inbound_idem :
      (i : InboundConfig) → trim_inbound sys (trim_inbound sys i) ≡ trim_inbound sys i
  unfolding trim_inbound
  trim_inbound_idem i = simp (trim_space_idem, normalize_inbound_mode_idem)
