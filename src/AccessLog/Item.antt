-- ===== src/AccessLog/Item.antt =====
-- internal/node/access_log.go: `accessLogItem` and what it calls. `RelayTarget` is kray's
-- `relay.Address`, of which the code uses the two fields.
use knode.Prelude.{
  ℕ, Bool, Option, none, some, [], ◌∷◌, ◌++◌, ◌||◌, ◌==◌, if◌then◌else◌, ℤ, is_positive,
}
use knode.Text.{Str, lit, str_eq, trim_space, to_lower, Unicode}
use knode.Decimal.{decimal}

pub record RelayTarget : Type 0 where
  pub host : Str
  pub port : ℕ

pub record AccessLogItem : Type 0 where
  pub user_id : Option ℤ
  pub client_id : Str
  pub kless_client_id : Str
  pub domain : Str
  pub host : Str
  pub uri : Str
  pub protocol : Str
  pub remote_addr : Str
  pub accessed_at : ℤ

abbrev contains : ℕ → Str → Bool
contains c [] = Bool.false
contains c (d ∷ s) = d == c || contains c s

-- `net.JoinHostPort`: a host with a colon, an IPv6 literal, goes into brackets.
unfoldable pub join_host_port : Str → Str → Str
join_host_port host port =
    if contains b':' host
    then lit "[" ++ (host ++ (lit "]:" ++ port))
    else host ++ (lit ":" ++ port)

-- `strings.EqualFold`, for a right side of lower case ASCII letters without `k` and `s`: no character
-- outside ASCII folds to the other letters, so only the ASCII case counts.
unfoldable pub equal_fold : Str → Str → Bool
equal_fold s t = str_eq (to_lower (record { to_lower = λ c. c }) s) t

unfoldable pub protocol_for_target : Str → ℕ → Str
protocol_for_target network port =
    if equal_fold (trim_space network) (lit "udp")
    then lit "udp"
    else if port == 80
    then lit "http"
    else if port == 443
    then lit "https"
    else lit "tcp"

unfoldable pub target_uri : Str → RelayTarget → Str
unfolding join_host_port
target_uri protocol target =
    let host_port = join_host_port (trim_space target.host) (decimal target.port) in
    let scheme = if str_eq protocol [] then lit "tcp" else protocol in
    scheme ++ (lit "://" ++ host_port)

unfoldable pub access_log_item : Unicode → Str → ℤ → RelayTarget → Str → Str → ℤ → AccessLogItem
unfolding protocol_for_target target_uri
access_log_item u client_id user_id target network remote_addr now =
    let host = trim_space target.host in
    let protocol = protocol_for_target network target.port in
    record {
      user_id = if is_positive user_id then some user_id else none;
      client_id = trim_space client_id;
      kless_client_id = trim_space client_id;
      domain = to_lower u host;
      host = to_lower u host;
      uri = target_uri protocol target;
      protocol = protocol;
      remote_addr = trim_space remote_addr;
      accessed_at = now;
    }
