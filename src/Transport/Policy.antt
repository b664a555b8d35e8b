-- ===== src/Transport/Policy.antt =====
-- `normalize_server_url`, `FederationPolicy` and `validate_https_url` of endpoint/transport.py.
use endpoint_protocol.Prelude.{
  ℕ, String, ◌<>◌, Bool, true, false, not, ◌&&◌, ◌||◌, Option, none, some, List, [], ◌∷◌, eqb, ◌==◌,
  if◌then◌else◌, some_char, starts_with,
}
use endpoint_protocol.Json.{Json, str, is_falsy}
use endpoint_protocol.Errors.{
  Result, ok, err, raise, raised, crash, require, plain_error, detail_error, ◌>>=◌, ◌>>◌,
}
use endpoint_protocol.Runtime.{Runtime, Address, unresolved, resolved}
use endpoint_protocol.Protocol.Canonical.{decimal}
use endpoint_protocol.Transport.Url.{urlparse, hostname, port_number, has_userinfo}

pub record FederationPolicy : Type 0 where
  pub public_federation : Bool
  pub inbound_whitelist : List String
  pub outbound_whitelist : List String
  pub allow_private_networks : Bool
  pub allowed_ports : List ℕ
  pub mode : String

pub data Direction : Type 0 where
  inbound outbound : Direction

-- Membership in a set of texts, and in a set of numbers.
unfoldable pub contains : String → List String → Bool
contains s [] = false
contains s (t ∷ ts) = if t == s then true else contains s ts

unfoldable pub contains_number : ℕ → List ℕ → Bool
contains_number n [] = false
contains_number n (m ∷ ms) = if eqb m n then true else contains_number n ms

abbrev pub is_empty {ℓ} : {A : Type ℓ} → List A → Bool
is_empty [] = true
is_empty (x ∷ xs) = false

-- The two returns of `normalize_server_url`.
unfoldable pub server_url : String → Option ℕ → String
unfolding decimal
server_url host none = "https://" <> host
server_url host (some port) = "https://" <> host <> ":" <> decimal port

-- A host with colons stands in brackets.
unfoldable pub bracket : String → String
unfolding some_char
bracket host =
    if some_char (λ c. eqb c b':') host && not (starts_with host "[")
    then "[" <> host <> "]"
    else host

-- `except ValueError` around `parsed.port`
abbrev catch_port : Result (Option ℕ) → Result (Option ℕ)
catch_port (ok port) = ok port
catch_port (err (raised e)) = err (raised e)
catch_port (err (crash what)) =
    raise (detail_error "url_policy_denied" "server URL port is invalid" (some what))

module _ (rt : Runtime) where
  unfoldable pub normalize_server_url : String → Result String
  unfolding urlparse hostname port_number has_userinfo bracket server_url
  normalize_server_url url = do
    parsed ← urlparse rt url
    require parsed.https "url_policy_denied" "server URLs must use https"
    require (not (hostname rt parsed == "")) "url_policy_denied" "server URL host is required"
    require (not (has_userinfo parsed.netloc)) "url_policy_denied" "URL credentials are not allowed"
    require (parsed.path == "" || parsed.path == "/") "url_policy_denied"
        "server URL paths are not allowed"
    require (parsed.params == "") "url_policy_denied" "URL params are not allowed"
    require (parsed.query == "") "url_policy_denied" "URL query strings are not allowed"
    require (parsed.fragment == "") "url_policy_denied" "URL fragments are not allowed"
    port ← catch_port (port_number parsed)
    ok (server_url (bracket (rt.lower (hostname rt parsed))) port)

  -- The same for a value of unknown type: `urlparse` decodes what is no text, which is an error
  -- of Python unless the value is falsy; then the scheme is empty.
  unfoldable pub normalize_json_url : Json → Result String
  unfolding normalize_server_url
  normalize_json_url (str s) = normalize_server_url s
  normalize_json_url v =
      if is_falsy v
      then raise (plain_error "url_policy_denied" "server URLs must use https")
      else err (crash "AttributeError")

abbrev pub private_or_local : Address → Bool
private_or_local a =
    a.is_private
    || (a.is_loopback
        || (a.is_link_local || (a.is_multicast || (a.is_reserved || a.is_unspecified))))

-- The loop over the addresses of the host.
unfoldable pub check_addresses : List Address → Result (Unit {0})
check_addresses [] = ok tt
check_addresses (a ∷ rest) = do
  require (not (private_or_local a)) "url_policy_denied"
      "private/local/internal federation addresses are disabled"
  check_addresses rest

-- `parsed.port or 443`: 0 counts as no port.
abbrev pub port_or_default : Option ℕ → ℕ
port_or_default none = 443
port_or_default (some port) = if eqb port 0 then 443 else port

-- The two lists of permitted servers. An empty list permits all.
unfoldable pub check_whitelists : FederationPolicy → Direction → String → Result (Unit {0})
unfolding contains
check_whitelists policy outbound normalized =
    require (is_empty policy.outbound_whitelist || contains normalized policy.outbound_whitelist)
      "unknown_destination_server" "server is not in outbound Whitelist"
check_whitelists policy inbound normalized =
    require (is_empty policy.inbound_whitelist || contains normalized policy.inbound_whitelist)
      "forbidden_peer" "server is not in inbound Whitelist"

module _ (rt : Runtime) where
  unfoldable pub host_addresses : String → Result (List Address)
  host_addresses host = elim (rt.getaddrinfo host) [
    | unresolved what ↦
        raise
          (detail_error "url_policy_denied" "destination host could not be resolved" (some what))
    | resolved addresses ↦ ok addresses
  ]

  unfoldable pub check_network : FederationPolicy → String → Result (Unit {0})
  unfolding host_addresses check_addresses
  check_network policy host =
      if policy.allow_private_networks
      then ok tt
      else do addresses ← host_addresses host; check_addresses addresses

  -- `validate_https_url` behind the normal form.
  unfoldable pub check_policy : String → FederationPolicy → Direction → Result String
  unfolding urlparse hostname port_number contains_number check_whitelists check_network
  check_policy normalized policy direction = do
    parsed ← urlparse rt normalized
    port ← port_number parsed
    require (contains_number (port_or_default port) policy.allowed_ports) "url_policy_denied"
        "server URL port is not permitted"
    check_whitelists policy direction normalized
    check_network policy (hostname rt parsed)
    ok normalized

  unfoldable pub validate_https_url : Json → FederationPolicy → Direction → Result String
  unfolding normalize_json_url check_policy
  validate_https_url url policy direction = do
    normalized ← normalize_json_url rt url
    check_policy normalized policy direction
