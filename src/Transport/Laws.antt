-- ===== src/Transport/Laws.antt =====
-- What the federation policy lets through.
use endpoint_protocol.Prelude.{
  ℕ, String, ◌≡◌, ◌⊎◌, inl, inr, true, false, not, ◌||◌, Option, List, [], ◌∷◌, arith, Bool-cases,
}
use endpoint_protocol.Json.{Json}
use endpoint_protocol.Errors.{ok, ◌>>=◌}
use endpoint_protocol.Errors.Laws.{bind-inv, then-inv}
use endpoint_protocol.Runtime.{Runtime, Address, resolved}
use endpoint_protocol.Transport.Url.{ParsedUrl, urlparse, hostname, port_number}
use endpoint_protocol.Transport.Policy.{
  FederationPolicy, Direction, inbound, outbound, contains, contains_number, is_empty,
  normalize_json_url, private_or_local, check_addresses, port_or_default, check_whitelists,
  host_addresses, check_network, check_policy, validate_https_url,
}

abbrev pub whitelist : FederationPolicy → Direction → List String
whitelist policy inbound = policy.inbound_whitelist
whitelist policy outbound = policy.outbound_whitelist

-- No address of the list is private or local.
abbrev pub ArePublic : List Address → Type 0
ArePublic [] = Unit {0}
ArePublic (a ∷ rest) = (private_or_local a ≡ false) × ArePublic rest

module _ (rt : Runtime) (policy : FederationPolicy) (direction : Direction) where
  -- What a permitted server URL satisfies.
  pub record IsPermitted (url : String) : Type 0 where
    pub parsed : ParsedUrl
    pub port : Option ℕ
    pub is_parsed : urlparse rt url ≡ ok parsed
    pub is_port : port_number parsed ≡ ok port
    pub is_allowed_port : contains_number (port_or_default port) policy.allowed_ports ≡ true
    pub is_listed :
        (is_empty (whitelist policy direction) || contains url (whitelist policy direction)) ≡ true
    pub is_public :
        (policy.allow_private_networks ≡ true)
        ⊎ ((addresses : List Address) × (rt.getaddrinfo (hostname rt parsed) ≡ resolved addresses)
            × ArePublic addresses)

  addresses-inv :
      (addresses : List Address) → check_addresses addresses ≡ ok tt → ArePublic addresses
  unfolding check_addresses
  addresses-inv [] h = tt
  addresses-inv (a ∷ rest) h =
      let (outside, others) = then-inv (not (private_or_local a)) _ _ h in
      (ground (arith, outside), addresses-inv rest others)

  resolved-inv :
      (host : String) (addresses : List Address)
      → host_addresses rt host ≡ ok addresses
      → rt.getaddrinfo host ≡ resolved addresses
  unfolding host_addresses
  resolved-inv host addresses e = ground arith

  network-inv :
      (host : String)
      → check_network rt policy host ≡ ok tt
      → (policy.allow_private_networks ≡ true)
        ⊎ ((addresses : List Address) × (rt.getaddrinfo host ≡ resolved addresses)
            × ArePublic addresses)
  unfolding check_network
  network-inv host h = elim (Bool-cases policy.allow_private_networks) [
    | inl any ↦ inl any
    | inr few ↦
        let checked : (host_addresses rt host >>= λ a. check_addresses a) ≡ ok tt = rw few at h in
        let (addresses, found, public) = bind-inv (host_addresses rt host) _ checked in
        inr (addresses, resolved-inv host addresses found, addresses-inv addresses public)
  ]

  whitelist-inv :
      (direction' : Direction) (url : String)
      → check_whitelists policy direction' url ≡ ok tt
      → (is_empty (whitelist policy direction') || contains url (whitelist policy direction'))
        ≡ true
  unfolding check_whitelists
  whitelist-inv inbound url h = ground arith
  whitelist-inv outbound url h = ground arith

  policy-inv :
      (normalized url : String)
      → check_policy rt normalized policy direction ≡ ok url
      → (normalized ≡ url) × IsPermitted normalized
  unfolding check_policy
  policy-inv normalized url h =
      let (parsed, is_parsed, h1) = bind-inv (urlparse rt normalized) _ h in
      let (port, is_port, h2) = bind-inv (port_number parsed) _ h1 in
      let (is_allowed, h3) =
        then-inv (contains_number (port_or_default port) policy.allowed_ports) _ _ h2 in
      let (_, is_listed, h4) = bind-inv (check_whitelists policy direction normalized) _ h3 in
      let (_, is_public, h5) = bind-inv (check_network rt policy (hostname rt parsed)) _ h4 in
      (
        ground arith,
        record {
          parsed = parsed;
          port = port;
          is_parsed = is_parsed;
          is_port = is_port;
          is_allowed_port = is_allowed;
          is_listed = whitelist-inv direction normalized is_listed;
          is_public = network-inv (hostname rt parsed) is_public;
        },
      )

  -- A server URL that the policy lets through is the normal form of what was given; its port is
  -- among the allowed ones, where an absent port and an explicit port 0 both count as 443; it stands in
  -- the whitelist of the direction if there is one, and unless private networks are allowed its host
  -- resolves, to public addresses only.
  pub validate_https_url-IsPermitted :
      (given : Json) (url : String)
      → validate_https_url rt given policy direction ≡ ok url
      → (normalize_json_url rt given ≡ ok url) × IsPermitted url
  unfolding validate_https_url
  validate_https_url-IsPermitted given url h =
      let (normalized, is_normal, checked) = bind-inv (normalize_json_url rt given) _ h in
      let (e, permitted) = policy-inv normalized url checked in
      (rw (← e) is_normal, rw (← e) permitted)
