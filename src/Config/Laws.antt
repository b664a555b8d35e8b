-- ===== src/Config/Laws.antt =====
-- What a server configuration that loads satisfies.
use endpoint_protocol.Prelude.{
  ℕ, ◌≤◌, String, ◌≡◌, true, false, not, List, [], ◌∷◌, if◌then◌else◌, arith, Bool-cases, inl, inr,
}
use endpoint_protocol.Json.{Json, Items, nil, cons, get, items, is_obj, is_arr, is_the_text}
use endpoint_protocol.Errors.{ok, err≢ok, rethrow}
use endpoint_protocol.Errors.Laws.{bind-inv, then-inv, ok-inj}
use endpoint_protocol.Runtime.{Runtime}
use endpoint_protocol.Protocol.Canonical.{parse_json_strict}
use endpoint_protocol.Protocol.Limits.{protocol_version}
use endpoint_protocol.Transport.Policy.{FederationPolicy, contains, contains_number, is_empty}
use endpoint_protocol.Server.State.{ServerConfig}
use endpoint_protocol.Config.{
  server_config_keys, federation_policy_keys, federation_modes, validate_exact_keys, require_string,
  require_bool, require_optional_bool_or_string, require_identity_map, require_token_hash_map,
  require_string_set, config_url, require_int_range, port_items, require_port_set,
  load_federation_policy, read_server_config, FileText, unreadable, contents, load_server_config,
}

-- Every port is one of TCP.
abbrev pub ArePorts : List ℕ → Type 0
ArePorts [] = Unit {0}
ArePorts (n ∷ ns) = (1 ≤ n) × (n ≤ 65535) × ArePorts ns

pub record IsPolicy (p : FederationPolicy) : Type 0 where
  pub ports : ArePorts p.allowed_ports
  pub some_port : is_empty p.allowed_ports ≡ false
  pub known_mode : contains p.mode federation_modes ≡ true

pub record IsConfig (c : ServerConfig) : Type 0 where
  pub lease_min : 1 ≤ c.lease_seconds
  pub lease_max : c.lease_seconds ≤ 3600
  pub known_policy : contains c.rejected_policy ("drop" ∷ "quarantine" ∷ []) ≡ true
  pub policy : IsPolicy c.federation_policy

range-inv :
    (v : Json) (name : String) (minimum maximum : ℕ) {n : ℕ}
    → require_int_range v name minimum maximum ≡ ok n
    → (minimum ≤ n) × (n ≤ maximum)
unfolding require_int_range
range-inv v name minimum maximum {n} h = ground arith

ports-inv : (vs : Items) {ns : List ℕ} → port_items vs ≡ ok ns → ArePorts ns
unfolding port_items
ports-inv nil {ns} h = rw (← ok-inj h) tt
ports-inv (cons v vs) {ns} h =
    let (n, in_range, h1) = bind-inv (require_int_range v "allowed_ports" 1 65535) _ h in
    let (rest, others, h2) = bind-inv (port_items vs) _ h1 in
    let (low, high) = range-inv v "allowed_ports" 1 65535 in_range in
    rw (← ok-inj h2) (kept n rest low high (ports-inv vs others))
  where
    kept :
        (n : ℕ) (rest : List ℕ)
        → 1 ≤ n
        → n ≤ 65535
        → ArePorts rest
        → ArePorts (if contains_number n rest then rest else n ∷ rest)
    kept n rest low high others = elim (Bool-cases (contains_number n rest)) [
      | inl old ↦ rw old others
      | inr fresh ↦ rw fresh (low, high, others)
    ]

port_set-inv :
    (v : Json) {ns : List ℕ} → require_port_set v ≡ ok ns → ArePorts ns × (is_empty ns ≡ false)
unfolding require_port_set
port_set-inv v {ns} h =
    let (is_list, h1) = then-inv (is_arr v) _ _ h in
    let (ports, found, h2) = bind-inv (port_items (items v)) _ h1 in
    let (filled, h3) = then-inv (not (is_empty ports)) _ _ h2 in
    let e : ports ≡ ns = ok-inj h3 in rw (← e) (ports-inv (items v) found, ground (arith, filled))

policy-inv :
    (rt : Runtime) (v : Json) {p : FederationPolicy}
    → load_federation_policy rt v ≡ ok p
    → IsPolicy p
unfolding load_federation_policy
policy-inv rt v {p} h =
    let (_, h1) = then-inv (is_obj v) _ _ h in
    let (_, _, h2) =
      bind-inv (validate_exact_keys v federation_policy_keys "federation_policy") _ h1 in
    let (public_federation, _, h3) =
      bind-inv (require_bool (get v "public_federation") "public_federation") _ h2 in
    let (inbound, _, h4) =
      bind-inv (require_string_set rt (get v "inbound_whitelist") "inbound_whitelist") _ h3 in
    let (outbound, _, h5) =
      bind-inv (require_string_set rt (get v "outbound_whitelist") "outbound_whitelist") _ h4 in
    let (private, _, h6) =
      bind-inv (require_bool (get v "allow_private_networks") "allow_private_networks") _ h5 in
    let (ports, is_ports, h7) = bind-inv (require_port_set (get v "allowed_ports")) _ h6 in
    let (mode, _, h8) = bind-inv (require_string (get v "mode") "mode") _ h7 in
    let (known, h9) = then-inv (contains mode federation_modes) _ _ h8 in
    let (in_range, filled) = port_set-inv (get v "allowed_ports") is_ports in
    rw (← ok-inj h9) (record { ports = in_range; some_port = filled; known_mode = known })

IsConfig-inv :
    (rt : Runtime) (v : Json) {c : ServerConfig} → read_server_config rt v ≡ ok c → IsConfig c
unfolding read_server_config
IsConfig-inv rt v {c} h =
    let (_, h1) = then-inv (is_obj v) _ _ h in
    let (_, _, h2) = bind-inv (validate_exact_keys v server_config_keys "server config") _ h1 in
    let (_, h3) = then-inv (is_the_text (get v "protocol_version") protocol_version) _ _ h2 in
    let (given, _, h4) = bind-inv (require_string (get v "server_url") "server_url") _ h3 in
    let (url, _, h5) = bind-inv (config_url rt given "server_url is invalid") _ h4 in
    let (dir, _, h6) = bind-inv (require_string (get v "state_dir") "state_dir") _ h5 in
    let (hosted, _, h7) = bind-inv (require_identity_map (get v "hosted_identities")) _ h6 in
    let (hashes, _, h8) = bind-inv (require_token_hash_map rt (get v "client_token_hashes")) _ h7 in
    let (bundle, _, h9) =
      bind-inv (require_optional_bool_or_string (get v "ca_bundle") "ca_bundle") _ h8 in
    let (policy, is_policy, h10) =
      bind-inv (load_federation_policy rt (get v "federation_policy")) _ h9 in
    let (lease, in_range, h11) =
      bind-inv (require_int_range (get v "lease_seconds") "lease_seconds" 1 3600) _ h10 in
    let (rejected, _, h12) =
      bind-inv (require_string (get v "rejected_policy") "rejected_policy") _ h11 in
    let (known, h13) = then-inv (contains rejected ("drop" ∷ "quarantine" ∷ [])) _ _ h12 in
    let (debug, _, h14) = bind-inv (require_bool (get v "debug_errors") "debug_errors") _ h13 in
    let (verifies, _, h15) =
      bind-inv
        (require_bool (get v "verify_hosted_identity_signatures")
          "verify_hosted_identity_signatures")
        _ h14 in
    let (low, high) = range-inv (get v "lease_seconds") "lease_seconds" 1 3600 in_range in
    rw (← ok-inj h15) (record {
      lease_min = low;
      lease_max = high;
      known_policy = known;
      policy = policy-inv rt (get v "federation_policy") is_policy;
    })

-- A configuration that loads has a lease of 1 to 3600 seconds, a known policy for rejected messages,
-- a known mode, and at least one port, each of them a port of TCP.
pub load_server_config-IsConfig :
    (rt : Runtime) (file : FileText) (c : ServerConfig)
    → load_server_config rt file ≡ ok c
    → IsConfig c
unfolding load_server_config
load_server_config-IsConfig rt (unreadable what) c h = absurd (err≢ok h)
load_server_config-IsConfig rt (contents raw) c h =
    let (v, _, h1) = bind-inv (rethrow _ (parse_json_strict rt raw)) _ h in IsConfig-inv rt v h1
