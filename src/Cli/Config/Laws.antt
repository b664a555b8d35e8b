-- ===== src/Cli/Config/Laws.antt =====
-- What `server init-config` of endpoint/cli.py writes, the server can load.
use mathlib.Core.Path.{subst}
use endpoint_protocol.Prelude.{
  ℕ, ◌≤◌, String, ◌≡◌, refl, sym, Bool, true, false, true≢false, ◌&&◌, leb, List, [], ◌∷◌, ◌==◌,
  eq_iff, if◌then◌else◌, arith, Bool-cases, inl, inr,
}
use endpoint_protocol.Json.{Json, int, pos, is_obj}
use endpoint_protocol.Errors.{ok}
use endpoint_protocol.Runtime.{Runtime}
use endpoint_protocol.Dict.{Dict}
use endpoint_protocol.Transport.Policy.{contains, contains_number, is_empty, normalize_server_url}
use endpoint_protocol.Server.State.{ServerConfig}
use endpoint_protocol.Config.{
  require_optional_bool_or_string, identity_items, token_items, port_items, require_int_range,
  config_url, read_server_config, load_federation_policy,
}
use endpoint_protocol.Cli.Arguments.Laws.{AllNamed}
use endpoint_protocol.Cli.Config.{
  fields_of, numbers, Setup, policy_document, server_config_document,
}

-- `set(…)` of a list.
unfoldable pub distinct : List ℕ → List ℕ
unfolding contains_number
distinct [] = []
distinct (n ∷ ns) = let rest = distinct ns in if contains_number n rest then rest else n ∷ rest

abbrev pub AllPorts : List ℕ → Type 0
AllPorts [] = Unit {0}
AllPorts (n ∷ ns) = (1 ≤ n) × (n ≤ 65535) × AllPorts ns

abbrev pub AllObjects : Dict Json → Type 0
AllObjects [] = Unit {0}
AllObjects ((k, v) ∷ d) = (is_obj v ≡ true) × AllObjects d

-- A configuration whose parts are in order.
pub record IsSetup (rt : Runtime) (s : Setup) : Type 0 where
  pub some_url : (s.server_url == "") ≡ false
  pub is_normal : normalize_server_url rt s.server_url ≡ ok s.server_url
  pub some_dir : (s.state_dir == "") ≡ false
  pub named : AllNamed s.hosted_identities
  pub objects : AllObjects s.hosted_identities
  pub verifiers : token_items rt (fields_of s.client_token_hashes) ≡ ok s.client_token_hashes
  pub bundle : require_optional_bool_or_string s.ca_bundle "ca_bundle" ≡ ok s.ca_bundle
  pub some_port : is_empty s.allowed_ports ≡ false
  pub ports : AllPorts s.allowed_ports
  pub known_policy : contains s.rejected_policy ("drop" ∷ "quarantine" ∷ []) ≡ true
  pub lease_min : 1 ≤ s.lease_seconds
  pub lease_max : s.lease_seconds ≤ 3600

-- The configuration that a server has behind the document of a setup.
unfoldable pub server_config : Setup → ServerConfig
unfolding distinct
server_config s = record {
  server_url = s.server_url;
  state_dir = s.state_dir;
  hosted_identities = s.hosted_identities;
  client_token_hashes = s.client_token_hashes;
  ca_bundle = s.ca_bundle;
  federation_policy = record {
    public_federation = true;
    inbound_whitelist = [];
    outbound_whitelist = [];
    allow_private_networks = s.allow_private_networks;
    allowed_ports = distinct s.allowed_ports;
    mode = if s.allow_private_networks then "internal" else "public";
  };
  lease_seconds = s.lease_seconds;
  rejected_policy = s.rejected_policy;
  debug_errors = false;
  verify_hosted_identity_signatures = true;
}

identity_items-fields_of :
    (d : Dict Json) → AllNamed d → AllObjects d → identity_items (fields_of d) ≡ ok d
unfolding identity_items
identity_items-fields_of [] named objects = refl
identity_items-fields_of ((k, v) ∷ d) (named, all_named) (object, objects) =
    rw (named, object, identity_items-fields_of d all_named objects) refl

require_int_range-numbers :
    (n : ℕ) (name : String) (minimum maximum : ℕ)
    → minimum ≤ n
    → n ≤ maximum
    → require_int_range (int (pos n)) name minimum maximum ≡ ok n
unfolding require_int_range
require_int_range-numbers n name minimum maximum low high =
    let inside : (leb minimum n && leb n maximum) ≡ true = ground arith in rw inside refl

port_items-numbers : (ns : List ℕ) → AllPorts ns → port_items (numbers ns) ≡ ok (distinct ns)
unfolding port_items distinct
port_items-numbers [] ports = refl
port_items-numbers (n ∷ ns) (low, high, ports) =
    rw (require_int_range-numbers n "allowed_ports" 1 65535 low high, port_items-numbers ns ports)
      refl

distinct-filled : (ns : List ℕ) → is_empty ns ≡ false → is_empty (distinct ns) ≡ false
unfolding distinct contains_number
distinct-filled [] filled = filled
distinct-filled (n ∷ ns) filled = elim (Bool-cases (contains_number n (distinct ns))) [
  | inr fresh ↦ rw fresh refl
  | inl old ↦ rw old (contains_number-filled (distinct ns) old)
]
  where
    contains_number-filled : (ms : List ℕ) → contains_number n ms ≡ true → is_empty ms ≡ false
    contains_number-filled [] found = absurd (true≢false (sym found))
    contains_number-filled (m ∷ ms) found = refl

load_federation_policy-document :
    (rt : Runtime) (ns : List ℕ) (private : Bool)
    → is_empty ns ≡ false
    → AllPorts ns
    → load_federation_policy rt (policy_document ns private)
      ≡ ok (record {
        public_federation = true;
        inbound_whitelist = [];
        outbound_whitelist = [];
        allow_private_networks = private;
        allowed_ports = distinct ns;
        mode = if private then "internal" else "public";
      })
unfolding load_federation_policy
load_federation_policy-document rt ns true filled ports =
    rw (port_items-numbers ns ports, distinct-filled ns filled) refl
load_federation_policy-document rt ns false filled ports =
    rw (port_items-numbers ns ports, distinct-filled ns filled) refl

config_url-normal :
    (rt : Runtime) (url message : String)
    → normalize_server_url rt url ≡ ok url
    → config_url rt url message ≡ ok url
unfolding config_url
config_url-normal rt url message normal = rw normal refl

some_policy :
    (policy : String) → contains policy ("drop" ∷ "quarantine" ∷ []) ≡ true → (policy == "") ≡ false
unfolding contains
some_policy policy known = elim (Bool-cases (policy == "")) [
  | inr some_text ↦ some_text
  | inl empty ↦ absurd (
      true≢false (
        sym (
          subst (λ p. contains p ("drop" ∷ "quarantine" ∷ []) ≡ true) ((eq_iff policy "").0 empty)
            known)))
]

-- The document of a configuration whose parts are in order loads, and is the configuration with these
-- parts.
pub read_server_config-document :
    (rt : Runtime) (s : Setup)
    → IsSetup rt s
    → read_server_config rt (server_config_document s) ≡ ok (server_config s)
unfolding read_server_config server_config
read_server_config-document rt s c =
    rw
      (
        c.some_url,
        config_url-normal rt s.server_url "server_url is invalid" c.is_normal,
        c.some_dir,
        identity_items-fields_of s.hosted_identities c.named c.objects,
        c.verifiers,
        c.bundle,
        load_federation_policy-document rt s.allowed_ports s.allow_private_networks c.some_port
            c.ports,
        require_int_range-numbers s.lease_seconds "lease_seconds" 1 3600 c.lease_min c.lease_max,
        some_policy s.rejected_policy c.known_policy,
        c.known_policy,
      )
      refl
