-- ===== src/Cli/Config.antt =====
-- `server init-config` of endpoint/cli.py: from arguments to the configuration of a server.
pub mod Laws
pub mod Loads
use endpoint_protocol.Prelude.{
  ℕ, String, ◌<>◌, Bool, true, false, not, Option, none, some, List, [], ◌∷◌, ◌==◌, ◌&&◌,
  if◌then◌else◌,
}
use endpoint_protocol.Json.{
  Json, Items, Fields, bool, int, pos, str, arr, obj, nil, cons, end, field, get, is_obj, text,
}
use endpoint_protocol.Errors.{
  Result, ok, err, raised, crash, raise, require, detail_error, rethrow, ◌>>=◌, ◌>>◌,
}
use endpoint_protocol.Runtime.{Runtime}
use endpoint_protocol.Dict.{Dict, lookup}
use endpoint_protocol.Protocol.Canonical.{parse_json_strict, canonical_json}
use endpoint_protocol.Protocol.Limits.{protocol_version, default_limits}
use endpoint_protocol.Protocol.Parts.{validate_identity_envelope}
use endpoint_protocol.Transport.Policy.{contains, is_empty, normalize_server_url}
use endpoint_protocol.Credentials.{validate_client_token_hash}
use endpoint_protocol.Config.{FileText, unreadable, contents}
use endpoint_protocol.Cli.Arguments.{
  Keys, Values, expect, list_of, map_of, text_or, parse_key_values, parse_bool, parse_int,
}

abbrev pub init_config_keys : Keys
init_config_keys = record {
  scalar_keys =
      "allow_private_networks" ∷ "ca_bundle" ∷ "lease_seconds" ∷ "out" ∷ "rejected_policy"
      ∷ "server_url" ∷ "state_dir" ∷ [];
  list_keys = "allowed_port" ∷ "inbound_whitelist" ∷ "outbound_whitelist" ∷ [];
  map_prefixes = "client_token_hash" ∷ "hosted_identity" ∷ [];
  required_scalars = "out" ∷ "server_url" ∷ "state_dir" ∷ [];
  required_maps = "client_token_hash" ∷ "hosted_identity" ∷ [];
}

-- Dicts and lists as JSON.
abbrev pub fields_of : Dict Json → Fields
fields_of [] = end
fields_of ((k, v) ∷ d) = field k v (fields_of d)

abbrev pub texts : Dict String → Dict Json
texts [] = []
texts ((k, s) ∷ d) = (k, str s) ∷ texts d

abbrev pub numbers : List ℕ → Items
numbers [] = nil
numbers (n ∷ ns) = cons (int (pos n)) (numbers ns)

-- The keyword arguments of `_server_config_document`.
pub record Setup : Type 0 where
  pub server_url : String
  pub state_dir : String
  pub hosted_identities : Dict Json
  pub client_token_hashes : Dict Json
  pub ca_bundle : Json
  pub allowed_ports : List ℕ
  pub allow_private_networks : Bool
  pub rejected_policy : String
  pub lease_seconds : ℕ

-- The keys of both documents stand in their sorted order, in which they are written and read again.
abbrev pub policy_document : List ℕ → Bool → Json
policy_document allowed_ports allow_private_networks = obj (
    field "allow_private_networks" (bool allow_private_networks) (
      field "allowed_ports" (arr (numbers allowed_ports)) (
        field "inbound_whitelist" (arr nil) (
          field "mode" (str (if allow_private_networks then "internal" else "public"))
            (field "outbound_whitelist" (arr nil) (field "public_federation" (bool true) end))))))

-- `_server_config_document`
abbrev pub server_config_document : Setup → Json
server_config_document s = obj (
    field "ca_bundle" s.ca_bundle (
      field "client_token_hashes" (obj (fields_of s.client_token_hashes)) (
        field "debug_errors" (bool false) (
          field "federation_policy" (policy_document s.allowed_ports s.allow_private_networks) (
            field "hosted_identities" (obj (fields_of s.hosted_identities)) (
              field "lease_seconds" (int (pos s.lease_seconds)) (
                field "protocol_version" (str protocol_version) (
                  field "rejected_policy" (str s.rejected_policy) (
                    field "server_url" (str s.server_url) (
                      field "state_dir" (str s.state_dir)
                        (field "verify_hosted_identity_signatures" (bool true) end)))))))))))

-- `_parse_optional_bool_or_string`
abbrev pub bool_or_text : String → Json
bool_or_text s = if s == "true" then bool true else if s == "false" then bool false else str s

abbrev pub has_item : {A : Type 0} → Option A → Bool
has_item none = false
has_item (some v) = true

-- `set(a) == set(b)` of two dicts
unfoldable pub keys_within : {A B : Type 0} → Dict A → Dict B → Bool
unfolding lookup
keys_within [] b = true
keys_within ((k, v) ∷ a) b = has_item (lookup k b) && keys_within a b

module _ (rt : Runtime) where
  -- `_normalize_cli_url`
  unfoldable pub cli_url : String → String → Result String
  unfolding normalize_server_url
  cli_url value name = do
    require (not (value == "")) "invalid_config" (name <> " is required")
    rethrow (λ e. detail_error "invalid_config" (name <> " is invalid") (some e.message))
        (normalize_server_url rt value)

  unfoldable pub parse_ports : List String → Result (List ℕ)
  unfolding parse_int
  parse_ports [] = ok []
  parse_ports (item ∷ items) = do
    port ← parse_int rt item "allowed_port" 1 65535
    ports ← parse_ports items
    ok (port ∷ ports)

  unfoldable pub check_hashes : Dict Json → Result (Unit {0})
  unfolding validate_client_token_hash
  check_hashes [] = ok tt
  check_hashes ((client_ref, verifier) ∷ rest) = do
    validate_client_token_hash rt verifier
    check_hashes rest

-- An exception of reading a file that is no EndpointError
abbrev pub or_unread : String → Result Json → Result Json
or_unread name (ok value) = ok value
or_unread name (err (raised e)) = err (raised e)
or_unread name (err (crash what)) =
    raise (detail_error "invalid_config" (name <> " could not be read") (some what))

-- `read` is the text of a file or the exception of reading it, `path_text` is `str(Path(…))`.
module _ (rt : Runtime) (read : String → FileText) (path_text : String → String) where
  -- `_load_json_object`
  unfoldable pub load_json_object : FileText → String → Result Json
  unfolding parse_json_strict
  load_json_object (unreadable what) name =
      raise (detail_error "invalid_config" (name <> " could not be read") (some what))
  load_json_object (contents raw) name = do
    value ← or_unread name (parse_json_strict rt raw)
    require (is_obj value) "invalid_config" (name <> " must be a JSON object")
    ok value

  -- `_load_hosted_identities`
  unfoldable pub load_hosted_identities : Dict String → Result (Dict Json)
  unfolding load_json_object validate_identity_envelope get
  load_hosted_identities [] = ok []
  load_hosted_identities ((client_ref, path) ∷ paths) = do
    identity ← load_json_object (read path) ("hosted_identity." <> client_ref)
    validate_identity_envelope rt identity default_limits
    require (text (get identity "client_ref") == client_ref) "invalid_config"
        "hosted identity client_ref mismatch"
    identities ← load_hosted_identities paths
    ok ((client_ref, identity) ∷ identities)

  -- The rest of `_cmd_server_init_config`, behind the identities and the hashes.
  unfoldable pub read_settings : Values → Dict Json → Dict Json → Result (String × Setup)
  unfolding parse_ports parse_bool contains parse_int cli_url lookup
  read_settings values identities hashes = do
    ports ← parse_ports rt (list_of (lookup "allowed_port" values))
    let allowed_ports = if is_empty ports then 443 ∷ [] else ports
    allow_private ←
        parse_bool (text_or "false" (lookup "allow_private_networks" values))
          "allow_private_networks"
    let rejected_policy = text_or "drop" (lookup "rejected_policy" values)
    expect (contains rejected_policy ("drop" ∷ "quarantine" ∷ []))
        "rejected_policy must be drop or quarantine"
    lease_seconds ←
        parse_int rt (text_or "2" (lookup "lease_seconds" values)) "lease_seconds" 1 3600
    server_url ← cli_url rt (text_or "" (lookup "server_url" values)) "server_url"
    ok (
      text_or "" (lookup "out" values),
      record {
        server_url = server_url;
        state_dir = path_text (text_or "" (lookup "state_dir" values));
        hosted_identities = identities;
        client_token_hashes = hashes;
        ca_bundle = bool_or_text (text_or "true" (lookup "ca_bundle" values));
        allowed_ports = allowed_ports;
        allow_private_networks = allow_private;
        rejected_policy = rejected_policy;
        lease_seconds = lease_seconds;
      },
    )

  -- `_cmd_server_init_config` up to the document: the file to write and what is in the document.
  unfoldable pub configure : List String → Result (String × Setup)
  unfolding parse_key_values load_hosted_identities keys_within check_hashes read_settings lookup
  configure tokens = do
    values ← parse_key_values init_config_keys tokens
    identities ← load_hosted_identities (map_of (lookup "hosted_identity" values))
    let hashes = texts (map_of (lookup "client_token_hash" values))
    require (keys_within identities hashes && keys_within hashes identities) "invalid_config"
        "client token hashes must match hosted identities"
    check_hashes rt hashes
    read_settings values identities hashes

  -- `_cmd_server_init_config`, as the file and the text that `_write_json_file` puts into it.
  unfoldable pub init_config : List String → Result (String × String)
  unfolding configure canonical_json
  init_config tokens = do
    (out, s) ← configure tokens
    written ← canonical_json rt (server_config_document s)
    ok (out, written)
