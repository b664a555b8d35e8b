-- ===== src/Config.antt =====
-- endpoint/config.py: the server's configuration file.
pub mod Laws
use endpoint_protocol.Prelude.{
  ℕ, String, ◌<>◌, Bool, true, false, not, ◌&&◌, ◌||◌, Option, none, some, List, [], ◌∷◌, ◌++◌, leb,
  ◌==◌, if◌then◌else◌,
}
use endpoint_protocol.Json.{
  Json, Items, Fields, null, bool, int, pos, str, arr, obj, nil, cons, end, field, get, is_obj,
  is_arr, is_str, is_text, is_the_text, text, items, fields,
}
use endpoint_protocol.Errors.{
  EndpointError, Result, ok, err, raise, require, plain_error, detail_error, rethrow, ◌>>=◌, ◌>>◌,
}
use endpoint_protocol.Runtime.{Runtime}
use endpoint_protocol.Dict.{Dict}
use endpoint_protocol.Protocol.Canonical.{has_key, parse_json_strict}
use endpoint_protocol.Protocol.Limits.{protocol_version}
use endpoint_protocol.Transport.Policy.{
  FederationPolicy, contains, contains_number, is_empty, normalize_server_url,
}
use endpoint_protocol.Credentials.{validate_client_token_hash}
use endpoint_protocol.Server.State.{ServerConfig}

abbrev pub server_config_keys : List String
server_config_keys =
    "protocol_version" ∷ "server_url" ∷ "state_dir" ∷ "hosted_identities" ∷ "client_token_hashes"
    ∷ "ca_bundle" ∷ "federation_policy" ∷ "lease_seconds" ∷ "rejected_policy" ∷ "debug_errors"
    ∷ "verify_hosted_identity_signatures" ∷ []

abbrev pub federation_policy_keys : List String
federation_policy_keys =
    "public_federation" ∷ "inbound_whitelist" ∷ "outbound_whitelist" ∷ "allow_private_networks"
    ∷ "allowed_ports" ∷ "mode" ∷ []

abbrev pub federation_modes : List String
federation_modes =
    "public" ∷ "inbound_whitelist" ∷ "outbound_whitelist" ∷ "whitelist" ∷ "internal" ∷ []

abbrev pub check : Bool → String → Result (Unit {0})
check condition message = require condition "invalid_config" message

-- Every key of the dict is expected; every expected key is there.
unfoldable pub keys_are : Fields → List String → Bool
unfolding contains
keys_are end expected = true
keys_are (field k v fs) expected = contains k expected && keys_are fs expected

unfoldable pub all_there : List String → Fields → Bool
unfolding has_key
all_there [] fs = true
all_there (k ∷ ks) fs = has_key k fs && all_there ks fs

unfoldable pub validate_exact_keys : Json → List String → String → Result (Unit {0})
unfolding keys_are all_there
validate_exact_keys v expected label =
    check (keys_are (fields v) expected && all_there expected (fields v))
      (label <> " keys are invalid")

unfoldable pub require_string : Json → String → Result String
require_string v name = do check (is_text v) (name <> " must be a non-empty string"); ok (text v)

unfoldable pub require_bool : Json → String → Result Bool
require_bool (bool b) name = ok b
require_bool _ name = raise (plain_error "invalid_config" (name <> " must be a boolean"))

unfoldable pub require_optional_bool_or_string : Json → String → Result Json
require_optional_bool_or_string (bool b) name = ok (bool b)
require_optional_bool_or_string (str s) name = do
  check (not (s == "")) (name <> " must not be empty")
  ok (str s)
require_optional_bool_or_string _ name =
    raise (plain_error "invalid_config" (name <> " must be a boolean or string"))

-- The ranges of the code have a minimum of at least 1, so a negative number is out of range.
unfoldable pub require_int_range : Json → String → ℕ → ℕ → Result ℕ
require_int_range (int (pos n)) name minimum maximum = do
  check (leb minimum n && leb n maximum) (name <> " is out of range")
  ok n
require_int_range (int z) name minimum maximum =
    raise (plain_error "invalid_config" (name <> " is out of range"))
require_int_range _ name minimum maximum =
    raise (plain_error "invalid_config" (name <> " must be an integer"))

unfoldable pub identity_items : Fields → Result (Dict Json)
identity_items end = ok []
identity_items (field k v fs) = do
  check (not (k == "")) "hosted identity client_ref is invalid"
  check (is_obj v) "hosted identity must be an object"
  rest ← identity_items fs
  ok ((k, v) ∷ rest)

unfoldable pub require_identity_map : Json → Result (Dict Json)
unfolding identity_items
require_identity_map v = do
  check (is_obj v) "hosted_identities must be an object"
  identity_items (fields v)

unfoldable pub port_items : Items → Result (List ℕ)
unfolding require_int_range contains_number
port_items nil = ok []
port_items (cons v vs) = do
  n ← require_int_range v "allowed_ports" 1 65535
  rest ← port_items vs
  ok (if contains_number n rest then rest else n ∷ rest)

unfoldable pub require_port_set : Json → Result (List ℕ)
unfolding port_items
require_port_set v = do
  check (is_arr v) "allowed_ports must be a list"
  ports ← port_items (items v)
  check (not (is_empty ports)) "allowed_ports must not be empty"
  ok ports

module _ (rt : Runtime) where
  unfoldable pub token_items : Fields → Result (Dict Json)
  unfolding validate_client_token_hash
  token_items end = ok []
  token_items (field k v fs) = do
    check (not (k == "")) "client token hash client_ref is invalid"
    validate_client_token_hash rt v
    rest ← token_items fs
    ok ((k, v) ∷ rest)

  unfoldable pub require_token_hash_map : Json → Result (Dict Json)
  unfolding token_items
  require_token_hash_map v = do
    check (is_obj v) "client_token_hashes must be an object"
    token_items (fields v)

  -- `normalize_server_url` behind `except EndpointError`
  unfoldable pub config_url : String → String → Result String
  unfolding normalize_server_url
  config_url url message =
      rethrow (λ e. detail_error "invalid_config" message (some e.code))
        (normalize_server_url rt url)

  unfoldable pub url_items : Items → String → Result (List String)
  unfolding require_string config_url contains
  url_items nil name = ok []
  url_items (cons v vs) name = do
    url ← require_string v name
    normalized ← config_url url (name <> " contains an invalid server URL")
    rest ← url_items vs name
    ok (if contains normalized rest then rest else normalized ∷ rest)

  unfoldable pub require_string_set : Json → String → Result (List String)
  unfolding url_items
  require_string_set v name = do
    check (is_arr v) (name <> " must be a list")
    url_items (items v) name

  unfoldable pub load_federation_policy : Json → Result FederationPolicy
  unfolding validate_exact_keys require_bool require_string_set require_port_set require_string
      contains get
  load_federation_policy v = do
    check (is_obj v) "federation_policy must be an object"
    validate_exact_keys v federation_policy_keys "federation_policy"
    public_federation ← require_bool (get v "public_federation") "public_federation"
    inbound_whitelist ← require_string_set (get v "inbound_whitelist") "inbound_whitelist"
    outbound_whitelist ← require_string_set (get v "outbound_whitelist") "outbound_whitelist"
    allow_private_networks ← require_bool (get v "allow_private_networks") "allow_private_networks"
    allowed_ports ← require_port_set (get v "allowed_ports")
    mode ← require_string (get v "mode") "mode"
    check (contains mode federation_modes) "federation policy mode is invalid"
    ok (record {
      public_federation = public_federation;
      inbound_whitelist = inbound_whitelist;
      outbound_whitelist = outbound_whitelist;
      allow_private_networks = allow_private_networks;
      allowed_ports = allowed_ports;
      mode = mode;
    })

  -- The tests of `load_server_config` on the parsed file.
  unfoldable pub read_server_config : Json → Result ServerConfig
  unfolding validate_exact_keys require_string config_url require_identity_map
      require_token_hash_map require_optional_bool_or_string load_federation_policy
      require_int_range require_bool contains get
  read_server_config v = do
    check (is_obj v) "server config must be a JSON object"
    validate_exact_keys v server_config_keys "server config"
    check (is_the_text (get v "protocol_version") protocol_version)
        "server config protocol version is unsupported"
    given ← require_string (get v "server_url") "server_url"
    server_url ← config_url given "server_url is invalid"
    state_dir ← require_string (get v "state_dir") "state_dir"
    hosted_identities ← require_identity_map (get v "hosted_identities")
    client_token_hashes ← require_token_hash_map (get v "client_token_hashes")
    ca_bundle ← require_optional_bool_or_string (get v "ca_bundle") "ca_bundle"
    policy ← load_federation_policy (get v "federation_policy")
    lease_seconds ← require_int_range (get v "lease_seconds") "lease_seconds" 1 3600
    rejected_policy ← require_string (get v "rejected_policy") "rejected_policy"
    check (contains rejected_policy ("drop" ∷ "quarantine" ∷ [])) "rejected_policy is invalid"
    debug_errors ← require_bool (get v "debug_errors") "debug_errors"
    verifies ←
        require_bool (get v "verify_hosted_identity_signatures") "verify_hosted_identity_signatures"
    ok (record {
      server_url = server_url;
      state_dir = state_dir;
      hosted_identities = hosted_identities;
      client_token_hashes = client_token_hashes;
      ca_bundle = ca_bundle;
      federation_policy = policy;
      lease_seconds = lease_seconds;
      rejected_policy = rejected_policy;
      debug_errors = debug_errors;
      verify_hosted_identity_signatures = verifies;
    })

-- The text of the file, or the class of the exception that reading it raised.
pub data FileText : Type 0 where
  unreadable : String → FileText
  contents : String → FileText

module _ (rt : Runtime) where
  unfoldable pub load_server_config : FileText → Result ServerConfig
  unfolding parse_json_strict read_server_config
  load_server_config (unreadable what) =
      raise (detail_error "invalid_config" "server config could not be read" (some what))
  load_server_config (contents raw) = do
    v ←
        rethrow (λ e. detail_error "invalid_config" "server config is invalid JSON" (some e.code))
          (parse_json_strict rt raw)
    read_server_config rt v
