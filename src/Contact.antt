-- ===== src/Contact.antt =====
-- endpoint/contact.py: contacts from identities, from JSON and from URIs.
pub mod Laws
use endpoint_protocol.Prelude.{
  ℕ, String, ◌<>◌, Bool, false, not, ◌&&◌, ◌||◌, Option, none, some, List, [], ◌∷◌, ◌++◌, eqb, ◌==◌,
  if◌then◌else◌, is_alnum,
}
use endpoint_protocol.Json.{
  Json, Fields, null, str, obj, end, field, get, is_arr, is_obj, is_str, is_text, is_the_text, text,
}
use endpoint_protocol.Errors.{
  Result, ok, err, crash, raise, require, plain_error, detail_error, rethrow, ◌>>=◌, ◌>>◌,
}
use endpoint_protocol.Runtime.{Runtime}
use endpoint_protocol.Protocol.Canonical.{key_le}
use endpoint_protocol.Protocol.Limits.{default_limits, protocol_version}
use endpoint_protocol.Protocol.Patterns.{matches_class, is_fingerprint}
use endpoint_protocol.Protocol.Parts.{validate_metadata, validate_identity_envelope}
use endpoint_protocol.Transport.Policy.{contains, normalize_server_url}
use endpoint_protocol.Crypto.{endpoint_fingerprint}

abbrev pub contact_kind : String
contact_kind = "endpoint-contact"

abbrev pub check : Bool → String → Result (Unit {0})
check condition message = require condition "invalid_contact" message

unfoldable pub validate_endpoint_fingerprint : Json → Result String
unfolding is_fingerprint
validate_endpoint_fingerprint v = do
  check (is_str v && is_fingerprint (text v)) "endpoint fingerprint is invalid"
  ok (text v)

-- `CLIENT_REF_RE.fullmatch(value)`: `^[A-Za-z0-9._-]{1,128}$`
abbrev pub is_ref_char : ℕ → Bool
is_ref_char c = is_alnum c || (eqb c b'.' || (eqb c b'_' || eqb c b'-'))

unfoldable pub validate_client_ref : Json → Result String
unfolding matches_class
validate_client_ref v = do
  check (is_str v && matches_class is_ref_char 1 128 (text v)) "contact client_ref is invalid"
  ok (text v)

-- The JSON of a contact, its public identity last if it has one.
abbrev pub contact_json : String → String → String → String → Json → Fields → Json
contact_json version server_url client_ref fingerprint metadata rest = obj (
    field "kind" (str contact_kind) (
      field "protocol_version" (str version) (
        field "server_url" (str server_url) (
          field "client_ref" (str client_ref)
            (field "endpoint_fingerprint" (str fingerprint) (field "metadata" metadata rest))))))

-- `value.get("protocol_version") in CONTACT_PROTOCOL_VERSIONS`: a value that has no hash is a `TypeError`.
abbrev pub hashable : Json → Result (Unit {0})
hashable v = if is_obj v || is_arr v then err (crash "TypeError") else ok tt

abbrev pub is_contact_version : Json → Bool
is_contact_version v = is_the_text v "endpoint-poc-1" || is_the_text v protocol_version

module _ (rt : Runtime) where
  -- `_normalize_contact_server_url`
  unfoldable pub contact_url : String → Result String
  unfolding normalize_server_url
  contact_url url =
      rethrow (λ e. detail_error "invalid_contact" "contact server_url is invalid" (some e.code))
        (normalize_server_url rt url)

  unfoldable pub contact_route_key : String → Json → Result String
  unfolding contact_url validate_client_ref
  contact_route_key server_url client_ref = do
    url ← contact_url server_url
    ref ← validate_client_ref client_ref
    ok (url <> ("|" <> ref))

  unfoldable pub contact_from_identity : String → Json → Result Json
  unfolding validate_identity_envelope endpoint_fingerprint validate_metadata contact_url
      validate_client_ref validate_endpoint_fingerprint get
  contact_from_identity server_url identity = do
    validate_identity_envelope rt identity default_limits
    computed ← endpoint_fingerprint rt (text (get identity "public_key_armored"))
    check (computed == text (get identity "endpoint_fingerprint"))
        "identity fingerprint does not match public key"
    validate_metadata rt (get identity "metadata") default_limits
    url ← contact_url server_url
    ref ← validate_client_ref (get identity "client_ref")
    fingerprint ← validate_endpoint_fingerprint (get identity "endpoint_fingerprint")
    ok (contact_json protocol_version url ref fingerprint (get identity "metadata") end)

  -- The optional public identity of a contact, as the last item of the result.
  unfoldable pub contact_identity : Json → String → String → Result Fields
  unfolding validate_identity_envelope get
  contact_identity null ref fingerprint = ok end
  contact_identity identity ref fingerprint = do
    validate_identity_envelope rt identity default_limits
    check (text (get identity "client_ref") == ref) "contact identity client_ref mismatch"
    check (text (get identity "endpoint_fingerprint") == fingerprint)
        "contact identity fingerprint mismatch"
    ok (field "public_identity" identity end)

  unfoldable pub normalize_contact : Json → Result Json
  unfolding contact_url validate_client_ref validate_endpoint_fingerprint validate_metadata
      contact_identity get
  normalize_contact v = do
    check (is_obj v) "contact must be a JSON object"
    check (is_the_text (get v "kind") contact_kind) "contact kind is invalid"
    hashable (get v "protocol_version")
    check (is_contact_version (get v "protocol_version")) "contact protocol version is unsupported"
    check (is_text (get v "server_url")) "contact server_url is required"
    url ← contact_url (text (get v "server_url"))
    ref ← validate_client_ref (get v "client_ref")
    fingerprint ← validate_endpoint_fingerprint (get v "endpoint_fingerprint")
    validate_metadata rt (get v "metadata") default_limits
    identity ← contact_identity (get v "public_identity") ref fingerprint
    ok (
        contact_json (text (get v "protocol_version")) url ref fingerprint (get v "metadata")
          identity)

-- One item of the query of a contact's URI, where the metadata has a text for it.
abbrev query_item : String → Json → List (String × String)
query_item key (str s) = (key, s) ∷ []
query_item key _ = []

unfoldable pub contact_query : Json → List (String × String)
unfolding get
contact_query contact =
    let metadata = get contact "metadata" in
    ("server_url", text (get contact "server_url"))
    ∷ ("client_ref", text (get contact "client_ref"))
    ∷ ("fingerprint", text (get contact "endpoint_fingerprint"))
    ∷ ("protocol_version", text (get contact "protocol_version"))
    ∷ (query_item "display_name" (get metadata "display_name")
        ++ query_item "username" (get metadata "username"))

module _ (rt : Runtime) where
  unfoldable pub contact_to_uri : Json → Result String
  unfolding normalize_contact contact_query
  contact_to_uri contact = do
    normalized ← normalize_contact rt contact
    ok ("endpoint:contact?" <> rt.urlencode (contact_query normalized))

abbrev pub Query : Type 0
Query = List (String × List String)

abbrev pub contact_uri_keys : List String
contact_uri_keys =
    "server_url" ∷ "client_ref" ∷ "fingerprint" ∷ "display_name" ∷ "username" ∷ "protocol_version"
    ∷ []

unfoldable pub query_values : String → Query → Option (List String)
query_values key [] = none
query_values key ((k, values) ∷ rest) = if k == key then some values else query_values key rest

-- `sorted(unknown)[0]`: the least key that is not expected, if there is one.
abbrev least : String → Option String → Option String
least k none = some k
least k (some j) = if key_le k j then some k else some j

unfoldable pub unknown_key : Query → Option String
unfolding contains
unknown_key [] = none
unknown_key ((k, values) ∷ rest) =
    let others = unknown_key rest in if contains k contact_uri_keys then others else least k others

-- `len(values) == 1 and values[0] != ""`
abbrev single : List String → Bool
single (value ∷ []) = not (value == "")
single _ = false

abbrev first_value : List String → String
first_value [] = ""
first_value (value ∷ others) = value

abbrev one_value : Option (List String) → String → Result String
one_value none message = raise (plain_error "invalid_contact" message)
one_value (some values) message = do check (single values) message; ok (first_value values)

unfoldable pub one_query_value : Query → String → Result String
unfolding query_values
one_query_value query key =
    one_value (query_values key query) ("contact " <> (key <> " is required"))

-- The loop over `display_name` and `username`.
abbrev metadata_item : Option (List String) → String → Fields → Result Fields
metadata_item none key rest = ok rest
metadata_item (some values) key rest = do
  check (single values) ("contact " <> (key <> " is invalid"))
  ok (field key (str (first_value values)) rest)

-- Two items of metadata, in the order of the loop.
abbrev join : Fields → Fields → Fields
join end gs = gs
join (field k v fs) gs = field k v gs

-- `metadata or None`
abbrev pub or_none : Fields → Json
or_none end = null
or_none fs = obj fs

-- `query.get("protocol_version", [PROTOCOL_VERSION])[0]`
abbrev version_value : Option (List String) → String
version_value none = protocol_version
version_value (some values) = first_value values

unfoldable pub query_metadata : Query → Result Json
unfolding query_values
query_metadata query = do
  name ← metadata_item (query_values "display_name" query) "display_name" end
  username ← metadata_item (query_values "username" query) "username" end
  ok (or_none (join name username))

unfoldable pub check_unknown : Option String → Result (Unit {0})
check_unknown none = ok tt
check_unknown (some key) =
    raise (plain_error "invalid_contact" ("contact URI field is unsupported: " <> key))

module _ (rt : Runtime) where
  unfoldable pub contact_from_uri : Json → Result Json
  unfolding query_metadata one_query_value unknown_key check_unknown query_values normalize_contact
  contact_from_uri uri = do
    check (is_text uri) "contact URI is required"
    let parts = rt.uri_parts (text uri)
    check (parts.scheme == "endpoint" && parts.path == "contact") "contact URI kind is unsupported"
    check (parts.params == "" && parts.fragment == "")
        "contact URI must not include params or fragment"
    let query = rt.parse_qs parts.query
    check_unknown (unknown_key query)
    server_url ← one_query_value query "server_url"
    client_ref ← one_query_value query "client_ref"
    fingerprint ← one_query_value query "fingerprint"
    metadata ← query_metadata query
    normalize_contact rt (
        contact_json (version_value (query_values "protocol_version" query)) server_url client_ref
          fingerprint metadata end)
