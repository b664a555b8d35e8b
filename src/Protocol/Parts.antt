-- ===== src/Protocol/Parts.antt =====
-- The parts that the validators of endpoint/protocol.py share: texts, timestamps, hashes, routes,
-- metadata and identities.
use endpoint_protocol.Prelude.{
  ℕ, String, ◌<>◌, code, Bool, not, ◌&&◌, some, List, [], ◌∷◌, leb, eqb, ◌==◌, if◌then◌else◌,
  text_length, every_char,
}
use endpoint_protocol.Json.{
  Json, Fields, null, end, field, get, is_obj, is_str, is_text, is_the_text, text, fields,
}
use endpoint_protocol.Errors.{Result, ok, raise, require, detail_error, rethrow, ◌>>=◌, ◌>>◌}
use endpoint_protocol.Runtime.{Runtime, Stamp, bad_stamp, stamp}
use endpoint_protocol.Protocol.Canonical.{json_depth, json_size}
use endpoint_protocol.Protocol.Limits.{ProtocolLimits, max_json_depth, protocol_version}
use endpoint_protocol.Protocol.Patterns.{
  is_username, is_safe_field, is_fingerprint, is_sha256, is_plain_char,
}
use endpoint_protocol.Transport.Policy.{normalize_server_url}

abbrev pub invalid : Bool → String → Result (Unit {0})
invalid condition message = require condition "invalid_envelope" message

unfoldable pub reject_controls : String → String → Result (Unit {0})
unfolding every_char
reject_controls value name =
    invalid (every_char is_plain_char value) (name <> " contains a control character")

unfoldable pub check_display_name : Json → Result (Unit {0})
unfolding reject_controls text_length
check_display_name v = do
  invalid (is_str v) "display_name must be a string"
  reject_controls (text v) "display_name"
  invalid (leb 1 (text_length (text v)) && leb (text_length (text v)) 128)
      "display_name length is invalid"

unfoldable pub check_status : Json → Result (Unit {0})
unfolding reject_controls text_length
check_status v = do
  invalid (is_str v) "status must be a string"
  reject_controls (text v) "status"
  invalid (leb (text_length (text v)) 140) "status length is invalid"

unfoldable pub check_username : Json → Result (Unit {0})
unfolding is_username
check_username v = do
  invalid (is_str v) "username must be a string"
  invalid (is_username (text v)) "username is invalid"

-- The body of the loop over the items of metadata.
unfoldable pub check_item : String → Json → Result (Unit {0})
unfolding is_safe_field check_username check_display_name check_status
check_item key value = do
  invalid (is_safe_field key) "metadata field name is invalid"
  if key == "username"
      then check_username value
      else if key == "display_name"
      then check_display_name value
      else if key == "status"
      then check_status value
      else ok tt

unfoldable pub check_items : Fields → Result (Unit {0})
unfolding check_item
check_items end = ok tt
check_items (field k v fs) = do check_item k v; check_items fs

module _ (rt : Runtime) where
  unfoldable pub validate_metadata : Json → ProtocolLimits → Result (Unit {0})
  unfolding check_items json_depth json_size
  validate_metadata null limits = ok tt
  validate_metadata v limits = do
    invalid (is_obj v) "metadata must be an object or null"
    require (leb (json_depth v) limits.max_json_depth) "metadata_too_large"
        "metadata nesting is too deep"
    size ← json_size rt v
    require (leb size limits.max_metadata_bytes) "metadata_too_large" "metadata is too large"
    check_items (fields v)

unfoldable pub validate_fingerprint : Json → String → Result (Unit {0})
unfolding is_fingerprint
validate_fingerprint v name = invalid (is_str v && is_fingerprint (text v)) (name <> " is invalid")

unfoldable pub require_nonempty_string : Json → String → Result (Unit {0})
require_nonempty_string v name = invalid (is_text v) (name <> " is required")

unfoldable pub require_sha256 : Json → String → Result (Unit {0})
unfolding is_sha256
require_sha256 v name = invalid (is_str v && is_sha256 (text v)) (name <> " is invalid")

-- `for field in (…): _require_nonempty_string(value.get(field), field)`
unfoldable pub require_texts : Json → List String → Result (Unit {0})
unfolding require_nonempty_string get
require_texts v [] = ok tt
require_texts v (name ∷ names) = do require_nonempty_string (get v name) name; require_texts v names

-- `value.replace("Z", "+00:00")`
unfoldable pub replace_z : String → String
replace_z String.[] = ""
replace_z (String.◌∷◌ c s) =
    if eqb (code c) b'Z' then "+00:00" <> replace_z s else String.◌∷◌ c (replace_z s)

unfoldable pub check_stamp : Stamp → String → Result (Unit {0})
check_stamp (bad_stamp what) name =
    raise (detail_error "invalid_envelope" (name <> " is invalid") (some what))
check_stamp (stamp instant zoned) name = invalid zoned (name <> " must include a timezone")

module _ (rt : Runtime) where
  unfoldable pub require_timestamp : Json → String → Result (Unit {0})
  unfolding require_nonempty_string replace_z check_stamp
  require_timestamp v name = do
    require_nonempty_string v name
    check_stamp (rt.from_iso (replace_z (text v))) name

  unfoldable pub validate_route : Json → Result (Unit {0})
  unfolding normalize_server_url get
  validate_route route = do
    invalid (is_obj route) "route must be an object"
    invalid (is_str (get route "server_url")) "route.server_url is required"
    invalid (is_str (get route "client_ref")) "route.client_ref is required"
    invalid (not (text (get route "client_ref") == "")) "route.client_ref is required"
    _ ←
        rethrow (λ e. detail_error "invalid_envelope" "route.server_url is invalid" (some e.code))
          (normalize_server_url rt (text (get route "server_url")))
    ok tt

  unfoldable pub validate_identity_envelope : Json → ProtocolLimits → Result (Unit {0})
  unfolding require_texts validate_fingerprint validate_metadata json_size get
  validate_identity_envelope identity limits = do
    invalid (is_obj identity) "identity must be an object"
    size ← json_size rt identity
    require (leb size limits.max_identity_bytes) "metadata_too_large"
        "identity envelope is too large"
    invalid (is_the_text (get identity "protocol_version") protocol_version)
        "unsupported protocol version"
    require_texts identity
        ("client_ref" ∷ "public_key_armored" ∷ "endpoint_fingerprint" ∷ "identity_signature" ∷ [])
    validate_fingerprint (get identity "endpoint_fingerprint") "endpoint_fingerprint"
    validate_metadata rt (get identity "metadata") limits

  unfoldable pub require_protocol_object : Json → String → ℕ → Result (Unit {0})
  unfolding json_depth json_size get
  require_protocol_object v name limit = do
    invalid (is_obj v) (name <> " must be an object")
    require (leb (json_depth v) max_json_depth) "metadata_too_large"
        (name <> " nesting is too deep")
    size ← json_size rt v
    require (leb size limit) "metadata_too_large" (name <> " is too large")
    invalid (is_the_text (get v "protocol_version") protocol_version) "unsupported protocol version"
