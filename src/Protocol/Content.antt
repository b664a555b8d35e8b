-- ===== src/Protocol/Content.antt =====
-- `validate_signed_content` and `validate_content_object` of endpoint/protocol.py.
use endpoint_protocol.Prelude.{
  ℕ, String, ◌<>◌, Bool, true, false, not, ◌&&◌, [], ◌∷◌, leb, ◌==◌, if◌then◌else◌,
}
use endpoint_protocol.Json.{
  Json, Items, int, pos, nil, cons, get, has, is_null, is_obj, is_arr, is_str, is_the_text, text,
  items, json_eq,
}
use endpoint_protocol.Errors.{Result, ok, require, ◌>>=◌, ◌>>◌}
use endpoint_protocol.Runtime.{Runtime}
use endpoint_protocol.Protocol.Canonical.{canonical_json, json_depth, json_size}
use endpoint_protocol.Protocol.Limits.{ProtocolLimits, default_limits, protocol_version}
use endpoint_protocol.Protocol.Patterns.{is_content_type}
use endpoint_protocol.Protocol.Parts.{
  invalid, validate_metadata, validate_fingerprint, require_nonempty_string, require_sha256,
  require_texts, require_timestamp, validate_route, require_protocol_object,
}

module _ (rt : Runtime) where
  unfoldable pub validate_routes : Items → Result (Unit {0})
  unfolding validate_route
  validate_routes nil = ok tt
  validate_routes (cons route rest) = do validate_route rt route; validate_routes rest

  -- `message_data.get(field, [])`, an array of routes if the key is there.
  unfoldable pub check_visible : Json → String → Result (Unit {0})
  unfolding validate_routes get has
  check_visible message name =
      if has message name
      then (do
        invalid (is_arr (get message name)) (name <> " must be an array")
        validate_routes (items (get message name)))
      else ok tt

  -- The block under `if message_data is not None`.
  unfoldable pub check_message : Json → ProtocolLimits → Result (Unit {0})
  unfolding check_visible validate_metadata get has
  check_message message limits = do
    invalid (is_obj message) "message content must be an object"
    invalid (is_str (get message "body")) "body must be a string"
    validate_metadata rt (get message "sender_metadata") limits
    check_visible message "visible_to"
    check_visible message "visible_cc"
    invalid (not (has message "bcc") && not (has message "visible_bcc"))
        "Bcc recipients must not be included in signed content"

  unfoldable pub check_message_data : Json → ProtocolLimits → Result (Unit {0})
  unfolding check_message get
  check_message_data payload limits =
      if is_the_text (get payload "content_type") "message" && not (is_null (get payload "content"))
      then check_message (get payload "content") limits
      else ok tt

  -- The tests of the signed payload.
  unfoldable pub check_signed_payload : Json → Json → ProtocolLimits → Result (Unit {0})
  unfolding require_nonempty_string require_timestamp validate_route validate_fingerprint
      is_content_type check_message_data json_depth json_size json_eq get has
  check_signed_payload content payload limits = do
    invalid (is_obj payload) "signed content payload must be an object"
    invalid (is_the_text (get payload "protocol_version") protocol_version)
        "signed content payload version is invalid"
    invalid (json_eq (get payload "content_id") (get content "content_id"))
        "signed content id does not match"
    require_nonempty_string (get payload "content_type") "content_type"
    invalid (is_content_type (text (get payload "content_type"))) "content_type is invalid"
    require_timestamp rt (get payload "created_at") "created_at"
    require_nonempty_string (get payload "sender_public_key_armored") "sender_public_key_armored"
    validate_route rt (get payload "sender_route")
    validate_fingerprint (get payload "sender_fingerprint") "sender_fingerprint"
    require (json_eq (get payload "sender_fingerprint") (get content "sender_fingerprint"))
        "signature_invalid" "signed content sender mismatch"
    invalid (has payload "content") "content is required"
    require (leb (json_depth (get payload "content")) limits.max_json_depth) "metadata_too_large"
        "content nesting is too deep"
    size ← json_size rt (get payload "content")
    require (leb size limits.max_content_bytes) "metadata_too_large" "content is too large"
    check_message_data payload limits

  unfoldable pub validate_signed_content : Json → ProtocolLimits → Result (Unit {0})
  unfolding require_protocol_object require_texts validate_fingerprint check_signed_payload get
  validate_signed_content content limits = do
    require_protocol_object rt content "signed content" limits.max_content_bytes
    require_texts content
        ("content_id" ∷ "sender_fingerprint" ∷ "signature_algorithm" ∷ "signature" ∷ [])
    validate_fingerprint (get content "sender_fingerprint") "sender_fingerprint"
    require (is_the_text (get content "signature_algorithm") "openpgp-detached") "signature_invalid"
        "unsupported signature algorithm"
    check_signed_payload content (get content "payload") limits

  unfoldable pub signed_content_hash : Json → Result String
  unfolding validate_signed_content canonical_json
  signed_content_hash content = do
    validate_signed_content content default_limits
    canonical ← canonical_json rt content
    ok (rt.sha256 canonical)

-- `isinstance(v, int) and not isinstance(v, bool) and v >= 0`
abbrev pub is_size : Json → Bool
is_size (int (pos n)) = true
is_size _ = false

abbrev pub size_of : Json → ℕ
size_of (int (pos n)) = n
size_of _ = 0

module _ (rt : Runtime) where
  -- `expires_at` may be missing or None.
  unfoldable pub check_expires : Json → Result (Unit {0})
  unfolding require_timestamp
  check_expires v = if is_null v then ok tt else require_timestamp rt v "expires_at"

  unfoldable pub validate_content_object : Json → ProtocolLimits → Result (Unit {0})
  unfolding require_protocol_object require_texts require_timestamp require_sha256 check_expires get
  validate_content_object content limits = do
    require_protocol_object rt content "content object" limits.max_content_object_bytes
    require_texts content
        ("content_id" ∷ "content_sha256" ∷ "ciphertext_armored" ∷ "ciphertext_sha256" ∷ [])
    require_timestamp rt (get content "created_at") "created_at"
    require_sha256 (get content "content_sha256") "content_sha256"
    require_sha256 (get content "ciphertext_sha256") "ciphertext_sha256"
    require
        (rt.sha256 (text (get content "ciphertext_armored"))
          == text (get content "ciphertext_sha256"))
        "content_hash_mismatch" "content ciphertext hash does not match"
    invalid (is_size (get content "size_bytes")) "size_bytes is invalid"
    require (leb (size_of (get content "size_bytes")) limits.max_content_bytes) "metadata_too_large"
        "content object is too large"
    check_expires (get content "expires_at")

  unfoldable pub content_object_hash : Json → Result String
  unfolding validate_content_object canonical_json
  content_object_hash content = do
    validate_content_object content default_limits
    canonical ← canonical_json rt content
    ok (rt.sha256 canonical)
