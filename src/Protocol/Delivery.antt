-- ===== src/Protocol/Delivery.antt =====
-- `validate_delivery_claim`, `validate_delivery_envelope` and the comparison of the outer fields of
-- an envelope with its claim, in endpoint/protocol.py.
use endpoint_protocol.Prelude.{
  String, Bool, true, false, not, ◌||◌, List, [], ◌∷◌, ◌==◌, if◌then◌else◌,
}
use endpoint_protocol.Json.{Json, obj, end, field, get, has, is_obj, is_the_text, text, json_eq}
use endpoint_protocol.Errors.{Result, ok, err, crash, require, ◌>>◌}
use endpoint_protocol.Runtime.{Runtime}
use endpoint_protocol.Protocol.Limits.{ProtocolLimits, default_limits, protocol_version}
use endpoint_protocol.Protocol.Parts.{
  invalid, validate_fingerprint, require_nonempty_string, require_sha256, require_texts,
  require_timestamp, validate_route, require_protocol_object,
}

-- `has_inline != has_reference`
abbrev pub differ : Bool → Bool → Bool
differ true b = not b
differ false b = b

-- `v[key]` of a key that may be missing
abbrev pub require_key : Json → String → Result (Unit {0})
require_key v key = if has v key then ok tt else err (crash "KeyError")

-- `v in DELIVERY_ROLES`
abbrev pub is_role : Json → Bool
is_role v = is_the_text v "to" || (is_the_text v "cc" || is_the_text v "bcc")

module _ (rt : Runtime) where
  unfoldable pub check_claim_payload : Json → Json → Result (Unit {0})
  unfolding require_texts require_timestamp require_sha256 validate_route validate_fingerprint get
      json_eq
  check_claim_payload claim payload = do
    invalid (is_obj payload) "delivery claim payload must be an object"
    invalid (is_the_text (get payload "protocol_version") protocol_version)
        "delivery claim payload version is invalid"
    require_texts payload ("message_id" ∷ "content_id" ∷ "recipient_role" ∷ [])
    require_timestamp rt (get payload "created_at") "created_at"
    require_sha256 (get payload "content_sha256") "content_sha256"
    validate_route rt (get payload "sender_route")
    validate_route rt (get payload "recipient_route")
    validate_fingerprint (get payload "recipient_fingerprint") "recipient_fingerprint"
    validate_fingerprint (get payload "sender_fingerprint") "sender_fingerprint"
    invalid (is_role (get payload "recipient_role")) "recipient_role is invalid"
    require (json_eq (get claim "sender_fingerprint") (get payload "sender_fingerprint"))
        "signature_invalid" "delivery claim sender mismatch"

  unfoldable pub validate_delivery_claim : Json → ProtocolLimits → Result (Unit {0})
  unfolding require_protocol_object require_texts validate_fingerprint check_claim_payload get
  validate_delivery_claim claim limits = do
    require_protocol_object rt claim "delivery claim" limits.max_claim_bytes
    require_texts claim ("sender_fingerprint" ∷ "signature_algorithm" ∷ "signature" ∷ [])
    validate_fingerprint (get claim "sender_fingerprint") "sender_fingerprint"
    require (is_the_text (get claim "signature_algorithm") "openpgp-detached") "signature_invalid"
        "unsupported signature algorithm"
    check_claim_payload claim (get claim "payload")

  -- `has_inline`, `has_reference`
  abbrev pub has_inline : Json → Bool
  has_inline envelope = has envelope "ciphertext_armored" || has envelope "ciphertext_sha256"

  abbrev pub has_reference : Json → Bool
  has_reference envelope = has envelope "content_ref"

  unfoldable pub check_inline : Json → Result (Unit {0})
  unfolding require_nonempty_string require_sha256 get
  check_inline envelope = do
    require_nonempty_string (get envelope "ciphertext_armored") "ciphertext_armored"
    require_sha256 (get envelope "ciphertext_sha256") "ciphertext_sha256"
    invalid
        (rt.sha256 (text (get envelope "ciphertext_armored"))
          == text (get envelope "ciphertext_sha256"))
        "content ciphertext hash does not match"

  unfoldable pub check_reference : Json → Json → Result (Unit {0})
  unfolding require_sha256 get json_eq
  check_reference envelope content_ref = do
    invalid (is_obj content_ref) "content_ref must be an object"
    invalid (json_eq (get content_ref "content_id") (get envelope "content_id"))
        "content reference id does not match envelope"
    invalid (json_eq (get content_ref "content_sha256") (get envelope "content_sha256"))
        "content reference hash does not match envelope"
    require_sha256 (get content_ref "content_sha256") "content_ref.content_sha256"

  unfoldable pub check_transport : Json → Result (Unit {0})
  unfolding check_inline check_reference get has
  check_transport envelope = do
    invalid (differ (has_inline envelope) (has_reference envelope))
        "delivery envelope must contain exactly one content transport"
    if has_inline envelope
        then check_inline envelope
        else check_reference envelope (get envelope "content_ref")

  -- The tests behind the transport.
  unfoldable pub check_recipient : Json → Result (Unit {0})
  unfolding validate_route validate_fingerprint get
  check_recipient envelope = do
    validate_route rt (get envelope "sender_route")
    validate_route rt (get envelope "recipient_route")
    validate_fingerprint (get envelope "recipient_fingerprint") "recipient_fingerprint"
    invalid (is_role (get envelope "recipient_role")) "recipient_role is invalid"

  unfoldable pub validate_delivery_envelope : Json → ProtocolLimits → Result (Unit {0})
  unfolding require_protocol_object require_texts require_timestamp require_sha256 check_transport
      check_recipient get
  validate_delivery_envelope envelope limits = do
    require_protocol_object rt envelope "delivery envelope" limits.max_envelope_bytes
    require_texts envelope (
        "message_id" ∷ "content_id" ∷ "recipient_role" ∷ "delivery_ciphertext_armored"
        ∷ "delivery_ciphertext_sha256" ∷ [])
    require_timestamp rt (get envelope "created_at") "created_at"
    require_key envelope "content_sha256"
    require_sha256 (get envelope "content_sha256") "content_sha256"
    require_sha256 (get envelope "delivery_ciphertext_sha256") "delivery_ciphertext_sha256"
    invalid
        (rt.sha256 (text (get envelope "delivery_ciphertext_armored"))
          == text (get envelope "delivery_ciphertext_sha256"))
        "delivery ciphertext hash does not match"
    check_transport envelope
    check_recipient envelope

  unfoldable pub delivery_envelope_uses_content_reference : Json → Result Bool
  unfolding validate_delivery_envelope has
  delivery_envelope_uses_content_reference envelope = do
    validate_delivery_envelope envelope default_limits
    ok (has envelope "content_ref")

abbrev pub outer_fields : List String
outer_fields =
    "message_id" ∷ "protocol_version" ∷ "content_id" ∷ "content_sha256" ∷ "sender_route"
    ∷ "recipient_route" ∷ "recipient_fingerprint" ∷ "recipient_role" ∷ "created_at" ∷ []

-- `[field for field in fields if envelope.get(field) != claim_payload.get(field)]`
unfoldable pub mismatches : Json → Json → List String → List String
unfolding get json_eq
mismatches v w [] = []
mismatches v w (name ∷ names) =
    let rest = mismatches v w names in
    if json_eq (get v name) (get w name) then rest else name ∷ rest

unfoldable pub delivery_outer_compare_fields : Json → Json → List String
unfolding mismatches
delivery_outer_compare_fields envelope payload = mismatches envelope payload outer_fields

unfoldable pub identity_signature_payload : Json → Json
unfolding get
identity_signature_payload identity = obj (
    field "protocol_version" (get identity "protocol_version") (
      field "client_ref" (get identity "client_ref") (
        field "public_key_armored" (get identity "public_key_armored") (
          field "endpoint_fingerprint" (get identity "endpoint_fingerprint")
            (field "metadata" (get identity "metadata") end)))))
