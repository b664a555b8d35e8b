-- ===== src/Receive.antt =====
-- `process_envelope` of endpoint/client_core.py: how a client opens, checks and records a message.
pub mod Process
pub mod Laws
pub mod Once
use endpoint_protocol.Prelude.{
  String, ◌<>◌, Bool, true, false, not, ◌&&◌, ◌||◌, Option, none, some, List, [], ◌∷◌, ◌==◌,
  if◌then◌else◌,
}
use endpoint_protocol.Json.{
  Json, Items, nil, cons, null, str, obj, end, field, get, items, is_obj, is_the_text, is_text,
  text, json_eq,
}
use endpoint_protocol.Errors.{
  EndpointError, Result, ok, err, raise, raised, require, require_status, require_error,
  plain_error, status_error, detail_error, rethrow, ◌>>=◌, ◌>>◌,
}
use endpoint_protocol.Runtime.{Runtime}
use endpoint_protocol.Protocol.Limits.{default_limits, protocol_version}
use endpoint_protocol.Protocol.Canonical.{canonical_json, parse_json_strict}
use endpoint_protocol.Protocol.Content.{
  validate_content_object, validate_signed_content, signed_content_hash,
}
use endpoint_protocol.Protocol.Delivery.{
  validate_delivery_claim, validate_delivery_envelope, delivery_envelope_uses_content_reference,
  delivery_outer_compare_fields,
}
use endpoint_protocol.Transport.Policy.{is_empty}
use endpoint_protocol.Crypto.{endpoint_fingerprint, verify_detached}

-- The client's own keys: its public key, and what decrypts with its secret key.
pub record Keys : Type 0 where
  pub public_key : Result String
  pub decrypt : String → Result String

unfoldable pub join_commas : List String → String
join_commas [] = ""
join_commas (s ∷ []) = s
join_commas (s ∷ t ∷ rest) = s <> ("," <> join_commas (t ∷ rest))

-- `any(item == route for item in items)`
unfoldable pub has_route : Json → Items → Bool
unfolding json_eq
has_route route nil = false
has_route route (cons v vs) = json_eq v route || has_route route vs

abbrev seen_in : Json → Json → String → Bool
seen_in content claim_payload name =
    has_route (get claim_payload "recipient_route") (items (get content name))

-- `_validate_visible_recipient_role` of a message, by the role.
unfoldable pub check_visible : Json → Json → Result (Unit {0})
unfolding has_route get
check_visible content claim_payload =
    let role = get claim_payload "recipient_role" in
    if is_the_text role "bcc"
    then require
        (not (seen_in content claim_payload "visible_bcc")
          && not (
              seen_in content claim_payload "visible_to"
              || seen_in content claim_payload "visible_cc"))
        "delivery_claim_invalid" "Bcc recipient is visible in signed content"
    else require (seen_in content claim_payload ("visible_" <> text role)) "delivery_claim_invalid"
        "recipient is missing from signed visible recipients"

unfoldable pub check_visible_role : Json → Json → Result (Unit {0})
unfolding check_visible get
check_visible_role payload claim_payload =
    if is_the_text (get payload "content_type") "message" && is_obj (get payload "content")
    then check_visible (get payload "content") claim_payload
    else ok tt

abbrev mismatch : Bool → String → Result (Unit {0})
mismatch condition message = require condition "outer_inner_mismatch" message

abbrev signature_check : Bool → String → Result (Unit {0})
signature_check condition message = require condition "signature_invalid" message

module _ (rt : Runtime) (keys : Keys) where
  -- `parse_json_strict(self.openpgp.decrypt(…))` behind `except EndpointError`
  unfoldable pub open_ciphertext : String → String → Result Json
  unfolding parse_json_strict
  open_ciphertext ciphertext message =
      rethrow (λ e. detail_error "malformed_ciphertext" message e.detail)
        (keys.decrypt ciphertext >>= λ data_text. parse_json_strict rt data_text)

  unfoldable pub fetched_ciphertext : Json → Option Json → Result String
  unfolding validate_content_object get json_eq
  fetched_ciphertext envelope none = raise (
      status_error "content_unavailable" "referenced content must be fetched before processing" 503)
  fetched_ciphertext envelope (some content_object) = do
    validate_content_object rt content_object default_limits
    require (json_eq (get content_object "content_id") (get envelope "content_id"))
        "content_hash_mismatch" "content id does not match fetched content"
    require (json_eq (get content_object "content_sha256") (get envelope "content_sha256"))
        "content_hash_mismatch" "content hash does not match fetched content"
    ok (text (get content_object "ciphertext_armored"))

  unfoldable pub content_ciphertext : Json → Option Json → Result String
  unfolding delivery_envelope_uses_content_reference fetched_ciphertext get
  content_ciphertext envelope content_object = do
    is_reference ← delivery_envelope_uses_content_reference rt envelope
    if is_reference
        then fetched_ciphertext envelope content_object
        else ok (text (get envelope "ciphertext_armored"))

  -- The tests on the versions of what was decrypted.
  unfoldable pub check_versions : Json → Json → Result (Unit {0})
  unfolding get
  check_versions claim content = do
    mismatch (not (is_obj claim) || is_the_text (get claim "protocol_version") protocol_version)
        "delivery claim protocol version does not match envelope"
    mismatch
        (not (is_obj content && is_obj (get content "payload"))
          || is_the_text (get (get content "payload") "protocol_version") protocol_version)
        "signed content protocol version does not match envelope"

  -- The two signatures of the sender, whose fingerprint is the result.
  unfoldable pub check_sender : Json → Json → Result String
  unfolding endpoint_fingerprint verify_detached canonical_json get
  check_sender content claim = do
    let payload = get content "payload"
    let claim_payload = get claim "payload"
    let key = text (get payload "sender_public_key_armored")
    signature_check (is_text (get payload "sender_public_key_armored"))
        "sender public key is missing"
    fingerprint ← endpoint_fingerprint rt key
    signature_check (is_the_text (get payload "sender_fingerprint") fingerprint)
        "sender fingerprint does not match public key"
    signature_check (is_the_text (get content "sender_fingerprint") fingerprint)
        "signed content sender mismatch"
    signed ← canonical_json rt payload
    verify_detached rt key signed (text (get content "signature"))
    signature_check (is_the_text (get claim "sender_fingerprint") fingerprint)
        "delivery claim sender mismatch"
    signature_check (is_the_text (get claim_payload "sender_fingerprint") fingerprint)
        "delivery claim payload sender mismatch"
    claimed ← canonical_json rt claim_payload
    verify_detached rt key claimed (text (get claim "signature"))
    ok fingerprint

  abbrev mismatch_error : List String → EndpointError
  mismatch_error names =
      detail_error "outer_inner_mismatch" "outer and delivery claim fields do not match"
        (some (join_commas names))

  -- Envelope, claim and content against one another and against the client's own key.
  unfoldable pub check_binding : Json → Json → Json → Result (Unit {0})
  unfolding endpoint_fingerprint signed_content_hash delivery_outer_compare_fields join_commas
      check_visible_role get json_eq
  check_binding envelope content claim = do
    let payload = get content "payload"
    let claim_payload = get claim "payload"
    public_key ← keys.public_key
    own ← endpoint_fingerprint rt public_key
    require (is_the_text (get envelope "recipient_fingerprint") own) "wrong_recipient"
        "message is not addressed to this identity"
    hash ← signed_content_hash rt content
    mismatch (is_the_text (get envelope "content_sha256") hash)
        "signed content hash does not match delivery envelope"
    mismatch (json_eq (get claim_payload "content_sha256") (get envelope "content_sha256"))
        "delivery claim content hash does not match envelope"
    mismatch (json_eq (get payload "sender_route") (get claim_payload "sender_route"))
        "signed content and delivery claim sender routes do not match"
    let different = delivery_outer_compare_fields envelope claim_payload
    require_error (is_empty different) (mismatch_error different)
    require (is_the_text (get claim_payload "recipient_fingerprint") own) "wrong_recipient"
        "message is not addressed to this identity"
    check_visible_role payload claim_payload

  -- All the checks behind the test of duplicates: claim, content and the sender's fingerprint.
  unfoldable pub open_envelope : Json → Option Json → Result (Json × Json × String)
  unfolding open_ciphertext content_ciphertext check_versions validate_delivery_claim
      validate_signed_content check_sender check_binding get
  open_envelope envelope content_object = do
    claim ←
        open_ciphertext (text (get envelope "delivery_ciphertext_armored"))
          "delivery claim could not be decrypted"
    ciphertext ← content_ciphertext envelope content_object
    content ← open_ciphertext ciphertext "content could not be decrypted"
    check_versions claim content
    validate_delivery_claim rt claim default_limits
    validate_signed_content rt content default_limits
    fingerprint ← check_sender content claim
    check_binding envelope content claim
    ok (claim, content, fingerprint)
