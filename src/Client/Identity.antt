-- ===== src/Client/Identity.antt =====
-- How a client of endpoint/client_core.py checks the identities of others, pins contacts.
use endpoint_protocol.Prelude.{String, Option, none, some, [], ◌∷◌, ◌==◌, if◌then◌else◌}
use endpoint_protocol.Json.{Json, null, str, get, is_obj, is_falsy, text}
use endpoint_protocol.Errors.{
  EndpointError, Result, ok, require, detail_error, rethrow, ◌>>=◌, ◌>>◌,
}
use endpoint_protocol.Runtime.{Runtime}
use endpoint_protocol.Protocol.Limits.{default_limits, protocol_version}
use endpoint_protocol.Protocol.Parts.{
  invalid, require_texts, validate_metadata, validate_identity_envelope,
}
use endpoint_protocol.Protocol.Canonical.{canonical_json}
use endpoint_protocol.Protocol.Delivery.{identity_signature_payload}
use endpoint_protocol.Crypto.{endpoint_fingerprint, verify_detached}
use endpoint_protocol.Transport.Policy.{normalize_server_url}
use endpoint_protocol.Client.{Profile}
use endpoint_protocol.Contact.{normalize_contact, validate_endpoint_fingerprint}
use endpoint_protocol.Storage.Client.{ClientState, remember_contact_pin}

-- `__init__`
unfoldable pub new_profile : Runtime → String → String → Result Profile
unfolding normalize_server_url
new_profile rt client_ref home_server_url = do
  url ← normalize_server_url rt home_server_url
  ok (record { client_ref = client_ref; home_server_url = url })

abbrev pub signature_hint : String
signature_hint = "Sync system clocks, regenerate the identity or enrollment bundle, and retry."

abbrev pub bad_signature : EndpointError → EndpointError
bad_signature e =
    record (detail_error "invalid_identity_signature" "identity signature does not verify"
      e.detail) { hint = some signature_hint }

module _ (rt : Runtime) where
  unfoldable pub verify_identity : Json → Result (Unit {0})
  unfolding validate_identity_envelope endpoint_fingerprint canonical_json
      identity_signature_payload verify_detached get
  verify_identity identity = do
    validate_identity_envelope rt identity default_limits
    let key = text (get identity "public_key_armored")
    computed ← endpoint_fingerprint rt key
    require (computed == text (get identity "endpoint_fingerprint")) "invalid_identity_signature"
        "identity fingerprint does not match public key"
    payload ← canonical_json rt (identity_signature_payload identity)
    rethrow bad_signature
        (verify_detached rt key payload (text (get identity "identity_signature")))

  unfoldable pub verify_recipient_key_material : Json → Result (Unit {0})
  unfolding require_texts validate_metadata endpoint_fingerprint verify_identity get
  verify_recipient_key_material identity = do
    invalid (is_obj identity) "recipient identity must be an object"
    require_texts identity
        ("protocol_version" ∷ "client_ref" ∷ "public_key_armored" ∷ "endpoint_fingerprint" ∷ [])
    invalid (text (get identity "protocol_version") == protocol_version)
        "unsupported protocol version"
    validate_metadata rt (get identity "metadata") default_limits
    computed ← endpoint_fingerprint rt (text (get identity "public_key_armored"))
    invalid (computed == text (get identity "endpoint_fingerprint"))
        "recipient fingerprint does not match public key"
    if is_falsy (get identity "identity_signature") then ok tt else verify_identity identity

  -- The public identity of a contact, if it has one.
  unfoldable pub check_public_identity : Json → Result (Unit {0})
  unfolding verify_identity
  check_public_identity null = ok tt
  check_public_identity identity = verify_identity identity

  unfoldable pub validate_contact_pin : Json → Result Json
  unfolding normalize_contact check_public_identity get
  validate_contact_pin contact = do
    normalized ← normalize_contact rt contact
    check_public_identity (get normalized "public_identity")
    ok normalized

  -- The block under `if expected_fingerprint is not None`: what it remembers, and the state of the pin.
  unfoldable pub pin_expected :
      String → String → Json → Option String → ClientState → Result (Option String × ClientState)
  unfolding validate_endpoint_fingerprint remember_contact_pin get
  pin_expected server_url client_ref identity none s = ok (none, s)
  pin_expected server_url client_ref identity (some given) s = do
    expected ← validate_endpoint_fingerprint (str given)
    require (text (get identity "endpoint_fingerprint") == expected) "contact_fingerprint_mismatch"
        "discovered identity does not match contact fingerprint"
    pinned ← remember_contact_pin rt server_url client_ref expected s
    ok (some "matched", pinned)
