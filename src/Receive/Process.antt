-- ===== src/Receive/Process.antt =====
-- The state that `process_envelope` of endpoint/client_core.py changes, and its result.
use endpoint_protocol.Prelude.{String, Bool, true, false, not, Option, if◌then◌else◌}
use endpoint_protocol.Json.{Json, null, str, obj, end, field, get, is_obj, is_the_text, text}
use endpoint_protocol.Errors.{EndpointError, Result, ok, err, require_error, plain_error}
use endpoint_protocol.Runtime.{Runtime}
use endpoint_protocol.Protocol.Limits.{default_limits, protocol_version}
use endpoint_protocol.Protocol.Delivery.{validate_delivery_envelope}
use endpoint_protocol.Exec.{Exec, pure, lift, gets, modify, update, ◌>>=◌, ◌>>◌}
use endpoint_protocol.Storage.Client.{
  ClientState, get_trust, has_processed, mark_processed, remember_identity, remember_route,
}
use endpoint_protocol.Receive.{Keys, open_envelope}

pub record ReceivedMessage : Type 0 where
  pub message_id : String
  pub content_id : Json
  pub content_type : Json
  pub content : Json
  pub delivery_role : Json
  pub body : Json
  pub sender_fingerprint : String
  pub sender_metadata : Json
  pub sender_trust_state : String
  pub raw_payload : Json
  pub raw_delivery_claim : Json

-- `content_data.get(key) if isinstance(content_data, dict) else None`
abbrev get_if_dict : Json → String → Json
get_if_dict v key = if is_obj v then get v key else null

abbrev pub already_processed : EndpointError
already_processed = plain_error "duplicate_message_id" "message was already processed"

-- The identity of the sender that is remembered, without a signature of its own.
abbrev pub sender_identity : Json → Json → String → Json
sender_identity payload claim_payload fingerprint = obj (
    field "protocol_version" (str protocol_version) (
      field "client_ref" (get (get claim_payload "sender_route") "client_ref") (
        field "public_key_armored" (get payload "sender_public_key_armored") (
          field "endpoint_fingerprint" (str fingerprint) (
            field "metadata" (get_if_dict (get payload "content") "sender_metadata")
              (field "identity_signature" (str "") end))))))

abbrev pub received : String → Json → Json → String → String → ReceivedMessage
received message_id payload claim_payload fingerprint trust = record {
  message_id = message_id;
  content_id = get payload "content_id";
  content_type = get payload "content_type";
  content = get payload "content";
  delivery_role = get claim_payload "recipient_role";
  body =
      if is_the_text (get payload "content_type") "message"
      then get_if_dict (get payload "content") "body"
      else null;
  sender_fingerprint = fingerprint;
  sender_metadata = get_if_dict (get payload "content") "sender_metadata";
  sender_trust_state = trust;
  raw_payload = payload;
  raw_delivery_claim = claim_payload;
}

abbrev pub routed : {A : Type 0} → ClientState → Result (A × ClientState) → Result A × ClientState
routed s (ok (a, t)) = (ok a, t)
routed s (err e) = (err e, s)

module _ (rt : Runtime) where
  -- `self.state.remember_route(…)` for the route of the claim
  unfoldable pub note_sender : Json → String → Exec ClientState (Option String)
  unfolding remember_route get
  note_sender claim_payload fingerprint s =
      let route = get claim_payload "sender_route" in
      routed s (
        remember_route rt (text (get route "server_url")) (text (get route "client_ref"))
          fingerprint s)

  unfoldable pub mark_if : Bool → String → Exec ClientState (Unit {0})
  unfolding mark_processed
  mark_if true message_id = modify (mark_processed rt message_id)
  mark_if false message_id = pure tt

  -- What is recorded of a message that was opened.
  unfoldable pub record_message :
      Bool → String → Json × Json × String → Exec ClientState ReceivedMessage
  unfolding note_sender remember_identity mark_if get_trust get
  record_message marks message_id (claim, content, fingerprint) = do
    let payload = get content "payload"
    let claim_payload = get claim "payload"
    _ ← note_sender claim_payload fingerprint
    update (remember_identity rt (sender_identity payload claim_payload fingerprint))
    mark_if marks message_id
    trust ← gets (get_trust fingerprint)
    pure (received message_id payload claim_payload fingerprint trust)

  unfoldable pub process_envelope :
      Keys → Bool → Json → Option Json → Exec ClientState ReceivedMessage
  unfolding validate_delivery_envelope has_processed open_envelope record_message get
  process_envelope keys marks envelope content_object = do
    lift (validate_delivery_envelope rt envelope default_limits)
    known ← gets (has_processed (text (get envelope "message_id")))
    lift (require_error (not known) already_processed)
    opened ← lift (open_envelope rt keys envelope content_object)
    record_message marks (text (get envelope "message_id")) opened
