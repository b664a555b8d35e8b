-- ===== src/Client/Compose/Objects.antt =====
-- The objects that a client of endpoint/client_core.py builds: payloads, signed contents, claims,
-- envelopes and content objects.
use endpoint_protocol.Prelude.{ℕ, String, Bool, ◌&&◌, ◌==◌, if◌then◌else◌}
use endpoint_protocol.Json.{Json, Fields, int, pos, str, obj, end, field, get, is_obj}
use endpoint_protocol.Runtime.{Runtime}
use endpoint_protocol.Protocol.Limits.{protocol_version}
use endpoint_protocol.Client.{Profile, own_route}
use endpoint_protocol.Client.Compose.Recipients.{RecipientSpec}

-- The two fields that the payload of a message repeats.
abbrev pub message_fields : String → Json → Fields
message_fields content_type content =
    if content_type == "message" && is_obj content
    then field "body" (get content "body")
        (field "sender_metadata" (get content "sender_metadata") end)
    else end

abbrev pub payload_json : Profile → String → String → String → String → String → Json → Json
payload_json me content_id content_type created_at public_key fingerprint content = obj (
    field "protocol_version" (str protocol_version) (
      field "content_id" (str content_id) (
        field "content_type" (str content_type) (
          field "created_at" (str created_at) (
            field "sender_public_key_armored" (str public_key) (
              field "sender_fingerprint" (str fingerprint) (
                field "sender_route" (own_route me)
                  (field "content" content (message_fields content_type content)))))))))

abbrev pub signed_json : String → String → Json → String → Json
signed_json content_id fingerprint payload signature = obj (
    field "protocol_version" (str protocol_version) (
      field "content_id" (str content_id) (
        field "sender_fingerprint" (str fingerprint) (
          field "signature_algorithm" (str "openpgp-detached")
            (field "payload" payload (field "signature" (str signature) end))))))

-- What all the deliveries of one content share.
pub record Shared : Type 0 where
  pub content_id : Json
  pub content_hash : String
  pub created_at : Json
  pub fingerprint : String
  pub ciphertext : String
  pub is_inline : Bool

abbrev pub claim_payload_json : Profile → Shared → String → RecipientSpec → Json → Json
claim_payload_json me shared message_id spec recipient_route = obj (
    field "protocol_version" (str protocol_version) (
      field "message_id" (str message_id) (
        field "content_id" shared.content_id (
          field "content_sha256" (str shared.content_hash) (
            field "created_at" shared.created_at (
              field "sender_route" (own_route me) (
                field "recipient_route" recipient_route (
                  field "recipient_fingerprint" (get spec.identity "endpoint_fingerprint") (
                    field "recipient_role" (str spec.role)
                      (field "sender_fingerprint" (str shared.fingerprint) end))))))))))

abbrev pub claim_json : String → Json → String → Json
claim_json fingerprint payload signature = obj (
    field "protocol_version" (str protocol_version) (
      field "sender_fingerprint" (str fingerprint) (
        field "signature_algorithm" (str "openpgp-detached")
          (field "payload" payload (field "signature" (str signature) end)))))

-- The transport of the content: with the envelope, or by reference.
abbrev pub transport_fields : Runtime → Shared → Fields
transport_fields rt shared =
    if shared.is_inline
    then field "ciphertext_armored" (str shared.ciphertext)
        (field "ciphertext_sha256" (str (rt.sha256 shared.ciphertext)) end)
    else field "content_ref"
        (obj (
          field "content_id" shared.content_id
            (field "content_sha256" (str shared.content_hash) end)))
        end

abbrev pub envelope_json :
    Runtime → Profile → Shared → String → RecipientSpec → Json → String → Json
envelope_json rt me shared message_id spec recipient_route delivery_ciphertext = obj (
    field "protocol_version" (str protocol_version) (
      field "message_id" (str message_id) (
        field "content_id" shared.content_id (
          field "content_sha256" (str shared.content_hash) (
            field "sender_route" (own_route me) (
              field "recipient_route" recipient_route (
                field "recipient_fingerprint" (get spec.identity "endpoint_fingerprint") (
                  field "recipient_role" (str spec.role) (
                    field "created_at" shared.created_at (
                      field "delivery_ciphertext_armored" (str delivery_ciphertext) (
                        field "delivery_ciphertext_sha256" (str (rt.sha256 delivery_ciphertext))
                          (transport_fields rt shared))))))))))))

abbrev pub content_object_json : Runtime → Json → String → String → ℕ → String → Json
content_object_json rt signed_content hash ciphertext size expires_at = obj (
    field "protocol_version" (str protocol_version) (
      field "content_id" (get signed_content "content_id") (
        field "content_sha256" (str hash) (
          field "ciphertext_armored" (str ciphertext) (
            field "ciphertext_sha256" (str (rt.sha256 ciphertext)) (
              field "size_bytes" (int (pos size)) (
                field "created_at" (get (get signed_content "payload") "created_at")
                  (field "expires_at" (str expires_at) end))))))))
