-- ===== src/Tests/Receive.antt =====
-- Runs of what a client does with a message that it receives.
use endpoint_protocol.Prelude.{
  ◌≡◌, refl, true, false, none, [], ◌∷◌, ◌==◌, if◌then◌else◌, every_char,
}
use endpoint_protocol.Json.{Json, arr, nil, cons, str, obj, end, field, get, text}
use endpoint_protocol.Errors.{ok, err, raised}
use endpoint_protocol.Runtime.{Runtime, loaded, done}
use endpoint_protocol.Exec.{◌>>=◌}
use endpoint_protocol.Storage.Files.{sort_json}
use endpoint_protocol.Storage.Client.{ClientState, has_processed}
use endpoint_protocol.Receive.{Keys}
use endpoint_protocol.Receive.Laws.{IsGenuine}
use endpoint_protocol.Receive.Process.{
  ReceivedMessage, already_processed, received, sender_identity, process_envelope,
}
use endpoint_protocol.Receive.Once.{process_envelope-IsGenuine, process_envelope-once}
use endpoint_protocol.Protocol.Canonical.{decimal}
use endpoint_protocol.Tests.{stdlib, fingerprint, route, envelope_fields, inline_envelope}

abbrev claim : Json
claim = obj (
    field "protocol_version" (str "endpoint-poc-2") (
      field "sender_fingerprint" (str fingerprint) (
        field "signature_algorithm" (str "openpgp-detached") (
          field "signature" (str "s") (
            field "payload"
              (obj (envelope_fields "m1" (field "sender_fingerprint" (str fingerprint) end)))
              end)))))

abbrev letter : Json
letter = obj (
    field "body" (str "hi") (
      field "sender_metadata" (obj end)
        (field "visible_to" (arr (cons (route "https://a" "bob") nil)) end)))

abbrev payload : Json
payload = obj (
    field "protocol_version" (str "endpoint-poc-2") (
      field "content_id" (str "c1") (
        field "content_type" (str "message") (
          field "created_at" (str "2024") (
            field "sender_public_key_armored" (str "key") (
              field "sender_route" (route "https://b" "alice")
                (field "sender_fingerprint" (str fingerprint) (field "content" letter end))))))))

abbrev signed : Json
signed = obj (
    field "protocol_version" (str "endpoint-poc-2") (
      field "content_id" (str "c1") (
        field "sender_fingerprint" (str fingerprint) (
          field "signature_algorithm" (str "openpgp-detached")
            (field "signature" (str "s") (field "payload" payload end))))))

-- Decryption changes nothing; "d" is read as the claim and any other text as the content.
abbrev pub reader : Runtime
reader = record stdlib {
  loads = λ s. loaded (if s == "d" then claim else signed);
  fingerprint_bytes = λ key.
      done (0 ∷ 0 ∷ 0 ∷ 0 ∷ 0 ∷ 0 ∷ 0 ∷ 0 ∷ 0 ∷ 0 ∷ 0 ∷ 0 ∷ 0 ∷ 0 ∷ 0 ∷ 0 ∷ 0 ∷ 0 ∷ 0 ∷ 0 ∷ []);
}

abbrev pub own_keys : Keys
own_keys = record { public_key = ok "own"; decrypt = λ s. ok s }

abbrev pub fresh : ClientState
fresh = record {
  trust = [];
  identities = [];
  routes = [];
  contact_pins = [];
  processed_messages = [];
}

abbrev pub letter_read : ReceivedMessage
letter_read = received "m1" payload (get claim "payload") fingerprint "untrusted"

abbrev pub left : ClientState
left = record fresh {
  identities =
      (fingerprint, sort_json (sender_identity payload (get claim "payload") fingerprint)) ∷ [];
  routes = ("https://b|alice", fingerprint ∷ []) ∷ [];
  processed_messages = "m1" ∷ [];
}

is_accepted :
    process_envelope reader own_keys true (inline_envelope "x") none fresh ≡ (ok letter_read, left)
unfolding every_char decimal process_envelope ◌>>=◌
is_accepted = refl

process_envelope-IsGenuine_example :
    (opened_claim : Json) × (opened : Json) × (has_processed
        (text (get (inline_envelope "x") "message_id"))
        fresh
      ≡ false)
    × IsGenuine reader own_keys
        (inline_envelope "x")
        none
        opened_claim
        opened
        letter_read.sender_fingerprint
    × (letter_read.raw_payload ≡ get opened "payload")
    × (letter_read.raw_delivery_claim ≡ get opened_claim "payload")
    × (has_processed (reader.nfc (text (get (inline_envelope "x") "message_id"))) left ≡ true)
process_envelope-IsGenuine_example =
    process_envelope-IsGenuine reader own_keys (inline_envelope "x") none fresh letter_read left
      is_accepted

process_envelope-once_example :
    process_envelope reader own_keys false (inline_envelope "x") none left
    ≡ (err (raised already_processed), left)
process_envelope-once_example =
    process_envelope-once reader own_keys (inline_envelope "x") none fresh letter_read left
      is_accepted refl own_keys false none
