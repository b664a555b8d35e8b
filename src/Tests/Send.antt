-- ===== src/Tests/Send.antt =====
-- Runs of a client that sends a message to two others, and of one that receives.
use endpoint_protocol.Prelude.{String, ◌≡◌, refl, true, false, none, some, [], ◌∷◌, every_char, inl}
use endpoint_protocol.Json.{Json, Items, int, pos, nil, cons, str, obj, end, field, get}
use endpoint_protocol.Errors.{ok}
use endpoint_protocol.Exec.{◌>>=◌}
use endpoint_protocol.Protocol.Canonical.{decimal}
use endpoint_protocol.Receive.{Keys, has_route, check_visible}
use endpoint_protocol.Crypto.{endpoint_fingerprint}
use endpoint_protocol.Client.{ClientCore, route_json, identity_json}
use endpoint_protocol.Client.Compose.{or_encrypt, build_delivery_envelopes, build_message}
use endpoint_protocol.Client.Compose.Objects.{
  Shared, payload_json, signed_json, claim_payload_json, envelope_json,
}
use endpoint_protocol.Client.Compose.Recipients.{
  RecipientSpec, route_key_of, visible_routes, message_json,
}
use endpoint_protocol.Client.Compose.Visible.{IsAudience}
use endpoint_protocol.Client.Compose.Shown.{visible_routes-shown}
use endpoint_protocol.Client.Compose.EndToEnd.{IsConsistent, message-IsConsistent}
use endpoint_protocol.Dict.{lookup}
use endpoint_protocol.Transport.Policy.{contains}
use endpoint_protocol.Client.Identity.{verify_recipient_key_material}
use endpoint_protocol.Client.Discover.{answer}
use endpoint_protocol.Storage.Files.{sort_json}
use endpoint_protocol.Storage.Outbox.Laws.{id_of}
use endpoint_protocol.Storage.Outbox.Keeps.{Waits}
use endpoint_protocol.Client.Send.{
  Home, content, message, DeliveryResult, FanoutSendResult, send_content,
}
use endpoint_protocol.Client.Send.Laws.{send_content-Waits}
use endpoint_protocol.Tests.{fingerprint, zeros}
use endpoint_protocol.Tests.Client.{rt, world, alice, core, uses, is_pair}

-- One recipient in To; every fingerprint is the same.
abbrev bob : RecipientSpec
bob = record {
  identity = identity_json world "bob" "bob's key" fingerprint (obj end) end;
  server_url = "https://a";
  role = "to";
  message_id = none;
}

abbrev to : Items
to = cons (route_json "https://a" "bob") nil

abbrev letter : Json
letter =
    signed_json "m1" fingerprint
      (payload_json alice "m1" "message" "2024" "key" fingerprint
        (message_json "hi" (obj end) to nil))
      "s"

abbrev composed : ClientCore
composed = record core { drawn = 1 }

abbrev shared : Shared
shared = record {
  content_id = str "m1";
  content_hash = zeros;
  created_at = str "2024";
  fingerprint = fingerprint;
  ciphertext = "x";
  is_inline = true;
}

abbrev envelope : Json
envelope = envelope_json rt alice shared "m1" bob (route_json "https://a" "bob") "d"

is_composed :
    build_message world alice (bob ∷ []) "hi" (obj end) none "2024" core ≡ (ok letter, composed)
unfolding build_message every_char decimal ◌>>=◌
is_composed = refl

is_delivered :
    build_delivery_envelopes world alice letter (bob ∷ []) none true composed
    ≡ (ok (envelope ∷ []), record core { drawn = 2 })
unfolding build_delivery_envelopes every_char decimal ◌>>=◌
is_delivered = refl

abbrev bobs_keys : Keys
bobs_keys = record { public_key = ok "bob's key"; decrypt = λ s. ok s }

message-IsConsistent_example :
    IsConsistent world bobs_keys "key" letter envelope bob
    × (used : String) × (or_encrypt world alice letter (bob ∷ []) none ≡ ok used)
    × (get envelope "ciphertext_armored" ≡ str used)
unfolding get endpoint_fingerprint
message-IsConsistent_example =
    message-IsConsistent world alice is_pair refl (bob ∷ []) "hi" (obj end) none "2024" core uses
      letter composed is_composed none true (envelope ∷ []) (record core { drawn = 2 }) is_delivered
      envelope bob (inl (refl, refl)) bobs_keys "bob's key" fingerprint refl refl refl

abbrev audience : IsAudience rt (bob ∷ [])
unfolding verify_recipient_key_material route_key_of contains every_char decimal
audience = record {
  some_recipient = refl;
  verified = (refl, refl, tt);
  routes = ("https://a", "bob") ∷ [];
  routed = (refl, tt);
  distinct_routes = (refl, tt);
  distinct_keys = (refl, tt);
}

visible_routes-shown_example :
    (has_route (route_json "https://a" "bob") to ≡ true)
    × (has_route (route_json "https://a" "bob") nil ≡ false)
    × (check_visible
          (message_json "hi" (obj end) to nil)
          (claim_payload_json alice shared "m1" bob (route_json "https://a" "bob"))
        ≡ ok tt)
unfolding visible_routes every_char decimal audience
visible_routes-shown_example =
    visible_routes-shown rt (bob ∷ []) audience to nil refl refl bob ("https://a", "bob")
      (inl (refl, refl)) "hi" (obj end) alice shared "m1"

-- The server takes contents and answers 503 to messages.
abbrev home : Home
home (content c) = answer 200 "" (ok (obj end))
home (message e) = answer 503 "" (ok (obj end))

abbrev by_reference : Json
by_reference =
    envelope_json rt alice (record shared { is_inline = false }) "m1" bob
      (route_json "https://a" "bob") "d"

abbrev failed_delivery : DeliveryResult
failed_delivery = record {
  message_id = str "m1";
  content_id = str "m1";
  recipient_route = route_json "https://a" "bob";
  recipient_role = str "to";
  recipient_trust_state = "untrusted";
  status = "failed";
  error_code = some "delivery_failed";
}

abbrev unsent : FanoutSendResult
unsent = record { content_id = str "m1"; deliveries = failed_delivery ∷ [] }

-- The size is the one of the content in its canonical form.
abbrev content_object : Json
content_object = obj (
    field "protocol_version" (str "endpoint-poc-2") (
      field "content_id" (str "m1") (
        field "content_sha256" (str zeros) (
          field "ciphertext_armored" (str "x") (
            field "ciphertext_sha256" (str zeros) (
              field "size_bytes" (int (pos 595))
                (field "created_at" (str "2024") (field "expires_at" (str "2030") end))))))))

abbrev waiting_core : ClientCore
waiting_core = record core {
  drawn = 2;
  outbox =
      (
        "m1",
        record {
          content = sort_json content_object;
          deliveries =
              (
                "m1",
                record {
                  envelope = sort_json by_reference;
                  status = "failed";
                  error_code = some "delivery_failed";
                },
              )
              ∷ [];
        },
      )
      ∷ [];
}

is_unsent :
    send_content world alice home "2030" letter (bob ∷ []) composed ≡ (ok unsent, waiting_core)
unfolding send_content every_char decimal ◌>>=◌
is_unsent = refl

send_content-Waits_example :
    (e : Json) × (id_of e ≡ "m1") × Waits rt "m1" "m1" e waiting_core.outbox
unfolding get lookup
send_content-Waits_example =
    send_content-Waits world alice home "2030" letter (bob ∷ []) composed unsent waiting_core
      is_unsent "m1" refl refl (inl refl) (inl refl, tt) refl
