-- ===== src/Tests/Objects.antt =====
-- Runs of the parsers and validators: JSON, envelopes, server URLs, tokens and the configuration.
use endpoint_protocol.Prelude.{String, ◌≡◌, refl, true, false, [], ◌∷◌, every_char}
use endpoint_protocol.Json.{null, Json, pos, bool, int, str, arr, obj, nil, cons, end, field}
use endpoint_protocol.Errors.{ok}
use endpoint_protocol.Runtime.{Runtime, loaded}
use endpoint_protocol.Protocol.Canonical.{decimal, parse_json_strict}
use endpoint_protocol.Protocol.Strict.{unique, parse_json_strict-unique}
use endpoint_protocol.Protocol.Limits.{default_limits}
use endpoint_protocol.Protocol.Delivery.{validate_delivery_envelope, delivery_outer_compare_fields}
use endpoint_protocol.Protocol.Delivered.{
  IsDelivery, validate_delivery_envelope-IsDelivery, Agree, delivery_outer_compare_fields-Agree,
}
use endpoint_protocol.Transport.Policy.{outbound, is_empty, normalize_json_url, validate_https_url}
use endpoint_protocol.Transport.Laws.{IsPermitted, validate_https_url-IsPermitted}
use endpoint_protocol.Credentials.{hash_client_token, verify_client_token}
use endpoint_protocol.Credentials.Laws.{hash_client_token-verifies}
use endpoint_protocol.Contact.{contact_json, normalize_contact}
use endpoint_protocol.Contact.Laws.{IsContact, normalize_contact-IsContact}
use endpoint_protocol.Server.State.{ServerConfig}
use endpoint_protocol.Config.{contents, load_server_config}
use endpoint_protocol.Config.Laws.{IsConfig, load_server_config-IsConfig}
use endpoint_protocol.Tests.{stdlib, fingerprint, policy, inline_envelope}

parse_json_strict-unique_example :
    (stdlib.loads "m1" ≡ loaded (obj (field "message_id" (str "m1") end)))
    × (unique (obj (field "message_id" (str "m1") end)) ≡ true)
unfolding parse_json_strict
parse_json_strict-unique_example =
    parse_json_strict-unique stdlib "m1" (obj (field "message_id" (str "m1") end)) refl

is_valid : validate_delivery_envelope stdlib (inline_envelope "x") default_limits ≡ ok tt
unfolding validate_delivery_envelope
is_valid = refl

validate_delivery_envelope-IsDelivery_example :
    IsDelivery stdlib (inline_envelope "x") default_limits
validate_delivery_envelope-IsDelivery_example =
    validate_delivery_envelope-IsDelivery stdlib (inline_envelope "x") default_limits is_valid

abbrev claim_payload : Json
claim_payload = obj (field "message_id" (str "m9") end)

delivery_outer_compare_fields-Agree_example :
    (is_empty (delivery_outer_compare_fields (inline_envelope "x") claim_payload) ≡ true
      → Agree (inline_envelope "x") claim_payload)
    × (Agree (inline_envelope "x") claim_payload
        → is_empty (delivery_outer_compare_fields (inline_envelope "x") claim_payload) ≡ true)
delivery_outer_compare_fields-Agree_example =
    delivery_outer_compare_fields-Agree (inline_envelope "x") claim_payload

validate_https_url-IsPermitted_example :
    (normalize_json_url stdlib (str "https://b/") ≡ ok "https://b")
    × IsPermitted stdlib policy outbound "https://b"
unfolding validate_https_url
validate_https_url-IsPermitted_example =
    validate_https_url-IsPermitted stdlib policy outbound (str "https://b/") "https://b" refl

abbrev hashed : String
hashed = "pbkdf2_sha256:100000:AQ==:AQ=="

hash_client_token-verifies_example : verify_client_token stdlib "token" (str hashed) ≡ ok true
unfolding every_char decimal hash_client_token
hash_client_token-verifies_example =
    hash_client_token-verifies stdlib (1 ∷ []) "token" true 100_000 hashed (refl, refl) (refl, refl)
      refl refl

abbrev policy_json : Json
policy_json = obj (
    field "public_federation" (bool true) (
      field "inbound_whitelist" (arr nil) (
        field "outbound_whitelist" (arr (cons (str "https://B:8443/") nil)) (
          field "allow_private_networks" (bool false) (
            field "allowed_ports" (arr (cons (int (pos 443)) (cons (int (pos 8443)) nil)))
              (field "mode" (str "public") end))))))

abbrev config_json : Json
config_json = obj (
    field "protocol_version" (str "endpoint-poc-2") (
      field "server_url" (str "https://a") (
        field "state_dir" (str "/state") (
          field "hosted_identities" (obj end) (
            field "client_token_hashes" (obj end) (
              field "ca_bundle" (bool true) (
                field "federation_policy" policy_json (
                  field "lease_seconds" (int (pos 30)) (
                    field "rejected_policy" (str "drop") (
                      field "debug_errors" (bool false)
                        (field "verify_hosted_identity_signatures" (bool true) end)))))))))))

abbrev with_file : Runtime
with_file = record stdlib { loads = λ s. loaded config_json }

abbrev loaded_config : ServerConfig
loaded_config = record {
  server_url = "https://a";
  state_dir = "/state";
  hosted_identities = [];
  client_token_hashes = [];
  ca_bundle = bool true;
  federation_policy = record {
    public_federation = true;
    inbound_whitelist = [];
    outbound_whitelist = "https://B:8443" ∷ [];
    allow_private_networks = false;
    allowed_ports = 443 ∷ 8443 ∷ [];
    mode = "public";
  };
  lease_seconds = 30;
  rejected_policy = "drop";
  debug_errors = false;
  verify_hosted_identity_signatures = true;
}

load_server_config-IsConfig_example : IsConfig loaded_config
unfolding load_server_config
load_server_config-IsConfig_example =
    load_server_config-IsConfig with_file (contents "{}") loaded_config refl

abbrev contact : Json
contact = contact_json "endpoint-poc-2" "https://a/" "bob" fingerprint null end

normalize_contact-IsContact_example :
    IsContact stdlib contact (contact_json "endpoint-poc-2" "https://a" "bob" fingerprint null end)
unfolding normalize_contact
normalize_contact-IsContact_example =
    normalize_contact-IsContact stdlib contact
      (contact_json "endpoint-poc-2" "https://a" "bob" fingerprint null end) refl
