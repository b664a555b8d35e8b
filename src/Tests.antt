-- ===== src/Tests.antt =====
-- A small server to run the code on: stand-ins for Python's libraries, a configuration and messages.
pub mod Server
pub mod Storage
pub mod Objects
pub mod Receive
pub mod Client
pub mod Send
pub mod Inbox
pub mod Cli
use endpoint_protocol.Prelude.{
  ℕ, String, ◌<>◌, Bool, true, false, Option, none, some, List, [], ◌∷◌, ◌==◌, if◌then◌else◌,
}
use endpoint_protocol.Json.{Json, Fields, int, pos, str, obj, end, field}
use endpoint_protocol.Runtime.{Runtime, Stamp, stamp, loaded, resolved, Address, done}
use endpoint_protocol.Transport.Policy.{FederationPolicy}
use endpoint_protocol.Storage.Content.{Content}
use endpoint_protocol.Server.State.{ServerConfig, ServerState}
use endpoint_protocol.Server.Handlers.{Body, json, Request, Response, response, PeerCall, Network}

abbrev pub zeros : String
zeros = "0000000000000000000000000000000000000000000000000000000000000000"

abbrev pub fingerprint : String
fingerprint = "ep1:aaaaaaaaaaaaaaaaaaaaaaaaaaaaaaaa"

abbrev pub public_address : Address
public_address = record {
  is_private = false;
  is_loopback = false;
  is_link_local = false;
  is_multicast = false;
  is_reserved = false;
  is_unspecified = false;
}

-- Every hash is the same; "2030" is late and all other times are early; a text is read as the object
-- with that message id.
abbrev pub stdlib : Runtime
stdlib = record {
  nfc = λ s. s;
  lower = λ s. s;
  sha256 = λ s. zeros;
  from_iso = λ s. if s == "2030" then stamp 2_000_000_000 true else stamp 1 true;
  loads = λ s. loaded (obj (field "message_id" (str s) end));
  getaddrinfo = λ s. resolved (public_address ∷ []);
  parse_int = λ s. some (pos 100_000);
  is_bracketed_host = λ s. true;
  is_safe_netloc = λ s. true;
  b64decode = λ s. some (1 ∷ []);
  b64encode = λ bytes. "AQ==";
  pbkdf2 = λ token salt rounds. 1 ∷ [];
  uri_parts = λ s. record { scheme = "endpoint"; path = ""; params = ""; query = s; fragment = "" };
  parse_qs = λ s. [];
  urlencode = λ pairs. "";
  fingerprint_bytes = λ s. done [];
  verify = λ key payload signature. done tt;
  b32 = λ bytes. "aaaaaaaaaaaaaaaaaaaaaaaaaaaaaaaa";
}

abbrev pub policy : FederationPolicy
policy = record {
  public_federation = true;
  inbound_whitelist = [];
  outbound_whitelist = "https://b" ∷ [];
  allow_private_networks = false;
  allowed_ports = 443 ∷ [];
  mode = "public";
}

abbrev pub verifier : Json
verifier = str "pbkdf2_sha256:100000:AQ==:AQ=="

abbrev pub config : ServerConfig
config = record {
  server_url = "https://a";
  state_dir = "/state";
  hosted_identities = ("bob", obj end) ∷ [];
  client_token_hashes = ("bob", verifier) ∷ [];
  ca_bundle = str "/ca";
  federation_policy = policy;
  lease_seconds = 30;
  rejected_policy = "quarantine";
  debug_errors = false;
  verify_hosted_identity_signatures = false;
}

abbrev pub route : String → String → Json
route url client_ref = obj (field "server_url" (str url) (field "client_ref" (str client_ref) end))

-- The fields that both kinds of envelope have.
abbrev pub envelope_fields : String → Fields → Fields
envelope_fields message_id rest = field "protocol_version" (str "endpoint-poc-2") (
    field "message_id" (str message_id) (
      field "content_id" (str "c1") (
        field "recipient_role" (str "to") (
          field "created_at" (str "2024") (
            field "content_sha256" (str zeros) (
              field "delivery_ciphertext_armored" (str "d") (
                field "delivery_ciphertext_sha256" (str zeros) (
                  field "sender_route" (route "https://b" "alice") (
                    field "recipient_route" (route "https://a" "bob")
                      (field "recipient_fingerprint" (str fingerprint) rest))))))))))

-- An envelope with its ciphertext.
abbrev pub inline_envelope : String → Json
inline_envelope ciphertext = obj (
    envelope_fields "m1"
      (field "ciphertext_armored" (str ciphertext) (field "ciphertext_sha256" (str zeros) end)))

-- An envelope that refers to its content.
abbrev pub reference_envelope : Json
reference_envelope = obj (
    envelope_fields "m2" (
      field "content_ref"
        (obj (field "content_id" (str "c1") (field "content_sha256" (str zeros) end))) end))

abbrev pub content : Json
content = obj (
    field "protocol_version" (str "endpoint-poc-2") (
      field "content_id" (str "c1") (
        field "content_sha256" (str zeros) (
          field "ciphertext_armored" (str "x") (
            field "ciphertext_sha256" (str zeros) (
              field "size_bytes" (int (pos 1))
                (field "created_at" (str "2024") (field "expires_at" (str "2030") end))))))))

abbrev pub no_content : Content
no_content = record { rows = []; files = [] }

abbrev pub start : ServerState
start = record { queue = []; replay = []; content = no_content; log = []; content_transfers = [] }

-- A request with a JSON body and a header of authorization.
abbrev pub request : Json → Option String → Request
request body authorization = record {
  authorization = authorization;
  peer_url = none;
  inbox_ref = none;
  body = json body;
}

-- Every other server answers 503.
abbrev pub no_network : Network
no_network call = response 503 0 (json (obj end))
