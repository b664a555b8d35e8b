-- ===== src/Tests/Cli.antt =====
-- A run of `server init-config`.
use endpoint_protocol.Prelude.{
  String, ◌≡◌, ◌≢◌, refl, sym, ap, true, false, true≢false, some, List, [], ◌∷◌, ◌==◌,
  if◌then◌else◌, every_char,
}
use endpoint_protocol.Json.{pos, bool, str, is_str}
use endpoint_protocol.Errors.{ok, err}
use endpoint_protocol.Runtime.{Runtime, loaded}
use endpoint_protocol.Protocol.Canonical.{decimal, canonical_json, parse_json_strict}
use endpoint_protocol.Transport.Policy.{normalize_server_url}
use endpoint_protocol.Config.{FileText, contents, load_server_config}
use endpoint_protocol.Cli.Config.{Setup, server_config_document, configure, init_config}
use endpoint_protocol.Cli.Config.Laws.{server_config}
use endpoint_protocol.Cli.Config.Loads.{SameKeys, init_config-loads}
use endpoint_protocol.Tests.Client.{rt, exported}

-- Every file has the exported identity, and what is encoded is long enough.
abbrev host : Runtime
host = record rt {
  loads = λ s. loaded exported;
  b64decode = λ s. some (
      1 ∷ 1 ∷ 1 ∷ 1 ∷ 1 ∷ 1 ∷ 1 ∷ 1 ∷ 1 ∷ 1 ∷ 1 ∷ 1 ∷ 1 ∷ 1 ∷ 1 ∷ 1 ∷ 1 ∷ 1 ∷ 1 ∷ 1 ∷ 1 ∷ 1 ∷ 1 ∷ 1
      ∷ 1 ∷ 1 ∷ 1 ∷ 1 ∷ 1 ∷ 1 ∷ 1 ∷ 1 ∷ []);
  parse_int = λ s. some (if s == "100000" then pos 100_000 else pos 30);
}

abbrev read : String → FileText
read path = contents "identity"

abbrev path_text : String → String
path_text path = "/state"

abbrev tokens : List String
tokens =
    "server_url=https://b" ∷ "state_dir=/state" ∷ "out=server.json" ∷ "lease_seconds=30"
    ∷ "outbound_whitelist=https://a" ∷ "hosted_identity.alice=alice.json"
    ∷ "client_token_hash.alice=pbkdf2_sha256:100000:AQ==:AQ==" ∷ []

abbrev setup : Setup
setup = record {
  server_url = "https://b";
  state_dir = "/state";
  hosted_identities = ("alice", exported) ∷ [];
  client_token_hashes = ("alice", str "pbkdf2_sha256:100000:AQ==:AQ==") ∷ [];
  ca_bundle = bool true;
  allowed_ports = 443 ∷ [];
  allow_private_networks = false;
  rejected_policy = "drop";
  lease_seconds = 30;
}

is_configured : configure host read path_text tokens ≡ ok ("server.json", setup)
unfolding configure every_char decimal
is_configured = refl

is_normal : normalize_server_url host "https://b" ≡ ok "https://b"
unfolding normalize_server_url every_char decimal
is_normal = refl

bool_is_no_text : setup.ca_bundle ≢ str ""
bool_is_no_text h = true≢false (sym (ap is_str h))

-- The text of the document; `host` reads it as the document, and any other file as the identity.
abbrev written : String
unfolding canonical_json
written = elim (canonical_json rt (server_config_document setup)) [
  | ok document ↦ document
  | err failure ↦ ""
]

abbrev reading_host : Runtime
reading_host = record host {
  loads = λ s. if s == "identity" then loaded exported else loaded (server_config_document setup);
}

init_config-loads_example :
    (init_config reading_host read path_text tokens ≡ ok ("server.json", written))
    × (load_server_config reading_host (contents written) ≡ ok (server_config setup))
    × SameKeys setup
unfolding configure canonical_json parse_json_strict every_char decimal
init_config-loads_example =
    init_config-loads reading_host read path_text tokens "server.json" setup written (λ path. refl)
      refl is_normal bool_is_no_text refl refl
