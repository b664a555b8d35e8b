-- ===== src/Tests/Client.antt =====
-- Runs of a client that has its key: what it exports, discovers, sends and receives.
use endpoint_protocol.Prelude.{String, ◌≡◌, refl, ap, none, some, [], ◌∷◌, every_char}
use endpoint_protocol.Json.{Json, str, obj, end, field, get, text}
use endpoint_protocol.Errors.{ok}
use endpoint_protocol.Runtime.{Runtime, OpenPgp, Backend, done, failed}
use endpoint_protocol.Exec.{◌>>=◌}
use endpoint_protocol.Protocol.Canonical.{decimal}
use endpoint_protocol.Protocol.Limits.{default_limits}
use endpoint_protocol.Protocol.Parts.{validate_identity_envelope}
use endpoint_protocol.Storage.Files.{sort_json}
use endpoint_protocol.Storage.Client.{ClientState}
use endpoint_protocol.KeyStore.{
  KeyStore, holds, new_identity, current_fingerprint, export_public_key, raw_openpgp_fingerprint,
  sign_detached,
}
use endpoint_protocol.KeyStore.Laws.{
  NamesItsKeys, IsComplete, new_identity-is_usable, current_fingerprint-IsComplete,
}
use endpoint_protocol.Crypto.{from_backend}
use endpoint_protocol.Client.{Profile, World, ClientCore, identity_json, export_identity}
use endpoint_protocol.Client.Identity.{verify_identity}
use endpoint_protocol.Client.Discover.{Answer, answer, DiscoveryResult, discover}
use endpoint_protocol.Client.Verified.{
  IsDiscovered, export_identity-verifies, discover-IsDiscovered,
}
use endpoint_protocol.Client.Compose.Signing.{Uses, IsPair}
use endpoint_protocol.Tests.{stdlib, fingerprint}

abbrev pub rt : Runtime
rt = record stdlib {
  fingerprint_bytes = λ key.
      done (0 ∷ 0 ∷ 0 ∷ 0 ∷ 0 ∷ 0 ∷ 0 ∷ 0 ∷ 0 ∷ 0 ∷ 0 ∷ 0 ∷ 0 ∷ 0 ∷ 0 ∷ 0 ∷ 0 ∷ 0 ∷ 0 ∷ 0 ∷ []);
}

-- There is one key pair.
abbrev key_pair : Json
key_pair = obj (
    field "raw_fingerprint" (str "raw")
      (field "public_key_armored" (str "key") (field "secret_key_armored" (str "secret") end)))

abbrev pub pgp : OpenPgp
pgp = record {
  generate = λ name email. done key_pair;
  raw_fingerprint = λ key. done "raw";
  sign = λ secret payload. done "s";
  encrypt = λ key payload. done "d";
  encrypt_many = λ keys payload. done "x";
  decrypt = λ secret ciphertext. done ciphertext;
}

abbrev pub world : World
world = record { rt = rt; pgp = pgp; uuid = λ n. "m1" }

abbrev pub alice : Profile
alice = record { client_ref = "alice"; home_server_url = "https://b" }

abbrev store : KeyStore
store = record {
  raw_fingerprint = holds "raw";
  public_key = holds "key";
  secret_key = holds "secret";
}

abbrev pub fresh : ClientState
fresh = record {
  trust = [];
  identities = [];
  routes = [];
  contact_pins = [];
  processed_messages = [];
}

abbrev pub core : ClientCore
core = record { keys = store; key_fingerprint = some "raw"; state = fresh; outbox = []; drawn = 0 }

pub uses : Uses "key" "secret" core
uses = record { raw = "raw"; remembered = refl; is_public = refl; is_secret = refl }

pub is_pair : IsPair world "key" "secret"
is_pair payload signature h = refl

abbrev named : Backend Json → Backend String
unfolding get
named (done identity) = done (text (get identity "raw_fingerprint"))
named (failed e) = done "raw"

names_its_keys : NamesItsKeys pgp
unfolding get
names_its_keys name email identity made = ap named made

is_stored : new_identity pgp none none "u1" "u2" ≡ ok store
unfolding new_identity
is_stored = refl

new_identity-is_usable_example :
    (raw : String) × (current_fingerprint pgp store ≡ ok raw)
    × (public_key : String) × (export_public_key pgp raw store ≡ ok public_key)
    × (raw_openpgp_fingerprint pgp public_key ≡ ok raw)
    × (secret_key : String) × (holds "secret" ≡ holds secret_key)
    × ((payload : String)
        → sign_detached pgp raw payload store
          ≡ from_backend (pgp.sign secret_key payload) "crypto_failed" "OpenPGP signing failed")
new_identity-is_usable_example =
    new_identity-is_usable pgp names_its_keys none none "u1" "u2" store is_stored

current_fingerprint-IsComplete_example :
    (current_fingerprint pgp store ≡ ok "raw" → IsComplete pgp "raw" store)
    × (IsComplete pgp "raw" store → current_fingerprint pgp store ≡ ok "raw")
current_fingerprint-IsComplete_example = current_fingerprint-IsComplete pgp store "raw"

abbrev pub exported : Json
exported =
    identity_json world "alice" "key" fingerprint (obj end)
      (field "identity_signature" (str "s") end)

is_exported : export_identity world alice (obj end) core ≡ (ok exported, core)
unfolding export_identity every_char decimal ◌>>=◌
is_exported = refl

is_valid : validate_identity_envelope rt exported default_limits ≡ ok tt
unfolding validate_identity_envelope every_char decimal
is_valid = refl

export_identity-verifies_example : verify_identity rt exported ≡ ok tt
export_identity-verifies_example =
    export_identity-verifies world alice is_pair (obj end) core uses exported core is_exported
      is_valid

abbrev ask : String → String → Answer
ask url client_ref = answer 200 "" (ok exported)

abbrev discovery : DiscoveryResult
discovery = record {
  identity = exported;
  trust_state = "untrusted";
  route_warning = none;
  pin_state = some "matched";
}

abbrev known : ClientState
known = record fresh {
  identities = (fingerprint, sort_json exported) ∷ [];
  routes = ("https://b|alice", fingerprint ∷ []) ∷ [];
  contact_pins =
      (
        "https://b|alice",
        record {
          server_url = "https://b";
          client_ref = "alice";
          endpoint_fingerprint = fingerprint;
        },
      )
      ∷ [];
}

is_discovered : discover rt ask "https://b" "alice" (some fingerprint) fresh ≡ (ok discovery, known)
unfolding discover every_char decimal ◌>>=◌
is_discovered = refl

discover-IsDiscovered_example : IsDiscovered rt (some fingerprint) fresh known discovery
discover-IsDiscovered_example =
    discover-IsDiscovered rt ask "https://b" "alice" (some fingerprint) fresh discovery known
      is_discovered
