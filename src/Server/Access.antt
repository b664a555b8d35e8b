-- ===== src/Server/Access.antt =====
-- The start-up checks of `ServerState` and its access control, in endpoint/server_core.py.
pub mod Laws
pub mod Hosted
use endpoint_protocol.Prelude.{
  String, Bool, true, false, not, ◌&&◌, Option, none, some, [], ◌∷◌, eqb, ◌==◌, if◌then◌else◌,
  strip_prefix, some_char,
}
use endpoint_protocol.Json.{Json, get, is_text, text}
use endpoint_protocol.Errors.{Result, ok, raise, require, require_status, status_error, ◌>>=◌, ◌>>◌}
use endpoint_protocol.Runtime.{Runtime}
use endpoint_protocol.Dict.{Dict, lookup}
use endpoint_protocol.Protocol.Canonical.{canonical_json}
use endpoint_protocol.Protocol.Limits.{default_limits}
use endpoint_protocol.Protocol.Parts.{validate_identity_envelope}
use endpoint_protocol.Protocol.Delivery.{identity_signature_payload}
use endpoint_protocol.Transport.Policy.{normalize_server_url}
use endpoint_protocol.Credentials.{validate_client_token_hash, verify_client_token}
use endpoint_protocol.Crypto.{endpoint_fingerprint, verify_detached}
use endpoint_protocol.Server.State.{ServerConfig}

-- Is every key of `d` one of `e`?
unfoldable pub keys_within : {V W : Type 0} → Dict V → Dict W → Bool
unfolding lookup
keys_within [] e = true
keys_within ((k, v) ∷ d) e = elim (lookup k e) [ none ↦ false | some _ ↦ true ] && keys_within d e

unauthorized : {A : Type 0} → Result A
unauthorized = raise (status_error "unauthorized" "invalid client credentials" 401)

abbrev pub check : Bool → Result (Unit {0})
check condition = require_status condition "unauthorized" "invalid client credentials" 401

module _ (rt : Runtime) where
  -- The first loop of `_validate_config`.
  unfoldable pub check_tokens : Dict Json → Result (Unit {0})
  unfolding validate_client_token_hash
  check_tokens [] = ok tt
  check_tokens ((client_ref, verifier) ∷ rest) = do
    require (not (client_ref == "")) "invalid_config" "client token client_ref is invalid"
    validate_client_token_hash rt verifier
    check_tokens rest

  unfoldable pub check_signature : Json → Result (Unit {0})
  unfolding canonical_json identity_signature_payload verify_detached get
  check_signature identity = do
    payload ← canonical_json rt (identity_signature_payload identity)
    verify_detached rt (text (get identity "public_key_armored")) payload
        (text (get identity "identity_signature"))

  unfoldable pub check_identity : Bool → String → Json → Result (Unit {0})
  unfolding validate_identity_envelope endpoint_fingerprint check_signature get
  check_identity verifies client_ref identity = do
    validate_identity_envelope rt identity default_limits
    require (text (get identity "client_ref") == client_ref) "invalid_envelope"
        "hosted identity client_ref mismatch"
    computed ← endpoint_fingerprint rt (text (get identity "public_key_armored"))
    require (computed == text (get identity "endpoint_fingerprint")) "invalid_envelope"
        "hosted identity fingerprint mismatch"
    if verifies then check_signature identity else ok tt

  unfoldable pub check_identities : Bool → Dict Json → Result (Unit {0})
  unfolding check_identity
  check_identities verifies [] = ok tt
  check_identities verifies ((client_ref, identity) ∷ rest) = do
    check_identity verifies client_ref identity
    check_identities verifies rest

  unfoldable pub validate_config : ServerConfig → Result (Unit {0})
  unfolding keys_within check_tokens check_identities
  validate_config config = do
    require
        (keys_within config.client_token_hashes config.hosted_identities
          && keys_within config.hosted_identities config.client_token_hashes)
        "invalid_config" "client token hashes must match hosted identities"
    check_tokens config.client_token_hashes
    check_identities config.verify_hosted_identity_signatures config.hosted_identities

  unfoldable pub check_verifier : String → Option Json → Result (Unit {0})
  unfolding verify_client_token unauthorized
  check_verifier token none = unauthorized
  check_verifier token (some verifier) = do
    verified ← verify_client_token rt token verifier
    check verified

  -- The tests of the header, behind that of `client_ref`.
  unfoldable pub check_header : ServerConfig → String → Option String → Result (Unit {0})
  unfolding strip_prefix some_char lookup check_verifier unauthorized
  check_header config client_ref none = unauthorized
  check_header config client_ref (some authorization) =
      elim (strip_prefix "Bearer " authorization) [
        | none ↦ unauthorized
        | some token ↦ do
          check (not (token == "") && not (some_char (λ c. eqb c 0x20) token))
          check_verifier token (lookup client_ref config.client_token_hashes)
      ]

  unfoldable pub authenticate_client : ServerConfig → Json → Option String → Result (Unit {0})
  unfolding check_header
  authenticate_client config client_ref authorization = do
    check (is_text client_ref)
    check_header config (text client_ref) authorization

  unfoldable pub is_local_server_url : ServerConfig → String → Result Bool
  unfolding normalize_server_url
  is_local_server_url config url = do
    given ← normalize_server_url rt url
    own ← normalize_server_url rt config.server_url
    ok (given == own)

unfoldable pub local_identity : ServerConfig → String → Result Json
unfolding lookup
local_identity config client_ref = elim (lookup client_ref config.hosted_identities) [
  | none ↦ raise (status_error "unknown_recipient" "unknown local identity" 404)
  | some identity ↦ ok identity
]
