-- ===== src/Server/Access/Hosted.antt =====
-- What the start-up checks of `ServerState._validate_config` make sure of.
use endpoint_protocol.Prelude.{
  String, ◌≡◌, ◌⊎◌, inl, inr, refl, Bool, true, false, ◌&&◌, not, [], ◌∷◌, ◌==◌, eq_iff,
  if◌then◌else◌,
}
use endpoint_protocol.Json.{Json, get, text}
use endpoint_protocol.Errors.{ok}
use endpoint_protocol.Errors.Laws.{bind-inv, then-inv}
use endpoint_protocol.Runtime.{Runtime}
use endpoint_protocol.Dict.{Dict}
use endpoint_protocol.Protocol.Canonical.{canonical_json}
use endpoint_protocol.Protocol.Limits.{default_limits}
use endpoint_protocol.Protocol.Parts.{validate_identity_envelope}
use endpoint_protocol.Protocol.Delivery.{identity_signature_payload}
use endpoint_protocol.Credentials.{validate_client_token_hash}
use endpoint_protocol.Crypto.{endpoint_fingerprint, verify_detached}
use endpoint_protocol.Server.State.{ServerConfig}
use endpoint_protocol.Server.Access.{
  keys_within, check_tokens, check_signature, check_identity, check_identities, validate_config,
}

module _ (rt : Runtime) where
  -- The identity is signed with its own key.
  pub record IsSigned (identity : Json) : Type 0 where
    pub payload : String
    pub is_payload : canonical_json rt (identity_signature_payload identity) ≡ ok payload
    pub verifies :
        verify_detached rt
          (text (get identity "public_key_armored"))
          payload
          (text (get identity "identity_signature"))
        ≡ ok tt

  pub record IsHosted (signed : Bool) (client_ref : String) (identity : Json) : Type 0 where
    pub is_valid : validate_identity_envelope rt identity default_limits ≡ ok tt
    pub is_client : text (get identity "client_ref") ≡ client_ref
    pub is_key :
        endpoint_fingerprint rt (text (get identity "public_key_armored"))
        ≡ ok (text (get identity "endpoint_fingerprint"))
    pub is_signed : (signed ≡ false) ⊎ IsSigned identity

  abbrev pub AreHosted : Bool → Dict Json → Type 0
  AreHosted signed [] = Unit {0}
  AreHosted signed ((client_ref, identity) ∷ rest) =
      IsHosted signed client_ref identity × AreHosted signed rest

  abbrev pub AreVerifiers : Dict Json → Type 0
  AreVerifiers [] = Unit {0}
  AreVerifiers ((client_ref, verifier) ∷ rest) =
      (validate_client_token_hash rt verifier ≡ ok tt) × AreVerifiers rest

  signature-inv : (identity : Json) → check_signature rt identity ≡ ok tt → IsSigned identity
  unfolding check_signature
  signature-inv identity h =
      let (payload, is_payload, h1) =
        bind-inv (canonical_json rt (identity_signature_payload identity)) _ h in
      record { payload = payload; is_payload = is_payload; verifies = h1 }

  IsHosted-inv :
      (signed : Bool) (client_ref : String) (identity : Json)
      → check_identity rt signed client_ref identity ≡ ok tt
      → IsHosted signed client_ref identity
  unfolding check_identity
  IsHosted-inv signed client_ref identity h =
      let own_ref = text (get identity "client_ref") in
      let own_key = text (get identity "endpoint_fingerprint") in
      let (_, valid, h1) = bind-inv (validate_identity_envelope rt identity default_limits) _ h in
      let (is_client, h2) = then-inv (own_ref == client_ref) _ _ h1 in
      let (computed, is_computed, h3) =
        bind-inv (endpoint_fingerprint rt (text (get identity "public_key_armored"))) _ h2 in
      let (is_key, h4) = then-inv (computed == own_key) _ _ h3 in
      let e : computed ≡ own_key = (eq_iff computed own_key).0 is_key in
      record {
        is_valid = valid;
        is_client = (eq_iff own_ref client_ref).0 is_client;
        is_key = rw (← e) is_computed;
        is_signed = signed-inv signed h4;
      }
    where
      signed-inv :
          (signed : Bool)
          → (if signed then check_signature rt identity else ok tt) ≡ ok tt
          → (signed ≡ false) ⊎ IsSigned identity
      signed-inv true k = inr (signature-inv identity k)
      signed-inv false k = inl refl

  identities-inv :
      (signed : Bool) (identities : Dict Json)
      → check_identities rt signed identities ≡ ok tt
      → AreHosted signed identities
  unfolding check_identities
  identities-inv signed [] h = tt
  identities-inv signed ((client_ref, identity) ∷ rest) h =
      let (_, one, others) = bind-inv (check_identity rt signed client_ref identity) _ h in
      (IsHosted-inv signed client_ref identity one, identities-inv signed rest others)

  tokens-inv : (tokens : Dict Json) → check_tokens rt tokens ≡ ok tt → AreVerifiers tokens
  unfolding check_tokens
  tokens-inv [] h = tt
  tokens-inv ((client_ref, verifier) ∷ rest) h =
      let (_, h1) = then-inv (not (client_ref == "")) _ _ h in
      let (_, one, others) = bind-inv (validate_client_token_hash rt verifier) _ h1 in
      (one, tokens-inv rest others)

  -- A server that starts hosts valid identities only, each under its own reference and with the
  -- fingerprint of its own key, and signed with it if signatures are checked; its clients are those
  -- that have a verifier, and every verifier is a valid one.
  pub validate_config-AreHosted :
      (config : ServerConfig)
      → validate_config rt config ≡ ok tt
      → AreHosted config.verify_hosted_identity_signatures config.hosted_identities
        × AreVerifiers config.client_token_hashes
        × ((keys_within config.client_token_hashes config.hosted_identities
              && keys_within config.hosted_identities config.client_token_hashes)
            ≡ true)
  unfolding validate_config
  validate_config-AreHosted config h =
      let tokens = config.client_token_hashes in
      let hosted = config.hosted_identities in
      let (agree, h1) = then-inv (keys_within tokens hosted && keys_within hosted tokens) _ _ h in
      let (_, verifiers, h2) = bind-inv (check_tokens rt tokens) _ h1 in
      (
        identities-inv config.verify_hosted_identity_signatures hosted h2,
        tokens-inv tokens verifiers,
        agree,
      )
