-- ===== src/Server/Access/Laws.antt =====
-- Who passes the access control of the server, and what a request that does not pass leaves behind.
use endpoint_protocol.Prelude.{
  String, ◌≡◌, refl, true, false, not, ◌&&◌, Option, none, some, eqb, ◌==◌, strip_prefix, some_char,
  arith, Option-cases, inl, inr,
}
use endpoint_protocol.Json.{Json, text}
use endpoint_protocol.Errors.{err≢ok, ok, ◌>>◌}
use endpoint_protocol.Runtime.{Runtime}
use endpoint_protocol.Dict.{lookup}
use endpoint_protocol.Credentials.{Verifier, parse_verifier, verify_client_token}
use endpoint_protocol.Credentials.Laws.{Accepts, verified-Accepts}
use endpoint_protocol.Server.State.{ServerConfig}
use endpoint_protocol.Server.Access.{check, check_verifier, check_header, authenticate_client}

module _ (rt : Runtime) (config : ServerConfig) (client_ref : Json) where
  -- The header names a bearer token that the verifier of the client accepts.
  pub record IsAuthentic (authorization : Option String) : Type 0 where
    pub header : String
    pub token : String
    pub verifier_text : Json
    pub verifier : Verifier
    pub is_header : authorization ≡ some header
    pub is_token : strip_prefix "Bearer " header ≡ some token
    pub is_plain : some_char (λ c. eqb c 0x20) token ≡ false
    pub is_client : lookup (text client_ref) config.client_token_hashes ≡ some verifier_text
    pub is_verifier : parse_verifier rt verifier_text ≡ ok verifier
    pub accepts : Accepts rt token verifier

  verifier-inv :
      (token : String) (found : Option Json)
      → check_verifier rt token found ≡ ok tt
      → (v : Json) × (found ≡ some v) × (verify_client_token rt token v ≡ ok true)
  unfolding check_verifier
  verifier-inv token none h = ground arith
  verifier-inv token (some v) h = (v, refl, ground arith)

  token-inv :
      (token : String)
      → (do
        check (not (token == "") && not (some_char (λ c. eqb c 0x20) token))
        check_verifier rt token (lookup (text client_ref) config.client_token_hashes))
        ≡ ok tt
      → (some_char (λ c. eqb c 0x20) token ≡ false)
        × (check_verifier rt token (lookup (text client_ref) config.client_token_hashes) ≡ ok tt)
  token-inv token h = ground arith

  header-inv :
      (header : String)
      → check_header rt config (text client_ref) (some header) ≡ ok tt
      → IsAuthentic (some header)
  unfolding check_header
  header-inv header h = elim (Option-cases (strip_prefix "Bearer " header)) [
    | inl e ↦ ground (arith, e)
    | inr (token, e) ↦
        let (plain, checked) = token-inv token (rw (e, check_header) at h) in
        let (v, is_client, verified) =
          verifier-inv token (lookup (text client_ref) config.client_token_hashes) checked in
        let (w, is_verifier, accepts) = verified-Accepts rt token v verified in
        record {
          header = header;
          token = token;
          verifier_text = v;
          verifier = w;
          is_header = refl;
          is_token = e;
          is_plain = plain;
          is_client = is_client;
          is_verifier = is_verifier;
          accepts = accepts;
        }
  ]

  authorization-inv :
      (authorization : Option String)
      → check_header rt config (text client_ref) authorization ≡ ok tt
      → IsAuthentic authorization
  unfolding check_header
  authorization-inv none h = absurd (err≢ok h)
  authorization-inv (some header) h = header-inv header h

  -- A client is let in only with a bearer token whose digest is that of the client's verifier.
  pub authenticate_client-IsAuthentic :
      (authorization : Option String)
      → authenticate_client rt config client_ref authorization ≡ ok tt
      → IsAuthentic authorization
  unfolding authenticate_client
  authenticate_client-IsAuthentic authorization h = authorization-inv authorization (ground arith)
