-- ===== src/Tests/Server.antt =====
-- Runs of the server of `Tests`: a message is accepted and delivered, a second one is refused.
use endpoint_protocol.Prelude.{
  [], ◌∷◌, ℕ, true, ◌&&◌, ◌++◌, List, String, ◌≡◌, ◌≢◌, refl, none, some,
}
use endpoint_protocol.Json.{Json, str, obj, end, field, get}
use endpoint_protocol.Errors.{Result, ok, err, raised, status_error}
use endpoint_protocol.Exec.{◌>>=◌}
use endpoint_protocol.Protocol.Canonical.{canonical_json}
use endpoint_protocol.Storage.Replay.{seen}
use endpoint_protocol.Storage.Replay.Laws.{kept, verdict}
use endpoint_protocol.Server.State.{ServerConfig, ServerState, write_log, on_replay, try_queue}
use endpoint_protocol.Runtime.{Runtime, done as done_with}
use endpoint_protocol.Server.Access.{authenticate_client, keys_within, validate_config}
use endpoint_protocol.Server.Access.Hosted.{AreHosted, AreVerifiers, validate_config-AreHosted}
use endpoint_protocol.Server.Access.Laws.{IsAuthentic, authenticate_client-IsAuthentic}
use endpoint_protocol.Server.Accept.{
  accept_envelope_for_local, accept_inline, accept_reference, recipient_of, message_id_of,
}
use endpoint_protocol.Server.Accept.Outcome.{
  IsRemembered, reference_answer, inline_answer, accept_reference-answer, accept_inline-answer,
}
use endpoint_protocol.Server.Accept.Once.{Queued, Queued-accept}
use endpoint_protocol.Server.Handlers.{Request, request_json_object}
use endpoint_protocol.Server.Federation.{federation_messages, serve}
use endpoint_protocol.Server.Inbox.{no_frame, turn}
use endpoint_protocol.Server.Steps.{
  done, more, inbox_turn, peer_messages, queued_once, Reach-IsRemembered,
}
use endpoint_protocol.Tests.{
  fingerprint, stdlib, config, inline_envelope, reference_envelope, start, request,
}

abbrev message : Json
message = inline_envelope "x"

abbrev first : ServerState
first = (accept_envelope_for_local stdlib config 7_000_000 message start).1

-- The inbox of the recipient is open for one turn.
abbrev delivered : ServerState
delivered = (turn stdlib config 8_000_000 "bob" no_frame first).1

first_is_queued : (accept_envelope_for_local stdlib config 7_000_000 message start).0 ≡ ok "queued"
unfolding accept_envelope_for_local ◌>>=◌ on_replay try_queue write_log
first_is_queued = refl

queued_once_example :
    (accept_envelope_for_local stdlib config 9_000_000 (inline_envelope "y") delivered).0
    ≢ ok "queued"
unfolding get
queued_once_example =
    queued_once stdlib config 7_000_000 9_000_000 message (inline_envelope "y") start delivered refl
      refl first_is_queued (more done (inbox_turn 8_000_000 "bob" no_frame))

-- The other server sends the message, and the inbox is open for one turn.
abbrev received : ServerState
received =
    (serve config (federation_messages stdlib config 7_000_000 (request message none)) start).1

abbrev received_and_delivered : ServerState
received_and_delivered = (turn stdlib config 8_000_000 "bob" no_frame received).1

Reach-IsRemembered_example : IsRemembered received_and_delivered
Reach-IsRemembered_example = Reach-IsRemembered stdlib config start received_and_delivered refl (
    more (more done (peer_messages 7_000_000 (request message none)))
      (inbox_turn 8_000_000 "bob" no_frame))

Queued-accept_example : Queued stdlib 7_000_000 message start first
Queued-accept_example = Queued-accept stdlib 7_000_000 message config start first_is_queued

start-IsRemembered : IsRemembered start
start-IsRemembered = Reach-IsRemembered stdlib config start start refl done

abbrev body_of : Result String → String
body_of (ok s) = s
body_of (err e) = ""

abbrev inline_body : String
inline_body = body_of (canonical_json stdlib message)

inline_canonical : canonical_json stdlib message ≡ ok inline_body
unfolding canonical_json
inline_canonical = refl

accept_inline-answer_example :
    (accept_inline stdlib 7_000_000 message start).0
    ≡ inline_answer (seen (recipient_of message) (message_id_of message) start.replay)
accept_inline-answer_example =
    accept_inline-answer stdlib 7_000_000 message {canonical = inline_body} inline_canonical start
      start-IsRemembered

abbrev reference_body : String
reference_body = body_of (canonical_json stdlib reference_envelope)

reference_canonical : canonical_json stdlib reference_envelope ≡ ok reference_body
unfolding canonical_json
reference_canonical = refl

accept_reference-answer_example :
    (accept_reference stdlib 7_000_000 reference_envelope start).0
    ≡ reference_answer (
        verdict
          (kept (recipient_of reference_envelope) (message_id_of reference_envelope) start.replay)
          (stdlib.sha256 reference_body))
accept_reference-answer_example =
    accept_reference-answer stdlib 7_000_000 reference_envelope {canonical = reference_body}
      reference_canonical start start-IsRemembered

bob_is_let_in : authenticate_client stdlib config (str "bob") (some "Bearer token") ≡ ok tt
unfolding authenticate_client
bob_is_let_in = refl

authenticate_client-IsAuthentic_example :
    IsAuthentic stdlib config (str "bob") (some "Bearer token")
authenticate_client-IsAuthentic_example =
    authenticate_client-IsAuthentic stdlib config (str "bob") (some "Bearer token") bob_is_let_in

abbrev bodied : Json
bodied = obj (field "client_ref" (str "eve") (field "envelope" message end))

abbrev by_eve : Request
by_eve = request bodied (some "Bearer token")

eve_has_a_body : request_json_object by_eve.body ≡ ok bodied
unfolding request_json_object
eve_has_a_body = refl

eve_is_refused :
    authenticate_client stdlib config (get bodied "client_ref") by_eve.authorization
    ≡ err (raised (status_error "unauthorized" "invalid client credentials" 401))
unfolding authenticate_client get
eve_is_refused = refl

abbrev bob : Json
bob = obj (
    field "protocol_version" (str "endpoint-poc-2") (
      field "client_ref" (str "bob") (
        field "public_key_armored" (str "key") (
          field "endpoint_fingerprint" (str fingerprint)
            (field "identity_signature" (str "signature") end)))))

-- Keys of twenty bytes, and Base64 that is always read as sixteen bytes and sixteen more.
abbrev sixteen : List ℕ
sixteen = 1 ∷ 1 ∷ 1 ∷ 1 ∷ 1 ∷ 1 ∷ 1 ∷ 1 ∷ 1 ∷ 1 ∷ 1 ∷ 1 ∷ 1 ∷ 1 ∷ 1 ∷ 1 ∷ []

abbrev with_bytes : Runtime
with_bytes = record stdlib {
  b64decode = λ s. some (sixteen ++ sixteen);
  fingerprint_bytes = λ s. done_with (1 ∷ 1 ∷ 1 ∷ 1 ∷ sixteen);
}

abbrev signed_config : ServerConfig
signed_config = record config {
  hosted_identities = ("bob", bob) ∷ [];
  verify_hosted_identity_signatures = true;
}

signed_config_starts : validate_config with_bytes signed_config ≡ ok tt
unfolding validate_config
signed_config_starts = refl

validate_config-AreHosted_example :
    AreHosted with_bytes true (("bob", bob) ∷ [])
    × AreVerifiers with_bytes signed_config.client_token_hashes
    × ((keys_within signed_config.client_token_hashes signed_config.hosted_identities
          && keys_within signed_config.hosted_identities signed_config.client_token_hashes)
        ≡ true)
validate_config-AreHosted_example =
    validate_config-AreHosted with_bytes signed_config signed_config_starts
