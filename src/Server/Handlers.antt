-- ===== src/Server/Handlers.antt =====
-- The HTTP handlers of `create_app` in endpoint/server_core.py. A request carries its body as
-- `request.json()` reads it; other servers are a function from requests to answers.
use endpoint_protocol.Prelude.{
  ℕ, String, Bool, false, not, ◌&&◌, ◌||◌, Option, none, some, List, [], ◌∷◌, leb, ltb, ◌==◌,
  if◌then◌else◌,
}
use endpoint_protocol.Json.{Json, null, str, obj, end, field, get, has, is_obj, is_text, text}
use endpoint_protocol.Errors.{
  EndpointError, Result, ok, raise, require, require_status, plain_error, detail_error,
  status_error,
}
use endpoint_protocol.Exec.{Exec, pure, lift, fail, gets, modify, ◌>>=◌, ◌>>◌}
use endpoint_protocol.Runtime.{Runtime}
use endpoint_protocol.Protocol.Limits.{default_limits}
use endpoint_protocol.Protocol.Parts.{validate_identity_envelope}
use endpoint_protocol.Protocol.Content.{validate_content_object}
use endpoint_protocol.Protocol.Delivery.{
  validate_delivery_envelope, delivery_envelope_uses_content_reference,
}
use endpoint_protocol.Transport.Policy.{outbound, validate_https_url}
use endpoint_protocol.Storage.Content.{Content, put, get_content, is_expired, prune_expired}
use endpoint_protocol.Server.State.{ServerConfig, ServerState, Transfer, write_log, on_content}
use endpoint_protocol.Server.Access.{authenticate_client, is_local_server_url}
use endpoint_protocol.Server.Accept.{message_id_of, content_id_of, accept_envelope_for_local}

-- A body: text that is no JSON, with the class of the exception, or its value.
pub data Body : Type 0 where
  no_json : String → Body
  json : Json → Body

pub record Request : Type 0 where
  pub authorization : Option String
  pub peer_url : Option String
  pub inbox_ref : Option String
  pub body : Body

-- What a call of another server ends in: an `httpx.RequestError` of some class, or a response with
-- its status, the length of its content and its body.
pub data Response : Type 0 where
  request_error : String → Response
  response : (status_code content_length : ℕ) (body : Body) → Response

pub data PeerCall : Type 0 where
  get_identity : (server_url client_ref : String) → PeerCall
  post_content : (server_url own_url : String) (content : Json) → PeerCall
  post_message : (server_url : String) (envelope : Json) → PeerCall

abbrev pub Network : Type 0
Network = PeerCall → Response

-- `_request_json_object`
unfoldable pub request_json_object : Body → Result Json
request_json_object (no_json what) =
    raise (detail_error "invalid_envelope" "invalid JSON request body" (some what))
request_json_object (json (obj fs)) = ok (obj fs)
request_json_object (json _) =
    raise (plain_error "invalid_envelope" "JSON request body must be an object")

abbrev unreachable : String → String → EndpointError
unreachable what message = record (status_error "delivery_failed" message 502) {
  detail = some what;
}

-- `except httpx.RequestError`, with its message, and `_require_success_response`, with another one.
unfoldable pub require_success : Response → String → String → Result (Unit {0})
require_success (request_error what) unsent message = raise (unreachable what unsent)
require_success (response status_code content_length body) unsent message =
    require_status (leb 200 status_code && ltb status_code 300) "delivery_failed" message 502

-- `_response_json_object`
unfoldable pub response_json_object : Response → ℕ → String → Result Json
response_json_object (request_error what) max_size message = raise (unreachable what message)
response_json_object (response status_code content_length body) max_size message =
    if leb content_length max_size
    then elim body [
      | no_json what ↦
          raise (detail_error "invalid_envelope" "peer returned invalid JSON" (some what))
      | json v ↦
          if is_obj v
          then ok v
          else raise (plain_error "invalid_envelope" "peer JSON response must be an object")
    ]
    else raise (plain_error "metadata_too_large" message)

abbrev pub status_reply : String → String → String → Json
status_reply status key id = obj (field "status" (str status) (field key (str id) end))

-- `body.get("peer_server_url", "")`
abbrev pub get_or_empty : Json → String → Json
get_or_empty v key = if has v key then get v key else str ""

-- `request.headers.get(…)` as a value
abbrev pub header : Option String → Json
header none = null
header (some s) = str s

abbrev found_content : Option Json → Result Json
found_content none = raise (status_error "content_unavailable" "content is not available" 404)
found_content (some content) = ok content

unfoldable pub has_transfer : Transfer → List Transfer → Bool
has_transfer t [] = false
has_transfer (d, c, h) ((d', c', h') ∷ rest) =
    (d' == d && (c' == c && h' == h)) || has_transfer (d, c, h) rest

module _ (rt : Runtime) (config : ServerConfig) where
  unfoldable pub health : ℕ → Exec ServerState (Unit {0})
  unfolding prune_expired
  health now = do _ ← on_content (prune_expired rt now); pure tt

  unfoldable pub client_discover : Network → Request → Exec ServerState Json
  unfolding request_json_object authenticate_client validate_https_url require_success
      response_json_object validate_identity_envelope get has
  client_discover network request = do
    body ← lift (request_json_object request.body)
    lift (authenticate_client rt config (get body "client_ref") request.authorization)
    peer ← lift (
        validate_https_url rt (get_or_empty body "peer_server_url") config.federation_policy
          outbound)
    lift (
        require (is_text (get body "peer_client_ref")) "invalid_envelope"
          "peer_client_ref is required")
    let answer = network (get_identity peer (text (get body "peer_client_ref")))
    lift (require_success answer "identity discovery failed" "identity discovery failed")
    identity ← lift (
        response_json_object answer default_limits.max_identity_bytes
          "identity response is too large")
    lift (validate_identity_envelope rt identity default_limits)
    write_log "identity_discovered" (
        ("client_ref", text (get body "client_ref"))
        ∷ ("peer_client_ref", text (get body "peer_client_ref"))
        ∷ [])
    pure identity

  -- The upload itself, behind the lookup of the content.
  unfoldable pub upload_content : Network → Transfer → Option Json → Exec ServerState (Unit {0})
  unfolding require_success
  upload_content network (destination, content_id, hash) none =
      fail (status_error "content_unavailable" "referenced content is not available" 503)
  upload_content network (destination, content_id, hash) (some content) = do
    lift (
        require_success (network (post_content destination config.server_url content))
          "federation delivery failed" "federation content delivery failed")
    modify (λ s. record s {
      content_transfers = (destination, content_id, hash) ∷ s.content_transfers;
    })

  -- The upload of a referenced content to the destination, once for each transfer key.
  unfoldable pub transfer_content : ℕ → Network → String → Json → Exec ServerState (Unit {0})
  unfolding is_expired get_content upload_content has_transfer get
  transfer_content now network destination envelope = do
    over ← on_content (is_expired rt now (content_id_of envelope))
    lift (require_status (not over) "content_expired" "referenced content has expired" 410)
    let key : Transfer = (destination, content_id_of envelope, text (get envelope "content_sha256"))
    sent ← gets (λ s. has_transfer key s.content_transfers)
    if sent then pure tt else do
      found ← on_content (get_content rt now (content_id_of envelope))
      upload_content network key found

  unfoldable pub proxy_message : ℕ → Network → String → Json → Exec ServerState Json
  unfolding validate_https_url delivery_envelope_uses_content_reference transfer_content
      require_success get
  proxy_message now network client_ref envelope = do
    destination ← lift (
        validate_https_url rt (get (get envelope "recipient_route") "server_url")
          config.federation_policy outbound)
    is_reference ← lift (delivery_envelope_uses_content_reference rt envelope)
    if is_reference then transfer_content now network destination envelope else pure tt
    lift (
        require_success (network (post_message destination envelope)) "federation delivery failed"
          "federation delivery failed")
    write_log "message_proxied"
        (("client_ref", client_ref) ∷ ("message_id", message_id_of envelope) ∷ [])
    pure (status_reply "proxied" "message_id" (message_id_of envelope))

  unfoldable pub accept_local : ℕ → String → Json → Exec ServerState Json
  unfolding accept_envelope_for_local get
  accept_local now client_ref envelope = do
    status ← accept_envelope_for_local rt config now envelope
    write_log "message_routed_local"
        (("client_ref", client_ref) ∷ ("message_id", message_id_of envelope) ∷ [])
    pure (status_reply status "message_id" (message_id_of envelope))

  unfoldable pub client_messages : ℕ → Network → Request → Exec ServerState Json
  unfolding request_json_object authenticate_client validate_delivery_envelope is_local_server_url
      proxy_message accept_local get
  client_messages now network request = do
    body ← lift (request_json_object request.body)
    lift (authenticate_client rt config (get body "client_ref") request.authorization)
    let envelope = get body "envelope"
    lift (validate_delivery_envelope rt envelope default_limits)
    is_local ←
        lift
          (is_local_server_url rt config (text (get (get envelope "recipient_route") "server_url")))
    if is_local
        then accept_local now (text (get body "client_ref")) envelope
        else proxy_message now network (text (get body "client_ref")) envelope

  unfoldable pub client_content : ℕ → String → (Content → Content) → Request → Exec ServerState Json
  unfolding request_json_object authenticate_client validate_content_object put get
  client_content now token others request = do
    body ← lift (request_json_object request.body)
    lift (authenticate_client rt config (get body "client_ref") request.authorization)
    let content = get body "content"
    lift (validate_content_object rt content default_limits)
    status ← on_content (put rt now token others content)
    write_log "content_stored" (
        ("client_ref", text (get body "client_ref"))
        ∷ ("content_id", content_id_of content)
        ∷ ("status", status)
        ∷ [])
    pure (status_reply status "content_id" (content_id_of content))

  unfoldable pub client_get_content : ℕ → String → Request → Exec ServerState Json
  unfolding authenticate_client is_expired get_content
  client_get_content now content_id request = do
    lift (authenticate_client rt config (header request.inbox_ref) request.authorization)
    over ← on_content (is_expired rt now content_id)
    found ← on_content (get_content rt now content_id)
    lift (require_status (not over) "content_expired" "content is no longer available" 410)
    lift (found_content found)
