-- ===== src/Server/Federation.antt =====
-- The federation handlers of `create_app` in endpoint/server_core.py, and its handler of errors.
use endpoint_protocol.Prelude.{ℕ, String, Bool, Option, none, some, [], ◌∷◌, if◌then◌else◌}
use endpoint_protocol.Json.{Json, str, get, has, is_obj}
use endpoint_protocol.Errors.{Result, ok, err, raised, crash, raise, status_error, safe_body}
use endpoint_protocol.Exec.{Exec, pure, lift, ◌>>=◌, ◌>>◌}
use endpoint_protocol.Runtime.{Runtime}
use endpoint_protocol.Protocol.Limits.{default_limits}
use endpoint_protocol.Protocol.Content.{validate_content_object}
use endpoint_protocol.Transport.Policy.{inbound, is_empty, validate_https_url}
use endpoint_protocol.Storage.Content.{Content, put}
use endpoint_protocol.Server.State.{ServerConfig, ServerState, write_log, on_content}
use endpoint_protocol.Server.Access.{local_identity}
use endpoint_protocol.Server.Accept.{message_id_of, content_id_of, accept_envelope_for_local}
use endpoint_protocol.Server.Handlers.{Request, request_json_object, status_reply, get_or_empty}

abbrev drop_value : Result String → Result (Unit {0})
drop_value (ok url) = ok tt
drop_value (err e) = err e

-- `envelope.get("sender_route", {}).get("server_url", "")`: what is no dict has no `get`.
unfoldable pub sender_url : Json → Result Json
unfolding get has
sender_url envelope =
    if has envelope "sender_route"
    then (if is_obj (get envelope "sender_route")
        then ok (get_or_empty (get envelope "sender_route") "server_url")
        else err (crash "AttributeError"))
    else ok (str "")

module _ (rt : Runtime) (config : ServerConfig) where
  abbrev check_url : Json → Result (Unit {0})
  check_url url = drop_value (validate_https_url rt url config.federation_policy inbound)

  abbrev check_peer_url : Option String → Result (Unit {0})
  check_peer_url none = raise (status_error "forbidden_peer" "peer identity is required" 403)
  check_peer_url (some peer) = check_url (str peer)

  -- The test of the header `endpoint-peer-url`, where there is an inbound whitelist.
  unfoldable pub check_peer : Request → Result (Unit {0})
  unfolding validate_https_url
  check_peer request =
      if is_empty config.federation_policy.inbound_whitelist
      then ok tt
      else check_peer_url request.peer_url

  abbrev check_sender_url : Result Json → Result (Unit {0})
  check_sender_url (ok url) = check_url url
  check_sender_url (err e) = err e

  -- The test of the route that an envelope claims to come from.
  unfoldable pub check_sender : Json → Result (Unit {0})
  unfolding validate_https_url sender_url
  check_sender envelope =
      if is_empty config.federation_policy.inbound_whitelist
      then ok tt
      else check_sender_url (sender_url envelope)

  unfoldable pub federation_identity : String → Request → Exec ServerState Json
  unfolding check_peer local_identity
  federation_identity client_ref request = do
    lift (check_peer request)
    lift (local_identity config client_ref)

  unfoldable pub federation_messages : ℕ → Request → Exec ServerState Json
  unfolding request_json_object check_sender accept_envelope_for_local get
  federation_messages now request = do
    envelope ← lift (request_json_object request.body)
    lift (check_sender envelope)
    status ← accept_envelope_for_local rt config now envelope
    pure (status_reply status "message_id" (message_id_of envelope))

  unfoldable pub federation_content :
      ℕ → String → (Content → Content) → Request → Exec ServerState Json
  unfolding check_peer request_json_object validate_content_object put get
  federation_content now token others request = do
    lift (check_peer request)
    content ← lift (request_json_object request.body)
    lift (validate_content_object rt content default_limits)
    status ← on_content (put rt now token others content)
    write_log "content_federated" (("content_id", content_id_of content) ∷ ("status", status) ∷ [])
    pure (status_reply status "content_id" (content_id_of content))

-- What the client of a handler sees: a status code and a body.
pub record Reply : Type 0 where
  pub status_code : ℕ
  pub body : Json

-- `endpoint_exception_handler` logs the code of the error; any other exception is the framework's
-- answer 500.
unfoldable pub reply_to : Bool → Result Json → ServerState → Reply × ServerState
unfolding safe_body
reply_to debug (ok v) s = (record { status_code = 200; body = v }, s)
reply_to debug (err (raised e)) s = (
  record { status_code = e.status_code; body = safe_body e debug },
  (write_log "error" (("code", e.code) ∷ []) s).1,
)
reply_to debug (err (crash what)) s =
    (record { status_code = 500; body = str "Internal Server Error" }, s)

unfoldable pub serve : ServerConfig → Exec ServerState Json → ServerState → Reply × ServerState
unfolding reply_to
serve config handler s = let (r, s') = handler s in reply_to config.debug_errors r s'
