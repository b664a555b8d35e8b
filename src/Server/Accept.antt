-- ===== src/Server/Accept.antt =====
-- `accept_envelope_for_local` of endpoint/server_core.py.
pub mod Outcome
pub mod Keeps
pub mod Once
use endpoint_protocol.Prelude.{
  ℕ, ◌/◌, String, Bool, true, false, not, ◌&&◌, Option, none, some, List, [], ◌∷◌, ◌==◌,
  if◌then◌else◌,
}
use endpoint_protocol.Json.{Json, get, text}
use endpoint_protocol.Errors.{
  EndpointError, Result, ok, raise, require_status, require_error, plain_error, status_error,
}
use endpoint_protocol.Exec.{Exec, pure, lift, fail, ◌>>=◌, ◌>>◌}
use endpoint_protocol.Runtime.{Runtime}
use endpoint_protocol.Protocol.Canonical.{canonical_json}
use endpoint_protocol.Protocol.Limits.{default_limits}
use endpoint_protocol.Protocol.Delivery.{
  validate_delivery_envelope, delivery_envelope_uses_content_reference,
}
use endpoint_protocol.Storage.Queue.{add}
use endpoint_protocol.Storage.Replay.{Delivery, new, same, conflict, remember, remember_delivery}
use endpoint_protocol.Storage.Content.{get_content, is_expired}
use endpoint_protocol.Server.State.{
  ServerConfig, ServerState, write_log, on_content, on_replay, try_queue,
}
use endpoint_protocol.Server.Access.{local_identity}

-- The clock of the server is in microseconds; what it writes as ISO text has whole seconds.
abbrev pub seconds : ℕ → ℕ
seconds now = now / 1_000_000

abbrev pub recipient_of : Json → String
recipient_of envelope = text (get (get envelope "recipient_route") "client_ref")

abbrev pub message_id_of : Json → String
message_id_of envelope = text (get envelope "message_id")

abbrev pub content_id_of : Json → String
content_id_of envelope = text (get envelope "content_id")

abbrev pub duplicate : EndpointError
duplicate = status_error "duplicate_message_id" "duplicate message id" 409

abbrev pub conflicting : EndpointError
conflicting =
    status_error "duplicate_message_id" "message id is bound to different delivery data" 409

-- The content that a reference names must be there, unexpired, with the hash of the envelope.
abbrev pub check_found : Json → Option Json → Result (Unit {0})
check_found envelope none =
    raise (status_error "content_unavailable" "referenced content is not available" 503)
check_found envelope (some content) =
    require_error (text (get content "content_sha256") == text (get envelope "content_sha256"))
      (plain_error "content_hash_mismatch" "referenced content hash does not match envelope")

module _ (rt : Runtime) where
  unfoldable pub check_content : ℕ → Json → Exec ServerState (Unit {0})
  unfolding is_expired get_content get
  check_content now envelope = do
    over ← on_content (is_expired rt now (content_id_of envelope))
    lift (require_status (not over) "content_expired" "referenced content has expired" 410)
    found ← on_content (get_content rt now (content_id_of envelope))
    lift (check_found envelope found)

  -- The last part: the queue and the log.
  unfoldable pub enqueue : ℕ → Json → Exec ServerState String
  unfolding add get
  enqueue now envelope = do
    added ← try_queue (add rt (seconds now) (recipient_of envelope) envelope)
    lift (require_error added duplicate)
    write_log "message_queued"
        (("client_ref", recipient_of envelope) ∷ ("message_id", message_id_of envelope) ∷ [])
    pure "queued"

  unfoldable pub after_replay : ℕ → Json → Delivery → Exec ServerState String
  unfolding enqueue
  after_replay now envelope new = enqueue now envelope
  after_replay now envelope same = pure "already_queued"
  after_replay now envelope conflict = fail conflicting

  -- The replay store and the queue, with a reference and inline.
  unfoldable pub accept_reference : ℕ → Json → Exec ServerState String
  unfolding canonical_json remember_delivery after_replay get
  accept_reference now envelope = do
    canonical ← lift (canonical_json rt envelope)
    state ← on_replay (
        remember_delivery (seconds now) (recipient_of envelope) (message_id_of envelope)
          (rt.sha256 canonical))
    after_replay now envelope state

  unfoldable pub accept_inline : ℕ → Json → Exec ServerState String
  unfolding remember enqueue get
  accept_inline now envelope = do
    is_new ← on_replay (remember (seconds now) (recipient_of envelope) (message_id_of envelope))
    lift (require_error is_new duplicate)
    enqueue now envelope

  unfoldable pub accept_envelope_for_local : ServerConfig → ℕ → Json → Exec ServerState String
  unfolding validate_delivery_envelope local_identity delivery_envelope_uses_content_reference
      check_content accept_reference accept_inline get
  accept_envelope_for_local config now envelope = do
    lift (validate_delivery_envelope rt envelope default_limits)
    _ ← lift (local_identity config (recipient_of envelope))
    is_reference ← lift (delivery_envelope_uses_content_reference rt envelope)
    if is_reference
        then (do check_content now envelope; accept_reference now envelope)
        else accept_inline now envelope
