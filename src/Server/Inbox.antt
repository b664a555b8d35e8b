-- ===== src/Server/Inbox.antt =====
-- `websocket_inbox` of endpoint/server_core.py: the delivery of leased messages and the frames that
-- a client sends. A frame is what `_receive_wss_frame` read; the socket is the list of what was sent.
use endpoint_protocol.Prelude.{
  ℕ, String, Bool, true, false, not, ◌&&◌, ◌⊎◌, inl, inr, Option, none, some, List, [], ◌∷◌, ◌++◌,
  if◌then◌else◌,
}
use endpoint_protocol.Json.{Json, str, obj, end, field, get, is_obj, is_str, is_the_text, text}
use endpoint_protocol.Errors.{ok, err, raised, crash}
use endpoint_protocol.Exec.{Exec, pure, lift, ◌>>=◌, ◌>>◌}
use endpoint_protocol.Runtime.{Runtime}
use endpoint_protocol.Transport.Policy.{contains}
use endpoint_protocol.Storage.Queue.{
  QueueRow, QueueRecord, deliverable, lease_row, ack, reject, queue_row_as_record,
  queue_rows_as_records,
}
use endpoint_protocol.Storage.Content.{prune_expired}
use endpoint_protocol.Server.State.{ServerConfig, ServerState, write_log, on_content, on_queue}
use endpoint_protocol.Server.Access.{authenticate_client}
use endpoint_protocol.Server.Accept.{seconds}

abbrev pub safe_reject_reasons : List String
safe_reject_reasons =
    "malformed_ciphertext" ∷ "wrong_recipient" ∷ "signature_invalid" ∷ "outer_inner_mismatch"
    ∷ "delivery_claim_invalid" ∷ "content_hash_mismatch" ∷ "content_unavailable" ∷ "content_expired"
    ∷ "invalid_envelope" ∷ []

-- `_safe_reject_reason`
unfoldable pub safe_reject_reason : Json → String
unfolding contains
safe_reject_reason (str reason) =
    if contains reason safe_reject_reasons then reason else "invalid_envelope"
safe_reject_reason _ = "invalid_envelope"

abbrev message_frame : Json → Json
message_frame envelope = obj (field "type" (str "message") (field "envelope" envelope end))

-- `_send_wss_result`
abbrev pub result_frame : String → String → Bool → Json
result_frame frame_type message_id accepted = obj (
    field "type" (str frame_type) (
      field "message_id" (str message_id)
        (field "status" (str (if accepted then "ok" else "not_found")) end)))

module _ (rt : Runtime) (config : ServerConfig) where
  -- What is sent for a message that `lease` returned.
  unfoldable pub send_leased : String → Option QueueRow → Exec ServerState (List Json)
  unfolding queue_row_as_record
  send_leased client_ref none = pure []
  send_leased client_ref (some row) = do
    leased ← lift (queue_row_as_record rt row)
    write_log "message_leased" (("client_ref", client_ref) ∷ ("message_id", row.message_id) ∷ [])
    pure (message_frame leased.envelope ∷ [])

  -- The loop of `_deliver_available`, with the frames that it sends.
  unfoldable pub deliver_each : ℕ → String → List QueueRecord → Exec ServerState (List Json)
  unfolding lease_row send_leased
  deliver_each now client_ref [] = pure []
  deliver_each now client_ref (r ∷ rest) = do
    leased ←
        on_queue
          (lease_row (seconds now) (seconds now) client_ref r.message_id config.lease_seconds)
    sent ← send_leased client_ref leased
    others ← deliver_each now client_ref rest
    pure (sent ++ others)

  unfoldable pub deliver_available : ℕ → String → Exec ServerState (List Json)
  unfolding deliverable queue_rows_as_records deliver_each
  deliver_available now client_ref = do
    rows ← on_queue (deliverable (seconds now) client_ref)
    available ← lift (queue_rows_as_records rt rows)
    deliver_each now client_ref available

  unfoldable pub log_if : Bool → String → List (String × String) → Exec ServerState (Unit {0})
  log_if true event details = write_log event details
  log_if false event details = pure tt

  unfoldable pub handle_ack : ℕ → String → String → Exec ServerState (List Json)
  unfolding ack prune_expired log_if
  handle_ack now client_ref message_id = do
    accepted ← on_queue (ack client_ref message_id)
    _ ← on_content (prune_expired rt now)
    log_if accepted "message_acked" (("client_ref", client_ref) ∷ ("message_id", message_id) ∷ [])
    pure (result_frame "ack_result" message_id accepted ∷ [])

  unfoldable pub handle_reject : ℕ → String → String → Json → Exec ServerState (List Json)
  unfolding reject prune_expired log_if safe_reject_reason
  handle_reject now client_ref message_id reason = do
    accepted ← on_queue (
        reject config.rejected_policy (seconds now) client_ref message_id
          (safe_reject_reason reason))
    _ ← on_content (prune_expired rt now)
    log_if accepted "message_rejected" (
        ("client_ref", client_ref)
        ∷ ("message_id", message_id)
        ∷ ("reason", safe_reject_reason reason)
        ∷ [])
    pure (result_frame "reject_result" message_id accepted ∷ [])

  -- The body of the loop behind `_receive_wss_frame`; a frame that is no dict was read as None.
  unfoldable pub handle_frame : ℕ → String → Json → Exec ServerState (List Json)
  unfolding handle_ack handle_reject get
  handle_frame now client_ref frame =
      let message_id = text (get frame "message_id") in
      if not (is_obj frame && is_str (get frame "message_id"))
      then pure []
      else if is_the_text (get frame "type") "ack"
      then handle_ack now client_ref message_id
      else if is_the_text (get frame "type") "reject"
      then handle_reject now client_ref message_id (get frame "reason")
      else pure []

-- What one turn of the loop reads: nothing that is a frame, a frame, or the end of the connection.
pub data Incoming : Type 0 where
  no_frame : Incoming
  frame : Json → Incoming
  disconnected : Incoming

module _ (rt : Runtime) (config : ServerConfig) where
  unfoldable pub receive : ℕ → String → Incoming → Exec ServerState (List Json)
  unfolding handle_frame
  receive now client_ref no_frame = pure []
  receive now client_ref (frame v) = handle_frame rt config now client_ref v
  receive now client_ref disconnected = do
    write_log "wss_disconnected" (("client_ref", client_ref) ∷ [])
    pure []

  unfoldable pub turn : ℕ → String → Incoming → Exec ServerState (List Json)
  unfolding deliver_available receive
  turn now client_ref incoming = do
    delivered ← deliver_available rt config now client_ref
    answered ← receive now client_ref incoming
    pure (delivered ++ answered)

  -- The loop over what arrives, each turn with its clock.
  unfoldable pub inbox_loop : String → List (ℕ × Incoming) → Exec ServerState (List Json)
  unfolding turn
  inbox_loop client_ref [] = pure []
  inbox_loop client_ref ((now, disconnected) ∷ rest) = turn now client_ref disconnected
  inbox_loop client_ref ((now, incoming) ∷ rest) = do
    sent ← turn now client_ref incoming
    others ← inbox_loop client_ref rest
    pure (sent ++ others)

  abbrev pub close_code : ℕ
  close_code = 1008

  -- The whole endpoint: refused credentials close the socket with a code, before anything is sent.
  unfoldable pub websocket_inbox :
      String → Option String → List (ℕ × Incoming) → Exec ServerState (ℕ ⊎ List Json)
  unfolding authenticate_client inbox_loop
  websocket_inbox client_ref authorization events =
      elim (authenticate_client rt config (str client_ref) authorization) [
        | err (raised e) ↦ pure (inl close_code)
        | err (crash what) ↦ lift (err (crash what))
        | ok done ↦ do
          write_log "wss_connected" (("client_ref", client_ref) ∷ [])
          sent ← inbox_loop client_ref events
          pure (inr sent)
      ]
