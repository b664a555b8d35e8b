-- ===== src/Server/Steps.antt =====
-- The server as a step relation: every step is one request, or one turn of the loop of a WebSocket,
-- of endpoint/server_core.py. Requests of many clients and peers come in any order.
use endpoint_protocol.Prelude.{ℕ, String, ◌≡◌, ◌≢◌, ◌∙◌, sym, ap, false, true≢false, Option, []}
use endpoint_protocol.Json.{Json}
use endpoint_protocol.Errors.{Result, ok, err, raised, crash}
use endpoint_protocol.Exec.{Exec}
use endpoint_protocol.Runtime.{Runtime}
use endpoint_protocol.Storage.Content.{Content}
use endpoint_protocol.Table.{select_one}
use endpoint_protocol.Storage.Queue.Laws.{entry}
use endpoint_protocol.Storage.Replay.Laws.{kept}
use endpoint_protocol.Server.State.{ServerConfig, ServerState}
use endpoint_protocol.Server.Handlers.{
  Network, Request, health, client_discover, client_messages, client_content, client_get_content,
}
use endpoint_protocol.Server.Federation.{
  federation_identity, federation_messages, federation_content, reply_to, serve,
}
use endpoint_protocol.Server.Inbox.{Incoming, turn, websocket_inbox}
use endpoint_protocol.Server.Accept.{recipient_of, message_id_of, accept_envelope_for_local}
use endpoint_protocol.Server.Accept.Outcome.{present, IsRemembered}
use endpoint_protocol.Server.Accept.Once.{Queued-accept}
use endpoint_protocol.Server.Respects.{Keeps, Keeps-refl, Keeps-trans, Respects, Respects-write_log}
use endpoint_protocol.Server.Respects.Handlers.{
  Respects-client_discover, Respects-client_messages, Respects-client_content,
  Respects-client_get_content, Respects-federation_identity, Respects-federation_messages,
  Respects-federation_content, Respects-turn, Respects-websocket_inbox, Respects-health,
}

module _ (rt : Runtime) (config : ServerConfig) where
  -- The state that a handler and the handler of its errors leave.
  abbrev served : Exec ServerState Json → ServerState → ServerState
  served handler s = (serve config handler s).1

  pub data Step (s : ServerState) : ServerState → Type 0 where
    health_check : (now : ℕ) → Step s (health rt config now s).1
    discover :
        (network : Network) (request : Request)
        → Step s (served (client_discover rt config network request) s)
    messages :
        (now : ℕ) (network : Network) (request : Request)
        → Step s (served (client_messages rt config now network request) s)
    put_content :
        (now : ℕ) (token : String) (others : Content → Content) (request : Request)
        → Step s (served (client_content rt config now token others request) s)
    read_content :
        (now : ℕ) (content_id : String) (request : Request)
        → Step s (served (client_get_content rt config now content_id request) s)
    identity :
        (client_ref : String) (request : Request)
        → Step s (served (federation_identity rt config client_ref request) s)
    peer_messages :
        (now : ℕ) (request : Request)
        → Step s (served (federation_messages rt config now request) s)
    peer_content :
        (now : ℕ) (token : String) (others : Content → Content) (request : Request)
        → Step s (served (federation_content rt config now token others request) s)
    connect :
        (client_ref : String) (authorization : Option String)
        → Step s (websocket_inbox rt config client_ref authorization [] s).1
    inbox_turn :
        (now : ℕ) (client_ref : String) (incoming : Incoming)
        → Step s (turn rt config now client_ref incoming s).1

  pub data Reach (s : ServerState) : ServerState → Type 0 where
    done : Reach s s
    more : {t u : ServerState} → Reach s t → Step t u → Reach s u

  Keeps-reply :
      (r : Result Json) (s t : ServerState)
      → Keeps s t
      → Keeps s (reply_to config.debug_errors r t).1
  unfolding reply_to
  Keeps-reply (ok v) s t k = k
  Keeps-reply (err (raised e)) s t k = Keeps-trans k ((Respects-write_log "error" _).at t)
  Keeps-reply (err (crash what)) s t k = k

  Keeps-serve :
      (handler : Exec ServerState Json) (s : ServerState)
      → Respects handler
      → Keeps s (served handler s)
  unfolding serve
  Keeps-serve handler s h = Keeps-reply (handler s).0 s (handler s).1 (h.at s)

  Keeps-step : (s t : ServerState) → Step s t → Keeps s t
  Keeps-step s _ (health_check now) = (Respects-health rt config now).at s
  Keeps-step s _ (discover network request) =
      Keeps-serve _ s (Respects-client_discover rt config network request)
  Keeps-step s _ (messages now network request) =
      Keeps-serve _ s (Respects-client_messages rt config now network request)
  Keeps-step s _ (put_content now token others request) =
      Keeps-serve _ s (Respects-client_content rt config now token others request)
  Keeps-step s _ (read_content now content_id request) =
      Keeps-serve _ s (Respects-client_get_content rt config now content_id request)
  Keeps-step s _ (identity client_ref request) =
      Keeps-serve _ s (Respects-federation_identity rt config client_ref request)
  Keeps-step s _ (peer_messages now request) =
      Keeps-serve _ s (Respects-federation_messages rt config now request)
  Keeps-step s _ (peer_content now token others request) =
      Keeps-serve _ s (Respects-federation_content rt config now token others request)
  Keeps-step s _ (connect client_ref authorization) =
      (Respects-websocket_inbox rt config client_ref authorization []).at s
  Keeps-step s _ (inbox_turn now client_ref incoming) =
      (Respects-turn rt config now client_ref incoming).at s

  Keeps-Reach : (s t : ServerState) → Reach s t → Keeps s t
  Keeps-Reach s _ done = Keeps-refl s
  Keeps-Reach s _ (more {t} {u} run step) = Keeps-trans (Keeps-Reach s t run) (Keeps-step t u step)

  -- Whatever a server that starts with an empty queue has in its queue has been remembered, after any
  -- requests in any order.
  pub Reach-IsRemembered : (s t : ServerState) → s.queue ≡ [] → Reach s t → IsRemembered t
  unfolding select_one
  Reach-IsRemembered s t empty run =
      (Keeps-Reach s t run).remembered
        (λ c m p. absurd (true≢false (sym p ∙ ap (λ rows. present (entry c m rows)) empty)))

  -- Two messages of one recipient with one message id are never both answered `queued`, whatever
  -- the server does in between, and whatever else the envelopes say.
  pub queued_once :
      (now later : ℕ) (first second : Json) (s t : ServerState)
      → recipient_of second ≡ recipient_of first
      → message_id_of second ≡ message_id_of first
      → (accept_envelope_for_local rt config now first s).0 ≡ ok "queued"
      → Reach (accept_envelope_for_local rt config now first s).1 t
      → (accept_envelope_for_local rt config later second t).0 ≢ ok "queued"
  queued_once now later first second s t c m h run again =
      let before = Queued-accept rt now first config s h in
      let after = Queued-accept rt later second config t again in
      let memory =
        (Keeps-Reach _ t run).memory (recipient_of first) (message_id_of first) before.known in
      let unknown : present (kept (recipient_of first) (message_id_of first) t.replay) ≡ false =
        rw (← c, ← m) after.unknown in
      true≢false (sym (ap present memory ∙ before.known) ∙ unknown)
