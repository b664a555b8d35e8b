-- ===== src/Server/Respects/Handlers.antt =====
-- Every handler of endpoint/server_core.py respects the stores.
use endpoint_protocol.Prelude.{
  ℕ, String, ◌≡◌, refl, Bool, true, false, Option, none, some, List, [], ◌∷◌, ◌++◌, if◌then◌else◌,
}
use endpoint_protocol.Json.{Json, str}
use endpoint_protocol.Exec.{Exec, pure, ◌>>=◌}
use endpoint_protocol.Runtime.{Runtime}
use endpoint_protocol.Storage.Content.{Content}
use endpoint_protocol.Storage.Queue.{QueueRow, QueueRecord}
use endpoint_protocol.Errors.{Result, ok, err, raised, crash}
use endpoint_protocol.Server.State.{ServerConfig, ServerState, Transfer}
use endpoint_protocol.Server.Handlers.{
  Network, Request, health, client_discover, upload_content, transfer_content, proxy_message,
  accept_local, client_messages, client_content, client_get_content,
}
use endpoint_protocol.Server.Federation.{
  federation_identity, federation_messages, federation_content,
}
use endpoint_protocol.Server.Inbox.{
  Incoming, no_frame, frame, disconnected, send_leased, deliver_each, deliver_available, log_if,
  handle_ack, handle_reject, handle_frame, receive, turn, inbox_loop, websocket_inbox,
}
use endpoint_protocol.Server.Access.{authenticate_client}
use endpoint_protocol.Server.Accept.{seconds}
use endpoint_protocol.Server.Accept.Keeps.{Respects-accept}
use endpoint_protocol.Server.Respects.{
  Respects, Respects-bind, Respects-pure, Respects-lease, respects_rules,
}

Respects-if :
    {A : Type 0} (b : Bool) (m n : Exec ServerState A)
    → Respects m
    → Respects n
    → Respects (if b then m else n)
Respects-if true m n hm hn = hm
Respects-if false m n hm hn = hn

-- What two methods send, one after the other.
Respects-append :
    (m n : Exec ServerState (List Json))
    → Respects m
    → Respects n
    → Respects (do a ← m; b ← n; pure (a ++ b))
Respects-append m n hm hn =
    Respects-bind _ _ hm (λ a. Respects-bind _ _ hn (λ b. Respects-pure (a ++ b)))

module _ (rt : Runtime) (config : ServerConfig) where
  pub Respects-health : (now : ℕ) → Respects (health rt config now)
  unfolding health
  Respects-health now = search respects_rules

  pub Respects-client_discover :
      (network : Network) (request : Request) → Respects (client_discover rt config network request)
  unfolding client_discover
  Respects-client_discover network request = search respects_rules depth 12

  Respects-upload :
      (network : Network) (t : Transfer) (found : Option Json)
      → Respects (upload_content rt config network t found)
  unfolding upload_content ◌>>=◌
  Respects-upload network (d, c, h) none = search respects_rules
  Respects-upload network (d, c, h) (some content) = search respects_rules

  Respects-transfer :
      (now : ℕ) (network : Network) (destination : String) (envelope : Json)
      → Respects (transfer_content rt config now network destination envelope)
  unfolding transfer_content
  Respects-transfer now network destination envelope =
      search (respects_rules, Respects-if, Respects-upload) depth 12

  Respects-proxy :
      (now : ℕ) (network : Network) (client_ref : String) (envelope : Json)
      → Respects (proxy_message rt config now network client_ref envelope)
  unfolding proxy_message
  Respects-proxy now network client_ref envelope =
      search (respects_rules, Respects-if, Respects-transfer) depth 12

  Respects-accept_local :
      (now : ℕ) (client_ref : String) (envelope : Json)
      → Respects (accept_local rt config now client_ref envelope)
  unfolding accept_local
  Respects-accept_local now client_ref envelope = search (respects_rules, Respects-accept)

  pub Respects-client_messages :
      (now : ℕ) (network : Network) (request : Request)
      → Respects (client_messages rt config now network request)
  unfolding client_messages
  Respects-client_messages now network request =
      search (respects_rules, Respects-if, Respects-proxy, Respects-accept_local) depth 12

  pub Respects-client_content :
      (now : ℕ) (token : String) (others : Content → Content) (request : Request)
      → Respects (client_content rt config now token others request)
  unfolding client_content
  Respects-client_content now token others request = search respects_rules depth 12

  pub Respects-client_get_content :
      (now : ℕ) (content_id : String) (request : Request)
      → Respects (client_get_content rt config now content_id request)
  unfolding client_get_content
  Respects-client_get_content now content_id request = search respects_rules

  pub Respects-federation_identity :
      (client_ref : String) (request : Request)
      → Respects (federation_identity rt config client_ref request)
  unfolding federation_identity
  Respects-federation_identity client_ref request = search respects_rules

  pub Respects-federation_messages :
      (now : ℕ) (request : Request) → Respects (federation_messages rt config now request)
  unfolding federation_messages
  Respects-federation_messages now request = search (respects_rules, Respects-accept)

  pub Respects-federation_content :
      (now : ℕ) (token : String) (others : Content → Content) (request : Request)
      → Respects (federation_content rt config now token others request)
  unfolding federation_content
  Respects-federation_content now token others request = search respects_rules depth 12

  Respects-send :
      (client_ref : String) (found : Option QueueRow)
      → Respects (send_leased rt config client_ref found)
  unfolding send_leased
  Respects-send client_ref none = search respects_rules
  Respects-send client_ref (some row) = search respects_rules

  Respects-deliver_each :
      (now : ℕ) (client_ref : String) (rows : List QueueRecord)
      → Respects (deliver_each rt config now client_ref rows)
  unfolding deliver_each
  Respects-deliver_each now client_ref [] = search respects_rules
  Respects-deliver_each now client_ref (r ∷ rest) =
      Respects-bind _ _ (Respects-lease (seconds now) (seconds now) client_ref r.message_id _)
        (λ leased. Respects-bind _ _ (Respects-send client_ref leased) (λ sent.
          Respects-bind _ _ (Respects-deliver_each now client_ref rest)
            (λ others. Respects-pure (sent ++ others))))

  Respects-deliver :
      (now : ℕ) (client_ref : String) → Respects (deliver_available rt config now client_ref)
  unfolding deliver_available
  Respects-deliver now client_ref = search (respects_rules, Respects-deliver_each)

  Respects-log_if :
      (b : Bool) (event : String) (details : List (String × String))
      → Respects (log_if rt config b event details)
  unfolding log_if
  Respects-log_if true event details = search respects_rules
  Respects-log_if false event details = search respects_rules

  Respects-handle_ack :
      (now : ℕ) (client_ref message_id : String)
      → Respects (handle_ack rt config now client_ref message_id)
  unfolding handle_ack
  Respects-handle_ack now client_ref message_id = search (respects_rules, Respects-log_if)

  Respects-handle_reject :
      (now : ℕ) (client_ref message_id : String) (reason : Json)
      → Respects (handle_reject rt config now client_ref message_id reason)
  unfolding handle_reject
  Respects-handle_reject now client_ref message_id reason = search (respects_rules, Respects-log_if)

  Respects-handle_frame :
      (now : ℕ) (client_ref : String) (v : Json)
      → Respects (handle_frame rt config now client_ref v)
  unfolding handle_frame
  Respects-handle_frame now client_ref v =
      search (respects_rules, Respects-if, Respects-handle_ack, Respects-handle_reject)

  Respects-receive :
      (now : ℕ) (client_ref : String) (incoming : Incoming)
      → Respects (receive rt config now client_ref incoming)
  unfolding receive
  Respects-receive now client_ref no_frame = search respects_rules
  Respects-receive now client_ref (frame v) = Respects-handle_frame now client_ref v
  Respects-receive now client_ref disconnected = search respects_rules

  pub Respects-turn :
      (now : ℕ) (client_ref : String) (incoming : Incoming)
      → Respects (turn rt config now client_ref incoming)
  unfolding turn
  Respects-turn now client_ref incoming =
      search (respects_rules, Respects-deliver, Respects-receive)

  loop_over :
      (now : ℕ) (client_ref : String) (incoming : Incoming) (rest : List (ℕ × Incoming))
      → Respects (inbox_loop rt config client_ref rest)
      → Respects (inbox_loop rt config client_ref ((now, incoming) ∷ rest))
  unfolding inbox_loop
  loop_over now client_ref no_frame rest others =
      Respects-append _ _ (Respects-turn now client_ref no_frame) others
  loop_over now client_ref (frame v) rest others =
      Respects-append _ _ (Respects-turn now client_ref (frame v)) others
  loop_over now client_ref disconnected rest others = Respects-turn now client_ref disconnected

  Respects-inbox_loop :
      (client_ref : String) (events : List (ℕ × Incoming))
      → Respects (inbox_loop rt config client_ref events)
  unfolding inbox_loop
  Respects-inbox_loop client_ref [] = search respects_rules
  Respects-inbox_loop client_ref ((now, incoming) ∷ rest) =
      loop_over now client_ref incoming rest (Respects-inbox_loop client_ref rest)

  admitted_or_closed :
      (client_ref : String) (authorization : Option String) (events : List (ℕ × Incoming))
      → (access : Result (Unit {0}))
      → authenticate_client rt config (str client_ref) authorization ≡ access
      → Respects (websocket_inbox rt config client_ref authorization events)
  unfolding websocket_inbox
  admitted_or_closed client_ref authorization events (ok done) e =
      rw (e, websocket_inbox) (search (respects_rules, Respects-inbox_loop))
  admitted_or_closed client_ref authorization events (err (raised x)) e =
      rw (e, websocket_inbox) (search respects_rules)
  admitted_or_closed client_ref authorization events (err (crash what)) e =
      rw (e, websocket_inbox) (search respects_rules)

  pub Respects-websocket_inbox :
      (client_ref : String) (authorization : Option String) (events : List (ℕ × Incoming))
      → Respects (websocket_inbox rt config client_ref authorization events)
  Respects-websocket_inbox client_ref authorization events =
      admitted_or_closed client_ref authorization events _ refl
