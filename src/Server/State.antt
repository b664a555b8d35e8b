-- ===== src/Server/State.antt =====
-- `ServerConfig` and the state of `ServerState`, in endpoint/server_core.py.
use endpoint_protocol.Prelude.{ℕ, String, Bool, List, [], ◌∷◌, ◌++◌}
use endpoint_protocol.Json.{Json}
use endpoint_protocol.Errors.{Result, ok, err}
use endpoint_protocol.Exec.{Exec}
use endpoint_protocol.Dict.{Dict}
use endpoint_protocol.Transport.Policy.{FederationPolicy}
use endpoint_protocol.Storage.Queue.{Rows}
use endpoint_protocol.Storage.Replay.{Replays}
use endpoint_protocol.Storage.Content.{Content}

pub record ServerConfig : Type 0 where
  pub server_url : String
  pub state_dir : String
  pub hosted_identities : Dict Json
  pub client_token_hashes : Dict Json
  pub ca_bundle : Json
  pub federation_policy : FederationPolicy
  pub lease_seconds : ℕ
  pub rejected_policy : String
  pub debug_errors : Bool
  pub verify_hosted_identity_signatures : Bool

-- One line of the structured log, without its time.
pub record LogEvent : Type 0 where
  pub event : String
  pub details : Dict String

-- A content that a server has been given: destination, content id and hash.
abbrev pub Transfer : Type 0
Transfer = String × String × String

pub record ServerState : Type 0 where
  pub queue : Rows
  pub replay : Replays
  pub content : Content
  pub log : List LogEvent
  pub content_transfers : List Transfer

-- `state.log.write(event, …)`
unfoldable pub write_log : String → Dict String → Exec ServerState (Unit {0})
write_log event details s =
    (ok tt, record s { log = s.log ++ record { event = event; details = details } ∷ [] })

-- A method of a store of the server.
unfoldable pub on_content : {A : Type 0} → Exec Content A → Exec ServerState A
on_content m s = let (r, content) = m s.content in (r, record s { content = content })

unfoldable pub on_queue : {A : Type 0} → (Rows → A × Rows) → Exec ServerState A
on_queue m s = let (a, queue) = m s.queue in (ok a, record s { queue = queue })

unfoldable pub on_replay : {A : Type 0} → (Replays → A × Replays) → Exec ServerState A
on_replay m s = let (a, replay) = m s.replay in (ok a, record s { replay = replay })

abbrev queue_result : {A : Type 0} → ServerState → Result (A × Rows) → Result A × ServerState
queue_result s (ok (a, queue)) = (ok a, record s { queue = queue })
queue_result s (err e) = (err e, s)

-- A method of the queue that may raise before it writes.
unfoldable pub try_queue : {A : Type 0} → (Rows → Result (A × Rows)) → Exec ServerState A
try_queue m s = queue_result s (m s.queue)
