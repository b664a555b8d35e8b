-- ===== src/Client/Discover.antt =====
-- `discover` and `import_contact_pin` of endpoint/client_core.py: how a client learns of others.
use endpoint_protocol.Prelude.{ℕ, String, Option, some, leb, if◌then◌else◌}
use endpoint_protocol.Json.{Json, null, get, text}
use endpoint_protocol.Errors.{EndpointError, Result, err, crash, raise, status_error}
use endpoint_protocol.Runtime.{Runtime}
use endpoint_protocol.Exec.{Exec, pure, lift, gets, update, ◌>>=◌, ◌>>◌}
use endpoint_protocol.Transport.Policy.{normalize_server_url}
use endpoint_protocol.Storage.Client.{
  ClientState, get_trust, remember_identity, remember_route, remember_contact_pin,
}
use endpoint_protocol.Receive.Process.{routed}
use endpoint_protocol.Client.Identity.{verify_identity, validate_contact_pin, pin_expected}

-- What a call of the home server ends in: an `httpx.RequestError` of some class, or a status with the
-- text of the body and what `response.json()` makes of it.
pub data Answer : Type 0 where
  no_answer : String → Answer
  answer : (status_code : ℕ) (body : String) (value : Result Json) → Answer

pub record DiscoveryResult : Type 0 where
  pub identity : Json
  pub trust_state : String
  pub route_warning : Option String
  pub pin_state : Option String

abbrev discover_failed : ℕ → String → EndpointError
discover_failed status body =
    record (status_error "discover_failed" "identity discovery failed" status) {
      detail = some body;
    }

-- A `RequestError` is not caught here.
abbrev pub discovered : Answer → Result Json
discovered (no_answer what) = err (crash what)
discovered (answer status body value) =
    if leb 400 status then raise (discover_failed status body) else value

module _ (rt : Runtime) where
  unfoldable pub note_pin :
      String → String → Json → Option String → Exec ClientState (Option String)
  unfolding pin_expected
  note_pin server_url client_ref identity expected s =
      routed s (pin_expected rt server_url client_ref identity expected s)

  unfoldable pub note_peer : String → String → String → Exec ClientState (Option String)
  unfolding remember_route
  note_peer server_url client_ref fingerprint s =
      routed s (remember_route rt server_url client_ref fingerprint s)

  unfoldable pub remember_public : Json → Exec ClientState (Unit {0})
  unfolding remember_identity
  remember_public null = pure tt
  remember_public identity = update (remember_identity rt identity)

  unfoldable pub import_contact_pin : Json → Exec ClientState Json
  unfolding validate_contact_pin remember_contact_pin remember_public get
  import_contact_pin contact = do
    valid ← lift (validate_contact_pin rt contact)
    update (
        remember_contact_pin rt (text (get valid "server_url")) (text (get valid "client_ref"))
          (text (get valid "endpoint_fingerprint")))
    remember_public (get valid "public_identity")
    pure valid

  -- `ask` is the server's answer for the normal form of the peer's URL and its reference.
  unfoldable pub discover :
      (String → String → Answer)
      → String
      → String
      → Option String
      → Exec ClientState DiscoveryResult
  unfolding normalize_server_url verify_identity note_pin remember_identity note_peer get_trust get
  discover ask peer_server_url peer_client_ref expected = do
    server_url ← lift (normalize_server_url rt peer_server_url)
    identity ← lift (discovered (ask server_url peer_client_ref))
    lift (verify_identity rt identity)
    pin_state ← note_pin server_url peer_client_ref identity expected
    update (remember_identity rt identity)
    let fingerprint = text (get identity "endpoint_fingerprint")
    route_warning ← note_peer server_url peer_client_ref fingerprint
    trust ← gets (get_trust fingerprint)
    pure (record {
      identity = identity;
      trust_state = trust;
      route_warning = route_warning;
      pin_state = pin_state;
    })
