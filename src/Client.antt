-- ===== src/Client.antt =====
-- `EndpointClient` of endpoint/client_core.py: what a client is made of, and its own identity.
pub mod Identity
pub mod Discover
pub mod Compose
pub mod Send
pub mod Fetch
pub mod Inbox
pub mod Verified
use endpoint_protocol.Prelude.{ℕ, suc, String, Option, none, some, ◌==◌, if◌then◌else◌}
use endpoint_protocol.Json.{Json, Fields, str, obj, end, field}
use endpoint_protocol.Errors.{Result, ok, err}
use endpoint_protocol.Exec.{Exec, pure, lift, gets, modify, ◌>>=◌, ◌>>◌}
use endpoint_protocol.Runtime.{Runtime, OpenPgp}
use endpoint_protocol.Storage.Client.{ClientState}
use endpoint_protocol.Storage.Outbox.{Outbox}
use endpoint_protocol.KeyStore.{
  KeyStore, has_identity_material, current_fingerprint, read_raw_fingerprint, new_identity,
  export_public_key, sign_detached,
}
use endpoint_protocol.Protocol.Limits.{default_limits, protocol_version}
use endpoint_protocol.Protocol.Parts.{validate_metadata}
use endpoint_protocol.Protocol.Canonical.{canonical_json}
use endpoint_protocol.Protocol.Delivery.{identity_signature_payload}
use endpoint_protocol.Crypto.{endpoint_fingerprint}

-- What a client is given once: its reference and its server, in normal form.
pub record Profile : Type 0 where
  pub client_ref : String
  pub home_server_url : String

-- What surrounds it: Python's libraries, the backend, and the supply of UUIDs.
pub record World : Type 0 where
  pub rt : Runtime
  pub pgp : OpenPgp
  pub uuid : ℕ → String

-- What changes: the key store, the fingerprint that is remembered of it, the files of the client, and
-- how many UUIDs were drawn.
pub record ClientCore : Type 0 where
  pub keys : KeyStore
  pub key_fingerprint : Option String
  pub state : ClientState
  pub outbox : Outbox
  pub drawn : ℕ

abbrev pub Client : Type 0 → Type 0
Client A = Exec ClientCore A

-- `{"server_url": …, "client_ref": …}`
abbrev pub route_json : String → String → Json
route_json server_url client_ref =
    obj (field "server_url" (str server_url) (field "client_ref" (str client_ref) end))

abbrev pub own_route : Profile → Json
own_route me = route_json me.home_server_url me.client_ref

unfoldable pub remember_key : String → ClientCore → ClientCore
remember_key fingerprint s = record s { key_fingerprint = some fingerprint }

unfoldable pub on_state : (ClientState → ClientState) → ClientCore → ClientCore
on_state f s = record s { state = f s.state }

abbrev pub with_outbox : ClientCore → Result Outbox → Result ClientCore
with_outbox s (ok outbox) = ok (record s { outbox = outbox })
with_outbox s (err e) = err e

-- A method of the outbox, which may raise an exception before it writes the file.
unfoldable pub on_outbox : (Outbox → Result Outbox) → ClientCore → Result ClientCore
on_outbox f s = with_outbox s (f s.outbox)

module _ (w : World) where
  -- `str(uuid.uuid4())`
  unfoldable pub draw_uuid : Client String
  draw_uuid s = (ok (w.uuid s.drawn), record s { drawn = suc s.drawn })

  -- `generate_identity` leaves the files that it could make.
  unfoldable pub store_identity : Result KeyStore → Client String
  unfolding read_raw_fingerprint
  store_identity (ok keys) s = (read_raw_fingerprint keys, record s { keys = keys })
  store_identity (err e) s = (err e, s)

  -- Both UUIDs are drawn, also where a name is given: which UUIDs come next is open in any case.
  unfoldable pub generate_identity : Option String → Option String → Client String
  unfolding draw_uuid new_identity store_identity
  generate_identity name email = do
    first ← draw_uuid
    second ← draw_uuid
    store_identity (new_identity w.pgp name email first second)

  unfoldable pub find_identity : Option String → Option String → Client String
  unfolding has_identity_material current_fingerprint generate_identity
  find_identity name email s =
      if has_identity_material s.keys
      then (current_fingerprint w.pgp s.keys, s)
      else generate_identity name email s

  unfoldable pub use_identity : Option String → Option String → Option String → Client String
  unfolding find_identity remember_key
  use_identity (some fingerprint) name email = pure fingerprint
  use_identity none name email = do
    fingerprint ← find_identity name email
    modify (remember_key fingerprint)
    pure fingerprint

  unfoldable pub ensure_identity : Option String → Option String → Client String
  unfolding use_identity
  ensure_identity name email = do
    known ← gets (λ s. s.key_fingerprint)
    use_identity known name email

  unfoldable pub public_key_armored : Client String
  unfolding ensure_identity export_public_key
  public_key_armored = do
    fingerprint ← ensure_identity none none
    keys ← gets (λ s. s.keys)
    lift (export_public_key w.pgp fingerprint keys)

  -- `self.openpgp.sign_detached(self.ensure_identity(), payload)`
  unfoldable pub sign : String → Client String
  unfolding ensure_identity sign_detached
  sign payload = do
    fingerprint ← ensure_identity none none
    keys ← gets (λ s. s.keys)
    lift (sign_detached w.pgp fingerprint payload keys)

  -- `self.key_fingerprint or self.openpgp.current_fingerprint()`
  abbrev known_or_current : Option String → KeyStore → Result String
  known_or_current none keys = current_fingerprint w.pgp keys
  known_or_current (some f) keys = if f == "" then current_fingerprint w.pgp keys else ok f

  unfoldable pub require_existing_identity : Client String
  unfolding current_fingerprint export_public_key remember_key
  require_existing_identity = do
    known ← gets (λ s. s.key_fingerprint)
    keys ← gets (λ s. s.keys)
    fingerprint ← lift (known_or_current known keys)
    _ ← lift (export_public_key w.pgp fingerprint keys)
    modify (remember_key fingerprint)
    pure fingerprint

  -- An identity, with what follows its metadata.
  abbrev pub identity_json : String → String → String → Json → Fields → Json
  identity_json client_ref public_key fingerprint metadata rest = obj (
      field "protocol_version" (str protocol_version) (
        field "client_ref" (str client_ref) (
          field "public_key_armored" (str public_key)
            (field "endpoint_fingerprint" (str fingerprint) (field "metadata" metadata rest)))))

  unfoldable pub export_identity : Profile → Json → Client Json
  unfolding validate_metadata public_key_armored endpoint_fingerprint canonical_json
      identity_signature_payload sign
  export_identity me metadata = do
    lift (validate_metadata w.rt metadata default_limits)
    public_key ← public_key_armored
    fingerprint ← lift (endpoint_fingerprint w.rt public_key)
    let identity = identity_json me.client_ref public_key fingerprint metadata end
    payload ← lift (canonical_json w.rt (identity_signature_payload identity))
    signature ← sign payload
    pure (
        identity_json me.client_ref public_key fingerprint metadata
          (field "identity_signature" (str signature) end))
