-- ===== src/Storage/Client.antt =====
-- `ClientState` of endpoint/storage.py: the client's files of trust, identities, routes, contact pins
-- and processed messages. A file that is written holds its texts in NFC.
pub mod Laws
pub mod Frames
use endpoint_protocol.Prelude.{
  String, ◌<>◌, Bool, true, false, not, ◌&&◌, Option, none, some, List, [], ◌∷◌, ◌++◌, map, ◌==◌,
  if◌then◌else◌,
}
use endpoint_protocol.Json.{Json, get, text}
use endpoint_protocol.Errors.{Result, ok, require, ◌>>=◌, ◌>>◌}
use endpoint_protocol.Runtime.{Runtime}
use endpoint_protocol.Transport.Policy.{contains, is_empty, normalize_server_url}
use endpoint_protocol.Dict.{Dict, lookup, put, get_or}
use endpoint_protocol.Storage.Files.{stored_json, save_dict}

pub record Pin : Type 0 where
  pub server_url : String
  pub client_ref : String
  pub endpoint_fingerprint : String

pub record ClientState : Type 0 where
  pub trust : Dict String
  pub identities : Dict Json
  pub routes : Dict (List String)
  pub contact_pins : Dict Pin
  pub processed_messages : List String

unfoldable pub get_trust : String → ClientState → String
unfolding lookup
get_trust fingerprint s = get_or "untrusted" fingerprint s.trust

unfoldable pub has_processed : String → ClientState → Bool
unfolding contains
has_processed message_id s = contains message_id s.processed_messages

-- `if x not in seen: seen.append(x)`
unfoldable pub append_new : String → List String → List String
unfolding contains
append_new x seen = if contains x seen then seen else seen ++ x ∷ []

module _ (rt : Runtime) where
  -- The texts of a file.
  abbrev pub stored_text : String → Result String
  stored_text value = ok (rt.nfc value)

  abbrev pub stored_texts : List String → Result (List String)
  stored_texts values = ok (map rt.nfc values)

  abbrev pub stored_pin : Pin → Result Pin
  stored_pin pin = ok (record {
    server_url = rt.nfc pin.server_url;
    client_ref = rt.nfc pin.client_ref;
    endpoint_fingerprint = rt.nfc pin.endpoint_fingerprint;
  })

  unfoldable pub mark_trusted : String → ClientState → Result ClientState
  unfolding put save_dict
  mark_trusted fingerprint s = do
    trust ← save_dict rt stored_text (put fingerprint "trusted" s.trust)
    ok (record s { trust = trust })

  unfoldable pub remember_identity : Json → ClientState → Result ClientState
  unfolding put save_dict stored_json get
  remember_identity identity s = do
    identities ←
        save_dict rt (stored_json rt)
          (put (text (get identity "endpoint_fingerprint")) identity s.identities)
    ok (record s { identities = identities })

  unfoldable pub mark_processed : String → ClientState → ClientState
  unfolding append_new
  mark_processed message_id s = record s {
    processed_messages = map rt.nfc (append_new message_id s.processed_messages);
  }

  -- `_route_key`
  unfoldable pub route_key : String → String → Result String
  unfolding normalize_server_url
  route_key server_url client_ref = do
    require (not (client_ref == "")) "invalid_envelope" "route.client_ref is required"
    normalized ← normalize_server_url rt server_url
    ok (normalized <> "|" <> client_ref)

  abbrev pub route_warning : String → List String → Option String
  unfolding contains
  route_warning fingerprint seen =
      if not (is_empty seen) && not (contains fingerprint seen)
      then some "route_key_changed"
      else none

  -- The warning that a route has another fingerprint than before, and the new state.
  unfoldable pub note_route : String → String → ClientState → Result (Option String × ClientState)
  unfolding append_new put save_dict lookup route_warning
  note_route key fingerprint s =
      let seen = get_or [] key s.routes in
      do
        routes ← save_dict rt stored_texts (put key (append_new fingerprint seen) s.routes)
        ok (route_warning fingerprint seen, record s { routes = routes })

  unfoldable pub remember_route :
      String → String → String → ClientState → Result (Option String × ClientState)
  unfolding route_key note_route
  remember_route server_url client_ref fingerprint s = do
    key ← route_key server_url client_ref
    note_route key fingerprint s

  unfoldable pub remember_contact_pin : String → String → String → ClientState → Result ClientState
  unfolding route_key normalize_server_url put save_dict
  remember_contact_pin server_url client_ref fingerprint s = do
    normalized ← normalize_server_url rt server_url
    key ← route_key normalized client_ref
    let pin : Pin = record {
      server_url = normalized;
      client_ref = client_ref;
      endpoint_fingerprint = fingerprint;
    }
    pins ← save_dict rt stored_pin (put key pin s.contact_pins)
    ok (record s { contact_pins = pins })

  unfoldable pub contact_pin : String → String → ClientState → Result (Option String)
  unfolding route_key lookup
  contact_pin server_url client_ref s = do
    key ← route_key server_url client_ref
    ok (elim (lookup key s.contact_pins) [ none ↦ none | some pin ↦ some pin.endpoint_fingerprint ])
