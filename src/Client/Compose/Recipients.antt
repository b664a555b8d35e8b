-- ===== src/Client/Compose/Recipients.antt =====
-- The recipients of a message in endpoint/client_core.py: who they may be, and who is visible.
use endpoint_protocol.Prelude.{
  String, Bool, false, not, ◌&&◌, ◌||◌, Option, List, [], ◌∷◌, map, ◌==◌, if◌then◌else◌,
}
use endpoint_protocol.Json.{Json, Items, nil, cons, arr, str, obj, end, field, get, text}
use endpoint_protocol.Errors.{Result, ok, ◌>>=◌, ◌>>◌}
use endpoint_protocol.Runtime.{Runtime}
use endpoint_protocol.Protocol.Canonical.{canonical_json}
use endpoint_protocol.Protocol.Parts.{invalid}
use endpoint_protocol.Transport.Policy.{contains, is_empty, normalize_server_url}
use endpoint_protocol.KeyStore.{encrypt_to_many}
use endpoint_protocol.Client.{World, route_json}
use endpoint_protocol.Client.Identity.{verify_recipient_key_material}

pub record RecipientSpec : Type 0 where
  pub identity : Json
  pub server_url : String
  pub role : String
  pub message_id : Option String

-- `RecipientSpec(identity, server_url, "to", message_id)`
abbrev pub to_recipient : Json → String → Option String → RecipientSpec
to_recipient identity server_url message_id = record {
  identity = identity;
  server_url = server_url;
  role = "to";
  message_id = message_id;
}

abbrev pub Route : Type 0
Route = String × String

abbrev pub has_key : Route → List Route → Bool
has_key route [] = false
has_key route (r ∷ rs) = (r.0 == route.0 && r.1 == route.1) || has_key route rs

abbrev pub client_ref_of : RecipientSpec → String
client_ref_of spec = text (get spec.identity "client_ref")

abbrev pub fingerprint_of : RecipientSpec → String
fingerprint_of spec = text (get spec.identity "endpoint_fingerprint")

abbrev pub is_known_role : String → Bool
is_known_role role = role == "to" || (role == "cc" || role == "bcc")

module _ (rt : Runtime) where
  -- `_route_for_spec`, as the key that it has in `seen`.
  unfoldable pub route_key_of : RecipientSpec → Result Route
  unfolding normalize_server_url get
  route_key_of spec = do url ← normalize_server_url rt spec.server_url; ok (url, client_ref_of spec)

  unfoldable pub route_for_spec : RecipientSpec → Result Json
  unfolding route_key_of
  route_for_spec spec = do key ← route_key_of spec; ok (route_json key.0 key.1)

  -- The loop of `_validate_recipient_specs`, over the routes and the fingerprints seen before.
  unfoldable pub check_specs : List RecipientSpec → List Route → List String → Result (Unit {0})
  unfolding verify_recipient_key_material route_key_of contains get
  check_specs [] seen fingerprints = ok tt
  check_specs (spec ∷ specs) seen fingerprints = do
    invalid (is_known_role spec.role) "recipient role is invalid"
    verify_recipient_key_material rt spec.identity
    key ← route_key_of spec
    invalid (not (has_key key seen)) "recipient route is duplicated"
    invalid (not (contains (fingerprint_of spec) fingerprints)) "recipient identity is duplicated"
    check_specs specs (key ∷ seen) (fingerprint_of spec ∷ fingerprints)

  unfoldable pub validate_recipient_specs : List RecipientSpec → Result (Unit {0})
  unfolding check_specs
  validate_recipient_specs specs = do
    invalid (not (is_empty specs)) "at least one recipient is required"
    check_specs specs [] []

  -- `[self._route_for_spec(spec) for spec in recipients if spec.role == role]`
  unfoldable pub visible_routes : String → List RecipientSpec → Result Items
  unfolding route_for_spec
  visible_routes role [] = ok nil
  visible_routes role (spec ∷ specs) =
      let rest = visible_routes role specs in
      if spec.role == role
      then (do route ← route_for_spec spec; routes ← rest; ok (cons route routes))
      else rest

abbrev pub message_json : String → Json → Items → Items → Json
message_json body metadata visible_to visible_cc = obj (
    field "body" (str body) (
      field "sender_metadata" metadata
        (field "visible_to" (arr visible_to) (field "visible_cc" (arr visible_cc) end))))

-- The content for all its recipients.
unfoldable pub encrypt_content : World → Json → List RecipientSpec → Result String
unfolding canonical_json encrypt_to_many get
encrypt_content w signed_content recipients = do
  plain ← canonical_json w.rt signed_content
  encrypt_to_many w.pgp (map (λ spec. text (get spec.identity "public_key_armored")) recipients)
      plain
