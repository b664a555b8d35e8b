-- ===== src/Client/Compose.antt =====
-- How a client of endpoint/client_core.py composes: recipients, signed contents, content objects and
-- the envelope of each delivery.
pub mod Objects
pub mod Recipients
pub mod Visible
pub mod Signing
pub mod Signed
pub mod Accepted
pub mod Untouched
pub mod Delivers
pub mod EndToEnd
pub mod Shown
use endpoint_protocol.Prelude.{
  String, Bool, true, not, Option, none, some, List, [], ◌∷◌, ◌==◌, if◌then◌else◌,
}
use endpoint_protocol.Json.{Json, get, is_the_text, text}
use endpoint_protocol.Errors.{Result, ok, err, crash, require}
use endpoint_protocol.Exec.{pure, lift, ◌>>=◌, ◌>>◌}
use endpoint_protocol.Protocol.Limits.{default_limits}
use endpoint_protocol.Protocol.Canonical.{canonical_json, json_size}
use endpoint_protocol.Protocol.Content.{
  validate_signed_content, signed_content_hash, validate_content_object,
}
use endpoint_protocol.Protocol.Delivery.{validate_delivery_claim, validate_delivery_envelope}
use endpoint_protocol.Crypto.{endpoint_fingerprint}
use endpoint_protocol.KeyStore.{encrypt_to}
use endpoint_protocol.Client.{Profile, World, Client, draw_uuid, public_key_armored, sign}
use endpoint_protocol.Client.Compose.Recipients.{
  RecipientSpec, to_recipient, route_for_spec, validate_recipient_specs, visible_routes,
  message_json, encrypt_content,
}
use endpoint_protocol.Client.Compose.Objects.{
  payload_json, signed_json, Shared, claim_payload_json, claim_json, envelope_json,
  content_object_json,
}

module _ (w : World) (me : Profile) where
  -- `value or str(uuid.uuid4())`
  unfoldable pub or_uuid : Option String → Client String
  unfolding draw_uuid
  or_uuid none = draw_uuid w
  or_uuid (some s) = if s == "" then draw_uuid w else pure s

  abbrev or_text : Option String → String → String
  or_text none default = default
  or_text (some s) default = if s == "" then default else s

  -- `now` is what `now_iso()` gives.
  unfoldable pub build_signed_content :
      String → Json → Option String → Option String → String → Client Json
  unfolding public_key_armored endpoint_fingerprint or_uuid canonical_json sign
      validate_signed_content get
  build_signed_content content_type content content_id created_at now = do
    public_key ← public_key_armored w
    fingerprint ← lift (endpoint_fingerprint w.rt public_key)
    id ← or_uuid content_id
    let payload =
        payload_json me id content_type (or_text created_at now) public_key fingerprint content
    canonical ← lift (canonical_json w.rt payload)
    signature ← sign w canonical
    let signed_content = signed_json id fingerprint payload signature
    lift (validate_signed_content w.rt signed_content default_limits)
    pure signed_content

  -- `later` is the instant of the clock and the days of retention, in Python's ISO form.
  unfoldable pub build_content_object : Json → String → Option String → String → Client Json
  unfolding validate_signed_content signed_content_hash json_size validate_content_object get
  build_content_object signed_content ciphertext expires_at later = do
    lift (validate_signed_content w.rt signed_content default_limits)
    hash ← lift (signed_content_hash w.rt signed_content)
    size ← lift (json_size w.rt signed_content)
    let content_object =
        content_object_json w.rt signed_content hash ciphertext size (or_text expires_at later)
    lift (validate_content_object w.rt content_object default_limits)
    pure content_object

  -- The body of the loop of `build_delivery_envelopes`.
  unfoldable pub build_envelope : Shared → RecipientSpec → Client Json
  unfolding route_for_spec or_uuid canonical_json sign validate_delivery_claim encrypt_to
      validate_delivery_envelope get
  build_envelope shared spec = do
    recipient_route ← lift (route_for_spec w.rt spec)
    message_id ← or_uuid spec.message_id
    let payload = claim_payload_json me shared message_id spec recipient_route
    canonical ← lift (canonical_json w.rt payload)
    signature ← sign w canonical
    let claim = claim_json shared.fingerprint payload signature
    lift (validate_delivery_claim w.rt claim default_limits)
    plain ← lift (canonical_json w.rt claim)
    delivery_ciphertext ←
        lift (encrypt_to w.pgp (text (get spec.identity "public_key_armored")) plain)
    let envelope = envelope_json w.rt me shared message_id spec recipient_route delivery_ciphertext
    lift (validate_delivery_envelope w.rt envelope default_limits)
    pure envelope

  unfoldable pub build_envelopes : Shared → List RecipientSpec → Client (List Json)
  unfolding build_envelope
  build_envelopes shared [] = pure []
  build_envelopes shared (spec ∷ specs) = do
    envelope ← build_envelope shared spec
    envelopes ← build_envelopes shared specs
    pure (envelope ∷ envelopes)

  -- `content_ciphertext`, encrypted here if it is None.
  unfoldable pub or_encrypt : Json → List RecipientSpec → Option String → Result String
  unfolding encrypt_content
  or_encrypt signed_content recipients (some ciphertext) = ok ciphertext
  or_encrypt signed_content recipients none = encrypt_content w signed_content recipients

  unfoldable pub build_delivery_envelopes :
      Json → List RecipientSpec → Option String → Bool → Client (List Json)
  unfolding validate_signed_content validate_recipient_specs public_key_armored endpoint_fingerprint
      signed_content_hash or_encrypt build_envelopes get
  build_delivery_envelopes signed_content recipients ciphertext is_inline = do
    lift (validate_signed_content w.rt signed_content default_limits)
    lift (validate_recipient_specs w.rt recipients)
    public_key ← public_key_armored w
    fingerprint ← lift (endpoint_fingerprint w.rt public_key)
    let payload = get signed_content "payload"
    lift (
        require (is_the_text (get payload "sender_fingerprint") fingerprint) "signature_invalid"
          "signed content is not owned by this sender")
    hash ← lift (signed_content_hash w.rt signed_content)
    used ← lift (or_encrypt signed_content recipients ciphertext)
    build_envelopes
        (record {
          content_id = get signed_content "content_id";
          content_hash = hash;
          created_at = get payload "created_at";
          fingerprint = fingerprint;
          ciphertext = used;
          is_inline = is_inline;
        })
        recipients

  -- The content of a message, with the recipients that everybody sees.
  unfoldable pub build_message :
      List RecipientSpec → String → Json → Option String → String → Client Json
  unfolding validate_recipient_specs visible_routes build_signed_content
  build_message recipients body metadata content_id now = do
    lift (validate_recipient_specs w.rt recipients)
    visible_to ← lift (visible_routes w.rt "to" recipients)
    visible_cc ← lift (visible_routes w.rt "cc" recipients)
    build_signed_content "message" (message_json body metadata visible_to visible_cc) content_id
        none now

  unfoldable pub build_message_content_and_envelopes :
      List RecipientSpec → String → Json → String → Client (List Json)
  unfolding build_message build_delivery_envelopes
  build_message_content_and_envelopes recipients body metadata now = do
    signed_content ← build_message recipients body metadata none now
    build_delivery_envelopes signed_content recipients none true

  -- `result[0]`
  abbrev first_envelope : List Json → Client Json
  first_envelope [] = lift (err (crash "IndexError"))
  first_envelope (envelope ∷ envelopes) = pure envelope

  unfoldable pub build_message_envelope :
      Json → String → String → Json → Option String → String → Client Json
  unfolding build_message_content_and_envelopes
  build_message_envelope identity server_url body metadata message_id now = do
    envelopes ←
        build_message_content_and_envelopes (to_recipient identity server_url message_id ∷ []) body
          metadata now
    first_envelope envelopes
