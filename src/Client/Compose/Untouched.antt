-- ===== src/Client/Compose/Untouched.antt =====
-- Composing in endpoint/client_core.py changes neither the outbox nor the client's files of trust: only
-- the key store and the UUIDs.
use endpoint_protocol.Prelude.{
  String, ◌≡◌, refl, sym, ap, ◌∙◌, Bool, Option, none, some, List, [], ◌∷◌, ◌==◌, Bool-cases, inl,
  inr,
}
use endpoint_protocol.Json.{Json, get, text, is_the_text}
use endpoint_protocol.Errors.{Result, ok, err, require}
use endpoint_protocol.Errors.Laws.{ok-inj}
use endpoint_protocol.Exec.{pure, lift}
use endpoint_protocol.Exec.Laws.{lift-case, lift-keeps, exec-keeps, gets-keeps, modify-keeps}
use endpoint_protocol.Protocol.Limits.{default_limits}
use endpoint_protocol.Protocol.Canonical.{canonical_json, json_size}
use endpoint_protocol.Protocol.Content.{
  validate_signed_content, signed_content_hash, validate_content_object,
}
use endpoint_protocol.Protocol.Delivery.{validate_delivery_claim, validate_delivery_envelope}
use endpoint_protocol.Crypto.{endpoint_fingerprint}
use endpoint_protocol.KeyStore.{KeyStore, has_identity_material, new_identity, encrypt_to}
use endpoint_protocol.Client.{
  Profile, World, ClientCore, draw_uuid, store_identity, generate_identity, find_identity,
  use_identity, ensure_identity, remember_key, public_key_armored, sign,
}
use endpoint_protocol.Client.Compose.{
  or_uuid, or_text, or_encrypt, build_content_object, build_envelope, build_envelopes,
  build_delivery_envelopes,
}
use endpoint_protocol.Client.Compose.Objects.{
  Shared, claim_payload_json, claim_json, envelope_json, content_object_json,
}
use endpoint_protocol.Client.Compose.Recipients.{
  RecipientSpec, route_for_spec, validate_recipient_specs,
}

-- The files are those of another state.
Same : ClientCore → ClientCore → Type 0
Same o s = (s.outbox ≡ o.outbox) × (s.state ≡ o.state)

module _ (w : World) (me : Profile) (o : ClientCore) where
  draw_uuid-Same : (s : ClientCore) → Same o s → Same o (draw_uuid w s).1
  unfolding draw_uuid Same
  draw_uuid-Same s h = h

  store_identity-Same :
      (r : Result KeyStore) (s : ClientCore) → Same o s → Same o (store_identity w r s).1
  unfolding store_identity Same
  store_identity-Same (ok keys) s h = h
  store_identity-Same (err e) s h = h

  generate_identity-Same :
      (name email : Option String) (s : ClientCore)
      → Same o s
      → Same o (generate_identity w name email s).1
  unfolding generate_identity
  generate_identity-Same name email s h =
      exec-keeps (Same o) (draw_uuid w) _ s (draw_uuid-Same s h) λ first h1.
        exec-keeps (Same o) (draw_uuid w) _ _ (draw_uuid-Same _ h1)
          λ second h2. store_identity-Same (new_identity w.pgp name email first second) _ h2

  find_identity-Same :
      (name email : Option String) (s : ClientCore)
      → Same o s
      → Same o (find_identity w name email s).1
  unfolding find_identity
  find_identity-Same name email s h = elim (Bool-cases (has_identity_material s.keys)) [
    | inl there ↦ rw there h
    | inr absent ↦ rw absent (generate_identity-Same name email s h)
  ]

  remember_key-Same :
      (fingerprint : String) (s : ClientCore) → Same o s → Same o (remember_key fingerprint s)
  unfolding remember_key Same
  remember_key-Same fingerprint s h = h

  use_identity-Same :
      (known name email : Option String) (s : ClientCore)
      → Same o s
      → Same o (use_identity w known name email s).1
  unfolding use_identity pure
  use_identity-Same (some fingerprint) name email s h = h
  use_identity-Same none name email s h =
      exec-keeps (Same o) (find_identity w name email) _ s (find_identity-Same name email s h)
        λ fingerprint h1.
          modify-keeps (Same o) (remember_key fingerprint) _ _ (remember_key-Same fingerprint _ h1)

  ensure_identity-Same :
      (name email : Option String) (s : ClientCore)
      → Same o s
      → Same o (ensure_identity w name email s).1
  unfolding ensure_identity
  ensure_identity-Same name email s h =
      gets-keeps (Same o) (λ (s : ClientCore). s.key_fingerprint) _ s
        (use_identity-Same s.key_fingerprint name email s h)

  public_key_armored-Same : (s : ClientCore) → Same o s → Same o (public_key_armored w s).1
  unfolding public_key_armored lift
  public_key_armored-Same s h =
      exec-keeps (Same o) (ensure_identity w none none) _ s (ensure_identity-Same none none s h)
        λ fingerprint h1. gets-keeps (Same o) (λ (s : ClientCore). s.keys) _ _ h1

  sign-Same : (payload : String) (s : ClientCore) → Same o s → Same o (sign w payload s).1
  unfolding sign lift
  sign-Same payload s h =
      exec-keeps (Same o) (ensure_identity w none none) _ s (ensure_identity-Same none none s h)
        λ fingerprint h1. gets-keeps (Same o) (λ (s : ClientCore). s.keys) _ _ h1

  or_uuid-Same :
      (given : Option String) (s : ClientCore) → Same o s → Same o (or_uuid w me given s).1
  unfolding or_uuid pure
  or_uuid-Same none s h = draw_uuid-Same s h
  or_uuid-Same (some id) s h = elim (Bool-cases (id == "")) [
    | inl empty ↦ rw empty (draw_uuid-Same s h)
    | inr given ↦ rw given h
  ]

  build_envelope-Same :
      (shared : Shared) (spec : RecipientSpec) (s : ClientCore)
      → Same o s
      → Same o (build_envelope w me shared spec s).1
  unfolding build_envelope pure
  build_envelope-Same shared spec s h =
      lift-keeps (Same o) (route_for_spec w.rt spec) _ s h λ route.
        exec-keeps (Same o) (or_uuid w me spec.message_id) _ s (or_uuid-Same spec.message_id s h)
          λ id h1.
            let payload = claim_payload_json me shared id spec route in
            lift-keeps (Same o) (canonical_json w.rt payload) _ _ h1 λ canonical.
              exec-keeps (Same o) (sign w canonical) _ _ (sign-Same canonical _ h1) λ signature h2.
                let claim = claim_json shared.fingerprint payload signature in
                let key = text (get spec.identity "public_key_armored") in
                lift-keeps (Same o) (validate_delivery_claim w.rt claim default_limits) _ _ h2 λ _.
                  lift-keeps (Same o) (canonical_json w.rt claim) _ _ h2 λ plain.
                    lift-keeps (Same o) (encrypt_to w.pgp key plain) _ _ h2 λ cipher.
                      let made = envelope_json w.rt me shared id spec route cipher in
                      lift-keeps (Same o) (validate_delivery_envelope w.rt made default_limits) _ _
                        h2 λ _. h2

  build_envelopes-Same :
      (shared : Shared) (specs : List RecipientSpec) (s : ClientCore)
      → Same o s
      → Same o (build_envelopes w me shared specs s).1
  unfolding build_envelopes pure
  build_envelopes-Same shared [] s h = h
  build_envelopes-Same shared (spec ∷ specs) s h =
      exec-keeps (Same o) (build_envelope w me shared spec) _ s
        (build_envelope-Same shared spec s h)
        λ _ h1.
          exec-keeps (Same o) (build_envelopes w me shared specs) _ _
            (build_envelopes-Same shared specs _ h1) λ _ h2. h2

  build_delivery_envelopes-Same :
      (content : Json) (specs : List RecipientSpec) (ciphertext : Option String) (is_inline : Bool)
      (s : ClientCore)
      → Same o s
      → Same o (build_delivery_envelopes w me content specs ciphertext is_inline s).1
  unfolding build_delivery_envelopes
  build_delivery_envelopes-Same content specs ciphertext is_inline s h =
      lift-keeps (Same o) (validate_signed_content w.rt content default_limits) _ s h λ _.
        lift-keeps (Same o) (validate_recipient_specs w.rt specs) _ s h λ _.
          exec-keeps (Same o) (public_key_armored w) _ s (public_key_armored-Same s h) λ key h1.
            lift-keeps (Same o) (endpoint_fingerprint w.rt key) _ _ h1 λ fingerprint.
              lift-keeps (Same o)
                (require
                  (is_the_text (get (get content "payload") "sender_fingerprint") fingerprint)
                  "signature_invalid" "signed content is not owned by this sender")
                _ _ h1
                λ _. lift-keeps (Same o) (signed_content_hash w.rt content) _ _ h1 λ hash.
                  lift-keeps (Same o) (or_encrypt w me content specs ciphertext) _ _ h1 λ used.
                    build_envelopes-Same
                      (record {
                        content_id = get content "content_id";
                        content_hash = hash;
                        created_at = get (get content "payload") "created_at";
                        fingerprint = fingerprint;
                        ciphertext = used;
                        is_inline = is_inline;
                      })
                      specs _ h1

module _ (w : World) (me : Profile) where
  pub build_delivery_envelopes-outbox :
      (content : Json) (specs : List RecipientSpec) (ciphertext : Option String) (is_inline : Bool)
      (s : ClientCore) {envelopes : List Json} {t : ClientCore}
      → build_delivery_envelopes w me content specs ciphertext is_inline s ≡ (ok envelopes, t)
      → t.outbox ≡ s.outbox
  unfolding Same
  build_delivery_envelopes-outbox content specs ciphertext is_inline s h =
      sym (ap (λ r. r.1.outbox) h)
      ∙ (build_delivery_envelopes-Same w me s content specs ciphertext is_inline s (refl, refl)).0

  -- A content object has the id of its content, and nothing changes.
  pub build_content_object-inv :
      (content : Json) (ciphertext : String) (expires_at : Option String) (later : String)
      (s : ClientCore) {content_object : Json} {t : ClientCore}
      → build_content_object w me content ciphertext expires_at later s ≡ (ok content_object, t)
      → (get content_object "content_id" ≡ get content "content_id") × (t ≡ s)
  unfolding build_content_object pure
  build_content_object-inv content ciphertext expires_at later s h =
      lift-case (validate_signed_content w.rt content default_limits) _ s h λ _ _ h1.
        lift-case (signed_content_hash w.rt content) _ s h1 λ hash _ h2.
          lift-case (json_size w.rt content) _ s h2 λ size _ h3.
            let made =
              content_object_json w.rt content hash ciphertext size
                (or_text w me expires_at later) in
            lift-case (validate_content_object w.rt made default_limits) _ s h3 λ _ _ h4. (
              ap (λ r. get r "content_id") (sym (ok-inj (ap (λ r. r.0) h4))),
              ap (λ r. r.1) (sym h4),
            )
