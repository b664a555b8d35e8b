-- ===== src/Client/Compose/EndToEnd.antt =====
-- What `build_message` and `build_delivery_envelopes` of one client of endpoint/client_core.py make,
-- under the checks that `process_envelope` of another makes of envelope, claim and content.
use mathlib.Core.Path.{subst}
use endpoint_protocol.Prelude.{
  String, ◌≡◌, refl, sym, ◌∙◌, ap, none, Bool, Bool-cases, inl, inr, if◌then◌else◌, false, Option,
  List, ◌==◌, eq_refl,
}
use endpoint_protocol.Json.{Json, Items, null, str, get, text}
use endpoint_protocol.Errors.{ok}
use endpoint_protocol.Errors.Laws.{ok-inj}
use endpoint_protocol.Exec.Laws.{lift-case}
use endpoint_protocol.Protocol.Limits.{default_limits}
use endpoint_protocol.Protocol.Canonical.{canonical_json}
use endpoint_protocol.Protocol.Content.{validate_signed_content, signed_content_hash}
use endpoint_protocol.Protocol.Delivery.{validate_delivery_claim, validate_delivery_envelope}
use endpoint_protocol.Crypto.{endpoint_fingerprint, verify_detached}
use endpoint_protocol.KeyStore.{encrypt_to}
use endpoint_protocol.Receive.{
  Keys, check_visible, check_visible_role, check_versions, check_sender, check_binding,
}
use endpoint_protocol.Client.{Profile, World, ClientCore, route_json}
use endpoint_protocol.Client.Compose.{or_encrypt, build_delivery_envelopes, build_message}
use endpoint_protocol.Client.Compose.Objects.{
  Shared, payload_json, signed_json, claim_payload_json, claim_json, envelope_json,
}
use endpoint_protocol.Client.Compose.Recipients.{
  RecipientSpec, Route, route_key_of, validate_recipient_specs, visible_routes, message_json,
}
use endpoint_protocol.Client.Compose.Visible.{
  validate_recipient_specs-IsAudience, route_for_spec-of,
}
use endpoint_protocol.Client.Compose.Shown.{visible_routes-shown}
use endpoint_protocol.Client.Compose.Signing.{Uses, IsPair}
use endpoint_protocol.Client.Compose.Signed.{IsComposed, IsBuilt, build_signed_content-IsComposed}
use endpoint_protocol.Client.Compose.Delivers.{Paired, Paired-At, build_delivery_envelopes-IsBuilt}
use endpoint_protocol.Client.Compose.Accepted.{check_sender-composed, check_binding-composed}

-- The content as it was composed, the claim that is encrypted in the envelope, and the envelope: each is
-- valid, and the checks that a recipient with these keys makes of the three find the owner of the public
-- key `key` for the sender and the three in agreement.
pub record IsConsistent (w : World) (keys : Keys) (key : String) (content envelope : Json)
    (spec : RecipientSpec) : Type 0 where
  pub is_valid : validate_delivery_envelope w.rt envelope default_limits ≡ ok tt
  pub is_valid_content : validate_signed_content w.rt content default_limits ≡ ok tt
  pub claim : Json
  pub is_valid_claim : validate_delivery_claim w.rt claim default_limits ≡ ok tt
  pub is_right_version : check_versions w.rt keys claim content ≡ ok tt
  pub plain : String
  pub is_plain : canonical_json w.rt claim ≡ ok plain
  pub is_encrypted :
      encrypt_to w.pgp (text (get spec.identity "public_key_armored")) plain
      ≡ ok (text (get envelope "delivery_ciphertext_armored"))
  pub fingerprint : String
  pub is_sender : endpoint_fingerprint w.rt key ≡ ok fingerprint
  pub is_from_sender : check_sender w.rt keys content claim ≡ ok fingerprint
  pub is_bound : check_binding w.rt keys envelope content claim ≡ ok tt

-- The parts of a content that is signed by the owner of a fingerprint.
record Signed (w : World) (me : Profile) (key fingerprint : String) (c content : Json)
    : Type 0 where
  id : String
  created_at : String
  signature : String
  canonical : String
  is_content :
      content
      ≡ signed_json id fingerprint
          (payload_json me id "message" created_at key fingerprint c)
          signature
  is_canonical :
      canonical_json w.rt (payload_json me id "message" created_at key fingerprint c) ≡ ok canonical
  verifies : verify_detached w.rt key canonical signature ≡ ok tt
  is_valid : validate_signed_content w.rt content default_limits ≡ ok tt

Signed-by :
    (w : World) (me : Profile) (key fingerprint : String) (c content : Json)
    → IsComposed w me key "message" c content
    → endpoint_fingerprint w.rt key ≡ ok fingerprint
    → Signed w me key fingerprint c content
Signed-by w me key fingerprint c content composed is_fingerprint =
    subst (λ f. Signed w me key f c content) (ok-inj (sym composed.is_fingerprint ∙ is_fingerprint))
      (record {
        id = composed.id;
        created_at = composed.created_at;
        signature = composed.signature;
        canonical = composed.canonical;
        is_content = composed.is_content;
        is_canonical = composed.is_canonical;
        verifies = composed.verifies;
        is_valid = composed.is_valid;
      })

-- The claim and the envelope of a recipient with a route.
record Posted (w : World) (me : Profile) (shared : Shared) (spec : RecipientSpec)
    (built_id signature canonical plain ciphertext : String) (envelope route : Json) : Type 0 where
  is_canonical :
      canonical_json w.rt (claim_payload_json me shared built_id spec route) ≡ ok canonical
  is_plain :
      canonical_json w.rt
        (claim_json shared.fingerprint (claim_payload_json me shared built_id spec route) signature)
      ≡ ok plain
  is_valid_claim :
      validate_delivery_claim w.rt
        (claim_json shared.fingerprint (claim_payload_json me shared built_id spec route) signature)
        default_limits
      ≡ ok tt
  is_envelope : envelope ≡ envelope_json w.rt me shared built_id spec route ciphertext

module _ (w : World) (me : Profile) {key : String} (some_key : (key == "") ≡ false) (keys : Keys)
    (own_key own : String) (is_key : keys.public_key ≡ ok own_key)
    (is_own : endpoint_fingerprint w.rt own_key ≡ ok own) where
  consistent :
      (shared : Shared) (spec : RecipientSpec) (k : Route) (body : String) (metadata : Json)
      (to cc : Items) (content envelope : Json)
      → get spec.identity "endpoint_fingerprint" ≡ str own
      → route_key_of w.rt spec ≡ ok k
      → check_visible
          (message_json body metadata to cc)
          (claim_payload_json me shared "" spec (route_json k.0 k.1))
        ≡ ok tt
      → IsBuilt w me key shared spec envelope
      → Signed w me key shared.fingerprint (message_json body metadata to cc) content
      → endpoint_fingerprint w.rt key ≡ ok shared.fingerprint
      → shared.content_id ≡ get content "content_id"
      → shared.created_at ≡ get (get content "payload") "created_at"
      → signed_content_hash w.rt content ≡ ok shared.content_hash
      → IsConsistent w keys key content envelope spec
  unfolding get check_visible_role check_versions
  consistent shared spec k body metadata to cc content envelope addressed is_k visible built signed
        is_fingerprint is_id is_time is_hash =
      let c = message_json body metadata to cc in
      let e : built.route ≡ route_json k.0 k.1 =
        ok-inj (sym built.is_route ∙ route_for_spec-of w.rt spec k is_k) in
      let posted =
        subst
          (Posted w me shared spec built.message_id built.signature built.canonical built.plain
            built.ciphertext envelope)
          e
          (record {
            is_canonical = built.is_canonical;
            is_plain = built.is_plain;
            is_valid_claim = built.is_valid_claim;
            is_envelope = built.is_envelope;
          }) in
      let same_id = is_id ∙ ap (λ x. get x "content_id") signed.is_content in
      let same_time = is_time ∙ ap (λ x. get (get x "payload") "created_at") signed.is_content in
      let made =
        signed_json signed.id shared.fingerprint
          (payload_json me signed.id "message" signed.created_at key shared.fingerprint c)
          signed.signature in
      let hashed =
        subst (λ x. signed_content_hash w.rt x ≡ ok shared.content_hash) signed.is_content
          is_hash in
      let claim_payload = claim_payload_json me shared built.message_id spec (route_json k.0 k.1) in
      let claim = claim_json shared.fingerprint claim_payload built.signature in
      let sender =
        check_sender-composed w.rt keys me key shared.fingerprint signed.id "message"
          signed.created_at c signed.signature signed.canonical is_fingerprint claim_payload
          built.signature built.canonical some_key signed.is_canonical signed.verifies
          posted.is_canonical built.verifies (eq_refl shared.fingerprint) in
      let bound =
        check_binding-composed w.rt keys me key shared.fingerprint signed.id "message"
          signed.created_at c signed.signature signed.canonical is_fingerprint shared
          built.message_id spec k built.ciphertext built.signature own_key own shared.content_hash
          is_key is_own addressed hashed refl same_id same_time visible in
      record {
        is_valid = built.is_valid;
        is_valid_content = signed.is_valid;
        claim = claim;
        is_valid_claim = posted.is_valid_claim;
        is_right_version =
            subst (λ x. check_versions w.rt keys claim x ≡ ok tt) (sym signed.is_content) refl;
        plain = built.plain;
        is_plain = posted.is_plain;
        is_encrypted =
            built.is_ciphertext
            ∙ ap (λ x. ok (text (get x "delivery_ciphertext_armored"))) (sym posted.is_envelope);
        fingerprint = shared.fingerprint;
        is_sender = is_fingerprint;
        is_from_sender =
            subst (λ x. check_sender w.rt keys x claim ≡ ok shared.fingerprint)
              (sym signed.is_content) sender;
        is_bound =
            subst (λ x. check_binding w.rt keys x content claim ≡ ok tt) (sym posted.is_envelope)
              (subst
                (λ x.
                  check_binding w.rt keys
                    (envelope_json w.rt me shared built.message_id spec (route_json k.0 k.1)
                      built.ciphertext)
                    x claim
                  ≡ ok tt)
                (sym signed.is_content) bound);
      }

-- The ciphertext of the content in an envelope that carries it.
inline_ciphertext :
    (w : World) (me : Profile) (shared : Shared) (spec : RecipientSpec) (id : String) (route : Json)
    (delivery_ciphertext : String) (envelope : Json)
    → envelope ≡ envelope_json w.rt me shared id spec route delivery_ciphertext
    → get envelope "ciphertext_armored" ≡ (if shared.is_inline then str shared.ciphertext else null)
unfolding get
inline_ciphertext w me shared spec id route delivery_ciphertext envelope is_envelope =
    elim (Bool-cases shared.is_inline) [
      | inl inside ↦ rw (is_envelope, inside) refl
      | inr outside ↦ rw (is_envelope, outside) refl
    ]

module _ (w : World) (me : Profile) {key secret : String} (pair : IsPair w key secret)
    (some_key : (key == "") ≡ false) where
  -- What a client composes for recipients agrees with the checks that they make of it. If the client
  -- signs with a key pair whose public key is not empty, and `build_message` and then
  -- `build_delivery_envelopes` return, then for each envelope and the recipient it is made for, and a
  -- receiver whose own fingerprint is the one that the recipient's identity names: the envelope, the
  -- content and the claim are valid and of this version, the ciphertext of the claim in the envelope is
  -- the encryption of the claim's canonical text for that recipient's key, `check_sender` finds claim
  -- and content signed by the sender, and `check_binding` finds envelope, claim, content and visible
  -- recipients in agreement. The envelope carries a ciphertext of the content exactly where it goes inline: the
  -- one that was given, or else the encryption of the content for all the recipients. This is about claim and content as they were composed: that what is decrypted and parsed again passes
  -- the same checks is no part of it.
  pub message-IsConsistent :
      (specs : List RecipientSpec) (body : String) (metadata : Json) (content_id : Option String)
      (now : String) (s : ClientCore) (u : Uses key secret s) (content : Json) (s1 : ClientCore)
      → build_message w me specs body metadata content_id now s ≡ (ok content, s1)
      → (ciphertext : Option String) (is_inline : Bool) (envelopes : List Json) (t : ClientCore)
      → build_delivery_envelopes w me content specs ciphertext is_inline s1 ≡ (ok envelopes, t)
      → (envelope : Json) (spec : RecipientSpec) → Paired envelope spec envelopes specs
      → (keys : Keys) (own_key own : String) → keys.public_key ≡ ok own_key
      → endpoint_fingerprint w.rt own_key ≡ ok own
      → get spec.identity "endpoint_fingerprint" ≡ str own
      → IsConsistent w keys key content envelope spec
        × (used : String) × (or_encrypt w me content specs ciphertext ≡ ok used)
        × (get envelope "ciphertext_armored" ≡ (if is_inline then str used else null))
  unfolding build_message
  message-IsConsistent specs body metadata content_id now s u content s1 h ciphertext is_inline
        envelopes t made envelope spec at keys own_key own is_key is_own addressed =
      lift-case (validate_recipient_specs w.rt specs) _ s h λ _ valid h1.
        lift-case (visible_routes w.rt "to" specs) _ s h1 λ to is_to h2.
          lift-case (visible_routes w.rt "cc" specs) _ s h2 λ cc is_cc h3.
            let audience = validate_recipient_specs-IsAudience w.rt specs valid in
            let (composed, u1) =
              build_signed_content-IsComposed w me pair u "message"
                (message_json body metadata to cc) content_id none now h3 in
            let (shared, is_id, is_time, is_hash, is_fingerprint, is_used, inside, each) =
              build_delivery_envelopes-IsBuilt w me pair content specs ciphertext is_inline s1 u1
                envelopes t made in
            let (k, there, is_k) =
              Paired-At w.rt envelope spec envelopes specs audience.routes audience.routed at in
            let (_, _, visible) =
              visible_routes-shown w.rt specs audience to cc is_to is_cc spec k there body metadata
                me shared "" in
            let signed =
              Signed-by w me key shared.fingerprint (message_json body metadata to cc) content
                composed is_fingerprint in
            let built = each envelope spec at in
            (
              consistent w me some_key keys own_key own is_key is_own shared spec k body metadata to
                  cc content envelope addressed is_k visible built signed is_fingerprint is_id
                  is_time is_hash,
              shared.ciphertext,
              is_used,
              subst
                  (λ b.
                    get envelope "ciphertext_armored" ≡ (if b then str shared.ciphertext else null))
                  inside
                  (inline_ciphertext w me shared spec built.message_id built.route built.ciphertext
                    envelope built.is_envelope),
            )
