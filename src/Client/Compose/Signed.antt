-- ===== src/Client/Compose/Signed.antt =====
-- What `build_signed_content` and `build_envelope` of endpoint/client_core.py have made when they return.
use mathlib.Core.Path.{subst}
use endpoint_protocol.Prelude.{String, ◌≡◌, sym, ◌∙◌, ap, Option}
use endpoint_protocol.Json.{Json, get, text}
use endpoint_protocol.Errors.{ok}
use endpoint_protocol.Errors.Laws.{ok-inj}
use endpoint_protocol.Exec.{pure}
use endpoint_protocol.Exec.Laws.{lift-case, exec-case}
use endpoint_protocol.Protocol.Limits.{default_limits}
use endpoint_protocol.Protocol.Canonical.{canonical_json}
use endpoint_protocol.Protocol.Content.{validate_signed_content}
use endpoint_protocol.Protocol.Delivery.{validate_delivery_claim, validate_delivery_envelope}
use endpoint_protocol.Crypto.{endpoint_fingerprint, verify_detached}
use endpoint_protocol.KeyStore.{encrypt_to}
use endpoint_protocol.Client.{Profile, World, ClientCore, public_key_armored, sign}
use endpoint_protocol.Client.Compose.{or_uuid, or_text, build_signed_content, build_envelope}
use endpoint_protocol.Client.Compose.Objects.{
  Shared, payload_json, signed_json, claim_payload_json, claim_json, envelope_json,
}
use endpoint_protocol.Client.Compose.Recipients.{RecipientSpec, route_for_spec}
use endpoint_protocol.Client.Compose.Signing.{
  Uses, IsPair, public_key_armored-inv, sign-inv, or_uuid-Uses,
}

-- A content that is signed with a key.
pub record IsComposed (w : World) (me : Profile) (key content_type : String) (c content : Json)
    : Type 0 where
  pub id : String
  pub created_at : String
  pub fingerprint : String
  pub signature : String
  pub canonical : String
  pub is_content :
      content
      ≡ signed_json id fingerprint
          (payload_json me id content_type created_at key fingerprint c)
          signature
  pub is_fingerprint : endpoint_fingerprint w.rt key ≡ ok fingerprint
  pub is_canonical :
      canonical_json w.rt (payload_json me id content_type created_at key fingerprint c)
      ≡ ok canonical
  pub verifies : verify_detached w.rt key canonical signature ≡ ok tt
  pub is_valid : validate_signed_content w.rt content default_limits ≡ ok tt

-- An envelope with the claim that is encrypted in it.
pub record IsBuilt (w : World) (me : Profile) (key : String) (shared : Shared)
    (spec : RecipientSpec) (envelope : Json) : Type 0 where
  pub route : Json
  pub is_route : route_for_spec w.rt spec ≡ ok route
  pub message_id : String
  pub signature : String
  pub canonical : String
  pub is_canonical :
      canonical_json w.rt (claim_payload_json me shared message_id spec route) ≡ ok canonical
  pub verifies : verify_detached w.rt key canonical signature ≡ ok tt
  pub is_valid_claim :
      validate_delivery_claim w.rt
        (claim_json shared.fingerprint
          (claim_payload_json me shared message_id spec route)
          signature)
        default_limits
      ≡ ok tt
  pub plain : String
  pub is_plain :
      canonical_json w.rt (
        claim_json shared.fingerprint
          (claim_payload_json me shared message_id spec route)
          signature)
      ≡ ok plain
  pub ciphertext : String
  pub is_ciphertext :
      encrypt_to w.pgp (text (get spec.identity "public_key_armored")) plain ≡ ok ciphertext
  pub is_envelope : envelope ≡ envelope_json w.rt me shared message_id spec route ciphertext
  pub is_valid : validate_delivery_envelope w.rt envelope default_limits ≡ ok tt

module _ (w : World) (me : Profile) {key secret : String} (pair : IsPair w key secret) where
  pub build_signed_content-IsComposed :
      {s : ClientCore} (u : Uses key secret s) (content_type : String) (c : Json)
      (content_id created_at : Option String) (now : String) {content : Json} {t : ClientCore}
      → build_signed_content w me content_type c content_id created_at now s ≡ (ok content, t)
      → IsComposed w me key content_type c content × Uses key secret t
  unfolding build_signed_content pure
  build_signed_content-IsComposed {s} u content_type c content_id created_at now {content} {t} h =
      let at = or_text w me created_at now in
      exec-case (public_key_armored w) _ s h λ k s1 is_k h1.
        let (same_key, same) = public_key_armored-inv w u is_k in
        lift-case (endpoint_fingerprint w.rt k) _ s1 h1 λ fingerprint is_fingerprint h2.
          exec-case (or_uuid w me content_id) _ s1 h2 λ id s2 is_id h3.
            let u2 = or_uuid-Uses w me content_id (subst (Uses key secret) same u) is_id in
            let payload = payload_json me id content_type at k fingerprint c in
            lift-case (canonical_json w.rt payload) _ s2 h3 λ canonical is_canonical h4.
              exec-case (sign w canonical) _ s2 h4 λ signature s3 is_signature h5.
                let (verified, kept) = sign-inv w pair u2 canonical is_signature in
                let signed = signed_json id fingerprint payload signature in
                lift-case (validate_signed_content w.rt signed default_limits) _ s3 h5 λ _ valid h6.
                  let there =
                    subst (λ x. verify_detached w.rt x canonical signature ≡ ok tt) (sym same_key)
                      verified in
                  let composed : IsComposed w me k content_type c content = record {
                    id = id;
                    created_at = at;
                    fingerprint = fingerprint;
                    signature = signature;
                    canonical = canonical;
                    is_content = sym (ok-inj (ap (λ r. r.0) h6));
                    is_fingerprint = is_fingerprint;
                    is_canonical = is_canonical;
                    verifies = there;
                    is_valid =
                        subst (λ x. validate_signed_content w.rt x default_limits ≡ ok tt)
                          (ok-inj (ap (λ r. r.0) h6)) valid;
                  } in
                  (
                    subst (λ x. IsComposed w me x content_type c content) same_key composed,
                    subst (Uses key secret) (kept ∙ ap (λ r. r.1) h6) u2,
                  )

  pub build_envelope-IsBuilt :
      {s : ClientCore} (u : Uses key secret s) (shared : Shared) (spec : RecipientSpec)
      {envelope : Json} {t : ClientCore}
      → build_envelope w me shared spec s ≡ (ok envelope, t)
      → IsBuilt w me key shared spec envelope × Uses key secret t
  unfolding build_envelope pure
  build_envelope-IsBuilt {s} u shared spec {envelope} {t} h =
      lift-case (route_for_spec w.rt spec) _ s h λ route is_route h1.
        exec-case (or_uuid w me spec.message_id) _ s h1 λ id s1 is_id h2.
          let u1 = or_uuid-Uses w me spec.message_id u is_id in
          let payload = claim_payload_json me shared id spec route in
          lift-case (canonical_json w.rt payload) _ s1 h2 λ canonical is_canonical h3.
            exec-case (sign w canonical) _ s1 h3 λ signature s2 is_signature h4.
              let (verified, kept) = sign-inv w pair u1 canonical is_signature in
              let claim = claim_json shared.fingerprint payload signature in
              let key_of = text (get spec.identity "public_key_armored") in
              lift-case (validate_delivery_claim w.rt claim default_limits) _ s2 h4 λ _ is_claim h5.
                lift-case (canonical_json w.rt claim) _ s2 h5 λ plain is_plain h6.
                  lift-case (encrypt_to w.pgp key_of plain) _ s2 h6 λ cipher is_cipher h7.
                    let made = envelope_json w.rt me shared id spec route cipher in
                    lift-case (validate_delivery_envelope w.rt made default_limits) _ s2 h7
                      λ _ valid h8.
                        let e : made ≡ envelope = ok-inj (ap (λ r. r.0) h8) in
                        (
                          record {
                            route = route;
                            is_route = is_route;
                            message_id = id;
                            signature = signature;
                            canonical = canonical;
                            is_canonical = is_canonical;
                            verifies = verified;
                            is_valid_claim = is_claim;
                            plain = plain;
                            is_plain = is_plain;
                            ciphertext = cipher;
                            is_ciphertext = is_cipher;
                            is_envelope = sym e;
                            is_valid =
                                subst
                                  (λ x. validate_delivery_envelope w.rt x default_limits ≡ ok tt) e
                                  valid;
                          },
                          subst (Uses key secret) (kept ∙ ap (λ r. r.1) h8) u1,
                        )
