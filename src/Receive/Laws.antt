-- ===== src/Receive/Laws.antt =====
-- What the checks of `process_envelope` of endpoint/client_core.py are about.
use endpoint_protocol.Prelude.{String, ◌≡◌, refl, ap, true, Option}
use endpoint_protocol.Json.{Json, get, text, is_text, is_the_text, json_eq}
use endpoint_protocol.Errors.{ok}
use endpoint_protocol.Errors.Laws.{bind-inv, then-inv, ok-inj}
use endpoint_protocol.Runtime.{Runtime}
use endpoint_protocol.Protocol.Canonical.{canonical_json}
use endpoint_protocol.Protocol.Content.{signed_content_hash, validate_signed_content}
use endpoint_protocol.Protocol.Delivery.{validate_delivery_claim, delivery_outer_compare_fields}
use endpoint_protocol.Transport.Policy.{is_empty}
use endpoint_protocol.Crypto.{endpoint_fingerprint, verify_detached}
use endpoint_protocol.Protocol.Limits.{default_limits}
use endpoint_protocol.Receive.{
  Keys, open_ciphertext, content_ciphertext, check_versions, check_visible_role, check_sender,
  check_binding, open_envelope,
}

module _ (rt : Runtime) (keys : Keys) where
  -- Claim and content are signed with the key that they name, and both name its fingerprint.
  pub record IsFrom (fingerprint : String) (content claim : Json) : Type 0 where
    pub key : String
    pub is_key : text (get (get content "payload") "sender_public_key_armored") ≡ key
    pub is_fingerprint : endpoint_fingerprint rt key ≡ ok fingerprint
    pub signed : String
    pub is_signed : canonical_json rt (get content "payload") ≡ ok signed
    pub signature : verify_detached rt key signed (text (get content "signature")) ≡ ok tt
    pub claimed : String
    pub is_claimed : canonical_json rt (get claim "payload") ≡ ok claimed
    pub claim_signature : verify_detached rt key claimed (text (get claim "signature")) ≡ ok tt
    pub names_sender :
        is_the_text (get (get content "payload") "sender_fingerprint") fingerprint ≡ true
    pub claims_sender :
        is_the_text (get (get claim "payload") "sender_fingerprint") fingerprint ≡ true

  IsFrom-inv :
      (content claim : Json) {fingerprint : String}
      → check_sender rt keys content claim ≡ ok fingerprint
      → IsFrom fingerprint content claim
  unfolding check_sender
  IsFrom-inv content claim {fingerprint} h =
      let payload = get content "payload" in
      let claim_payload = get claim "payload" in
      let key = text (get payload "sender_public_key_armored") in
      let (_, h1) = then-inv (is_text (get payload "sender_public_key_armored")) _ _ h in
      let (f, is_f, h2) = bind-inv (endpoint_fingerprint rt key) _ h1 in
      let (names, h3) = then-inv (is_the_text (get payload "sender_fingerprint") f) _ _ h2 in
      let (_, h4) = then-inv (is_the_text (get content "sender_fingerprint") f) _ _ h3 in
      let (signed, is_signed, h5) = bind-inv (canonical_json rt payload) _ h4 in
      let (_, verified, h6) =
        bind-inv (verify_detached rt key signed (text (get content "signature"))) _ h5 in
      let (_, h7) = then-inv (is_the_text (get claim "sender_fingerprint") f) _ _ h6 in
      let (claims, h8) = then-inv (is_the_text (get claim_payload "sender_fingerprint") f) _ _ h7 in
      let (claimed, is_claimed, h9) = bind-inv (canonical_json rt claim_payload) _ h8 in
      let (_, claim_verified, h10) =
        bind-inv (verify_detached rt key claimed (text (get claim "signature"))) _ h9 in
      let e : f ≡ fingerprint = ok-inj h10 in
      rw (← e) (record {
        key = key;
        is_key = refl;
        is_fingerprint = is_f;
        signed = signed;
        is_signed = is_signed;
        signature = verified;
        claimed = claimed;
        is_claimed = is_claimed;
        claim_signature = claim_verified;
        names_sender = names;
        claims_sender = claims;
      })

  -- The message is addressed to the client's own key, and envelope, claim and content agree.
  pub record IsBound (envelope content claim : Json) : Type 0 where
    public_key : String
    pub is_public_key : keys.public_key ≡ ok public_key
    pub own : String
    pub is_own : endpoint_fingerprint rt public_key ≡ ok own
    pub is_recipient : is_the_text (get envelope "recipient_fingerprint") own ≡ true
    pub hash : String
    pub is_hash : signed_content_hash rt content ≡ ok hash
    pub is_content : is_the_text (get envelope "content_sha256") hash ≡ true
    pub same_sender :
        json_eq
          (get (get content "payload") "sender_route")
          (get (get claim "payload") "sender_route")
        ≡ true
    pub agrees : is_empty (delivery_outer_compare_fields envelope (get claim "payload")) ≡ true
    pub is_visible : check_visible_role (get content "payload") (get claim "payload") ≡ ok tt

  IsBound-inv :
      (envelope content claim : Json)
      → check_binding rt keys envelope content claim ≡ ok tt
      → IsBound envelope content claim
  unfolding check_binding
  IsBound-inv envelope content claim h =
      let payload = get content "payload" in
      let claim_payload = get claim "payload" in
      let (public_key, is_public_key, h1) = bind-inv keys.public_key _ h in
      let (own, is_own, h2) = bind-inv (endpoint_fingerprint rt public_key) _ h1 in
      let (recipient, h3) =
        then-inv (is_the_text (get envelope "recipient_fingerprint") own) _ _ h2 in
      let (hash, is_hash, h4) = bind-inv (signed_content_hash rt content) _ h3 in
      let (is_content, h5) = then-inv (is_the_text (get envelope "content_sha256") hash) _ _ h4 in
      let (_, h6) =
        then-inv (json_eq (get claim_payload "content_sha256") (get envelope "content_sha256")) _ _
          h5 in
      let (sender, h7) =
        then-inv (json_eq (get payload "sender_route") (get claim_payload "sender_route")) _ _ h6 in
      let (agrees, h8) =
        then-inv (is_empty (delivery_outer_compare_fields envelope claim_payload)) _ _ h7 in
      let (_, visible) =
        then-inv (is_the_text (get claim_payload "recipient_fingerprint") own) _ _ h8 in
      record {
        public_key = public_key;
        is_public_key = is_public_key;
        own = own;
        is_own = is_own;
        is_recipient = recipient;
        hash = hash;
        is_hash = is_hash;
        is_content = is_content;
        same_sender = sender;
        agrees = agrees;
        is_visible = visible;
      }

  -- Claim and content are what the client decrypts of the envelope and of the content it refers to.
  pub record IsOpened (envelope : Json) (content_object : Option Json) (content claim : Json)
      : Type 0 where
    pub is_claim :
        open_ciphertext rt keys
          (text (get envelope "delivery_ciphertext_armored"))
          "delivery claim could not be decrypted"
        ≡ ok claim
    pub ciphertext : String
    pub is_ciphertext : content_ciphertext rt keys envelope content_object ≡ ok ciphertext
    pub is_content :
        open_ciphertext rt keys ciphertext "content could not be decrypted" ≡ ok content

  -- A message whose parts agree, and come from the owner of the key with this fingerprint.
  pub record IsGenuine (envelope : Json) (content_object : Option Json) (claim content : Json)
      (fingerprint : String) : Type 0 where
    pub opened : IsOpened envelope content_object content claim
    pub from : IsFrom fingerprint content claim
    pub bound : IsBound envelope content claim

  IsGenuine-moved :
      (envelope : Json) (content_object : Option Json) {cl claim co content : Json}
      {f fingerprint : String}
      → cl ≡ claim
      → co ≡ content
      → f ≡ fingerprint
      → IsGenuine envelope content_object cl co f
      → IsGenuine envelope content_object claim content fingerprint
  IsGenuine-moved envelope content_object to_claim to_content to_fingerprint genuine =
      rw (← to_claim, ← to_content, ← to_fingerprint) genuine

  pub open_envelope-IsGenuine :
      (envelope : Json) (content_object : Option Json) {claim content : Json} {fingerprint : String}
      → open_envelope rt keys envelope content_object ≡ ok (claim, content, fingerprint)
      → IsGenuine envelope content_object claim content fingerprint
  unfolding open_envelope
  open_envelope-IsGenuine envelope content_object {claim} {content} {fingerprint} h =
      let delivery = text (get envelope "delivery_ciphertext_armored") in
      let (cl, is_claim, h1) =
        bind-inv (open_ciphertext rt keys delivery "delivery claim could not be decrypted") _ h in
      let (ciphertext, is_ciphertext, h2) =
        bind-inv (content_ciphertext rt keys envelope content_object) _ h1 in
      let (co, is_content, h3) =
        bind-inv (open_ciphertext rt keys ciphertext "content could not be decrypted") _ h2 in
      let (_, _, h4) = bind-inv (check_versions rt keys cl co) _ h3 in
      let (_, _, h5) = bind-inv (validate_delivery_claim rt cl default_limits) _ h4 in
      let (_, _, h6) = bind-inv (validate_signed_content rt co default_limits) _ h5 in
      let (f, is_f, h7) = bind-inv (check_sender rt keys co cl) _ h6 in
      let (_, bound, h8) = bind-inv (check_binding rt keys envelope co cl) _ h7 in
      let e = ok-inj h8 in
      let opened : IsOpened envelope content_object co cl = record {
        is_claim = is_claim;
        ciphertext = ciphertext;
        is_ciphertext = is_ciphertext;
        is_content = is_content;
      } in
      IsGenuine-moved envelope content_object (ap (λ r. r.0) e) (ap (λ r. r.1) e) (ap (λ r. r.2) e)
        (record {
          opened = opened;
          from = IsFrom-inv co cl is_f;
          bound = IsBound-inv envelope co cl bound;
        })
