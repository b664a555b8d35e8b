-- ===== src/Client/Compose/Delivers.antt =====
-- What `build_delivery_envelopes` of endpoint/client_core.py makes for each recipient.
use mathlib.Core.Path.{subst}
use endpoint_protocol.Prelude.{
  String, ◌≡◌, ◌⊎◌, refl, sym, ap, Bool, Option, List, [], ◌∷◌, inl, inr,
}
use endpoint_protocol.Json.{Json, get, is_the_text}
use endpoint_protocol.Errors.{ok, require}
use endpoint_protocol.Errors.Laws.{ok-inj}
use endpoint_protocol.Exec.{pure}
use endpoint_protocol.Exec.Laws.{lift-case, exec-case}
use endpoint_protocol.Runtime.{Runtime}
use endpoint_protocol.Protocol.Limits.{default_limits}
use endpoint_protocol.Protocol.Content.{validate_signed_content, signed_content_hash}
use endpoint_protocol.Crypto.{endpoint_fingerprint}
use endpoint_protocol.Client.{Profile, World, ClientCore, public_key_armored}
use endpoint_protocol.Client.Compose.{
  or_encrypt, build_envelope, build_envelopes, build_delivery_envelopes,
}
use endpoint_protocol.Client.Compose.Objects.{Shared}
use endpoint_protocol.Client.Compose.Recipients.{
  RecipientSpec, Route, route_key_of, validate_recipient_specs,
}
use endpoint_protocol.Client.Compose.Visible.{Routed, At}
use endpoint_protocol.Client.Compose.Signing.{Uses, IsPair, public_key_armored-inv}
use endpoint_protocol.Client.Compose.Signed.{IsBuilt, build_envelope-IsBuilt}

-- An envelope and the recipient that it is for.
abbrev pub Paired : Json → RecipientSpec → List Json → List RecipientSpec → Type 0
Paired envelope spec [] specs = ⊥
Paired envelope spec (e ∷ es) [] = ⊥
Paired envelope spec (e ∷ es) (s ∷ specs) =
    ((e ≡ envelope) × (s ≡ spec)) ⊎ Paired envelope spec es specs

pub Paired-At :
    (rt : Runtime) (envelope : Json) (spec : RecipientSpec) (es : List Json)
    (specs : List RecipientSpec) (ks : List Route)
    → Routed rt specs ks
    → Paired envelope spec es specs
    → (k : Route) × At spec k specs ks × (route_key_of rt spec ≡ ok k)
Paired-At rt envelope spec [] specs ks routed at = absurd at
Paired-At rt envelope spec (e ∷ es) [] ks routed at = absurd at
Paired-At rt envelope spec (e ∷ es) (s ∷ specs) [] routed at = absurd routed
Paired-At rt envelope spec (e ∷ es) (s ∷ specs) (k ∷ ks) (is_k, routed) (inl (_, same)) =
    (k, inl (same, refl), subst (λ x. route_key_of rt x ≡ ok k) same is_k)
Paired-At rt envelope spec (e ∷ es) (s ∷ specs) (k ∷ ks) (is_k, routed) (inr at) =
    let (j, there, is_j) = Paired-At rt envelope spec es specs ks routed at in (j, inr there, is_j)

module _ (w : World) (me : Profile) {key secret : String} (pair : IsPair w key secret) where
  IsBuilt-at :
      (shared : Shared) (envelope : Json) (spec : RecipientSpec) (made : Json)
      (here : RecipientSpec) (rest : List Json) (there : List RecipientSpec)
      → (Paired envelope spec rest there → IsBuilt w me key shared spec envelope)
      → IsBuilt w me key shared here made
      → Paired envelope spec (made ∷ rest) (here ∷ there)
      → IsBuilt w me key shared spec envelope
  IsBuilt-at shared envelope spec made here rest there later built (inr at) = later at
  IsBuilt-at shared envelope spec made here rest there later built (inl (e, same)) =
      subst (λ x. IsBuilt w me key shared spec x) e
        (subst (λ x. IsBuilt w me key shared x made) same built)

  build_envelopes-IsBuilt :
      (shared : Shared) (specs : List RecipientSpec) (s : ClientCore) (u : Uses key secret s)
      (envelopes : List Json) (t : ClientCore)
      → build_envelopes w me shared specs s ≡ (ok envelopes, t)
      → (envelope : Json) (spec : RecipientSpec) → Paired envelope spec envelopes specs
      → IsBuilt w me key shared spec envelope
  unfolding build_envelopes pure
  build_envelopes-IsBuilt shared [] s u [] t h envelope spec at = absurd at
  build_envelopes-IsBuilt shared [] s u (e ∷ es) t h envelope spec at = absurd at
  build_envelopes-IsBuilt shared (first ∷ specs) s u envelopes t h envelope spec at =
      exec-case (build_envelope w me shared first) _ s h λ made s1 is_made h1.
        exec-case (build_envelopes w me shared specs) _ s1 h1 λ rest s2 is_rest h2.
          let (built, u1) = build_envelope-IsBuilt w me pair u shared first is_made in
          let list : envelopes ≡ made ∷ rest = sym (ok-inj (ap (λ r. r.0) h2)) in
          IsBuilt-at shared envelope spec made first rest specs
            (build_envelopes-IsBuilt shared specs s1 u1 rest s2 is_rest envelope spec) built
            (subst (λ l. Paired envelope spec l (first ∷ specs)) list at)

  -- What all the envelopes of a content share, and each of them.
  pub build_delivery_envelopes-IsBuilt :
      (content : Json) (specs : List RecipientSpec) (ciphertext : Option String) (is_inline : Bool)
      (s : ClientCore) (u : Uses key secret s) (envelopes : List Json) (t : ClientCore)
      → build_delivery_envelopes w me content specs ciphertext is_inline s ≡ (ok envelopes, t)
      → (shared : Shared) × (shared.content_id ≡ get content "content_id")
        × (shared.created_at ≡ get (get content "payload") "created_at")
        × (signed_content_hash w.rt content ≡ ok shared.content_hash)
        × (endpoint_fingerprint w.rt key ≡ ok shared.fingerprint)
        × (or_encrypt w me content specs ciphertext ≡ ok shared.ciphertext)
        × (shared.is_inline ≡ is_inline)
        × ((envelope : Json) (spec : RecipientSpec)
            → Paired envelope spec envelopes specs
            → IsBuilt w me key shared spec envelope)
  unfolding build_delivery_envelopes
  build_delivery_envelopes-IsBuilt content specs ciphertext is_inline s u envelopes t h =
      lift-case (validate_signed_content w.rt content default_limits) _ s h λ _ _ h1.
        lift-case (validate_recipient_specs w.rt specs) _ s h1 λ _ _ h2.
          exec-case (public_key_armored w) _ s h2 λ k s1 is_k h3.
            let (same_key, same) = public_key_armored-inv w u is_k in
            lift-case (endpoint_fingerprint w.rt k) _ s1 h3 λ fingerprint is_fingerprint h4.
              lift-case
                (require
                  (is_the_text (get (get content "payload") "sender_fingerprint") fingerprint)
                  "signature_invalid" "signed content is not owned by this sender")
                _ s1 h4
                λ _ _ h5. lift-case (signed_content_hash w.rt content) _ s1 h5 λ hash is_hash h6.
                  lift-case (or_encrypt w me content specs ciphertext) _ s1 h6 λ used is_used h7.
                    let shared : Shared = record {
                      content_id = get content "content_id";
                      content_hash = hash;
                      created_at = get (get content "payload") "created_at";
                      fingerprint = fingerprint;
                      ciphertext = used;
                      is_inline = is_inline;
                    } in
                    (
                      shared,
                      refl,
                      refl,
                      is_hash,
                      subst (λ x. endpoint_fingerprint w.rt x ≡ ok fingerprint) same_key
                          is_fingerprint,
                      is_used,
                      refl,
                      build_envelopes-IsBuilt shared specs s1 (subst (Uses key secret) same u)
                          envelopes t h7,
                    )
