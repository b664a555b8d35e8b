-- ===== src/Client/Verified.antt =====
-- Identities in endpoint/client_core.py: what a client exports others can verify, and what it discovers
-- it has verified.
use mathlib.Core.Path.{subst}
use endpoint_protocol.Prelude.{
  String, ◌≡◌, refl, sym, ap, ◌∙◌, Bool, true, Option, none, some, ◌==◌, eq_refl,
}
use endpoint_protocol.Json.{Json, str, end, field, get, text}
use endpoint_protocol.Errors.{Result, ok, err, err≢ok, rethrow}
use endpoint_protocol.Errors.Laws.{bind-inv, then-inv, bind-ok, then-ok, ok-inj}
use endpoint_protocol.Exec.{pure, update}
use endpoint_protocol.Exec.Laws.{lift-case, exec-case, gets-inv, update-inv}
use endpoint_protocol.Runtime.{Runtime}
use endpoint_protocol.Protocol.Limits.{default_limits}
use endpoint_protocol.Protocol.Parts.{validate_metadata, validate_identity_envelope}
use endpoint_protocol.Protocol.Canonical.{canonical_json}
use endpoint_protocol.Protocol.Delivery.{identity_signature_payload}
use endpoint_protocol.Crypto.{endpoint_fingerprint, verify_detached}
use endpoint_protocol.Client.{
  Profile, World, ClientCore, identity_json, public_key_armored, sign, export_identity,
}
use endpoint_protocol.Protocol.Patterns.{is_fingerprint}
use endpoint_protocol.Transport.Policy.{normalize_server_url}
use endpoint_protocol.Contact.{validate_endpoint_fingerprint}
use endpoint_protocol.Dict.{Dict, lookup, put}
use endpoint_protocol.Dict.Laws.{lookup-put}
use endpoint_protocol.Storage.Files.{stored_json, save_dict}
use endpoint_protocol.Storage.Files.Laws.{save_dict-finds}
use endpoint_protocol.Storage.Client.Frames.{
  remember_route-rest, remember_identity-rest, remember_contact_pin-rest,
}
use endpoint_protocol.Storage.Client.{
  ClientState, get_trust, remember_identity, remember_contact_pin,
}
use endpoint_protocol.Receive.Process.{routed}
use endpoint_protocol.Client.Discover.{
  Answer, DiscoveryResult, discovered, discover, note_pin, note_peer,
}
use endpoint_protocol.Client.Identity.{bad_signature, verify_identity, pin_expected}
use endpoint_protocol.Client.Compose.Signing.{Uses, IsPair, public_key_armored-inv, sign-inv}

verify_identity-of :
    (w : World) (client_ref key fingerprint : String) (metadata : Json) (signature payload : String)
    → let identity =
        identity_json w client_ref key fingerprint metadata
          (field "identity_signature" (str signature) end) in
      validate_identity_envelope w.rt identity default_limits ≡ ok tt
      → endpoint_fingerprint w.rt key ≡ ok fingerprint
      → canonical_json w.rt (identity_signature_payload identity) ≡ ok payload
      → verify_detached w.rt key payload signature ≡ ok tt
      → verify_identity w.rt identity ≡ ok tt
unfolding verify_identity
verify_identity-of w client_ref key fingerprint metadata signature payload valid is_fingerprint
      is_payload verifies =
    bind-ok _ valid (
      bind-ok _ is_fingerprint (
        then-ok _ (eq_refl fingerprint)
          (bind-ok _ is_payload (ap (rethrow bad_signature) verifies))))

-- What a client exports verifies: if it signs with a key pair and the exported identity keeps to the
-- rules of identity envelopes, then every other client that verifies it accepts it.
pub export_identity-verifies :
    (w : World) (me : Profile) {key secret : String}
    → IsPair w key secret
    → (metadata : Json) (s : ClientCore) (u : Uses key secret s) (identity : Json) (t : ClientCore)
    → export_identity w me metadata s ≡ (ok identity, t)
    → validate_identity_envelope w.rt identity default_limits ≡ ok tt
    → verify_identity w.rt identity ≡ ok tt
unfolding export_identity pure
export_identity-verifies w me {key} {secret} pair metadata s u identity t h valid =
    lift-case (validate_metadata w.rt metadata default_limits) _ s h λ _ _ h1.
      exec-case (public_key_armored w) _ s h1 λ k s1 is_k h2.
        let (same_key, same) = public_key_armored-inv w u is_k in
        lift-case (endpoint_fingerprint w.rt k) _ s1 h2 λ fingerprint is_fingerprint h3.
          let unsigned = identity_json w me.client_ref k fingerprint metadata end in
          lift-case (canonical_json w.rt (identity_signature_payload unsigned)) _ s1 h3
            λ payload is_payload h4.
              exec-case (sign w payload) _ s1 h4 λ signature s2 is_signature h5.
                let (verified, _) =
                  sign-inv w pair (subst (Uses key secret) same u) payload is_signature in
                let e = ok-inj (ap (λ r. r.0) h5) in
                subst (λ x. verify_identity w.rt x ≡ ok tt) e
                  (verify_identity-of w me.client_ref k fingerprint metadata signature payload
                    (subst (λ x. validate_identity_envelope w.rt x default_limits ≡ ok tt) (sym e)
                      valid)
                    is_fingerprint is_payload
                    (subst (λ x. verify_detached w.rt x payload signature ≡ ok tt) (sym same_key)
                      verified))

-- The fingerprint is the expected one, if one is expected.
abbrev pub is_expected : Option String → String → Bool
is_expected none fingerprint = true
is_expected (some expected) fingerprint = fingerprint == expected

abbrev pub expected_pin : Option String → Option String
expected_pin none = none
expected_pin (some expected) = some "matched"

-- The identity in its stored form, under the normal form of its fingerprint.
pub record IsStored (rt : Runtime) (identity : Json) (identities : Dict Json) : Type 0 where
  pub stored : Json
  pub is_stored : stored_json rt identity ≡ ok stored
  pub found : lookup (rt.nfc (text (get identity "endpoint_fingerprint"))) identities ≡ some stored

-- What `discover` has checked and remembered.
pub record IsDiscovered (rt : Runtime) (expected : Option String) (s t : ClientState)
    (result : DiscoveryResult) : Type 0 where
  pub verified : verify_identity rt result.identity ≡ ok tt
  pub matches : is_expected expected (text (get result.identity "endpoint_fingerprint")) ≡ true
  pub pinned : result.pin_state ≡ expected_pin expected
  pub remembered : IsStored rt result.identity t.identities
  pub same_trust : t.trust ≡ s.trust
  pub trusted : result.trust_state ≡ get_trust (text (get result.identity "endpoint_fingerprint")) s

abbrev value_or : {A : Type 0} → A → Result A → A
value_or a (ok b) = b
value_or a (err e) = a

routed-inv :
    {A : Type 0} (s : ClientState) (r : Result (A × ClientState)) {a : A} {u : ClientState}
    → routed s r ≡ (ok a, u)
    → r ≡ ok (a, u)
routed-inv s (ok (b, t)) h =
    let left = ok-inj (ap (λ x. x.0) h) in
    let right = ap (λ x. x.1) h in ap ok (λ i. (left i, right i))
routed-inv s (err e) h = absurd (err≢ok (ap (λ x. x.0) h))

module _ (rt : Runtime) where
  fingerprint_text :
      (given : String) {found : String}
      → validate_endpoint_fingerprint (str given) ≡ ok found
      → given ≡ found
  unfolding validate_endpoint_fingerprint
  fingerprint_text given h = ok-inj (then-inv (is_fingerprint given) _ _ h).1

  pin_expected-inv :
      (server_url client_ref : String) (identity : Json) (expected : Option String)
      (s : ClientState) {pin : Option String} {t : ClientState}
      → pin_expected rt server_url client_ref identity expected s ≡ ok (pin, t)
      → (is_expected expected (text (get identity "endpoint_fingerprint")) ≡ true)
        × (pin ≡ expected_pin expected)
        × (t.trust ≡ s.trust)
  unfolding pin_expected
  pin_expected-inv server_url client_ref identity none s h =
      let e = ok-inj h in (refl, ap (λ r. r.0) (sym e), ap (λ r. r.1.trust) (sym e))
  pin_expected-inv server_url client_ref identity (some given) s h =
      let (found, is_found, h1) = bind-inv (validate_endpoint_fingerprint (str given)) _ h in
      let (same, h2) = then-inv (text (get identity "endpoint_fingerprint") == found) _ _ h1 in
      let (pinned, is_pinned, h3) =
        bind-inv (remember_contact_pin rt server_url client_ref found s) _ h2 in
      let e = ok-inj h3 in
      (
        ap (λ f. text (get identity "endpoint_fingerprint") == f) (fingerprint_text given is_found)
            ∙ same,
        ap (λ r. r.0) (sym e),
        ap (λ r. r.1.trust) (sym e)
            ∙ (remember_contact_pin-rest rt server_url client_ref found s is_pinned).trust,
      )

  remembered_identity :
      (identity : Json) (s : ClientState) {t : ClientState}
      → remember_identity rt identity s ≡ ok t
      → IsStored rt identity t.identities
  unfolding remember_identity
  remembered_identity identity s h =
      let f = text (get identity "endpoint_fingerprint") in
      let (identities, saved, left) =
        bind-inv (save_dict rt (stored_json rt) (put f identity s.identities)) _ h in
      let at = lookup-put f f identity s.identities ∙ rw (eq_refl f) refl in
      let (stored, is_stored, found) =
        save_dict-finds rt (stored_json rt) (put f identity s.identities) f identity saved at in
      record {
        stored = stored;
        is_stored = is_stored;
        found = ap (λ u. lookup (rt.nfc f) u.identities) (sym (ok-inj left)) ∙ found;
      }

  get_trust-same :
      (f : String) (s t : ClientState) → t.trust ≡ s.trust → get_trust f t ≡ get_trust f s
  unfolding get_trust
  get_trust-same f s t same = rw same refl

  -- A discovery that returns has verified the identity that it returns, and the fingerprint that was
  -- expected, if any, is the identity's. The identity is remembered under its fingerprint, both in
  -- the normal form that the file keeps, and nobody's trust is changed: the trust that is returned is the trust that was there.
  pub discover-IsDiscovered :
      (ask : String → String → Answer) (server_url client_ref : String) (expected : Option String)
      (s : ClientState) (result : DiscoveryResult) (t : ClientState)
      → discover rt ask server_url client_ref expected s ≡ (ok result, t)
      → IsDiscovered rt expected s t result
  unfolding discover pure note_pin note_peer
  discover-IsDiscovered ask server_url client_ref expected s result t h =
      lift-case (normalize_server_url rt server_url) _ s h λ url _ h1.
        lift-case (discovered (ask url client_ref)) _ s h1 λ identity _ h2.
          lift-case (verify_identity rt identity) _ s h2 λ _ verified h3.
            exec-case (note_pin rt url client_ref identity expected) _ s h3 λ pin s1 is_pin h4.
              let (matches, pinned, same1) =
                pin_expected-inv url client_ref identity expected s (routed-inv s _ is_pin) in
              exec-case (update (remember_identity rt identity)) _ s1 h4 λ _ s2 is_saved h5.
                let f = text (get identity "endpoint_fingerprint") in
                let saved = update-inv (remember_identity rt identity) s1 is_saved in
                exec-case (note_peer rt url client_ref f) _ s2 h5 λ warning s3 is_noted h6.
                  let (kept, identities) =
                    remember_route-rest rt url client_ref f s2 (routed-inv s2 _ is_noted) in
                  let h7 = gets-inv (get_trust f) _ s3 h6 in
                  let same =
                    kept.trust ∙ (remember_identity-rest rt identity s1 saved).trust ∙ same1 in
                  subst (λ r. IsDiscovered rt expected s r.1 (value_or result r.0)) h7
                    (record {
                      verified = verified;
                      matches = matches;
                      pinned = pinned;
                      remembered =
                          subst (IsStored rt identity) (sym identities)
                            (remembered_identity identity s1 saved);
                      same_trust = same;
                      trusted = get_trust-same f s s3 same;
                    })
