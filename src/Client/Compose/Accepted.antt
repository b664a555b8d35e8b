-- ===== src/Client/Compose/Accepted.antt =====
-- What one client of endpoint/client_core.py composes, another one accepts: the checks of
-- `process_envelope` hold of it.
use endpoint_protocol.Prelude.{
  String, ◌≡◌, refl, ◌∙◌, ap, true, false, not, List, [], ◌∷◌, ◌==◌, eq_refl,
}
use endpoint_protocol.Json.{Json, str, get, is_the_text, json_eq}
use endpoint_protocol.Errors.{ok}
use endpoint_protocol.Errors.Laws.{bind-ok, then-ok}
use endpoint_protocol.Runtime.{Runtime}
use endpoint_protocol.Protocol.Canonical.{canonical_json}
use endpoint_protocol.Protocol.Content.{signed_content_hash}
use endpoint_protocol.Protocol.Delivery.{mismatches, outer_fields, delivery_outer_compare_fields}
use endpoint_protocol.Transport.Policy.{is_empty}
use endpoint_protocol.Crypto.{endpoint_fingerprint, verify_detached}
use endpoint_protocol.Receive.{Keys, check_visible_role, check_sender, check_binding}
use endpoint_protocol.Client.{Profile, route_json}
use endpoint_protocol.Client.Compose.Objects.{
  Shared, payload_json, signed_json, claim_payload_json, claim_json, envelope_json,
}
use endpoint_protocol.Client.Compose.Recipients.{RecipientSpec, Route}
use endpoint_protocol.Client.Compose.Visible.{json_eq-route, same_route_self}

json_eq_text : (v : Json) (s : String) → v ≡ str s → json_eq v v ≡ true
unfolding json_eq
json_eq_text v s e = rw e (eq_refl s)

json_eq_route : (k : Route) → json_eq (route_json k.0 k.1) (route_json k.0 k.1) ≡ true
json_eq_route k = json_eq-route k k ∙ same_route_self k

abbrev Agree : Json → Json → List String → Type 0
Agree v w [] = Unit {0}
Agree v w (name ∷ names) = (json_eq (get v name) (get w name) ≡ true) × Agree v w names

is_empty-mismatches :
    (v w : Json) (names : List String) → Agree v w names → is_empty (mismatches v w names) ≡ true
unfolding mismatches
is_empty-mismatches v w [] none_left = refl
is_empty-mismatches v w (name ∷ names) (same, rest) = rw same (is_empty-mismatches v w names rest)

-- An envelope and its claim have the same outer fields.
envelope-agrees :
    (rt : Runtime) (me : Profile) (shared : Shared) (message_id : String) (spec : RecipientSpec)
    (k : Route) (delivery_ciphertext id created_at own : String)
    → shared.content_id ≡ str id
    → shared.created_at ≡ str created_at
    → get spec.identity "endpoint_fingerprint" ≡ str own
    → is_empty (
        delivery_outer_compare_fields
          (envelope_json rt me shared message_id spec (route_json k.0 k.1) delivery_ciphertext)
          (claim_payload_json me shared message_id spec (route_json k.0 k.1)))
      ≡ true
unfolding delivery_outer_compare_fields
envelope-agrees rt me shared message_id spec k delivery_ciphertext id created_at own same_id
      same_time addressed =
    let v = envelope_json rt me shared message_id spec (route_json k.0 k.1) delivery_ciphertext in
    let w = claim_payload_json me shared message_id spec (route_json k.0 k.1) in
    let me_route = json_eq_route (me.home_server_url, me.client_ref) in
    let same_content = json_eq_text _ id same_id in
    let to = json_eq_text _ own addressed in
    let time = json_eq_text _ created_at same_time in
    let hash = eq_refl shared.content_hash in
    let role = eq_refl spec.role in
    is_empty-mismatches v w outer_fields (
      eq_refl message_id,
      (refl, (same_content, (hash, (me_route, (json_eq_route k, (to, (role, (time, tt)))))))),
    )

module _ (rt : Runtime) (keys : Keys) (me : Profile)
    (key fingerprint id content_type created_at : String) (c : Json) (signature canonical : String)
    (is_fingerprint : endpoint_fingerprint rt key ≡ ok fingerprint) where
  abbrev pub payload : Json
  payload = payload_json me id content_type created_at key fingerprint c

  abbrev pub content : Json
  content = signed_json id fingerprint payload signature

  pub check_sender-composed :
      (claim_payload : Json) (claim_signature claim_canonical : String)
      → (key == "") ≡ false
      → canonical_json rt payload ≡ ok canonical
      → verify_detached rt key canonical signature ≡ ok tt
      → canonical_json rt claim_payload ≡ ok claim_canonical
      → verify_detached rt key claim_canonical claim_signature ≡ ok tt
      → is_the_text (get claim_payload "sender_fingerprint") fingerprint ≡ true
      → check_sender rt keys content (claim_json fingerprint claim_payload claim_signature)
        ≡ ok fingerprint
  unfolding check_sender
  check_sender-composed claim_payload claim_signature claim_canonical some_key is_canonical verifies
        is_claimed claim_verifies claimed =
      let same = eq_refl fingerprint in
      then-ok _ (ap not some_key) (
        bind-ok _ is_fingerprint (
          then-ok _ same (
            then-ok _ same (
              bind-ok _ is_canonical (
                bind-ok _ verifies (
                  then-ok _ same
                    (then-ok _ claimed (bind-ok _ is_claimed (bind-ok _ claim_verifies refl)))))))))

  pub check_binding-composed :
      (shared : Shared) (message_id : String) (spec : RecipientSpec) (k : Route)
      (delivery_ciphertext claim_signature own_key own hash : String)
      → keys.public_key ≡ ok own_key
      → endpoint_fingerprint rt own_key ≡ ok own
      → get spec.identity "endpoint_fingerprint" ≡ str own
      → signed_content_hash rt content ≡ ok hash
      → shared.content_hash ≡ hash
      → shared.content_id ≡ str id
      → shared.created_at ≡ str created_at
      → check_visible_role payload
          (claim_payload_json me shared message_id spec (route_json k.0 k.1))
        ≡ ok tt
      → check_binding rt keys
          (envelope_json rt me shared message_id spec (route_json k.0 k.1) delivery_ciphertext)
          content
          (claim_json fingerprint
            (claim_payload_json me shared message_id spec (route_json k.0 k.1))
            claim_signature)
        ≡ ok tt
  unfolding check_binding
  check_binding-composed shared message_id spec k delivery_ciphertext claim_signature own_key own
        hash is_key is_own addressed is_hash same_hash same_id same_time visible =
      let to_own : is_the_text (get spec.identity "endpoint_fingerprint") own ≡ true =
        ap (λ v. is_the_text v own) addressed ∙ eq_refl own in
      let hashed = ap (λ h. h == hash) same_hash ∙ eq_refl hash in
      let claimed = eq_refl shared.content_hash in
      let from_me = json_eq_route (me.home_server_url, me.client_ref) in
      let agrees =
        envelope-agrees rt me shared message_id spec k delivery_ciphertext id created_at own same_id
          same_time addressed in
      bind-ok _ is_key (
        bind-ok _ is_own (
          then-ok _ to_own (
            bind-ok _ is_hash (
              then-ok _ hashed (
                then-ok _ claimed
                  (then-ok _ from_me (then-ok _ agrees (then-ok _ to_own visible))))))))
