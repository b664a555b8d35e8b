-- ===== src/Client/Compose/Shown.antt =====
-- What a sender writes into a message of endpoint/client_core.py about its recipients is what each
-- recipient checks, and hides those in Bcc.
use endpoint_protocol.Prelude.{
  String, ◌≡◌, ◌⊎◌, refl, sym, ◌∙◌, ap, true, List, [], ◌∷◌, ◌==◌, eq_iff, Bool-cases, inl, inr,
}
use endpoint_protocol.Json.{Json, Items}
use endpoint_protocol.Errors.{ok}
use endpoint_protocol.Runtime.{Runtime}
use endpoint_protocol.Receive.{has_route, check_visible}
use endpoint_protocol.Client.{Profile, route_json}
use endpoint_protocol.Client.Compose.Objects.{Shared, claim_payload_json}
use endpoint_protocol.Client.Compose.Recipients.{
  RecipientSpec, Route, is_known_role, visible_routes, message_json,
}
use endpoint_protocol.Client.Compose.Visible.{
  At, AllVerified, IsAudience, has_route-visible, seen_as-At,
}

is_known_role-inv :
    (role : String) → is_known_role role ≡ true → (role ≡ "to") ⊎ (role ≡ "cc") ⊎ (role ≡ "bcc")
is_known_role-inv role h = elim (Bool-cases (role == "to")) [
  | inl to ↦ inl ((eq_iff role "to").0 to)
  | inr other ↦ elim (Bool-cases (role == "cc")) [
    | inl cc ↦ inr (inl ((eq_iff role "cc").0 cc))
    | inr neither ↦
        let bcc : (role == "bcc") ≡ true = rw (other, neither) at h in
        inr (inr ((eq_iff role "bcc").0 bcc))
  ]
]

At-known :
    (rt : Runtime) (spec : RecipientSpec) (k : Route) (specs : List RecipientSpec) (ks : List Route)
    → AllVerified rt specs
    → At spec k specs ks
    → is_known_role spec.role ≡ true
At-known rt spec k [] ks all at = absurd at
At-known rt spec k (s ∷ specs) [] all at = absurd at
At-known rt spec k (s ∷ specs) (j ∷ ks) (known, _, all) (inl (e, _)) =
    ap (λ x. is_known_role x.role) (sym e) ∙ known
At-known rt spec k (s ∷ specs) (j ∷ ks) (known, _, all) (inr at) =
    At-known rt spec k specs ks all at

module _ (body : String) (metadata : Json) (to cc : Items) (me : Profile) (shared : Shared)
    (message_id : String) (spec : RecipientSpec) (k : Route) where
  -- By the role of a recipient that stands in the lists as its role says.
  check_visible-role :
      (spec.role ≡ "to") ⊎ (spec.role ≡ "cc") ⊎ (spec.role ≡ "bcc")
      → has_route (route_json k.0 k.1) to ≡ (spec.role == "to")
      → has_route (route_json k.0 k.1) cc ≡ (spec.role == "cc")
      → check_visible
          (message_json body metadata to cc)
          (claim_payload_json me shared message_id spec (route_json k.0 k.1))
        ≡ ok tt
  unfolding check_visible
  check_visible-role (inl e) in_to in_cc =
      let here = in_to ∙ ap (λ r. r == "to") e in rw (e, here) refl
  check_visible-role (inr (inl e)) in_to in_cc =
      let here = in_cc ∙ ap (λ r. r == "cc") e in rw (e, here) refl
  check_visible-role (inr (inr e)) in_to in_cc =
      let not_to = in_to ∙ ap (λ r. r == "to") e in
      let not_cc = in_cc ∙ ap (λ r. r == "cc") e in rw (e, not_to, not_cc) refl

-- For recipients that are accepted, the lists of a message show whoever is in To or Cc, in the list of
-- that name, and nobody else, so nobody in Bcc; and what each recipient checks of the lists against its
-- own claim holds.
pub visible_routes-shown :
    (rt : Runtime) (specs : List RecipientSpec) (audience : IsAudience rt specs) (to cc : Items)
    → visible_routes rt "to" specs ≡ ok to
    → visible_routes rt "cc" specs ≡ ok cc
    → (spec : RecipientSpec) (k : Route) → At spec k specs audience.routes
    → (body : String) (metadata : Json) (me : Profile) (shared : Shared) (message_id : String)
    → (has_route (route_json k.0 k.1) to ≡ (spec.role == "to"))
      × (has_route (route_json k.0 k.1) cc ≡ (spec.role == "cc"))
      × (check_visible
            (message_json body metadata to cc)
            (claim_payload_json me shared message_id spec (route_json k.0 k.1))
          ≡ ok tt)
visible_routes-shown rt specs audience to cc is_to is_cc spec k at body metadata me shared
      message_id =
    let ks = audience.routes in
    let in_list =
      λ (role : String). seen_as-At role spec k specs ks [] audience.distinct_routes at in
    let in_to = has_route-visible rt "to" k specs ks to audience.routed is_to ∙ in_list "to" in
    let in_cc = has_route-visible rt "cc" k specs ks cc audience.routed is_cc ∙ in_list "cc" in
    let known = is_known_role-inv spec.role (At-known rt spec k specs ks audience.verified at) in
    (
      in_to,
      in_cc,
      check_visible-role body metadata to cc me shared message_id spec k known in_to in_cc,
    )
