-- ===== src/Client/Compose/Visible.antt =====
-- Recipients that endpoint/client_core.py accepts, and who of them everybody sees: what a sender writes
-- into a message is what a recipient checks.
use endpoint_protocol.Prelude.{
  String, ◌≡◌, ◌⊎◌, refl, sym, ◌∙◌, ap, Bool, true, false, true≢false, not, ◌&&◌, ◌||◌, List, [],
  ◌∷◌, ◌==◌, arith, eq_iff, eq_refl, Bool-cases, inl, inr,
}
use endpoint_protocol.Json.{Json, Items, cons, json_eq}
use endpoint_protocol.Errors.{ok}
use endpoint_protocol.Errors.Laws.{bind-inv, then-inv, ok-inj}
use endpoint_protocol.Runtime.{Runtime}
use endpoint_protocol.Transport.Policy.{contains, is_empty}
use endpoint_protocol.Receive.{has_route}
use endpoint_protocol.Client.{route_json}
use endpoint_protocol.Client.Identity.{verify_recipient_key_material}
use endpoint_protocol.Client.Compose.Recipients.{
  RecipientSpec, Route, has_key, is_known_role, fingerprint_of, route_key_of, route_for_spec,
  check_specs, validate_recipient_specs, visible_routes,
}

abbrev pub same_route : Route → Route → Bool
same_route r k = r.0 == k.0 && r.1 == k.1

-- The routes of a list of recipients, in order.
abbrev pub Routed : Runtime → List RecipientSpec → List Route → Type 0
Routed rt [] [] = Unit {0}
Routed rt [] (k ∷ ks) = ⊥
Routed rt (spec ∷ specs) [] = ⊥
Routed rt (spec ∷ specs) (k ∷ ks) = (route_key_of rt spec ≡ ok k) × Routed rt specs ks

-- No route is one of those before it.
abbrev pub Fresh : List Route → List Route → Type 0
Fresh seen [] = Unit {0}
Fresh seen (k ∷ ks) = (has_key k seen ≡ false) × Fresh (k ∷ seen) ks

-- A recipient of a list, with its route.
abbrev pub At : RecipientSpec → Route → List RecipientSpec → List Route → Type 0
At spec k [] ks = ⊥
At spec k (s ∷ specs) [] = ⊥
At spec k (s ∷ specs) (j ∷ ks) = ((s ≡ spec) × (j ≡ k)) ⊎ At spec k specs ks

abbrev pub AllVerified : Runtime → List RecipientSpec → Type 0
AllVerified rt [] = Unit {0}
AllVerified rt (spec ∷ specs) =
    (is_known_role spec.role ≡ true)
    × (verify_recipient_key_material rt spec.identity ≡ ok tt)
    × AllVerified rt specs

-- No fingerprint twice.
abbrev pub FreshKeys : List String → List RecipientSpec → Type 0
FreshKeys seen [] = Unit {0}
FreshKeys seen (spec ∷ specs) =
    (contains (fingerprint_of spec) seen ≡ false) × FreshKeys (fingerprint_of spec ∷ seen) specs

-- What the check of the recipients has found.
pub record IsAudience (rt : Runtime) (specs : List RecipientSpec) : Type 0 where
  pub some_recipient : is_empty specs ≡ false
  pub verified : AllVerified rt specs
  pub routes : List Route
  pub routed : Routed rt specs routes
  pub distinct_routes : Fresh [] routes
  pub distinct_keys : FreshKeys [] specs

not-inv : (b : Bool) → not b ≡ true → b ≡ false
not-inv b h = ground arith

module _ (rt : Runtime) where
  check_specs-inv :
      (specs : List RecipientSpec) (seen : List Route) (fingerprints : List String)
      → check_specs rt specs seen fingerprints ≡ ok tt
      → AllVerified rt specs
        × (keys : List Route) × Routed rt specs keys
        × Fresh seen keys
        × FreshKeys fingerprints specs
  unfolding check_specs
  check_specs-inv [] seen fingerprints h = (tt, [], tt, tt, tt)
  check_specs-inv (spec ∷ specs) seen fingerprints h =
      let (known, h1) = then-inv (is_known_role spec.role) _ _ h in
      let (_, verified, h2) = bind-inv (verify_recipient_key_material rt spec.identity) _ h1 in
      let (key, is_key, h3) = bind-inv (route_key_of rt spec) _ h2 in
      let (fresh, h4) = then-inv (not (has_key key seen)) _ _ h3 in
      let (fresh_key, h5) = then-inv (not (contains (fingerprint_of spec) fingerprints)) _ _ h4 in
      let (all, keys, routed, distinct, distinct_keys) =
        check_specs-inv specs (key ∷ seen) (fingerprint_of spec ∷ fingerprints) h5 in
      (
        (known, verified, all),
        key ∷ keys,
        (is_key, routed),
        (not-inv _ fresh, distinct),
        (not-inv _ fresh_key, distinct_keys),
      )

  -- Recipients that are accepted are one at least, each with a known role and verified key material,
  -- and no two of them have the same route or the same fingerprint.
  pub validate_recipient_specs-IsAudience :
      (specs : List RecipientSpec) → validate_recipient_specs rt specs ≡ ok tt → IsAudience rt specs
  unfolding validate_recipient_specs
  validate_recipient_specs-IsAudience specs h =
      let (some_one, h1) = then-inv (not (is_empty specs)) _ _ h in
      let (verified, routes, routed, distinct, distinct_keys) = check_specs-inv specs [] [] h1 in
      record {
        some_recipient = not-inv _ some_one;
        verified = verified;
        routes = routes;
        routed = routed;
        distinct_routes = distinct;
        distinct_keys = distinct_keys;
      }

pub json_eq-route :
    (r k : Route) → json_eq (route_json r.0 r.1) (route_json k.0 k.1) ≡ same_route r k
unfolding json_eq
json_eq-route r k = ground arith

-- Whether some recipient with a role has a route.
abbrev pub seen_as : String → Route → List RecipientSpec → List Route → Bool
seen_as role k [] ks = false
seen_as role k (spec ∷ specs) [] = false
seen_as role k (spec ∷ specs) (j ∷ ks) =
    (spec.role == role && same_route j k) || seen_as role k specs ks

module _ (rt : Runtime) where
  pub route_for_spec-of :
      (spec : RecipientSpec) (k : Route)
      → route_key_of rt spec ≡ ok k
      → route_for_spec rt spec ≡ ok (route_json k.0 k.1)
  unfolding route_for_spec
  route_for_spec-of spec k h = rw h refl

  has_route-cons :
      (k j : Route) (route : Json) (rest routes : Items) (seen : Bool)
      → cons route rest ≡ routes
      → route ≡ route_json j.0 j.1
      → has_route (route_json k.0 k.1) rest ≡ seen
      → has_route (route_json k.0 k.1) routes ≡ (same_route j k || seen)
  unfolding has_route
  has_route-cons k j route rest routes seen is_routes is_route h =
      rw (← is_routes, is_route, json_eq-route j k, h) refl

  pub has_route-visible :
      (role : String) (k : Route) (specs : List RecipientSpec) (ks : List Route) (routes : Items)
      → Routed rt specs ks
      → visible_routes rt role specs ≡ ok routes
      → has_route (route_json k.0 k.1) routes ≡ seen_as role k specs ks
  unfolding has_route visible_routes
  has_route-visible role k [] [] routes routed h = rw (← (ok-inj h)) refl
  has_route-visible role k [] (j ∷ ks) routes routed h = absurd routed
  has_route-visible role k (spec ∷ specs) [] routes routed h = absurd routed
  has_route-visible role k (spec ∷ specs) (j ∷ ks) routes (is_j, routed) h =
      elim (Bool-cases (spec.role == role)) [
        | inr other ↦ rw other (has_route-visible role k specs ks routes routed (rw other at h))
        | inl same ↦
            let (route, is_route, h1) = bind-inv (route_for_spec rt spec) _ (rw same at h) in
            let (rest, is_rest, h2) = bind-inv (visible_routes rt role specs) _ h1 in
            let e : route ≡ route_json j.0 j.1 =
              ok-inj (sym is_route ∙ route_for_spec-of spec j is_j) in
            let seen = has_route-visible role k specs ks rest routed is_rest in
            rw same (has_route-cons k j route rest routes _ (ok-inj h2) e seen)
      ]

has_key-older :
    (k j : Route) (seen : List Route)
    → has_key k (j ∷ seen) ≡ false
    → (same_route j k ≡ false) × (has_key k seen ≡ false)
has_key-older k j seen h = ground arith

same_route→eq : (r k : Route) → same_route r k ≡ true → r ≡ k
same_route→eq r k h = ground (arith, eq_iff r.0 k.0, eq_iff r.1 k.1)

pub same_route_self : (k : Route) → same_route k k ≡ true
same_route_self k = rw (eq_refl k.0, eq_refl k.1) refl

differs :
    (j k : Route) (seen : List Route)
    → has_key k seen ≡ true
    → has_key j seen ≡ false
    → same_route j k ≡ false
differs j k seen known new = elim (Bool-cases (same_route j k)) [
  | inr other ↦ other
  | inl same ↦
      absurd
        (true≢false (sym known ∙ (ap (λ r. has_key r seen) (sym (same_route→eq j k same)) ∙ new)))
]

At-Fresh :
    (spec : RecipientSpec) (k : Route) (specs : List RecipientSpec) (ks seen : List Route)
    → Fresh seen ks
    → At spec k specs ks
    → has_key k seen ≡ false
At-Fresh spec k [] ks seen fresh at = absurd at
At-Fresh spec k (s ∷ specs) [] seen fresh at = absurd at
At-Fresh spec k (s ∷ specs) (j ∷ ks) seen (here_fresh, rest) (inl (e, is_k)) =
    rw (← is_k) here_fresh
At-Fresh spec k (s ∷ specs) (j ∷ ks) seen (here_fresh, rest) (inr at) =
    (has_key-older k j seen (At-Fresh spec k specs ks (j ∷ seen) rest at)).1

-- The routes behind one that was seen are other ones.
seen_as-Fresh :
    (role : String) (k : Route) (specs : List RecipientSpec) (ks seen : List Route)
    → has_key k seen ≡ true
    → Fresh seen ks
    → seen_as role k specs ks ≡ false
seen_as-Fresh role k [] ks seen known fresh = refl
seen_as-Fresh role k (s ∷ specs) [] seen known fresh = refl
seen_as-Fresh role k (s ∷ specs) (j ∷ ks) seen known (new, rest) =
    let other = differs j k seen known new in
    let older : has_key k (j ∷ seen) ≡ true = rw (other, known) refl in
    let behind = seen_as-Fresh role k specs ks (j ∷ seen) older rest in ground arith

pub seen_as-At :
    (role : String) (spec : RecipientSpec) (k : Route) (specs : List RecipientSpec)
    (ks seen : List Route)
    → Fresh seen ks
    → At spec k specs ks
    → seen_as role k specs ks ≡ (spec.role == role)
seen_as-At role spec k [] ks seen fresh at = absurd at
seen_as-At role spec k (s ∷ specs) [] seen fresh at = absurd at
seen_as-At role spec k (s ∷ specs) (j ∷ ks) seen (new, rest) (inl (e, is_k)) =
    let same : same_route j k ≡ true = rw is_k (same_route_self k) in
    let known : has_key k (j ∷ seen) ≡ true = rw same refl in
    let behind = seen_as-Fresh role k specs ks (j ∷ seen) known rest in
    let role_of : s.role ≡ spec.role = ap (λ x. x.role) e in
    rw (same, behind, role_of) (ground arith)
seen_as-At role spec k (s ∷ specs) (j ∷ ks) seen (new, rest) (inr at) =
    let other = (has_key-older k j seen (At-Fresh spec k specs ks (j ∷ seen) rest at)).0 in
    let behind = seen_as-At role spec k specs ks (j ∷ seen) rest at in ground arith
