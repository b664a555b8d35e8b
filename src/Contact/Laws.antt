-- ===== src/Contact/Laws.antt =====
-- What a contact that `normalize_contact` returns satisfies.
use endpoint_protocol.Prelude.{
  String, ◌≡◌, ◌⊎◌, inl, inr, sym, Bool, true, ◌&&◌, ◌==◌, eq_iff, arith,
}
use endpoint_protocol.Json.{
  Json, Fields, null, bool, int, float, str, arr, obj, end, field, get, is_obj, is_str, is_text,
  is_the_text, text,
}
use endpoint_protocol.Errors.{Result-cases, ok, ◌>>◌, raised, crash}
use endpoint_protocol.Errors.Laws.{bind-inv, then-inv, ok-inj}
use endpoint_protocol.Runtime.{Runtime}
use endpoint_protocol.Protocol.Limits.{default_limits}
use endpoint_protocol.Protocol.Patterns.{matches_class, is_fingerprint}
use endpoint_protocol.Protocol.Parts.{validate_metadata, validate_identity_envelope}
use endpoint_protocol.Transport.Policy.{normalize_server_url}
use endpoint_protocol.Contact.{
  contact_kind, check, validate_endpoint_fingerprint, is_ref_char, validate_client_ref,
  contact_json, hashable, is_contact_version, contact_url, contact_identity, normalize_contact,
}

second_holds : (a b : Bool) → (a && b) ≡ true → b ≡ true
second_holds a b h = ground arith

module _ (rt : Runtime) where
  -- The public identity of a contact is valid and speaks of the same client and key.
  pub record IsIdentity (identity : Json) (client_ref fingerprint : String) : Type 0 where
    pub is_valid : validate_identity_envelope rt identity default_limits ≡ ok tt
    pub is_client : text (get identity "client_ref") ≡ client_ref
    pub is_key : text (get identity "endpoint_fingerprint") ≡ fingerprint

  -- The contact `w` for what was given as `v`.
  pub record IsContact (v w : Json) : Type 0 where
    pub url : String
    pub client_ref : String
    pub fingerprint : String
    pub rest : Fields
    pub is_contact :
        contact_json
          (text (get v "protocol_version"))
          url
          client_ref
          fingerprint
          (get v "metadata")
          rest
        ≡ w
    pub is_version : is_contact_version (get v "protocol_version") ≡ true
    pub is_url : normalize_server_url rt (text (get v "server_url")) ≡ ok url
    pub is_ref : matches_class is_ref_char 1 128 client_ref ≡ true
    pub is_key : is_fingerprint fingerprint ≡ true
    pub is_metadata : validate_metadata rt (get v "metadata") default_limits ≡ ok tt
    pub is_identity :
        (rest ≡ end)
        ⊎ ((rest ≡ field "public_identity" (get v "public_identity") end)
            × IsIdentity (get v "public_identity") client_ref fingerprint)

  url-inv :
      (given : String) {url : String}
      → contact_url rt given ≡ ok url
      → normalize_server_url rt given ≡ ok url
  unfolding contact_url
  url-inv given {url} h = elim (Result-cases (normalize_server_url rt given)) [
    | inl (n, e) ↦ ground (arith, e)
    | inr (raised x, e) ↦ ground (arith, e)
    | inr (crash what, e) ↦ ground (arith, e)
  ]

  ref-inv :
      (v : Json) {ref : String}
      → validate_client_ref v ≡ ok ref
      → matches_class is_ref_char 1 128 ref ≡ true
  unfolding validate_client_ref
  ref-inv v {ref} h =
      let (fits, h1) = then-inv (is_str v && matches_class is_ref_char 1 128 (text v)) _ _ h in
      rw (← ok-inj h1) (second_holds (is_str v) _ fits)

  key-inv :
      (v : Json) {key : String}
      → validate_endpoint_fingerprint v ≡ ok key
      → is_fingerprint key ≡ true
  unfolding validate_endpoint_fingerprint
  key-inv v {key} h =
      let (fits, h1) = then-inv (is_str v && is_fingerprint (text v)) _ _ h in
      rw (← ok-inj h1) (second_holds (is_str v) _ fits)

  -- The last item of a contact.
  abbrev IsRest : Json → String → String → Fields → Type 0
  IsRest identity ref key rest =
      (rest ≡ end) ⊎ ((rest ≡ field "public_identity" identity end) × IsIdentity identity ref key)

  checked_identity :
      (identity : Json) (ref key : String) {rest : Fields}
      → (do
        validate_identity_envelope rt identity default_limits
        check (text (get identity "client_ref") == ref) "contact identity client_ref mismatch"
        check
            (text (get identity "endpoint_fingerprint") == key)
            "contact identity fingerprint mismatch"
        ok (field "public_identity" identity end))
        ≡ ok rest
      → IsRest identity ref key rest
  checked_identity identity ref key {rest} h =
      let client = text (get identity "client_ref") in
      let own_key = text (get identity "endpoint_fingerprint") in
      let (_, valid, h1) = bind-inv (validate_identity_envelope rt identity default_limits) _ h in
      let (is_client, h2) = then-inv (client == ref) _ _ h1 in
      let (is_key, h3) = then-inv (own_key == key) _ _ h2 in
      inr (
        sym (ok-inj h3),
        record {
          is_valid = valid;
          is_client = (eq_iff client ref).0 is_client;
          is_key = (eq_iff own_key key).0 is_key;
        },
      )

  identity-inv :
      (identity : Json) (ref key : String) {rest : Fields}
      → contact_identity rt identity ref key ≡ ok rest
      → IsRest identity ref key rest
  unfolding contact_identity
  identity-inv null ref key {rest} h = inl (sym (ok-inj h))
  identity-inv (bool b) ref key {rest} h = checked_identity (bool b) ref key h
  identity-inv (int z) ref key {rest} h = checked_identity (int z) ref key h
  identity-inv (float s) ref key {rest} h = checked_identity (float s) ref key h
  identity-inv (str s) ref key {rest} h = checked_identity (str s) ref key h
  identity-inv (arr xs) ref key {rest} h = checked_identity (arr xs) ref key h
  identity-inv (obj fs) ref key {rest} h = checked_identity (obj fs) ref key h

  -- A contact that `normalize_contact` returns names a normal server URL, a client reference and a
  -- fingerprint of the right form, valid metadata, and no public identity but a valid one of the same
  -- client and key.
  pub normalize_contact-IsContact : (v w : Json) → normalize_contact rt v ≡ ok w → IsContact v w
  unfolding normalize_contact
  normalize_contact-IsContact v w h =
      let version = get v "protocol_version" in
      let (_, h1) = then-inv (is_obj v) _ _ h in
      let (_, h2) = then-inv (is_the_text (get v "kind") contact_kind) _ _ h1 in
      let (_, _, h3) = bind-inv (hashable version) _ h2 in
      let (is_version, h4) = then-inv (is_contact_version version) _ _ h3 in
      let (_, h5) = then-inv (is_text (get v "server_url")) _ _ h4 in
      let (url, is_url, h6) = bind-inv (contact_url rt (text (get v "server_url"))) _ h5 in
      let (ref, is_ref, h7) = bind-inv (validate_client_ref (get v "client_ref")) _ h6 in
      let (key, is_key, h8) =
        bind-inv (validate_endpoint_fingerprint (get v "endpoint_fingerprint")) _ h7 in
      let (_, metadata, h9) =
        bind-inv (validate_metadata rt (get v "metadata") default_limits) _ h8 in
      let (rest, is_rest, h10) =
        bind-inv (contact_identity rt (get v "public_identity") ref key) _ h9 in
      record {
        url = url;
        client_ref = ref;
        fingerprint = key;
        rest = rest;
        is_contact = ok-inj h10;
        is_version = is_version;
        is_url = url-inv (text (get v "server_url")) is_url;
        is_ref = ref-inv (get v "client_ref") is_ref;
        is_key = key-inv (get v "endpoint_fingerprint") is_key;
        is_metadata = metadata;
        is_identity = identity-inv (get v "public_identity") ref key is_rest;
      }
