-- ===== src/Storage/Client/Frames.antt =====
-- Which files of a client its methods leave alone.
use endpoint_protocol.Prelude.{String, ◌≡◌, sym, ap, Option, []}
use endpoint_protocol.Json.{Json, get, text}
use endpoint_protocol.Errors.{ok}
use endpoint_protocol.Errors.Laws.{bind-inv, ok-inj}
use endpoint_protocol.Runtime.{Runtime}
use endpoint_protocol.Transport.Policy.{normalize_server_url}
use endpoint_protocol.Dict.{put, get_or}
use endpoint_protocol.Storage.Files.{stored_json, save_dict}
use endpoint_protocol.Storage.Client.{
  ClientState, Pin, append_new, stored_texts, stored_pin, route_key, note_route, remember_route,
  remember_identity, remember_contact_pin,
}

-- Trust and the list of processed messages.
pub record KeepsTrust (s t : ClientState) : Type 0 where
  pub trust : t.trust ≡ s.trust
  pub processed : t.processed_messages ≡ s.processed_messages

module _ (rt : Runtime) where
  note_route-rest :
      (key fingerprint : String) (s : ClientState) {warning : Option String} {t : ClientState}
      → note_route rt key fingerprint s ≡ ok (warning, t)
      → KeepsTrust s t × (t.identities ≡ s.identities)
  unfolding note_route
  note_route-rest key fingerprint s h =
      let seen = get_or [] key s.routes in
      let (routes, _, left) =
        bind-inv (save_dict rt (stored_texts rt) (put key (append_new fingerprint seen) s.routes)) _
          h in
      let e = sym (ok-inj left) in
      (
        record { trust = ap (λ r. r.1.trust) e; processed = ap (λ r. r.1.processed_messages) e },
        ap (λ r. r.1.identities) e,
      )

  pub remember_route-rest :
      (server_url client_ref fingerprint : String) (s : ClientState) {warning : Option String}
      {t : ClientState}
      → remember_route rt server_url client_ref fingerprint s ≡ ok (warning, t)
      → KeepsTrust s t × (t.identities ≡ s.identities)
  unfolding remember_route
  remember_route-rest server_url client_ref fingerprint s h =
      let (key, _, noted) = bind-inv (route_key rt server_url client_ref) _ h in
      note_route-rest key fingerprint s noted

  pub remember_identity-rest :
      (identity : Json) (s : ClientState) {t : ClientState}
      → remember_identity rt identity s ≡ ok t
      → KeepsTrust s t
  unfolding remember_identity
  remember_identity-rest identity s h =
      let f = text (get identity "endpoint_fingerprint") in
      let (identities, _, left) =
        bind-inv (save_dict rt (stored_json rt) (put f identity s.identities)) _ h in
      let e = sym (ok-inj left) in
      record { trust = ap (λ u. u.trust) e; processed = ap (λ u. u.processed_messages) e }

  pub remember_contact_pin-rest :
      (server_url client_ref fingerprint : String) (s : ClientState) {t : ClientState}
      → remember_contact_pin rt server_url client_ref fingerprint s ≡ ok t
      → KeepsTrust s t
  unfolding remember_contact_pin
  remember_contact_pin-rest server_url client_ref fingerprint s h =
      let (url, _, h1) = bind-inv (normalize_server_url rt server_url) _ h in
      let (key, _, h2) = bind-inv (route_key rt url client_ref) _ h1 in
      let pin : Pin = record {
        server_url = url;
        client_ref = client_ref;
        endpoint_fingerprint = fingerprint;
      } in
      let (pins, _, left) =
        bind-inv (save_dict rt (stored_pin rt) (put key pin s.contact_pins)) _ h2 in
      let e = sym (ok-inj left) in
      record { trust = ap (λ u. u.trust) e; processed = ap (λ u. u.processed_messages) e }
