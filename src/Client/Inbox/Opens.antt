-- ===== src/Client/Inbox/Opens.antt =====
-- A message that is opened without marking leaves the list of processed messages as it is.
use endpoint_protocol.Prelude.{
  String, ◌≡◌, refl, ◌∙◌, false, Option, List, if◌then◌else◌, not, none,
}
use endpoint_protocol.Json.{Json, get, text}
use endpoint_protocol.Errors.{Result, ok, err, require_error}
use endpoint_protocol.Exec.{pure, update}
use endpoint_protocol.Exec.Laws.{lift-keeps, exec-keeps, gets-keeps, pure-keeps, update-property}
use endpoint_protocol.Runtime.{Runtime}
use endpoint_protocol.Protocol.Limits.{default_limits}
use endpoint_protocol.Protocol.Delivery.{
  validate_delivery_envelope, delivery_envelope_uses_content_reference,
}
use endpoint_protocol.Storage.Client.{
  ClientState, get_trust, has_processed, remember_route, remember_identity,
}
use endpoint_protocol.Storage.Client.Frames.{remember_route-rest, remember_identity-rest}
use endpoint_protocol.Receive.{Keys, open_envelope}
use endpoint_protocol.Receive.Process.{
  note_sender, record_message, mark_if, process_envelope, already_processed, routed,
  sender_identity,
}
use endpoint_protocol.Client.Discover.{Answer}
use endpoint_protocol.Client.Fetch.{fetch_content_object}
use endpoint_protocol.Client.Inbox.{open_message}

module _ (rt : Runtime) (seen : List String) where
  Unmarked : ClientState → Type 0
  Unmarked s = s.processed_messages ≡ seen

  routed-Unmarked :
      {A : Type 0} (s : ClientState) (r : Result (A × ClientState))
      → Unmarked s
      → ((a : A) (t : ClientState) → r ≡ ok (a, t) → Unmarked t)
      → Unmarked (routed s r).1
  routed-Unmarked s (ok (a, t)) h next = next a t refl
  routed-Unmarked s (err e) h next = h

  remember_route-Unmarked :
      (server_url client_ref fingerprint : String) (s : ClientState) (warning : Option String)
      (t : ClientState)
      → remember_route rt server_url client_ref fingerprint s ≡ ok (warning, t)
      → Unmarked s
      → Unmarked t
  unfolding Unmarked
  remember_route-Unmarked server_url client_ref fingerprint s warning t h before =
      let (kept, _) = remember_route-rest rt server_url client_ref fingerprint s h in
      kept.processed ∙ before

  note_sender-Unmarked :
      (claim_payload : Json) (fingerprint : String) (s : ClientState)
      → Unmarked s
      → Unmarked (note_sender rt claim_payload fingerprint s).1
  unfolding note_sender
  note_sender-Unmarked claim_payload fingerprint s h =
      let route = get claim_payload "sender_route" in
      let url = text (get route "server_url") in
      let ref = text (get route "client_ref") in
      routed-Unmarked s (remember_route rt url ref fingerprint s) h
        λ warning t noted. remember_route-Unmarked url ref fingerprint s warning t noted h

  remember_identity-Unmarked :
      (identity : Json) (s : ClientState)
      → Unmarked s
      → Unmarked (update (remember_identity rt identity) s).1
  unfolding Unmarked
  remember_identity-Unmarked identity s h =
      update-property Unmarked (remember_identity rt identity) s h
        λ t written. let kept = remember_identity-rest rt identity s written in kept.processed ∙ h

  record_message-Unmarked :
      (message_id : String) (opened : Json × Json × String) (s : ClientState)
      → Unmarked s
      → Unmarked (record_message rt false message_id opened s).1
  unfolding record_message mark_if pure
  record_message-Unmarked message_id (claim, content, fingerprint) s h =
      let payload = get content "payload" in
      let claim_payload = get claim "payload" in
      let identity = sender_identity payload claim_payload fingerprint in
      exec-keeps Unmarked (note_sender rt claim_payload fingerprint) _ s
        (note_sender-Unmarked claim_payload fingerprint s h)
        λ _ noted.
          exec-keeps Unmarked (update (remember_identity rt identity)) _ _
            (remember_identity-Unmarked identity _ noted)
            λ _ known.
              pure-keeps Unmarked _ _ (gets-keeps Unmarked (get_trust fingerprint) _ _ known)

  process_envelope-Unmarked :
      (keys : Keys) (envelope : Json) (content_object : Option Json) (s : ClientState)
      → Unmarked s
      → Unmarked (process_envelope rt keys false envelope content_object s).1
  unfolding process_envelope
  process_envelope-Unmarked keys envelope content_object s h =
      lift-keeps Unmarked (validate_delivery_envelope rt envelope default_limits) _ s h λ _.
        gets-keeps Unmarked (has_processed (text (get envelope "message_id"))) _ s (
          lift-keeps Unmarked
            (require_error (not (has_processed (text (get envelope "message_id")) s))
              already_processed)
            _ s h
            λ _.
              lift-keeps Unmarked (open_envelope rt keys envelope content_object) _ s h
                λ opened. record_message-Unmarked (text (get envelope "message_id")) opened s h)

  open_message-Unmarked :
      (keys : Keys) (fetch : Json → Answer) (envelope : Json) (s : ClientState)
      → Unmarked s
      → Unmarked (open_message rt keys fetch envelope s).1
  unfolding open_message
  open_message-Unmarked keys fetch envelope s h =
      lift-keeps Unmarked (delivery_envelope_uses_content_reference rt envelope) _ s h
        λ is_reference.
          lift-keeps Unmarked
            (if is_reference then fetch_content_object rt fetch envelope else ok none) _ s h
            λ content_object. process_envelope-Unmarked keys envelope content_object s h

pub open_message-seen :
    (rt : Runtime) (keys : Keys) (fetch : Json → Answer) (envelope : Json) (s : ClientState)
    → (open_message rt keys fetch envelope s).1.processed_messages ≡ s.processed_messages
unfolding Unmarked
open_message-seen rt keys fetch envelope s =
    open_message-Unmarked rt s.processed_messages keys fetch envelope s refl
