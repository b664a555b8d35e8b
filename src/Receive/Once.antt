-- ===== src/Receive/Once.antt =====
-- Whole runs of `process_envelope` of endpoint/client_core.py.
use endpoint_protocol.Prelude.{
  String, ◌≡◌, refl, ap, Bool, true, false, not, Option, sym, ◌∙◌, arith,
}
use mathlib.Core.Path.{subst}
use endpoint_protocol.Json.{Json, get, text}
use endpoint_protocol.Errors.{EndpointError, ok, err, raised, require_error}
use endpoint_protocol.Errors.Laws.{require_error-inv, ok-inj}
use endpoint_protocol.Runtime.{Runtime}
use endpoint_protocol.Protocol.Limits.{default_limits}
use endpoint_protocol.Protocol.Delivery.{validate_delivery_envelope}
use endpoint_protocol.Exec.{Exec, pure, update, lift, gets, ◌>>=◌, ◌>>◌}
use endpoint_protocol.Exec.Laws.{lift-inv, lift-ok, exec-case, modify-inv, gets-inv}
use endpoint_protocol.Storage.Client.{
  ClientState, get_trust, has_processed, mark_processed, remember_identity,
}
use endpoint_protocol.Storage.Client.Laws.{has_processed-mark_processed}
use endpoint_protocol.Receive.{Keys, open_envelope}
use endpoint_protocol.Receive.Laws.{IsGenuine, open_envelope-IsGenuine}
use endpoint_protocol.Receive.Process.{
  ReceivedMessage, sender_identity, already_processed, note_sender, mark_if, record_message,
  process_envelope,
}

not-inv : (b : Bool) → not b ≡ true → b ≡ false
not-inv b h = ground arith

module _ (rt : Runtime) where
  -- What was recorded of a message.
  recorded :
      (message_id : String) (claim content : Json) (fingerprint : String) (s : ClientState)
      {message : ReceivedMessage} {t : ClientState}
      → record_message rt true message_id (claim, content, fingerprint) s ≡ (ok message, t)
      → (message.sender_fingerprint ≡ fingerprint)
        × (message.raw_payload ≡ get content "payload")
        × (message.raw_delivery_claim ≡ get claim "payload")
        × (has_processed (rt.nfc message_id) t ≡ true)
  unfolding record_message mark_if pure
  recorded message_id claim content fingerprint s {message} {t} h =
      let payload = get content "payload" in
      let claim_payload = get claim "payload" in
      let identity = sender_identity payload claim_payload fingerprint in
      exec-case (note_sender rt claim_payload fingerprint) _ s h λ _ s1 _ h1.
        exec-case (update (remember_identity rt identity)) _ s1 h1 λ _ s2 _ h2.
          let h3 = modify-inv (mark_processed rt message_id) _ s2 h2 in
          let h4 = gets-inv (get_trust fingerprint) _ (mark_processed rt message_id s2) h3 in
          let same = sym (ok-inj (ap (λ r. r.0) h4)) in
          (
            ap (λ m. m.sender_fingerprint) same,
            ap (λ m. m.raw_payload) same,
            ap (λ m. m.raw_delivery_claim) same,
            subst (λ u. has_processed (rt.nfc message_id) u ≡ true) (ap (λ r. r.1) h4)
                (has_processed-mark_processed rt message_id s2),
          )

  -- A message that is processed with marking had not been processed before in that state, and the normal
  -- form of its id, which is what the file keeps, counts as processed afterwards. There are a claim and a content that the client decrypts of the envelope and of the
  -- fetched content, whose payloads the result holds. Both are signed with the public key that the
  -- content names, whose fingerprint is the sender's of the result, and both are bound to the envelope
  -- and to the client's own key.
  pub process_envelope-IsGenuine :
      (keys : Keys) (envelope : Json) (content_object : Option Json) (s : ClientState)
      (message : ReceivedMessage) (t : ClientState)
      → process_envelope rt keys true envelope content_object s ≡ (ok message, t)
      → (claim : Json) × (content : Json) × (has_processed (text (get envelope "message_id")) s
          ≡ false)
        × IsGenuine rt keys envelope content_object claim content message.sender_fingerprint
        × (message.raw_payload ≡ get content "payload")
        × (message.raw_delivery_claim ≡ get claim "payload")
        × (has_processed (rt.nfc (text (get envelope "message_id"))) t ≡ true)
  unfolding process_envelope
  process_envelope-IsGenuine keys envelope content_object s message t h =
      let message_id = text (get envelope "message_id") in
      let (_, _, h1) = lift-inv (validate_delivery_envelope rt envelope default_limits) _ s h in
      let h2 = gets-inv (has_processed message_id) _ s h1 in
      let (_, is_new, h3) =
        lift-inv (require_error (not (has_processed message_id s)) already_processed) _ s h2 in
      let (opened, is_opened, h4) =
        lift-inv (open_envelope rt keys envelope content_object) _ s h3 in
      let genuine = open_envelope-IsGenuine rt keys envelope content_object is_opened in
      let (same, raw_payload, raw_claim, marked) =
        recorded message_id opened.0 opened.1 opened.2 s h4 in
      let fresh = require_error-inv (not (has_processed message_id s)) already_processed is_new in
      let moved =
        subst (IsGenuine rt keys envelope content_object opened.0 opened.1) (sym same) genuine in
      (
        opened.0,
        opened.1,
        not-inv (has_processed message_id s) fresh,
        moved,
        raw_payload,
        raw_claim,
        marked,
      )

  refused :
      {A : Type 0} (message_id : String) (e : EndpointError) (rest : Exec ClientState A)
      (t : ClientState)
      → has_processed message_id t ≡ true
      → (gets (has_processed message_id) >>= λ known. lift (require_error (not known) e) >> rest) t
        ≡ (err (raised e), t)
  unfolding ◌>>=◌
  refused message_id e rest t known = rw known refl

  -- No message whose id is in NFC is processed twice: after a run that processed an envelope with
  -- marking, processing the envelope again, with whatever keys, content and marking, is refused and leaves the state as it is.
  pub process_envelope-once :
      (keys : Keys) (envelope : Json) (content_object : Option Json) (s : ClientState)
      (message : ReceivedMessage) (t : ClientState)
      → process_envelope rt keys true envelope content_object s ≡ (ok message, t)
      → rt.nfc (text (get envelope "message_id")) ≡ text (get envelope "message_id")
      → (other_keys : Keys) (marks : Bool) (other : Option Json)
      → process_envelope rt other_keys marks envelope other t ≡ (err (raised already_processed), t)
  unfolding process_envelope
  process_envelope-once keys envelope content_object s message t h normal other_keys marks other =
      let (_, valid, _) = lift-inv (validate_delivery_envelope rt envelope default_limits) _ s h in
      let (_, _, _, _, _, _, known) =
        process_envelope-IsGenuine keys envelope content_object s message t h in
      lift-ok (validate_delivery_envelope rt envelope default_limits) _ t valid
      ∙ refused (text (get envelope "message_id")) already_processed _ t
          (subst (λ id. has_processed id t ≡ true) normal known)
