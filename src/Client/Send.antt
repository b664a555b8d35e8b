-- ===== src/Client/Send.antt =====
-- How a client of endpoint/client_core.py sends: it uploads the content, submits an envelope for each
-- recipient, and keeps in its outbox what the server has not queued.
pub mod Laws
use endpoint_protocol.Prelude.{
  ℕ, String, Bool, false, not, Option, none, some, List, [], ◌∷◌, leb, ◌==◌, if◌then◌else◌,
}
use endpoint_protocol.Json.{Json, get, text}
use endpoint_protocol.Errors.{EndpointError, Result, ok, raised, err, crash, detail_error}
use endpoint_protocol.Exec.{pure, lift, fail, gets, update, ◌>>=◌, ◌>>◌}
use endpoint_protocol.Storage.Client.{get_trust}
use endpoint_protocol.Storage.Outbox.{save, mark, pending_batch}
use endpoint_protocol.Runtime.{Runtime}
use endpoint_protocol.Client.{Profile, World, ClientCore, Client, on_outbox}
use endpoint_protocol.Client.Discover.{Answer, no_answer, answer}
use endpoint_protocol.Client.Compose.{build_content_object, build_delivery_envelopes, build_message}
use endpoint_protocol.Client.Compose.Recipients.{
  RecipientSpec, validate_recipient_specs, encrypt_content, to_recipient,
}

-- What a client posts to its server: /v1/client/content and /v1/client/messages.
pub data Post : Type 0 where
  content : Json → Post
  message : Json → Post

-- The server as a function from what is posted to its answer.
abbrev pub Home : Type 0
Home = Post → Answer

-- No `RequestError`, and a status below 400.
abbrev pub accepted : Answer → Bool
accepted (no_answer what) = false
accepted (answer status body value) = not (leb 400 status)

pub record DeliveryResult : Type 0 where
  pub message_id : Json
  pub content_id : Json
  pub recipient_route : Json
  pub recipient_role : Json
  pub recipient_trust_state : String
  pub status : String
  pub error_code : Option String

pub record FanoutSendResult : Type 0 where
  pub content_id : Json
  pub deliveries : List DeliveryResult

pub record SendResult : Type 0 where
  pub message_id : Json
  pub recipient_trust_state : String
  pub content_id : Json

abbrev pub trusted_as : Json → Option RecipientSpec → String
trusted_as envelope none = text (get envelope "recipient_fingerprint")
trusted_as envelope (some spec) = text (get spec.identity "endpoint_fingerprint")

-- `_delivery_result`
unfoldable pub delivery_result :
    Json → Option RecipientSpec → String → Option String → Client DeliveryResult
unfolding get_trust get
delivery_result envelope recipient status error_code = do
  trust ← gets (λ s. get_trust (trusted_as envelope recipient) s.state)
  pure (record {
    message_id = get envelope "message_id";
    content_id = get envelope "content_id";
    recipient_route = get envelope "recipient_route";
    recipient_role = get envelope "recipient_role";
    recipient_trust_state = trust;
    status = status;
    error_code = error_code;
  })

-- `self.outbox.mark(…)`, then the result.
unfoldable pub settle :
    Runtime → Json → Option RecipientSpec → String → Option String → Client DeliveryResult
unfolding on_outbox mark delivery_result get
settle rt envelope recipient status error_code = do
  update (on_outbox (mark rt (text (get envelope "message_id")) status error_code))
  delivery_result envelope recipient status error_code

-- `except EndpointError`
abbrev pub caught :
    {A : Type 0} → (EndpointError → Client A) → Result A × ClientCore → Result A × ClientCore
caught handler (ok a, s) = (ok a, s)
caught handler (err (raised e), s) = handler e s
caught handler (err (crash what), s) = (err (crash what), s)

-- `_submit_envelope`: a status from 400 and a `RequestError` give the same code.
unfoldable pub submit_envelope :
    Runtime → Home → Json → Option RecipientSpec → Client DeliveryResult
unfolding settle
submit_envelope rt home envelope recipient s =
    if accepted (home (message envelope))
    then caught (λ e. settle rt envelope recipient "failed" (some e.code))
        (settle rt envelope recipient "queued" none s)
    else settle rt envelope recipient "failed" (some "delivery_failed") s

-- `zip(envelopes, recipients, strict=True)`
unfoldable pub for_each :
    (Json → Option RecipientSpec → Client DeliveryResult)
    → List Json
    → List RecipientSpec
    → Client (List DeliveryResult)
for_each act [] [] = pure []
for_each act [] (spec ∷ specs) = lift (err (crash "ValueError"))
for_each act (envelope ∷ envelopes) [] = lift (err (crash "ValueError"))
for_each act (envelope ∷ envelopes) (spec ∷ specs) = do
  result ← act envelope (some spec)
  results ← for_each act envelopes specs
  pure (result ∷ results)

-- The loops of `retry_outbox`, which has no recipients.
unfoldable pub for_all :
    (Json → Option RecipientSpec → Client DeliveryResult) → List Json → Client (List DeliveryResult)
for_all act [] = pure []
for_all act (envelope ∷ envelopes) = do
  result ← act envelope none
  results ← for_all act envelopes
  pure (result ∷ results)

-- What is done with an envelope, by the answer to the upload.
unfoldable pub after_upload :
    Runtime → Home → Json → Json → Option RecipientSpec → Client DeliveryResult
unfolding settle submit_envelope
after_upload rt home content_object envelope recipient =
    if accepted (home (content content_object))
    then submit_envelope rt home envelope recipient
    else settle rt envelope recipient "failed" (some "content_upload_failed")

module _ (w : World) (me : Profile) (home : Home) where
  -- `send_content`; `later` is the end of the retention.
  unfoldable pub send_content : String → Json → List RecipientSpec → Client FanoutSendResult
  unfolding validate_recipient_specs encrypt_content build_content_object build_delivery_envelopes
      on_outbox save for_each after_upload get
  send_content later signed_content recipients = do
    lift (validate_recipient_specs w.rt recipients)
    ciphertext ← lift (encrypt_content w signed_content recipients)
    content_object ← build_content_object w me signed_content ciphertext none later
    envelopes ← build_delivery_envelopes w me signed_content recipients (some ciphertext) false
    update (on_outbox (save w.rt content_object envelopes))
    results ← for_each (after_upload w.rt home content_object) envelopes recipients
    pure (record { content_id = get signed_content "content_id"; deliveries = results })

  unfoldable pub send_message_fanout :
      String → String → List RecipientSpec → String → Json → Option String → Client FanoutSendResult
  unfolding build_message send_content
  send_message_fanout now later recipients body metadata content_id = do
    signed_content ← build_message w me recipients body metadata content_id now
    send_content later signed_content recipients

  abbrev first_result : FanoutSendResult → List DeliveryResult → Client SendResult
  first_result result [] = lift (err (crash "IndexError"))
  first_result result (delivery ∷ rest) =
      if delivery.status == "queued"
      then pure (record {
        message_id = delivery.message_id;
        recipient_trust_state = delivery.recipient_trust_state;
        content_id = result.content_id;
      })
      else fail (detail_error "delivery_failed" "message submission failed" delivery.error_code)

  unfoldable pub send_message :
      String → String → Json → String → String → Json → Option String → Client SendResult
  unfolding send_message_fanout
  send_message now later identity server_url body metadata message_id = do
    let recipient = to_recipient identity server_url message_id
    result ← send_message_fanout now later (recipient ∷ []) body metadata none
    first_result result result.deliveries

  -- The code of a failed upload, which only here depends on how it failed.
  abbrev upload_code : Answer → String
  upload_code (no_answer what) = "delivery_failed"
  upload_code (answer status body value) = "content_upload_failed"

  -- A failed upload marks nothing here.
  unfoldable pub retry_envelope : Json → Json → Option RecipientSpec → Client DeliveryResult
  unfolding submit_envelope delivery_result
  retry_envelope content_object envelope recipient =
      let uploaded = home (content content_object) in
      if accepted uploaded
      then submit_envelope w.rt home envelope recipient
      else delivery_result envelope recipient "failed" (some (upload_code uploaded))

  unfoldable pub retry_batch : Option (Json × List Json) → Client (Option FanoutSendResult)
  unfolding for_all retry_envelope get
  retry_batch none = pure none
  retry_batch (some (content_object, envelopes)) = do
    results ← for_all (retry_envelope content_object) envelopes
    pure (some (record { content_id = get content_object "content_id"; deliveries = results }))

  unfoldable pub retry_outbox : ℕ → Client (Option FanoutSendResult)
  unfolding pending_batch retry_batch
  retry_outbox limit = do batch ← gets (λ s. pending_batch limit s.outbox); retry_batch batch
