-- ===== src/Client/Inbox.antt =====
-- `receive_messages` of endpoint/client_core.py: a client reads messages from its WebSocket, fetches
-- what they refer to, and acknowledges or rejects each.
--
-- Time is how often the test `time() < deadline` still holds; a wait that ends in a TimeoutError ends
-- at the deadline, so the test fails from then on. The frames that come before it are a list.
pub mod Frames
pub mod Opens
pub mod Laws
pub mod Runs
use endpoint_protocol.Prelude.{
  ℕ, zero, suc, ◌-◌, String, Bool, true, false, ◌&&◌, Option, none, some, List, [], ◌∷◌, ◌++◌, ltb,
  if◌then◌else◌, length,
}
use endpoint_protocol.Json.{Json, get, is_obj, is_str, is_the_text, text}
use endpoint_protocol.Errors.{EndpointError, Result, ok, err, raised, crash}
use endpoint_protocol.Exec.{Exec, pure, lift, modify, ◌>>=◌, ◌>>◌}
use endpoint_protocol.Runtime.{Runtime}
use endpoint_protocol.Transport.Policy.{contains}
use endpoint_protocol.Protocol.Delivery.{delivery_envelope_uses_content_reference}
use endpoint_protocol.Storage.Client.{ClientState, mark_processed}
use endpoint_protocol.Receive.{Keys}
use endpoint_protocol.Receive.Process.{ReceivedMessage, process_envelope}
use endpoint_protocol.Client.Discover.{Answer}
use endpoint_protocol.Client.Fetch.{fetch_content_object}
use endpoint_protocol.Client.Inbox.Frames.{
  Session, Socket, ack_frame, reject_frame, send_frame, not_a_dict, wait_for_result, next_frame,
}

-- The codes that a server is told; every other failure is `invalid_envelope`.
abbrev pub reject_codes : List String
reject_codes =
    "malformed_ciphertext" ∷ "wrong_recipient" ∷ "signature_invalid" ∷ "outer_inner_mismatch"
    ∷ "delivery_claim_invalid" ∷ "content_hash_mismatch" ∷ "content_unavailable" ∷ "content_expired"
    ∷ []

unfoldable pub reject_reason : String → String
unfolding contains
reject_reason code = if contains code reject_codes then code else "invalid_envelope"

unfoldable pub keep_message : Runtime → ReceivedMessage → Session → Session
unfolding mark_processed
keep_message rt m s = record s {
  state = mark_processed rt m.message_id s.state;
  messages = s.messages ++ m ∷ [];
}

-- `len(messages) < limit and time() < deadline`
abbrev pub goes_on : ℕ → Session → Bool
goes_on limit s = ltb (length s.messages) limit && ltb 0 s.ticks

unfoldable pub tick : Session → Session
tick s = record s { ticks = s.ticks - 1 }

abbrev pub after_turn :
    (Session → Option (Result (Unit {0}) × Session))
    → Result Bool
    → Session
    → Option (Result (Unit {0}) × Session)
after_turn again (ok true) t = again t
after_turn again (ok false) t = some (ok tt, t)
after_turn again (err e) t = some (err e, t)

module _ (rt : Runtime) (keys : Keys) (fetch : Json → Answer) where
  -- The `try` block: the content that the envelope refers to, and the message.
  unfoldable pub open_message : Json → Exec ClientState ReceivedMessage
  unfolding delivery_envelope_uses_content_reference fetch_content_object process_envelope
  open_message envelope = do
    is_reference ← lift (delivery_envelope_uses_content_reference rt envelope)
    content_object ← lift (if is_reference then fetch_content_object rt fetch envelope else ok none)
    process_envelope rt keys false envelope content_object

  unfoldable pub try_open : Json → Session → Result ReceivedMessage × Session
  unfolding open_message
  try_open envelope s =
      let opened = open_message envelope s.state in (opened.0, record s { state = opened.1 })

  -- The handler of an `EndpointError`.
  unfoldable pub reject_message : Json → EndpointError → Socket (Unit {0})
  unfolding send_frame reject_reason wait_for_result get
  reject_message envelope e =
      let message_id = get envelope "message_id" in
      if is_obj envelope && is_str message_id
      then (do
        modify (send_frame (reject_frame (text message_id) (reject_reason e.code)))
        _ ← wait_for_result rt "reject_result" (text message_id)
        pure tt)
      else pure tt

  -- The acknowledgement: only what the server confirms is kept.
  unfoldable pub ack_message : ReceivedMessage → Socket (Unit {0})
  unfolding send_frame wait_for_result keep_message
  ack_message m = do
    modify (send_frame (ack_frame m.message_id))
    confirmed ← wait_for_result rt "ack_result" m.message_id
    if confirmed then modify (keep_message rt m) else pure tt

  abbrev pub handled : Json → Result ReceivedMessage → Socket (Unit {0})
  handled envelope (ok m) = ack_message m
  handled envelope (err (raised e)) = reject_message envelope e
  handled envelope (err (crash what)) = lift (err (crash what))

  unfoldable pub handle_message : Json → Socket (Unit {0})
  unfolding try_open reject_message ack_message
  handle_message envelope s = let opened = try_open envelope s in handled envelope opened.0 opened.1

  unfoldable pub handle_frame : Json → Socket (Unit {0})
  unfolding handle_message get
  handle_frame frame =
      if is_obj frame
      then (if is_the_text (get frame "type") "message"
          then handle_message (get frame "envelope")
          else pure tt)
      else lift (err not_a_dict)

  -- One turn of the loop, and whether the loop goes on.
  abbrev pub handle_next : Option Json → Socket Bool
  handle_next none = pure false
  handle_next (some frame) = do handle_frame frame; pure true

  unfoldable pub turn : Socket Bool
  unfolding next_frame handle_frame
  turn = do frame ← next_frame rt; handle_next frame

  -- The loop on fuel; `none` is that it ran out.
  unfoldable pub receive_loop : ℕ → ℕ → Session → Option (Result (Unit {0}) × Session)
  unfolding turn tick
  receive_loop zero limit s = none
  receive_loop (suc fuel) limit s =
      let next = after_turn (receive_loop fuel limit) (turn (tick s)).0 (turn (tick s)).1 in
      if goes_on limit s then next else some (ok tt, s)

abbrev pub connected : ClientState → ℕ → List String → Session
connected state ticks wire = record {
  state = state;
  ticks = ticks;
  wire = wire;
  deferred = [];
  sent = [];
  messages = [];
}

-- `receive_messages`, with fuel for all its turns.
unfoldable pub receive_messages :
    Runtime → Keys → (Json → Answer) → ℕ → Session → Option (Result (Unit {0}) × Session)
unfolding receive_loop
receive_messages rt keys fetch limit s = receive_loop rt keys fetch (suc s.ticks) limit s
