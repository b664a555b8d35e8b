-- ===== src/Tests/Inbox.antt =====
-- A run of a client that receives one message.
use endpoint_protocol.Prelude.{◌≡◌, refl, [], ◌∷◌, some, ◌==◌, if◌then◌else◌, every_char}
use endpoint_protocol.Json.{Json, str, obj, end, field}
use endpoint_protocol.Errors.{Result, ok}
use endpoint_protocol.Runtime.{Runtime, loaded}
use endpoint_protocol.Exec.{◌>>=◌}
use endpoint_protocol.Protocol.Canonical.{decimal}
use endpoint_protocol.Client.Discover.{Answer, no_answer}
use endpoint_protocol.Client.Inbox.{connected, receive_messages}
use endpoint_protocol.Client.Inbox.Frames.{Session, ack_frame}
use endpoint_protocol.Client.Inbox.Runs.{IsKept, receive_messages-IsKept, receive_messages-ends}
use endpoint_protocol.Tests.{inline_envelope}
use endpoint_protocol.Tests.Receive.{reader, own_keys, fresh, letter_read, left}

abbrev message_frame : Json
message_frame = obj (field "type" (str "message") (field "envelope" (inline_envelope "x") end))

abbrev confirmed : Json
confirmed = obj (
    field "type" (str "ack_result") (field "message_id" (str "m1") (field "status" (str "ok") end)))

-- "m" is read as the message and "r" as the confirmation.
abbrev rt : Runtime
rt = record reader {
  loads = λ s.
      if s == "m"
      then loaded message_frame
      else (if s == "r" then loaded confirmed else reader.loads s);
}

abbrev fetch : Json → Answer
fetch id = no_answer "ConnectError"

abbrev received_one : Session
received_one = record {
  state = left;
  ticks = 3;
  wire = [];
  deferred = [];
  sent = ack_frame "m1" ∷ [];
  messages = letter_read ∷ [];
}

is_received :
    receive_messages rt own_keys fetch 1 (connected fresh 5 ("m" ∷ "r" ∷ []))
    ≡ some (ok tt, received_one)
unfolding receive_messages every_char decimal ◌>>=◌
is_received = refl

receive_messages-IsKept_example : IsKept rt 1 fresh received_one
receive_messages-IsKept_example =
    receive_messages-IsKept rt own_keys fetch (λ s. refl) 1 fresh 5 ("m" ∷ "r" ∷ []) (ok tt)
      received_one tt is_received

receive_messages-ends_example :
    (o : Result (Unit {0}) × Session) × (receive_messages rt own_keys fetch 1
        (connected fresh 5 ("m" ∷ "r" ∷ []))
      ≡ some o)
receive_messages-ends_example =
    receive_messages-ends rt own_keys fetch 1 (connected fresh 5 ("m" ∷ "r" ∷ []))
