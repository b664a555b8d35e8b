-- ===== src/Client/Inbox/Frames.antt =====
-- The WebSocket of a client of endpoint/client_core.py: the frames it sends, and how it waits for those
-- of the server.
use endpoint_protocol.Prelude.{
  ℕ, zero, suc, String, Bool, false, ◌&&◌, Option, none, some, List, [], ◌∷◌, ◌++◌, if◌then◌else◌,
}
use endpoint_protocol.Json.{Json, str, obj, end, field, get, is_obj, is_the_text}
use endpoint_protocol.Errors.{Failure, Result, ok, err, crash}
use endpoint_protocol.Exec.{Exec}
use endpoint_protocol.Runtime.{Runtime}
use endpoint_protocol.Protocol.Canonical.{parse_json_strict}
use endpoint_protocol.Storage.Client.{ClientState}
use endpoint_protocol.Receive.Process.{ReceivedMessage}

-- What changes while a client receives: its files, the socket, and the messages so far.
pub record Session : Type 0 where
  pub state : ClientState
  pub ticks : ℕ
  pub wire : List String
  pub deferred : List Json
  pub sent : List Json
  pub messages : List ReceivedMessage

abbrev pub Socket : Type 0 → Type 0
Socket A = Exec Session A

abbrev pub ack_frame : String → Json
ack_frame message_id = obj (field "type" (str "ack") (field "message_id" (str message_id) end))

abbrev pub reject_frame : String → String → Json
reject_frame message_id reason = obj (
    field "type" (str "reject")
      (field "message_id" (str message_id) (field "reason" (str reason) end)))

unfoldable pub send_frame : Json → Session → Session
send_frame frame s = record s { sent = s.sent ++ frame ∷ [] }

-- What a wait for a result leaves: the answer, the ticks, the frames still to come and those deferred.
pub record Wait : Type 0 where
  pub answer : Result Bool
  pub ticks : ℕ
  pub wire : List String
  pub deferred : List Json

abbrev pub is_result : String → String → Json → Bool
is_result expected message_id frame =
    is_the_text (get frame "type") expected && is_the_text (get frame "message_id") message_id

-- `frame.get(…)` of what is no dict
abbrev pub not_a_dict : Failure
not_a_dict = crash "AttributeError"

-- A failure keeps what was deferred and what is still to come.
abbrev pub stop_wait : Result Bool → ℕ → List String → List Json → Wait
stop_wait answer ticks wire deferred = record {
  answer = answer;
  ticks = ticks;
  wire = wire;
  deferred = deferred;
}

-- What the wait does with a frame; `again` goes on with the frames that are deferred.
unfoldable pub on_frame :
    String → String → (List Json → Wait) → ℕ → List String → List Json → Json → Wait
unfolding get
on_frame expected message_id again n wire deferred frame =
    if is_obj frame
    then (if is_result expected message_id frame
        then stop_wait (ok (is_the_text (get frame "status") "ok")) n wire deferred
        else again (deferred ++ frame ∷ []))
    else stop_wait (err not_a_dict) n wire deferred

abbrev pub on_parsed : (Json → Wait) → ℕ → List String → List Json → Result Json → Wait
on_parsed on n wire deferred (ok frame) = on frame
on_parsed on n wire deferred (err e) = stop_wait (err e) n wire deferred

module _ (rt : Runtime) where
  -- `_wait_for_wss_result`, by the tests of the clock that are left.
  unfoldable pub wait : String → String → ℕ → List String → List Json → Wait
  unfolding on_frame
  wait expected message_id zero wire deferred = stop_wait (ok false) 0 wire deferred
  wait expected message_id (suc n) [] deferred = stop_wait (ok false) 0 [] deferred
  wait expected message_id (suc n) (frame_text ∷ wire) deferred =
      on_parsed (on_frame expected message_id (wait expected message_id n wire) n wire deferred) n
        wire deferred (parse_json_strict rt frame_text)

  unfoldable pub wait_for_result : String → String → Socket Bool
  unfolding wait
  wait_for_result expected message_id s =
      let w = wait expected message_id s.ticks s.wire s.deferred in
      (w.answer, record s { ticks = w.ticks; wire = w.wire; deferred = w.deferred })

  abbrev pub some_frame : Result Json → Result (Option Json)
  some_frame (ok frame) = ok (some frame)
  some_frame (err e) = err e

  abbrev pub read_frame : List String → Session → Result (Option Json) × Session
  read_frame [] s = (ok none, record s { ticks = 0 })
  read_frame (frame_text ∷ wire) s =
      (some_frame (parse_json_strict rt frame_text), record s { wire = wire })

  abbrev pub pop_frame : List Json → Session → Result (Option Json) × Session
  pop_frame [] s = read_frame s.wire s
  pop_frame (frame ∷ rest) s = (ok (some frame), record s { deferred = rest })

  -- The next frame, deferred or read; `none` is the end of the wait.
  unfoldable pub next_frame : Session → Result (Option Json) × Session
  next_frame s = pop_frame s.deferred s
