-- ===== src/Client/Inbox/Laws.antt =====
-- What one turn of the loop of `receive_messages` in endpoint/client_core.py may change.
use mathlib.Core.Path.{subst}
use endpoint_protocol.Prelude.{
  ℕ, zero, suc, ◌≤◌, String, ◌≡◌, ◌⊎◌, refl, sym, ◌∙◌, ap, Bool, true, false, ◌&&◌, Option, none,
  some, List, [], ◌∷◌, ◌++◌, map, if◌then◌else◌, arith, Bool-cases, inl, inr,
}
use endpoint_protocol.Json.{Json, get, is_obj, is_str, is_the_text, text}
use endpoint_protocol.Errors.{EndpointError, Result, ok, err, raised, crash, Result-cases}
use endpoint_protocol.Exec.{pure, lift, modify}
use endpoint_protocol.Runtime.{Runtime}
use endpoint_protocol.Protocol.Canonical.{parse_json_strict}
use endpoint_protocol.Receive.{Keys}
use endpoint_protocol.Receive.Process.{ReceivedMessage}
use endpoint_protocol.Client.Discover.{Answer}
use endpoint_protocol.Exec.Laws.{exec-keeps, modify-keeps}
use endpoint_protocol.Storage.Client.{append_new}
use endpoint_protocol.Client.Inbox.Opens.{open_message-seen}
use endpoint_protocol.Client.Inbox.{
  reject_reason, reject_message, keep_message, ack_message, handled, handle_message, handle_frame,
  handle_next, try_open, turn,
}
use endpoint_protocol.Client.Inbox.Frames.{
  Session, ack_frame, reject_frame, read_frame, pop_frame, wait, wait_for_result, next_frame,
  send_frame,
}

module _ (rt : Runtime) (expected message_id : String) where
  wait-ticks :
      (n : ℕ) (wire : List String) (deferred : List Json)
      → (wait rt expected message_id n wire deferred).ticks ≤ n
  unfolding wait
  wait-ticks zero wire deferred = omega arith
  wait-ticks (suc n) [] deferred = omega arith
  wait-ticks (suc n) (frame_text ∷ wire) deferred =
      elim (Result-cases (parse_json_strict rt frame_text)) [
        | inl (frame, e) ↦ rw e (ground (arith, wait-ticks n wire (deferred ++ frame ∷ [])))
        | inr (failure, e) ↦ rw e (omega arith)
      ]

-- A frame that was sent.
abbrev pub Sent : Json → List Json → Type 0
Sent frame [] = ⊥
Sent frame (f ∷ fs) = (f ≡ frame) ⊎ Sent frame fs

Sent-append : (frame : Json) (fs gs : List Json) → Sent frame fs → Sent frame (fs ++ gs)
Sent-append frame [] gs h = absurd h
Sent-append frame (f ∷ fs) gs (inl e) = inl e
Sent-append frame (f ∷ fs) gs (inr h) = inr (Sent-append frame fs gs h)

Sent-last : (frame : Json) (fs : List Json) → Sent frame (fs ++ frame ∷ [])
Sent-last frame [] = inl refl
Sent-last frame (f ∷ fs) = inr (Sent-last frame fs)

-- Time goes on, and what was sent stays sent.
pub record Later (s t : Session) : Type 0 where
  pub ticks : t.ticks ≤ s.ticks
  pub sent : (frame : Json) → Sent frame s.sent → Sent frame t.sent

-- A step that keeps no message.
pub record Quiet (s t : Session) : Type 0 where
  pub later : Later s t
  pub messages : t.messages ≡ s.messages
  pub processed : t.state.processed_messages ≡ s.state.processed_messages

-- A step that keeps a message: it was acknowledged before.
pub record Adds (rt : Runtime) (m : ReceivedMessage) (s t : Session) : Type 0 where
  pub later : Later s t
  pub messages : t.messages ≡ s.messages ++ m ∷ []
  pub processed :
      t.state.processed_messages ≡ map rt.nfc (append_new m.message_id s.state.processed_messages)
  pub acked : Sent (ack_frame m.message_id) t.sent

abbrev pub Change : Runtime → Session → Session → Type 0
Change rt s t = Quiet s t ⊎ ((m : ReceivedMessage) × Adds rt m s t)

Later-refl : (s : Session) → Later s s
Later-refl s = record { ticks = omega arith; sent = λ frame h. h }

Later-trans : {s t u : Session} → Later s t → Later t u → Later s u
Later-trans a b = record {
  ticks = omega (arith, a.ticks, b.ticks);
  sent = λ frame h. b.sent frame (a.sent frame h);
}

Quiet-refl : (s : Session) → Quiet s s
Quiet-refl s = record { later = Later-refl s; messages = refl; processed = refl }

Quiet-trans : {s t u : Session} → Quiet s t → Quiet t u → Quiet s u
Quiet-trans a b = record {
  later = Later-trans a.later b.later;
  messages = b.messages ∙ a.messages;
  processed = b.processed ∙ a.processed;
}

Change-trans : {rt : Runtime} {s t u : Session} → Quiet s t → Change rt t u → Change rt s u
Change-trans a (inl b) = inl (Quiet-trans a b)
Change-trans {rt} a (inr (m, b)) = inr (
  m,
  record {
    later = Later-trans a.later b.later;
    messages = b.messages ∙ ap (λ l. l ++ m ∷ []) a.messages;
    processed = b.processed ∙ ap (λ l. map rt.nfc (append_new m.message_id l)) a.processed;
    acked = b.acked;
  },
)

send_frame-Quiet : (frame : Json) (s : Session) → Quiet s (send_frame frame s)
unfolding send_frame
send_frame-Quiet frame s = record {
  later = record { ticks = omega arith; sent = λ f h. Sent-append f s.sent (frame ∷ []) h };
  messages = refl;
  processed = refl;
}

-- A step that sends nothing.
silent :
    (s t : Session)
    → t.ticks ≤ s.ticks
    → t.sent ≡ s.sent
    → t.messages ≡ s.messages
    → t.state.processed_messages ≡ s.state.processed_messages
    → Quiet s t
silent s t ticks sent messages processed = record {
  later = record { ticks = ticks; sent = λ f h. subst (Sent f) (sym sent) h };
  messages = messages;
  processed = processed;
}

send_frame-sent : (frame : Json) (s : Session) → Sent frame (send_frame frame s).sent
unfolding send_frame
send_frame-sent frame s = Sent-last frame s.sent

wait_for_result-Quiet :
    (rt : Runtime) (expected message_id : String) (s : Session)
    → Quiet s (wait_for_result rt expected message_id s).1
unfolding wait_for_result
wait_for_result-Quiet rt expected message_id s =
    silent s _ (wait-ticks rt expected message_id s.ticks s.wire s.deferred) refl refl refl

read_frame-Quiet :
    (rt : Runtime) (wire : List String) (s : Session) → Quiet s (read_frame rt wire s).1
read_frame-Quiet rt [] s = silent s _ (omega arith) refl refl refl
read_frame-Quiet rt (frame_text ∷ wire) s = silent s _ (omega arith) refl refl refl

next_frame-Quiet : (rt : Runtime) (s : Session) → Quiet s (next_frame rt s).1
unfolding next_frame
next_frame-Quiet rt s = pop_frame-Quiet s.deferred
  where
    pop_frame-Quiet : (deferred : List Json) → Quiet s (pop_frame rt deferred s).1
    pop_frame-Quiet [] = read_frame-Quiet rt s.wire s
    pop_frame-Quiet (frame ∷ rest) = silent s _ (omega arith) refl refl refl

module _ (rt : Runtime) (keys : Keys) (fetch : Json → Answer) where
  try_open-Quiet : (envelope : Json) (s : Session) → Quiet s (try_open rt keys fetch envelope s).1
  unfolding try_open
  try_open-Quiet envelope s =
      silent s _ (omega arith) refl refl (open_message-seen rt keys fetch envelope s.state)

  reject_message-Quiet :
      (envelope : Json) (e : EndpointError) (s : Session)
      → Quiet s (reject_message rt keys fetch envelope e s).1
  unfolding reject_message pure
  reject_message-Quiet envelope e s =
      let id = text (get envelope "message_id") in
      let frame = reject_frame id (reject_reason e.code) in
      let q = send_frame-Quiet frame s in
      let r = wait_for_result-Quiet rt "reject_result" id (send_frame frame s) in
      elim (Bool-cases (is_obj envelope && is_str (get envelope "message_id"))) [
        | inl yes_reject ↦ rw yes_reject (
            modify-keeps (Quiet s) (send_frame frame) _ s (
              exec-keeps (Quiet s) (wait_for_result rt "reject_result" id) _ _ (Quiet-trans q r)
                λ _ both. both))
        | inr no_reject ↦ rw no_reject (Quiet-refl s)
      ]

  confirm-Change :
      (m : ReceivedMessage) (confirmed : Bool) (s u : Session)
      → Quiet s u
      → Sent (ack_frame m.message_id) u.sent
      → Change rt s ((if confirmed then modify (keep_message rt m) else pure tt) u).1
  unfolding keep_message modify pure
  confirm-Change m true s u q acked = inr (
    m,
    record {
      later = record { ticks = q.later.ticks; sent = q.later.sent };
      messages = ap (λ l. l ++ m ∷ []) q.messages;
      processed = ap (λ l. map rt.nfc (append_new m.message_id l)) q.processed;
      acked = acked;
    },
  )
  confirm-Change m false s u q acked = inl q

  ack_message-Change :
      (m : ReceivedMessage) (s : Session) → Change rt s (ack_message rt keys fetch m s).1
  unfolding ack_message
  ack_message-Change m s =
      let frame = ack_frame m.message_id in
      let sent = send_frame frame s in
      let q = send_frame-Quiet frame s in
      let r = wait_for_result-Quiet rt "ack_result" m.message_id sent in
      let acked = r.later.sent frame (send_frame-sent frame s) in
      modify-keeps (Change rt s) (send_frame frame) _ s (
        exec-keeps (Change rt s) (wait_for_result rt "ack_result" m.message_id) _ sent
          (inl (Quiet-trans q r))
          λ confirmed _. confirm-Change m confirmed s _ (Quiet-trans q r) acked)

  handled-Change :
      (envelope : Json) (r : Result ReceivedMessage) (s : Session)
      → Change rt s (handled rt keys fetch envelope r s).1
  unfolding lift
  handled-Change envelope (ok m) s = ack_message-Change m s
  handled-Change envelope (err (raised e)) s = inl (reject_message-Quiet envelope e s)
  handled-Change envelope (err (crash what)) s = inl (Quiet-refl s)

  handle_message-Change :
      (envelope : Json) (s : Session) → Change rt s (handle_message rt keys fetch envelope s).1
  unfolding handle_message
  handle_message-Change envelope s =
      let opened = try_open rt keys fetch envelope s in
      Change-trans (try_open-Quiet envelope s) (handled-Change envelope opened.0 opened.1)

  handle_frame-Change :
      (frame : Json) (s : Session) → Change rt s (handle_frame rt keys fetch frame s).1
  unfolding handle_frame lift pure
  handle_frame-Change frame s = elim (Bool-cases (is_obj frame)) [
    | inr no_dict ↦ rw no_dict (inl (Quiet-refl s))
    | inl a_dict ↦ rw a_dict (elim (Bool-cases (is_the_text (get frame "type") "message")) [
      | inl a_message ↦ rw a_message (handle_message-Change (get frame "envelope") s)
      | inr no_message ↦ rw no_message (inl (Quiet-refl s))
    ])
  ]

  handle_next-Change :
      (frame : Option Json) (s : Session) → Change rt s (handle_next rt keys fetch frame s).1
  unfolding pure
  handle_next-Change none s = inl (Quiet-refl s)
  handle_next-Change (some frame) s =
      exec-keeps (Change rt s) (handle_frame rt keys fetch frame) _ s (handle_frame-Change frame s)
        λ _ changed. changed

  pub turn-Change : (s : Session) → Change rt s (turn rt keys fetch s).1
  unfolding turn
  turn-Change s =
      let q = next_frame-Quiet rt s in
      exec-keeps (Change rt s) (next_frame rt) _ s (inl q)
        λ frame _. Change-trans q (handle_next-Change frame (next_frame rt s).1)
