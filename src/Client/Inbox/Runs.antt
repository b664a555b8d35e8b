-- ===== src/Client/Inbox/Runs.antt =====
-- Whole runs of `receive_messages` in endpoint/client_core.py: they end, and what they return was
-- acknowledged and marked.
use mathlib.Core.Path.{subst}
use endpoint_protocol.Prelude.{
  ℕ, zero, suc, ◌-◌, ◌≤◌, ◌<◌, String, ◌≡◌, ◌≢◌, refl, Bool, true, false, ◌||◌, Option, none, some,
  List, [], ◌∷◌, ◌++◌, ◌==◌, length, arith, Bool-cases, inl, inr,
}
use endpoint_protocol.Json.{Json}
use endpoint_protocol.Errors.{Result, ok, err}
use endpoint_protocol.Runtime.{Runtime}
use endpoint_protocol.Storage.Client.{ClientState, has_processed, append_new}
use endpoint_protocol.Storage.Client.Laws.{Idempotent, AllNormal, AllNormal-map, contains-processed}
use endpoint_protocol.Receive.{Keys}
use endpoint_protocol.Receive.Process.{ReceivedMessage}
use endpoint_protocol.Client.Discover.{Answer}
use endpoint_protocol.Client.Inbox.{
  turn, tick, goes_on, after_turn, receive_loop, receive_messages, connected,
}
use endpoint_protocol.Client.Inbox.Frames.{Session, ack_frame}
use endpoint_protocol.Client.Inbox.Laws.{Sent, Quiet, Adds, Change, turn-Change}

-- Whether a message was kept whose id has this normal form.
abbrev pub keeps_id : Runtime → String → List ReceivedMessage → Bool
keeps_id rt id [] = false
keeps_id rt id (m ∷ ms) = rt.nfc m.message_id == id || keeps_id rt id ms

abbrev pub AllSent : List Json → List ReceivedMessage → Type 0
AllSent sent [] = Unit {0}
AllSent sent (m ∷ ms) = Sent (ack_frame m.message_id) sent × AllSent sent ms

length-last :
    (ms : List ReceivedMessage) (m : ReceivedMessage) → length (ms ++ m ∷ []) ≡ suc (length ms)
length-last [] m = refl
length-last (n ∷ ms) m = omega (arith, length-last ms m)

keeps_id-last :
    (rt : Runtime) (id : String) (ms : List ReceivedMessage) (m : ReceivedMessage)
    → keeps_id rt id (ms ++ m ∷ []) ≡ (keeps_id rt id ms || rt.nfc m.message_id == id)
keeps_id-last rt id [] m = ground arith
keeps_id-last rt id (n ∷ ms) m = ground (arith, keeps_id-last rt id ms m)

AllSent-mono :
    (sent after : List Json) (ms : List ReceivedMessage)
    → ((frame : Json) → Sent frame sent → Sent frame after)
    → AllSent sent ms
    → AllSent after ms
AllSent-mono sent after [] grows h = tt
AllSent-mono sent after (m ∷ ms) grows (first, rest) =
    (grows (ack_frame m.message_id) first, AllSent-mono sent after ms grows rest)

AllSent-last :
    (sent : List Json) (ms : List ReceivedMessage) (m : ReceivedMessage)
    → AllSent sent ms
    → Sent (ack_frame m.message_id) sent
    → AllSent sent (ms ++ m ∷ [])
AllSent-last sent [] m h last = (last, tt)
AllSent-last sent (n ∷ ms) m (first, rest) last = (first, AllSent-last sent ms m rest last)

or_assoc : (a b c : Bool) → (a || b || c) ≡ (a || (b || c))
or_assoc true b c = refl
or_assoc false b c = refl

-- What holds at each turn of the loop, for the state `old` that the client started with.
pub record IsKept (rt : Runtime) (limit : ℕ) (old : ClientState) (s : Session) : Type 0 where
  pub bounded : length s.messages ≤ limit
  pub marked :
      (id : String) → has_processed id s.state ≡ (has_processed id old || keeps_id rt id s.messages)
  pub normal : AllNormal rt s.state.processed_messages
  pub acked : AllSent s.sent s.messages

module _ {rt : Runtime} (law : Idempotent rt) {limit : ℕ} {old : ClientState} where
  Quiet-IsKept : {s t : Session} → Quiet s t → IsKept rt limit old s → IsKept rt limit old t
  unfolding has_processed
  Quiet-IsKept {s} {t} q k = record {
    bounded = rw q.messages k.bounded;
    marked = λ id. rw (q.messages, q.processed) (k.marked id);
    normal = rw q.processed k.normal;
    acked = rw q.messages (AllSent-mono s.sent t.sent s.messages q.later.sent k.acked);
  }

  Adds-IsKept :
      {m : ReceivedMessage} {s t : Session}
      → Adds rt m s t
      → length s.messages < limit
      → IsKept rt limit old s
      → IsKept rt limit old t
  unfolding has_processed
  Adds-IsKept {m} {s} {t} a room k = record {
    bounded = rw (a.messages, length-last s.messages m) (omega arith);
    marked = λ id.
        rw
          (
            a.messages,
            a.processed,
            keeps_id-last rt id s.messages m,
            contains-processed rt id m.message_id s.state.processed_messages k.normal,
            k.marked id,
          )
          (or_assoc (has_processed id old) (keeps_id rt id s.messages) (rt.nfc m.message_id == id));
    normal =
        rw a.processed (AllNormal-map rt law (append_new m.message_id s.state.processed_messages));
    acked = rw a.messages (
        AllSent-last t.sent s.messages m
          (AllSent-mono s.sent t.sent s.messages a.later.sent k.acked) a.acked);
  }

  tick-IsKept : {s : Session} → IsKept rt limit old s → IsKept rt limit old (tick s)
  unfolding tick
  tick-IsKept k = record {
    bounded = k.bounded;
    marked = k.marked;
    normal = k.normal;
    acked = k.acked;
  }

  Change-IsKept :
      {s t : Session}
      → Change rt s t
      → length s.messages < limit
      → IsKept rt limit old s
      → IsKept rt limit old t
  Change-IsKept (inl q) room k = Quiet-IsKept q k
  Change-IsKept (inr (m, a)) room k = Adds-IsKept a room k

some-inj : {A : Type 0} {a b : A} → some a ≡ some b → a ≡ b
some-inj h = cc

none≢some : {A : Type 0} {a : A} → none ≢ some a
none≢some h = cc

Change-ticks : {rt : Runtime} {s t : Session} → Change rt s t → t.ticks ≤ s.ticks
Change-ticks (inl q) = q.later.ticks
Change-ticks (inr (m, a)) = a.later.ticks

goes_on-inv :
    (limit : ℕ) (s : Session) → goes_on limit s ≡ true → (length s.messages < limit) × (0 < s.ticks)
goes_on-inv limit s h = ground arith

abbrev Outcome : Type 0
Outcome = Result (Unit {0}) × Session

-- The continuation is run on the session that the turn left.
after_turn-ends :
    (again : Session → Option Outcome) (r : Result Bool) (t : Session)
    → ((o : Outcome) × (again t ≡ some o))
    → (o : Outcome) × (after_turn again r t ≡ some o)
after_turn-ends again (ok true) t next = next
after_turn-ends again (ok false) t next = ((ok tt, t), refl)
after_turn-ends again (err e) t next = ((err e, t), refl)

after_turn-keeps :
    (P : Session → Type 0) (again : Session → Option Outcome) (r : Result Bool) (t : Session)
    (o : Outcome)
    → P t
    → ((o : Outcome) → again t ≡ some o → P o.1)
    → after_turn again r t ≡ some o
    → P o.1
after_turn-keeps P again (ok true) t o here next h = next o h
after_turn-keeps P again (ok false) t o here next h = subst (λ o. P o.1) (some-inj h) here
after_turn-keeps P again (err e) t o here next h = subst (λ o. P o.1) (some-inj h) here

module _ (rt : Runtime) (keys : Keys) (fetch : Json → Answer) where
  receive_loop-ends :
      (fuel limit : ℕ) (s : Session)
      → s.ticks < fuel
      → (o : Outcome) × (receive_loop rt keys fetch fuel limit s ≡ some o)
  unfolding receive_loop tick
  receive_loop-ends zero limit s h = absurd (omega arith)
  receive_loop-ends (suc fuel) limit s h = elim (Bool-cases (goes_on limit s)) [
    | inr over ↦ rw over ((ok tt, s), refl)
    | inl more ↦
        let t = (turn rt keys fetch (tick s)).1 in
        let fewer : t.ticks ≤ s.ticks - 1 = Change-ticks (turn-Change rt keys fetch (tick s)) in
        let some_left : 0 < s.ticks = (goes_on-inv limit s more).1 in
        rw more (
          after_turn-ends (receive_loop rt keys fetch fuel limit) (turn rt keys fetch (tick s)).0 t
            (receive_loop-ends fuel limit t (omega (arith, fewer, some_left, h))))
  ]

  receive_loop-IsKept :
      Idempotent rt
      → (fuel limit : ℕ) (old : ClientState) (s : Session) (o : Outcome) → IsKept rt limit old s
      → receive_loop rt keys fetch fuel limit s ≡ some o
      → IsKept rt limit old o.1
  unfolding receive_loop tick
  receive_loop-IsKept law zero limit old s o k h = absurd (none≢some h)
  receive_loop-IsKept law (suc fuel) limit old s o k h = elim (Bool-cases (goes_on limit s)) [
    | inr over ↦ subst (λ o. IsKept rt limit old o.1) (some-inj (rw over at h)) k
    | inl more ↦
        let t = (turn rt keys fetch (tick s)).1 in
        let kept =
          Change-IsKept law (turn-Change rt keys fetch (tick s)) (goes_on-inv limit s more).0
            (tick-IsKept law k) in
        after_turn-keeps (IsKept rt limit old) (receive_loop rt keys fetch fuel limit)
          (turn rt keys fetch (tick s)).0 t o kept
          (λ o next. receive_loop-IsKept law fuel limit old t o kept next) (rw more at h)
  ]

  -- Receiving ends: with as much fuel as `receive_messages` takes, there is an outcome, whatever frames
  -- come and however the server answers.
  pub receive_messages-ends :
      (limit : ℕ) (s : Session)
      → (o : Result (Unit {0}) × Session) × (receive_messages rt keys fetch limit s ≡ some o)
  unfolding receive_messages
  receive_messages-ends limit s = receive_loop-ends (suc s.ticks) limit s (omega arith)

  connected-IsKept :
      (limit : ℕ) (old : ClientState) (ticks : ℕ) (wire : List String)
      → AllNormal rt old.processed_messages
      → IsKept rt limit old (connected old ticks wire)
  connected-IsKept limit old ticks wire normal = record {
    normal = normal;
    bounded = omega arith;
    marked = λ id. ground arith;
    acked = tt;
  }

  -- A client that connects and receives, also one whose run fails, has at most as many messages as it
  -- asked for, and each of them was acknowledged to the server. If NFC leaves alone what is in NFC, as
  -- the processed ids in the client's file are, an id counts as processed afterwards exactly if it did
  -- before or if it is the normal form of the id of one of these messages.
  pub receive_messages-IsKept :
      Idempotent rt
      → (limit : ℕ) (old : ClientState) (ticks : ℕ) (wire : List String)
        (result : Result (Unit {0})) (t : Session)
      → AllNormal rt old.processed_messages
      → receive_messages rt keys fetch limit (connected old ticks wire) ≡ some (result, t)
      → IsKept rt limit old t
  unfolding receive_messages
  receive_messages-IsKept law limit old ticks wire result t normal h =
      receive_loop-IsKept law (suc ticks) limit old (connected old ticks wire) (result, t)
        (connected-IsKept limit old ticks wire normal) h
