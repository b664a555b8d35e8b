-- ===== src/Storage/Outbox.antt =====
-- `ClientOutbox` of endpoint/storage.py: the deliveries of each content and how far they are.
pub mod Laws
pub mod Keeps
use endpoint_protocol.Prelude.{
  ℕ, String, Bool, true, false, not, ◌&&◌, Option, none, some, List, [], ◌∷◌, ◌==◌, if◌then◌else◌,
  take,
}
use endpoint_protocol.Json.{Json, get, text}
use endpoint_protocol.Transport.Policy.{is_empty}
use endpoint_protocol.Dict.{Dict, lookup, put, discard}
use endpoint_protocol.Errors.{Result, ok, ◌>>=◌, ◌>>◌}
use endpoint_protocol.Runtime.{Runtime}
use endpoint_protocol.Storage.Files.{stored_json, save_dict}

pub record Delivery : Type 0 where
  pub envelope : Json
  pub status : String
  pub error_code : Option String

pub record Entry : Type 0 where
  pub content : Json
  pub deliveries : Dict Delivery

abbrev pub Outbox : Type 0
Outbox = Dict Entry

abbrev pub is_sent : Delivery → Bool
is_sent d = d.status == "queued"

abbrev pub pending : Json → Delivery
pending envelope = record { envelope = envelope; status = "pending"; error_code = none }

-- The body of the loop of `save`: an envelope that the server has already queued keeps its entry.
unfoldable pub enqueue : Json → Dict Delivery → Dict Delivery
unfolding lookup put get
enqueue envelope deliveries =
    let id = text (get envelope "message_id") in
    elim (lookup id deliveries) [
      | none ↦ put id (pending envelope) deliveries
      | some old ↦ if is_sent old then deliveries else put id (pending envelope) deliveries
    ]

unfoldable pub enqueue_all : List Json → Dict Delivery → Dict Delivery
unfolding enqueue
enqueue_all [] deliveries = deliveries
enqueue_all (envelope ∷ rest) deliveries = enqueue_all rest (enqueue envelope deliveries)

-- The entries of a content before `save` writes them.
unfoldable pub entered : Json → List Json → Outbox → Outbox
unfolding lookup put enqueue_all get
entered content envelopes o =
    let id = text (get content "content_id") in
    let old : Dict Delivery = elim (lookup id o) [ none ↦ [] | some e ↦ e.deliveries ] in
    put id (record { content = content; deliveries = enqueue_all envelopes old }) o

abbrev pub marked : String → Option String → Delivery → Delivery
marked status error_code d = record d { status = status; error_code = error_code }

-- The loop of `mark`: the first content that has the message, then `break`.
unfoldable pub mark_first : String → String → Option String → Outbox → Outbox
unfolding lookup put
mark_first message_id status error_code [] = []
mark_first message_id status error_code ((id, e) ∷ rest) =
    let others = mark_first message_id status error_code rest in
    elim (lookup message_id e.deliveries) [
      | none ↦ (id, e) ∷ others
      | some d ↦
          (id, record e { deliveries = put message_id (marked status error_code d) e.deliveries })
          ∷ rest
    ]

unfoldable pub all_sent : Dict Delivery → Bool
all_sent [] = true
all_sent ((id, d) ∷ rest) = is_sent d && all_sent rest

abbrev pub is_complete : Entry → Bool
is_complete e = not (is_empty e.deliveries) && all_sent e.deliveries

-- `_remove_completed`
unfoldable pub remove_completed : Outbox → Outbox
unfolding discard all_sent
remove_completed o = discard is_complete o

module _ (rt : Runtime) where
  -- The status and the code are ASCII texts of the program, which NFC leaves alone.
  unfoldable pub stored_delivery : Delivery → Result Delivery
  unfolding stored_json
  stored_delivery d = do envelope ← stored_json rt d.envelope; ok (record d { envelope = envelope })

  unfoldable pub stored_entry : Entry → Result Entry
  unfolding stored_json save_dict stored_delivery
  stored_entry e = do
    content ← stored_json rt e.content
    deliveries ← save_dict rt stored_delivery e.deliveries
    ok (record { content = content; deliveries = deliveries })

  unfoldable pub save_file : Outbox → Result Outbox
  unfolding save_dict stored_entry
  save_file o = save_dict rt stored_entry o

  unfoldable pub save : Json → List Json → Outbox → Result Outbox
  unfolding entered save_file
  save content envelopes o = save_file (entered content envelopes o)

  unfoldable pub mark : String → String → Option String → Outbox → Result Outbox
  unfolding mark_first remove_completed save_file
  mark message_id status error_code o =
      save_file (remove_completed (mark_first message_id status error_code o))

-- The envelopes of an entry that the server has not queued.
unfoldable pub unsent : Dict Delivery → List Json
unsent [] = []
unsent ((id, d) ∷ rest) =
    let others = unsent rest in if is_sent d then others else d.envelope ∷ others

unfoldable pub pending_batch : ℕ → Outbox → Option (Json × List Json)
unfolding unsent
pending_batch limit [] = none
pending_batch limit ((id, e) ∷ rest) =
    let batch = take limit (unsent e.deliveries) in
    let next = pending_batch limit rest in if is_empty batch then next else some (e.content, batch)
