-- ===== src/Server/Accept/Outcome.antt =====
-- What `accept_envelope_for_local` answers behind its checks, and the invariant that makes the queue
-- take every new message: whatever is in the queue has been remembered by the replay store.
use endpoint_protocol.Prelude.{
  ℕ, String, ◌≡◌, refl, Bool, true, false, Option, none, some, if◌then◌else◌, arith,
}
use endpoint_protocol.Json.{Json}
use endpoint_protocol.Errors.{Result, ok, err, raised}
use endpoint_protocol.Runtime.{Runtime}
use endpoint_protocol.Protocol.Canonical.{canonical_json}
use endpoint_protocol.Storage.Queue.{QueueRow, new_row, add, add_row}
use endpoint_protocol.Storage.Queue.Laws.{entry}
use endpoint_protocol.Storage.Queue.Methods.{add-answer}
use endpoint_protocol.Storage.Replay.{
  Delivery, new, same, conflict, seen, remember, remember_delivery,
}
use endpoint_protocol.Storage.Replay.Laws.{
  kept, verdict, remember-answer, remember_delivery-answer, seen-kept,
}
use endpoint_protocol.Exec.{◌>>=◌}
use endpoint_protocol.Server.State.{ServerState, write_log, on_replay, try_queue}
use endpoint_protocol.Server.Accept.{
  seconds, recipient_of, message_id_of, duplicate, conflicting, enqueue, after_replay,
  accept_reference, accept_inline,
}

-- Is there something?
abbrev pub present {ℓ} : {A : Type ℓ} → Option A → Bool
present none = false
present (some a) = true

-- Whatever is in the queue, in whatever state, has been remembered.
abbrev pub IsRemembered : ServerState → Type 0
IsRemembered s =
    (c m : String) → present (entry c m s.queue) ≡ true → present (kept c m s.replay) ≡ true

-- The answers of the two ways, by what the replay store remembers of the message.
abbrev pub reference_answer : Delivery → Result String
reference_answer new = ok "queued"
reference_answer same = ok "already_queued"
reference_answer conflict = err (raised conflicting)

abbrev pub inline_answer : Bool → Result String
inline_answer false = ok "queued"
inline_answer true = err (raised duplicate)

module _ (rt : Runtime) (now : ℕ) (envelope : Json) {canonical : String}
    (is_canonical : canonical_json rt envelope ≡ ok canonical) where
  abbrev c : String
  c = recipient_of envelope

  abbrev m : String
  m = message_id_of envelope

  -- The row that `queue.add` inserts.
  abbrev row : QueueRow
  row = new_row (seconds now) c m canonical

  pub enqueue-answer :
      (s : ServerState)
      → (enqueue rt now envelope s).0
        ≡ (if present (entry c m s.queue) then err (raised duplicate) else ok "queued")
  unfolding enqueue add ◌>>=◌ try_queue write_log
  enqueue-answer s = rw is_canonical (ground (arith, add-answer row s.queue))

  pub queue-enqueue :
      (s : ServerState) → (enqueue rt now envelope s).1.queue ≡ (add_row row s.queue).1
  unfolding enqueue add ◌>>=◌ try_queue write_log
  queue-enqueue s = rw is_canonical (ground arith)

  replay-enqueue : (s : ServerState) → (enqueue rt now envelope s).1.replay ≡ s.replay
  unfolding enqueue add ◌>>=◌ try_queue write_log
  replay-enqueue s = rw is_canonical (ground arith)

  after_replay-answer :
      (d : Delivery) (s : ServerState)
      → (d ≡ new → present (entry c m s.queue) ≡ false)
      → (after_replay rt now envelope d s).0 ≡ reference_answer d
  unfolding after_replay ◌>>=◌
  after_replay-answer new s free = rw (enqueue-answer, free refl)
  after_replay-answer same s free = refl
  after_replay-answer conflict s free = refl

  free_of_verdict :
      (s : ServerState) (hash : String)
      → IsRemembered s
      → verdict (kept c m s.replay) hash ≡ new
      → present (entry c m s.queue) ≡ false
  free_of_verdict s hash remembered h = ground (arith, remembered c m)

  -- With a reference, where whatever is in the queue is remembered, an envelope that the replay store
  -- does not know is queued, the same one again is answered `already_queued`, and another one with its
  -- recipient and id is a conflict: the queue never refuses a new message.
  pub accept_reference-answer :
      (s : ServerState)
      → IsRemembered s
      → (accept_reference rt now envelope s).0
        ≡ reference_answer (verdict (kept c m s.replay) (rt.sha256 canonical))
  unfolding accept_reference ◌>>=◌ on_replay
  accept_reference-answer s remembered =
      let hash = rt.sha256 canonical in
      let answer = remember_delivery-answer (seconds now) c m s.replay hash in
      rw (is_canonical, answer)
        (after_replay-answer (verdict (kept c m s.replay) hash)
          (record s { replay = (remember_delivery (seconds now) c m hash s.replay).1 })
          (free_of_verdict s hash remembered))

  -- With an inline ciphertext, where whatever is in the queue is remembered, a message is queued unless the replay store has seen its id, whatever the
  -- rest of the envelope says.
  pub accept_inline-answer :
      (s : ServerState)
      → IsRemembered s
      → (accept_inline rt now envelope s).0 ≡ inline_answer (seen c m s.replay)
  unfolding accept_inline ◌>>=◌ on_replay
  accept_inline-answer s remembered = ground (
    arith,
    remember-answer (seconds now) c m s.replay,
    seen-kept c m s.replay,
    remembered c m,
    enqueue-answer (record s { replay = (remember (seconds now) c m s.replay).1 }),
  )
