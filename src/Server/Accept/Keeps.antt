-- ===== src/Server/Accept/Keeps.antt =====
-- `accept_envelope_for_local` respects the stores, and its messages are remembered.
use endpoint_protocol.Prelude.{
  ℕ, String, ◌≡◌, ap, Bool, true, false, ◌⊎◌, eq_iff, eq_refl, if◌then◌else◌, arith, inl, inr,
}
use endpoint_protocol.Json.{Json}
use endpoint_protocol.Errors.{Result-cases, require_error}
use endpoint_protocol.Exec.{lift, ◌>>=◌, ◌>>◌}
use endpoint_protocol.Runtime.{Runtime}
use endpoint_protocol.Protocol.Canonical.{canonical_json}
use endpoint_protocol.Storage.Queue.{new_row, add, add_row}
use endpoint_protocol.Storage.Queue.Laws.{entry}
use endpoint_protocol.Storage.Queue.Methods.{entry-add}
use endpoint_protocol.Storage.Replay.{Delivery, new, same, conflict, remember, remember_delivery}
use endpoint_protocol.Storage.Replay.Laws.{kept, kept-remember, kept-remember_delivery}
use endpoint_protocol.Server.State.{ServerState, ServerConfig, write_log, on_replay, try_queue}
use endpoint_protocol.Server.Accept.{
  seconds, recipient_of, message_id_of, duplicate, enqueue, after_replay, accept_reference,
  accept_inline, check_content, accept_envelope_for_local,
}
use endpoint_protocol.Server.Accept.Outcome.{present}
use endpoint_protocol.Server.Respects.{
  Keeps, Keeps-refl, Keeps-trans, Respects, Respects-bind, respects_rules,
}

module _ (rt : Runtime) (now : ℕ) (envelope : Json) where
  abbrev c : String
  c = recipient_of envelope

  abbrev m : String
  m = message_id_of envelope

  -- `queue.add` puts the row of the envelope into the queue, or changes nothing.
  queue-enqueue :
      (s : ServerState)
      → ((enqueue rt now envelope s).1.queue ≡ s.queue)
        ⊎ ((t : String) × ((enqueue rt now envelope s).1.queue
              ≡ (add_row (new_row (seconds now) c m t) s.queue).1))
  unfolding enqueue add ◌>>=◌ try_queue write_log
  queue-enqueue s = elim (Result-cases (canonical_json rt envelope)) [
    | inl (t, e) ↦ inr (t, rw e (ground arith))
    | inr (x, e) ↦ inl (rw e)
  ]

  pub replay-enqueue : (s : ServerState) → (enqueue rt now envelope s).1.replay ≡ s.replay
  unfolding enqueue add ◌>>=◌ try_queue write_log
  replay-enqueue s = elim (Result-cases (canonical_json rt envelope)) [
    | inl (t, e) ↦ rw e (ground arith)
    | inr (x, e) ↦ rw e
  ]

  queue_of_enqueue :
      (s : ServerState) (c' m' : String)
      → present (entry c' m' (enqueue rt now envelope s).1.queue) ≡ true
      → (present (entry c' m' s.queue) ≡ true) ⊎ ((c ≡ c') × (m ≡ m'))
  queue_of_enqueue s c' m' h = elim (queue-enqueue s) [
    | inl unchanged ↦ inl (rw unchanged at h)
    | inr (t, added) ↦ ground (
      arith,
      added,
      entry-add (new_row (seconds now) c m t) s.queue c' m',
      eq_iff c c',
      eq_iff m m',
    )
  ]

  -- The queue may take a message that the replay store knows.
  Keeps-enqueue :
      (s : ServerState) → present (kept c m s.replay) ≡ true → Keeps s (enqueue rt now envelope s).1
  Keeps-enqueue s known = record {
    remembered = λ r c' m' p. rw (replay-enqueue s) (elim (queue_of_enqueue s c' m' p) [
      | inl old ↦ r c' m' old
      | inr (e, f) ↦ rw (← e, ← f) known
    ]);
    memory = λ scope m' p. ap (kept scope m') (replay-enqueue s);
  }

  -- To remember is to keep what was there.
  Keeps-remember :
      (s : ServerState) → Keeps s (record s { replay = (remember (seconds now) c m s.replay).1 })
  Keeps-remember s = record {
    remembered =
        λ r c' m' p. ground (arith, r c' m' p, kept-remember (seconds now) c m s.replay c' m');
    memory = λ c' m' p. ground (arith, kept-remember (seconds now) c m s.replay c' m');
  }

  Keeps-remember_delivery :
      (hash : String) (s : ServerState)
      → Keeps s (record s { replay = (remember_delivery (seconds now) c m hash s.replay).1 })
  Keeps-remember_delivery hash s = record {
    remembered = λ r c' m' p.
        ground (arith, r c' m' p, kept-remember_delivery (seconds now) c m s.replay hash c' m');
    memory =
        λ c' m' p. ground (arith, kept-remember_delivery (seconds now) c m s.replay hash c' m');
  }

  pub known_after_delivery :
      (hash : String) (s : ServerState)
      → present (kept c m (remember_delivery (seconds now) c m hash s.replay).1) ≡ true
  known_after_delivery hash s =
      ground
        (arith, kept-remember_delivery (seconds now) c m s.replay hash c m, eq_refl c, eq_refl m)

  pub known_after_remember :
      (s : ServerState) → present (kept c m (remember (seconds now) c m s.replay).1) ≡ true
  known_after_remember s =
      ground (arith, kept-remember (seconds now) c m s.replay c m, eq_refl c, eq_refl m)

  Keeps-after_replay :
      (d : Delivery) (s : ServerState)
      → present (kept c m s.replay) ≡ true
      → Keeps s (after_replay rt now envelope d s).1
  unfolding after_replay ◌>>=◌
  Keeps-after_replay new s known = Keeps-enqueue s known
  Keeps-after_replay same s known = Keeps-refl s
  Keeps-after_replay conflict s known = Keeps-refl s

  Keeps-after_remember :
      (is_new : Bool) (s : ServerState)
      → present (kept c m s.replay) ≡ true
      → Keeps s ((lift (require_error is_new duplicate) >> enqueue rt now envelope) s).1
  unfolding ◌>>=◌
  Keeps-after_remember true s known = Keeps-enqueue s known
  Keeps-after_remember false s known = Keeps-refl s

  Respects-accept_reference : Respects (accept_reference rt now envelope)
  unfolding accept_reference ◌>>=◌ on_replay
  Respects-accept_reference = record {
    at = λ s. elim (Result-cases (canonical_json rt envelope)) [
      | inr (x, e) ↦ rw e (Keeps-refl s)
      | inl (t, e) ↦
          let hash = rt.sha256 t in
          let answer = remember_delivery (seconds now) c m hash s.replay in
          rw e (
            Keeps-trans (Keeps-remember_delivery hash s) (
              Keeps-after_replay answer.0 (record s { replay = answer.1 })
                (known_after_delivery hash s)))
    ];
  }

  Respects-accept_inline : Respects (accept_inline rt now envelope)
  unfolding accept_inline ◌>>=◌ on_replay
  Respects-accept_inline = record {
    at = λ s.
        let answer = remember (seconds now) c m s.replay in
        Keeps-trans (Keeps-remember s)
          (Keeps-after_remember answer.0 (record s { replay = answer.1 }) (known_after_remember s));
  }

  pub Respects-check_content : Respects (check_content rt now envelope)
  unfolding check_content
  Respects-check_content = search respects_rules

  accept_by :
      (is_reference : Bool)
      → Respects (
          if is_reference
          then (check_content rt now envelope >> accept_reference rt now envelope)
          else accept_inline rt now envelope)
  accept_by true = Respects-bind _ _ Respects-check_content (λ _. Respects-accept_reference)
  accept_by false = Respects-accept_inline

  pub Respects-accept :
      (config : ServerConfig) → Respects (accept_envelope_for_local rt config now envelope)
  unfolding accept_envelope_for_local
  Respects-accept config = search (respects_rules, accept_by)
