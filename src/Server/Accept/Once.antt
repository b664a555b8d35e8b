-- ===== src/Server/Accept/Once.antt =====
-- What the answer `queued` of `accept_envelope_for_local` means: the message was not known before,
-- and it is known and in the queue behind it.
use endpoint_protocol.Prelude.{
  ℕ, String, ◌≡◌, refl, eq_iff, Bool, true, false, some, eq_refl, if◌then◌else◌, arith, inl, inr,
}
use endpoint_protocol.Json.{Json}
use endpoint_protocol.Errors.{Result, Result-cases, ok, err, require_error}
use endpoint_protocol.Exec.{Exec, lift, ◌>>=◌, ◌>>◌}
use endpoint_protocol.Runtime.{Runtime}
use endpoint_protocol.Protocol.Canonical.{canonical_json}
use endpoint_protocol.Storage.Queue.{new_row}
use endpoint_protocol.Storage.Queue.Laws.{entry}
use endpoint_protocol.Storage.Queue.Methods.{entry-add}
use endpoint_protocol.Storage.Replay.{new, same, conflict, remember, remember_delivery, Delivery}
use endpoint_protocol.Storage.Replay.Laws.{
  kept, remember-answer, seen-kept, remember_delivery-answer,
}
use endpoint_protocol.Server.State.{ServerConfig, ServerState, on_replay, try_queue}
use endpoint_protocol.Server.Accept.{
  seconds, recipient_of, message_id_of, duplicate, enqueue, after_replay, accept_reference,
  accept_inline, check_content, accept_envelope_for_local,
}
use endpoint_protocol.Server.Accept.Outcome.{present, enqueue-answer, queue-enqueue}
use endpoint_protocol.Server.Accept.Keeps.{
  replay-enqueue, known_after_remember, known_after_delivery, Respects-check_content,
}
use endpoint_protocol.Server.Respects.{Keeps, Respects, respects_rules}

module _ (rt : Runtime) (now : ℕ) (envelope : Json) where
  abbrev c : String
  c = recipient_of envelope

  abbrev m : String
  m = message_id_of envelope

  -- The row of the message is in the queue.
  pub record IsQueued (s : ServerState) : Type 0 where
    pub body : String
    pub is_body : canonical_json rt envelope ≡ ok body
    pub is_entry : entry c m s.queue ≡ some (new_row (seconds now) c m body)

  pub record Queued (s t : ServerState) : Type 0 where
    pub unknown : present (kept c m s.replay) ≡ false
    pub known : present (kept c m t.replay) ≡ true
    pub queued : IsQueued t

  record Queues (x : Exec ServerState String) : Type 0 where
    at : (s : ServerState) → (x s).0 ≡ ok "queued" → Queued s (x s).1

  IsQueued-enqueue :
      (s : ServerState)
      → (enqueue rt now envelope s).0 ≡ ok "queued"
      → IsQueued (enqueue rt now envelope s).1
  unfolding enqueue ◌>>=◌ try_queue
  IsQueued-enqueue s h = elim (Result-cases (canonical_json rt envelope)) [
    | inl (t, e) ↦ record {
      body = t;
      is_body = e;
      is_entry = ground (
        arith,
        e,
        enqueue-answer rt now envelope e s,
        queue-enqueue rt now envelope e s,
        entry-add (new_row (seconds now) c m t) s.queue c m,
        eq_refl c,
        eq_refl m,
      );
    }
    | inr (x, e) ↦ ground (arith, e)
  ]

  -- The end of both ways, in the state that the replay store left.
  Queued-enqueue :
      (s t : ServerState)
      → present (kept c m s.replay) ≡ false
      → present (kept c m t.replay) ≡ true
      → (enqueue rt now envelope t).0 ≡ ok "queued"
      → Queued s (enqueue rt now envelope t).1
  Queued-enqueue s t unknown known h = record {
    unknown = unknown;
    known = rw (replay-enqueue rt now envelope t) known;
    queued = IsQueued-enqueue t h;
  }

  Queued-after_replay :
      (d : Delivery) (s t : ServerState)
      → (d ≡ new → present (kept c m s.replay) ≡ false)
      → present (kept c m t.replay) ≡ true
      → (after_replay rt now envelope d t).0 ≡ ok "queued"
      → Queued s (after_replay rt now envelope d t).1
  unfolding after_replay ◌>>=◌
  Queued-after_replay new s t unknown known h = Queued-enqueue s t (unknown refl) known h
  Queued-after_replay same s t unknown known h = ground (arith, eq_iff "already_queued" "queued")
  Queued-after_replay conflict s t unknown known h = ground arith

  Queued-after_remember :
      (is_new : Bool) (s t : ServerState)
      → (is_new ≡ true → present (kept c m s.replay) ≡ false)
      → present (kept c m t.replay) ≡ true
      → ((lift (require_error is_new duplicate) >> enqueue rt now envelope) t).0 ≡ ok "queued"
      → Queued s ((lift (require_error is_new duplicate) >> enqueue rt now envelope) t).1
  unfolding ◌>>=◌
  Queued-after_remember true s t unknown known h = Queued-enqueue s t (unknown refl) known h
  Queued-after_remember false s t unknown known h = ground arith

  Queues-inline : Queues (accept_inline rt now envelope)
  unfolding accept_inline ◌>>=◌ on_replay
  Queues-inline = record {
    at = λ s.
        let answer = remember (seconds now) c m s.replay in
        Queued-after_remember answer.0 s (record s { replay = answer.1 })
          (λ e. ground (arith, remember-answer (seconds now) c m s.replay, seen-kept c m s.replay))
          (known_after_remember rt now envelope s);
  }

  Queues-reference : Queues (accept_reference rt now envelope)
  unfolding accept_reference ◌>>=◌ on_replay
  Queues-reference = record {
    at = λ s. elim (Result-cases (canonical_json rt envelope)) [
      | inr (x, e) ↦ rw e (λ h. ground arith)
      | inl (t, e) ↦
          let hash = rt.sha256 t in
          let answer = remember_delivery (seconds now) c m hash s.replay in
          rw e (
            Queued-after_replay answer.0 s (record s { replay = answer.1 })
              (λ is_new. ground (arith, remember_delivery-answer (seconds now) c m s.replay hash))
              (known_after_delivery rt now envelope hash s))
    ];
  }

  -- What comes before respects the stores.
  Queues-bind :
      {A : Type 0} (x : Exec ServerState A) (f : A → Exec ServerState String)
      → Respects x
      → ((a : A) → Queues (f a))
      → Queues (x >>= f)
  unfolding ◌>>=◌
  Queues-bind x f hx hf = record { at = λ s. go s (x s).0 (x s).1 refl (hx.at s) }
    where
      go :
          (s : ServerState) (r : Result _) (t : ServerState)
          → x s ≡ (r, t)
          → Keeps s t
          → ((x >>= f) s).0 ≡ ok "queued"
          → Queued s ((x >>= f) s).1
      go s (ok a) t e k = rw e (λ h.
          let q = (hf a).at t h in
          record {
            unknown = ground (arith, k.memory c m, q.unknown);
            known = q.known;
            queued = q.queued;
          })
      go s (err x) t e k = rw e (λ h. ground arith)

  accept_by :
      (is_reference : Bool)
      → Queues (
          if is_reference
          then (check_content rt now envelope >> accept_reference rt now envelope)
          else accept_inline rt now envelope)
  accept_by true = Queues-bind _ _ (Respects-check_content rt now envelope) (λ _. Queues-reference)
  accept_by false = Queues-inline

  Queues-accept :
      (config : ServerConfig) → Queues (accept_envelope_for_local rt config now envelope)
  unfolding accept_envelope_for_local
  Queues-accept config = search (respects_rules, Queues-bind, accept_by) depth 12

  -- Whoever is told `queued` brought a message that was unknown, and it is in the queue now.
  pub Queued-accept :
      (config : ServerConfig) (s : ServerState)
      → (accept_envelope_for_local rt config now envelope s).0 ≡ ok "queued"
      → Queued s (accept_envelope_for_local rt config now envelope s).1
  Queued-accept config s = (Queues-accept config).at s
