-- ===== src/Server/Respects.antt =====
-- What every method of the server respects: the queue holds remembered messages only, and nothing
-- that the replay store remembers changes. One rule for each way to build a method.
pub mod Handlers
use endpoint_protocol.Prelude.{
  ℕ, ◌+◌, ◌≤◌, String, ◌≡◌, refl, ◌∙◌, sym, ap, Bool, true, false, Option, none, some, List, [],
  ◌∷◌, if◌then◌else◌, arith, Bool-cases, Option-cases, inl, inr,
}
use endpoint_protocol.Errors.{EndpointError, Failure, Result, ok, err}
use endpoint_protocol.Exec.{Exec, pure, lift, fail, gets, modify, ◌>>=◌}
use endpoint_protocol.Dict.{Dict}
use endpoint_protocol.Table.{select_one, row_count, delete, update}
use endpoint_protocol.Table.Laws.{
  where_key, updated, none_of_row_count, row_count_of_none, row_count-delete-le, select_one-update,
}
use endpoint_protocol.Storage.Content.{Content}
use endpoint_protocol.Storage.Queue.{
  QueueRow, Rows, at_key, of_client, is_active, can_lease, lease_is_over, requeued, with_lease,
  with_reason, quarantines, lease_row, ack, reject, deliverable, requeue_expired,
}
use endpoint_protocol.Storage.Queue.Laws.{entry}
use endpoint_protocol.Storage.Replay.Laws.{kept}
use endpoint_protocol.Server.State.{ServerState, Transfer, write_log, on_content, on_queue}
use endpoint_protocol.Server.Accept.Outcome.{present, IsRemembered}

pub record Keeps (s t : ServerState) : Type 0 where
  pub remembered : IsRemembered s → IsRemembered t
  pub memory :
      (scope m : String)
      → present (kept scope m s.replay) ≡ true
      → kept scope m t.replay ≡ kept scope m s.replay

pub Keeps-refl : (s : ServerState) → Keeps s s
Keeps-refl s = record { remembered = λ h. h; memory = λ scope m h. refl }

pub Keeps-trans : {s t u : ServerState} → Keeps s t → Keeps t u → Keeps s u
Keeps-trans h k = record {
  remembered = λ r. k.remembered (h.remembered r);
  memory = λ scope m p. k.memory scope m (ap present (h.memory scope m p) ∙ p) ∙ h.memory scope m p;
}

-- `m` respects the stores, whether it returns or raises.
pub record Respects {A : Type 0} (m : Exec ServerState A) : Type 0 where
  pub at : (s : ServerState) → Keeps s (m s).1

module _ {A : Type 0} where
  pub Respects-pure : (a : A) → Respects (pure a)
  unfolding pure
  Respects-pure a = record { at = Keeps-refl }

  pub Respects-lift : (r : Result A) → Respects (lift r)
  unfolding lift
  Respects-lift r = record { at = Keeps-refl }

  pub Respects-fail : (e : EndpointError) → Respects (fail {A = A} e)
  unfolding fail
  Respects-fail e = record { at = Keeps-refl }

  pub Respects-gets : (f : ServerState → A) → Respects (gets f)
  unfolding gets
  Respects-gets f = record { at = Keeps-refl }

  -- A method of the content store touches neither of the two stores.
  pub Respects-on_content : (m : Exec Content A) → Respects (on_content m)
  unfolding on_content
  Respects-on_content m = record {
    at = λ s. record { remembered = λ h. h; memory = λ scope m h. refl };
  }

pub Respects-write_log :
    (event : String) (details : Dict String) → Respects (write_log event details)
unfolding write_log
Respects-write_log event details = record {
  at = λ s. record { remembered = λ h. h; memory = λ scope m h. refl };
}

module _ {A B : Type 0} where
  pub Respects-bind :
      (m : Exec ServerState A) (f : A → Exec ServerState B)
      → Respects m
      → ((a : A) → Respects (f a))
      → Respects (m >>= f)
  unfolding ◌>>=◌
  Respects-bind m f hm hf = record { at = λ s. go s (m s).0 (m s).1 refl (hm.at s) }
    where
      go :
          (s : ServerState) (r : Result A) (t : ServerState)
          → m s ≡ (r, t)
          → Keeps s t
          → Keeps s ((m >>= f) s).1
      go s (ok a) t e k = rw e (Keeps-trans k ((hf a).at t))
      go s (err x) t e k = rw e k

-- A change of the transfers alone.
pub Respects-modify_transfers :
    (f : List Transfer → List Transfer)
    → Respects (modify (λ s. record s { content_transfers = f s.content_transfers }))
unfolding modify
Respects-modify_transfers f = record {
  at = λ s. record { remembered = λ h. h; memory = λ scope m h. refl };
}

-- A statement on the queue brings no new key.
abbrev Shrinks : {A : Type 0} → (Rows → A × Rows) → Type 0
Shrinks f =
    (rows : Rows) (c m : String)
    → present (entry c m (f rows).1) ≡ true
    → present (entry c m rows) ≡ true

pub Respects-on_queue : {A : Type 0} (f : Rows → A × Rows) → Shrinks f → Respects (on_queue f)
unfolding on_queue
Respects-on_queue f shrinks = record {
  at = λ s. record {
    remembered = λ h c m p. h c m (shrinks s.queue c m p);
    memory = λ scope m h. refl;
  };
}

present-delete :
    (p : QueueRow → Bool) (rows : Rows) (c m : String)
    → present (entry c m (delete p rows)) ≡ true
    → present (entry c m rows) ≡ true
present-delete p rows c m h = elim (Option-cases (entry c m rows)) [
  | inl gone ↦ ground (
    arith,
    row_count_of_none (at_key c m) rows gone,
    row_count-delete-le (at_key c m) p rows,
    none_of_row_count (at_key c m) (delete p rows),
  )
  | inr (r, found) ↦ ground (arith, found)
]

present-update :
    (p : QueueRow → Bool) (f : QueueRow → QueueRow) (rows : Rows) (c m : String)
    → ((r : QueueRow) → at_key c m (f r) ≡ at_key c m r)
    → present (entry c m (update p f rows)) ≡ true
    → present (entry c m rows) ≡ true
present-update p f rows c m keeps h = ground (arith, select_one-update (at_key c m) p f keeps rows)

pub Respects-ack : (c m : String) → Respects (on_queue (ack c m))
unfolding ack
Respects-ack c m =
    Respects-on_queue (ack c m)
      (λ rows c' m'. present-delete (where_key (at_key c m) is_active) rows c' m')

Shrinks-reject :
    (policy : String) (now : ℕ) (c m reason : String) → Shrinks (reject policy now c m reason)
unfolding reject
Shrinks-reject policy now c m reason rows c' m' h =
    let w = where_key (at_key c m) is_active in
    elim (Bool-cases (quarantines policy)) [
      | inl stays ↦ present-update w (with_reason now reason) rows c' m' (λ r. refl) (rw stays at h)
      | inr goes ↦ present-delete w rows c' m' (rw goes at h)
    ]

pub Respects-reject :
    (policy : String) (now : ℕ) (c m reason : String)
    → Respects (on_queue (reject policy now c m reason))
Respects-reject policy now c m reason =
    Respects-on_queue (reject policy now c m reason) (Shrinks-reject policy now c m reason)

Shrinks-lease : (now start : ℕ) (c m : String) (n : ℕ) → Shrinks (lease_row now start c m n)
unfolding lease_row
Shrinks-lease now start c m n rows c' m' h =
    present-update (where_key (at_key c m) (can_lease now)) (with_lease now (start + n)) rows c' m'
      (λ r. refl) (ground arith)

pub Respects-lease :
    (now start : ℕ) (c m : String) (n : ℕ) → Respects (on_queue (lease_row now start c m n))
Respects-lease now start c m n =
    Respects-on_queue (lease_row now start c m n) (Shrinks-lease now start c m n)

pub Respects-deliverable : (now : ℕ) (c : String) → Respects (on_queue (deliverable now c))
unfolding deliverable requeue_expired
Respects-deliverable now c = Respects-on_queue (deliverable now c) (λ rows c' m'.
    present-update (where_key (of_client c) (lease_is_over now)) (requeued now) rows c' m'
      (λ r. refl))

pub ruleset respects_rules = (
  Respects-pure, Respects-lift, Respects-fail, Respects-gets, Respects-on_content,
  Respects-write_log, Respects-bind, Respects-ack, Respects-reject, Respects-lease,
  Respects-deliverable,
)
