-- ===== src/Storage/Queue/Methods.antt =====
-- The methods of the queue at the row of any key.
use endpoint_protocol.Prelude.{
  ℕ, ◌+◌, String, ◌≡◌, refl, ◌∙◌, ap, Bool, true, false, Option, none, some, eqb, ◌==◌, eq_iff,
  if◌then◌else◌, arith,
}
use endpoint_protocol.Table.{row_count, matches}
use endpoint_protocol.Table.Laws.{
  where_key, updated, deleted, counted, or_row, select_one_sound, select_one-insert,
  row_count-where, select_one-where, select_one-update,
}
use endpoint_protocol.Storage.Queue.{
  QueueRow, Rows, at_key, is_active, lease_is_over, can_lease, requeued, with_lease, with_reason,
  quarantines, contains, add_row, lease_row, requeue_expired, ack, reject, of_client,
}
use endpoint_protocol.Storage.Queue.Laws.{entry, IsKeyed, same_key, entry-delete, entry-update}

abbrev pub holds : (QueueRow → Bool) → Option QueueRow → Bool
holds q none = false
holds q (some r) = q r

one_row : (q : QueueRow → Bool) (o : Option QueueRow) → eqb (counted q o) 1 ≡ holds q o
one_row q none = refl
one_row q (some r) = ground arith

module _ (rows : Rows) (keyed : IsKeyed rows) (c m : String) where
  row_count-one :
      (q : QueueRow → Bool)
      → eqb (row_count (where_key (at_key c m) q) rows) 1 ≡ holds q (entry c m rows)
  row_count-one q =
      ap (λ (n : ℕ). eqb n 1) (row_count-where (at_key c m) q rows (keyed c m))
      ∙ one_row q (entry c m rows)

  pub contains-entry : contains c m rows ≡ holds is_active (entry c m rows)
  unfolding contains matches
  contains-entry = ground (arith, select_one-where (at_key c m) is_active rows (keyed c m))

  -- `ack` and `reject` answer whether the message was queued or leased.
  pub ack-answer : (ack c m rows).0 ≡ holds is_active (entry c m rows)
  unfolding ack
  ack-answer = row_count-one is_active

  pub reject-answer :
      (policy : String) (now : ℕ) (reason : String)
      → (reject policy now c m reason rows).0 ≡ holds is_active (entry c m rows)
  unfolding reject
  reject-answer policy now reason = row_count-one is_active

  -- `ack` deletes the row of its key if it is active, and no other row.
  pub entry-ack :
      (c' m' : String)
      → entry c' m' (ack c m rows).1
        ≡ (if same_key c m c' m' then deleted is_active (entry c' m' rows) else entry c' m' rows)
  unfolding ack
  entry-ack c' m' = entry-delete c m c' m' is_active rows keyed

  pub entry-reject :
      (policy : String) (now : ℕ) (reason c' m' : String)
      → entry c' m' (reject policy now c m reason rows).1 ≡ (
          if same_key c m c' m'
          then (if quarantines policy
              then updated is_active (with_reason now reason) (entry c' m' rows)
              else deleted is_active (entry c' m' rows))
          else entry c' m' rows)
  unfolding reject
  entry-reject policy now reason c' m' = ground (
    arith,
    entry-update c m c' m' is_active rows (with_reason now reason) (λ r. refl),
    entry-delete c m c' m' is_active rows keyed,
  )

  module _ (now start lease_seconds : ℕ) where
    pub entry-lease :
        (c' m' : String)
        → entry c' m' (lease_row now start c m lease_seconds rows).1 ≡ (
            if same_key c m c' m'
            then updated (can_lease now) (with_lease now (start + lease_seconds)) (entry c' m' rows)
            else entry c' m' rows)
    unfolding lease_row
    entry-lease c' m' = ground (
      arith,
      entry-update c m c' m' (can_lease now) rows (with_lease now (start + lease_seconds))
          (λ r. refl),
    )

    -- `lease` returns the row that it has leased, and none if the row may not be leased.
    pub lease-answer : (lease_row now start c m lease_seconds rows).0 ≡ (
        if holds (can_lease now) (entry c m rows)
        then entry c m (lease_row now start c m lease_seconds rows).1
        else none)
    unfolding lease_row
    lease-answer = ground (arith, row_count-one (can_lease now))

module _ (now : ℕ) (client_ref c m : String) (rows : Rows) where
  requeued-of_client :
      (o : Option QueueRow)
      → ((r : QueueRow) → o ≡ some r → at_key c m r ≡ true)
      → updated (where_key (of_client client_ref) (lease_is_over now)) (requeued now) o
        ≡ (if c == client_ref then updated (lease_is_over now) (requeued now) o else o)
  requeued-of_client none h = ground arith
  requeued-of_client (some r) h = ground (arith, h r refl, eq_iff r.client_ref c)

  -- `deliverable` puts the client's expired leases back into the queue, and changes no other row.
  pub entry-requeue : entry c m (requeue_expired now client_ref rows) ≡ (
      if c == client_ref
      then updated (lease_is_over now) (requeued now) (entry c m rows)
      else entry c m rows)
  unfolding requeue_expired
  entry-requeue =
      select_one-update (at_key c m) (where_key (of_client client_ref) (lease_is_over now))
        (requeued now) (λ r. refl) rows
      ∙ requeued-of_client (entry c m rows) (λ r found. select_one_sound (at_key c m) rows found)

module _ (row : QueueRow) (rows : Rows) where
  abbrev old : Option QueueRow
  old = entry row.client_ref row.message_id rows

  -- `add` answers whether the key was free.
  pub add-answer : (add_row row rows).0 ≡ elim old [ none ↦ true | some _ ↦ false ]
  unfolding add_row matches
  add-answer = ground arith

  pub entry-add :
      (c m : String)
      → entry c m (add_row row rows).1
        ≡ or_row (entry c m rows) (if at_key c m row then some row else none)
  unfolding add_row matches
  entry-add c m = ground (
    arith,
    select_one-insert (at_key c m) row rows,
    eq_iff row.client_ref c,
    eq_iff row.message_id m,
  )
