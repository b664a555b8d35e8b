-- ===== src/Storage/Queue/Invariant.antt =====
-- What every method of the queue keeps: the primary key, and that exactly the leased rows have an
-- expiry.
use endpoint_protocol.Prelude.{
  ℕ, ◌+◌, String, ◌≡◌, refl, Bool, true, false, Option, none, some, [], eqb, ◌⊎◌, eq_iff, arith,
  Bool-cases, Option-cases, inl, inr,
}
use endpoint_protocol.Table.{row_count, delete, update, insert, matches}
use endpoint_protocol.Table.Laws.{
  where_key, row_count_of_none, row_count-insert, row_count-delete-le, row_count-update, All,
  All-delete, All-update, All-insert,
}
use endpoint_protocol.Storage.Queue.{
  QueueRow, QueueState, leased, Rows, at_key, is_active, lease_is_over, can_lease, requeued,
  with_lease, with_reason, quarantines, add_row, lease_row, requeue_expired, ack, reject, of_client,
}
use endpoint_protocol.Storage.Queue.Laws.{entry, IsKeyed}

-- A lease has an expiry; a row that is not leased has none.
abbrev expiry_fits : QueueState → Option ℕ → Bool
expiry_fits leased (some t) = true
expiry_fits leased none = false
expiry_fits _ none = true
expiry_fits _ (some t) = false

abbrev pub HasExpiry : QueueRow → Type 0
HasExpiry row = expiry_fits row.state row.lease_expires_at ≡ true

pub record IsValid (rows : Rows) : Type 0 where
  pub keyed : IsKeyed rows
  pub timed : All HasExpiry rows

pub IsValid-empty : IsValid []
unfolding row_count
IsValid-empty = record { keyed = λ c m. omega arith; timed = tt }

module _ {rows : Rows} (v : IsValid rows) where
  pub IsValid-delete : (p : QueueRow → Bool) → IsValid (delete p rows)
  IsValid-delete p = record {
    keyed = λ c m. omega (arith, row_count-delete-le (at_key c m) p rows, v.keyed c m);
    timed = All-delete HasExpiry p rows v.timed;
  }

  pub IsValid-update :
      (p : QueueRow → Bool) (f : QueueRow → QueueRow)
      → ((c m : String) (r : QueueRow) → at_key c m (f r) ≡ at_key c m r)
      → ((r : QueueRow) → HasExpiry r → HasExpiry (f r))
      → IsValid (update p f rows)
  IsValid-update p f keeps timed = record {
    keyed = λ c m. omega (arith, row_count-update (at_key c m) p f (keeps c m) rows, v.keyed c m);
    timed = All-update HasExpiry p f timed rows v.timed;
  }

  -- A row goes in where its key is free; otherwise nothing changes.
  add_row-cases :
      (row : QueueRow)
      → ((row_count (at_key row.client_ref row.message_id) rows ≡ 0)
          × ((add_row row rows).1 ≡ insert row rows))
        ⊎ ((add_row row rows).1 ≡ rows)
  unfolding add_row matches
  add_row-cases row = elim (Option-cases (entry row.client_ref row.message_id rows)) [
    | inl free ↦
        inl (row_count_of_none (at_key row.client_ref row.message_id) rows free, ground arith)
    | inr (r, taken) ↦ inr (ground arith)
  ]

  add_row-IsKeyed : (row : QueueRow) → IsKeyed (add_row row rows).1
  add_row-IsKeyed row c m = elim (add_row-cases row) [
    | inr same ↦ rw same (v.keyed c m)
    | inl (free, added) ↦ rw added (
        ground (
          arith,
          row_count-insert (at_key c m) row rows,
          v.keyed c m,
          free,
          eq_iff row.client_ref c,
          eq_iff row.message_id m,
        ))
  ]

  pub IsValid-add : (row : QueueRow) → HasExpiry row → IsValid (add_row row rows).1
  IsValid-add row fits = record {
    keyed = add_row-IsKeyed row;
    timed = elim (add_row-cases row) [
      | inr same ↦ rw same v.timed
      | inl (free, added) ↦ rw added (All-insert HasExpiry row rows fits v.timed)
    ];
  }

  pub IsValid-lease :
      (now start : ℕ) (c m : String) (lease_seconds : ℕ)
      → IsValid (lease_row now start c m lease_seconds rows).1
  unfolding lease_row
  IsValid-lease now start c m lease_seconds =
      let q = with_lease now (start + lease_seconds) in
      let w = where_key (at_key c m) (can_lease now) in
      elim (Bool-cases (eqb (row_count w rows) 1)) [
        | inl one ↦ rw one (IsValid-update w q (λ c' m' r. refl) (λ r fits. refl))
        | inr other ↦ rw other (IsValid-update w q (λ c' m' r. refl) (λ r fits. refl))
      ]

  pub IsValid-ack : (c m : String) → IsValid (ack c m rows).1
  unfolding ack
  IsValid-ack c m = IsValid-delete (where_key (at_key c m) is_active)

  pub IsValid-reject :
      (policy : String) (now : ℕ) (c m reason : String)
      → IsValid (reject policy now c m reason rows).1
  unfolding reject
  IsValid-reject policy now c m reason =
      let w = where_key (at_key c m) is_active in
      elim (Bool-cases (quarantines policy)) [
        | inl kept ↦
            rw kept (IsValid-update w (with_reason now reason) (λ c' m' r. refl) (λ r fits. refl))
        | inr dropped ↦ rw dropped (IsValid-delete w)
      ]

  pub IsValid-requeue :
      (now : ℕ) (client_ref : String) → IsValid (requeue_expired now client_ref rows)
  unfolding requeue_expired
  IsValid-requeue now client_ref =
      IsValid-update (where_key (of_client client_ref) (lease_is_over now)) (requeued now)
        (λ c m r. refl) (λ r fits. refl)
