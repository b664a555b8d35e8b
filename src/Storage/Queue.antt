-- ===== src/Storage/Queue.antt =====
-- `MessageQueue` of endpoint/storage.py over the rows of the table `queue_messages`.
-- A time is a number of seconds: the ISO texts that the code writes have one width and one zone, so
-- their order as texts is that of the instants. A method takes each reading of the clock.
pub mod Laws
pub mod Methods
pub mod Invariant
pub mod Life
pub mod Runs
pub mod Order
use Prim.Native.String.{compare}
use Prim.Native.Nat.{Ordering}
use endpoint_protocol.Prelude.{
  ℕ, suc, ◌+◌, String, Bool, true, false, not, ◌&&◌, ◌||◌, Option, none, some, List, [], ◌∷◌, leb,
  ltb, eqb, ◌==◌, if◌then◌else◌,
}
use endpoint_protocol.Json.{Json, get, text}
use endpoint_protocol.Errors.{Result, ok, err, crash, ◌>>=◌}
use endpoint_protocol.Runtime.{Runtime, bad_json, loaded}
use endpoint_protocol.Protocol.Canonical.{canonical_json}
use endpoint_protocol.Table.{select, select_one, row_count, delete, update, insert, matches}
use endpoint_protocol.Table.Laws.{where_key}

pub data QueueState : Type 0 where
  queued leased rejected : QueueState

pub record QueueRow : Type 0 where
  pub client_ref : String
  pub message_id : String
  pub state : QueueState
  pub envelope_json : String
  pub lease_expires_at : Option ℕ
  pub delivery_attempts : ℕ
  pub last_attempt_at : Option ℕ
  pub reject_reason : Option String
  pub created_at : ℕ
  pub updated_at : ℕ

-- `QueueRecord.as_dict`, what the reading methods return.
pub record QueueRecord : Type 0 where
  pub client_ref : String
  pub message_id : String
  pub state : QueueState
  pub envelope : Json
  pub lease_expires_at : Option ℕ
  pub delivery_attempts : ℕ
  pub last_attempt_at : Option ℕ
  pub reject_reason : Option String

abbrev pub Rows : Type 0
Rows = List QueueRow

-- The value of `rejected_policy` that keeps rejected messages.
abbrev pub quarantines : String → Bool
quarantines policy = policy == "quarantine"

-- `client_ref = ? AND message_id = ?`
abbrev pub at_key : String → String → QueueRow → Bool
at_key client_ref message_id row = row.client_ref == client_ref && row.message_id == message_id

-- `state IN ('queued', 'leased')`, `state = 'rejected'`, `state = 'queued'`
abbrev pub is_active : QueueRow → Bool
is_active row = elim row.state [ rejected ↦ false | _ ↦ true ]

abbrev pub is_rejected : QueueRow → Bool
is_rejected row = elim row.state [ rejected ↦ true | _ ↦ false ]

abbrev pub is_queued : QueueRow → Bool
is_queued row = elim row.state [ queued ↦ true | _ ↦ false ]

-- `lease_expires_at IS NOT NULL AND lease_expires_at <= ?`
abbrev pub is_over : Option ℕ → ℕ → Bool
is_over none now = false
is_over (some t) now = leb t now

-- `state = 'leased' AND lease_expires_at IS NOT NULL AND lease_expires_at <= ?`
abbrev pub lease_is_over : ℕ → QueueRow → Bool
lease_is_over now row = elim row.state [ leased ↦ is_over row.lease_expires_at now | _ ↦ false ]

abbrev pub can_lease : ℕ → QueueRow → Bool
can_lease now row = is_queued row || lease_is_over now row

-- The rows that the four updates write.
abbrev pub requeued : ℕ → QueueRow → QueueRow
requeued now row = record row { state = queued; lease_expires_at = none; updated_at = now }

abbrev pub with_lease : ℕ → ℕ → QueueRow → QueueRow
with_lease now until row = record row {
  state = leased;
  lease_expires_at = some until;
  delivery_attempts = row.delivery_attempts + 1;
  last_attempt_at = some now;
  updated_at = now;
}

abbrev pub with_reason : ℕ → String → QueueRow → QueueRow
with_reason now reason row = record row {
  state = rejected;
  lease_expires_at = none;
  reject_reason = some reason;
  updated_at = now;
}

abbrev pub new_row : ℕ → String → String → String → QueueRow
new_row now client_ref message_id envelope_json = record {
  client_ref = client_ref;
  message_id = message_id;
  state = queued;
  envelope_json = envelope_json;
  lease_expires_at = none;
  delivery_attempts = 0;
  last_attempt_at = none;
  reject_reason = none;
  created_at = now;
  updated_at = now;
}

-- `_queue_row_as_record`
unfoldable pub queue_row_as_record : Runtime → QueueRow → Result QueueRecord
queue_row_as_record rt row = elim (rt.loads row.envelope_json) [
  | bad_json _ _ ↦ err (crash "JSONDecodeError")
  | loaded envelope ↦ ok (record {
    client_ref = row.client_ref;
    message_id = row.message_id;
    state = row.state;
    envelope = envelope;
    lease_expires_at = row.lease_expires_at;
    delivery_attempts = row.delivery_attempts;
    last_attempt_at = row.last_attempt_at;
    reject_reason = row.reject_reason;
  })
]

-- `[_queue_row_as_record(row) for row in rows]`
unfoldable pub queue_rows_as_records : Runtime → Rows → Result (List QueueRecord)
unfolding queue_row_as_record
queue_rows_as_records rt [] = ok []
queue_rows_as_records rt (row ∷ rest) = do
  r ← queue_row_as_record rt row
  rs ← queue_rows_as_records rt rest
  ok (r ∷ rs)

abbrev record_of : Runtime → Option QueueRow → Result (Option QueueRecord)
record_of rt none = ok none
record_of rt (some row) = do r ← queue_row_as_record rt row; ok (some r)

unfoldable pub contains : String → String → Rows → Bool
unfolding matches
contains client_ref message_id rows =
    matches (where_key (at_key client_ref message_id) is_active) rows

-- The INSERT: a row with the same primary key, in whatever state, is an `IntegrityError`.
unfoldable pub add_row : QueueRow → Rows → Bool × Rows
unfolding matches insert
add_row row rows =
    if matches (at_key row.client_ref row.message_id) rows
    then (false, rows)
    else (true, insert row rows)

unfoldable pub add : Runtime → ℕ → String → Json → Rows → Result (Bool × Rows)
unfolding add_row canonical_json get
add rt now client_ref envelope rows = do
  envelope_json ← canonical_json rt envelope
  ok (add_row (new_row now client_ref (text (get envelope "message_id")) envelope_json) rows)

unfoldable pub read : Runtime → String → String → Rows → Result (Option QueueRecord)
unfolding select_one queue_row_as_record
read rt client_ref message_id rows =
    record_of rt (select_one (where_key (at_key client_ref message_id) is_active) rows)

unfoldable pub read_rejected : Runtime → String → String → Rows → Result (Option QueueRecord)
unfolding select_one queue_row_as_record
read_rejected rt client_ref message_id rows =
    record_of rt (select_one (where_key (at_key client_ref message_id) is_rejected) rows)

-- `ORDER BY created_at ASC, message_id ASC`
abbrev pub row_le : QueueRow → QueueRow → Bool
row_le a b =
    ltb a.created_at b.created_at
    || (eqb a.created_at b.created_at
        && elim (compare a.message_id b.message_id) [ Ordering.gt ↦ false | _ ↦ true ])

unfoldable pub insert_ordered : QueueRow → Rows → Rows
insert_ordered row [] = row ∷ []
insert_ordered row (x ∷ xs) =
    let rest = insert_ordered row xs in if row_le row x then row ∷ x ∷ xs else x ∷ rest

unfoldable pub ordered : Rows → Rows
unfolding insert_ordered
ordered [] = []
ordered (x ∷ xs) = insert_ordered x (ordered xs)

abbrev pub of_client : String → QueueRow → Bool
of_client client_ref row = row.client_ref == client_ref

-- The UPDATE of `deliverable`, and its SELECT.
unfoldable pub requeue_expired : ℕ → String → Rows → Rows
unfolding update
requeue_expired now client_ref rows =
    update (where_key (of_client client_ref) (lease_is_over now)) (requeued now) rows

unfoldable pub queued_rows : String → Rows → Rows
unfolding select ordered
queued_rows client_ref rows = ordered (select (where_key (of_client client_ref) is_queued) rows)

unfoldable pub deliverable : ℕ → String → Rows → Rows × Rows
unfolding requeue_expired queued_rows
deliverable now client_ref rows =
    let rows' = requeue_expired now client_ref rows in (queued_rows client_ref rows', rows')

-- `lease`, with the row that it returns. `now` is the first reading of the clock and `start` the
-- second one, from which the lease runs.
unfoldable pub lease_row : ℕ → ℕ → String → String → ℕ → Rows → Option QueueRow × Rows
unfolding row_count update select_one
lease_row now start client_ref message_id lease_seconds rows =
    let p = where_key (at_key client_ref message_id) (can_lease now) in
    let rows' = update p (with_lease now (start + lease_seconds)) rows in
    if eqb (row_count p rows) 1
    then (select_one (at_key client_ref message_id) rows', rows')
    else (none, rows')

unfoldable pub ack : String → String → Rows → Bool × Rows
unfolding row_count delete
ack client_ref message_id rows =
    let p = where_key (at_key client_ref message_id) is_active in
    (eqb (row_count p rows) 1, delete p rows)

-- `reject` under a policy: a quarantined row stays with its reason, any other is deleted.
unfoldable pub reject : String → ℕ → String → String → String → Rows → Bool × Rows
unfolding row_count delete update
reject policy now client_ref message_id reason rows =
    let p = where_key (at_key client_ref message_id) is_active in
    (
      eqb (row_count p rows) 1,
      (if quarantines policy then update p (with_reason now reason) rows else delete p rows),
    )

unfoldable pub count_active : String → Rows → ℕ
unfolding row_count
count_active client_ref rows = row_count (where_key (of_client client_ref) is_active) rows
