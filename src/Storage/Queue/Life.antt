-- ===== src/Storage/Queue/Life.antt =====
-- The life of one message in the queue as a state machine, and that the queue implements it.
use endpoint_protocol.Prelude.{
  ℕ, ◌+◌, String, ◌≡◌, refl, Bool, Option, none, some, ◌==◌, eq_iff, if◌then◌else◌, arith,
}
use endpoint_protocol.Storage.Queue.{
  QueueRow, QueueState, queued, leased, rejected, Rows, is_over, new_row, quarantines, add_row,
  lease_row, requeue_expired, ack as ack_row, reject as reject_row,
}
use endpoint_protocol.Storage.Queue.Laws.{entry, same_key}
use endpoint_protocol.Storage.Queue.Methods.{
  entry-add, entry-ack, entry-reject, entry-lease, entry-requeue,
}
use endpoint_protocol.Storage.Queue.Invariant.{
  IsValid, IsValid-add, IsValid-ack, IsValid-reject, IsValid-lease, IsValid-requeue,
}

-- What a message is, seen from outside.
pub data Life : Type 0 where
  absent waiting quarantined : Life
  lent : Option ℕ → Life

abbrev pub life_of : QueueState → Option ℕ → Life
life_of queued until = waiting
life_of leased until = lent until
life_of rejected until = quarantined

abbrev pub life : Option QueueRow → Life
life none = absent
life (some r) = life_of r.state r.lease_expires_at

-- The calls that change the queue, with the readings of the clock.
pub data Call : Type 0 where
  add : (now : ℕ) (c m envelope_json : String) → Call
  lease : (now start : ℕ) (c m : String) (lease_seconds : ℕ) → Call
  deliver : (now : ℕ) (c : String) → Call
  ack : (c m : String) → Call
  reject : (now : ℕ) (c m reason : String) → Call

abbrev pub perform : String → Rows → Call → Rows
perform policy rows (add now c m envelope_json) = (add_row (new_row now c m envelope_json) rows).1
perform policy rows (lease now start c m seconds) = (lease_row now start c m seconds rows).1
perform policy rows (deliver now c) = requeue_expired now c rows
perform policy rows (ack c m) = (ack_row c m rows).1
perform policy rows (reject now c m reason) = (reject_row policy now c m reason rows).1

-- The machine of one message: what a call about it does.
abbrev pub on_add : Life → Life
on_add absent = waiting
on_add l = l

abbrev pub on_lease : ℕ → ℕ → Life → Life
on_lease now until waiting = lent (some until)
on_lease now until (lent old) = if is_over old now then lent (some until) else lent old
on_lease now until l = l

abbrev pub on_deliver : ℕ → Life → Life
on_deliver now (lent old) = if is_over old now then waiting else lent old
on_deliver now l = l

abbrev pub on_ack : Life → Life
on_ack quarantined = quarantined
on_ack l = absent

abbrev pub on_reject : Bool → Life → Life
on_reject keeps absent = absent
on_reject keeps quarantined = quarantined
on_reject keeps l = if keeps then quarantined else absent

abbrev pub life_step : String → String → String → Life → Call → Life
life_step policy c m l (add now c' m' envelope_json) = if same_key c' m' c m then on_add l else l
life_step policy c m l (lease now start c' m' seconds) =
    if same_key c' m' c m then on_lease now (start + seconds) l else l
life_step policy c m l (deliver now c') = if c == c' then on_deliver now l else l
life_step policy c m l (ack c' m') = if same_key c' m' c m then on_ack l else l
life_step policy c m l (reject now c' m' reason) =
    if same_key c' m' c m then on_reject (quarantines policy) l else l

-- Every call keeps the rows valid: at most one row for each message, and the leased rows are exactly
-- those with an expiry.
pub perform-IsValid :
    (policy : String) {rows : Rows} (call : Call)
    → IsValid rows
    → IsValid (perform policy rows call)
perform-IsValid policy (add now c m envelope_json) v =
    IsValid-add v (new_row now c m envelope_json) refl
perform-IsValid policy (lease now start c m seconds) v = IsValid-lease v now start c m seconds
perform-IsValid policy (deliver now c) v = IsValid-requeue v now c
perform-IsValid policy (ack c m) v = IsValid-ack v c m
perform-IsValid policy (reject now c m reason) v = IsValid-reject v policy now c m reason

-- One call of the queue is one step of every message's machine.
pub life-perform :
    (policy c m : String) (rows : Rows) (call : Call)
    → IsValid rows
    → life (entry c m (perform policy rows call))
      ≡ life_step policy c m (life (entry c m rows)) call
life-perform policy c m rows (add now c' m' envelope_json) v = ground (
  arith,
  entry-add (new_row now c' m' envelope_json) rows c m,
  eq_iff c' c,
  eq_iff m' m,
  eq_iff c c',
  eq_iff m m',
)
life-perform policy c m rows (lease now start c' m' seconds) v =
    ground (arith, entry-lease rows v.keyed c' m' now start seconds c m)
life-perform policy c m rows (deliver now c') v = ground (arith, entry-requeue now c' c m rows)
life-perform policy c m rows (ack c' m') v = ground (arith, entry-ack rows v.keyed c' m' c m)
life-perform policy c m rows (reject now c' m' reason) v =
    ground (arith, entry-reject rows v.keyed c' m' policy now reason c m)
