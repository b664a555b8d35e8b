-- ===== src/Storage/Queue/Laws.antt =====
-- What each method of the queue does to the row of any key, and what every method keeps: the
-- primary key, and that exactly the leased rows have an expiry.
use endpoint_protocol.Prelude.{
  ◌≤◌, String, ◌≡◌, refl, ◌∙◌, Bool, true, ◌&&◌, Option, none, some, ◌==◌, eq_iff, if◌then◌else◌,
  arith,
}
use endpoint_protocol.Table.{select_one, row_count, delete, update}
use endpoint_protocol.Table.Laws.{
  where_key, updated, deleted, select_one_sound, select_one-delete, select_one-update,
}
use endpoint_protocol.Storage.Queue.{QueueRow, Rows, at_key}

-- The row of a key.
abbrev pub entry : String → String → Rows → Option QueueRow
entry c m rows = select_one (at_key c m) rows

-- PRIMARY KEY (client_ref, message_id)
abbrev pub IsKeyed : Rows → Type 0
IsKeyed rows = (c m : String) → row_count (at_key c m) rows ≤ 1

abbrev pub same_key : String → String → String → String → Bool
same_key c m c' m' = c' == c && m' == m

-- A row of key `(c', m')` is one of key `(c, m)` exactly when the keys are the same.
pub at_key-same_key :
    (c m c' m' : String) (r : QueueRow) → at_key c' m' r ≡ true → at_key c m r ≡ same_key c m c' m'
at_key-same_key c m c' m' r h = ground (arith, eq_iff r.client_ref c', eq_iff r.message_id m')

module _ (c m c' m' : String) (q : QueueRow → Bool) where
  deleted-same_key :
      (o : Option QueueRow)
      → ((r : QueueRow) → o ≡ some r → at_key c m r ≡ same_key c m c' m')
      → deleted (where_key (at_key c m) q) o ≡ (if same_key c m c' m' then deleted q o else o)
  deleted-same_key none h = ground arith
  deleted-same_key (some r) h = rw (h r refl) (ground arith)

  updated-same_key :
      (f : QueueRow → QueueRow) (o : Option QueueRow)
      → ((r : QueueRow) → o ≡ some r → at_key c m r ≡ same_key c m c' m')
      → updated (where_key (at_key c m) q) f o ≡ (if same_key c m c' m' then updated q f o else o)
  updated-same_key f none h = ground arith
  updated-same_key f (some r) h = rw (h r refl) (ground arith)

  module _ (rows : Rows) where
    found-same_key : (r : QueueRow) → entry c' m' rows ≡ some r → at_key c m r ≡ same_key c m c' m'
    found-same_key r found =
        at_key-same_key c m c' m' r (select_one_sound (at_key c' m') rows found)

    -- A statement of key `(c, m)` at the row of `(c', m')`.
    pub entry-delete :
        IsKeyed rows
        → entry c' m' (delete (where_key (at_key c m) q) rows)
          ≡ (if same_key c m c' m' then deleted q (entry c' m' rows) else entry c' m' rows)
    entry-delete keyed =
        select_one-delete (at_key c' m') (where_key (at_key c m) q) rows (keyed c' m')
        ∙ deleted-same_key (entry c' m' rows) found-same_key

    pub entry-update :
        (f : QueueRow → QueueRow)
        → ((r : QueueRow) → at_key c' m' (f r) ≡ at_key c' m' r)
        → entry c' m' (update (where_key (at_key c m) q) f rows)
          ≡ (if same_key c m c' m' then updated q f (entry c' m' rows) else entry c' m' rows)
    entry-update f keeps =
        select_one-update (at_key c' m') (where_key (at_key c m) q) f keeps rows
        ∙ updated-same_key f (entry c' m' rows) found-same_key
