-- ===== src/Storage/Replay.antt =====
-- `ReplayStore` of endpoint/storage.py over the rows of the table `replay_messages`.
pub mod Laws
use endpoint_protocol.Prelude.{
  ℕ, String, Bool, true, false, not, ◌&&◌, Option, none, some, List, [], ◌∷◌, eqb, ◌==◌,
  if◌then◌else◌,
}
use endpoint_protocol.Table.{select_one, row_count, insert, matches}

pub record ReplayRow : Type 0 where
  pub scope : String
  pub message_id : String
  pub seen_at : ℕ
  pub envelope_sha256 : Option String

abbrev pub Replays : Type 0
Replays = List ReplayRow

-- The three answers of `remember_delivery`.
pub data Delivery : Type 0 where
  new same conflict : Delivery

-- `scope = ? AND message_id = ?`
abbrev pub at_message : String → String → ReplayRow → Bool
at_message scope message_id row = row.scope == scope && row.message_id == message_id

unfoldable pub seen : String → String → Replays → Bool
unfolding matches
seen scope message_id rows = matches (at_message scope message_id) rows

abbrev pub replay_row : ℕ → String → String → Option String → ReplayRow
replay_row now scope message_id hash = record {
  scope = scope;
  message_id = message_id;
  seen_at = now;
  envelope_sha256 = hash;
}

-- INSERT OR IGNORE, and whether it inserted.
unfoldable pub remember : ℕ → String → String → Replays → Bool × Replays
unfolding matches insert
remember now scope message_id rows =
    if matches (at_message scope message_id) rows
    then (false, rows)
    else (true, insert (replay_row now scope message_id none) rows)

-- `row["envelope_sha256"] == envelope_sha256`; NULL equals no text.
abbrev pub same_hash : Option String → String → Bool
same_hash none hash = false
same_hash (some old) hash = old == hash

unfoldable pub remember_delivery : ℕ → String → String → String → Replays → Delivery × Replays
unfolding select_one insert
remember_delivery now scope message_id hash rows =
    elim (select_one (at_message scope message_id) rows) [
      | none ↦ (new, insert (replay_row now scope message_id (some hash)) rows)
      | some row ↦ (if same_hash row.envelope_sha256 hash then same else conflict, rows)
    ]
