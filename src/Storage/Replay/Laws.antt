-- ===== src/Storage/Replay/Laws.antt =====
-- What the replay store remembers of each message.
use endpoint_protocol.Prelude.{
  ℕ, String, ◌≡◌, true, false, not, ◌&&◌, Option, none, some, ◌==◌, eq_iff, if◌then◌else◌, arith,
}
use endpoint_protocol.Table.{select_one, matches}
use endpoint_protocol.Table.Laws.{select_one-insert}
use endpoint_protocol.Storage.Replay.{
  ReplayRow, Replays, Delivery, new, same, conflict, at_message, seen, replay_row, remember,
  same_hash, remember_delivery,
}

-- What the store holds of a message: nothing, or the hash of its envelope, if one was kept.
abbrev pub memory : String → String → Replays → Option ReplayRow
memory scope m rows = select_one (at_message scope m) rows

abbrev pub hash_of : Option ReplayRow → Option (Option String)
hash_of none = none
hash_of (some r) = some r.envelope_sha256

abbrev pub kept : String → String → Replays → Option (Option String)
kept scope m rows = hash_of (memory scope m rows)

-- The answer that a remembered hash gives.
abbrev pub verdict : Option (Option String) → String → Delivery
verdict none hash = new
verdict (some old) hash = if same_hash old hash then same else conflict

abbrev pub keep_first : Option (Option String) → Option String → Option (Option String)
keep_first none hash = some hash
keep_first (some old) hash = some old

module _ (now : ℕ) (scope m : String) (rows : Replays) where
  pub remember-answer : (remember now scope m rows).0 ≡ not (seen scope m rows)
  unfolding remember seen
  remember-answer = ground arith

  pub kept-remember :
      (scope' m' : String)
      → kept scope' m' (remember now scope m rows).1 ≡ (
          if scope == scope' && m == m'
          then keep_first (kept scope' m' rows) none
          else kept scope' m' rows)
  unfolding remember matches
  kept-remember scope' m' = ground (
    arith,
    select_one-insert (at_message scope' m') (replay_row now scope m none) rows,
    eq_iff scope scope',
    eq_iff m m',
  )

  module _ (hash : String) where
    -- `remember_delivery` is new for a message that was never seen, the same for one that was seen
    -- with this hash, and a conflict otherwise, also where the message was seen without a hash.
    pub remember_delivery-answer :
        (remember_delivery now scope m hash rows).0 ≡ verdict (kept scope m rows) hash
    unfolding remember_delivery
    remember_delivery-answer = ground arith

    pub kept-remember_delivery :
        (scope' m' : String)
        → kept scope' m' (remember_delivery now scope m hash rows).1 ≡ (
            if scope == scope' && m == m'
            then keep_first (kept scope' m' rows) (some hash)
            else kept scope' m' rows)
    unfolding remember_delivery
    kept-remember_delivery scope' m' = ground (
      arith,
      select_one-insert (at_message scope' m') (replay_row now scope m (some hash)) rows,
      eq_iff scope scope',
      eq_iff m m',
    )

pub seen-kept :
    (scope m : String) (rows : Replays)
    → seen scope m rows ≡ elim (kept scope m rows) [ none ↦ false | some _ ↦ true ]
unfolding seen matches
seen-kept scope m rows = ground arith
