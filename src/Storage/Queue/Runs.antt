-- ===== src/Storage/Queue/Runs.antt =====
-- Whole runs of the queue: refinement of the state machine, exclusive leases, redelivery, and the
-- quarantine.
use endpoint_protocol.Prelude.{
  ℕ, ◌+◌, ◌<◌, String, ◌≡◌, refl, ◌∙◌, ap, Bool, true, false, not, Option, none, some, List, [],
  ◌∷◌, ltb, eq_refl, if◌then◌else◌, arith, Bool-cases, inl, inr, lt→leb-false,
}
use endpoint_protocol.Storage.Queue.{QueueRow, Rows, is_over, can_lease, lease_row, with_lease}
use endpoint_protocol.Storage.Queue.Laws.{entry, same_key}
use endpoint_protocol.Storage.Queue.Methods.{holds, entry-lease, lease-answer}
use endpoint_protocol.Storage.Queue.Invariant.{IsValid, IsValid-lease}
use endpoint_protocol.Storage.Queue.Life.{
  Life, waiting, quarantined, lent, life, Call, add, lease, deliver, ack, reject, perform,
  perform-IsValid, life_step, life-perform,
}

unfoldable pub run : String → Rows → List Call → Rows
run policy rows [] = rows
run policy rows (call ∷ calls) = run policy (perform policy rows call) calls

unfoldable pub life_run : String → String → String → Life → List Call → Life
life_run policy c m l [] = l
life_run policy c m l (call ∷ calls) = life_run policy c m (life_step policy c m l call) calls

pub run-IsValid :
    (policy : String) (calls : List Call) {rows : Rows}
    → IsValid rows
    → IsValid (run policy rows calls)
unfolding run
run-IsValid policy [] v = v
run-IsValid policy (call ∷ calls) v = run-IsValid policy calls (perform-IsValid policy call v)

-- After any calls, in any order, the state of every message is the one that its machine reaches.
pub life-run :
    (policy c m : String) (rows : Rows) (calls : List Call)
    → IsValid rows
    → life (entry c m (run policy rows calls)) ≡ life_run policy c m (life (entry c m rows)) calls
unfolding run life_run
life-run policy c m rows [] v = refl
life-run policy c m rows (call ∷ calls) v =
    life-run policy c m (perform policy rows call) calls (perform-IsValid policy call v)
    ∙ ap (λ l. life_run policy c m l calls) (life-perform policy c m rows call v)

-- A call that cannot end the lease of `(c, m)` that runs until `until`: any call of another
-- message, an `add`, and a lease or a delivery at a time before `until`.
abbrev pub is_quiet : String → String → ℕ → Call → Bool
is_quiet c m until (add now c' m' envelope_json) = true
is_quiet c m until (lease now start c' m' seconds) = ltb now until
is_quiet c m until (deliver now c') = ltb now until
is_quiet c m until (ack c' m') = not (same_key c' m' c m)
is_quiet c m until (reject now c' m' reason) = not (same_key c' m' c m)

abbrev pub AreQuiet : String → String → ℕ → List Call → Type 0
AreQuiet c m until [] = Unit
AreQuiet c m until (call ∷ calls) = (is_quiet c m until call ≡ true) × AreQuiet c m until calls

quiet_step :
    (policy c m : String) (until : ℕ) (call : Call)
    → is_quiet c m until call ≡ true
    → life_step policy c m (lent (some until)) call ≡ lent (some until)
quiet_step policy c m until (add now c' m' envelope_json) h = ground arith
quiet_step policy c m until (lease now start c' m' seconds) h = ground arith
quiet_step policy c m until (deliver now c') h = ground arith
quiet_step policy c m until (ack c' m') h = ground arith
quiet_step policy c m until (reject now c' m' reason) h = ground arith

quiet_run :
    (policy c m : String) (until : ℕ) (calls : List Call)
    → AreQuiet c m until calls
    → life_run policy c m (lent (some until)) calls ≡ lent (some until)
unfolding life_run
quiet_run policy c m until [] h = refl
quiet_run policy c m until (call ∷ calls) h =
    ap (λ l. life_run policy c m l calls) (quiet_step policy c m until call h.0)
    ∙ quiet_run policy c m until calls h.1

-- May a message in this state be leased?
abbrev pub may_lease : ℕ → Life → Bool
may_lease now waiting = true
may_lease now (lent old) = is_over old now
may_lease now l = false

can_lease-life : (now : ℕ) (o : Option QueueRow) → holds (can_lease now) o ≡ may_lease now (life o)
can_lease-life now none = refl
can_lease-life now (some r) = ground arith

same_key_self : (c m : String) → same_key c m c m ≡ true
same_key_self c m = rw (eq_refl c, eq_refl m)

module _ (rows : Rows) (v : IsValid rows) (c m : String) (now start lease_seconds : ℕ) where
  abbrev after : Rows
  after = (lease_row now start c m lease_seconds rows).1

  answer-life :
      (lease_row now start c m lease_seconds rows).0
      ≡ (if may_lease now (life (entry c m rows)) then entry c m after else none)
  answer-life =
      lease-answer rows v.keyed c m now start lease_seconds
      ∙ ap (λ b. if b then entry c m after else none) (can_lease-life now (entry c m rows))

  leased_self :
      (o : Option QueueRow)
      → entry c m rows ≡ o
      → may_lease now (life o) ≡ true
      → (r : QueueRow) × (entry c m after ≡ some r)
        × (life (some r) ≡ lent (some (start + lease_seconds)))
  leased_self none e h = absurd (ground arith)
  leased_self (some r) e h = (
    with_lease now (start + lease_seconds) r,
    ground (
      arith,
      entry-lease rows v.keyed c m now start lease_seconds c m,
      same_key_self c m,
      can_lease-life now (some r),
    ),
    refl,
  )

  -- A message that waits, or whose lease is over, is handed out, and is then lent for the time asked.
  pub lease_hands_out :
      may_lease now (life (entry c m rows)) ≡ true
      → (r : QueueRow) × ((lease_row now start c m lease_seconds rows).0 ≡ some r)
        × (life (entry c m (lease_row now start c m lease_seconds rows).1)
            ≡ lent (some (start + lease_seconds)))
  lease_hands_out h =
      let (r, found, is_lent) = leased_self (entry c m rows) refl h in
      (r, ground (arith, answer-life, found), ap life found ∙ is_lent)

  lent_of_answer :
      {r : QueueRow}
      → (lease_row now start c m lease_seconds rows).0 ≡ some r
      → life (entry c m after) ≡ lent (some (start + lease_seconds))
  lent_of_answer {r} h = elim (Bool-cases (may_lease now (life (entry c m rows)))) [
    | inl free ↦ (lease_hands_out free).2
    | inr busy ↦ absurd (ground (arith, answer-life))
  ]

  -- Once a lease is handed out, no other one is while it runs: whatever calls come in between, with
  -- clocks before its end, unless one of them acknowledges or rejects this message.
  pub lease_is_exclusive :
      (policy : String) (calls : List Call) (later start' seconds' : ℕ) {r : QueueRow}
      → (lease_row now start c m lease_seconds rows).0 ≡ some r
      → AreQuiet c m (start + lease_seconds) calls
      → later < start + lease_seconds
      → (lease_row later start' c m seconds'
          (run policy (lease_row now start c m lease_seconds rows).1 calls)).0
        ≡ none
  lease_is_exclusive policy calls later start' seconds' h quiet early =
      let until = start + lease_seconds in
      let rows' = run policy after calls in
      let v' = IsValid-lease v now start c m lease_seconds in
      let still : life (entry c m rows') ≡ lent (some until) =
        life-run policy c m after calls v'
        ∙ ap (λ l. life_run policy c m l calls) (lent_of_answer h)
        ∙ quiet_run policy c m until calls quiet in
      ground (
        arith,
        lease-answer rows' (run-IsValid policy calls v').keyed c m later start' seconds',
        can_lease-life later (entry c m rows'),
        still,
        lt→leb-false until later early,
      )

-- A quarantined message stays in quarantine whatever is called, a second `add` included.
pub quarantine_is_final :
    (policy c m : String) (rows : Rows) (calls : List Call)
    → IsValid rows
    → life (entry c m rows) ≡ quarantined
    → life (entry c m (run policy rows calls)) ≡ quarantined
unfolding run
quarantine_is_final policy c m rows [] v h = h
quarantine_is_final policy c m rows (call ∷ calls) v h =
    quarantine_is_final policy c m (perform policy rows call) calls (perform-IsValid policy call v)
      (life-perform policy c m rows call v ∙ ap (λ l. life_step policy c m l call) h ∙ stays call)
  where
    stays : (call : Call) → life_step policy c m quarantined call ≡ quarantined
    stays (add now c' m' envelope_json) = ground arith
    stays (lease now start c' m' seconds) = ground arith
    stays (deliver now c') = ground arith
    stays (ack c' m') = ground arith
    stays (reject now c' m' reason) = ground arith
