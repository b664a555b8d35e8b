-- ===== src/Storage/Queue/Order.antt =====
-- The order in which `deliverable` answers.
use Prim.Native.String.{compare, then as lexically}
use Prim.Native.String.compare.{nil-cons, cons-cons}
use Prim.Native.Char.{Char, code}
use Prim.Native.Nat.{Ordering, compare as compare_ℕ}
use endpoint_protocol.Prelude.{
  ℕ, suc, ◌≤◌, ◌⊎◌, ltb, none, ◌==◌, ◌+◌, String, ◌≡◌, ◌∙◌, refl, Bool, true, false, ◌&&◌, [], ◌∷◌,
  if◌then◌else◌, arith, Bool-cases, inl, inr,
}
use endpoint_protocol.Table.{select, row_count, update}
use endpoint_protocol.Table.Laws.{where_key}
use endpoint_protocol.Storage.Queue.{
  QueueRow, Rows, row_le, insert_ordered, ordered, queued_rows, of_client, is_queued, queued,
  requeued, lease_is_over, requeue_expired, deliverable,
}
use endpoint_protocol.Protocol.Canonical.{key_le}

compare-cons :
    (c d : Char) (s t : String)
    → compare (String.◌∷◌ c s) (String.◌∷◌ d t)
      ≡ lexically (compare_ℕ (code c) (code d)) (compare s t)
compare-cons c d s t = λ i. cons-cons c d s t i

key_le_total : (s t : String) → key_le s t ≡ false → key_le t s ≡ true
key_le_total String.[] String.[] h = refl
key_le_total String.[] (String.◌∷◌ d t) h =
    let e : compare "" (String.◌∷◌ d t) ≡ Ordering.lt = λ i. nil-cons d t i in ground (arith, e)
key_le_total (String.◌∷◌ c s) String.[] h =
    let e : compare "" (String.◌∷◌ c s) ≡ Ordering.lt = λ i. nil-cons c s i in ground (arith, e)
key_le_total (String.◌∷◌ c s) (String.◌∷◌ d t) h =
    ground (arith, compare-cons c d s t, compare-cons d c t s, key_le_total s t)

row_le_total : (a b : QueueRow) → row_le a b ≡ false → row_le b a ≡ true
row_le_total a b h = ground (arith, key_le_total a.message_id b.message_id)

-- Every row is in its place with the next one.
abbrev pub is_ordered : Rows → Bool
is_ordered [] = true
is_ordered (a ∷ []) = true
is_ordered (a ∷ b ∷ rest) = row_le a b && is_ordered (b ∷ rest)

ordered_cons :
    (a x : QueueRow) (xs : Rows)
    → row_le a x ≡ true
    → is_ordered (a ∷ xs) ≡ true
    → is_ordered (insert_ordered x xs) ≡ true
    → is_ordered (a ∷ insert_ordered x xs) ≡ true
unfolding insert_ordered
ordered_cons a x [] le h k = ground (arith, le)
ordered_cons a x (b ∷ xs) le h k = elim (Bool-cases (row_le x b)) [
  | inl first ↦ ground (arith, first, le)
  | inr later ↦ ground (arith, later)
]

ordered_insert :
    (x : QueueRow) (xs : Rows) → is_ordered xs ≡ true → is_ordered (insert_ordered x xs) ≡ true
unfolding insert_ordered
ordered_insert x [] h = refl
ordered_insert x (a ∷ xs) h = elim (Bool-cases (row_le x a)) [
  | inl first ↦ rw first (ground (arith, first, h))
  | inr later ↦
      rw later (ordered_cons a x xs (row_le_total x a later) h (ordered_insert x xs (tail a xs h)))
]
  where
    tail : (a : QueueRow) (xs : Rows) → is_ordered (a ∷ xs) ≡ true → is_ordered xs ≡ true
    tail a [] h = refl
    tail a (b ∷ xs) h = ground arith

ordered_rows : (xs : Rows) → is_ordered (ordered xs) ≡ true
unfolding ordered
ordered_rows [] = refl
ordered_rows (x ∷ xs) = ordered_insert x (ordered xs) (ordered_rows xs)

row_count-insert_ordered :
    (p : QueueRow → Bool) (x : QueueRow) (xs : Rows)
    → row_count p (insert_ordered x xs) ≡ row_count p xs + (if p x then 1 else 0)
unfolding insert_ordered row_count
row_count-insert_ordered p x [] = ground arith
row_count-insert_ordered p x (a ∷ xs) = ground (arith, row_count-insert_ordered p x xs)

row_count-ordered : (p : QueueRow → Bool) (xs : Rows) → row_count p (ordered xs) ≡ row_count p xs
unfolding ordered row_count
row_count-ordered p [] = refl
row_count-ordered p (x ∷ xs) =
    ground (arith, row_count-insert_ordered p x (ordered xs), row_count-ordered p xs)

row_count-select :
    (p q : QueueRow → Bool) (xs : Rows) → row_count p (select q xs) ≡ row_count (λ r. q r && p r) xs
unfolding select row_count
row_count-select p q [] = refl
row_count-select p q (x ∷ xs) = ground (arith, row_count-select p q xs)

row_count-same :
    (p q : QueueRow → Bool) (xs : Rows)
    → ((r : QueueRow) → p r ≡ q r)
    → row_count p xs ≡ row_count q xs
unfolding row_count
row_count-same p q [] h = refl
row_count-same p q (x ∷ xs) h = ground (arith, h x, row_count-same p q xs h)

row_count-update :
    (p q : QueueRow → Bool) (f : QueueRow → QueueRow) (xs : Rows)
    → row_count q (update p f xs) ≡ row_count (λ r. q (if p r then f r else r)) xs
unfolding update row_count
row_count-update p q f [] = refl
row_count-update p q f (x ∷ xs) = elim (Bool-cases (p x)) [
  | inl hit ↦ ground (arith, hit, row_count-update p q f xs)
  | inr miss ↦ ground (arith, miss, row_count-update p q f xs)
]

-- The first row is the older one; of two rows of one time, the one whose id comes first.
abbrev pub IsBefore : QueueRow → QueueRow → Type 0
IsBefore a b =
    (suc a.created_at ≤ b.created_at)
    ⊎ ((a.created_at ≡ b.created_at) × (key_le a.message_id b.message_id ≡ true))

abbrev pub IsInOrder : Rows → Type 0
IsInOrder [] = Unit {0}
IsInOrder (a ∷ []) = Unit {0}
IsInOrder (a ∷ b ∷ rest) = IsBefore a b × IsInOrder (b ∷ rest)

row_le-IsBefore : (a b : QueueRow) → row_le a b ≡ true → IsBefore a b
row_le-IsBefore a b h = elim (Bool-cases (ltb a.created_at b.created_at)) [
  | inl older ↦ inl (ground (arith, older))
  | inr later ↦ inr (ground (arith, later, h), ground (arith, later, h))
]

ordered-IsInOrder : (xs : Rows) → is_ordered xs ≡ true → IsInOrder xs
ordered-IsInOrder [] h = tt
ordered-IsInOrder (a ∷ []) h = tt
ordered-IsInOrder (a ∷ b ∷ xs) h =
    (row_le-IsBefore a b (ground (arith, h)), ordered-IsInOrder (b ∷ xs) (ground (arith, h)))

-- A row as `deliverable` leaves it: one of the client whose lease is over is queued again.
abbrev pub given_back : ℕ → String → QueueRow → QueueRow
given_back now client_ref r =
    if of_client client_ref r && lease_is_over now r
    then record r { state = queued; lease_expires_at = none; updated_at = now }
    else r

-- `deliverable` answers the older rows first, and those of one time by their ids. The answer has every
-- row of the client that is queued once the leases that are over have been given back, as often as it
-- is in the table, and no other row.
pub deliverable-IsInOrder :
    (now : ℕ) (client_ref : String) (rows : Rows)
    → IsInOrder (deliverable now client_ref rows).0
      × ((p : QueueRow → Bool)
          → row_count p (deliverable now client_ref rows).0
            ≡ row_count
                (λ r.
                  let back = given_back now client_ref r in
                  back.client_ref == client_ref && is_queued back && p back)
                rows)
unfolding deliverable queued_rows requeue_expired
deliverable-IsInOrder now client_ref rows =
    let there = where_key (of_client client_ref) is_queued in
    let over = where_key (of_client client_ref) (lease_is_over now) in
    let left = update over (requeued now) rows in
    let found = select there left in
    (
      ordered-IsInOrder (ordered found) (ordered_rows found),
      λ p.
          row_count-ordered p found
          ∙ row_count-select p there left
          ∙ row_count-update over (λ r. there r && p r) (requeued now) rows
          ∙ row_count-same _ _ rows (λ r. ground arith),
    )
