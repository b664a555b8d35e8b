-- ===== src/Table/Laws.antt =====
-- What a statement does to the row of one key, in a table where a key has at most one row.
use mathlib.Core.Path.{subst}
use endpoint_protocol.Prelude.{
  ℕ, ◌+◌, ◌≤◌, ◌≡◌, refl, Bool, true, ◌&&◌, Option, none, some, List, [], ◌∷◌, if◌then◌else◌, arith,
  Bool-cases, inl, inr,
}
use endpoint_protocol.Table.{select_one, row_count, delete, update, insert}

-- A statement on key `k` that touches only the rows that satisfy `c`.
abbrev pub where_key {ℓ} : {A : Type ℓ} → (A → Bool) → (A → Bool) → A → Bool
where_key k c x = k x && c x

-- What an UPDATE, and a DELETE, make of the row of a key.
abbrev pub updated {ℓ} : {A : Type ℓ} → (A → Bool) → (A → A) → Option A → Option A
updated c f none = none
updated c f (some x) = if c x then some (f x) else some x

abbrev pub deleted {ℓ} : {A : Type ℓ} → (A → Bool) → Option A → Option A
deleted c none = none
deleted c (some x) = if c x then none else some x

-- The row of a key, if it satisfies `c`.
abbrev pub filtered {ℓ} : {A : Type ℓ} → (A → Bool) → Option A → Option A
filtered c none = none
filtered c (some x) = if c x then some x else none

abbrev pub counted {ℓ} : {A : Type ℓ} → (A → Bool) → Option A → ℕ
counted c none = 0
counted c (some x) = if c x then 1 else 0

abbrev pub or_row {ℓ} : {A : Type ℓ} → Option A → Option A → Option A
or_row none y = y
or_row (some x) y = some x

module _ {ℓ} {A : Type ℓ} (k : A → Bool) where
  pub none_of_row_count : (xs : List A) → row_count k xs ≡ 0 → select_one k xs ≡ none
  unfolding row_count select_one
  none_of_row_count [] h = refl
  none_of_row_count (x ∷ xs) h = ground (arith, none_of_row_count xs)

  pub row_count_of_none : (xs : List A) → select_one k xs ≡ none → row_count k xs ≡ 0
  unfolding row_count select_one
  row_count_of_none [] h = refl
  row_count_of_none (x ∷ xs) h = ground (arith, row_count_of_none xs)

  pub select_one_sound : (xs : List A) {r : A} → select_one k xs ≡ some r → k r ≡ true
  unfolding select_one
  select_one_sound [] h = ground arith
  select_one_sound (x ∷ xs) {r} h = ground (arith, select_one_sound xs {r = r})

  pub select_one-insert :
      (x : A) (xs : List A)
      → select_one k (insert x xs) ≡ or_row (select_one k xs) (if k x then some x else none)
  unfolding select_one insert
  select_one-insert x [] = ground arith
  select_one-insert x (y ∷ ys) = ground (arith, select_one-insert x ys)

  pub row_count-insert :
      (x : A) (xs : List A) → row_count k (insert x xs) ≡ row_count k xs + (if k x then 1 else 0)
  unfolding row_count insert
  row_count-insert x [] = ground arith
  row_count-insert x (y ∷ ys) = ground (arith, row_count-insert x ys)

  pub row_count-delete-le :
      (p : A → Bool) (xs : List A) → row_count k (delete p xs) ≤ row_count k xs
  unfolding row_count delete
  row_count-delete-le p [] = omega arith
  row_count-delete-le p (x ∷ xs) = ground (arith, row_count-delete-le p xs)

  module _ (c : A → Bool) where
    pub row_count-where :
        (xs : List A)
        → row_count k xs ≤ 1
        → row_count (where_key k c) xs ≡ counted c (select_one k xs)
    unfolding row_count select_one
    row_count-where [] h = refl
    row_count-where (x ∷ xs) h = ground (arith, row_count-where xs, none_of_row_count xs)

    pub select_one-where :
        (xs : List A)
        → row_count k xs ≤ 1
        → select_one (where_key k c) xs ≡ filtered c (select_one k xs)
    unfolding row_count select_one
    select_one-where [] h = refl
    select_one-where (x ∷ xs) h = ground (arith, select_one-where xs, none_of_row_count xs)

  module _ (p : A → Bool) where
    delete-none : (xs : List A) → row_count k xs ≡ 0 → select_one k (delete p xs) ≡ none
    unfolding row_count select_one delete
    delete-none [] h = refl
    delete-none (x ∷ xs) h = ground (arith, delete-none xs)

    pub select_one-delete :
        (xs : List A)
        → row_count k xs ≤ 1
        → select_one k (delete p xs) ≡ deleted p (select_one k xs)
    unfolding row_count select_one delete
    select_one-delete [] h = refl
    select_one-delete (x ∷ xs) h = ground (arith, select_one-delete xs, delete-none xs)

    module _ (f : A → A) (keeps : (x : A) → k (f x) ≡ k x) where
      pub row_count-update : (xs : List A) → row_count k (update p f xs) ≡ row_count k xs
      unfolding row_count update
      row_count-update [] = refl
      row_count-update (x ∷ xs) = ground (arith, row_count-update xs, keeps x)

      pub select_one-update :
          (xs : List A) → select_one k (update p f xs) ≡ updated p f (select_one k xs)
      unfolding select_one update
      select_one-update [] = refl
      select_one-update (x ∷ xs) = ground (arith, select_one-update xs, keeps x)

-- Every row of a table has a property.
module _ {ℓ κ} {A : Type ℓ} (P : A → Type κ) where
  abbrev pub All : List A → Type κ
  All [] = Unit
  All (x ∷ xs) = P x × All xs

  pub All-delete : (p : A → Bool) (xs : List A) → All xs → All (delete p xs)
  unfolding delete
  All-delete p [] h = h
  All-delete p (x ∷ xs) h = elim (Bool-cases (p x)) [
    | inl yes_x ↦ rw yes_x (All-delete p xs h.1)
    | inr no_x ↦ rw no_x (h.0, All-delete p xs h.1)
  ]

  pub All-update :
      (p : A → Bool) (f : A → A)
      → ((x : A) → P x → P (f x))
      → (xs : List A) → All xs
      → All (update p f xs)
  unfolding update
  All-update p f keeps [] h = h
  All-update p f keeps (x ∷ xs) h = elim (Bool-cases (p x)) [
    | inl yes_x ↦ rw yes_x (keeps x h.0, All-update p f keeps xs h.1)
    | inr no_x ↦ rw no_x (h.0, All-update p f keeps xs h.1)
  ]

  pub All-insert : (x : A) (xs : List A) → P x → All xs → All (insert x xs)
  unfolding insert
  All-insert x [] px h = (px, h)
  All-insert x (y ∷ ys) px h = (h.0, All-insert x ys px h.1)

  pub All-select_one :
      (k : A → Bool) (xs : List A) {r : A} → All xs → select_one k xs ≡ some r → P r
  unfolding select_one
  All-select_one k [] h e = absurd (ground arith)
  All-select_one k (x ∷ xs) {r} h e = elim (Bool-cases (k x)) [
    | inl yes_x ↦ let same : x ≡ r = ground arith in subst P same h.0
    | inr no_x ↦ All-select_one k xs h.1 (rw no_x at e)
  ]
