-- ===== src/Table.antt =====
-- A table of the server's database: its rows in the order of insertion, with the statements that
-- endpoint/storage.py executes. A statement's WHERE clause is a test of a row.
pub mod Laws
use endpoint_protocol.Prelude.{
  ℕ, suc, Bool, true, false, Option, none, some, List, [], ◌∷◌, ◌++◌, if◌then◌else◌,
}

module _ {ℓ} {A : Type ℓ} where
  -- SELECT … , and its first row by `fetchone`
  unfoldable pub select : (A → Bool) → List A → List A
  select p [] = []
  select p (x ∷ xs) = let rest = select p xs in if p x then x ∷ rest else rest

  unfoldable pub select_one : (A → Bool) → List A → Option A
  select_one p [] = none
  select_one p (x ∷ xs) = if p x then some x else select_one p xs

  -- SELECT COUNT(*), and the `rowcount` of an UPDATE or a DELETE
  unfoldable pub row_count : (A → Bool) → List A → ℕ
  row_count p [] = 0
  row_count p (x ∷ xs) = let rest = row_count p xs in if p x then suc rest else rest

  unfoldable pub delete : (A → Bool) → List A → List A
  delete p [] = []
  delete p (x ∷ xs) = let rest = delete p xs in if p x then rest else x ∷ rest

  unfoldable pub update : (A → Bool) → (A → A) → List A → List A
  update p f [] = []
  update p f (x ∷ xs) = (if p x then f x else x) ∷ update p f xs

  -- INSERT of a row whose primary key is free; with a key that is taken it is an `IntegrityError`.
  unfoldable pub insert : A → List A → List A
  insert x xs = xs ++ x ∷ []

  -- Does a row match?
  unfoldable pub matches : (A → Bool) → List A → Bool
  unfolding select_one
  matches p xs = elim (select_one p xs) [ none ↦ false | some _ ↦ true ]
