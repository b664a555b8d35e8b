-- ===== src/Dict/Laws.antt =====
-- Lookups behind the operations of a dict.
use text.Mathlib.TextPositions.{compare_refl}
use endpoint_protocol.Prelude.{
  String, ◌≡◌, refl, false, some, [], ◌∷◌, ◌==◌, eq_iff, if◌then◌else◌, arith, Bool-cases, inl, inr,
}
use endpoint_protocol.Protocol.Canonical.{key_le}
use endpoint_protocol.Dict.{Dict, lookup, put, insert_key, saved}

-- A key that stands strictly before another one is not equal to it.
pub key_le_self : (k j : String) → key_le k j ≡ false → (j == k) ≡ false
key_le_self k j h = elim (Bool-cases (j == k)) [
  | inr other ↦ other
  | inl same ↦ let e : j ≡ k = (eq_iff j k).0 same in absurd (ground (arith, compare_refl k, e))
]

module _ {V : Type 0} where
  pub lookup-put :
      (k j : String) (v : V) (d : Dict V)
      → lookup j (put k v d) ≡ (if k == j then some v else lookup j d)
  unfolding lookup put
  lookup-put k j v [] = refl
  lookup-put k j v ((i, w) ∷ d) =
      ground (arith, eq_iff k j, eq_iff i k, eq_iff i j, lookup-put k j v d)

  lookup-insert_key :
      (k j : String) (v : V) (d : Dict V)
      → lookup j (insert_key k v d) ≡ (if k == j then some v else lookup j d)
  unfolding lookup insert_key
  lookup-insert_key k j v [] = refl
  lookup-insert_key k j v ((i, w) ∷ d) = elim (Bool-cases (key_le k i)) [
    | inl before ↦ ground (arith, before)
    | inr behind ↦ ground (
      arith,
      key_le_self k i behind,
      eq_iff k j,
      eq_iff i j,
      eq_iff i k,
      lookup-insert_key k j v d,
    )
  ]

  -- A dict that comes back from its file has the items that it had.
  pub lookup-saved : (j : String) (d : Dict V) → lookup j (saved d) ≡ lookup j d
  unfolding lookup saved
  lookup-saved j [] = refl
  lookup-saved j ((k, v) ∷ d) = ground (arith, lookup-insert_key k j v (saved d), lookup-saved j d)

  pub lookup-saved-put :
      (k j : String) (v : V) (d : Dict V)
      → lookup j (saved (put k v d)) ≡ (if k == j then some v else lookup j d)
  lookup-saved-put k j v d = ground (arith, lookup-saved j (put k v d), lookup-put k j v d)
