-- ===== src/Dict.antt =====
-- Python dicts with text keys, in their order; `saved` is the order that they come back in from a
-- file, since `save_json` of endpoint/storage.py writes the keys sorted.
pub mod Laws
use endpoint_protocol.Prelude.{
  String, Bool, true, false, Option, none, some, List, [], ◌∷◌, ◌==◌, if◌then◌else◌,
}
use endpoint_protocol.Protocol.Canonical.{key_le}

abbrev pub Dict : Type 0 → Type 0
Dict V = List (String × V)

module _ {V : Type 0} where
  -- `d.get(k)`
  unfoldable pub lookup : String → Dict V → Option V
  lookup k [] = none
  lookup k ((j, v) ∷ d) = if j == k then some v else lookup k d

  -- `d[k] = v`
  unfoldable pub put : String → V → Dict V → Dict V
  put k v [] = (k, v) ∷ []
  put k v ((j, w) ∷ d) = if j == k then (j, v) ∷ d else (j, w) ∷ put k v d

  unfoldable pub insert_key : String → V → Dict V → Dict V
  insert_key k v [] = (k, v) ∷ []
  insert_key k v ((j, w) ∷ d) =
      let rest = insert_key k v d in if key_le k j then (k, v) ∷ (j, w) ∷ d else (j, w) ∷ rest

  unfoldable pub saved : Dict V → Dict V
  unfolding insert_key
  saved [] = []
  saved ((k, v) ∷ d) = insert_key k v (saved d)

  -- `d.get(k, default)`
  abbrev pub get_or : V → String → Dict V → V
  get_or default k d = elim (lookup k d) [ none ↦ default | some v ↦ v ]

  -- The dict without the items that satisfy `p`.
  unfoldable pub discard : (V → Bool) → Dict V → Dict V
  discard p [] = []
  discard p ((k, v) ∷ d) = let rest = discard p d in if p v then rest else (k, v) ∷ rest
