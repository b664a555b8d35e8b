-- ===== src/Storage/Files.antt =====
-- `save_json` of endpoint/storage.py: what a file holds after a dict was written to it and read again.
-- Every text is in NFC, keys that become equal are an error, and the keys are sorted.
pub mod Laws
use endpoint_protocol.Prelude.{
  String, Bool, true, false, if◌then◌else◌, not, some, none, Option, List, [], ◌∷◌, ◌++◌,
}
use endpoint_protocol.Json.{
  Json, Items, Fields, null, bool, int, float, str, arr, obj, nil, cons, end, field,
}
use endpoint_protocol.Errors.{Result, ok, require, ◌>>=◌, ◌>>◌}
use endpoint_protocol.Runtime.{Runtime}
use endpoint_protocol.Protocol.Canonical.{key_le, normalize_json}
use endpoint_protocol.Dict.{Dict, lookup, saved}

unfoldable pub insert_field : String → Json → Fields → Fields
insert_field k v end = field k v end
insert_field k v (field j w fs) =
    let rest = insert_field k v fs in
    if key_le k j then field k v (field j w fs) else field j w rest

-- `sort_keys=True`, at every depth.
unfoldable mutual
  unfolding insert_field

  pub sort_json : Json → Json
  sort_json (arr xs) = arr (sort_items xs)
  sort_json (obj fs) = obj (sort_fields fs)
  sort_json v = v

  pub sort_items : Items → Items
  sort_items nil = nil
  sort_items (cons x xs) = cons (sort_json x) (sort_items xs)

  pub sort_fields : Fields → Fields
  sort_fields end = end
  sort_fields (field k v fs) = insert_field k (sort_json v) (sort_fields fs)

abbrev pub is_there : {V : Type 0} → Option V → Bool
is_there none = false
is_there (some v) = true

module _ (rt : Runtime) where
  -- A JSON value in a file.
  unfoldable pub stored_json : Json → Result Json
  unfolding normalize_json sort_json
  stored_json v = do n ← normalize_json rt v; ok (sort_json n)

  module _ {V : Type 0} (stored : V → Result V) where
    -- The loop of `normalize_json` over the items of a dict with its dict `out`.
    unfoldable pub normal_items : Dict V → Dict V → Result (Dict V)
    unfolding lookup
    normal_items [] out = ok out
    normal_items ((k, v) ∷ d) out = do
      require (not (is_there (lookup (rt.nfc k) out))) "invalid_envelope"
          "duplicate JSON key after normalization"
      w ← stored v
      normal_items d (out ++ (rt.nfc k, w) ∷ [])

    unfoldable pub save_dict : Dict V → Result (Dict V)
    unfolding normal_items saved
    save_dict d = do out ← normal_items d []; ok (saved out)
