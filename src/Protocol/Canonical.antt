-- ===== src/Protocol/Canonical.antt =====
-- endpoint/protocol.py: strict parsing, normalisation and the canonical bytes of JSON values.
use Prim.Native.String.{compare}
use Prim.Native.Nat.{Ordering}
use endpoint_protocol.Prelude.{
  ℕ, zero, suc, ◌/◌, ◌%◌, max, String, ◌<>◌, len, Char, code, Bool, true, false, not, some, List,
  [], ◌∷◌, ltb, eqb, ◌==◌, if◌then◌else◌,
}
use endpoint_protocol.Json.{
  ℤ, pos, negsuc, Json, Items, Fields, null, bool, int, float, str, arr, obj, nil, cons, end, field,
}
use endpoint_protocol.Errors.{Result, ok, raise, require, plain_error, detail_error, ◌>>=◌, ◌>>◌}
use endpoint_protocol.Runtime.{Runtime, bad_json, loaded}

-- `key in out`
unfoldable pub has_key : String → Fields → Bool
has_key k end = false
has_key k (field j v fs) = if j == k then true else has_key k fs

-- `out[key] = value` of a key that is not there yet.
unfoldable pub snoc : Fields → String → Json → Fields
snoc end k v = field k v end
snoc (field j w fs) k v = field j w (snoc fs k v)

-- `hook` of `parse_json_strict`: the loop over the pairs.
unfoldable pub strict_pairs : Fields → Fields → Result Fields
unfolding has_key snoc
strict_pairs end out = ok out
strict_pairs (field k v fs) out =
    let rest = strict_pairs fs (snoc out k v) in
    if has_key k out then raise (plain_error "invalid_envelope" "duplicate JSON key") else rest

-- The hook at every object of a value, the inner ones first.
unfoldable mutual
  unfolding strict_pairs

  pub strict : Json → Result Json
  strict (arr xs) = do ys ← strict_items xs; ok (arr ys)
  strict (obj fs) = do gs ← strict_fields fs; out ← strict_pairs gs end; ok (obj out)
  strict v = ok v

  pub strict_items : Items → Result Items
  strict_items nil = ok nil
  strict_items (cons x xs) = do y ← strict x; ys ← strict_items xs; ok (cons y ys)

  pub strict_fields : Fields → Result Fields
  strict_fields end = ok end
  strict_fields (field k v fs) = do w ← strict v; gs ← strict_fields fs; ok (field k w gs)

-- The objects that the parser had closed when it met the error.
unfoldable pub strict_closed : List Fields → Result (Unit {0})
unfolding strict_pairs
strict_closed [] = ok tt
strict_closed (fs ∷ rest) = do _ ← strict_pairs fs end; strict_closed rest

module _ (rt : Runtime) where
  unfoldable pub parse_json_strict : String → Result Json
  unfolding strict strict_closed
  parse_json_strict data_text = elim (rt.loads data_text) [
    | bad_json closed what ↦ do
      strict_closed closed
      raise (detail_error "invalid_envelope" "invalid JSON" (some what))
    | loaded v ↦ strict v
  ]

  unfoldable mutual
    unfolding has_key snoc

    pub normalize_json : Json → Result Json
    normalize_json (float s) =
        raise (plain_error "invalid_envelope" "floating point values are not allowed")
    normalize_json (str s) = ok (str (rt.nfc s))
    normalize_json (arr xs) = do ys ← normalize_items xs; ok (arr ys)
    normalize_json (obj fs) = do gs ← normalize_fields fs end; ok (obj gs)
    normalize_json v = ok v

    pub normalize_items : Items → Result Items
    normalize_items nil = ok nil
    normalize_items (cons x xs) = do y ← normalize_json x; ys ← normalize_items xs; ok (cons y ys)

    -- The loop over `value.items()` with its dict `out`.
    pub normalize_fields : Fields → Fields → Result Fields
    normalize_fields end out = ok out
    normalize_fields (field k v fs) out = do
      require (not (has_key (rt.nfc k) out)) "invalid_envelope"
          "duplicate JSON key after normalization"
      w ← normalize_json v
      normalize_fields fs (snoc out (rt.nfc k) w)

-- `json.dumps(…, ensure_ascii=False, sort_keys=True, separators=(",", ":"))`

-- One hexadecimal digit, and one decimal digit.
abbrev pub digit_text : ℕ → String
digit_text d =
    if eqb d 0
    then "0"
    else if eqb d 1
    then "1"
    else if eqb d 2
    then "2"
    else if eqb d 3
    then "3"
    else if eqb d 4
    then "4"
    else if eqb d 5
    then "5"
    else if eqb d 6
    then "6"
    else if eqb d 7
    then "7"
    else if eqb d 8
    then "8"
    else if eqb d 9
    then "9"
    else if eqb d 10
    then "a"
    else if eqb d 11
    then "b"
    else if eqb d 12
    then "c"
    else if eqb d 13
    then "d"
    else if eqb d 14
    then "e"
    else "f"

-- Decimal digits in front of `acc`; the fuel `suc n` covers the at most `n` divisions by ten.
unfoldable pub decimal_onto : ℕ → ℕ → String → String
decimal_onto zero n acc = acc
decimal_onto (suc fuel) n acc =
    let acc' = digit_text (n % 10) <> acc in
    let rest = decimal_onto fuel (n / 10) acc' in if ltb n 10 then acc' else rest

unfoldable pub decimal : ℕ → String
unfolding decimal_onto
decimal n = decimal_onto (suc n) n ""

unfoldable pub dump_int : ℤ → String
unfolding decimal
dump_int (pos n) = decimal n
dump_int (negsuc n) = "-" <> decimal (suc n)

abbrev escape : Char → String
escape c =
    let n = code c in
    if eqb n 0x22
    then "\\\""
    else if eqb n 0x5c
    then "\\\\"
    else if eqb n 0x0a
    then "\\n"
    else if eqb n 0x0d
    then "\\r"
    else if eqb n 0x09
    then "\\t"
    else if eqb n 0x0c
    then "\\f"
    else if eqb n 0x08
    then "\\b"
    else if ltb n 0x20
    then "\\u00" <> digit_text (n / 16) <> digit_text (n % 16)
    else String.◌∷◌ c String.[]

unfoldable pub escape_text : String → String
escape_text String.[] = ""
escape_text (String.◌∷◌ c s) = escape c <> escape_text s

abbrev quote : String → String
quote s = "\"" <> escape_text s <> "\""

-- Members by key, in the order of code points.
abbrev pub Member : Type 0
Member = String × String

abbrev pub key_le : String → String → Bool
key_le a b = elim (compare a b) [ Ordering.gt ↦ false | _ ↦ true ]

unfoldable pub insert_member : Member → List Member → List Member
insert_member m [] = m ∷ []
insert_member m (x ∷ xs) =
    let rest = insert_member m xs in if key_le m.0 x.0 then m ∷ x ∷ xs else x ∷ rest

unfoldable pub join_members : List Member → String
unfolding escape_text
join_members [] = ""
join_members ((k, v) ∷ []) = quote k <> ":" <> v
join_members ((k, v) ∷ m ∷ ms) = quote k <> ":" <> v <> "," <> join_members (m ∷ ms)

unfoldable mutual
  unfolding dump_int escape_text insert_member join_members

  pub dumps : Json → String
  dumps null = "null"
  dumps (bool true) = "true"
  dumps (bool false) = "false"
  dumps (int z) = dump_int z
  dumps (float s) = s
  dumps (str s) = quote s
  dumps (arr xs) = "[" <> dump_items xs <> "]"
  dumps (obj fs) = "{" <> join_members (sorted_members fs) <> "}"

  pub dump_items : Items → String
  dump_items nil = ""
  dump_items (cons x nil) = dumps x
  dump_items (cons x (cons y ys)) = dumps x <> "," <> dump_items (cons y ys)

  pub sorted_members : Fields → List Member
  sorted_members end = []
  sorted_members (field k v fs) = insert_member (k, dumps v) (sorted_members fs)

module _ (rt : Runtime) where
  -- The text whose UTF-8 bytes are `canonical_json_bytes(value)`.
  unfoldable pub canonical_json : Json → Result String
  unfolding normalize_json dumps
  canonical_json v = do n ← normalize_json rt v; ok (dumps n)

  -- `len` counts the bytes of UTF-8.
  unfoldable pub json_size : Json → Result ℕ
  unfolding canonical_json
  json_size v = do s ← canonical_json v; ok (len s)

unfoldable mutual
  pub json_depth : Json → ℕ
  json_depth (arr xs) = suc (items_depth xs)
  json_depth (obj fs) = suc (fields_depth fs)
  json_depth v = 1

  -- The largest depth of the items; 0 where there is none, as the code returns 1 for `[]` and `{}`.
  pub items_depth : Items → ℕ
  items_depth nil = 0
  items_depth (cons x xs) = max (json_depth x) (items_depth xs)

  pub fields_depth : Fields → ℕ
  fields_depth end = 0
  fields_depth (field k v fs) = max (json_depth v) (fields_depth fs)
