-- ===== src/Json.antt =====
-- JSON values as Python holds them after `json.loads`, and what the code does with them.
-- A `float` keeps its literal: the code only ever rejects floats. A dict is its items in order.
use endpoint_protocol.Prelude.{
  ℕ, suc, String, Bool, true, false, not, ◌&&◌, ◌||◌, Option, none, some, List, [], ◌∷◌, eqb, ◌==◌,
  if◌then◌else◌,
}

-- `negsuc n` is -(n + 1).
pub data ℤ : Type 0 where
  pos : ℕ → ℤ
  negsuc : ℕ → ℤ

mutual
  pub data Json : Type 0 where
    null : Json
    bool : Bool → Json
    int : ℤ → Json
    float : String → Json
    str : String → Json
    arr : Items → Json
    obj : Fields → Json

  pub data Items : Type 0 where
    nil : Items
    cons : Json → Items → Items

  pub data Fields : Type 0 where
    end : Fields
    field : String → Json → Fields → Fields

-- `isinstance` and truth
abbrev pub is_null : Json → Bool
is_null null = true
is_null _ = false

abbrev pub is_str : Json → Bool
is_str (str s) = true
is_str _ = false

abbrev pub is_obj : Json → Bool
is_obj (obj fs) = true
is_obj _ = false

abbrev pub is_arr : Json → Bool
is_arr (arr xs) = true
is_arr _ = false

-- `isinstance(v, str) and v`
abbrev pub is_text : Json → Bool
is_text (str s) = not (s == "")
is_text _ = false

-- `not v`
abbrev pub is_falsy : Json → Bool
is_falsy null = true
is_falsy (bool b) = not b
is_falsy (int (pos n)) = eqb n 0
is_falsy (int (negsuc n)) = false
is_falsy (float s) = s == "0.0" || s == "-0.0"
is_falsy (str s) = s == ""
is_falsy (arr xs) = elim xs [ nil ↦ true | cons _ _ ↦ false ]
is_falsy (obj fs) = elim fs [ end ↦ true | field _ _ _ ↦ false ]

-- The text of a value that is known to be a `str`.
abbrev pub text : Json → String
text (str s) = s
text _ = ""

abbrev pub items : Json → Items
items (arr xs) = xs
items _ = nil

abbrev pub fields : Json → Fields
fields (obj fs) = fs
fields _ = end

pub lookup : String → Fields → Option Json
lookup k end = none
lookup k (field j v fs) = if j == k then some v else lookup k fs

abbrev pub or_null : Option Json → Json
or_null none = null
or_null (some v) = v

-- `v.get(k)` of a dict; `v[k]` where the code has made sure of the key.
unfoldable pub get : Json → String → Json
unfolding lookup
get v k = or_null (lookup k (fields v))

-- `k in v`
unfoldable pub has : Json → String → Bool
unfolding lookup
has v k = elim (lookup k (fields v)) [ none ↦ false | some _ ↦ true ]

abbrev pub to_list : Items → List Json
to_list nil = []
to_list (cons v vs) = v ∷ to_list vs

-- `len(d)`
abbrev pub size : Fields → ℕ
size end = 0
size (field k v fs) = suc (size fs)

-- Python's `==` of numbers: `True == 1`.
abbrev as_int : Json → Option ℤ
as_int (bool true) = some (pos 1)
as_int (bool false) = some (pos 0)
as_int (int z) = some z
as_int _ = none

abbrev eq_ℤ : ℤ → ℤ → Bool
eq_ℤ (pos m) (pos n) = eqb m n
eq_ℤ (negsuc m) (negsuc n) = eqb m n
eq_ℤ _ _ = false

abbrev eq_int : Option ℤ → Option ℤ → Bool
eq_int (some m) (some n) = eq_ℤ m n
eq_int _ _ = false

-- `v == w`: lists by position, dicts by key. In `eq_fields` every item of the first dict is looked
-- up in the second.
unfoldable mutual
  unfolding lookup

  pub json_eq : Json → Json → Bool
  json_eq null w = is_null w
  json_eq (bool b) w = eq_int (as_int (bool b)) (as_int w)
  json_eq (int z) w = eq_int (some z) (as_int w)
  json_eq (float s) w = elim w [ float t ↦ s == t | _ ↦ false ]
  json_eq (str s) w = elim w [ str t ↦ s == t | _ ↦ false ]
  json_eq (arr xs) w = is_arr w && eq_items xs (items w)
  json_eq (obj fs) w = is_obj w && (eqb (size fs) (size (fields w)) && eq_fields fs (fields w))

  pub eq_items : Items → Items → Bool
  eq_items nil ys = elim ys [ nil ↦ true | cons _ _ ↦ false ]
  eq_items (cons x xs) nil = false
  eq_items (cons x xs) (cons y ys) = json_eq x y && eq_items xs ys

  pub eq_fields : Fields → Fields → Bool
  eq_fields end gs = true
  eq_fields (field k v fs) gs =
      elim (lookup k gs) [ none ↦ false | some w ↦ json_eq v w ] && eq_fields fs gs

-- `v == "…"` for a text constant.
abbrev pub is_the_text : Json → String → Bool
is_the_text (str s) t = s == t
is_the_text _ t = false
