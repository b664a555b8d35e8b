-- ===== src/Cli/Arguments.antt =====
-- The key=value arguments of endpoint/cli.py. A set of keys is the list of its elements in sorted order.
pub mod Laws
use endpoint_protocol.Prelude.{
  ℕ, String, ◌<>◌, Bool, true, false, not, ◌||◌, Option, none, some, List, [], ◌∷◌, ◌++◌, ltb, ◌==◌,
  if◌then◌else◌, strip_prefix, map,
}
use endpoint_protocol.Json.{ℤ, pos, negsuc}
use endpoint_protocol.Errors.{Result, ok, err, crash, ◌>>=◌, ◌>>◌}
use endpoint_protocol.Runtime.{Runtime}
use endpoint_protocol.Dict.{Dict, lookup, put}
use endpoint_protocol.Protocol.Canonical.{decimal}
use endpoint_protocol.Transport.Policy.{contains, is_empty}
use endpoint_protocol.Transport.Url.{partition}

-- `raise CliUsageError(message)`, the class with its message.
abbrev pub usage : {A : Type 0} → String → Result A
usage message = err (crash ("CliUsageError: " <> message))

abbrev pub expect : Bool → String → Result (Unit {0})
expect condition message = if condition then ok tt else usage message

-- What a key stands for: a text, the texts of a list, or a dict of texts.
pub data Value : Type 0 where
  scalar : String → Value
  many : List String → Value
  mapped : Dict String → Value

abbrev pub Values : Type 0
Values = Dict Value

pub record Keys : Type 0 where
  pub scalar_keys : List String
  pub list_keys : List String
  pub map_prefixes : List String
  pub required_scalars : List String
  pub required_maps : List String

abbrev pub is_key : Option Value → Bool
is_key none = false
is_key (some v) = true

-- The list of a key and the dict of a prefix, which are there from the start.
abbrev pub list_of : Option Value → List String
list_of (some (many texts)) = texts
list_of _ = []

abbrev pub map_of : Option Value → Dict String
map_of (some (mapped items)) = items
map_of _ = []

abbrev pub is_set : Option String → Bool
is_set none = false
is_set (some s) = true

abbrev pub pick_item :
    String
    → String
    → Result (Option (String × String))
    → Option String
    → Result (Option (String × String))
pick_item key prefix others none = others
pick_item key prefix others (some item) =
    if item == "" then usage ("missing map key in argument: " <> key) else ok (some (prefix, item))

-- `_map_key_match`
unfoldable pub map_key_match : String → List String → Result (Option (String × String))
unfolding strip_prefix
map_key_match key [] = ok none
map_key_match key (prefix ∷ prefixes) =
    pick_item key prefix (map_key_match key prefixes) (strip_prefix (prefix <> ".") key)

abbrev pub put_item : String → String → Values → Option (String × String) → Result Values
put_item key value values none = usage ("unknown argument: " <> key)
put_item key value values (some (prefix, item)) =
    let items = map_of (lookup prefix values) in
    if is_set (lookup item items)
    then usage ("duplicate argument: " <> key)
    else ok (put prefix (mapped (put item value items)) values)

module _ (keys : Keys) where
  -- The body of the loop behind the split.
  unfoldable pub store : String → String → Values → Result Values
  unfolding contains lookup put map_key_match
  store key value values =
      if contains key keys.scalar_keys
      then (if is_key (lookup key values)
          then usage ("duplicate argument: " <> key)
          else ok (put key (scalar value) values))
      else if contains key keys.list_keys
      then ok (put key (many (list_of (lookup key values) ++ value ∷ [])) values)
      else (do found ← map_key_match key keys.map_prefixes; put_item key value values found)

  -- The message leaves out the token.
  unfoldable pub parse_token : String → Values → Result Values
  unfolding partition store
  parse_token token values =
      let (key, found, value) = partition b'=' token in
      if not found || key == "" then usage "expected key=value argument" else store key value values

  unfoldable pub parse_tokens : List String → Values → Result Values
  unfolding parse_token
  parse_tokens [] values = ok values
  parse_tokens (token ∷ tokens) values = do
    next ← parse_token token values
    parse_tokens tokens next

  abbrev pub initial : Values
  initial =
      map (λ key. (key, many [])) keys.list_keys
      ++ map (λ prefix. (prefix, mapped [])) keys.map_prefixes

unfoldable pub require_scalars : List String → Values → Result (Unit {0})
unfolding lookup
require_scalars [] values = ok tt
require_scalars (key ∷ keys) values = do
  expect (is_key (lookup key values)) ("missing required argument: " <> key)
  require_scalars keys values

abbrev pub is_filled : Option Value → Bool
is_filled none = false
is_filled (some (scalar s)) = not (s == "")
is_filled (some (many texts)) = not (is_empty texts)
is_filled (some (mapped items)) = not (is_empty items)

unfoldable pub require_maps : List String → Values → Result (Unit {0})
unfolding lookup
require_maps [] values = ok tt
require_maps (prefix ∷ prefixes) values = do
  expect (is_filled (lookup prefix values)) ("missing required argument: " <> prefix <> ".<key>")
  require_maps prefixes values

-- `_parse_key_values`
unfoldable pub parse_key_values : Keys → List String → Result Values
unfolding parse_tokens require_scalars require_maps
parse_key_values keys tokens = do
  values ← parse_tokens keys tokens (initial keys)
  require_scalars keys.required_scalars values
  require_maps keys.required_maps values
  ok values

-- `values.get(key, default)` and `values[key]` of a scalar key.
abbrev pub text_or : String → Option Value → String
text_or default (some (scalar s)) = s
text_or default _ = default

unfoldable pub parse_bool : String → String → Result Bool
parse_bool value name =
    if value == "true"
    then ok true
    else if value == "false"
    then ok false
    else usage (name <> " must be true or false")

-- The minimum of a call is at least 0, so a negative number is out of range.
abbrev pub out_of_range : ℕ → ℕ → String → String
unfolding decimal
out_of_range minimum maximum name =
    name <> " must be between " <> decimal minimum <> " and " <> decimal maximum

unfoldable pub in_range : ℕ → ℕ → String → Option ℤ → Result ℕ
unfolding out_of_range
in_range minimum maximum name none = usage (name <> " must be an integer")
in_range minimum maximum name (some (negsuc n)) = usage (out_of_range minimum maximum name)
in_range minimum maximum name (some (pos n)) =
    if ltb n minimum || ltb maximum n then usage (out_of_range minimum maximum name) else ok n

unfoldable pub parse_int : Runtime → String → String → ℕ → ℕ → Result ℕ
unfolding in_range
parse_int rt value name minimum maximum = in_range minimum maximum name (rt.parse_int value)
