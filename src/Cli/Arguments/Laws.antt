-- ===== src/Cli/Arguments/Laws.antt =====
-- The items that arguments give to a dict in endpoint/cli.py have names.
use mathlib.Core.Path.{subst}
use endpoint_protocol.Prelude.{
  ℕ, ◌≤◌, String, ◌<>◌, ◌≡◌, false, ◌||◌, not, Option, none, some, List, [], ◌∷◌, ◌++◌, map, ◌==◌,
  ltb, arith, Bool-cases, inl, inr, strip_prefix,
}
use endpoint_protocol.Json.{ℤ, pos, negsuc}
use endpoint_protocol.Errors.{Result, ok, err≢ok}
use endpoint_protocol.Errors.Laws.{bind-inv, ok-inj}
use endpoint_protocol.Runtime.{Runtime}
use endpoint_protocol.Dict.{Dict, lookup, put}
use endpoint_protocol.Dict.Laws.{lookup-put}
use endpoint_protocol.Transport.Policy.{contains}
use endpoint_protocol.Transport.Url.{partition}
use endpoint_protocol.Cli.Arguments.{
  Keys, Value, scalar, many, mapped, Values, map_of, list_of, is_key, is_set, map_key_match,
  pick_item, put_item, store, parse_token, parse_tokens, initial, require_scalars, require_maps,
  parse_key_values, in_range, parse_int,
}

abbrev pub AllNamed : {V : Type 0} → Dict V → Type 0
AllNamed [] = Unit {0}
AllNamed ((k, v) ∷ d) = ((k == "") ≡ false) × AllNamed d

-- The items of every dict among the values have names.
abbrev pub NamesItems : Values → Type 0
NamesItems values = (prefix : String) → AllNamed (map_of (lookup prefix values))

AllNamed-put :
    {V : Type 0} (k : String) (v : V) (d : Dict V)
    → (k == "") ≡ false
    → AllNamed d
    → AllNamed (put k v d)
unfolding put
AllNamed-put k v [] named all = (named, tt)
AllNamed-put k v ((j, w) ∷ d) named (first, rest) = elim (Bool-cases (j == k)) [
  | inl same ↦ rw same (first, rest)
  | inr other ↦ rw other (first, AllNamed-put k v d named rest)
]

map_of-put :
    (key : String) (v : Value) (values : Values)
    → NamesItems values
    → AllNamed (map_of (some v))
    → NamesItems (put key v values)
map_of-put key v values all here prefix = elim (Bool-cases (key == prefix)) [
  | inl same ↦ rw (lookup-put key prefix v values, same) here
  | inr other ↦ rw (lookup-put key prefix v values, other) (all prefix)
]

abbrev Named : Option (String × String) → Type 0
Named none = Unit {0}
Named (some (prefix, item)) = (item == "") ≡ false

pick_item-Named :
    (key prefix : String) (others : Result (Option (String × String))) (item : Option String)
    → ((found : Option (String × String)) → others ≡ ok found → Named found)
    → (found : Option (String × String)) → pick_item key prefix others item ≡ ok found
    → Named found
pick_item-Named key prefix others none before found h = before found h
pick_item-Named key prefix others (some item) before found h = elim (Bool-cases (item == "")) [
  | inl empty ↦ absurd (err≢ok (rw empty at h))
  | inr named ↦ let e : some (prefix, item) ≡ found = ok-inj (rw named at h) in subst Named e named
]

map_key_match-Named :
    (key : String) (prefixes : List String) (found : Option (String × String))
    → map_key_match key prefixes ≡ ok found
    → Named found
unfolding map_key_match
map_key_match-Named key [] found h = subst Named (ok-inj h) tt
map_key_match-Named key (p ∷ ps) found h =
    pick_item-Named key p (map_key_match key ps) (strip_prefix (p <> ".") key)
      (map_key_match-Named key ps) found h

put_item-NamesItems :
    (key value : String) (values : Values) (found : Option (String × String)) {next : Values}
    → NamesItems values
    → Named found
    → put_item key value values found ≡ ok next
    → NamesItems next
put_item-NamesItems key value values none all named h = absurd (err≢ok h)
put_item-NamesItems key value values (some (prefix, item)) all named h =
    let items = map_of (lookup prefix values) in
    elim (Bool-cases (is_set (lookup item items))) [
      | inl old ↦ absurd (err≢ok (rw old at h))
      | inr fresh ↦ subst NamesItems (ok-inj (rw fresh at h)) (
          map_of-put prefix (mapped (put item value items)) values all
            (AllNamed-put item value items named (all prefix)))
    ]

module _ (keys : Keys) where
  store-NamesItems :
      (key value : String) (values : Values) {next : Values}
      → NamesItems values
      → store keys key value values ≡ ok next
      → NamesItems next
  unfolding store
  store-NamesItems key value values all h = elim (Bool-cases (contains key keys.scalar_keys)) [
    | inl is_scalar ↦ elim (Bool-cases (is_key (lookup key values))) [
      | inl old ↦ absurd (err≢ok (rw (is_scalar, old) at h))
      | inr fresh ↦
          subst NamesItems (ok-inj (rw (is_scalar, fresh) at h))
            (map_of-put key (scalar value) values all tt)
    ]
    | inr no_scalar ↦ elim (Bool-cases (contains key keys.list_keys)) [
      | inl is_list ↦
          subst NamesItems (ok-inj (rw (no_scalar, is_list) at h))
            (map_of-put key (many (list_of (lookup key values) ++ value ∷ [])) values all tt)
      | inr no_list ↦
          let (found, is_found, h1) =
            bind-inv (map_key_match key keys.map_prefixes) _ (rw (no_scalar, no_list) at h) in
          put_item-NamesItems key value values found all
            (map_key_match-Named key keys.map_prefixes found is_found) h1
    ]
  ]

  parse_token-NamesItems :
      (token : String) (values : Values) {next : Values}
      → NamesItems values
      → parse_token keys token values ≡ ok next
      → NamesItems next
  unfolding parse_token
  parse_token-NamesItems token values all h =
      let (key, found, value) = partition b'=' token in
      elim (Bool-cases (not found || key == "")) [
        | inl malformed ↦ absurd (err≢ok (rw malformed at h))
        | inr split ↦ store-NamesItems key value values all (rw split at h)
      ]

  parse_tokens-NamesItems :
      (tokens : List String) (values : Values) {next : Values}
      → NamesItems values
      → parse_tokens keys tokens values ≡ ok next
      → NamesItems next
  unfolding parse_tokens
  parse_tokens-NamesItems [] values all h = subst NamesItems (ok-inj h) all
  parse_tokens-NamesItems (token ∷ tokens) values all h =
      let (next, is_next, h1) = bind-inv (parse_token keys token values) _ h in
      parse_tokens-NamesItems tokens next (parse_token-NamesItems token values all is_next) h1

mapped-NamesItems : (prefixes : List String) → NamesItems (map (λ p. (p, mapped [])) prefixes)
unfolding lookup
mapped-NamesItems [] prefix = tt
mapped-NamesItems (p ∷ ps) prefix = elim (Bool-cases (p == prefix)) [
  | inl same ↦ rw same tt
  | inr other ↦ rw other (mapped-NamesItems ps prefix)
]

many-NamesItems :
    (keys : List String) (values : Values)
    → NamesItems values
    → NamesItems (map (λ k. (k, many [])) keys ++ values)
unfolding lookup
many-NamesItems [] values all prefix = all prefix
many-NamesItems (k ∷ ks) values all prefix = elim (Bool-cases (k == prefix)) [
  | inl same ↦ rw same tt
  | inr other ↦ rw other (many-NamesItems ks values all prefix)
]

-- Arguments that parse give names to all the items of their dicts.
pub parse_key_values-NamesItems :
    (keys : Keys) (tokens : List String) {values : Values}
    → parse_key_values keys tokens ≡ ok values
    → NamesItems values
unfolding parse_key_values
parse_key_values-NamesItems keys tokens h =
    let (parsed, is_parsed, h1) = bind-inv (parse_tokens keys tokens (initial keys)) _ h in
    let (_, _, h2) = bind-inv (require_scalars keys.required_scalars parsed) _ h1 in
    let (_, _, h3) = bind-inv (require_maps keys.required_maps parsed) _ h2 in
    subst NamesItems (ok-inj h3) (
      parse_tokens-NamesItems keys tokens (initial keys)
        (many-NamesItems keys.list_keys _ (mapped-NamesItems keys.map_prefixes)) is_parsed)

in_bounds :
    (k minimum maximum : ℕ)
    → (ltb k minimum || ltb maximum k) ≡ false
    → (minimum ≤ k) × (k ≤ maximum)
in_bounds k minimum maximum h = ground arith

-- A number that is read from an argument is in its range.
pub parse_int-inv :
    (rt : Runtime) (value name : String) (minimum maximum : ℕ) {n : ℕ}
    → parse_int rt value name minimum maximum ≡ ok n
    → (minimum ≤ n) × (n ≤ maximum)
unfolding parse_int in_range
parse_int-inv rt value name minimum maximum h = within (rt.parse_int value) h
  where
    within :
        (given : Option ℤ) {n : ℕ}
        → in_range minimum maximum name given ≡ ok n
        → (minimum ≤ n) × (n ≤ maximum)
    within none h = absurd (err≢ok h)
    within (some (negsuc k)) h = absurd (err≢ok h)
    within (some (pos k)) h = elim (Bool-cases (ltb k minimum || ltb maximum k)) [
      | inl outside ↦ absurd (err≢ok (rw outside at h))
      | inr inside ↦
          subst (λ n. (minimum ≤ n) × (n ≤ maximum)) (ok-inj (rw inside at h))
            (in_bounds k minimum maximum inside)
    ]
