-- ===== src/Transport/Url.antt =====
-- The parts of a URL, as `urllib.parse.urlparse` gives them for the `https` URLs of
-- endpoint/transport.py: the standard library's splitting, character by character.
use endpoint_protocol.Prelude.{
  ℕ, ◌+◌, ◌-◌, ◌*◌, String, ◌<>◌, code, Bool, true, false, not, ◌&&◌, ◌||◌, Option, none, some, leb,
  eqb, ◌==◌, if◌then◌else◌, every_char, some_char, is_alnum, is_lower, is_upper, is_digit,
}
use endpoint_protocol.Errors.{Result, ok, err, crash, ◌>>◌}
use endpoint_protocol.Runtime.{Runtime}

-- `s.partition(c)`: what stands before the first `c`, whether there is one, and what follows.
unfoldable pub partition : ℕ → String → String × Bool × String
partition c String.[] = ("", false, "")
partition c (String.◌∷◌ d s) =
    let (before, found, after) = partition c s in
    if eqb (code d) c then ("", true, s) else (String.◌∷◌ d before, found, after)

-- `s.rpartition(c)`: what stands before the last `c`, whether there is one, and what follows it.
unfoldable pub rpartition : ℕ → String → String × Bool × String
rpartition c String.[] = ("", false, "")
rpartition c (String.◌∷◌ d s) =
    let (before, found, after) = rpartition c s in
    if found
    then (String.◌∷◌ d before, true, after)
    else if eqb (code d) c
    then ("", true, s)
    else ("", false, String.◌∷◌ d after)

-- The host part of what follows `//`, up to the first of `/?#`.
unfoldable pub split_netloc : String → String × String
split_netloc String.[] = ("", "")
split_netloc (String.◌∷◌ d s) =
    let (netloc, rest) = split_netloc s in
    if eqb (code d) b'/' || (eqb (code d) b'?' || eqb (code d) b'#')
    then ("", String.◌∷◌ d s)
    else (String.◌∷◌ d netloc, rest)

-- `lstrip` of control characters and spaces, and the removal of tabs and line breaks.
unfoldable pub strip_left : String → String
strip_left String.[] = ""
strip_left (String.◌∷◌ d s) =
    let rest = strip_left s in if leb (code d) 0x20 then rest else String.◌∷◌ d s

unfoldable pub drop_unsafe : String → String
drop_unsafe String.[] = ""
drop_unsafe (String.◌∷◌ d s) =
    let rest = drop_unsafe s in
    if eqb (code d) 0x09 || (eqb (code d) 0x0a || eqb (code d) 0x0d)
    then rest
    else String.◌∷◌ d rest

abbrev first_is : (ℕ → Bool) → String → Bool
first_is p String.[] = false
first_is p (String.◌∷◌ d s) = p (code d)

abbrev is_scheme_char : ℕ → Bool
is_scheme_char c = is_alnum c || (eqb c b'+' || (eqb c b'-' || eqb c b'.'))

-- Is the scheme `https`, in any case?
abbrev is_letter : ℕ → ℕ → Bool
is_letter lower c = eqb c lower || eqb c (lower - 32)

abbrev is_https : String → Bool
is_https (String.◌∷◌ a (String.◌∷◌ b (String.◌∷◌ c (String.◌∷◌ d (String.◌∷◌ e String.[]))))) =
    is_letter b'h' (code a)
    && (is_letter b't' (code b)
        && (is_letter b't' (code c) && (is_letter b'p' (code d) && is_letter b's' (code e))))
is_https _ = false

-- Whether the URL's scheme is `https`, and what follows the scheme.
unfoldable pub split_scheme : String → Bool × String
unfolding partition every_char
split_scheme url =
    let (before, found, after) = partition b':' url in
    if found && (first_is (λ c. is_lower c || is_upper c) url && every_char is_scheme_char before)
    then (is_https before, after)
    else (false, url)

-- `_splitparams`: parameters follow the first `;` behind the last `/`.
unfoldable pub split_params : String → String × String
unfolding partition rpartition
split_params path =
    let (head, slash, last) = rpartition b'/' path in
    let (before, found, after) = partition b';' last in
    if found then (if slash then head <> "/" <> before else before, after) else (path, "")

-- `url[:2] == "//"`: the host part and what follows it.
unfoldable pub split_authority : String → String × String
unfolding split_netloc
split_authority (String.◌∷◌ c (String.◌∷◌ d s)) =
    if eqb (code c) b'/' && eqb (code d) b'/'
    then split_netloc s
    else ("", String.◌∷◌ c (String.◌∷◌ d s))
split_authority s = ("", s)

-- The parts are those of an `https` URL; of another one the code reads only that it is none.
pub record ParsedUrl : Type 0 where
  pub https : Bool
  pub netloc : String
  pub path : String
  pub params : String
  pub query : String
  pub fragment : String

abbrev value_error : {A : Type 0} → Result A
value_error = err (crash "ValueError")

abbrev guard : Bool → Result (Unit {0})
guard true = ok tt
guard false = err (crash "ValueError")

abbrev open_bracket : ℕ
open_bracket = b'['

abbrev close_bracket : ℕ
close_bracket = b']'

abbrev has_char : ℕ → String → Bool
has_char c s = some_char (λ d. eqb d c) s

module _ (rt : Runtime) where
  -- The tests of `urlsplit` on the host part. Each of them raises a `ValueError`.
  unfoldable pub check_netloc : String → Result (Unit {0})
  unfolding some_char partition
  check_netloc netloc =
      let opened = has_char open_bracket netloc in
      let closed = has_char close_bracket netloc in
      do
        guard (not (opened && not closed) && not (closed && not opened))
        guard (
            not opened
            || rt.is_bracketed_host (partition close_bracket (partition open_bracket netloc).2).0)
        guard (rt.is_safe_netloc netloc)

  unfoldable pub urlparse : String → Result ParsedUrl
  unfolding split_scheme split_netloc split_params strip_left drop_unsafe check_netloc
      split_authority
  urlparse given =
      let (https, after) = split_scheme (drop_unsafe (strip_left given)) in
      let (netloc, rest) = split_authority after in
      let (no_fragment, has_fragment, fragment) = partition b'#' rest in
      let (whole_path, has_query, query) = partition b'?' no_fragment in
      let (path, params) = split_params whole_path in
      do
        check_netloc netloc
        ok (record {
          https = https;
          netloc = netloc;
          path = path;
          params = params;
          query = query;
          fragment = fragment;
        })

-- `hostname` and `port` of `_hostinfo`, both as texts; the part before the last `@` is dropped.
unfoldable pub host_and_port : String → String × String
unfolding partition rpartition
host_and_port netloc =
    let (user, has_user, hostinfo) = rpartition b'@' netloc in
    let (before, bracketed, inside) = partition open_bracket hostinfo in
    if bracketed
    then (let (host, closed, after) = partition close_bracket inside in
        (host, (partition b':' after).2))
    else (let (host, colon, port) = partition b':' hostinfo in (host, port))

-- `username is None and password is None`
unfoldable pub has_userinfo : String → Bool
unfolding some_char
has_userinfo netloc = has_char b'@' netloc

module _ (rt : Runtime) where
  -- `hostname`, "" for None: in lower case up to a zone, which stands behind `%`.
  unfoldable pub hostname : ParsedUrl → String
  unfolding host_and_port partition
  hostname p =
      let (name, percent, zone) = partition b'%' (host_and_port p.netloc).0 in
      rt.lower name <> (if percent then "%" else "") <> zone

-- The number that decimal digits stand for, in front of which `n` stands.
unfoldable pub digits_value : ℕ → String → ℕ
digits_value n String.[] = n
digits_value n (String.◌∷◌ d s) = digits_value (n * 10 + (code d - b'0')) s

-- `port`: None without one; a `ValueError` for what is no number up to 65535.
unfoldable pub port_number : ParsedUrl → Result (Option ℕ)
unfolding host_and_port digits_value every_char
port_number p =
    let digits = (host_and_port p.netloc).1 in
    let value = digits_value 0 digits in
    if digits == ""
    then ok none
    else if every_char is_digit digits && leb value 65535
    then ok (some value)
    else value_error
