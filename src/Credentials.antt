-- ===== src/Credentials.antt =====
-- endpoint/credentials.py: client tokens, their PBKDF2 verifiers and the check of a token.
pub mod Laws
use endpoint_protocol.Prelude.{
  ℕ, zero, suc, ◌+◌, String, ◌<>◌, code, Bool, true, false, not, ◌&&◌, ◌||◌, Option, none, some,
  List, [], ◌∷◌, ltb, leb, eqb, ◌==◌, if◌then◌else◌, length, text_length, every_char, is_alnum,
}
use endpoint_protocol.Json.{ℤ, pos, negsuc, Json, str, is_str, text}
use endpoint_protocol.Errors.{
  Result, ok, err, raised, crash, raise, require, plain_error, ◌>>=◌, ◌>>◌,
}
use endpoint_protocol.Runtime.{Runtime}
use endpoint_protocol.Protocol.Canonical.{decimal}

abbrev pub min_iterations : ℕ
min_iterations = 100_000

abbrev pub default_iterations : ℕ
default_iterations = 210_000

abbrev pub pbkdf2_algorithm : String
pbkdf2_algorithm = "pbkdf2_sha256"

abbrev invalid : {A : Type 0} → String → Result A
invalid message = raise (plain_error "invalid_config" message)

abbrev is_token_char : ℕ → Bool
is_token_char c = is_alnum c || (eqb c b'_' || eqb c b'-')

-- `TOKEN_RE.fullmatch(token)`: `^[A-Za-z0-9_-]{43,}$`
unfoldable pub is_strong_token : String → Bool
unfolding every_char text_length
is_strong_token token = every_char is_token_char token && leb 43 (text_length token)

unfoldable pub validate_client_token_strength : Json → Result (Unit {0})
unfolding is_strong_token
validate_client_token_strength token = do
  require (is_str token) "invalid_config" "client token must be a string"
  require (is_strong_token (text token)) "invalid_config" "client token is too weak"

-- `s.split(":")`: the part before the first colon, and the others.
unfoldable pub split_colons : String → String × List String
split_colons String.[] = ("", [])
split_colons (String.◌∷◌ c s) =
    let (part, parts) = split_colons s in
    if eqb (code c) b':' then ("", part ∷ parts) else (String.◌∷◌ c part, parts)

pub record Verifier : Type 0 where
  pub algorithm : String
  pub iterations : ℤ
  pub salt : List ℕ
  pub digest : List ℕ

-- `iterations >= MIN_PBKDF2_ITERATIONS`
abbrev pub enough : ℤ → Bool
enough (pos n) = leb min_iterations n
enough (negsuc n) = false

abbrev pub rounds : ℤ → ℕ
rounds (pos n) = n
rounds (negsuc n) = 0

abbrev pub same_bytes : List ℕ → List ℕ → Bool
same_bytes [] [] = true
same_bytes (x ∷ xs) (y ∷ ys) = eqb x y && same_bytes xs ys
same_bytes _ _ = false

abbrev pub of_option : {A : Type 0} → Option A → String → Result A
of_option none message = invalid message
of_option (some a) message = ok a

module _ (rt : Runtime) where
  -- `_parse_verifier` behind the split.
  unfoldable pub parse_parts : String × List String → Result Verifier
  parse_parts (algorithm, iterations_raw ∷ salt_raw ∷ digest_raw ∷ []) = do
    iterations ← of_option (rt.parse_int iterations_raw) "client token hash iterations are invalid"
    salt ← of_option (rt.b64decode salt_raw) "client token hash base64 is invalid"
    digest ← of_option (rt.b64decode digest_raw) "client token hash base64 is invalid"
    ok (record { algorithm = algorithm; iterations = iterations; salt = salt; digest = digest })
  parse_parts (algorithm, _) = invalid "client token hash format is invalid"

  unfoldable pub parse_verifier : Json → Result Verifier
  unfolding split_colons parse_parts
  parse_verifier (str s) = parse_parts (split_colons s)
  parse_verifier _ = invalid "client token hash must be a string"

  unfoldable pub validate_client_token_hash : Json → Result (Unit {0})
  unfolding parse_verifier
  validate_client_token_hash verifier = do
    v ← parse_verifier verifier
    require (v.algorithm == pbkdf2_algorithm) "invalid_config"
        "unsupported client token hash algorithm"
    require (enough v.iterations) "invalid_config" "PBKDF2 iterations are too low"
    require (leb 16 (length v.salt)) "invalid_config" "client token hash salt is too short"
    require (eqb (length v.digest) 32) "invalid_config" "client token hash digest is invalid"

  -- The test behind `try`.
  abbrev pub check_token : String → Verifier → Bool
  check_token token v =
      if not (v.algorithm == pbkdf2_algorithm) || not (enough v.iterations)
      then false
      else same_bytes (rt.pbkdf2 token v.salt (rounds v.iterations)) v.digest

  -- `verify_client_token` of a token that is a text: an `EndpointError` of the parser is False.
  unfoldable pub verify_client_token : String → Json → Result Bool
  unfolding parse_verifier
  verify_client_token token verifier = elim (parse_verifier verifier) [
    | ok v ↦ ok (check_token token v)
    | err (raised e) ↦ ok false
    | err (crash what) ↦ err (crash what)
  ]

  -- `hash_client_token`, where `salt` is what `secrets.token_bytes(16)` gave.
  unfoldable pub hash_client_token : List ℕ → String → Bool → ℕ → Result String
  unfolding validate_client_token_strength decimal
  hash_client_token salt token allow_weak iterations = do
    if allow_weak then ok tt else validate_client_token_strength (str token)
    require (leb min_iterations iterations) "invalid_config" "PBKDF2 iterations are too low"
    ok (
        pbkdf2_algorithm
        <> (":"
            <> (decimal iterations
                <> (":"
                    <> (rt.b64encode salt
                        <> (":" <> rt.b64encode (rt.pbkdf2 token salt iterations)))))))
