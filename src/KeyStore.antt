-- ===== src/KeyStore.antt =====
-- `OpenPgpContext` of endpoint/crypto.py: the three files of a key store and what it does with them.
-- A file that the code writes can be read afterwards; the backend can be imported.
pub mod Laws
use endpoint_protocol.Prelude.{
  String, ◌<>◌, Bool, true, false, not, ◌&&◌, ◌||◌, Option, none, some, List, eqb, ◌==◌,
  if◌then◌else◌, some_char,
}
use endpoint_protocol.Json.{Json, get, is_text, text}
use endpoint_protocol.Errors.{Result, ok, raise, require, detail_error, ◌>>=◌, ◌>>◌}
use endpoint_protocol.Runtime.{OpenPgp}
use endpoint_protocol.Transport.Policy.{is_empty}
use endpoint_protocol.Crypto.{map_backend_error, from_backend}

-- A file that is not there, that has a text, or whose reading raises an exception of some class.
pub data File : Type 0 where
  absent : File
  holds : String → File
  unreadable : String → File

abbrev pub exists : File → Bool
exists absent = false
exists (holds s) = true
exists (unreadable what) = true

pub record KeyStore : Type 0 where
  pub raw_fingerprint : File
  pub public_key : File
  pub secret_key : File

unfoldable pub read_file : File → String → Result String
read_file absent message = raise (detail_error "crypto_failed" message (some "FileNotFoundError"))
read_file (holds s) message = ok s
read_file (unreadable what) message = raise (detail_error "crypto_failed" message (some what))

unfoldable pub read_public_key : KeyStore → Result String
unfolding read_file
read_public_key k = read_file k.public_key "public key is not available"

unfoldable pub read_secret_key : KeyStore → Result String
unfolding read_file
read_secret_key k = read_file k.secret_key "secret key is not available"

unfoldable pub read_raw_fingerprint : KeyStore → Result String
unfolding read_file
read_raw_fingerprint k = read_file k.raw_fingerprint "key fingerprint is not available"

unfoldable pub has_identity_material : KeyStore → Bool
has_identity_material k = exists k.raw_fingerprint || (exists k.public_key || exists k.secret_key)

-- `all(path.exists() for path in paths)`
unfoldable pub has_all_files : KeyStore → Bool
has_all_files k = exists k.raw_fingerprint && (exists k.public_key && exists k.secret_key)

-- `_safe_key_parameter`
unfoldable pub safe_key_parameter : String → String → Result String
unfolding some_char
safe_key_parameter value name = do
  require (not (value == "")) "crypto_failed" (name <> " must be a non-empty string")
  require (not (some_char (λ c. eqb c 10 || eqb c 13) value)) "crypto_failed"
      (name <> " must not contain line breaks")
  ok value

-- `_require_backend_string`
unfoldable pub require_backend_string : Json → String → Result String
unfolding get
require_backend_string value key = do
  require (is_text (get value key)) "crypto_failed" (key <> " was not returned by OpenPGP backend")
  ok (text (get value key))

-- `value or default`
abbrev pub or_else : Option String → String → String
or_else none default = default
or_else (some s) default = if s == "" then default else s

module _ (pgp : OpenPgp) where
  unfoldable pub raw_openpgp_fingerprint : String → Result String
  unfolding map_backend_error
  raw_openpgp_fingerprint key =
      from_backend (pgp.raw_fingerprint key) "invalid_envelope" "public key is invalid"

  unfoldable pub import_public_key : String → Result (Unit {0})
  unfolding raw_openpgp_fingerprint
  import_public_key key = do _ ← raw_openpgp_fingerprint key; ok tt

  -- The identity that the backend makes, as the three files; the arguments that follow the names are
  -- two fresh UUIDs.
  unfoldable pub new_identity : Option String → Option String → String → String → Result KeyStore
  unfolding safe_key_parameter map_backend_error require_backend_string
  new_identity name email first second = do
    used_name ← safe_key_parameter (or_else name ("Endpoint " <> first)) "name"
    used_email ← safe_key_parameter (or_else email (second <> "@endpoint.local")) "email"
    identity ←
        from_backend (pgp.generate used_name used_email) "crypto_failed"
          "OpenPGP identity generation failed"
    raw ← require_backend_string identity "raw_fingerprint"
    public_key ← require_backend_string identity "public_key_armored"
    secret_key ← require_backend_string identity "secret_key_armored"
    ok (record {
      raw_fingerprint = holds raw;
      public_key = holds public_key;
      secret_key = holds secret_key;
    })

  unfoldable pub export_public_key : String → KeyStore → Result String
  unfolding read_public_key raw_openpgp_fingerprint
  export_public_key key_fingerprint k = do
    public_key ← read_public_key k
    raw ← raw_openpgp_fingerprint public_key
    require (raw == key_fingerprint) "crypto_failed" "requested key is not available"
    ok public_key

  unfoldable pub current_fingerprint : KeyStore → Result String
  unfolding has_identity_material has_all_files read_raw_fingerprint read_public_key
      raw_openpgp_fingerprint read_secret_key
  current_fingerprint k = do
    require (has_identity_material k) "crypto_failed" "key store is not initialized"
    require (has_all_files k) "crypto_failed" "key store is incomplete"
    raw ← read_raw_fingerprint k
    public_key ← read_public_key k
    raw_public ← raw_openpgp_fingerprint public_key
    require (raw_public == raw) "crypto_failed" "key store fingerprint does not match public key"
    _ ← read_secret_key k
    ok raw

  unfoldable pub sign_detached : String → String → KeyStore → Result String
  unfolding read_raw_fingerprint read_secret_key map_backend_error
  sign_detached key_fingerprint payload k = do
    raw ← read_raw_fingerprint k
    require (raw == key_fingerprint) "crypto_failed" "requested signing key is not available"
    secret_key ← read_secret_key k
    from_backend (pgp.sign secret_key payload) "crypto_failed" "OpenPGP signing failed"

  unfoldable pub encrypt_to : String → String → Result String
  unfolding map_backend_error
  encrypt_to key payload =
      from_backend (pgp.encrypt key payload) "crypto_failed" "OpenPGP encryption failed"

  unfoldable pub encrypt_to_many : List String → String → Result String
  unfolding map_backend_error
  encrypt_to_many keys payload = do
    require (not (is_empty keys)) "crypto_failed" "at least one encryption recipient is required"
    from_backend (pgp.encrypt_many keys payload) "crypto_failed"
        "OpenPGP multi-recipient encryption failed"

  unfoldable pub decrypt : String → KeyStore → Result String
  unfolding read_secret_key map_backend_error
  decrypt ciphertext k = do
    secret_key ← read_secret_key k
    from_backend (pgp.decrypt secret_key ciphertext) "malformed_ciphertext"
        "ciphertext could not be decrypted"
