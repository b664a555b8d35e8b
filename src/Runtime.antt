-- ===== src/Runtime.antt =====
-- What the program takes from Python's libraries and from the OpenPGP backend, as parameters:
-- Unicode tables, hashes, date and JSON parsing, the resolver and the keys. Every function is total
-- and answers with what the program looks at.
use endpoint_protocol.Prelude.{ℕ, String, Bool, Option, List}
use endpoint_protocol.Json.{ℤ, Json, Fields}

-- `datetime.fromisoformat`: a `ValueError` with its text, or an instant in microseconds and whether it
-- has a time zone.
pub data Stamp : Type 0 where
  bad_stamp : String → Stamp
  stamp : ℕ → Bool → Stamp

-- `json.loads`: the objects that were closed before the error and its text, or the value with
-- every item that the text has, duplicate keys included.
pub data Loaded : Type 0 where
  bad_json : List Fields → String → Loaded
  loaded : Json → Loaded

-- An `ipaddress` value by the properties that the policy reads.
pub record Address : Type 0 where
  pub is_private : Bool
  pub is_loopback : Bool
  pub is_link_local : Bool
  pub is_multicast : Bool
  pub is_reserved : Bool
  pub is_unspecified : Bool

-- `socket.getaddrinfo`: a `gaierror` with its text, or the addresses.
pub data Resolved : Type 0 where
  unresolved : String → Resolved
  resolved : List Address → Resolved

-- What a call of the OpenPGP backend raises: the class of the exception and its text.
pub record BackendError : Type 0 where
  pub class_name : String
  pub what : String

pub data Backend (A : Type 0) : Type 0 where
  done : A → Backend A
  failed : BackendError → Backend A

-- The parts of a URI that a contact looks at.
pub record UriParts : Type 0 where
  pub scheme : String
  pub path : String
  pub params : String
  pub query : String
  pub fragment : String

pub record Runtime : Type 0 where
  -- `unicodedata.normalize("NFC", s)`, `s.lower()`
  pub nfc : String → String
  pub lower : String → String
  -- `hashlib.sha256(s.encode("utf-8")).hexdigest()`
  pub sha256 : String → String
  pub from_iso : String → Stamp
  pub loads : String → Loaded
  pub getaddrinfo : String → Resolved
  -- `int(s)`: `none` is a `ValueError`
  pub parse_int : String → Option ℤ
  -- `urllib.parse`: whether what stands in brackets is an IPv6 address, and whether the NFKC form of
  -- a host part has no delimiter
  pub is_bracketed_host : String → Bool
  pub is_safe_netloc : String → Bool
  -- `base64.b64decode(s, validate=True)` and the PBKDF2 digest, with bytes as lists of numbers
  pub b64decode : String → Option (List ℕ)
  pub b64encode : List ℕ → String
  pub pbkdf2 : String → List ℕ → ℕ → List ℕ
  -- `urllib.parse` for contact URIs: `urlparse`, `parse_qs(…, keep_blank_values=True)`, `urlencode`
  pub uri_parts : String → UriParts
  pub parse_qs : String → List (String × List String)
  pub urlencode : List (String × String) → String
  -- the backend: the bytes of a key's fingerprint, and a detached signature over a text
  pub fingerprint_bytes : String → Backend (List ℕ)
  pub verify : String → String → String → Backend (Unit {0})
  -- `base64.b32encode(digest).decode("ascii").rstrip("=").lower()`
  pub b32 : List ℕ → String

-- The rest of the backend: the keys that it makes, a key's fingerprint in hexadecimal digits,
-- signatures, and encryption for one key and for several.
pub record OpenPgp : Type 0 where
  pub generate : (name email : String) → Backend Json
  pub raw_fingerprint : (public_key : String) → Backend String
  pub sign : (secret_key payload : String) → Backend String
  pub encrypt : (public_key payload : String) → Backend String
  pub encrypt_many : (public_keys : List String) (payload : String) → Backend String
  pub decrypt : (secret_key ciphertext : String) → Backend String
