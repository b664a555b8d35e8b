-- ===== src/Crypto.antt =====
-- endpoint/crypto.py: fingerprints, the check of signatures and the errors of the OpenPGP backend.
-- The backend itself is native code behind `Runtime`.
use endpoint_protocol.Prelude.{ℕ, String, ◌<>◌, ◌||◌, some, List, eqb, ◌==◌, if◌then◌else◌, length}
use endpoint_protocol.Errors.{EndpointError, Result, ok, raise, require, detail_error, ◌>>=◌, ◌>>◌}
use endpoint_protocol.Runtime.{Runtime, Backend, BackendError, done, failed}

-- `_map_backend_error` of an exception that is no `EndpointError`.
unfoldable pub map_backend_error : BackendError → String → String → EndpointError
map_backend_error e code message =
    let detail = some (if e.what == "" then e.class_name else e.class_name <> (": " <> e.what)) in
    if e.class_name == "SignatureInvalid"
    then detail_error "signature_invalid" "signature verification failed" detail
    else if e.class_name == "MalformedCiphertext"
    then detail_error "malformed_ciphertext" "ciphertext could not be decrypted" detail
    else if e.class_name == "CryptoFailed"
    then detail_error code message detail
    else if e.class_name == "ModuleNotFoundError" || e.class_name == "ImportError"
    then detail_error "crypto_unavailable" "Sequoia OpenPGP backend is unavailable" detail
    else detail_error code message detail

abbrev pub from_backend : {A : Type 0} → Backend A → String → String → Result A
from_backend (done a) code message = ok a
from_backend (failed e) code message = raise (map_backend_error e code message)

module _ (rt : Runtime) where
  unfoldable pub openpgp_fingerprint_bytes : String → Result (List ℕ)
  unfolding map_backend_error
  openpgp_fingerprint_bytes key =
      from_backend (rt.fingerprint_bytes key) "invalid_envelope" "public key is invalid"

  unfoldable pub endpoint_fingerprint : String → Result String
  unfolding openpgp_fingerprint_bytes
  endpoint_fingerprint key = do
    digest ← openpgp_fingerprint_bytes key
    require (eqb (length digest) 20 || eqb (length digest) 32) "invalid_envelope"
        "OpenPGP fingerprint has an unsupported length"
    ok ("ep1:" <> rt.b32 digest)

  unfoldable pub verify_detached : String → String → String → Result (Unit {0})
  unfolding map_backend_error
  verify_detached key payload signature =
      from_backend (rt.verify key payload signature) "signature_invalid"
        "signature verification failed"
