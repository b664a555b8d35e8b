-- ===== src/Client/Fetch.antt =====
-- `_fetch_content_object` of endpoint/client_core.py: the content that an envelope refers to.
use endpoint_protocol.Prelude.{String, Option, some, leb, eqb, if◌then◌else◌}
use endpoint_protocol.Json.{Json, get, json_eq}
use endpoint_protocol.Errors.{
  Result, ok, raise, require, status_error, detail_error, rethrow, ◌>>=◌, ◌>>◌,
}
use endpoint_protocol.Runtime.{Runtime}
use endpoint_protocol.Protocol.Limits.{default_limits}
use endpoint_protocol.Protocol.Canonical.{parse_json_strict}
use endpoint_protocol.Protocol.Content.{validate_content_object}
use endpoint_protocol.Client.Discover.{Answer, no_answer, answer}

-- The text of a response that has no error status.
abbrev pub fetched : Answer → Result String
fetched (no_answer what) =
    raise
      (record (status_error "content_unavailable" "referenced content could not be fetched" 503) {
        detail = some what;
      })
fetched (answer status body value) =
    if leb 400 status
    then raise (
        status_error (if eqb status 410 then "content_expired" else "content_unavailable")
          "referenced content is not available" status)
    else ok body

-- `fetch` is the server's answer for a content id. A content that is fetched is never None.
unfoldable pub fetch_content_object : Runtime → (Json → Answer) → Json → Result (Option Json)
unfolding parse_json_strict validate_content_object get json_eq
fetch_content_object rt fetch envelope = do
  body ← fetched (fetch (get envelope "content_id"))
  content_object ←
      rethrow (λ e. detail_error "content_unavailable" "content response is invalid" e.detail)
        (parse_json_strict rt body)
  validate_content_object rt content_object default_limits
  require (json_eq (get content_object "content_id") (get envelope "content_id"))
      "content_hash_mismatch" "fetched content id does not match envelope"
  require (json_eq (get content_object "content_sha256") (get envelope "content_sha256"))
      "content_hash_mismatch" "fetched content hash does not match envelope"
  ok (some content_object)
