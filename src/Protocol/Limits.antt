-- ===== src/Protocol/Limits.antt =====
-- The constants and `ProtocolLimits` of endpoint/protocol.py.
use endpoint_protocol.Prelude.{ℕ, ◌*◌, String}

abbrev pub protocol_version : String
protocol_version = "endpoint-poc-2"

abbrev pub max_json_depth : ℕ
max_json_depth = 8

pub record ProtocolLimits : Type 0 where
  pub max_metadata_bytes : ℕ
  pub max_identity_bytes : ℕ
  pub max_envelope_bytes : ℕ
  pub max_claim_bytes : ℕ
  pub max_content_bytes : ℕ
  pub max_content_object_bytes : ℕ
  pub max_json_depth : ℕ

-- `ProtocolLimits()`
abbrev pub default_limits : ProtocolLimits
default_limits = record {
  max_metadata_bytes = 16 * 1024;
  max_identity_bytes = 64 * 1024;
  max_envelope_bytes = 1024 * 1024;
  max_claim_bytes = 128 * 1024;
  max_content_bytes = 1024 * 1024;
  max_content_object_bytes = 64 * 1024 * 1024;
  max_json_depth = 8;
}
