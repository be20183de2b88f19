-- ===== src/Node/Code.antt =====
-- The error and status codes of node-core/src, one constructor for each string literal.
pub mod Texts
use cll.Text.{Text, bytes}

pub data Code : Type 0 where
  invalid_probe auth_not_ready invalid_token claim_mismatch : Code
  missing_route_policy invalid_route_policy route_policy_mismatch : Code
  missing_session_id missing_payload invalid_payload session_not_found session_expired : Code
  relay_auth_required missing_target missing_target_port invalid_target : Code
  target_protocol_unsupported target_not_allowed relay_error unsupported_transport : Code
  forwarded upstream_timeout : Code

-- The literal that goes over the wire.
unfoldable pub code_text : Code → Text
code_text Code.invalid_probe = bytes "invalid_probe"
code_text Code.auth_not_ready = bytes "auth_not_ready"
code_text Code.invalid_token = bytes "invalid_token"
code_text Code.claim_mismatch = bytes "claim_mismatch"
code_text Code.missing_route_policy = bytes "missing_route_policy"
code_text Code.invalid_route_policy = bytes "invalid_route_policy"
code_text Code.route_policy_mismatch = bytes "route_policy_mismatch"
code_text Code.missing_session_id = bytes "missing_session_id"
code_text Code.missing_payload = bytes "missing_payload"
code_text Code.invalid_payload = bytes "invalid_payload"
code_text Code.session_not_found = bytes "session_not_found"
code_text Code.session_expired = bytes "session_expired"
code_text Code.relay_auth_required = bytes "relay_auth_required"
code_text Code.missing_target = bytes "missing_target"
code_text Code.missing_target_port = bytes "missing_target_port"
code_text Code.invalid_target = bytes "invalid_target"
code_text Code.target_protocol_unsupported = bytes "target_protocol_unsupported"
code_text Code.target_not_allowed = bytes "target_not_allowed"
code_text Code.relay_error = bytes "relay_error"
code_text Code.unsupported_transport = bytes "unsupported_transport"
code_text Code.forwarded = bytes "forwarded"
code_text Code.upstream_timeout = bytes "upstream_timeout"
