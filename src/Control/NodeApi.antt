-- ===== src/Control/NodeApi.antt =====
-- The node's side of the API of control-api/src/main.rs: signed requests, handshakes, reports and
-- configurations. The headers and the readers of JSON bodies are parameters.
pub mod Authentic
pub mod Signing
pub mod Handshake
pub mod Settings
use cll.Base.{ℕ, ◌+◌, ◌-◌, ◌^◌, Option, List, [], ltb, ◌==◌, not}
use cll.Base.Outcome.{Result, ok, err, ◌>>=◌, ◌>>◌, bail_if, ok_or}
use cll.Text.{Text, bytes, text_eq, is_blank}
use cll.Text.Chars.{count_chars}
use cll.Net.{parse_below}
use cll.Node.ControlPlane.{canonical, post, get, handshake_path, config_path, NodeHandshake}
use cll.Node.Platform.{Platform}
use cll.Node.RoutePolicy.{is_some_and}
use cll.Node.Runtime.{NetworkConfig}
use cll.Control.Error.{
  AppError, bad_request, unauthorized, not_found, missing_header, invalid_header, invalid_nonce,
  body_hash_mismatch, invalid_signature, internal, invalid_timestamp, stale_report, unknown_node,
  invalid_handshake, invalid_node, node_id_mismatch, timestamp_mismatch, nonce_mismatch,
  invalid_node_version, invalid_os, invalid_arch, invalid_boot_id, invalid_listen_addr,
  node_not_found,
}
use cll.Control.Nodes.{
  NodeRow, select_node_secret, select_node_config, persist_node_handshake, config_response,
}

pub data HeaderName : Type 0 where
  x_node_id x_node_timestamp x_node_nonce x_node_body_sha256 x_node_signature : HeaderName
  authorization x_admin_token x_business_sync_token x_client_api_token : HeaderName

-- `HeaderMap::get`, and `to_str` on what it finds.
abbrev pub Headers : Type 0
Headers = HeaderName → Option (Option Text)

unfoldable pub required_header : Headers → HeaderName → Result AppError Text
required_header headers name = do
  value ← ok_or (headers name) (bad_request missing_header)
  ok_or value (bad_request invalid_header)

unfoldable pub required_header_u64 : Headers → HeaderName → Result AppError ℕ
unfolding required_header
required_header_u64 headers name = do
  text ← required_header headers name
  ok_or (parse_below (2 ^ 64) text) (bad_request invalid_header)

-- `abs_diff` is the sum of the two truncated differences.
unfoldable pub validate_node_report_timestamp : ℕ → ℕ → Result AppError (Unit {0})
validate_node_report_timestamp now timestamp = do
  bail_if (timestamp == 0) (bad_request invalid_timestamp)
  bail_if (ltb 300 ((timestamp - now) + (now - timestamp))) (unauthorized stale_report)

unfoldable pub verify_node_signature :
    Platform → Text → Text → Text → ℕ → Text → Text → Text → Text → Result AppError (Unit {0})
verify_node_signature platform method path secret timestamp nonce body_sha256 signature body = do
  bail_if (is_blank nonce) (bad_request invalid_nonce)
  bail_if (not (text_eq body_sha256 (platform.encode_base64 (platform.sha256 body))))
      (bad_request body_hash_mismatch)
  given ← ok_or (platform.decode_base64 signature) (unauthorized invalid_signature)
  tag ←
      ok_or (platform.codec.hmac secret (canonical method path timestamp nonce body_sha256))
        internal
  bail_if (not (text_eq tag given)) (unauthorized invalid_signature)

-- What the signed headers say, once they are checked.
pub record Sender : Type 0 where
  pub node_id : ℕ
  pub timestamp : ℕ
  pub nonce : Text

-- The front of `node_handshake`, `node_report` and `node_config`, and `authenticate_node_request`.
unfoldable pub authenticated :
    Platform → ℕ → List NodeRow → Headers → Text → Text → Text → Result AppError Sender
authenticated platform now nodes headers method path body = do
  node_id ← required_header_u64 headers x_node_id
  timestamp ← required_header_u64 headers x_node_timestamp
  nonce ← required_header headers x_node_nonce
  body_sha256 ← required_header headers x_node_body_sha256
  signature ← required_header headers x_node_signature
  validate_node_report_timestamp now timestamp
  secret ← ok_or (select_node_secret node_id nodes) (unauthorized unknown_node)
  verify_node_signature platform method path secret timestamp nonce body_sha256 signature body
  ok (record { node_id = node_id; timestamp = timestamp; nonce = nonce })

unfoldable pub authenticate_node_request :
    Platform → ℕ → List NodeRow → Headers → Text → Text → Text → Result AppError ℕ
authenticate_node_request platform now nodes headers method path body = do
  sender ← authenticated platform now nodes headers method path body
  ok sender.node_id

unfoldable pub validate_node_handshake_request : Sender → NodeHandshake → Result AppError (Unit {0})
validate_node_handshake_request sender request = do
  bail_if (request.node_id == 0) (bad_request invalid_node)
  bail_if (not (request.node_id == sender.node_id)) (bad_request node_id_mismatch)
  bail_if (not (request.timestamp == sender.timestamp)) (bad_request timestamp_mismatch)
  bail_if (not (text_eq request.nonce sender.nonce)) (bad_request nonce_mismatch)
  bail_if (is_blank request.node_version) (bad_request invalid_node_version)
  bail_if (not (text_eq request.os (bytes "linux"))) (bad_request invalid_os)
  bail_if (is_blank request.arch) (bad_request invalid_arch)
  bail_if (is_blank request.boot_id) (bad_request invalid_boot_id)
  bail_if (is_some_and request.listen_addr (λ addr. ltb 128 (count_chars addr)))
      (bad_request invalid_listen_addr)

-- What the answer to a handshake tells the node.
pub record HandshakeResponse : Type 0 where
  pub node_id : ℕ
  pub config_revision : ℕ

-- A handler: the table that it leaves, and its answer.
abbrev pub Handled : Type 0 → Type 0
Handled A = List NodeRow × Result AppError A

-- An error before any statement leaves the table as it was.
abbrev pub then_with :
    {A B : Type 0} → List NodeRow → Result AppError A → (A → Handled B) → Handled B
then_with nodes (err error) rest = (nodes, err error)
then_with nodes (ok value) rest = rest value

-- The checks of a handshake.
unfoldable pub checked_handshake :
    Platform
    → (Text → Option NodeHandshake)
    → ℕ
    → List NodeRow
    → Headers
    → Text
    → Result AppError NodeHandshake
checked_handshake platform read_handshake now nodes headers body = do
  sender ← authenticated platform now nodes headers post handshake_path body
  request ← ok_or (read_handshake body) (bad_request invalid_handshake)
  validate_node_handshake_request sender request
  ok request

abbrev pub answer_handshake : ℕ → List NodeRow × Result AppError ℕ → Handled HandshakeResponse
answer_handshake node_id (nodes, err error) = (nodes, err error)
answer_handshake node_id (nodes, ok revision) =
    (nodes, ok (record { node_id = node_id; config_revision = revision }))

unfoldable pub node_handshake :
    Platform
    → (Text → Option NodeHandshake)
    → ℕ
    → List NodeRow
    → Headers
    → Text
    → Handled HandshakeResponse
node_handshake platform read_handshake now nodes headers body =
    then_with nodes (checked_handshake platform read_handshake now nodes headers body) (λ request.
      answer_handshake request.node_id (
        persist_node_handshake request.node_id request.node_version request.config_revision
          request.timestamp nodes))

unfoldable pub node_config :
    Platform → ℕ → List NodeRow → Headers → Result AppError (ℕ × NetworkConfig)
node_config platform now nodes headers = do
  sender ← authenticated platform now nodes headers get config_path []
  row ← ok_or (select_node_config sender.node_id nodes) (not_found node_not_found)
  ok (config_response row)
