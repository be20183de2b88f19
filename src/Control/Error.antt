-- ===== src/Control/Error.antt =====
-- `AppError` of control-api/src/main.rs: its status and its code, and the message where one code has
-- several of them that a validation tells apart.
use cll.Base.{ℕ}

-- The texts that a validation asks for.
pub data Field : Type 0 where
  policy_id_field mode_field target_id_field host_type_field host_field target_addr_field
        optional_field :
      Field

pub data PolicyFault : Type 0 where
  version_not_positive mode_not_dynamic default_protocol_unknown : PolicyFault
  targets_empty targets_too_many host_type_unsupported : PolicyFault
  ports_empty ports_too_many port_protocol_unknown port_range_invalid : PolicyFault
  no_target_for_protocol : PolicyFault

-- The codes that go over the wire.
pub data ErrorCode : Type 0 where
  missing_header invalid_header invalid_nonce body_hash_mismatch invalid_signature : ErrorCode
  invalid_timestamp stale_report unknown_node : ErrorCode
  invalid_handshake invalid_node node_id_mismatch timestamp_mismatch nonce_mismatch : ErrorCode
  invalid_node_version invalid_os invalid_arch invalid_boot_id invalid_listen_addr : ErrorCode
  invalid_report invalid_status invalid_report_timestamp : ErrorCode
  node_not_found node_endpoint_exists : ErrorCode
  invalid_task_type invalid_task_status invalid_task_result invalid_task_id : ErrorCode
  task_id_mismatch task_not_found : ErrorCode
  incomplete_accel_ticket invalid_ticket_protocol invalid_target_addr invalid_port : ErrorCode
  invalid_user invalid_device invalid_game invalid_region invalid_quality : ErrorCode
  invalid_business_field entitlement_not_verified device_not_verified : ErrorCode
  entitlement_expired invalid_risk_level risk_blocked no_candidate invalid_node_port : ErrorCode

-- `invalid_field`, `invalid_route_policy` and the failed encoding by their messages; `internal` and
-- `database` without them; the others by their status and their code.
pub data AppError : Type 0 where
  field_required : Field → AppError
  field_too_long : Field → ℕ → AppError
  invalid_route_policy : PolicyFault → AppError
  not_encoded internal database : AppError
  bad_request unauthorized forbidden not_found conflict service_unavailable internal_error :
      ErrorCode → AppError
