-- ===== src/Node/Replies.antt =====
-- The messages that a node answers with, node-core/src/session.rs. The fields that are constants of
-- the source (`type`, `protocol`, the capabilities) are those of the constructor. An error's text is
-- a constructor of `ErrorText`, one for each message of the source.
use cll.Base.{ℕ, Bool, Option}
use cll.Text.{Text}
use cll.Node.Code.{Code}
use cll.Node.Messages.{TransportKind}
use cll.Node.Auth.{AuthMessage}
use cll.Node.Tunnel.{FrameError}

-- Why a payload is no request.
pub data InvalidMessage : Type 0 where
  bad_frame : FrameError → InvalidMessage
  payload_not_text not_json wrong_protocol bad_probe bad_session_data : InvalidMessage
  type_unknown type_required : InvalidMessage

pub data ErrorText : Type 0 where
  request_invalid : InvalidMessage → ErrorText
  auth_refused : AuthMessage → ErrorText
  policy_required policy_not_hashed policy_hash_differs policy_id_differs : ErrorText
  session_id_required payload_required payload_not_base64 : ErrorText
  session_id_not_found session_has_expired relay_needs_token : ErrorText
  protocol_not_relayed target_required target_not_in_policy target_port_required : ErrorText
  lookup_failed nothing_resolved udp_relay_failed tcp_relay_failed : ErrorText

pub record ProbeSession : Type 0 where
  pub session_id : Text
  pub ttl_sec : ℕ
  pub intent_id : Option Text
  pub route_target_addr : Option Text
  pub route_policy_id : Option Text
  pub route_policy_hash : Option Text
  pub credential_present : Bool
  pub credential_valid : Bool
  pub credential_expires_at : Option ℕ
  pub user_id : Option ℕ
  pub device_id : Option Text
  pub game_id : Option ℕ
  pub region_id : Option ℕ

pub record ClientProbeResponse : Type 0 where
  pub node_id : Option ℕ
  pub node_version : Text
  pub server_time : ℕ
  pub transport : TransportKind
  pub requested_transport : Option Text
  pub client_nonce : Option Text
  pub session : ProbeSession

pub record SessionTargetInfo : Type 0 where
  pub target_id : Option Text
  pub protocol : Text
  pub address : Text
  pub matched_policy : Option Text

pub record RelayInfo : Type 0 where
  pub mode : Text
  pub timeout_ms : ℕ
  pub timed_out : Bool
  pub upstream_tx_bytes : ℕ
  pub upstream_rx_bytes : ℕ

pub record SessionDataInfo : Type 0 where
  pub created_at : ℕ
  pub expires_at : ℕ
  pub authenticated : Bool
  pub intent_id : Option Text
  pub route_target_addr : Option Text
  pub route_policy_id : Option Text
  pub route_policy_hash : Option Text
  pub user_id : Option ℕ
  pub device_id : Option Text
  pub game_id : Option ℕ
  pub region_id : Option ℕ

pub data DataStatus : Type 0 where
  echoed relayed relay_timed_out : DataStatus

pub record ClientSessionDataResponse : Type 0 where
  pub node_id : Option ℕ
  pub node_version : Text
  pub server_time : ℕ
  pub transport : TransportKind
  pub session_id : Text
  pub client_nonce : Option Text
  pub status : DataStatus
  pub payload : Text
  pub payload_bytes : ℕ
  pub request_payload_bytes : ℕ
  pub target : Option SessionTargetInfo
  pub relay : Option RelayInfo
  pub session : SessionDataInfo

-- The two values of an error's `type`.
pub data ErrorKind : Type 0 where
  probe_error session_error : ErrorKind

pub record ClientError : Type 0 where
  pub message_type : ErrorKind
  pub node_version : Text
  pub server_time : ℕ
  pub transport : TransportKind
  pub code : Code
  pub message : ErrorText

pub data ServerMessage : Type 0 where
  probe_ok : ClientProbeResponse → ServerMessage
  session_data_ok : ClientSessionDataResponse → ServerMessage
  client_error : ClientError → ServerMessage
