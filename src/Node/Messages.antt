-- ===== src/Node/Messages.antt =====
-- The requests of clients, node-core/src/session.rs.
use cll.Base.{ℕ, Option}
use cll.Text.{Text, bytes}
use cll.Node.RoutePolicy.{RoutePolicy, SessionDataTarget}

pub data TransportKind : Type 0 where
  tcp udp quic : TransportKind

-- `TransportKind::as_str`.
unfoldable pub transport_text : TransportKind → Text
transport_text tcp = bytes "tcp"
transport_text udp = bytes "udp"
transport_text quic = bytes "quic"

pub record ClientProbeRequest : Type 0 where
  pub client_nonce : Option Text
  pub user_id : Option ℕ
  pub device_id : Option Text
  pub game_id : Option ℕ
  pub region_id : Option ℕ
  pub transport : Option Text
  pub token : Option Text
  pub route_policy : Option RoutePolicy

pub record ClientSessionDataRequest : Type 0 where
  pub session_id : Option Text
  pub client_nonce : Option Text
  pub payload : Option Text
  pub target_addr : Option Text
  pub target_host : Option Text
  pub target_port : Option ℕ
  pub target_protocol : Option Text
  pub target : Option SessionDataTarget
  pub response_timeout_ms : Option ℕ
