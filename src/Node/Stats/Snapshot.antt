-- ===== src/Node/Stats/Snapshot.antt =====
-- What the health endpoint reads of the counters, node-core/src/state.rs.
use cll.Base.{ℕ, ◌%◌, ◌^◌, Bool, Option, none, some, ◌==◌, if◌then◌else◌}
use cll.Text.{Text}
use cll.Node.Stats.{ControlStats, RuntimeStats}

pub record TrafficSnapshot : Type 0 where
  pub udp_rx_packets : ℕ
  pub udp_rx_bytes : ℕ
  pub udp_tx_packets : ℕ
  pub udp_tx_bytes : ℕ
  pub tcp_accepted : ℕ
  pub tcp_rx_bytes : ℕ
  pub tcp_tx_bytes : ℕ

pub record SessionSnapshot : Type 0 where
  pub active_tcp_connections : ℕ
  pub active_udp_sessions : ℕ
  pub probe_sessions_total : ℕ
  pub probe_rejected : ℕ
  pub auth_missing : ℕ
  pub auth_ok : ℕ
  pub auth_failed : ℕ
  pub udp_session_rx_packets : ℕ
  pub udp_session_rx_bytes : ℕ
  pub udp_session_tx_packets : ℕ
  pub udp_session_tx_bytes : ℕ
  pub udp_session_miss : ℕ
  pub udp_session_expired : ℕ
  pub udp_relay_tx_packets : ℕ
  pub udp_relay_tx_bytes : ℕ
  pub udp_relay_rx_packets : ℕ
  pub udp_relay_rx_bytes : ℕ
  pub udp_relay_timeout : ℕ
  pub udp_relay_error : ℕ
  pub last_probe_session_id : Option Text

-- One kind of request, as the snapshot shows it.
pub record ControlView : Type 0 where
  pub last_success_at : Option ℕ
  pub last_failure_at : Option ℕ
  pub last_http_status : Option ℕ
  pub last_error : Option Text
  pub succeeded : ℕ
  pub failed : ℕ

pub record ControlPlaneSnapshot : Type 0 where
  pub enabled : Bool
  pub handshake : ControlView
  pub report : ControlView
  pub config : ControlView

unfoldable pub traffic_snapshot : RuntimeStats → TrafficSnapshot
traffic_snapshot stats = record {
  udp_rx_packets = stats.udp_rx_packets;
  udp_rx_bytes = stats.udp_rx_bytes;
  udp_tx_packets = stats.udp_tx_packets;
  udp_tx_bytes = stats.udp_tx_bytes;
  tcp_accepted = stats.tcp_accepted;
  tcp_rx_bytes = stats.tcp_rx_bytes;
  tcp_tx_bytes = stats.tcp_tx_bytes;
}

unfoldable pub session_snapshot : ℕ → RuntimeStats → SessionSnapshot
session_snapshot active_udp_sessions stats = record {
  active_tcp_connections = stats.tcp_active;
  active_udp_sessions = active_udp_sessions;
  probe_sessions_total = stats.probe_sessions_total;
  probe_rejected = stats.probe_rejected;
  auth_missing = stats.auth_missing;
  auth_ok = stats.auth_ok;
  auth_failed = stats.auth_failed;
  udp_session_rx_packets = stats.udp_session_rx_packets;
  udp_session_rx_bytes = stats.udp_session_rx_bytes;
  udp_session_tx_packets = stats.udp_session_tx_packets;
  udp_session_tx_bytes = stats.udp_session_tx_bytes;
  udp_session_miss = stats.udp_session_miss;
  udp_session_expired = stats.udp_session_expired;
  udp_relay_tx_packets = stats.udp_relay_tx_packets;
  udp_relay_tx_bytes = stats.udp_relay_tx_bytes;
  udp_relay_rx_packets = stats.udp_relay_rx_packets;
  udp_relay_rx_bytes = stats.udp_relay_rx_bytes;
  udp_relay_timeout = stats.udp_relay_timeout;
  udp_relay_error = stats.udp_relay_error;
  last_probe_session_id = stats.last_probe_session_id;
}

unfoldable pub unix_option : ℕ → Option ℕ
unix_option value = if value == 0 then none else some value

-- A status is narrowed to 16 bits.
abbrev status_option : ℕ → Option ℕ
status_option status = if status == 0 then none else some (status % 2 ^ 16)

unfoldable pub control_view : ControlStats → ControlView
unfolding unix_option
control_view stats = record {
  last_success_at = unix_option stats.last_success_at;
  last_failure_at = unix_option stats.last_failure_at;
  last_http_status = status_option stats.last_http_status;
  last_error = stats.last_error;
  succeeded = stats.succeeded;
  failed = stats.failed;
}

unfoldable pub control_plane_snapshot : Bool → RuntimeStats → ControlPlaneSnapshot
unfolding control_view
control_plane_snapshot enabled stats = record {
  enabled = enabled;
  handshake = control_view stats.handshake;
  report = control_view stats.report;
  config = control_view stats.config;
}
