-- ===== src/Node/Stats.antt =====
-- `RuntimeStats` of node-core/src/state.rs: the counters of a node. A counter is an atomic 64-bit
-- number and wraps around; the three texts stand behind locks under which nothing can panic.
pub mod Snapshot
pub mod Outcomes
use cll.Base.{ℕ, zero, ◌+◌, ◌-◌, ◌%◌, ◌^◌, Bool, true, false, Option, none, some}
use cll.Text.{Text}

-- The last outcomes of one kind of request to the control plane.
pub record ControlStats : Type 0 where
  pub last_success_at : ℕ
  pub last_failure_at : ℕ
  pub last_http_status : ℕ
  pub succeeded : ℕ
  pub failed : ℕ
  pub last_error : Option Text

pub record RuntimeStats : Type 0 where
  pub udp_listening : Bool
  pub tcp_listening : Bool
  pub udp_rx_packets : ℕ
  pub udp_rx_bytes : ℕ
  pub udp_tx_packets : ℕ
  pub udp_tx_bytes : ℕ
  pub tcp_accepted : ℕ
  pub tcp_active : ℕ
  pub tcp_rx_bytes : ℕ
  pub tcp_tx_bytes : ℕ
  pub probe_sequence : ℕ
  pub probe_sessions_total : ℕ
  pub probe_rejected : ℕ
  pub auth_missing : ℕ
  pub auth_ok : ℕ
  pub auth_failed : ℕ
  pub udp_session_rx_packets : ℕ
  pub udp_session_rx_bytes : ℕ
  pub udp_session_tx_packets : ℕ
  pub udp_session_tx_bytes : ℕ
  pub udp_session_miss : ℕ
  pub udp_session_expired : ℕ
  pub udp_relay_tx_packets : ℕ
  pub udp_relay_tx_bytes : ℕ
  pub udp_relay_rx_packets : ℕ
  pub udp_relay_rx_bytes : ℕ
  pub udp_relay_timeout : ℕ
  pub udp_relay_error : ℕ
  pub last_probe_session_id : Option Text
  pub report : ControlStats
  pub handshake : ControlStats
  pub config : ControlStats

abbrev pub no_control_stats : ControlStats
no_control_stats = record {
  last_success_at = 0;
  last_failure_at = 0;
  last_http_status = 0;
  succeeded = 0;
  failed = 0;
  last_error = none;
}

-- `RuntimeStats::default()`.
abbrev pub no_stats : RuntimeStats
no_stats = record {
  udp_listening = false;
  tcp_listening = false;
  udp_rx_packets = 0;
  udp_rx_bytes = 0;
  udp_tx_packets = 0;
  udp_tx_bytes = 0;
  tcp_accepted = 0;
  tcp_active = 0;
  tcp_rx_bytes = 0;
  tcp_tx_bytes = 0;
  probe_sequence = 0;
  probe_sessions_total = 0;
  probe_rejected = 0;
  auth_missing = 0;
  auth_ok = 0;
  auth_failed = 0;
  udp_session_rx_packets = 0;
  udp_session_rx_bytes = 0;
  udp_session_tx_packets = 0;
  udp_session_tx_bytes = 0;
  udp_session_miss = 0;
  udp_session_expired = 0;
  udp_relay_tx_packets = 0;
  udp_relay_tx_bytes = 0;
  udp_relay_rx_packets = 0;
  udp_relay_rx_bytes = 0;
  udp_relay_timeout = 0;
  udp_relay_error = 0;
  last_probe_session_id = none;
  report = no_control_stats;
  handshake = no_control_stats;
  config = no_control_stats;
}

-- `fetch_add` and `fetch_sub` on 64 bits.
abbrev pub fetch_add : ℕ → ℕ → ℕ
fetch_add counter n = (counter + n) % 2 ^ 64

abbrev pub fetch_sub : ℕ → ℕ → ℕ
fetch_sub counter n = (counter + 2 ^ 64 - n) % 2 ^ 64

unfoldable pub set_udp_listening : Bool → RuntimeStats → RuntimeStats
set_udp_listening value stats = record stats { udp_listening = value }

unfoldable pub set_tcp_listening : Bool → RuntimeStats → RuntimeStats
set_tcp_listening value stats = record stats { tcp_listening = value }

unfoldable pub record_udp_rx : ℕ → RuntimeStats → RuntimeStats
record_udp_rx bytes stats = record stats {
  udp_rx_packets = fetch_add stats.udp_rx_packets 1;
  udp_rx_bytes = fetch_add stats.udp_rx_bytes bytes;
}

unfoldable pub record_udp_tx : ℕ → RuntimeStats → RuntimeStats
record_udp_tx bytes stats = record stats {
  udp_tx_packets = fetch_add stats.udp_tx_packets 1;
  udp_tx_bytes = fetch_add stats.udp_tx_bytes bytes;
}

unfoldable pub record_tcp_accept : RuntimeStats → RuntimeStats
record_tcp_accept stats = record stats { tcp_accepted = fetch_add stats.tcp_accepted 1 }

unfoldable pub record_tcp_open : RuntimeStats → RuntimeStats
record_tcp_open stats = record stats { tcp_active = fetch_add stats.tcp_active 1 }

unfoldable pub record_tcp_close : RuntimeStats → RuntimeStats
record_tcp_close stats = record stats { tcp_active = fetch_sub stats.tcp_active 1 }

unfoldable pub record_tcp_rx : ℕ → RuntimeStats → RuntimeStats
record_tcp_rx bytes stats = record stats { tcp_rx_bytes = fetch_add stats.tcp_rx_bytes bytes }

unfoldable pub record_tcp_tx : ℕ → RuntimeStats → RuntimeStats
record_tcp_tx bytes stats = record stats { tcp_tx_bytes = fetch_add stats.tcp_tx_bytes bytes }

-- The new number, and the counter that holds it. The sum is written with its wrap-around.
unfoldable pub next_probe_sequence : RuntimeStats → ℕ × RuntimeStats
next_probe_sequence stats = (
  (stats.probe_sequence + 1) % 2 ^ 64,
  record stats { probe_sequence = fetch_add stats.probe_sequence 1 },
)

unfoldable pub record_probe_session : Text → RuntimeStats → RuntimeStats
record_probe_session session_id stats = record stats {
  probe_sessions_total = fetch_add stats.probe_sessions_total 1;
  last_probe_session_id = some session_id;
}

unfoldable pub record_probe_rejected : RuntimeStats → RuntimeStats
record_probe_rejected stats = record stats { probe_rejected = fetch_add stats.probe_rejected 1 }

unfoldable pub record_auth_missing : RuntimeStats → RuntimeStats
record_auth_missing stats = record stats { auth_missing = fetch_add stats.auth_missing 1 }

unfoldable pub record_auth_ok : RuntimeStats → RuntimeStats
record_auth_ok stats = record stats { auth_ok = fetch_add stats.auth_ok 1 }

unfoldable pub record_auth_failed : RuntimeStats → RuntimeStats
record_auth_failed stats = record stats { auth_failed = fetch_add stats.auth_failed 1 }

unfoldable pub record_udp_session_rx : ℕ → RuntimeStats → RuntimeStats
record_udp_session_rx bytes stats = record stats {
  udp_session_rx_packets = fetch_add stats.udp_session_rx_packets 1;
  udp_session_rx_bytes = fetch_add stats.udp_session_rx_bytes bytes;
}

unfoldable pub record_udp_session_tx : ℕ → RuntimeStats → RuntimeStats
record_udp_session_tx bytes stats = record stats {
  udp_session_tx_packets = fetch_add stats.udp_session_tx_packets 1;
  udp_session_tx_bytes = fetch_add stats.udp_session_tx_bytes bytes;
}

unfoldable pub record_udp_session_miss : RuntimeStats → RuntimeStats
record_udp_session_miss stats = record stats {
  udp_session_miss = fetch_add stats.udp_session_miss 1;
}

unfoldable pub record_udp_session_expired : RuntimeStats → RuntimeStats
record_udp_session_expired stats = record stats {
  udp_session_expired = fetch_add stats.udp_session_expired 1;
}

unfoldable pub record_udp_relay_tx : ℕ → RuntimeStats → RuntimeStats
record_udp_relay_tx bytes stats = record stats {
  udp_relay_tx_packets = fetch_add stats.udp_relay_tx_packets 1;
  udp_relay_tx_bytes = fetch_add stats.udp_relay_tx_bytes bytes;
}

unfoldable pub record_udp_relay_rx : ℕ → RuntimeStats → RuntimeStats
record_udp_relay_rx bytes stats = record stats {
  udp_relay_rx_packets = fetch_add stats.udp_relay_rx_packets 1;
  udp_relay_rx_bytes = fetch_add stats.udp_relay_rx_bytes bytes;
}

unfoldable pub record_udp_relay_timeout : RuntimeStats → RuntimeStats
record_udp_relay_timeout stats = record stats {
  udp_relay_timeout = fetch_add stats.udp_relay_timeout 1;
}

unfoldable pub record_udp_relay_error : RuntimeStats → RuntimeStats
record_udp_relay_error stats = record stats { udp_relay_error = fetch_add stats.udp_relay_error 1 }

-- One kind of request, at time `now`: a success clears the error, and a failure keeps the last
-- status if it has none of its own.
unfoldable pub success : ℕ → ℕ → ControlStats → ControlStats
success now http_status stats = record stats {
  succeeded = fetch_add stats.succeeded 1;
  last_success_at = now;
  last_http_status = http_status;
  last_error = none;
}

unfoldable pub failure : ℕ → Option ℕ → Text → ControlStats → ControlStats
failure now http_status error stats = record stats {
  failed = fetch_add stats.failed 1;
  last_failure_at = now;
  last_http_status = elim http_status [ none ↦ stats.last_http_status | some status ↦ status ];
  last_error = some error;
}

unfoldable pub record_control_success : ℕ → ℕ → RuntimeStats → RuntimeStats
unfolding success
record_control_success now http_status stats = record stats {
  report = success now http_status stats.report;
}

unfoldable pub record_control_failure : ℕ → Option ℕ → Text → RuntimeStats → RuntimeStats
unfolding failure
record_control_failure now http_status error stats = record stats {
  report = failure now http_status error stats.report;
}

unfoldable pub record_handshake_success : ℕ → ℕ → RuntimeStats → RuntimeStats
unfolding success
record_handshake_success now http_status stats = record stats {
  handshake = success now http_status stats.handshake;
}

unfoldable pub record_handshake_failure : ℕ → Option ℕ → Text → RuntimeStats → RuntimeStats
unfolding failure
record_handshake_failure now http_status error stats = record stats {
  handshake = failure now http_status error stats.handshake;
}

unfoldable pub record_config_success : ℕ → ℕ → RuntimeStats → RuntimeStats
unfolding success
record_config_success now http_status stats = record stats {
  config = success now http_status stats.config;
}

unfoldable pub record_config_failure : ℕ → Option ℕ → Text → RuntimeStats → RuntimeStats
unfolding failure
record_config_failure now http_status error stats = record stats {
  config = failure now http_status error stats.config;
}
