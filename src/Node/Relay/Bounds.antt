-- ===== src/Node/Relay/Bounds.antt =====
-- The outcomes of `relay_udp_payload` and `relay_tcp_payload`, node-core/src/session.rs.
use cll.Base.{◌≡◌, ◌≤◌, true, [], length}
use cll.Node.Relay.{RelayOutcome, max_relay_response_bytes}

-- A reply fits the buffer, and there is none after a timeout.
pub record IsBounded (outcome : RelayOutcome) : Type 0 where
  pub fits : length outcome.payload ≤ max_relay_response_bytes
  pub late : outcome.timed_out ≡ true → outcome.payload ≡ []
