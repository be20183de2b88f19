-- ===== src/Node/RawTunnel.antt =====
-- node-core/src/session.rs: the answer to a raw UDP tunnel packet.
pub mod Keeping
pub mod Relaying
use cll.Base.{ℕ, Bool, true, false, Option, none, some, [], if◌then◌else◌, not, length}
use cll.Base.Outcome.{Result, ok, err}
use cll.Text.{bytes}
use cll.Net.{SocketAddr}
use cll.Node.Code.{Code}
use cll.Node.Messages.{TransportKind, tcp, udp, quic, ClientSessionDataRequest}
use cll.Node.Platform.{NodeState, count}
use cll.Node.Relay.{TargetResolveError, RelayOutcome, relay_udp_payload, default_relay_timeout_ms}
use cll.Node.SessionStore.{
  UdpSessionSnapshot, UdpSessionError, missing, expired, lock_poisoned, record_udp_session_io,
}
use cll.Node.Stats.{
  RuntimeStats, record_udp_session_rx, record_udp_session_tx, record_udp_session_miss,
  record_udp_session_expired, record_udp_relay_tx, record_udp_relay_rx, record_udp_relay_timeout,
  record_udp_relay_error,
}
use cll.Node.Target.{PendingTarget, session_target, resolve_socket_addr}
use cll.Node.Task.{Task, answer, lookup, relay_udp}
use cll.Node.Tunnel.{RawUdpTunnelRequest, encode_raw_udp_tunnel_response}

-- The transports that carry packets.
abbrev carries_packets : TransportKind → Bool
carries_packets tcp = false
carries_packets udp = true
carries_packets quic = true

-- The `session.data` request that stands for a packet.
unfoldable pub target_request : RawUdpTunnelRequest → ClientSessionDataRequest
target_request request = record {
  session_id = some request.session_id;
  client_nonce = none;
  payload = none;
  target_addr = none;
  target_host = none;
  target_port = none;
  target_protocol = some (bytes "udp");
  target = some (record {
    target_id = request.target_id;
    protocol = some (bytes "udp");
    host = request.host;
    port = request.port;
    original_domain = none;
  });
  response_timeout_ms = some default_relay_timeout_ms;
}

module _ (peer : SocketAddr) (request : RawUdpTunnelRequest) where
  -- An answer with a status and no payload, and the counter that it moves.
  unfoldable pub raw_status : (RuntimeStats → RuntimeStats) → Code → NodeState → Task
  raw_status counter status state =
      answer (count counter state)
        (some (encode_raw_udp_tunnel_response request.session_id status []))

  -- After the relay.
  unfoldable pub raw_relayed : ℕ → NodeState → Option RelayOutcome → Task
  raw_relayed now state none = raw_status record_udp_relay_error Code.relay_error state
  raw_relayed now state (some relay) =
      if relay.timed_out
      then raw_status
          (λ stats. record_udp_relay_timeout (record_udp_relay_tx relay.upstream_tx_bytes stats))
          Code.upstream_timeout state
      else answer
          (record state {
            stats = record_udp_session_tx (length relay.payload) (
                record_udp_session_rx (length request.payload) (
                  record_udp_relay_rx (length relay.payload)
                    (record_udp_relay_tx relay.upstream_tx_bytes state.stats)));
            sessions =
                (record_udp_session_io now request.session_id peer 0 (length relay.payload)
                  state.sessions).0;
          })
          (some (encode_raw_udp_tunnel_response request.session_id Code.forwarded relay.payload))

  -- After the lookup.
  unfoldable pub raw_resolved : NodeState → Result TargetResolveError SocketAddr → Task
  raw_resolved state (err error) = raw_status record_udp_relay_error error.code state
  raw_resolved state (ok addr) =
      relay_udp addr request.payload default_relay_timeout_ms state
        (λ now state upstream. raw_relayed now state (relay_udp_payload upstream))

  -- The `match` on the target.
  unfoldable pub raw_targeted : NodeState → Result TargetResolveError (Option PendingTarget) → Task
  raw_targeted state (err error) = raw_status record_udp_relay_error error.code state
  raw_targeted state (ok none) = raw_status record_udp_relay_error Code.missing_target state
  raw_targeted state (ok (some target)) =
      lookup target.endpoint state
        (λ now state found. raw_resolved state (resolve_socket_addr found))

  -- With the session.
  unfoldable pub raw_session : UdpSessionSnapshot → NodeState → Task
  raw_session session state =
      if not session.authenticated
      then raw_status record_udp_relay_error Code.relay_auth_required state
      else raw_targeted state
          (session_target (target_request request) session.route_target_addr session.route_policy)

  -- The store's answer.
  unfoldable pub raw_found : Result UdpSessionError UdpSessionSnapshot → NodeState → Task
  raw_found (ok session) state = raw_session session state
  raw_found (err missing) state = raw_status record_udp_session_miss Code.session_not_found state
  raw_found (err lock_poisoned) state =
      raw_status record_udp_session_miss Code.session_not_found state
  raw_found (err expired) state = raw_status record_udp_session_expired Code.session_expired state

  unfoldable pub build_raw_udp_tunnel_response : TransportKind → ℕ → NodeState → Task
  build_raw_udp_tunnel_response transport now state =
      if not (carries_packets transport)
      then raw_status (λ stats. stats) Code.unsupported_transport state
      else let touched =
          record_udp_session_io now request.session_id peer (length request.payload) 0
            state.sessions in
        raw_found touched.1 (record state { sessions = touched.0 })
