-- ===== src/Node/RawTunnel/Keeping.antt =====
-- The invariant of the node's state through `build_raw_udp_tunnel_response`,
-- node-core/src/session.rs.
use cll.Base.{ℕ, Bool-cases, inl, inr, Option, none, some, length}
use cll.Base.Outcome.{Result, ok, err}
use cll.Text.{Text}
use cll.Net.{SocketAddr}
use cll.Node.Code.{Code}
use cll.Node.Messages.{TransportKind}
use cll.Node.Platform.{Platform, NodeState, count}
use cll.Node.Probe.Granting.{Serves, count-Serves, io-Serves}
use cll.Node.RawTunnel.{
  raw_status, raw_relayed, raw_resolved, raw_targeted, raw_session, raw_found, carries_packets,
  build_raw_udp_tunnel_response,
}
use cll.Node.Relay.{RelayOutcome, TargetResolveError}
use cll.Node.SessionStore.{UdpSessionSnapshot, UdpSessionError, missing, expired, lock_poisoned}
use cll.Node.Stats.{
  RuntimeStats, record_udp_session_rx, record_udp_session_tx, record_udp_relay_tx,
  record_udp_relay_rx,
}
use cll.Node.Target.{PendingTarget}
use cll.Node.Task.{Task}
use cll.Node.Task.Rely.{Keeps}
use cll.Node.Tunnel.{RawUdpTunnelRequest}

module _ (platform : Platform) (node_id : Option ℕ) (secret : Option Text) (peer : SocketAddr)
    (request : RawUdpTunnelRequest) where
  abbrev Safe : Task → Type 0
  Safe = Keeps (Serves platform node_id secret)

  raw_status-Keeps :
      (counter : RuntimeStats → RuntimeStats) (status : Code) (state : NodeState)
      → Serves platform node_id secret state
      → Safe (raw_status peer request counter status state)
  unfolding raw_status
  raw_status-Keeps counter status state s = count-Serves counter state s

  raw_relayed-Keeps :
      (now : ℕ) (state : NodeState) (outcome : Option RelayOutcome)
      → Serves platform node_id secret state
      → Safe (raw_relayed peer request now state outcome)
  unfolding raw_relayed
  raw_relayed-Keeps now state none s = raw_status-Keeps _ _ state s
  raw_relayed-Keeps now state (some relay) s = elim (Bool-cases relay.timed_out) [
    | inl t ↦ rw t (raw_status-Keeps _ _ state s)
    | inr t ↦
        let counters : RuntimeStats → RuntimeStats = λ stats.
          record_udp_session_tx (length relay.payload) (
            record_udp_session_rx (length request.payload) (
              record_udp_relay_rx (length relay.payload)
                (record_udp_relay_tx relay.upstream_tx_bytes stats))) in
        rw t (
          io-Serves now request.session_id peer 0 (length relay.payload) (count counters state)
            (count-Serves counters state s))
  ]

  raw_resolved-Keeps :
      (state : NodeState) (found : Result TargetResolveError SocketAddr)
      → Serves platform node_id secret state
      → Safe (raw_resolved peer request state found)
  unfolding raw_resolved
  raw_resolved-Keeps state (err error) s = raw_status-Keeps _ _ state s
  raw_resolved-Keeps state (ok addr) s =
      (s, λ now later upstream t. raw_relayed-Keeps now later _ t)

  raw_targeted-Keeps :
      (state : NodeState) (target : Result TargetResolveError (Option PendingTarget))
      → Serves platform node_id secret state
      → Safe (raw_targeted peer request state target)
  unfolding raw_targeted
  raw_targeted-Keeps state (err error) s = raw_status-Keeps _ _ state s
  raw_targeted-Keeps state (ok none) s = raw_status-Keeps _ _ state s
  raw_targeted-Keeps state (ok (some target)) s =
      (s, λ now later found t. raw_resolved-Keeps later _ t)

  raw_session-Keeps :
      (session : UdpSessionSnapshot) (state : NodeState)
      → Serves platform node_id secret state
      → Safe (raw_session peer request session state)
  unfolding raw_session
  raw_session-Keeps session state s = elim (Bool-cases session.authenticated) [
    | inl a ↦ rw (a, raw_session) (raw_targeted-Keeps state _ s)
    | inr a ↦ rw (a, raw_session) (raw_status-Keeps _ _ state s)
  ]

  raw_found-Keeps :
      (found : Result UdpSessionError UdpSessionSnapshot) (state : NodeState)
      → Serves platform node_id secret state
      → Safe (raw_found peer request found state)
  unfolding raw_found
  raw_found-Keeps (ok session) state s = raw_session-Keeps session state s
  raw_found-Keeps (err missing) state s = raw_status-Keeps _ _ state s
  raw_found-Keeps (err expired) state s = raw_status-Keeps _ _ state s
  raw_found-Keeps (err lock_poisoned) state s = raw_status-Keeps _ _ state s

  pub raw-Keeps :
      (transport : TransportKind) (now : ℕ) (state : NodeState)
      → Serves platform node_id secret state
      → Safe (build_raw_udp_tunnel_response peer request transport now state)
  unfolding build_raw_udp_tunnel_response
  raw-Keeps transport now state s = elim (Bool-cases (carries_packets transport)) [
    | inl c ↦
        rw (c, build_raw_udp_tunnel_response)
          (raw_found-Keeps _ _
            (io-Serves now request.session_id peer (length request.payload) 0 state s))
    | inr c ↦ rw (c, build_raw_udp_tunnel_response) (raw_status-Keeps _ _ state s)
  ]
