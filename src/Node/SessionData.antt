-- ===== src/Node/SessionData.antt =====
-- node-core/src/session.rs: the answer to `session.data`, an echo or a relay.
pub mod Keeping
pub mod Relaying
use cll.Base.{ℕ, ◌&&◌, ◌||◌, Option, none, some, List, [], if◌then◌else◌, not, length}
use cll.Base.Outcome.{Result, ok, err}
use cll.Text.{Text, trim_filter}
use cll.Net.{SocketAddr}
use cll.Net.Display.{socket_text}
use cll.Node.Code.{Code}
use cll.Node.Messages.{TransportKind, ClientSessionDataRequest}
use cll.Node.Platform.{Platform, NodeState, node_version, encode_json_line, count}
use cll.Node.Probe.{build_client_error}
use cll.Node.Relay.{
  RelayProtocol, RelayOutcome, TargetResolveError, relay_udp_payload, relay_tcp_payload,
  protocol_text, relay_mode, clamp_relay_timeout,
}
use cll.Node.Replies.{
  ErrorText, session_id_required, payload_required, payload_not_base64, session_id_not_found,
  session_has_expired, relay_needs_token, udp_relay_failed, tcp_relay_failed, SessionTargetInfo,
  RelayInfo, DataStatus, echoed, relayed, relay_timed_out, session_error, session_data_ok,
}
use cll.Node.RoutePolicy.{is_none}
use cll.Node.SessionStore.{
  UdpSessionSnapshot, UdpSessionError, missing, expired, lock_poisoned, record_udp_session_io,
}
use cll.Node.Stats.{
  RuntimeStats, record_udp_session_rx, record_udp_session_tx, record_udp_session_miss,
  record_udp_session_expired, record_udp_relay_tx, record_udp_relay_rx, record_udp_relay_timeout,
  record_udp_relay_error,
}
use cll.Node.Target.{PendingTarget, has_session_target, session_target, resolve_socket_addr}
use cll.Node.Task.{Task, answer, lookup, relay_udp, relay_tcp}

-- What the answer says of a relay, and the payload that it carries.
pub record DataResult : Type 0 where
  pub status : DataStatus
  pub payload : Text
  pub payload_bytes : ℕ
  pub target : Option SessionTargetInfo
  pub relay : Option RelayInfo

-- The counters of a relay that ended well.
unfoldable pub relay_counters : RelayOutcome → RuntimeStats → RuntimeStats
relay_counters relay stats =
    let sent = record_udp_relay_tx relay.upstream_tx_bytes stats in
    if relay.timed_out
    then record_udp_relay_timeout sent
    else record_udp_relay_rx (length relay.payload) sent

-- The parts of the source's function share what it has at hand: the request of a peer.
module _ (platform : Platform) (transport : TransportKind) (peer : SocketAddr)
    (request : ClientSessionDataRequest) where
  -- An error, with the counter that it moves.
  unfoldable pub data_error :
      ℕ → (RuntimeStats → RuntimeStats) → Code → ErrorText → NodeState → Task
  data_error now counter code message state =
      answer (count counter state)
        (build_client_error platform now transport session_error code message)

  -- After the encoder: the counters move only for an answer that is encoded. `text` is the session
  -- id of the request, and `payload_bytes` its payload.
  unfoldable pub data_encoded : ℕ → Text → List ℕ → NodeState → Option Text → Task
  data_encoded now text payload_bytes state none = answer state none
  data_encoded now text payload_bytes state (some encoded) =
      answer
        (record state {
          sessions = (record_udp_session_io now text peer 0 (length encoded) state.sessions).0;
          stats =
              record_udp_session_tx (length encoded)
                (record_udp_session_rx (length payload_bytes) state.stats);
        })
        (some encoded)

  -- The end of the function.
  unfoldable pub data_answer :
      ℕ → Text → List ℕ → UdpSessionSnapshot → DataResult → NodeState → Task
  data_answer now text payload_bytes session result state =
      data_encoded now text payload_bytes state (
        encode_json_line platform (
          session_data_ok (record {
            node_id = state.node_id;
            node_version = node_version;
            server_time = now;
            transport = transport;
            session_id = session.session_id;
            client_nonce = request.client_nonce;
            status = result.status;
            payload = result.payload;
            payload_bytes = result.payload_bytes;
            request_payload_bytes = length payload_bytes;
            target = result.target;
            relay = result.relay;
            session = record {
              created_at = session.created_at;
              expires_at = session.expires_at;
              authenticated = session.authenticated;
              intent_id = session.intent_id;
              route_target_addr = session.route_target_addr;
              route_policy_id = session.route_policy_id;
              route_policy_hash = session.route_policy_hash;
              user_id = session.user_id;
              device_id = session.device_id;
              game_id = session.game_id;
              region_id = session.region_id;
            };
          })))

  abbrev target_info : PendingTarget → SocketAddr → SessionTargetInfo
  target_info target addr = record {
    target_id = elim target.policy_match [ none ↦ none | some matched ↦ some matched.target_id ];
    protocol = protocol_text target.protocol;
    address = socket_text addr;
    matched_policy = elim target.policy_match [
      | none ↦ none
      | some matched ↦ some matched.policy_id
    ];
  }

  -- What a relay that ended well comes to.
  unfoldable pub relay_result : PendingTarget → SocketAddr → RelayOutcome → DataResult
  relay_result target addr relay = record {
    status = if relay.timed_out then relay_timed_out else relayed;
    payload = if relay.timed_out then [] else platform.encode_base64 relay.payload;
    payload_bytes = if relay.timed_out then 0 else length relay.payload;
    target = some (target_info target addr);
    relay = some (record {
      mode = relay_mode target.protocol;
      timeout_ms = clamp_relay_timeout request.response_timeout_ms;
      timed_out = relay.timed_out;
      upstream_tx_bytes = relay.upstream_tx_bytes;
      upstream_rx_bytes = length relay.payload;
    });
  }

  -- After the relay.
  unfoldable pub data_relayed :
      Text
      → List ℕ
      → UdpSessionSnapshot
      → PendingTarget
      → SocketAddr
      → ErrorText
      → ℕ
      → NodeState
      → Option RelayOutcome
      → Task
  data_relayed text payload_bytes session target addr failure now state none =
      data_error now record_udp_relay_error Code.relay_error failure state
  data_relayed text payload_bytes session target addr failure now state (some relay) =
      data_answer now text payload_bytes session (relay_result target addr relay)
        (count (relay_counters relay) state)

  -- The relay by the target's protocol.
  unfoldable pub data_addressed :
      Text
      → List ℕ
      → UdpSessionSnapshot
      → PendingTarget
      → RelayProtocol
      → SocketAddr
      → NodeState
      → Task
  data_addressed text payload_bytes session target RelayProtocol.udp addr state =
      relay_udp addr payload_bytes (clamp_relay_timeout request.response_timeout_ms) state
        (λ now state upstream.
          data_relayed text payload_bytes session target addr udp_relay_failed now state
            (relay_udp_payload upstream))
  data_addressed text payload_bytes session target RelayProtocol.tcp addr state =
      relay_tcp addr payload_bytes (clamp_relay_timeout request.response_timeout_ms) state
        (λ now state upstream.
          data_relayed text payload_bytes session target addr tcp_relay_failed now state
            (relay_tcp_payload payload_bytes upstream))

  -- After the lookup.
  unfoldable pub data_resolved :
      Text
      → List ℕ
      → UdpSessionSnapshot
      → PendingTarget
      → ℕ
      → NodeState
      → Result TargetResolveError SocketAddr
      → Task
  data_resolved text payload_bytes session target now state (err error) =
      data_error now record_udp_relay_error error.code error.message state
  data_resolved text payload_bytes session target now state (ok addr) =
      data_addressed text payload_bytes session target target.protocol addr state

  -- The `match` on the target.
  unfoldable pub data_targeted :
      ℕ
      → Text
      → Text
      → List ℕ
      → UdpSessionSnapshot
      → NodeState
      → Result TargetResolveError (Option PendingTarget)
      → Task
  data_targeted now text payload payload_bytes session state (err error) =
      data_error now record_udp_relay_error error.code error.message state
  data_targeted now text payload payload_bytes session state (ok none) =
      data_answer now text payload_bytes session
        (record {
          status = echoed;
          payload = payload;
          payload_bytes = length payload_bytes;
          target = none;
          relay = none;
        })
        state
  data_targeted now text payload payload_bytes session state (ok (some target)) =
      lookup target.endpoint state (λ now state found.
        data_resolved text payload_bytes session target now state (resolve_socket_addr found))

  -- With the session: a target, asked for or bound, needs a token.
  unfoldable pub data_session : ℕ → Text → Text → List ℕ → UdpSessionSnapshot → NodeState → Task
  data_session now text payload payload_bytes session state =
      if (has_session_target request || not (is_none session.route_target_addr))
        && not session.authenticated
      then data_error now record_udp_relay_error Code.relay_auth_required relay_needs_token state
      else data_targeted now text payload payload_bytes session state
          (session_target request session.route_target_addr session.route_policy)

  -- The store's answer.
  unfoldable pub data_found :
      ℕ → Text → Text → List ℕ → Result UdpSessionError UdpSessionSnapshot → NodeState → Task
  data_found now text payload payload_bytes (ok session) state =
      data_session now text payload payload_bytes session state
  data_found now text payload payload_bytes (err missing) state =
      data_error now record_udp_session_miss Code.session_not_found session_id_not_found state
  data_found now text payload payload_bytes (err lock_poisoned) state =
      data_error now record_udp_session_miss Code.session_not_found session_id_not_found state
  data_found now text payload payload_bytes (err expired) state =
      data_error now record_udp_session_expired Code.session_expired session_has_expired state

  unfoldable pub build_session_data_response : ℕ → NodeState → Task
  build_session_data_response now state = elim (trim_filter request.session_id) [
    | none ↦
        data_error now record_udp_session_miss Code.missing_session_id session_id_required state
    | some text ↦ elim request.payload [
      | none ↦ data_error now record_udp_session_miss Code.missing_payload payload_required state
      | some payload ↦ elim (platform.decode_base64 payload) [
        | none ↦
            data_error now record_udp_session_miss Code.invalid_payload payload_not_base64 state
        | some payload_bytes ↦
            let touched =
              record_udp_session_io now text peer (length payload_bytes) 0 state.sessions in
            data_found now text payload payload_bytes touched.1
              (record state { sessions = touched.0 })
      ]
    ]
  ]
