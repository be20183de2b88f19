-- ===== src/Node/Listener.antt =====
-- `parse_client_message` of node-core/src/session.rs and `handle_client_payload` of
-- node-core/src/listener.rs: what a payload asks for, and who answers it.
pub mod Keeping
pub mod Relaying
pub mod Interleaving
use cll.Base.{ℕ, ◌||◌, Option, none, some, if◌then◌else◌, not, take, is_empty}
use cll.Base.Outcome.{ok, err}
use cll.Text.{Text, bytes, text_eq, trim, eq_ignore_ascii_case, is_utf8}
use cll.Net.{SocketAddr}
use cll.Node.Code.{Code}
use cll.Node.Messages.{TransportKind, tcp, udp, quic, ClientProbeRequest, ClientSessionDataRequest}
use cll.Node.Platform.{Platform, NodeState}
use cll.Node.Probe.{build_probe_response, build_probe_error_with_code}
use cll.Node.RawTunnel.{build_raw_udp_tunnel_response}
use cll.Node.Replies.{
  InvalidMessage, bad_frame, payload_not_text, not_json, wrong_protocol, bad_probe,
  bad_session_data, type_unknown, type_required, request_invalid,
}
use cll.Node.RoutePolicy.{is_some_and}
use cll.Node.SessionData.{build_session_data_response}
use cll.Node.Task.{Task, answer}
use cll.Node.Tunnel.{RawUdpTunnelRequest, raw_udp_tunnel_magic, parse_raw_udp_tunnel_frame}

pub data ParsedClientMessage : Type 0 where
  legacy_ping : ParsedClientMessage
  probe : ClientProbeRequest → ParsedClientMessage
  session_data : ClientSessionDataRequest → ParsedClientMessage
  raw_udp_tunnel : RawUdpTunnelRequest → ParsedClientMessage
  invalid : InvalidMessage → ParsedClientMessage

abbrev pub protocol_version : Text
protocol_version = bytes "xaccel/1"

-- The `match` on the type of a message.
unfoldable pub parse_typed : Platform → Option Text → Text → ParsedClientMessage
parse_typed platform none trimmed = invalid type_required
parse_typed platform (some kind) trimmed =
    if text_eq kind (bytes "probe")
    then elim (platform.read_probe trimmed) [
      | none ↦ invalid bad_probe
      | some request ↦ probe request
    ]
    else if text_eq kind (bytes "session.data")
    then elim (platform.read_session_data trimmed) [
      | none ↦ invalid bad_session_data
      | some request ↦ session_data request
    ]
    else invalid type_unknown

unfoldable pub parse_client_message : Platform → Text → ParsedClientMessage
unfolding parse_typed
parse_client_message platform payload =
    if text_eq (take 4 payload) raw_udp_tunnel_magic
    then elim (parse_raw_udp_tunnel_frame payload) [
      | ok request ↦ raw_udp_tunnel request
      | err error ↦ invalid (bad_frame error)
    ]
    else if not (is_utf8 payload)
    then invalid payload_not_text
    else let trimmed = trim payload in
      if is_empty trimmed || eq_ignore_ascii_case trimmed (bytes "ping")
      then legacy_ping
      else elim (platform.read_header trimmed) [
        | none ↦ invalid not_json
        | some header ↦
            if not (is_some_and header.protocol (λ protocol. text_eq protocol protocol_version))
            then invalid wrong_protocol
            else parse_typed platform header.message_type trimmed
      ]

-- The answers to a ping.
unfoldable pub ready_text : TransportKind → Text
ready_text tcp = bytes "xaccel-node tcp listener ready\n"
ready_text udp = bytes "xaccel-node udp listener ready\n"
ready_text quic = bytes "xaccel-node quic listener ready\n"

-- A handler that does not wait.
abbrev at_once : NodeState × Option Text → Task
at_once (state, encoded) = answer state encoded

unfoldable pub dispatch :
    Platform → TransportKind → SocketAddr → ParsedClientMessage → ℕ → NodeState → Task
dispatch platform transport peer legacy_ping now state = answer state (some (ready_text transport))
dispatch platform transport peer (probe request) now state =
    at_once (build_probe_response platform now transport peer request state)
dispatch platform transport peer (session_data request) now state =
    build_session_data_response platform transport peer request now state
dispatch platform transport peer (raw_udp_tunnel request) now state =
    build_raw_udp_tunnel_response peer request transport now state
dispatch platform transport peer (invalid message) now state = at_once (
    build_probe_error_with_code platform now transport Code.invalid_probe (request_invalid message)
      state)

unfoldable pub handle_client_payload :
    Platform → Text → TransportKind → SocketAddr → ℕ → NodeState → Task
unfolding dispatch
handle_client_payload platform payload transport peer now state =
    dispatch platform transport peer (parse_client_message platform payload) now state
