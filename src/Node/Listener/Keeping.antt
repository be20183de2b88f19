-- ===== src/Node/Listener/Keeping.antt =====
-- The invariant of a node through `handle_client_payload`, node-core/src/listener.rs.
use cll.Base.{ℕ, Option}
use cll.Text.{Text}
use cll.Net.{SocketAddr}
use cll.Node.Listener.{
  ParsedClientMessage, legacy_ping, probe, session_data, raw_udp_tunnel, invalid, dispatch,
  parse_client_message, handle_client_payload,
}
use cll.Node.Messages.{TransportKind}
use cll.Node.Platform.{Platform, NodeState}
use cll.Node.Probe.{build_probe_error_with_code}
use cll.Node.Probe.Granting.{Serves, count-Serves, probe-Serves}
use cll.Node.RawTunnel.Keeping.{raw-Keeps}
use cll.Node.SessionData.Keeping.{data-Keeps}
use cll.Node.Stats.{record_probe_rejected}
use cll.Node.Task.Rely.{Keeps}

dispatch-Keeps :
    (platform : Platform) (node_id : Option ℕ) (secret : Option Text) (transport : TransportKind)
    (peer : SocketAddr) (message : ParsedClientMessage) (now : ℕ) (state : NodeState)
    → Serves platform node_id secret state
    → Keeps (Serves platform node_id secret) (dispatch platform transport peer message now state)
unfolding dispatch build_probe_error_with_code
dispatch-Keeps platform node_id secret transport peer legacy_ping now state s = s
dispatch-Keeps platform node_id secret transport peer (probe request) now state s =
    probe-Serves platform node_id secret now transport peer request state s
dispatch-Keeps platform node_id secret transport peer (session_data request) now state s =
    data-Keeps platform node_id secret transport peer request now state s
dispatch-Keeps platform node_id secret transport peer (raw_udp_tunnel request) now state s =
    raw-Keeps platform node_id secret peer request transport now state s
dispatch-Keeps platform node_id secret transport peer (invalid message) now state s =
    count-Serves record_probe_rejected state s

-- The answer to any payload keeps the state of the node sound wherever it waits and where it ends, if
-- it is sound at the start and whenever the answer goes on: one entry for an id, each session under
-- its id, and each grant that of a request without a token, or of a token that this node checked and
-- the policy that it signs.
pub handle_client_payload-Keeps :
    (platform : Platform) (node_id : Option ℕ) (secret : Option Text) (payload : Text)
    (transport : TransportKind) (peer : SocketAddr) (now : ℕ) (state : NodeState)
    → Serves platform node_id secret state
    → Keeps
        (Serves platform node_id secret)
        (handle_client_payload platform payload transport peer now state)
unfolding handle_client_payload
handle_client_payload-Keeps platform node_id secret payload transport peer now state s =
    dispatch-Keeps platform node_id secret transport peer (parse_client_message platform payload)
      now state s
