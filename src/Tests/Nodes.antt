-- ===== src/Tests/Nodes.antt =====
-- A node with one authenticated session, which a packet relays for.
use cll.Base.{ℕ, ◌≡◌, refl, true, false, Option, some, none, [], ◌∷◌, ◌++◌, arith}
use cll.Text.Map.{lookup as lookup_text}
use cll.Wire.{be16_at, be32_at}
use cll.Net.Display.{decimal}
use cll.Node.Tunnel.{
  parse_raw_udp_tunnel_frame, check_header, read_u16, read_u32, total_length, read_fields,
  read_utf8_field, read_target_id,
}
use cll.Node.RoutePolicy.{
  match_route_policy_target, target_protocol, match_rules, other_target_id, in_ports,
  target_matches_host, host_type_matches, ip_in_cidr, ip_matches, same_network, cidr_mask,
}
use cll.Node.Target.{session_target, policy_target, host_port}
use cll.Text.{
  text_eq, is_utf8, trim, to_ascii_lowercase, eq_ignore_ascii_case, split_once, Text, bytes,
}
use cll.Net.{parse_ip, parse_u8}
use cll.Node.Listener.{handle_client_payload, parse_client_message}
use cll.Node.Listener.Interleaving.{Node, start, started, payload_comes, settle, Reached-Serves}
use cll.Node.Listener.Keeping.{handle_client_payload-Keeps}
use cll.Node.Listener.Relaying.{Justified, handle_client_payload-Relays}
use cll.Node.Messages.{tcp, udp}
use cll.Node.Platform.{NodeState, hash_route_policy}
use cll.Node.Probe.{grant_of, identity_of, build_probe_response}
use cll.Node.Probe.Opening.{Authenticated, next_id, Authenticated-iff}
use cll.Node.Probe.SessionId.{build_session_id-injective}
use cll.Node.Probe.Granting.{by_token, Serves, Granted-policy}
use cll.Node.Probe.Policy.{signed_policy}
use cll.Node.Relay.{parse_protocol}
use cll.Node.SessionStore.{Grant, UdpSession, new_session, record_udp_session_io, snapshot, touched}
use cll.Node.Stats.{no_stats}
use cll.Node.Task.{Task, answer, lookup, relay_udp, relay_tcp}
use cll.Node.RawTunnel.{
  raw_found, raw_session, raw_targeted, target_request, build_raw_udp_tunnel_response,
}
use cll.Node.Task.Relays.{Relays}
use cll.Node.Task.Rely.{Keeps}
use cll.Tests.Tokens.{secret, asked, accepted, policy-Signs}
use cll.Tests.Toy.{platform, claims, peer, policy, policy_hash}

abbrev grant : Grant
grant = grant_of (identity_of claims (some policy))

abbrev session : UdpSession
session = new_session 500 (bytes "s1") grant 30 peer

abbrev state : NodeState
state = record {
  node_id = some 7;
  node_secret = some secret;
  stats = no_stats;
  sessions = record { udp_sessions = (bytes "s1", session) ∷ []; poisoned = false };
}

state-Serves : Serves platform (some 7) (some secret) state
unfolding new_session
state-Serves = record {
  same_node = refl;
  same_secret = refl;
  store_valid = record { distinct = (tt, tt); owned = (refl, tt) };
  granted = (
    by_token 500 asked claims accepted (signed_policy policy_hash policy refl refl policy-Signs),
    tt,
  );
}

-- A packet for the session, to a host and a port that the policy allows.
abbrev header : Text
header = 1 ∷ 1 ∷ 0 ∷ 0 ∷ 0 ∷ 2 ∷ 0 ∷ 0 ∷ 0 ∷ 13 ∷ 105 ∷ 135 ∷ 0 ∷ 0 ∷ 0 ∷ 1 ∷ []

abbrev packet : Text
packet = bytes "XAU1" ++ (header ++ bytes "s1198.51.100.20x")

abbrev wanted : Task → Option Text
wanted (lookup endpoint _ next) = some endpoint
wanted (answer _ encoded) = none
wanted (relay_udp addr payload timeout_ms _ next) = none
wanted (relay_tcp addr payload timeout_ms _ next) = none

packet_looked_up :
    wanted (handle_client_payload platform packet udp peer 510 state)
    ≡ some (bytes "198.51.100.20:27015")
unfolding handle_client_payload parse_client_message build_raw_udp_tunnel_response text_eq
    parse_raw_udp_tunnel_frame check_header read_u16 read_u32 be16_at be32_at total_length
    read_fields read_utf8_field read_target_id is_utf8 trim raw_found raw_session raw_targeted
    target_request record_udp_session_io lookup_text new_session snapshot touched grant_of
    identity_of session_target policy_target parse_protocol to_ascii_lowercase
    match_route_policy_target target_protocol match_rules other_target_id in_ports
    eq_ignore_ascii_case target_matches_host host_type_matches ip_in_cidr parse_ip split_once
    parse_u8 ip_matches same_network cidr_mask host_port decimal
packet_looked_up = refl

handle_client_payload-Relays_example :
    Relays
      (Justified platform (some 7) (some secret) 510 state.sessions)
      (handle_client_payload platform packet udp peer 510 state)
handle_client_payload-Relays_example =
    handle_client_payload-Relays platform (some 7) (some secret) packet udp peer 510 state
      state-Serves

handle_client_payload-Keeps_example :
    Keeps
      (Serves platform (some 7) (some secret))
      (handle_client_payload platform packet udp peer 510 state)
handle_client_payload-Keeps_example =
    handle_client_payload-Keeps platform (some 7) (some secret) packet udp peer 510 state
      state-Serves

-- A node that answers a probe.
abbrev probed : Node
probed =
    settle
      (handle_client_payload platform (bytes "{}") tcp peer 500
        (start (some 7) (some secret)).state)
      []

Reached-Serves_example : Serves platform (some 7) (some secret) probed.state
Reached-Serves_example =
    Reached-Serves platform (some 7) (some secret) probed
      (payload_comes 500 (bytes "{}") tcp peer started)

Granted-policy_example :
    (grant.authenticated ≡ true)
    × (grant.route_target_addr ≡ none)
    × (grant.route_policy_hash ≡ hash_route_policy platform policy)
unfolding grant_of identity_of
Granted-policy_example =
    Granted-policy platform (some 7) (some secret) grant policy
      (by_token 500 asked claims accepted (signed_policy policy_hash policy refl refl policy-Signs))
      refl

Authenticated-iff_example :
    Authenticated
      (next_id platform 500 tcp peer asked (start (some 7) (some secret)).state)
      (build_probe_response platform 500 tcp peer asked (start (some 7) (some secret)).state).0
unfolding lookup_text
Authenticated-iff_example =
    (Authenticated-iff platform 500 tcp peer asked (start (some 7) (some secret)).state refl refl).1
      (claims, accepted, signed_policy policy_hash policy refl refl policy-Signs)

build_session_id-injective_example : ◌≡◌ {A = ℕ} 5 5
build_session_id-injective_example =
    build_session_id-injective 500 500 udp udp peer peer 5 5 (omega arith) (omega arith) refl
