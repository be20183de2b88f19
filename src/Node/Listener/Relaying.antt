-- ===== src/Node/Listener/Relaying.antt =====
-- The relays of `handle_client_payload`, node-core/src/listener.rs.
use cll.Base.{ℕ, ◌≡◌, refl, true, Option, some, none, List, arith}
use cll.Text.{Text}
use cll.Text.Map.{lookup-Entries, keep_if}
use cll.Net.{SocketAddr}
use cll.Node.Auth.{ClientTokenClaims, valid, verify_probe_token}
use cll.Node.Listener.{
  ParsedClientMessage, legacy_ping, probe, session_data, raw_udp_tunnel, invalid, dispatch,
  parse_client_message, handle_client_payload,
}
use cll.Node.Messages.{TransportKind, ClientProbeRequest}
use cll.Node.Platform.{Platform, NodeState}
use cll.Node.Probe.{grant_of, identity_of, from_request}
use cll.Node.Probe.Granting.{Granted, by_request, by_token, Serves}
use cll.Node.Probe.Policy.{Brings}
use cll.Node.RawTunnel.Relaying.{raw-Relays}
use cll.Node.Relay.{RelayProtocol}
use cll.Node.SessionData.Relaying.{data-Relays}
use cll.Node.SessionStore.{Grant, UdpSession, SessionStore, is_live}
use cll.Node.SessionStore.Refinement.{view}
use cll.Node.Target.Authorised.{Authorised}
use cll.Node.Task.{Task, answer, lookup, relay_udp, relay_tcp}
use cll.Node.Task.Relays.{RelayRule, RelaysOnce, Relays}

dispatch-Relays :
    (platform : Platform) (transport : TransportKind) (peer : SocketAddr)
    (message : ParsedClientMessage) (now : ℕ) (state : NodeState)
    → Relays (Authorised now state.sessions) (dispatch platform transport peer message now state)
unfolding dispatch
dispatch-Relays platform transport peer legacy_ping now state = tt
dispatch-Relays platform transport peer (probe request) now state = tt
dispatch-Relays platform transport peer (session_data request) now state =
    data-Relays platform transport peer request now state
dispatch-Relays platform transport peer (raw_udp_tunnel request) now state =
    raw-Relays peer request transport now state
dispatch-Relays platform transport peer (invalid message) now state = tt

module _ (P Q : RelayRule)
    (weaker : (endpoint : Text) (protocol : RelayProtocol) (payload : List ℕ) (timeout_ms : ℕ)
      → P endpoint protocol payload timeout_ms
      → Q endpoint protocol payload timeout_ms) where
  RelaysOnce-weaker :
      (endpoint : Text) (found : Option (List SocketAddr)) (task : Task)
      → RelaysOnce P endpoint found task
      → RelaysOnce Q endpoint found task
  RelaysOnce-weaker endpoint found (answer state encoded) h = h
  RelaysOnce-weaker endpoint found (lookup again state next) h = h
  RelaysOnce-weaker endpoint found (relay_udp addr payload timeout_ms state next) (f, p, e) =
      (f, weaker endpoint _ payload timeout_ms p, e)
  RelaysOnce-weaker endpoint found (relay_tcp addr payload timeout_ms state next) (f, p, e) =
      (f, weaker endpoint _ payload timeout_ms p, e)

  Relays-weaker : (task : Task) → Relays P task → Relays Q task
  Relays-weaker (answer state encoded) h = h
  Relays-weaker (lookup endpoint state next) h =
      λ now later found. RelaysOnce-weaker endpoint found (next now later found) (h now later found)
  Relays-weaker (relay_udp addr payload timeout_ms state next) h = h
  Relays-weaker (relay_tcp addr payload timeout_ms state next) h = h

-- A relay with the token that stands behind it: the session holds what the claims of the token and
-- the policy that they sign grant.
pub record Justified (platform : Platform) (node_id : Option ℕ) (secret : Option Text) (now : ℕ)
    (store : SessionStore) (endpoint : Text) (protocol : RelayProtocol) (payload : List ℕ)
    (timeout_ms : ℕ) : Type 0 where
  pub authorised : Authorised now store endpoint protocol payload timeout_ms
  pub checked_at : ℕ
  pub request : ClientProbeRequest
  pub claims : ClientTokenClaims
  pub token : verify_probe_token platform.codec checked_at request node_id secret ≡ valid claims
  pub brought : Brings platform claims request.route_policy
  pub grant : authorised.session.grant ≡ grant_of (identity_of claims request.route_policy)

-- What an authenticated grant comes from.
token_behind :
    (platform : Platform) (node_id : Option ℕ) (secret : Option Text) (grant : Grant)
    → Granted platform node_id secret grant
    → grant.authenticated ≡ true
    → (now : ℕ) × (request : ClientProbeRequest) × (claims : ClientTokenClaims)
      × (verify_probe_token platform.codec now request node_id secret ≡ valid claims)
      × Brings platform claims request.route_policy
      × (grant ≡ grant_of (identity_of claims request.route_policy))
unfolding grant_of from_request
token_behind platform node_id secret grant (by_request request) h = absurd (cc)
token_behind platform node_id secret grant (by_token now request claims v b) h =
    (now, request, claims, v, b, refl)

seen-stored :
    (now : ℕ) (o : Option UdpSession) (s : UdpSession)
    → keep_if (is_live now) o ≡ some s
    → o ≡ some s
seen-stored now none s h = ground arith
seen-stored now (some t) s h = ground arith

justified :
    (platform : Platform) (node_id : Option ℕ) (secret : Option Text) (now : ℕ) (state : NodeState)
    → Serves platform node_id secret state
    → (endpoint : Text) (protocol : RelayProtocol) (payload : List ℕ) (timeout_ms : ℕ)
    → Authorised now state.sessions endpoint protocol payload timeout_ms
    → Justified platform node_id secret now state.sessions endpoint protocol payload timeout_ms
unfolding view
justified platform node_id secret now state s endpoint protocol payload timeout_ms a =
    let stored = seen-stored now _ a.session a.live in
    let granted = lookup-Entries _ a.id state.sessions.udp_sessions s.granted stored in
    let (at, request, claims, token, brought, grant) =
      token_behind platform node_id secret a.session.grant granted a.proven in
    record {
      authorised = a;
      checked_at = at;
      request = request;
      claims = claims;
      token = token;
      brought = brought;
      grant = grant;
    }

-- Whatever the payload, and whatever the lookup, the upstream and the other tasks do, the answer looks
-- at most one endpoint up, relays at most one payload, to the first address found, and ends. On a
-- sound state it relays only for a session that is live when the payload comes, that holds what a
-- token which this node checked grants, and that permits the endpoint.
pub handle_client_payload-Relays :
    (platform : Platform) (node_id : Option ℕ) (secret : Option Text) (payload : Text)
    (transport : TransportKind) (peer : SocketAddr) (now : ℕ) (state : NodeState)
    → Serves platform node_id secret state
    → Relays
        (Justified platform node_id secret now state.sessions)
        (handle_client_payload platform payload transport peer now state)
unfolding handle_client_payload
handle_client_payload-Relays platform node_id secret payload transport peer now state s =
    Relays-weaker _ _ (justified platform node_id secret now state s) _
      (dispatch-Relays platform transport peer (parse_client_message platform payload) now state)
