-- ===== src/Node/Probe.antt =====
-- node-core/src/session.rs: the answer to a probe, which opens a session.
pub mod Policy
pub mod Granting
pub mod Opening
pub mod SessionId
use cll.Base.{ℕ, Bool, true, false, Option, none, some, ◌∷◌, ◌++◌, map, if◌then◌else◌, not, ◌==◌}
use cll.Base.Outcome.{Result, ok, err, ◌>>=◌, ◌>>◌, bail_if, ok_or}
use cll.Text.{Text, bytes, text_eq}
use cll.Net.{SocketAddr}
use cll.Net.Display.{decimal, socket_text}
use cll.Node.Auth.{
  ClientTokenClaims, ClientRouteClaims, AuthDecision, missing, valid, invalid, verify_probe_token,
}
use cll.Node.Code.{Code}
use cll.Node.Messages.{TransportKind, ClientProbeRequest, transport_text}
use cll.Node.Platform.{
  Platform, NodeState, node_version, hash_route_policy, encode_json_line, count,
}
use cll.Node.Replies.{
  ErrorText, auth_refused, policy_required, policy_not_hashed, policy_hash_differs,
  policy_id_differs, ErrorKind, probe_error, probe_ok, client_error,
}
use cll.Node.RoutePolicy.{RoutePolicy, is_some_and}
use cll.Node.SessionStore.{Grant, new_session, register_udp_session}
use cll.Node.Stats.{
  next_probe_sequence, record_probe_session, record_probe_rejected, record_auth_missing,
  record_auth_ok, record_auth_failed,
}

abbrev pub probe_ttl_sec : ℕ
probe_ttl_sec = 30

pub record ProbeIdentity : Type 0 where
  pub credential_present : Bool
  pub credential_valid : Bool
  pub credential_expires_at : Option ℕ
  pub intent_id : Option Text
  pub route_target_addr : Option Text
  pub route_policy : Option RoutePolicy
  pub route_policy_id : Option Text
  pub route_policy_hash : Option Text
  pub user_id : Option ℕ
  pub device_id : Option Text
  pub game_id : Option ℕ
  pub region_id : Option ℕ

-- `ProbeIdentity::from_request`.
unfoldable pub from_request : ClientProbeRequest → ProbeIdentity
from_request request = record {
  credential_present = false;
  credential_valid = false;
  credential_expires_at = none;
  intent_id = none;
  route_target_addr = none;
  route_policy = none;
  route_policy_id = none;
  route_policy_hash = none;
  user_id = request.user_id;
  device_id = request.device_id;
  game_id = request.game_id;
  region_id = request.region_id;
}

-- The checks of a policy against the hash that the token signs.
unfoldable pub check_policy :
    Platform → ClientTokenClaims → Text → Option RoutePolicy → Result (Code × ErrorText) (Unit {0})
check_policy platform claims expected_hash route_policy = do
  policy ← ok_or route_policy (Code.missing_route_policy, policy_required)
  actual_hash ←
      ok_or (hash_route_policy platform policy) (Code.invalid_route_policy, policy_not_hashed)
  bail_if (not (text_eq actual_hash expected_hash))
      (Code.route_policy_mismatch, policy_hash_differs)
  bail_if
      (is_some_and claims.route_policy_id (λ policy_id. not (text_eq policy.policy_id policy_id)))
      (Code.route_policy_mismatch, policy_id_differs)

abbrev target_of : Option ClientRouteClaims → Option Text
target_of none = none
target_of (some route) = some route.target_addr

-- The identity of checked claims; a policy takes the place of a fixed target.
unfoldable pub identity_of : ClientTokenClaims → Option RoutePolicy → ProbeIdentity
identity_of claims route_policy = record {
  credential_present = true;
  credential_valid = true;
  credential_expires_at = some claims.expires_at;
  intent_id = claims.intent_id;
  route_target_addr = elim claims.route_policy_hash [
    | none ↦ target_of claims.route
    | some hash ↦ none
  ];
  route_policy = elim claims.route_policy_hash [ none ↦ none | some hash ↦ route_policy ];
  route_policy_id = claims.route_policy_id;
  route_policy_hash = claims.route_policy_hash;
  user_id = some claims.user_id;
  device_id = some claims.device_id;
  game_id = some claims.game_id;
  region_id = claims.region_id;
}

-- The policy is checked where the token has a hash of one.
unfoldable pub check_hash :
    Platform
    → ClientTokenClaims
    → Option RoutePolicy
    → Option Text
    → Result (Code × ErrorText) (Unit {0})
check_hash platform claims route_policy none = ok tt
check_hash platform claims route_policy (some expected_hash) =
    check_policy platform claims expected_hash route_policy

-- `ProbeIdentity::from_claims`.
unfoldable pub from_claims :
    Platform → ClientTokenClaims → Option RoutePolicy → Result (Code × ErrorText) ProbeIdentity
from_claims platform claims route_policy = do
  check_hash platform claims route_policy claims.route_policy_hash
  ok (identity_of claims route_policy)

-- The arguments of `UdpSession::new` that come from the identity.
unfoldable pub grant_of : ProbeIdentity → Grant
grant_of identity = record {
  user_id = identity.user_id;
  device_id = identity.device_id;
  game_id = identity.game_id;
  region_id = identity.region_id;
  authenticated = identity.credential_valid;
  intent_id = identity.intent_id;
  route_target_addr = identity.route_target_addr;
  route_policy = identity.route_policy;
  route_policy_id = identity.route_policy_id;
  route_policy_hash = identity.route_policy_hash;
}

-- The address of a peer with a dash for each colon and each dot.
dashed : Text → Text
dashed = map (λ c. if c == b':' then b'-' else if c == b'.' then b'-' else c)

unfoldable pub build_session_id : ℕ → TransportKind → SocketAddr → ℕ → Text
unfolding dashed
build_session_id now transport peer sequence =
    bytes "ps-"
    ++ (transport_text transport
        ++ (b'-'
            ∷ (decimal now ++ (b'-' ∷ (dashed (socket_text peer) ++ (b'-' ∷ decimal sequence))))))

unfoldable pub build_client_error :
    Platform → ℕ → TransportKind → ErrorKind → Code → ErrorText → Option Text
build_client_error platform now transport message_type code message = encode_json_line platform (
    client_error (record {
      message_type = message_type;
      node_version = node_version;
      server_time = now;
      transport = transport;
      code = code;
      message = message;
    }))

unfoldable pub build_probe_error_with_code :
    Platform → ℕ → TransportKind → Code → ErrorText → NodeState → NodeState × Option Text
build_probe_error_with_code platform now transport code message state = (
  count record_probe_rejected state,
  build_client_error platform now transport probe_error code message,
)

-- The end of `build_probe_response`: the session of an identity.
unfoldable pub open_session :
    Platform
    → ℕ
    → TransportKind
    → SocketAddr
    → ClientProbeRequest
    → ProbeIdentity
    → NodeState
    → NodeState × Option Text
unfolding grant_of
open_session platform now transport peer request identity state =
    let (sequence, stats) = next_probe_sequence state.stats in
    let session_id = build_session_id now transport peer sequence in
    let session = new_session now session_id (grant_of identity) probe_ttl_sec peer in
    (
      record state {
        stats = record_probe_session session_id stats;
        sessions = register_udp_session now session state.sessions;
      },
      encode_json_line platform (
          probe_ok (record {
            node_id = state.node_id;
            node_version = node_version;
            server_time = now;
            transport = transport;
            requested_transport = request.transport;
            client_nonce = request.client_nonce;
            session = record {
              session_id = session_id;
              ttl_sec = probe_ttl_sec;
              intent_id = identity.intent_id;
              route_target_addr = identity.route_target_addr;
              route_policy_id = identity.route_policy_id;
              route_policy_hash = identity.route_policy_hash;
              credential_present = identity.credential_present;
              credential_valid = identity.credential_valid;
              credential_expires_at = identity.credential_expires_at;
              user_id = identity.user_id;
              device_id = identity.device_id;
              game_id = identity.game_id;
              region_id = identity.region_id;
            };
          })),
    )

module _ (platform : Platform) (now : ℕ) (transport : TransportKind) (peer : SocketAddr)
    (request : ClientProbeRequest) where
  -- The `match` on `ProbeIdentity::from_claims`.
  unfoldable pub claims_checked :
      Result (Code × ErrorText) ProbeIdentity → NodeState → NodeState × Option Text
  claims_checked (ok identity) state =
      open_session platform now transport peer request identity (count record_auth_ok state)
  claims_checked (err (code, message)) state =
      build_probe_error_with_code platform now transport code message
        (count record_auth_failed (count record_auth_ok state))

  -- The `match` on the decision.
  unfoldable pub decided : AuthDecision → NodeState → NodeState × Option Text
  decided missing state =
      open_session platform now transport peer request (from_request request)
        (count record_auth_missing state)
  decided (valid claims) state =
      claims_checked (from_claims platform claims request.route_policy) state
  decided (invalid code message) state =
      build_probe_error_with_code platform now transport code (auth_refused message)
        (count record_auth_failed state)

  unfoldable pub build_probe_response : NodeState → NodeState × Option Text
  build_probe_response state =
      decided (verify_probe_token platform.codec now request state.node_id state.node_secret) state
